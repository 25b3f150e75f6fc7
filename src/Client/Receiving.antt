-- ===== src/Client/Receiving.antt =====
-- `Client::recv` on a stream of messages that comes in any chunks.
use multi_instrument_orderbo.Prelude.{
  ℕ, suc, ◌^◌, ◌<◌, ◌≡◌, ◌⊎◌, refl, sym, ap, ap₂, subst, ◌∙◌, true, false, none, some, List, [],
  ◌∷◌, ◌++◌, length, append_assoc, length-append, arith, inl, inr,
}
use multi_instrument_orderbo.Protocol.{MessageBody, DecodedMessage, IsBody}
use multi_instrument_orderbo.Codec.{encode}
use multi_instrument_orderbo.Codec.RoundTrip.{encode-Encoded}
use multi_instrument_orderbo.Framer.{next, feed, has_error}
use multi_instrument_orderbo.Framer.Stream.{
  framer_of, next_encoded, Sent, stream, All-IsBody, contents,
}
use multi_instrument_orderbo.Framer.Partial.{next_partial}
use multi_instrument_orderbo.Client.{Client, Receipt, recv, recv_many}

-- The bytes of all chunks.
abbrev pub joined : List (List ℕ) → List ℕ
joined [] = []
joined (chunk ∷ chunks) = chunk ++ joined chunks

-- Two ways to cut a list: the first piece of one has all of the other's, or it lacks something.
abbrev Cut : List ℕ → List ℕ → List ℕ → List ℕ → Type 0
Cut xs ts es ss =
    ((more : List ℕ) × (xs ≡ es ++ more) × (more ++ ts ≡ ss))
    ⊎ ((y : ℕ) × (ys : List ℕ) × (es ≡ xs ++ y ∷ ys))

same_head : (x y : ℕ) (xs ys : List ℕ) → x ∷ xs ≡ y ∷ ys → (x ≡ y) × (xs ≡ ys)
same_head x y xs ys e = ground (arith, e)

cut : (xs ts es ss : List ℕ) → xs ++ ts ≡ es ++ ss → Cut xs ts es ss
cut xs ts [] ss e = inl (xs, refl, e)
cut [] ts (y ∷ ys) ss e = inr (y, ys, refl)
cut (x ∷ xs) ts (y ∷ ys) ss e =
    let (same, rest) = same_head x y (xs ++ ts) (ys ++ ss) e in
    elim (cut xs ts ys ss rest) [
      | inl (more, f, g) ↦ inl (more, ap (◌∷◌ x) f ∙ ap (λ z. z ∷ (ys ++ more)) same, g)
      | inr (z, zs, f) ↦ inr (z, zs, ap (◌∷◌ y) f ∙ ap (λ w. w ∷ (xs ++ z ∷ zs)) (sym same))
    ]

-- A client that has these bytes and no error.
abbrev pub client_of : ℕ → List ℕ → Client
client_of out_seq bytes = record { framer = framer_of bytes; out_seq = out_seq }

-- The answer to the first of the messages that are still to come.
record Taken (seq : ℕ) (b : MessageBody) (ms : Sent) (out_seq : ℕ) (r : Receipt) : Type 0 where
  message : DecodedMessage
  answer : r.message ≡ some message
  sequence : message.header.sequence ≡ seq
  body : message.body ≡ b
  buffered : List ℕ
  client : r.client ≡ client_of out_seq buffered
  left : buffered ++ joined r.chunks ≡ stream ms

recv_whole :
    (chunks : List (List ℕ)) (buffered more : List ℕ) (out_seq : ℕ) (d : DecodedMessage)
    → next (framer_of buffered) ≡ (framer_of more, some d)
    → recv chunks (client_of out_seq buffered)
      ≡ record { client = client_of out_seq more; chunks = chunks; message = some d }
unfolding recv
recv_whole [] buffered more out_seq d e = rw (e, recv) refl
recv_whole (chunk ∷ chunks) buffered more out_seq d e =
    rw (e, recv)
      (ap
        (λ f. record {
          client = record { framer = f; out_seq = out_seq };
          chunks = chunk ∷ chunks;
          message = some d;
        })
        (ap (λ r. r.0) e))

recv_waits :
    (chunk : List ℕ) (chunks : List (List ℕ)) (buffered : List ℕ) (out_seq : ℕ)
    → next (framer_of buffered) ≡ (framer_of buffered, none)
    → recv (chunk ∷ chunks) (client_of out_seq buffered)
      ≡ recv chunks (client_of out_seq (buffered ++ chunk))
unfolding recv feed
recv_waits chunk chunks buffered out_seq e =
    rw (e, recv)
      (ap
        (λ f. elim (has_error f.error) [
          | true ↦ record {
            client = record { framer = f; out_seq = out_seq };
            chunks = chunk ∷ chunks;
            message = none;
          }
          | false ↦ recv chunks (record { framer = feed chunk f; out_seq = out_seq })
        ])
        (ap (λ r. r.0) e))

next_nothing : next (framer_of []) ≡ (framer_of [], none)
unfolding next
next_nothing = refl

nothing_in : (xs ys : List ℕ) → xs ++ ys ≡ [] → (xs ≡ []) × (ys ≡ [])
nothing_in [] ys e = (refl, e)
nothing_in (x ∷ xs) ys e = absurd (omega (arith, ap length e))

recv_nothing :
    (chunks : List (List ℕ)) (out_seq : ℕ)
    → joined chunks ≡ []
    → recv chunks (client_of out_seq [])
      ≡ record { client = client_of out_seq []; chunks = []; message = none }
unfolding recv next
recv_nothing [] out_seq e = refl
recv_nothing (chunk ∷ chunks) out_seq e =
    let (empty, rest) = nothing_in chunk (joined chunks) e in
    recv_waits chunk chunks [] out_seq next_nothing
    ∙ ap (λ bs. recv chunks (client_of out_seq bs)) empty
    ∙ recv_nothing chunks out_seq rest

module _ (seq : ℕ) (b : MessageBody) (ms : Sent) (h : seq < 2 ^ 32) (k : IsBody b)
    (out_seq : ℕ) where
  whole-Taken :
      (chunks : List (List ℕ)) (buffered more : List ℕ)
      → buffered ≡ encode seq b ++ more
      → more ++ joined chunks ≡ stream ms
      → Taken seq b ms out_seq (recv chunks (client_of out_seq buffered))
  whole-Taken chunks buffered more e f =
      let c = encode-Encoded seq b h k in
      let d : DecodedMessage = record { header = c.header; body = b } in
      let runs = ap (λ bs. next (framer_of bs)) e ∙ next_encoded seq b c more in
      subst (Taken seq b ms out_seq) (sym (recv_whole chunks buffered more out_seq d runs))
        (record {
          message = d;
          answer = refl;
          sequence = c.sequence_kept;
          body = refl;
          buffered = more;
          client = refl;
          left = f;
        })

  recv-Taken :
      (chunks : List (List ℕ)) (buffered : List ℕ)
      → buffered ++ joined chunks ≡ encode seq b ++ stream ms
      → Taken seq b ms out_seq (recv chunks (client_of out_seq buffered))
  recv-Taken [] buffered e = elim (cut buffered [] (encode seq b) (stream ms) e) [
    | inl (more, f, g) ↦ whole-Taken [] buffered more f g
    | inr (y, ys, f) ↦ absurd (
        omega (
          arith,
          ap length f,
          ap length e,
          length-append buffered (y ∷ ys),
          length-append buffered [],
          length-append (encode seq b) (stream ms),
        ))
  ]
  recv-Taken (chunk ∷ chunks) buffered e =
      let ih =
        recv-Taken chunks (buffered ++ chunk) (append_assoc buffered chunk (joined chunks) ∙ e) in
      elim (cut buffered (chunk ++ joined chunks) (encode seq b) (stream ms) e) [
        | inl (more, f, g) ↦ whole-Taken (chunk ∷ chunks) buffered more f g
        | inr (y, ys, f) ↦
            subst (Taken seq b ms out_seq)
              (sym
                (recv_waits chunk chunks buffered out_seq (next_partial seq b buffered y ys h k f)))
              ih
      ]

-- What the calls of `recv` give.
pub record Delivered (ms : Sent) (out_seq : ℕ) (chunks : List (List ℕ)) (c : Client) : Type 0 where
  pub messages : List DecodedMessage
  pub last : Receipt
  pub runs : recv_many (suc (length ms)) chunks c ≡ (messages, last)
  pub same : contents messages ≡ ms
  pub at_end : last.message ≡ none
  pub client : last.client ≡ client_of out_seq []

-- However the bytes of some messages are cut into chunks, the calls of `recv` give these messages, one
-- each and in order, and then nothing; the client is left without a byte and without an error.
pub recv_many-Delivered :
    (ms : Sent) (chunks : List (List ℕ)) (buffered : List ℕ) (out_seq : ℕ)
    → All-IsBody ms
    → buffered ++ joined chunks ≡ stream ms
    → Delivered ms out_seq chunks (client_of out_seq buffered)
unfolding recv_many
recv_many-Delivered [] chunks buffered out_seq h e =
    let (empty, rest) = nothing_in buffered (joined chunks) e in
    let nothing =
      ap (λ bs. recv chunks (client_of out_seq bs)) empty ∙ recv_nothing chunks out_seq rest in
    record {
      messages = [];
      last = recv chunks (client_of out_seq buffered);
      runs = rw (ap (λ r. r.message) nothing, recv_many) refl;
      same = refl;
      at_end = ap (λ r. r.message) nothing;
      client = ap (λ r. r.client) nothing;
    }
recv_many-Delivered ((seq, b) ∷ ms) chunks buffered out_seq h e =
    let t = recv-Taken seq b ms h.0 h.1 out_seq chunks buffered e in
    let r = recv chunks (client_of out_seq buffered) in
    let rest = recv_many-Delivered ms r.chunks t.buffered out_seq h.2 t.left in
    record {
      messages = t.message ∷ rest.messages;
      last = rest.last;
      runs =
          rw (t.answer, recv_many)
            (ap (λ x. (t.message ∷ x.0, x.1))
              (ap (recv_many (suc (length ms)) r.chunks) t.client ∙ rest.runs));
      same =
          ap₂ (λ x y. (x, y) ∷ contents rest.messages) t.sequence t.body
          ∙ ap (◌∷◌ (seq, b)) rest.same;
      at_end = rest.at_end;
      client = rest.client;
    }
