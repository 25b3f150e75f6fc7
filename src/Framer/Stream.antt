-- ===== src/Framer/Stream.antt =====
-- `Framer` against the stream of messages that comes in.
use multi_instrument_orderbo.Prelude.{
  ℕ, zero, suc, ◌+◌, ◌≤◌, ◌<◌, ◌^◌, ◌≡◌, refl, sym, ap, subst, ◌∙◌, none, some, List, [], ◌∷◌, ◌++◌,
  length, take, drop, take-append-length, drop-append-length, append_assoc, length-append, arith,
  inl, inr, Option-cases,
}
use multi_instrument_orderbo.Protocol.{
  MessageHeader, MessageBody, DecodedMessage, header_size, max_body_size, protocol_version, IsBody,
}
use multi_instrument_orderbo.Codec.{decode_header, decode_body, encode}
use multi_instrument_orderbo.Codec.RoundTrip.{Encoded, encode-Encoded}
use multi_instrument_orderbo.Framer.{
  Framer, FramerError, no_error, feed, next_body, next, new_framer,
}

pub take_front : (n : ℕ) (xs ys : List ℕ) → length xs ≡ n → take n (xs ++ ys) ≡ xs
take_front n xs ys e = subst (λ k. take k (xs ++ ys) ≡ xs) e (take-append-length xs ys)

drop_front : (n : ℕ) (xs ys : List ℕ) → length xs ≡ n → drop n (xs ++ ys) ≡ ys
drop_front n xs ys e = subst (λ k. drop k (xs ++ ys) ≡ ys) e (drop-append-length xs ys)

pub take_more : (n : ℕ) (xs ys : List ℕ) → n ≤ length xs → take n (xs ++ ys) ≡ take n xs
take_more zero xs ys h = refl
take_more (suc n) [] ys h = absurd (omega arith)
take_more (suc n) (x ∷ xs) ys h = ap (◌∷◌ x) (take_more n xs ys (omega arith))

drop_more : (n : ℕ) (xs ys : List ℕ) → n ≤ length xs → drop n (xs ++ ys) ≡ drop n xs ++ ys
drop_more zero xs ys h = refl
drop_more (suc n) [] ys h = absurd (omega arith)
drop_more (suc n) (x ∷ xs) ys h = drop_more n xs ys (omega arith)

pub length-drop : (n : ℕ) (xs : List ℕ) → n ≤ length xs → n + length (drop n xs) ≡ length xs
length-drop zero xs h = omega arith
length-drop (suc n) [] h = absurd (omega arith)
length-drop (suc n) (x ∷ xs) h = omega (arith, length-drop n xs (omega arith))

abbrev pub framer_of : List ℕ → Framer
framer_of bytes = record { buf = bytes; error = no_error }

-- The bytes start with a whole message.
pub record Framed (bytes : List ℕ) (d : DecodedMessage) : Type 0 where
  pub version_ok : d.header.version ≡ protocol_version
  pub size_ok : d.header.body_length ≤ max_body_size
  pub enough : header_size + d.header.body_length ≤ length bytes
  pub head : decode_header (take header_size bytes) ≡ some d.header
  pub body :
      decode_body d.header.msg_type (take d.header.body_length (drop header_size bytes))
      ≡ some d.body

next_of_Framed :
    (bytes : List ℕ) (d : DecodedMessage)
    → Framed bytes d
    → next (framer_of bytes) ≡ (framer_of (drop (header_size + d.header.body_length) bytes), some d)
unfolding next next_body
next_of_Framed bytes d h = ground (arith, h.version_ok, h.size_ok, h.enough, h.head, h.body)

Framed-of_body :
    (h : MessageHeader) (bytes : List ℕ) (f' : Framer) (d : DecodedMessage)
    → decode_header (take header_size bytes) ≡ some h
    → next_body h (framer_of bytes) ≡ (f', some d)
    → Framed bytes d
unfolding next_body
Framed-of_body h bytes f' d e g = ground (arith, e, g)

Framed-of_next :
    (bytes : List ℕ) (f' : Framer) (d : DecodedMessage)
    → next (framer_of bytes) ≡ (f', some d)
    → Framed bytes d
unfolding next
Framed-of_next bytes f' d e = elim (Option-cases (decode_header (take header_size bytes))) [
  | inl none_read ↦ absurd (ground (arith, e, none_read))
  | inr (h, read) ↦ Framed-of_body h bytes f' d read (ground (arith, e, read))
]

take_inside :
    (n : ℕ) (bytes more : List ℕ)
    → header_size + n ≤ length bytes
    → take n (drop header_size (bytes ++ more)) ≡ take n (drop header_size bytes)
take_inside n bytes more h =
    ap (take n) (drop_more header_size bytes more (omega (arith, h)))
    ∙ take_more n (drop header_size bytes) more
        (omega (arith, h, length-drop header_size bytes (omega (arith, h))))

Framed-more : (bytes more : List ℕ) (d : DecodedMessage) → Framed bytes d → Framed (bytes ++ more) d
Framed-more bytes more d h = record {
  version_ok = h.version_ok;
  size_ok = h.size_ok;
  enough = omega (arith, h.enough, length-append bytes more);
  head = ap decode_header (take_more header_size bytes more (omega (arith, h.enough))) ∙ h.head;
  body =
      ap (decode_body d.header.msg_type) (take_inside d.header.body_length bytes more h.enough)
      ∙ h.body;
}

-- While no error is flagged: a message that `next` gives is given just so when further bytes come
-- in before the call, and these bytes then stand behind what is left.
pub next-feed :
    (f f' : Framer) (more : List ℕ) (d : DecodedMessage)
    → f.error ≡ no_error
    → next f ≡ (f', some d)
    → next (feed more f) ≡ (feed more f', some d)
unfolding feed
next-feed f f' more d e n = subst Claim (sym (ap framer_with e)) claim_ok n
  where
    framer_with : FramerError → Framer
    framer_with x = record { buf = f.buf; error = x }

    Claim : Framer → Type 0
    Claim g = next g ≡ (f', some d) → next (feed more g) ≡ (feed more f', some d)

    claim_ok :
        next (framer_of f.buf) ≡ (f', some d)
        → next (framer_of (f.buf ++ more)) ≡ (feed more f', some d)
    claim_ok m =
        let h = Framed-of_next f.buf f' d m in
        let same : framer_of (drop (header_size + d.header.body_length) f.buf) ≡ f' =
          ap (λ t. t.0) (sym (next_of_Framed f.buf d h) ∙ m) in
        next_of_Framed (f.buf ++ more) d (Framed-more f.buf more d h)
        ∙ ap (λ bs. (framer_of bs, some d))
            (drop_more (header_size + d.header.body_length) f.buf more h.enough)
        ∙ ap (λ g. (feed more g, some d)) same

module _ (seq : ℕ) (b : MessageBody) (c : Encoded seq b) (more : List ℕ) where
  abbrev decoded : DecodedMessage
  decoded = record { header = c.header; body = b }

  split : encode seq b ++ more ≡ c.head ++ (c.rest ++ more)
  split = ap (λ bs. bs ++ more) c.bytes ∙ append_assoc c.head c.rest more

  Framed-split : Framed (c.head ++ (c.rest ++ more)) decoded
  Framed-split = record {
    version_ok = c.version_kept;
    size_ok = omega (arith, c.rest_size, c.length_kept);
    enough = omega (
      arith,
      c.head_size,
      c.length_kept,
      length-append c.head (c.rest ++ more),
      length-append c.rest more,
    );
    head =
        ap decode_header (take_front header_size c.head (c.rest ++ more) c.head_size)
        ∙ c.header_read;
    body =
        ap (λ bs. decode_body c.header.msg_type (take c.header.body_length bs))
          (drop_front header_size c.head (c.rest ++ more) c.head_size)
        ∙ ap (decode_body c.header.msg_type)
            (take_front c.header.body_length c.rest more (sym c.length_kept))
        ∙ c.body_read;
  }

  behind_message : drop (header_size + c.header.body_length) (encode seq b ++ more) ≡ more
  behind_message =
      ap (λ bs. drop (header_size + c.header.body_length) (bs ++ more)) c.bytes
      ∙ drop_front (header_size + c.header.body_length) (c.head ++ c.rest) more
          (omega (arith, length-append c.head c.rest, c.head_size, c.length_kept))

  pub next_encoded : next (framer_of (encode seq b ++ more)) ≡ (framer_of more, some decoded)
  next_encoded =
      next_of_Framed (encode seq b ++ more) decoded
        (subst (λ bs. Framed bs decoded) (sym split) Framed-split)
      ∙ ap (λ bs. (framer_of bs, some decoded)) behind_message

-- The loop of a connection that takes messages until `next` has none.
unfoldable pub drain : ℕ → Framer → Framer × List DecodedMessage
drain zero f = (f, [])
drain (suc fuel) f =
    let (f', m) = next f in
    elim m [ none ↦ (f', []) | some d ↦ let (g, ds) = drain fuel f' in (g, d ∷ ds) ]

abbrev pub Sent : Type 0
Sent = List (ℕ × MessageBody)

-- The bytes that a peer sends.
abbrev pub stream : Sent → List ℕ
stream [] = []
stream ((seq, b) ∷ ms) = encode seq b ++ stream ms

abbrev pub All-IsBody : Sent → Type 0
All-IsBody [] = Unit {0}
All-IsBody ((seq, b) ∷ ms) = (seq < 2 ^ 32) × IsBody b × All-IsBody ms

abbrev pub contents : List DecodedMessage → Sent
contents [] = []
contents (d ∷ ds) = (d.header.sequence, d.body) ∷ contents ds

drain-next :
    (n : ℕ) (f f' : Framer) (d : DecodedMessage)
    → next f ≡ (f', some d)
    → drain (suc n) f ≡ ((drain n f').0, d ∷ (drain n f').1)
unfolding drain
drain-next n f f' d e =
    rw (e, drain) (ap (λ g. ((drain n g).0, d ∷ (drain n g).1)) (ap (λ t. t.0) e))

drain_idle : (n : ℕ) → drain (suc n) new_framer ≡ (new_framer, [])
unfolding drain next
drain_idle n = refl

-- What the loop leaves behind.
pub record Drained (ms : Sent) (bytes : List ℕ) : Type 0 where
  pub decoded : List DecodedMessage
  pub runs : drain (suc (length ms)) (framer_of bytes) ≡ (new_framer, decoded)
  pub same : contents decoded ≡ ms

-- The loop over the bytes of any messages that fit their types gives back exactly these messages
-- and their sequence numbers, in order, and leaves no byte and no error.
pub drain-stream : (ms : Sent) → All-IsBody ms → Drained ms (stream ms)
drain-stream [] h = record { decoded = []; runs = drain_idle 0; same = refl }
drain-stream ((seq, b) ∷ ms) h =
    let c = encode-Encoded seq b h.0 h.1 in
    let rest = drain-stream ms h.2 in
    let d : DecodedMessage = record { header = c.header; body = b } in
    record {
      decoded = d ∷ rest.decoded;
      runs =
          drain-next (suc (length ms)) (framer_of (encode seq b ++ stream ms))
            (framer_of (stream ms)) d (next_encoded seq b c (stream ms))
          ∙ ap (λ r. (r.0, d ∷ r.1)) rest.runs;
      same = ap (λ n. (n, b) ∷ contents rest.decoded) c.sequence_kept ∙ ap (◌∷◌ (seq, b)) rest.same;
    }
