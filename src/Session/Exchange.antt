-- ===== src/Session/Exchange.antt =====
-- Two sessions, of which one emits and the other decodes.
use multi_instrument_orderbo.Prelude.{
  ℕ, suc, ◌≡◌, refl, sym, ap, ◌∙◌, List, [], ◌∷◌, ◌++◌, length, append_assoc, append-nil, arith,
}
use multi_instrument_orderbo.Protocol.{MessageBody, DecodedMessage, IsBody}
use multi_instrument_orderbo.Codec.{encode}
use multi_instrument_orderbo.Framer.{new_framer, feed}
use multi_instrument_orderbo.Framer.Stream.{Sent, stream, contents, All-IsBody, drain, drain-stream}
use multi_instrument_orderbo.Session.{Session, next_outbound_seq, emit, take_outbound, on_bytes}

abbrev pub emit_all : List MessageBody → Session → Session
emit_all [] s = s
emit_all (b ∷ bs) s = emit_all bs (emit b s)

-- The messages with the numbers that follow `seq`.
abbrev pub numbered : ℕ → List MessageBody → Sent
numbered seq [] = []
numbered seq (b ∷ bs) = (next_outbound_seq seq, b) ∷ numbered (next_outbound_seq seq) bs

abbrev pub AllBodies : List MessageBody → Type 0
AllBodies [] = Unit {0}
AllBodies (b ∷ bs) = IsBody b × AllBodies bs

pub emit_all-outbound :
    (bs : List MessageBody) (s : Session)
    → (emit_all bs s).outbound ≡ s.outbound ++ stream (numbered s.out_seq bs)
unfolding emit
emit_all-outbound [] s = sym (append-nil s.outbound)
emit_all-outbound (b ∷ bs) s =
    emit_all-outbound bs (emit b s)
    ∙ append_assoc s.outbound (encode (next_outbound_seq s.out_seq) b) _

pub numbered-IsBody :
    (seq : ℕ) (bs : List MessageBody) → AllBodies bs → All-IsBody (numbered seq bs)
numbered-IsBody seq [] h = tt
numbered-IsBody seq (b ∷ bs) h = (omega arith, h.0, numbered-IsBody (next_outbound_seq seq) bs h.1)

-- What the other side has of the messages.
pub record Received (bs : List MessageBody) (s r : Session) : Type 0 where
  pub decoded : List DecodedMessage
  pub runs :
      drain
        (suc (length (numbered s.out_seq bs)))
        (on_bytes (take_outbound (emit_all bs s)).1 r).framer
      ≡ (new_framer, decoded)
  pub same : contents decoded ≡ numbered s.out_seq bs
  pub taken : (take_outbound (emit_all bs s)).0.outbound ≡ []

-- What a session with nothing queued emits, a session with a fresh framer decodes: the same bodies
-- in the same order, numbered on from the last number sent.
pub emit_all-Received :
    (bs : List MessageBody) (s r : Session)
    → AllBodies bs
    → s.outbound ≡ []
    → r.framer ≡ new_framer
    → Received bs s r
unfolding take_outbound on_bytes feed
emit_all-Received bs s r h empty fresh =
    let d = drain-stream (numbered s.out_seq bs) (numbered-IsBody s.out_seq bs h) in
    let queued : (emit_all bs s).outbound ≡ stream (numbered s.out_seq bs) =
      emit_all-outbound bs s ∙ ap (λ out. out ++ stream (numbered s.out_seq bs)) empty in
    record {
      decoded = d.decoded;
      runs =
          ap (λ f. drain (suc (length (numbered s.out_seq bs))) (feed (emit_all bs s).outbound f))
            fresh
          ∙ ap (λ out. drain (suc (length (numbered s.out_seq bs))) (feed out new_framer)) queued
          ∙ d.runs;
      same = d.same;
      taken = refl;
    }
