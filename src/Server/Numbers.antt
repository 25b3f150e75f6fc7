-- ===== src/Server/Numbers.antt =====
-- The numbers of the messages that a session emits.
use multi_instrument_orderbo.Prelude.{ℕ, ◌≡◌, refl, sym, ap, ◌∙◌, List, [], ◌∷◌, ◌++◌, append_assoc}
use multi_instrument_orderbo.Protocol.{MessageBody}
use multi_instrument_orderbo.Codec.{encode}
use multi_instrument_orderbo.Framer.Stream.{stream}
use multi_instrument_orderbo.Session.{Session, emit, next_outbound_seq}
use multi_instrument_orderbo.Session.Exchange.{emit_all, numbered}

abbrev pub last_seq : ℕ → List MessageBody → ℕ
last_seq seq [] = seq
last_seq seq (b ∷ bs) = last_seq (next_outbound_seq seq) bs

pub emit_all-out_seq :
    (bs : List MessageBody) (s : Session) → (emit_all bs s).out_seq ≡ last_seq s.out_seq bs
unfolding emit
emit_all-out_seq [] s = refl
emit_all-out_seq (b ∷ bs) s = emit_all-out_seq bs (emit b s)

pub last_seq-append :
    (bs cs : List MessageBody) (seq : ℕ) → last_seq seq (bs ++ cs) ≡ last_seq (last_seq seq bs) cs
last_seq-append [] cs seq = refl
last_seq-append (b ∷ bs) cs seq = last_seq-append bs cs (next_outbound_seq seq)

pub stream-append :
    (bs cs : List MessageBody) (seq : ℕ)
    → stream (numbered seq (bs ++ cs))
      ≡ stream (numbered seq bs) ++ stream (numbered (last_seq seq bs) cs)
stream-append [] cs seq = refl
stream-append (b ∷ bs) cs seq =
    ap (λ xs. encode (next_outbound_seq seq) b ++ xs) (stream-append bs cs (next_outbound_seq seq))
    ∙ sym (append_assoc (encode (next_outbound_seq seq) b) _ _)
