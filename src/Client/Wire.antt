-- ===== src/Client/Wire.antt =====
-- From a session's `emit` over `send_all` and the network to the client's `recv`.
use multi_instrument_orderbo.Prelude.{
  ℕ, ◌≡◌, sym, ap, ◌∙◌, true, some, some-eq, List, [], ◌++◌, append-nil, length, ◌≤◌, ℤ,
}
use multi_instrument_orderbo.Protocol.{MessageBody}
use multi_instrument_orderbo.Session.{Session, take_outbound}
use multi_instrument_orderbo.Session.Exchange.{
  emit_all, numbered, AllBodies, numbered-IsBody, emit_all-outbound,
}
use multi_instrument_orderbo.Framer.Stream.{stream}
use multi_instrument_orderbo.Tcp.{Sending, send_all}
use multi_instrument_orderbo.Tcp.Written.{IsSend, send_all-Written}
use multi_instrument_orderbo.Client.Receiving.{joined, client_of, Delivered, recv_many-Delivered}

-- A session with nothing queued emits some messages, and `send_all` gives its outbound bytes to the
-- socket, with the answer `true`. Where these bytes reach a client without bytes of its own, cut into
-- any chunks, its calls of `recv` give the messages, in order and numbered on from the last number
-- sent, and then nothing.
pub emit_all-Delivered :
    (bs : List MessageBody) (s : Session) (send : ℕ → ℕ → ℤ) (fuel k out_seq : ℕ) (r : Sending)
    (chunks : List (List ℕ))
    → AllBodies bs
    → s.outbound ≡ []
    → IsSend send
    → length (take_outbound (emit_all bs s)).1 ≤ fuel
    → send_all fuel send k (take_outbound (emit_all bs s)).1 ≡ some r
    → r.ok ≡ true
    → joined chunks ≡ r.written
    → Delivered (numbered s.out_seq bs) out_seq chunks (client_of out_seq [])
unfolding take_outbound
emit_all-Delivered bs s send fuel k out_seq r chunks bodies empty documented enough sent ok
      arrived =
    let w = send_all-Written send fuel k (emit_all bs s).outbound documented enough in
    let same : w.result ≡ r = some-eq (sym w.runs ∙ sent) in
    let queued : (emit_all bs s).outbound ≡ stream (numbered s.out_seq bs) =
      emit_all-outbound bs s ∙ ap (λ out. out ++ stream (numbered s.out_seq bs)) empty in
    let all : (emit_all bs s).outbound ≡ r.written =
      w.split
      ∙ ap (λ xs. w.result.written ++ xs) (w.all_sent (ap (λ x. x.ok) same ∙ ok))
      ∙ append-nil w.result.written
      ∙ ap (λ x. x.written) same in
    recv_many-Delivered (numbered s.out_seq bs) chunks [] out_seq
      (numbered-IsBody s.out_seq bs bodies) (arrived ∙ sym all ∙ queued)
