-- ===== src/Server/Replies.antt =====
-- What a session's thread writes to its socket, and how its conversation ends.
use multi_instrument_orderbo.Prelude.{
  ℕ, suc, ◌≡◌, refl, sym, ap, ap₂, subst, ◌∙◌, true, some, List, [], ◌∷◌, ◌++◌, length, ℤ,
  append-nil, append_assoc, arith, some-eq,
}
use multi_instrument_orderbo.Protocol.{MessageBody}
use multi_instrument_orderbo.Framer.Stream.{stream}
use multi_instrument_orderbo.Session.{Session, closing, on_bytes, take_outbound}
use multi_instrument_orderbo.Session.Exchange.{numbered, emit_all-outbound}
use multi_instrument_orderbo.Engine.{Engine}
use multi_instrument_orderbo.Dispatcher.{Readings}
use multi_instrument_orderbo.Dispatcher.Talk.{Talks, silent, Talks-append}
use multi_instrument_orderbo.Dispatcher.Emitted.{Emits, Emits-trans}
use multi_instrument_orderbo.Dispatcher.Output.{pump-Emits}
use multi_instrument_orderbo.Tcp.{Sending}
use multi_instrument_orderbo.Tcp.Written.{IsSend, send_all-Written}
use multi_instrument_orderbo.Server.Iterations.{
  Goes, closes_socket, leaves, breaks, fails, goes_on, cut_off, session_loop-Goes,
  Goes-session_loop,
}
use multi_instrument_orderbo.Server.{
  Arrival, Conversation, ended, behind, is_closing, send_outbound, session_loop,
}
use multi_instrument_orderbo.Server.Numbers.{
  last_seq, last_seq-append, emit_all-out_seq, stream-append,
}

-- The socket has taken the first bytes, or where it answered so, all.
record Sent (bytes : List ℕ) (r : Sending) : Type 0 where
  rest : List ℕ
  split : bytes ≡ r.written ++ rest
  all_sent : r.ok ≡ true → rest ≡ []

send_outbound-Sent :
    (calls : ℕ → ℕ → ℤ) (k : ℕ) (bytes : List ℕ) (r : Sending)
    → IsSend calls
    → send_outbound calls k bytes ≡ some r
    → Sent bytes r
send_outbound-Sent calls k [] r documented e =
    subst (Sent []) (some-eq e) (record { rest = []; split = refl; all_sent = λ f. refl })
send_outbound-Sent calls k (b ∷ bytes) r documented e =
    let w = send_all-Written calls (length (b ∷ bytes)) k (b ∷ bytes) documented (omega arith) in
    subst (Sent (b ∷ bytes)) (some-eq (sym w.runs ∙ e))
      (record { rest = w.rest; split = w.split; all_sent = w.all_sent })

-- The bytes written are the first ones of some messages, numbered on from the session's last number,
-- and all of them where the socket took all; they are what the session may say on its way from its
-- state and client to those it ends with, and it has numbered no other messages.
pub record Replied (s : Session) (r : Conversation) : Type 0 where
  pub messages : List MessageBody
  pub rest : List ℕ
  pub split : stream (numbered s.out_seq messages) ≡ r.written ++ rest
  pub all_sent : r.all_sent ≡ true → rest ≡ []
  pub talks : Talks s.state s.client_id messages r.session.state r.session.client_id
  pub last : r.session.out_seq ≡ last_seq s.out_seq messages

module _ (calls : ℕ → ℕ → ℤ) (documented : IsSend calls) where
  ended-Replied :
      (s t : Session) (e : Engine)
      → Talks s.state s.client_id [] t.state t.client_id
      → t.out_seq ≡ s.out_seq
      → Replied s (ended t e)
  ended-Replied s t e same unsaid = record {
    messages = [];
    rest = [];
    split = refl;
    all_sent = λ f. refl;
    talks = same;
    last = unsaid;
  }

  -- An iteration that has come to `pump`, and what follows.
  pumped-Replied :
      (s s2 : Session) (sent : Sending) (r : Conversation)
      → s.outbound ≡ []
      → Emits s s2
      → Sent (take_outbound s2).1 sent
      → (sent.ok ≡ true) × Replied (take_outbound s2).0 r
      → Replied s (behind sent.written r)
  unfolding take_outbound
  pumped-Replied s s2 sent r empty out w (ok, h) =
      let bs = out.messages in
      let queued : s2.outbound ≡ stream (numbered s.out_seq bs) =
        ap (λ x. x.1) out.queued
        ∙ emit_all-outbound bs s
        ∙ ap (λ xs. xs ++ stream (numbered s.out_seq bs)) empty in
      let taken : s2.outbound ≡ sent.written =
        w.split ∙ ap (λ xs. sent.written ++ xs) (w.all_sent ok) ∙ append-nil sent.written in
      let next : s2.out_seq ≡ last_seq s.out_seq bs =
        ap (λ x. x.0) out.queued ∙ emit_all-out_seq bs s in
      record {
        messages = bs ++ h.messages;
        rest = h.rest;
        split =
            stream-append bs h.messages s.out_seq
            ∙ ap₂ (λ xs q. xs ++ stream (numbered q h.messages)) (sym queued ∙ taken) (sym next)
            ∙ ap (λ xs. sent.written ++ xs) h.split
            ∙ sym (append_assoc sent.written r.written h.rest);
        all_sent = h.all_sent;
        talks =
            Talks-append s.state s2.state r.session.state s.client_id s2.client_id
              r.session.client_id bs h.messages out.talks h.talks;
        last =
            h.last
            ∙ ap (λ q. last_seq q h.messages) next
            ∙ sym (last_seq-append bs h.messages s.out_seq);
      }

  -- The bytes that `send_all` did not get through with.
  cut-Replied :
      (s s2 : Session) (e2 : Engine) (sent : Sending)
      → s.outbound ≡ []
      → Emits s s2
      → Sent (take_outbound s2).1 sent
      → Replied s (cut_off s2 e2 sent)
  unfolding take_outbound
  cut-Replied s s2 e2 sent empty out w = record {
    messages = out.messages;
    rest = w.rest;
    split =
        sym (
          ap (λ x. x.1) out.queued
          ∙ emit_all-outbound out.messages s
          ∙ ap (λ xs. xs ++ stream (numbered s.out_seq out.messages)) empty)
        ∙ w.split;
    all_sent = λ f. absurd (cc);
    talks = out.talks;
    last = ap (λ x. x.0) out.queued ∙ emit_all-out_seq out.messages s;
  }

  on_bytes-Emits : (bytes : List ℕ) (s : Session) → Emits s (on_bytes bytes s)
  unfolding on_bytes
  on_bytes-Emits bytes s = record {
    messages = [];
    queued = refl;
    talks = silent s.state s.client_id;
  }

  Goes-Replied :
      (arrivals : List Arrival) (k : ℕ) (clock : ℕ → ℕ → Readings) (s : Session) (e : Engine)
      (r : Conversation)
      → Goes calls k clock arrivals s e r
      → s.outbound ≡ []
      → Replied s r
  unfolding on_bytes take_outbound
  Goes-Replied _ _ _ _ _ _ (closes_socket k clock s e) empty =
      ended-Replied s s e (silent s.state s.client_id) refl
  Goes-Replied _ _ _ _ _ _ (leaves k clock a arrivals s e stop) empty =
      ended-Replied s s e (silent s.state s.client_id) refl
  Goes-Replied _ _ _ _ _ _ (breaks k clock a arrivals s e run bad) empty =
      ended-Replied s (on_bytes a.bytes s) e (silent s.state s.client_id) refl
  Goes-Replied _ _ _ _ _ _ (fails k clock a arrivals s s2 e e2 sent run good pumped answer bad)
        empty =
      let s1 = on_bytes a.bytes s in
      cut-Replied s s2 e2 sent empty
        (Emits-trans s s1 s2 (on_bytes-Emits a.bytes s)
          (pump-Emits (suc (length s1.framer.buf)) (clock 0) s1 s2 e e2 pumped))
        (send_outbound-Sent calls k (take_outbound s2).1 sent documented answer)
  Goes-Replied _ _ _ _ _ _ (goes_on k clock a arrivals s s2 e e2 sent r run good pumped answer ok g)
        empty =
      let s1 = on_bytes a.bytes s in
      let rest =
        Goes-Replied arrivals sent.calls (λ i. clock (suc i)) (take_outbound s2).0 e2 r g refl in
      pumped-Replied s s2 sent r empty
        (Emits-trans s s1 s2 (on_bytes-Emits a.bytes s)
          (pump-Emits (suc (length s1.framer.buf)) (clock 0) s1 s2 e e2 pumped))
        (send_outbound-Sent calls k (take_outbound s2).1 sent documented answer) (ok, rest)

  -- Whatever a client sends, and however it comes in: where `send` is as documented, nothing is
  -- queued in the session, and its conversation ends without a fault of the engine, what its thread
  -- writes to the socket is a first part of whole messages, numbered on from the last number sent,
  -- in order and each once, and all of them where the socket took all it was given. The session has
  -- numbered these messages and no other, and they are what it may say on its way from its state and
  -- client to those it ends with: a logon is answered only by a new session, which it makes active
  -- for the client named, so at most once and never behind a logout; acknowledgements, fills and
  -- cancellations are sent only while the session is active, and by a logout it closes and stays
  -- closed.
  pub session_loop-Replied :
      (arrivals : List Arrival) (k : ℕ) (clock : ℕ → ℕ → Readings) (s : Session) (e : Engine)
      (r : Conversation)
      → s.outbound ≡ []
      → session_loop calls k clock arrivals s e ≡ some r
      → Replied s r
  session_loop-Replied arrivals k clock s e r empty h =
      Goes-Replied arrivals k clock s e r (session_loop-Goes calls arrivals k clock s e r h) empty

module _ (calls : ℕ → ℕ → ℤ) (more : List Arrival) where
  Goes-more :
      (arrivals : List Arrival) (k : ℕ) (clock : ℕ → ℕ → Readings) (s : Session) (e : Engine)
      (r : Conversation)
      → Goes calls k clock arrivals s e r
      → r.session.state ≡ closing
      → Goes calls k clock (arrivals ++ more) s e r
  Goes-more _ _ _ _ _ _ (closes_socket k clock s e) closed = still more
    where
      still : (later : List Arrival) → Goes calls k clock later s e (ended s e)
      still [] = closes_socket k clock s e
      still (a ∷ later) = leaves k clock a later s e (ground (arith, ap is_closing closed))
  Goes-more _ _ _ _ _ _ (leaves k clock a arrivals s e stop) closed =
      leaves k clock a (arrivals ++ more) s e stop
  Goes-more _ _ _ _ _ _ (breaks k clock a arrivals s e run bad) closed =
      breaks k clock a (arrivals ++ more) s e run bad
  Goes-more _ _ _ _ _ _ (fails k clock a arrivals s s2 e e2 sent run good pumped answer bad)
        closed =
      fails k clock a (arrivals ++ more) s s2 e e2 sent run good pumped answer bad
  Goes-more _ _ _ _ _ _ (goes_on k clock a arrivals s s2 e e2 sent r run good pumped answer ok g)
        closed =
      goes_on k clock a (arrivals ++ more) s s2 e e2 sent r run good pumped answer ok
        (Goes-more arrivals sent.calls (λ i. clock (suc i)) (take_outbound s2).0 e2 r g closed)

  -- A conversation at whose end the session is closing is over: whatever bytes come in behind it,
  -- the session, the engine and what was written are the same.
  pub session_loop-closed :
      (arrivals : List Arrival) (k : ℕ) (clock : ℕ → ℕ → Readings) (s : Session) (e : Engine)
      (r : Conversation)
      → session_loop calls k clock arrivals s e ≡ some r
      → r.session.state ≡ closing
      → session_loop calls k clock (arrivals ++ more) s e ≡ some r
  session_loop-closed arrivals k clock s e r h closed =
      Goes-session_loop calls (arrivals ++ more) k clock s e r
        (Goes-more arrivals k clock s e r (session_loop-Goes calls arrivals k clock s e r h) closed)
