-- ===== src/Dispatcher/Output.antt =====
-- What `Dispatcher::pump` queues for the client.
use multi_instrument_orderbo.Prelude.{
  ℕ, zero, suc, Bool, true, false, if◌then◌else◌, ◌≡◌, refl, sym, ◌∙◌, Option, none, some, List, [],
  ◌∷◌, arith, inl, inr, Bool-cases, Option-cases, >>=-eq-some,
}
use multi_instrument_orderbo.Types.{OrderStatus, Trade}
use multi_instrument_orderbo.Protocol.{
  MessageBody, logon_msg, logout_msg, heartbeat_msg, new_order_msg, cancel_order_msg, order_ack_msg,
  order_reject_msg, fill_msg, cancelled_msg, NewOrderMsg, CancelOrderMsg, unknown,
}
use multi_instrument_orderbo.Session
use multi_instrument_orderbo.Session.{
  Session, SessionState, active, closing, emit, next_inbound, next_outbound_seq,
}
use multi_instrument_orderbo.Engine.{Engine, acquire_order, submit, cancel}
use multi_instrument_orderbo.Dispatcher.{
  Readings, is_active, is_new_session, is_rejected, reject, order_of, place, fill_of, emit_fills,
  report, release_terminal, place_order, handle_new_order, handle_cancel, handle_logon,
  handle_logout, handle_heartbeat, dispatch, pump,
}
use multi_instrument_orderbo.Dispatcher.Talk.{Talks, silent, logs_on, logs_out, is_said}
use multi_instrument_orderbo.Dispatcher.Guards.{pump_idle, pump_next}
use multi_instrument_orderbo.Dispatcher.Emitted.{
  Emits, Emits-trans, Emits-of_some, Emits-nothing, Emits-first, Emits-one,
}

abbrev ack_of : NewOrderMsg → MessageBody
ack_of m =
    order_ack_msg
      (record { client_order_id = m.client_order_id; server_order_id = m.client_order_id })

emit_fills-Emits :
    (m : NewOrderMsg) (st : OrderStatus) (ts : List Trade) (s : Session)
    → is_active s.state ≡ true
    → Emits s (emit_fills m st ts s)
unfolding emit_fills emit
emit_fills-Emits m st [] s on = Emits-nothing s
emit_fills-Emits m st (t ∷ ts) s on =
    Emits-first (fill_of m st t) s (emit_fills m st ts (emit (fill_of m st t) s)) on
      (emit_fills-Emits m st ts (emit (fill_of m st t) s) on)

report-Emits :
    (m : NewOrderMsg) (st : OrderStatus) (ts : List Trade) (e : Engine) (s : Session)
    → is_active s.state ≡ true
    → Emits s (report m st ts e s)
unfolding report emit
report-Emits m st ts e s on = elim (Bool-cases (is_rejected st)) [
  | inl f ↦ rw (f, report) (Emits-one _ s refl)
  | inr f ↦
      rw (f, report)
        (Emits-first (ack_of m) s (emit_fills m st ts (emit (ack_of m) s)) on
          (emit_fills-Emits m st ts (emit (ack_of m) s) on))
]

place_order-Emits :
    (fuel : ℕ) (c : Readings) (m : NewOrderMsg) (o : ℕ) (s s' : Session) (e e' : Engine)
    → is_active s.state ≡ true
    → place_order fuel c m o s e ≡ some (s', e')
    → Emits s s'
unfolding place_order
place_order-Emits fuel c m o s s' e e' on h =
    let (sent, ran, rest) =
      >>=-eq-some (submit fuel c.clock o (place o (order_of m s c) e)) _ _ h in
    let (done, freed, same) = >>=-eq-some (release_terminal o sent.0) _ _ rest in
    Emits-of_some s _ s' done e' (report-Emits m _ sent.1 sent.0 s on) same

handle_new_order-Emits :
    (fuel : ℕ) (c : Readings) (m : NewOrderMsg) (s s' : Session) (e e' : Engine)
    → handle_new_order fuel c m s e ≡ some (s', e')
    → Emits s s'
unfolding handle_new_order
handle_new_order-Emits fuel c m s s' e e' h = elim (Bool-cases (is_active s.state)) [
  | inl f ↦
      let (got, ran, rest) = >>=-eq-some (acquire_order e) _ _ (rw (f, handle_new_order) at h) in
      answered f got.1 got.0 rest
  | inr f ↦ Emits-of_some s _ s' e e' (Emits-one _ s refl) (rw (f, handle_new_order) at h)
]
  where
    answered :
        is_active s.state ≡ true
        → (slot : Option ℕ) (e1 : Engine)
        → (elim slot as (λ x. Option (Session × Engine)) [
          | none ↦ some (emit (reject m.client_order_id unknown) s, e1)
          | some o ↦ place_order fuel c m o s e1
        ])
          ≡ some (s', e')
        → Emits s s'
    answered on none e1 g = Emits-of_some s _ s' e1 e' (Emits-one _ s refl) g
    answered on (some o) e1 g = place_order-Emits fuel c m o s s' e1 e' on g

handle_cancel-Emits :
    (m : CancelOrderMsg) (s s' : Session) (e e' : Engine)
    → handle_cancel m s e ≡ some (s', e')
    → Emits s s'
unfolding handle_cancel
handle_cancel-Emits m s s' e e' h = elim (Bool-cases (is_active s.state)) [
  | inl f ↦
      let (got, ran, rest) =
        >>=-eq-some (cancel m.instrument_id m.client_order_id e) _ _ (rw (f, handle_cancel) at h) in
      Emits-of_some s _ s' got.0 e' (Emits-one _ s (said f got.1)) rest
  | inr f ↦ Emits-of_some s _ s' e e' (Emits-one _ s refl) (rw (f, handle_cancel) at h)
]
  where
    said :
        is_active s.state ≡ true
        → (ok : Bool)
        → is_said
            (if ok then cancelled_msg m.client_order_id else reject m.client_order_id unknown)
            s.state
          ≡ true
    said on true = on
    said on false = refl

logon-Talks :
    (id c : ℕ) (st : SessionState)
    → is_new_session st ≡ true
    → Talks st c (logon_msg id ∷ []) active id
logon-Talks id c Session.not_logged_on h = logs_on id active c id [] (silent active id)
logon-Talks id c active h = absurd (cc)
logon-Talks id c closing h = absurd (cc)

handle_logon-Emits : (id : ℕ) (s : Session) → Emits s (handle_logon id s)
unfolding handle_logon emit
handle_logon-Emits id s = elim (Bool-cases (is_new_session s.state)) [
  | inl f ↦
      rw (f, handle_logon)
        (record {
          messages = logon_msg id ∷ [];
          queued = refl;
          talks = logon-Talks id s.client_id s.state f;
        })
  | inr f ↦ rw (f, handle_logon) (Emits-nothing s)
]

handle_logout-Emits : (s : Session) → Emits s (handle_logout s)
unfolding handle_logout emit
handle_logout-Emits s = record {
  messages = logout_msg ∷ [];
  queued = refl;
  talks = logs_out s.state closing s.client_id s.client_id [] (silent closing s.client_id);
}

dispatch-Emits :
    (fuel : ℕ) (c : Readings) (b : MessageBody) (s s' : Session) (e e' : Engine)
    → dispatch fuel c b s e ≡ some (s', e')
    → Emits s s'
unfolding dispatch handle_logout handle_heartbeat emit
dispatch-Emits fuel c (logon_msg id) s s' e e' h =
    Emits-of_some s _ s' e e' (handle_logon-Emits id s) h
dispatch-Emits fuel c logout_msg s s' e e' h = Emits-of_some s _ s' e e' (handle_logout-Emits s) h
dispatch-Emits fuel c heartbeat_msg s s' e e' h =
    Emits-of_some s _ s' e e' (Emits-one heartbeat_msg s refl) h
dispatch-Emits fuel c (new_order_msg m) s s' e e' h = handle_new_order-Emits fuel c m s s' e e' h
dispatch-Emits fuel c (cancel_order_msg m) s s' e e' h = handle_cancel-Emits m s s' e e' h
dispatch-Emits fuel c (order_ack_msg m) s s' e e' h = Emits-of_some s s s' e e' (Emits-nothing s) h
dispatch-Emits fuel c (order_reject_msg m) s s' e e' h =
    Emits-of_some s s s' e e' (Emits-nothing s) h
dispatch-Emits fuel c (fill_msg m) s s' e e' h = Emits-of_some s s s' e e' (Emits-nothing s) h
dispatch-Emits fuel c (cancelled_msg id) s s' e e' h = Emits-of_some s s s' e e' (Emits-nothing s) h

next_inbound-Emits : (s : Session) → Emits s (next_inbound s).0
unfolding next_inbound
next_inbound-Emits s = record { messages = []; queued = refl; talks = silent s.state s.client_id }

-- Whatever comes in, what a run of `pump` without a fault queues for the client are whole messages,
-- numbered on from the last one, and they are what the session may say on its way from the state
-- and client it had to those it ends with: it answers a logon only while it is new, by which it gets
-- active for the client named, so an active or closing session never logs on nor changes its
-- client; it closes by a logout and stays closed; acknowledgements, fills and cancellations it
-- sends only while it is active.
pub pump-Emits :
    (fuel : ℕ) (clock : ℕ → Readings) (s s' : Session) (e e' : Engine)
    → pump fuel clock s e ≡ some (s', e')
    → Emits s s'
unfolding pump
pump-Emits zero clock s s' e e' h = absurd (ground (arith, h))
pump-Emits (suc fuel) clock s s' e e' h = elim (Option-cases (next_inbound s).1) [
  | inl f ↦ Emits-of_some s _ s' e e' (next_inbound-Emits s) (sym (pump_idle fuel clock s e f) ∙ h)
  | inr (d, f) ↦
      let (r, ran, rest) =
        >>=-eq-some (dispatch (suc e.pool.capacity) (clock 0) d.body (next_inbound s).0 e) _ _
          (sym (pump_next fuel clock s e d f) ∙ h) in
      Emits-trans s (next_inbound s).0 s' (next_inbound-Emits s) (
        Emits-trans (next_inbound s).0 r.0 s'
          (dispatch-Emits _ (clock 0) d.body (next_inbound s).0 r.0 e r.1 ran)
          (pump-Emits fuel (λ i. clock (suc i)) r.0 s' r.1 e' rest))
]
