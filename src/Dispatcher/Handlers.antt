-- ===== src/Dispatcher/Handlers.antt =====
-- The state and the framer of a session under each handler, and what reaches the engine.
use multi_instrument_orderbo.Prelude.{
  ℕ, ◌+◌, ◌<◌, ◌≡◌, refl, sym, ap, subst, true, false, Option, none, some, List, [], ◌∷◌, length,
  take, arith, inl, inr, Bool-cases, Option-cases, some-eq, >>=-eq-some,
}
use multi_instrument_orderbo.Types.{OrderStatus, Trade}
use multi_instrument_orderbo.Protocol.{
  unknown, not_logged_on, MessageHeader, MessageBody, DecodedMessage, header_size, logon_msg,
  logout_msg, heartbeat_msg, new_order_msg, cancel_order_msg, order_ack_msg, order_reject_msg,
  fill_msg, cancelled_msg, NewOrderMsg, CancelOrderMsg,
}
use multi_instrument_orderbo.Codec.{decode_header}
use multi_instrument_orderbo.Framer.Stream.{length-drop}
use multi_instrument_orderbo.Framer.{Framer, next, next_body}
use multi_instrument_orderbo.Session
use multi_instrument_orderbo.Session.{Session, SessionState, active, closing, emit, next_inbound}
use multi_instrument_orderbo.Engine.{Engine, acquire_order, submit, cancel}
use multi_instrument_orderbo.Dispatcher.{
  Readings, place, order_of, release_terminal, place_order, reject, is_active, is_new_session,
  is_rejected, handle_logon, handle_logout, handle_heartbeat, handle_new_order, handle_cancel,
  emit_fills, report, dispatch,
}

next_body-shorter :
    (h : MessageHeader) (f f' : Framer) (d : DecodedMessage)
    → next_body h f ≡ (f', some d)
    → length f'.buf < length f.buf
unfolding next_body
next_body-shorter h f f' d e = ground (arith, e, length-drop (header_size + h.body_length) f.buf)

pub next-shorter :
    (f f' : Framer) (d : DecodedMessage) → next f ≡ (f', some d) → length f'.buf < length f.buf
unfolding next
next-shorter f f' d e = elim (Option-cases (decode_header (take header_size f.buf))) [
  | inl g ↦ absurd (ground (arith, e, g))
  | inr (h, g) ↦ next_body-shorter h f f' d (ground (arith, e, g))
]

-- How a session can change its state.
pub data Moves : SessionState → SessionState → Type 0 where
  stays : (st : SessionState) → Moves st st
  logs_on : Moves Session.not_logged_on active
  closes : (st : SessionState) → Moves st closing

Moves-of_eq : (a b : SessionState) → b ≡ a → Moves a b
Moves-of_eq a b e = subst (λ c. Moves c b) e (stays b)

fresh_state : (st : SessionState) → is_new_session st ≡ true → st ≡ Session.not_logged_on
fresh_state Session.not_logged_on e = refl
fresh_state active e = absurd (cc)
fresh_state closing e = absurd (cc)

-- The state and the framer are as they were.
abbrev Kept : Session → Session → Type 0
Kept s s' = (s'.state ≡ s.state) × (s'.framer ≡ s.framer)

Kept-of_some :
    (s t s' : Session) (e e' : Engine)
    → Kept s t
    → ◌≡◌ {A = Option (Session × Engine)} (some (t, e)) (some (s', e'))
    → Kept s s'
Kept-of_some s t s' e e' k h = subst (Kept s) (ap (λ r. r.0) (some-eq h)) k

emit_fills-Kept :
    (m : NewOrderMsg) (st : OrderStatus) (ts : List Trade) (s : Session)
    → Kept s (emit_fills m st ts s)
unfolding emit_fills emit
emit_fills-Kept m st [] s = (refl, refl)
emit_fills-Kept m st (t ∷ ts) s = emit_fills-Kept m st ts _

report-Kept :
    (m : NewOrderMsg) (st : OrderStatus) (ts : List Trade) (e : Engine) (s : Session)
    → Kept s (report m st ts e s)
unfolding report emit
report-Kept m st ts e s = elim (Bool-cases (is_rejected st)) [
  | inl f ↦ rw (f, report) (refl, refl)
  | inr f ↦ rw (f, report) (emit_fills-Kept m st ts _)
]

place_order-Kept :
    (fuel : ℕ) (c : Readings) (m : NewOrderMsg) (o : ℕ) (s s' : Session) (e e' : Engine)
    → place_order fuel c m o s e ≡ some (s', e')
    → Kept s s'
unfolding place_order
place_order-Kept fuel c m o s s' e e' h =
    let (sent, ran, rest) =
      >>=-eq-some (submit fuel c.clock o (place o (order_of m s c) e)) _ _ h in
    let (done, freed, same) = >>=-eq-some (release_terminal o sent.0) _ _ rest in
    Kept-of_some s _ s' done e' (report-Kept m _ sent.1 sent.0 s) same

handle_new_order-Kept :
    (fuel : ℕ) (c : Readings) (m : NewOrderMsg) (s s' : Session) (e e' : Engine)
    → handle_new_order fuel c m s e ≡ some (s', e')
    → Kept s s'
unfolding handle_new_order emit
handle_new_order-Kept fuel c m s s' e e' h = elim (Bool-cases (is_active s.state)) [
  | inl f ↦
      let (got, ran, rest) = >>=-eq-some (acquire_order e) _ _ (rw (f, handle_new_order) at h) in
      answered got.1 got.0 rest
  | inr f ↦ Kept-of_some s _ s' e e' (refl, refl) (rw (f, handle_new_order) at h)
]
  where
    answered :
        (slot : Option ℕ) (e1 : Engine)
        → (elim slot as (λ x. Option (Session × Engine)) [
          | none ↦ some (emit (reject m.client_order_id unknown) s, e1)
          | some o ↦ place_order fuel c m o s e1
        ])
          ≡ some (s', e')
        → Kept s s'
    answered none e1 g = Kept-of_some s _ s' e1 e' (refl, refl) g
    answered (some o) e1 g = place_order-Kept fuel c m o s s' e1 e' g

handle_cancel-Kept :
    (m : CancelOrderMsg) (s s' : Session) (e e' : Engine)
    → handle_cancel m s e ≡ some (s', e')
    → Kept s s'
unfolding handle_cancel emit
handle_cancel-Kept m s s' e e' h = elim (Bool-cases (is_active s.state)) [
  | inl f ↦
      let (got, ran, rest) =
        >>=-eq-some (cancel m.instrument_id m.client_order_id e) _ _ (rw (f, handle_cancel) at h) in
      Kept-of_some s _ s' got.0 e' (refl, refl) rest
  | inr f ↦ Kept-of_some s _ s' e e' (refl, refl) (rw (f, handle_cancel) at h)
]

-- What a message does to its session.
abbrev pub Moved : Session → Session → Type 0
Moved s s' = Moves s.state s'.state × (s'.framer ≡ s.framer)

Moved-of_Kept : (s s' : Session) → Kept s s' → Moved s s'
Moved-of_Kept s s' k = (Moves-of_eq s.state s'.state k.0, k.1)

Moved-of_some :
    (s t s' : Session) (e e' : Engine)
    → Moved s t
    → ◌≡◌ {A = Option (Session × Engine)} (some (t, e)) (some (s', e'))
    → Moved s s'
Moved-of_some s t s' e e' k h = subst (Moved s) (ap (λ r. r.0) (some-eq h)) k

handle_logon-Moved : (id : ℕ) (s : Session) → Moved s (handle_logon id s)
unfolding handle_logon emit
handle_logon-Moved id s = elim (Bool-cases (is_new_session s.state)) [
  | inl f ↦
      rw (f, handle_logon)
        (subst (λ st. Moves st active) (sym (fresh_state s.state f)) logs_on, refl)
  | inr f ↦ rw (f, handle_logon) (stays s.state, refl)
]

pub dispatch-Moved :
    (fuel : ℕ) (c : Readings) (b : MessageBody) (s s' : Session) (e e' : Engine)
    → dispatch fuel c b s e ≡ some (s', e')
    → Moved s s'
unfolding dispatch handle_logout handle_heartbeat emit
dispatch-Moved fuel c (logon_msg id) s s' e e' h =
    Moved-of_some s _ s' e e' (handle_logon-Moved id s) h
dispatch-Moved fuel c logout_msg s s' e e' h = Moved-of_some s _ s' e e' (closes s.state, refl) h
dispatch-Moved fuel c heartbeat_msg s s' e e' h = Moved-of_some s _ s' e e' (stays s.state, refl) h
dispatch-Moved fuel c (new_order_msg m) s s' e e' h =
    Moved-of_Kept s s' (handle_new_order-Kept fuel c m s s' e e' h)
dispatch-Moved fuel c (cancel_order_msg m) s s' e e' h =
    Moved-of_Kept s s' (handle_cancel-Kept m s s' e e' h)
dispatch-Moved fuel c (order_ack_msg m) s s' e e' h =
    Moved-of_some s s s' e e' (stays s.state, refl) h
dispatch-Moved fuel c (order_reject_msg m) s s' e e' h =
    Moved-of_some s s s' e e' (stays s.state, refl) h
dispatch-Moved fuel c (fill_msg m) s s' e e' h = Moved-of_some s s s' e e' (stays s.state, refl) h
dispatch-Moved fuel c (cancelled_msg id) s s' e e' h =
    Moved-of_some s s s' e e' (stays s.state, refl) h

-- The answer to an order or a cancellation before the logon or behind the logout.
abbrev pub refused : ℕ → Session → Session
refused id s = emit (reject id not_logged_on) s

-- A session that is not active keeps its messages from the engine.
pub dispatch_inactive :
    (fuel : ℕ) (c : Readings) (b : MessageBody) (s : Session) (e : Engine)
    → is_active s.state ≡ false
    → (s' : Session) × (dispatch fuel c b s e ≡ some (s', e))
unfolding dispatch handle_new_order handle_cancel
dispatch_inactive fuel c (logon_msg id) s e h = (_, refl)
dispatch_inactive fuel c logout_msg s e h = (_, refl)
dispatch_inactive fuel c heartbeat_msg s e h = (_, refl)
dispatch_inactive fuel c (new_order_msg m) s e h =
    (refused m.client_order_id s, rw (h, handle_new_order) refl)
dispatch_inactive fuel c (cancel_order_msg m) s e h =
    (refused m.client_order_id s, rw (h, handle_cancel) refl)
dispatch_inactive fuel c (order_ack_msg m) s e h = (_, refl)
dispatch_inactive fuel c (order_reject_msg m) s e h = (_, refl)
dispatch_inactive fuel c (fill_msg m) s e h = (_, refl)
dispatch_inactive fuel c (cancelled_msg id) s e h = (_, refl)
