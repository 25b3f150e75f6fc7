-- ===== src/Dispatcher/Guards.antt =====
-- `Dispatcher::pump`: its rounds, the end of the loop, and what a closing session can reach.
use multi_instrument_orderbo.Prelude.{
  ℕ, zero, suc, ◌<◌, ◌≡◌, refl, sym, ap, ◌∙◌, none, some, ◌>>=◌, length, arith, inl, inr,
  Option-cases, some->>=, >>=-cong,
}
use multi_instrument_orderbo.Protocol.{DecodedMessage}
use multi_instrument_orderbo.Framer.{next}
use multi_instrument_orderbo.Session.{Session, SessionState, closing, next_inbound}
use multi_instrument_orderbo.Engine.{Engine}
use multi_instrument_orderbo.Dispatcher.{Readings, is_active, dispatch, pump}
use multi_instrument_orderbo.Dispatcher.Handlers.{
  next-shorter, Moves, stays, logs_on, closes, dispatch-Moved, dispatch_inactive,
}

next_inbound-state : (s : Session) → (next_inbound s).0.state ≡ s.state
unfolding next_inbound
next_inbound-state s = refl

next_inbound-shorter :
    (s : Session) (d : DecodedMessage)
    → (next_inbound s).1 ≡ some d
    → length (next_inbound s).0.framer.buf < length s.framer.buf
unfolding next_inbound
next_inbound-shorter s d e =
    next-shorter s.framer (next s.framer).0 d (ap (λ m. ((next s.framer).0, m)) e)

pub pump_idle :
    (fuel : ℕ) (clock : ℕ → Readings) (s : Session) (e : Engine)
    → (next_inbound s).1 ≡ none
    → pump (suc fuel) clock s e ≡ some ((next_inbound s).0, e)
unfolding pump
pump_idle fuel clock s e h = rw (h, pump) refl

pub pump_next :
    (fuel : ℕ) (clock : ℕ → Readings) (s : Session) (e : Engine) (d : DecodedMessage)
    → (next_inbound s).1 ≡ some d
    → pump (suc fuel) clock s e ≡ (
        dispatch (suc e.pool.capacity) (clock 0) d.body (next_inbound s).0 e >>= λ r.
        pump fuel (λ i. clock (suc i)) r.0 r.1)
unfolding pump
pump_next fuel clock s e d h = rw (h, pump) refl

-- With more fuel than bytes wait in the framer, the loop ends by itself: any such fuel gives the same
-- result.
pump_fuel :
    (n k : ℕ) (clock : ℕ → Readings) (s : Session) (e : Engine)
    → length s.framer.buf < n
    → length s.framer.buf < k
    → pump n clock s e ≡ pump k clock s e
pump_fuel zero k clock s e h g = absurd (omega (arith, h))
pump_fuel (suc n) zero clock s e h g = absurd (omega (arith, g))
pump_fuel (suc n) (suc k) clock s e h g = elim (Option-cases (next_inbound s).1) [
  | inl f ↦ pump_idle n clock s e f ∙ sym (pump_idle k clock s e f)
  | inr (d, f) ↦
      pump_next n clock s e d f
      ∙ >>=-cong (dispatch (suc e.pool.capacity) (clock 0) d.body (next_inbound s).0 e) _ _
          (λ r ran.
            let moved = dispatch-Moved _ (clock 0) d.body (next_inbound s).0 r.0 e r.1 ran in
            let fewer = next_inbound-shorter s d f in
            let same = ap (λ x. length x.buf) moved.1 in
            pump_fuel n k (λ i. clock (suc i)) r.0 r.1 (omega (arith, fewer, same, h))
              (omega (arith, fewer, same, g)))
      ∙ sym (pump_next k clock s e d f)
]

closed : (a b : SessionState) → a ≡ closing → Moves a b → b ≡ closing
closed a _ e (stays _) = e
closed _ _ e logs_on = absurd (cc)
closed _ _ e (closes _) = refl

-- What `pump` does for a session that is closing.
pub record Closed (fuel : ℕ) (clock : ℕ → Readings) (s : Session) (e : Engine) : Type 0 where
  pub after : Session
  pub runs : pump fuel clock s e ≡ some (after, e)
  pub state_kept : after.state ≡ closing

-- In a session that is closing, `pump` ends, given more fuel than bytes wait, without a fault, the
-- engine is as it was whatever the bytes say, and the session is still closing.
pub pump-Closed :
    (fuel : ℕ) (clock : ℕ → Readings) (s : Session) (e : Engine)
    → s.state ≡ closing
    → length s.framer.buf < fuel
    → Closed fuel clock s e
pump-Closed zero clock s e h g = absurd (omega (arith, g))
pump-Closed (suc fuel) clock s e h g = elim (Option-cases (next_inbound s).1) [
  | inl f ↦ record {
    after = (next_inbound s).0;
    runs = pump_idle fuel clock s e f;
    state_kept = next_inbound-state s ∙ h;
  }
  | inr (d, f) ↦
      let s1 = (next_inbound s).0 in
      let still : s1.state ≡ closing = next_inbound-state s ∙ h in
      let (s2, ran) =
        dispatch_inactive (suc e.pool.capacity) (clock 0) d.body s1 e (ap is_active still) in
      let moved = dispatch-Moved _ (clock 0) d.body s1 s2 e e ran in
      let fewer = next_inbound-shorter s d f in
      let rest =
        pump-Closed fuel (λ i. clock (suc i)) s2 e (closed s1.state s2.state still moved.0)
          (omega (arith, fewer, ap (λ x. length x.buf) moved.1, g)) in
      record {
        after = rest.after;
        runs =
            pump_next fuel clock s e d f
            ∙ some->>= (dispatch (suc e.pool.capacity) (clock 0) d.body s1 e)
                (λ r. pump fuel (λ i. clock (suc i)) r.0 r.1) (s2, e) _ ran rest.runs;
        state_kept = rest.state_kept;
      }
]
