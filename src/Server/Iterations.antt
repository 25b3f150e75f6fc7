-- ===== src/Server/Iterations.antt =====
-- The ways in which `Server::session_loop` goes through its iterations.
use multi_instrument_orderbo.Prelude.{
  ℕ, suc, ◌≡◌, refl, subst, true, false, not, ◌&&◌, some, List, [], ◌∷◌, length, ℤ, inl, inr,
  Bool-cases, some-eq, >>=-eq-some,
}
use multi_instrument_orderbo.Framer.{has_error}
use multi_instrument_orderbo.Session.{Session, on_bytes, take_outbound}
use multi_instrument_orderbo.Engine.{Engine}
use multi_instrument_orderbo.Dispatcher.{Readings, pump}
use multi_instrument_orderbo.Tcp.{Sending}
use multi_instrument_orderbo.Server.{
  Arrival, Conversation, ended, behind, is_closing, send_outbound, session_loop,
}

-- Behind a failed `send_all`.
abbrev pub cut_off : Session → Engine → Sending → Conversation
cut_off s2 e2 sent = record {
  session = (take_outbound s2).0;
  engine = e2;
  written = sent.written;
  all_sent = false;
}

-- One constructor for each way through the loop's body.
pub data Goes (calls : ℕ → ℕ → ℤ)
    : ℕ → (ℕ → ℕ → Readings) → List Arrival → Session → Engine → Conversation → Type 0 where
  closes_socket :
      (k : ℕ) (clock : ℕ → ℕ → Readings) (s : Session) (e : Engine)
      → Goes calls k clock [] s e (ended s e)
  leaves :
      (k : ℕ) (clock : ℕ → ℕ → Readings) (a : Arrival) (arrivals : List Arrival) (s : Session)
      (e : Engine)
      → (a.running && not (is_closing s.state)) ≡ false
      → Goes calls k clock (a ∷ arrivals) s e (ended s e)
  breaks :
      (k : ℕ) (clock : ℕ → ℕ → Readings) (a : Arrival) (arrivals : List Arrival) (s : Session)
      (e : Engine)
      → (a.running && not (is_closing s.state)) ≡ true
      → has_error (on_bytes a.bytes s).framer.error ≡ true
      → Goes calls k clock (a ∷ arrivals) s e (ended (on_bytes a.bytes s) e)
  fails :
      (k : ℕ) (clock : ℕ → ℕ → Readings) (a : Arrival) (arrivals : List Arrival) (s s2 : Session)
      (e e2 : Engine) (sent : Sending)
      → (a.running && not (is_closing s.state)) ≡ true
      → has_error (on_bytes a.bytes s).framer.error ≡ false
      → pump (suc (length (on_bytes a.bytes s).framer.buf)) (clock 0) (on_bytes a.bytes s) e
        ≡ some (s2, e2)
      → send_outbound calls k (take_outbound s2).1 ≡ some sent
      → sent.ok ≡ false
      → Goes calls k clock (a ∷ arrivals) s e (cut_off s2 e2 sent)
  goes_on :
      (k : ℕ) (clock : ℕ → ℕ → Readings) (a : Arrival) (arrivals : List Arrival) (s s2 : Session)
      (e e2 : Engine) (sent : Sending) (r : Conversation)
      → (a.running && not (is_closing s.state)) ≡ true
      → has_error (on_bytes a.bytes s).framer.error ≡ false
      → pump (suc (length (on_bytes a.bytes s).framer.buf)) (clock 0) (on_bytes a.bytes s) e
        ≡ some (s2, e2)
      → send_outbound calls k (take_outbound s2).1 ≡ some sent
      → sent.ok ≡ true
      → Goes calls sent.calls (λ i. clock (suc i)) arrivals (take_outbound s2).0 e2 r
      → Goes calls k clock (a ∷ arrivals) s e (behind sent.written r)

module _ (calls : ℕ → ℕ → ℤ) where
  -- The loop is run by these ways, and only by them.
  pub session_loop-Goes :
      (arrivals : List Arrival) (k : ℕ) (clock : ℕ → ℕ → Readings) (s : Session) (e : Engine)
      (r : Conversation)
      → session_loop calls k clock arrivals s e ≡ some r
      → Goes calls k clock arrivals s e r
  unfolding session_loop
  session_loop-Goes [] k clock s e r h =
      subst (Goes calls k clock [] s e) (some-eq h) (closes_socket k clock s e)
  session_loop-Goes (a ∷ arrivals) k clock s e r h =
      elim (Bool-cases (a.running && not (is_closing s.state))) [
        | inr stop ↦
            subst (Goes calls k clock (a ∷ arrivals) s e) (some-eq (rw (stop, session_loop) at h))
              (leaves k clock a arrivals s e stop)
        | inl run ↦ elim (Bool-cases (has_error (on_bytes a.bytes s).framer.error)) [
          | inl bad ↦
              subst (Goes calls k clock (a ∷ arrivals) s e)
                (some-eq (rw (run, bad, session_loop) at h)) (breaks k clock a arrivals s e run bad)
          | inr good ↦
              let s1 = on_bytes a.bytes s in
              let (p, pumped, rest) =
                >>=-eq-some (pump (suc (length s1.framer.buf)) (clock 0) s1 e) _ _
                  (rw (run, good, session_loop) at h) in
              let (sent, answer, last) =
                >>=-eq-some (send_outbound calls k (take_outbound p.0).1) _ _ rest in
              elim (Bool-cases sent.ok) [
                | inr bad ↦
                    subst (Goes calls k clock (a ∷ arrivals) s e) (some-eq (rw bad at last))
                      (fails k clock a arrivals s p.0 e p.1 sent run good pumped answer bad)
                | inl ok ↦
                    let (r', looped, same) =
                      >>=-eq-some
                        (session_loop calls sent.calls (λ i. clock (suc i)) arrivals
                          (take_outbound p.0).0 p.1)
                        _ _ (rw ok at last) in
                    let rest_goes =
                      session_loop-Goes arrivals sent.calls (λ i. clock (suc i))
                        (take_outbound p.0).0 p.1 r' looped in
                    subst (Goes calls k clock (a ∷ arrivals) s e) (some-eq same) (
                      goes_on k clock a arrivals s p.0 e p.1 sent r' run good pumped answer ok
                        rest_goes)
              ]
        ]
      ]

  pub Goes-session_loop :
      (arrivals : List Arrival) (k : ℕ) (clock : ℕ → ℕ → Readings) (s : Session) (e : Engine)
      (r : Conversation)
      → Goes calls k clock arrivals s e r
      → session_loop calls k clock arrivals s e ≡ some r
  unfolding session_loop
  Goes-session_loop _ _ _ _ _ _ (closes_socket k clock s e) = refl
  Goes-session_loop _ _ _ _ _ _ (leaves k clock a arrivals s e stop) = rw (stop, session_loop) refl
  Goes-session_loop _ _ _ _ _ _ (breaks k clock a arrivals s e run bad) =
      rw (run, bad, session_loop) refl
  Goes-session_loop _ _ _ _ _ _
        (fails k clock a arrivals s s2 e e2 sent run good pumped answer bad) =
      rw (run, good, session_loop) (rw pumped (rw answer (rw bad refl)))
  Goes-session_loop _ _ _ _ _ _
        (goes_on k clock a arrivals s s2 e e2 sent r run good pumped answer ok g) =
      let ih =
        Goes-session_loop arrivals sent.calls (λ i. clock (suc i)) (take_outbound s2).0 e2 r g in
      rw (run, good, session_loop) (rw pumped (rw answer (rw ok (rw ih refl))))
