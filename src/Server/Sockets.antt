-- ===== src/Server/Sockets.antt =====
-- The sockets of `Server`: what is accepted, and what `stop` and the threads close.
use multi_instrument_orderbo.Prelude.{
  ℕ, ◌+◌, ◌*◌, ◌-◌, ◌≡◌, refl, sym, ap, ◌∙◌, true, false, Option, none, some, List, [], ◌∷◌, ◌++◌,
  count, count-append, append_assoc, append-nil, arith, add64,
}
use multi_instrument_orderbo.Server.{
  Server, start, stop, halt, accept_late, end_all, forget, accept, accept_loop, end_session,
  to_close,
}

-- The sockets up to the first failure of `accept_one`.
abbrev pub up_to_failure : List (Option ℕ) → List ℕ
up_to_failure [] = []
up_to_failure (none ∷ answers) = []
up_to_failure (some s ∷ answers) = s ∷ up_to_failure answers

-- Sockets with the numbers from `sid` on.
abbrev pub with_ids : ℕ → List ℕ → List (ℕ × ℕ)
with_ids sid [] = []
with_ids sid (s ∷ sockets) = (s, sid) ∷ with_ids (add64 sid 1) sockets

-- The loop takes the sockets up to the first failure, in order: each is among the sockets of the
-- sessions and has a thread of its own, with the next session number; nothing is closed.
pub record Accepted (answers : List (Option ℕ)) (srv : Server) : Type 0 where
  pub sockets :
      (accept_loop answers srv).session_sockets ≡ srv.session_sockets ++ up_to_failure answers
  pub threads :
      (accept_loop answers srv).threads
      ≡ srv.threads ++ with_ids srv.next_session_id (up_to_failure answers)
  pub running : (accept_loop answers srv).running ≡ true
  pub closed : (accept_loop answers srv).closed ≡ srv.closed

goes_on :
    (answers : List (Option ℕ)) (s : ℕ) (srv : Server)
    → srv.running ≡ true
    → accept_loop (some s ∷ answers) srv ≡ accept_loop answers (accept s srv)
unfolding accept_loop
goes_on answers s srv h = rw (h, accept_loop) refl

-- While the server runs, `accept_loop` keeps the sockets that `accept_one` gives up to its first
-- failure, in order, each with a thread and the next session number, and closes none.
pub accept_loop-Accepted :
    (answers : List (Option ℕ)) (srv : Server) → srv.running ≡ true → Accepted answers srv
unfolding accept_loop accept
accept_loop-Accepted [] srv h = record {
  sockets = sym (append-nil srv.session_sockets);
  threads = sym (append-nil srv.threads);
  running = h;
  closed = refl;
}
accept_loop-Accepted (none ∷ answers) srv h = record {
  sockets = sym (append-nil srv.session_sockets);
  threads = sym (append-nil srv.threads);
  running = h;
  closed = refl;
}
accept_loop-Accepted (some s ∷ answers) srv h =
    let rest = accept_loop-Accepted answers (accept s srv) h in
    let kept = goes_on answers s srv h in
    record {
      sockets =
          ap (λ r. r.session_sockets) kept
          ∙ rest.sockets
          ∙ append_assoc srv.session_sockets (s ∷ []) (up_to_failure answers);
      threads =
          ap (λ r. r.threads) kept
          ∙ rest.threads
          ∙ append_assoc srv.threads ((s, srv.next_session_id) ∷ []) _;
      running = ap (λ r. r.running) kept ∙ rest.running;
      closed = ap (λ r. r.closed) kept ∙ rest.closed;
    }

-- `forget` takes out one place of the socket, where there is one.
count-forget :
    (a sock : ℕ) (sockets : List ℕ)
    → count a (forget sock sockets) ≡ count a sockets - count a (sock ∷ [])
unfolding forget
count-forget a sock [] = omega arith
count-forget a sock (s ∷ sockets) = ground (arith, count-forget a sock sockets)

none_counted : (sockets : List ℕ) → ((a : ℕ) → count a sockets ≡ 0) → sockets ≡ []
none_counted [] h = refl
none_counted (s ∷ sockets) h = absurd (ground (arith, h s))

-- What is left when threads have ended: `running` and `listener`, and the calls of `close_socket`.
record Ended (ends : List ℕ) (srv : Server) : Type 0 where
  running : (end_all ends srv).running ≡ srv.running
  listener : (end_all ends srv).listener ≡ srv.listener
  closed : (end_all ends srv).closed ≡ srv.closed ++ ends
  sockets :
      (a : ℕ)
      → count a (end_all ends srv).session_sockets ≡ count a srv.session_sockets - count a ends

end_all-Ended : (ends : List ℕ) (srv : Server) → Ended ends srv
unfolding end_all end_session
end_all-Ended [] srv = record {
  running = refl;
  listener = refl;
  closed = sym (append-nil srv.closed);
  sockets = λ a. omega arith;
}
end_all-Ended (sock ∷ ends) srv =
    let rest = end_all-Ended ends (end_session sock srv) in
    record {
      running = rest.running;
      listener = rest.listener;
      closed = rest.closed ∙ append_assoc srv.closed (sock ∷ []) ends;
      sockets = λ a. omega (
        arith,
        rest.sockets a,
        count-forget a sock srv.session_sockets,
        count-append a (sock ∷ []) ends,
      );
    }

-- Of all sockets, only that of the session which came late is still open and kept.
record LeftOpen (late : Option ℕ) (srv : Server) : Type 0 where
  running : (accept_late late (halt srv)).running ≡ false
  listener : (accept_late late (halt srv)).listener ≡ none
  closed :
      (accept_late late (halt srv)).closed
      ≡ srv.closed ++ to_close srv.listener ++ srv.session_sockets
  sockets : (accept_late late (halt srv)).session_sockets ≡ to_close late

accept_late-LeftOpen : (late : Option ℕ) (srv : Server) → LeftOpen late srv
unfolding halt accept
accept_late-LeftOpen none srv = record {
  running = refl;
  listener = refl;
  closed = refl;
  sockets = refl;
}
accept_late-LeftOpen (some s) srv = record {
  running = refl;
  listener = refl;
  closed = refl;
  sockets = refl;
}

-- What `stop` does to a server that runs.
pub record Stopped (late : Option ℕ) (ends : List ℕ) (srv : Server) : Type 0 where
  pub halted : (stop late ends srv).running ≡ false
  pub no_listener : (stop late ends srv).listener ≡ none
  pub no_sockets : (stop late ends srv).session_sockets ≡ []
  pub no_threads : (stop late ends srv).threads ≡ []
  pub again :
      (late' : Option ℕ) (ends' : List ℕ)
      → stop late' ends' (stop late ends srv) ≡ stop late ends srv
  pub closes :
      (a : ℕ)
      → count a (stop late ends srv).closed
        ≡ count a srv.closed
          + count a (to_close srv.listener)
          + 2 * count a srv.session_sockets
          + count a (to_close late)

-- `stop` of a running server, whose accept thread takes at most one more socket and whose sessions each
-- end once in any order: the server keeps no listener, no socket and no thread, also not those of the
-- session that came late, and another call changes nothing. The listener is closed once, the socket
-- of each session that `stop` found twice, by `stop` and by its own thread, and the one that came
-- late once.
pub stop-Stopped :
    (late : Option ℕ) (ends : List ℕ) (srv : Server)
    → srv.running ≡ true
    → ((a : ℕ) → count a ends ≡ count a srv.session_sockets + count a (to_close late))
    → Stopped late ends srv
unfolding stop
stop-Stopped late ends srv h each =
    let l = accept_late-LeftOpen late srv in
    let d = end_all-Ended ends (accept_late late (halt srv)) in
    let idle : (stop late ends srv).running ≡ false = rw (h, stop) (d.running ∙ l.running) in
    record {
      halted = idle;
      no_listener = rw (h, stop) (d.listener ∙ l.listener);
      no_sockets =
          rw (h, stop)
            (none_counted (end_all ends (accept_late late (halt srv))).session_sockets
              (λ a. omega (arith, d.sockets a, ap (count a) l.sockets, each a)));
      no_threads = rw (h, stop) refl;
      again = λ late' ends'. stopped_idle late' ends' (stop late ends srv) idle;
      closes = λ a.
          rw (h, stop)
            (omega (
              arith,
              ap (count a) (d.closed ∙ ap (λ xs. xs ++ ends) l.closed),
              count-append a (srv.closed ++ to_close srv.listener ++ srv.session_sockets) ends,
              count-append a (srv.closed ++ to_close srv.listener) srv.session_sockets,
              count-append a srv.closed (to_close srv.listener),
              each a,
            ));
    }
  where
    stopped_idle :
        (late' : Option ℕ) (ends' : List ℕ) (srv' : Server)
        → srv'.running ≡ false
        → stop late' ends' srv' ≡ srv'
    stopped_idle late' ends' srv' f = rw (f, stop) refl

-- Where `listen_on` throws, `start` leaves the server marked as running: until it is stopped, no later
-- call of `start` listens.
pub start_failed :
    (srv : Server) (listening : Option ℕ)
    → srv.running ≡ false
    → start listening (start none srv).0 ≡ ((start none srv).0, false)
unfolding start
start_failed srv listening h = rw h refl
