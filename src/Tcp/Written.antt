-- ===== src/Tcp/Written.antt =====
-- What `send_all` gives to the socket.
use multi_instrument_orderbo.Prelude.{
  ℕ, zero, suc, ◌+◌, ◌≤◌, ◌<◌, ◌≡◌, refl, sym, ap, ◌∙◌, true, false, some, List, [], ◌∷◌, ◌++◌,
  ◌>>=◌, length, take, drop, ℤ, pos, negsuc, append_assoc, arith,
}
use multi_instrument_orderbo.Framer.Stream.{length-drop}
use multi_instrument_orderbo.Tcp.{Sending, send_all, stopped, took}

-- `send` returns at most the number of bytes it was offered.
abbrev pub IsSend : (ℕ → ℕ → ℤ) → Type 0
IsSend send = (k n m : ℕ) → send k n ≡ pos m → m ≤ n

-- The answer `true` says that the socket has all the bytes; `false`, that it has the first ones.
pub record Written (send : ℕ → ℕ → ℤ) (fuel k : ℕ) (data_in : List ℕ) : Type 0 where
  pub result : Sending
  pub runs : send_all fuel send k data_in ≡ some result
  pub rest : List ℕ
  pub split : data_in ≡ result.written ++ rest
  pub all_sent : result.ok ≡ true → rest ≡ []
  pub some_left : result.ok ≡ false → 0 < length rest
  pub bounded : result.calls ≤ k + length data_in

take-drop : (n : ℕ) (xs : List ℕ) → xs ≡ take n xs ++ drop n xs
take-drop zero xs = refl
take-drop (suc n) [] = refl
take-drop (suc n) (x ∷ xs) = ap (◌∷◌ x) (take-drop n xs)

-- Where `send` never returns more than it was offered, `send_all` ends within one system call for
-- each byte. It has given the bytes to the socket in order, each once: all of them where it answers
-- `true`, and some first ones, with bytes left, where it answers `false`.
pub send_all-Written :
    (send : ℕ → ℕ → ℤ) (fuel k : ℕ) (data_in : List ℕ)
    → IsSend send
    → length data_in ≤ fuel
    → Written send fuel k data_in
unfolding send_all
send_all-Written send fuel k [] documented h = record {
  result = stopped k true;
  runs = refl;
  rest = [];
  split = refl;
  all_sent = λ e. refl;
  some_left = λ e. absurd (cc);
  bounded = omega arith;
}
send_all-Written send zero k (b ∷ rest) documented h = absurd (omega (arith, h))
send_all-Written send (suc fuel) k (b ∷ rest) documented h =
    answered (λ xs g. send_all-Written send fuel (suc k) xs documented g)
      (send k (length (b ∷ rest))) refl
  where
    failed :
        send_all (suc fuel) send k (b ∷ rest) ≡ some (stopped (suc k) false)
        → Written send (suc fuel) k (b ∷ rest)
    failed e = record {
      result = stopped (suc k) false;
      runs = e;
      rest = b ∷ rest;
      split = refl;
      all_sent = λ f. absurd (cc);
      some_left = λ f. omega arith;
      bounded = omega arith;
    }

    answered :
        ((xs : List ℕ) → length xs ≤ fuel → Written send fuel (suc k) xs)
        → (n : ℤ) → send k (length (b ∷ rest)) ≡ n
        → Written send (suc fuel) k (b ∷ rest)
    answered ih (negsuc n) e = failed (rw (e, send_all) refl)
    answered ih (pos zero) e = failed (rw (e, send_all) refl)
    answered ih (pos (suc m)) e =
        let fits = documented k (length (b ∷ rest)) (suc m) e in
        let shorter = length-drop (suc m) (b ∷ rest) fits in
        let r = ih (drop (suc m) (b ∷ rest)) (omega (arith, shorter, h)) in
        record {
          result = took (suc m) (b ∷ rest) r.result;
          runs = rw (e, send_all) (ap (λ x. x >>= λ y. some (took (suc m) (b ∷ rest) y)) r.runs);
          rest = r.rest;
          split =
              take-drop (suc m) (b ∷ rest)
              ∙ ap (λ xs. take (suc m) (b ∷ rest) ++ xs) r.split
              ∙ sym (append_assoc (take (suc m) (b ∷ rest)) r.result.written r.rest);
          all_sent = r.all_sent;
          some_left = r.some_left;
          bounded = omega (arith, r.bounded, shorter);
        }
