-- ===== src/OrderBook/Drain.antt =====
-- `OrderBook::clear_and_drain`. The loop over a level resets the links of an order and then moves
-- on through them.
use multi_instrument_orderbo.Prelude.{
  ℕ, zero, suc, ◌≡◌, refl, Option, none, some, List, [], ◌∷◌, ◌++◌, arith, ℤ, ◌∙◌, ap, sym,
}
use multi_instrument_orderbo.Types.{buy, sell}
use multi_instrument_orderbo.Level.{Links, PriceLevel, unlink}
use multi_instrument_orderbo.Level.Chain.{Holds}
use multi_instrument_orderbo.OrderedMap.Related.{Related}
use multi_instrument_orderbo.OrderBook.{
  Orders, OrderBook, Levels, drain_level, drain_levels, clear_and_drain,
}
use multi_instrument_orderbo.OrderBook.View.{Queues, View, Models}

-- The callback on each slot in turn.
abbrev pub visit {ℓ} : {S : Type ℓ} → (ℕ → S → S) → List ℕ → S → S
visit callback [] s = s
visit callback (o ∷ os) s = visit callback os (callback o s)

-- The oldest order of each queue.
abbrev pub heads : Queues → List ℕ
heads [] = []
heads ((p, []) ∷ q) = heads q
heads ((p, x ∷ xs) ∷ q) = x ∷ heads q

drain_at_null {ℓ} :
    {S : Type ℓ} (callback : ℕ → S → S) (fuel : ℕ) (cur : Option ℕ) (lk : Links) (s : S)
    → cur ≡ none
    → drain_level callback fuel cur lk s ≡ (lk, s)
unfolding drain_level
drain_at_null callback zero cur lk s e = refl
drain_at_null callback (suc fuel) none lk s e = refl
drain_at_null callback (suc fuel) (some o) lk s e = cc

-- After the links of an order are reset its successor is null, and the loop ends.
drain_level_one {ℓ} :
    {S : Type ℓ} (callback : ℕ → S → S) (fuel o : ℕ) (cur : Option ℕ) (lk : Links) (s : S)
    → cur ≡ some o
    → drain_level callback (suc fuel) cur lk s ≡ (unlink o lk, callback o s)
unfolding drain_level
drain_level_one callback fuel o cur lk s e =
    rw (e, drain_level) (drain_at_null callback fuel _ (unlink o lk) (callback o s) (ground arith))

drain_levels_cons {ℓ} :
    {S : Type ℓ} (callback : ℕ → S → S) (fuel : ℕ) (p : ℤ) (l : PriceLevel) (m : Levels)
    (lk lk' : Links) (s s' : S)
    → drain_level callback fuel l.head lk s ≡ (lk', s')
    → drain_levels callback fuel ((p, l) ∷ m) lk s ≡ drain_levels callback fuel m lk' s'
unfolding drain_levels
drain_levels_cons callback fuel p l m lk lk' s s' e =
    ap (λ r. drain_levels callback fuel m r.0 r.1) e

drain_levels_nil {ℓ} :
    {S : Type ℓ} (callback : ℕ → S → S) (fuel : ℕ) (lk : Links) (s : S)
    → (drain_levels callback fuel [] lk s).1 ≡ s
unfolding drain_levels
drain_levels_nil callback fuel lk s = refl

drain_levels-heads {ℓ} :
    {S : Type ℓ} (callback : ℕ → S → S) (fuel : ℕ) (old : Links) (m : Levels) (q : Queues)
    → Related (Holds old) m q
    → (lk : Links) (s : S)
    → (drain_levels callback (suc fuel) m lk s).1 ≡ visit callback (heads q) s
drain_levels-heads callback fuel old [] [] r lk s = drain_levels_nil callback (suc fuel) lk s
drain_levels-heads callback fuel old [] (_ ∷ q) r lk s = absurd r
drain_levels-heads callback fuel old (_ ∷ m) [] r lk s = absurd r
drain_levels-heads callback fuel old ((j, l) ∷ m) ((p, []) ∷ q) r lk s =
    ap (λ t. t.1)
      (drain_levels_cons callback (suc fuel) j l m lk lk s s
        (drain_at_null callback (suc fuel) l.head lk s r.1.chain))
    ∙ drain_levels-heads callback fuel old m q r.2 lk s
drain_levels-heads callback fuel old ((j, l) ∷ m) ((p, x ∷ xs) ∷ q) r lk s =
    ap (λ t. t.1)
      (drain_levels_cons callback (suc fuel) j l m lk (unlink x lk) s (callback x s)
        (drain_level_one callback fuel x l.head lk s r.1.chain.0))
    ∙ drain_levels-heads callback fuel old m q r.2 (unlink x lk) (callback x s)

visit-append {ℓ} :
    {S : Type ℓ} (callback : ℕ → S → S) (xs ys : List ℕ) (s : S)
    → visit callback (xs ++ ys) s ≡ visit callback ys (visit callback xs s)
visit-append callback [] ys s = refl
visit-append callback (x ∷ xs) ys s = visit-append callback xs ys (callback x s)

-- `clear_and_drain` calls back for the oldest order of each level alone, bids before asks, and
-- empties the book. The other orders of a level with two or more are never visited.
pub clear_and_drain-heads {ℓ} :
    {S : Type ℓ} (callback : ℕ → S → S) (fuel : ℕ) (orders : Orders) (lk : Links) (b : OrderBook)
    (v : View) (s : S)
    → Models orders lk b v
    → let (lk', b', s') = clear_and_drain callback (suc fuel) lk b s in
      (s' ≡ visit callback (heads (v buy) ++ heads (v sell)) s)
      × (b' ≡ record { instrument = b.instrument; bids = []; asks = []; order_map = [] })
unfolding clear_and_drain
clear_and_drain-heads callback fuel orders lk b v s h = (
  drain_levels-heads callback fuel lk b.asks (v sell) (h.linked sell) _ _
      ∙ ap (visit callback (heads (v sell)))
          (drain_levels-heads callback fuel lk b.bids (v buy) (h.linked buy) lk s)
      ∙ sym (visit-append callback (heads (v buy)) (heads (v sell)) s),
  refl,
)
