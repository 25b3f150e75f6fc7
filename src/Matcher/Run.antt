-- ===== src/Matcher/Run.antt =====
-- The loop of `Matcher::match` as a whole: its rounds, its trades and its end.
use multi_instrument_orderbo.Prelude.{
  ℕ, zero, suc, ◌+◌, ◌<◌, ◌≡◌, refl, sym, ap, ◌∙◌, subst, false, none, some, List, [], ◌∷◌, ◌++◌,
  length, inl, inr, ◌⊎◌, Option-cases, arith, append-nil, append_assoc, All, sub64,
}
use native.Mathlib.Nat.{add_assoc}
use multi_instrument_orderbo.Types.{Order, Trade, remaining}
use multi_instrument_orderbo.OrderBook.View.{View, resting}
use multi_instrument_orderbo.Matcher.{
  State, order, refuses, next_maker, fill_of, trade_of, match_loop,
}
use multi_instrument_orderbo.Matcher.Step.{Ready, Round, next_maker-IsNext}
use multi_instrument_orderbo.Matcher.Round.{round_lem}

-- The quantity of the trades together.
abbrev pub traded : List Trade → ℕ
traded [] = 0
traded (t ∷ ts) = t.quantity + traded ts

abbrev with_filled : Order → ℕ → Order
with_filled o n = record o { filled_qty = n }

-- A trade of the taker: for some quantity, at a price that the taker's limit allows.
abbrev pub IsFair : Order → Trade → Type 0
IsFair taker t =
    (0 < t.quantity)
    × (refuses taker t.price ≡ false)
    × (t.taker_id ≡ taker.id)
    × (t.instrument ≡ taker.instrument)

-- Rounds enough: one is left for the final test, and one for each resting order and one more
-- unless the taker is full already.
abbrev pub Enough : ℕ → ℕ → State → View → Type 0
Enough fuel taker w v =
    (0 < fuel)
    × (((order w taker).filled_qty ≡ (order w taker).initial_qty) ⊎ (length (resting v) + 1 < fuel))

-- The rounds from one state and view to another, and their trades.
pub data Rounds (taker : ℕ) (after : State) (view : View) : State → View → List Trade → Type 0 where
  done : Rounds taker after view after view []
  more :
      {w : State} {v : View} {ts : List Trade} (maker : ℕ)
      → Ready taker w v
      → next_maker taker w ≡ some maker
      → (r : Round taker maker w v) → Rounds taker after view r.after r.view ts
      → Rounds taker after view w v (trade_of taker maker w ∷ ts)

-- The loop has ended.
pub record Matched (fuel taker : ℕ) (w : State) (v : View) (trades : List Trade) : Type 0 where
  pub after : State
  pub view : View
  pub new : List Trade
  pub runs : match_loop fuel taker w trades ≡ some (after, trades ++ new)
  pub ready : Ready taker after view
  pub stopped : next_maker taker after ≡ none
  pub rounds : Rounds taker after view w v new
  pub fair : All (IsFair (order w taker)) new
  pub taker_after :
      order after taker
      ≡ record (order w taker) { filled_qty = (order w taker).filled_qty + traded new }

remaining_full : (o : Order) → o.filled_qty ≡ o.initial_qty → remaining o ≡ 0
unfolding remaining sub64
remaining_full o e = ground (arith, e)

module _ (taker maker : ℕ) (w : State) (v : View) (r : Ready taker w v)
    (e : next_maker taker w ≡ some maker) (round : Round taker maker w v) where
  Enough-next : (fuel : ℕ) → Enough (suc fuel) taker w v → Enough fuel taker round.after round.view
  Enough-next fuel (some_fuel, inl full) = absurd (
      omega
        (arith, remaining_full (order w taker) full, (next_maker-IsNext taker maker w e).wanted))
  Enough-next fuel (some_fuel, inr room) = (
    omega (arith, room),
    elim round.progress [
      | inl (full, same, book) ↦ inl (
          ap (λ o. o.filled_qty) round.taker_after
          ∙ full
          ∙ sym (ap (λ o. o.initial_qty) round.taker_after))
      | inr c ↦ inr (omega (arith, room, c.fewer))
    ],
  )

  trade-IsFair : IsFair (order w taker) (trade_of taker maker w)
  unfolding trade_of
  trade-IsFair = (round.some_qty, (next_maker-IsNext taker maker w e).accepted, refl, refl)

  All-IsFair :
      (ts : List Trade)
      → All (IsFair (order round.after taker)) ts
      → All (IsFair (order w taker)) ts
  unfolding refuses
  All-IsFair [] h = tt
  All-IsFair (t ∷ ts) h = (subst (λ o. IsFair o t) round.taker_after h.0, All-IsFair ts h.1)

  Matched-next :
      (fuel : ℕ) (trades : List Trade)
      → Matched fuel taker round.after round.view (trades ++ (trade_of taker maker w ∷ []))
      → Matched (suc fuel) taker w v trades
  unfolding match_loop trade_of
  Matched-next fuel trades d = record {
    after = d.after;
    view = d.view;
    new = trade_of taker maker w ∷ d.new;
    runs =
        rw (e, match_loop)
          (rw round.runs (
            d.runs
            ∙ ap (λ ts. some (d.after, ts))
                (append_assoc trades (trade_of taker maker w ∷ []) d.new)));
    ready = d.ready;
    stopped = d.stopped;
    rounds = more maker r e round d.rounds;
    fair = (trade-IsFair, All-IsFair d.new d.fair);
    taker_after =
        d.taker_after
        ∙ ap (λ o. with_filled o (o.filled_qty + traded d.new)) round.taker_after
        ∙ ap (with_filled (order w taker))
            (add_assoc (order w taker).filled_qty (fill_of taker maker w) (traded d.new));
  }

-- In a state that is `Ready`, with rounds `Enough`, `match` ends by its own tests and never fails,
-- the state stays `Ready`, and the taker's filled quantity grows by exactly what was traded, each
-- trade being fair to the taker.
pub match_loop-Matched :
    (fuel taker : ℕ) (w : State) (v : View) (trades : List Trade)
    → Ready taker w v
    → Enough fuel taker w v
    → Matched fuel taker w v trades
unfolding match_loop
match_loop-Matched zero taker w v trades r h = absurd (omega (arith, h.0))
match_loop-Matched (suc fuel) taker w v trades r h = elim (Option-cases (next_maker taker w)) [
  | inl e ↦ record {
    after = w;
    view = v;
    new = [];
    runs = rw (e, match_loop) (ap (λ ts. some (w, ts)) (sym (append-nil trades)));
    ready = r;
    stopped = e;
    rounds = done;
    fair = tt;
    taker_after = ap (with_filled (order w taker)) (omega arith);
  }
  | inr (maker, e) ↦
      let round = round_lem taker maker w v r e in
      Matched-next taker maker w v r e round fuel trades (
        match_loop-Matched fuel taker round.after round.view
          (trades ++ (trade_of taker maker w ∷ [])) round.ready
          (Enough-next taker maker w v r e round fuel h))
]
