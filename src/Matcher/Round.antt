-- ===== src/Matcher/Round.antt =====
-- What a round of `Matcher::match` leaves: the maker out of the book, or partly filled on top.
use multi_instrument_orderbo.Prelude.{
  ℕ, ◌+◌, ◌≤◌, ◌<◌, ◌≡◌, ◌≢◌, sym, ap, ◌∙◌, subst, true, false, some, List, [], ◌∷◌, ℤ, u64_mod,
  sub64, refl, count, inl, inr, Bool-cases, arith,
}
use native.Mathlib.Decide.{ℕ_discrete}
use multi_instrument_orderbo.Types.{
  Side, remaining, OrderStatus, partially_filled, filled, opposite, is_fully_filled,
}
use multi_instrument_orderbo.Level.{Links}
use multi_instrument_orderbo.OrderBook.{OrderBook, pop_top}
use multi_instrument_orderbo.OrderBook.View.{Queues, View, Models, resting, with_queues}
use multi_instrument_orderbo.OrderBook.Pop.{
  drop_first, peek_top_lem, PoppedTop, pop_top-PoppedTop, count-left, length-left,
}
use multi_instrument_orderbo.HashMap.{delete}
use multi_instrument_orderbo.OrderBook.Rekey.{SameKeys, Models-SameKeys}
use multi_instrument_orderbo.Pool.{Pool, release}
use multi_instrument_orderbo.Pool.Stack.{Released, release-Released}
use multi_instrument_orderbo.Matcher.{
  State, order, set_status, next_maker, fill_of, fill_both, settle_maker,
}
use multi_instrument_orderbo.Matcher.Step.{
  IsOpen, Ready, next_maker-IsNext, Closed, Round, first_order-some,
}
use multi_instrument_orderbo.Matcher.Fill.{Filling, Filling-of}

settle_maker_full :
    (taker maker : ℕ) (w : State) (lk : Links) (b : OrderBook) (pool : Pool)
    → is_fully_filled (order w maker) ≡ true
    → pop_top
        (set_status maker filled w.pool).storage
        (opposite ((set_status maker filled w.pool).storage taker).side)
        w.links
        w.book
      ≡ some (lk, b)
    → release maker (set_status maker filled w.pool) ≡ some pool
    → settle_maker taker maker w ≡ some (record w { links = lk; pool = pool; book = b })
unfolding settle_maker
settle_maker_full taker maker w lk b pool e f g = rw (e, settle_maker) (simp (f, g))

module _ (taker maker : ℕ) (w : State) (v : View) (r : Ready taker w v) (p : ℤ) (xs : List ℕ)
    (q : Queues) (d : Filling taker maker w v p xs q) where
  abbrev opp : Side
  opp = opposite (order w taker).side

  abbrev fill : ℕ
  fill = fill_of taker maker w

  abbrev mid : State
  mid = fill_both taker maker w

  Models-mid : (st : OrderStatus) → Models (set_status maker st mid.pool).storage w.links w.book v
  Models-mid st = Models-SameKeys w.pool.storage _ (d.same_keys st) w.links w.book v r.models

  maker-IsOpen :
      is_fully_filled (order mid maker) ≡ false
      → IsOpen ((set_status maker partially_filled mid.pool).storage maker)
  unfolding is_fully_filled
  maker-IsOpen e = record {
    unfilled = ground (arith, d.maker_sum, d.maker_initial, d.fills.maker_room, e);
    word = ground (arith, d.maker_initial, d.maker_open);
  }

  IsOpen-kept :
      is_fully_filled (order mid maker) ≡ false
      → (a : ℕ) → 0 < count a (resting v)
      → IsOpen ((set_status maker partially_filled mid.pool).storage a)
  IsOpen-kept e a m = elim (ℕ_discrete a maker) [
    | yes same ↦
        subst (λ o. IsOpen ((set_status maker partially_filled mid.pool).storage o)) (sym same)
          (maker-IsOpen e)
    | no other ↦ subst IsOpen (sym (d.other_kept partially_filled a other m)) (r.open_orders a m)
  ]

  taker_full :
      is_fully_filled (order mid maker) ≡ false
      → (order w taker).filled_qty + fill ≡ (order w taker).initial_qty
  unfolding is_fully_filled
  taker_full e = ground (arith, d.maker_sum, d.maker_initial, d.fills.one_filled, e)

  -- The maker still has some quantity: it stays.
  Round-open : is_fully_filled (order mid maker) ≡ false → Round taker maker w v
  unfolding settle_maker fill_both
  Round-open e = record {
    after = record mid { pool = set_status maker partially_filled mid.pool };
    view = v;
    runs = rw (e, settle_maker);
    ready = record {
      models = Models-mid partially_filled;
      open_orders = IsOpen-kept e;
      aside = r.aside;
      taker_filled =
          subst (λ o. o.filled_qty ≤ o.initial_qty) (sym (d.taker_kept partially_filled))
            d.fills.taker_room;
      taker_word =
          subst (λ o. o.initial_qty < u64_mod) (sym (d.taker_kept partially_filled)) r.taker_word;
      pool_valid = record { sized = r.pool_valid.sized; within = r.pool_valid.within };
      room = r.room;
    };
    slots_kept = λ a. refl;
    top_kept = refl;
    capacity_kept = refl;
    keys_kept = d.same_keys partially_filled;
    outside = λ a ne out. ((refl, refl), d.untouched partially_filled a ne out);
    some_qty = d.fills.some_qty;
    taker_after = d.taker_kept partially_filled;
    progress = inl (taker_full e, refl, refl);
  }

  -- The maker is filled: it leaves the book for the pool.
  abbrev paid : Pool
  paid = set_status maker filled mid.pool

  abbrev rest : View
  rest = with_queues opp (drop_first p xs q) v

  same_side : opposite (paid.storage taker).side ≡ opp
  same_side = ap opposite (d.same_keys filled taker).1

  count-rest : (a : ℕ) → count a (resting rest) + count a (maker ∷ []) ≡ count a (resting v)
  count-rest = count-left paid.storage w.links w.book v (Models-mid filled) opp p maker xs q d.top

  popped : PoppedTop paid.storage opp w.links w.book maker xs rest
  popped =
      pop_top-PoppedTop paid.storage w.links w.book v (Models-mid filled) opp p maker xs q d.top

  released : Released maker paid
  unfolding fill_both
  released =
      release-Released maker paid
        (record { sized = r.pool_valid.sized; within = r.pool_valid.within })
        (omega (arith, r.room))

  order_rest : (a : ℕ) → 0 < count a (resting rest) → released.pool.storage a ≡ order w a
  order_rest a m =
      let other : a ≢ maker = λ e. absurd (ground (arith, e, count-rest a, r.models.unique a)) in
      let before : 0 < count a (resting v) = omega (arith, m, count-rest a) in
      ap (λ f. f a) released.storage_kept ∙ d.other_kept filled a other before

  IsOpen-rest : (a : ℕ) → 0 < count a (resting rest) → IsOpen (released.pool.storage a)
  IsOpen-rest a m =
      subst IsOpen (sym (order_rest a m)) (r.open_orders a (omega (arith, m, count-rest a)))

  taker_paid :
      released.pool.storage taker
      ≡ record (order w taker) { filled_qty = (order w taker).filled_qty + fill }
  taker_paid = ap (λ f. f taker) released.storage_kept ∙ d.taker_kept filled

  maker_paid : is_fully_filled (order mid maker) ≡ true → fill ≡ remaining (order w maker)
  unfolding is_fully_filled remaining sub64
  maker_paid e =
      let o = d.maker_open in ground (arith, e, d.maker_sum, d.maker_initial, o.unfilled, o.word)

  Closed-rest :
      fill ≡ remaining (order w maker)
      → Closed taker maker w
          (record mid { links = popped.links; pool = released.pool; book = popped.book })
          v
          rest
  unfolding fill_both
  Closed-rest e = record {
    price = p;
    queue = xs;
    others = q;
    top = d.top;
    view_after = refl;
    maker_closed = e;
    orders_kept = order_rest;
    left = count-rest;
    unindexed = popped.unindexed ∙ ap (λ i. delete i w.book.order_map) (d.same_keys filled maker).0;
    fewer = omega (
      arith,
      length-left paid.storage w.links w.book v (Models-mid filled) opp p maker xs q d.top,
    );
  }

  Round-closed : is_fully_filled (order mid maker) ≡ true → Round taker maker w v
  unfolding fill_both
  Round-closed e = record {
    after = record mid { links = popped.links; pool = released.pool; book = popped.book };
    view = rest;
    runs =
        settle_maker_full taker maker mid popped.links popped.book released.pool e
          (ap (λ s. pop_top paid.storage s w.links w.book) same_side ∙ popped.runs) released.runs;
    ready = record {
      models =
          subst (λ f. Models f popped.links popped.book rest) (sym released.storage_kept)
            popped.models;
      open_orders = IsOpen-rest;
      aside = omega (arith, count-rest taker, r.aside);
      taker_filled = subst (λ o. o.filled_qty ≤ o.initial_qty) (sym taker_paid) d.fills.taker_room;
      taker_word = subst (λ o. o.initial_qty < u64_mod) (sym taker_paid) r.taker_word;
      pool_valid = released.valid;
      room = omega (
        arith,
        released.top,
        released.capacity_kept,
        r.room,
        length-left paid.storage w.links w.book v (Models-mid filled) opp p maker xs q d.top,
      );
    };
    slots_kept = λ a. omega (arith, released.freed a, count-rest a);
    top_kept = omega (
      arith,
      released.top,
      length-left paid.storage w.links w.book v (Models-mid filled) opp p maker xs q d.top,
    );
    capacity_kept = released.capacity_kept;
    keys_kept = λ a.
        subst (λ f. SameKeys (order w a) (f a)) (sym released.storage_kept) (d.same_keys filled a);
    outside = λ a ne out. (
      popped.links_kept a (d.apart a out),
      ap (λ f. f a) released.storage_kept ∙ d.untouched filled a ne out,
    );
    some_qty = d.fills.some_qty;
    taker_after = taker_paid;
    progress = inr (Closed-rest (maker_paid e));
  }

-- In a state that is `Ready`, the round with the order that `match` turns to succeeds: something is
-- traded, the taker is filled by it, the state stays `Ready`, and the taker is full or one order
-- less rests.
pub round_lem :
    (taker maker : ℕ) (w : State) (v : View)
    → Ready taker w v
    → next_maker taker w ≡ some maker
    → Round taker maker w v
round_lem taker maker w v r e =
    let n = next_maker-IsNext taker maker w e in
    let (p, xs, q, top) =
      first_order-some (v (opposite (order w taker).side)) maker
        (sym (peek_top_lem w.pool.storage w.links w.book v _ r.models) ∙ n.on_top) in
    let d = Filling-of taker maker w v r n p xs q top in
    elim (Bool-cases (is_fully_filled (order (fill_both taker maker w) maker))) [
      | inl full ↦ Round-closed taker maker w v r p xs q d full
      | inr open_still ↦ Round-open taker maker w v r p xs q d open_still
    ]
