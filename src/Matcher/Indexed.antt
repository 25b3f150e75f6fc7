-- ===== src/Matcher/Indexed.antt =====
-- The index of the book reaches every resting order, while the ids in use are distinct: what
-- `Matcher::submit` does to it.
use multi_instrument_orderbo.Prelude.{
  ℕ, suc, ◌<◌, ◌≡◌, ◌≢◌, sym, ap, ◌∙◌, subst, true, false, some, List, [], count, arith, inl, inr,
  Bool-cases, some-eq,
}
use native.Mathlib.Decide.{ℕ_discrete}
use multi_instrument_orderbo.HashMap.{lookup, lookup-delete}
use multi_instrument_orderbo.Types.{Trade, rejected}
use multi_instrument_orderbo.OrderBook.{Locator}
use multi_instrument_orderbo.OrderBook.View.{View, Models, resting}
use multi_instrument_orderbo.Matcher.{
  State, Clock, order, set_status, is_refused, conclude, stamp, submit,
}
use multi_instrument_orderbo.Matcher.Step.{Ready, Round}
use multi_instrument_orderbo.Matcher.Run.{Rounds, done, more}
use multi_instrument_orderbo.Matcher.Conclude.{Lands, stays, joins, Models-status}
use multi_instrument_orderbo.Matcher.Submit.{submit-Submitted, submit_refused}
use multi_instrument_orderbo.Matcher.Cancel.{CancelDone, cancel-CancelDone}
use multi_instrument_orderbo.Pool.Stack.{IsValid}
use multi_instrument_orderbo.OrderBook.Add.{count-enqueue}
use multi_instrument_orderbo.Matcher.Entries.{
  IsIndexed, IsFresh, lookup-conclude, lookup-conclude_self, id-conclude, id-set_status,
}

module _ (taker maker : ℕ) (w : State) (v : View) (ready : Ready taker w v)
    (r : Round taker maker w v) where
  IsIndexed-Round : IsIndexed w v → IsIndexed r.after r.view
  IsIndexed-Round h a m = elim r.progress [
    | inl (whole, same, book) ↦
        let (loc, found, at) = h a (omega (arith, m, ap (λ u. count a (resting u)) same)) in
        (loc, rw ((r.keys_kept a).0, book) found, at)
    | inr c ↦
        let (loc, found, at) = h a (omega (arith, m, c.left a)) in
        let maker_rests : 0 < count maker (resting v) = ground (arith, c.left maker) in
        let (loc', found', at') = h maker maker_rests in
        let other : a ≢ maker =
          λ e. absurd (ground (arith, e, m, c.left a, ready.models.unique a)) in
        let ids : (order w maker).id ≢ (order w a).id = λ e. other (
          sym at
          ∙ ap (λ l. l.order)
              (some-eq (sym found ∙ ap (λ i. lookup i w.book.order_map) (sym e) ∙ found'))
          ∙ at') in
        (
          loc,
          rw ((r.keys_kept a).0, c.unindexed)
              (ground (
                arith,
                lookup-delete (order w maker).id (order w a).id w.book.order_map,
                ids,
                found,
              )),
          at,
        )
  ]

  IsFresh-Round : IsFresh taker w → IsFresh taker r.after
  IsFresh-Round h = elim r.progress [
    | inl (whole, same, book) ↦ rw ((r.keys_kept taker).0, book) h
    | inr c ↦
        rw ((r.keys_kept taker).0, c.unindexed)
          (ground (arith, lookup-delete (order w maker).id (order w taker).id w.book.order_map, h))
  ]

Rounds-IsIndexed :
    (taker : ℕ) (w' : State) (v' : View) (w : State) (v : View) (ts : List Trade)
    → Rounds taker w' v' w v ts
    → IsIndexed w v
    → IsFresh taker w
    → IsIndexed w' v' × IsFresh taker w'
Rounds-IsIndexed taker w' v' w v ts done h f = (h, f)
Rounds-IsIndexed taker w' v' w v ts (more {ts = rest} maker ready e r rs) h f =
    Rounds-IsIndexed taker w' v' r.after r.view rest rs (IsIndexed-Round taker maker w v ready r h)
      (IsFresh-Round taker maker w v ready r f)

IsIndexed-conclude :
    (taker : ℕ) (w : State) (v v' : View)
    → Lands taker w v v'
    → IsIndexed w v
    → IsFresh taker w
    → IsIndexed (conclude taker w) v'
IsIndexed-conclude taker w v v' lands h fresh = by_view v' lands
  where
    -- An order that has rested before.
    before :
        (a : ℕ)
        → 0 < count a (resting v)
        → (loc : Locator) × (lookup
              (order (conclude taker w) a).id
              (conclude taker w).book.order_map
            ≡ some loc)
          × (loc.order ≡ a)
    before a m =
        let (loc, found, at) = h a m in
        let ids : (order w taker).id ≢ (order w a).id =
          λ e. cc (sym found ∙ ap (λ i. lookup i w.book.order_map) (sym e) ∙ fresh) in
        (
          loc,
          ap (λ i. lookup i (conclude taker w).book.order_map) (id-conclude taker w a)
              ∙ lookup-conclude taker w (order w a).id ids
              ∙ found,
          at,
        )

    by_view : (u : View) → Lands taker w v u → IsIndexed (conclude taker w) u
    by_view u stays a m = before a m
    by_view u (joins orders side price less waits) a m = elim (ℕ_discrete a taker) [
      | yes same ↦
          let (loc, found, at) = lookup-conclude_self taker w fresh less waits in
          (
            loc,
            ap (λ i. lookup i (conclude taker w).book.order_map)
                  (id-conclude taker w a ∙ ap (λ i. (order w i).id) same)
                ∙ found,
            at ∙ sym same,
          )
      | no other ↦ before a (ground (arith, m, other, count-enqueue orders taker v a))
    ]

stamp-IsIndexed :
    (taker : ℕ) (c : Clock) (w : State) (v : View) → IsIndexed w v → IsIndexed (stamp taker c w) v
unfolding stamp
stamp-IsIndexed taker c w v h a m =
    let (loc, found, at) = h a m in
    let same : (order (stamp taker c w) a).id ≡ (order w a).id =
      ground (arith, ap w.pool.storage {x = taker} {y = a}) in
    (loc, ap (λ i. lookup i w.book.order_map) same ∙ found, at)

-- What `submit` leaves: a book that models a view and whose index reaches all of it.
pub record LeavesIndexed (c : Clock) (taker : ℕ) (w : State) : Type 0 where
  pub after : State
  pub trades : List Trade
  pub view : View
  pub runs : submit (suc w.pool.capacity) c taker w ≡ some (after, trades)
  pub models : Models after.pool.storage after.links after.book view
  pub indexed : IsIndexed after view

module _ (c : Clock) (taker : ℕ) (w : State) (v : View) (r : Ready taker w v) (h : IsIndexed w v)
    (fresh : IsFresh taker w) where
  accepted-LeavesIndexed : is_refused taker w ≡ false → LeavesIndexed c taker w
  accepted-LeavesIndexed e =
      let s = submit-Submitted c taker w v r e in
      let m = s.matched in
      let (matched, still) = Rounds-IsIndexed taker m.after m.view w v m.new m.rounds h fresh in
      let concluded = IsIndexed-conclude taker m.after m.view s.view s.lands matched still in
      record {
        after = s.after;
        trades = s.trades;
        view = s.view;
        runs = s.runs;
        models = s.models;
        indexed =
            subst (λ x. IsIndexed x s.view) (sym s.ends)
              (stamp-IsIndexed taker c (conclude taker m.after) s.view concluded);
      }

  rejected-LeavesIndexed : is_refused taker w ≡ true → LeavesIndexed c taker w
  rejected-LeavesIndexed e = record {
    after = record w { pool = set_status taker rejected w.pool };
    trades = [];
    view = v;
    runs = submit_refused (suc w.pool.capacity) c taker w e;
    models = Models-status taker w v r rejected;
    indexed = λ a m.
        let (loc, found, at) = h a m in
        (loc, ap (λ i. lookup i w.book.order_map) (id-set_status taker w rejected a) ∙ found, at);
  }

-- In a state that is `Ready`, where the index reaches every resting order under its id and has no
-- entry for the taker's, `submit`, whether it refuses the order or not, leaves a book that models its
-- orders and whose index reaches every one of them, the taker where it rests.
pub submit-LeavesIndexed :
    (c : Clock) (taker : ℕ) (w : State) (v : View)
    → Ready taker w v
    → IsIndexed w v
    → IsFresh taker w
    → LeavesIndexed c taker w
submit-LeavesIndexed c taker w v r h fresh = elim (Bool-cases (is_refused taker w)) [
  | inl e ↦ rejected-LeavesIndexed c taker w v r h fresh e
  | inr e ↦ accepted-LeavesIndexed c taker w v r h fresh e
]

-- A resting order that the index reaches is cancelled by its id.
pub cancel-Indexed :
    (a : ℕ) (w : State) (v : View)
    → Models w.pool.storage w.links w.book v
    → IsIndexed w v
    → IsValid w.pool
    → w.pool.stack_top < w.pool.capacity
    → 0 < count a (resting v)
    → CancelDone (order w a).id a w v
cancel-Indexed a w v models h valid out m =
    let (loc, found, at) = h a m in
    subst (λ o. CancelDone (order w a).id o w v) at
      (cancel-CancelDone (order w a).id w v loc models valid out found)
