-- ===== src/Matcher/Cancel.antt =====
-- `Matcher::cancel` in terms of the view of the book and of the free slots.
use multi_instrument_orderbo.Prelude.{
  ℕ, ◌+◌, ◌<◌, ◌≡◌, ◌≢◌, refl, sym, ap, ◌∙◌, subst, true, false, none, some, [], ◌∷◌, ◌++◌, arith,
  count, count-split,
}
use multi_instrument_orderbo.Types.{cancelled}
use multi_instrument_orderbo.HashMap.{lookup}
use multi_instrument_orderbo.OrderBook.{Locator}
use multi_instrument_orderbo.OrderBook.View.{View, with_queues, Models, resting}
use multi_instrument_orderbo.OrderBook.Settle.{settle_queue}
use multi_instrument_orderbo.OrderBook.Cancel.{
  Taken, cancel_and_get-Taken, cancel_and_get_unknown, count-without,
}
use multi_instrument_orderbo.OrderBook.Uncrossed.{
  Shrinks, Shrinks-with_queues, HasPrice-settle_queue, HasPrice-find,
}
use multi_instrument_orderbo.OrderBook.Frame.{SameLinks}
use multi_instrument_orderbo.OrderBook.Rekey.{SameKeys, Models-SameKeys}
use multi_instrument_orderbo.Pool.{Pool, free}
use multi_instrument_orderbo.Pool.Stack.{IsValid, Released, release-Released}
use multi_instrument_orderbo.Matcher.{State, order, set_status, cancel}

-- What `cancel` does with a resting order `o`.
pub record CancelDone (id o : ℕ) (w : State) (v : View) : Type 0 where
  pub after : State
  pub view : View
  pub runs : cancel id w ≡ some (after, true)
  pub models : Models after.pool.storage after.links after.book view
  pub pool_valid : IsValid after.pool
  pub marked : order after o ≡ record (order w o) { status = cancelled }
  pub shrinks : Shrinks v view
  pub orders_kept : (a : ℕ) → a ≢ o → order after a ≡ order w a
  pub links_kept : (a : ℕ) → a ≢ o → count a (resting v) ≡ 0 → SameLinks w.links after.links a
  pub gone : (a : ℕ) → count a (resting view) + count a (o ∷ []) ≡ count a (resting v)
  pub freed : (a : ℕ) → count a (free after.pool) ≡ count a (o ∷ []) + count a (free w.pool)

cancel_steps :
    (id o : ℕ) (w : State) (v : View) (t : Taken w.pool.storage id w.links w.book v o)
    → (r : Released o (set_status o cancelled w.pool))
    → cancel id w ≡ some (record w { links = t.links; pool = r.pool; book = t.book }, true)
unfolding cancel
cancel_steps id o w v t r = rw (t.runs, cancel) (rw r.runs refl)

marked_of :
    (o : ℕ) (p : Pool) (r : Released o (set_status o cancelled p))
    → r.pool.storage o ≡ record (p.storage o) { status = cancelled }
marked_of o p r = ap (λ f. f o) r.storage_kept ∙ ground arith

mark-SameKeys :
    (o : ℕ) (p : Pool) (a : ℕ) → SameKeys (p.storage a) ((set_status o cancelled p).storage a)
mark-SameKeys o p a = ground (arith, ap p.storage {x = o} {y = a})

-- `cancel` of an id that the index has succeeds: the order is marked, leaves the book, which goes on
-- to model all others, and its slot is free again.
pub cancel-CancelDone :
    (id : ℕ) (w : State) (v : View) (loc : Locator)
    → Models w.pool.storage w.links w.book v
    → IsValid w.pool
    → w.pool.stack_top < w.pool.capacity
    → lookup id w.book.order_map ≡ some loc
    → CancelDone id loc.order w v
cancel-CancelDone id w v loc h valid out entry =
    let (same_id, place) = h.listed id loc entry in
    let (queue, found, inside) = place in
    let (front, back, split) = count-split loc.order queue inside in
    let at_price = found ∙ ap some split in
    let left : View =
      with_queues loc.side (settle_queue loc.side loc.price (front ++ back) (v loc.side)) v in
    let t =
      cancel_and_get-Taken w.pool.storage w.links w.book v h loc front back at_price id entry in
    let r =
      release-Released loc.order (set_status loc.order cancelled w.pool)
        (record { sized = valid.sized; within = valid.within }) out in
    record {
      after = record w { links = t.links; pool = r.pool; book = t.book };
      view = left;
      runs = cancel_steps id loc.order w _ t r;
      models =
          subst (λ f. Models f t.links t.book left) (sym r.storage_kept)
            (Models-SameKeys w.pool.storage _ (mark-SameKeys loc.order w.pool) t.links t.book left
              t.models);
      pool_valid = r.valid;
      marked = marked_of loc.order w.pool r;
      shrinks = Shrinks-with_queues loc.side _ v (λ k there.
          HasPrice-settle_queue loc.side loc.price k (front ++ back) (v loc.side)
            (HasPrice-find loc.side loc.price (v loc.side) queue found) there);
      orders_kept = λ a ne. ap (λ f. f a) r.storage_kept ∙ ground (arith, ne);
      links_kept = λ a ne out.
          t.links_kept a
            (omega (
              arith,
              out,
              count-without w.pool.storage w.links w.book v h loc front back at_price a,
            ))
            ne;
      gone = count-without w.pool.storage w.links w.book v h loc front back at_price;
      freed = r.freed;
    }

-- `cancel` of an unknown id answers `false` and changes nothing.
pub cancel_unknown :
    (id : ℕ) (w : State) → lookup id w.book.order_map ≡ none → cancel id w ≡ some (w, false)
unfolding cancel
cancel_unknown id w e = rw (cancel_and_get_unknown id w.links w.book e, cancel) refl
