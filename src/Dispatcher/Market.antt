-- ===== src/Dispatcher/Market.antt =====
-- The books of all instruments and the pool together.
use multi_instrument_orderbo.Prelude.{
  ℕ, ◌+◌, ◌≤◌, ◌<◌, ◌≡◌, sym, ap, subst, some, ◌++◌, length, length-append, count, count-append,
  arith,
}
use multi_instrument_orderbo.HashMap.{lookup}
use multi_instrument_orderbo.Level.{Links}
use multi_instrument_orderbo.Pool.{Pool, free}
use multi_instrument_orderbo.Pool.Stack.{IsValid}
use multi_instrument_orderbo.OrderBook.View.{View, resting}
use multi_instrument_orderbo.OrderBook.Frame.{SameLinks}
use multi_instrument_orderbo.OrderBook.Outside.{Models-Same}
use multi_instrument_orderbo.Matcher.Step.{IsOpen}
use multi_instrument_orderbo.Engine.{Slot, Engine}
use multi_instrument_orderbo.Engine.Books.{Books}
use multi_instrument_orderbo.Dispatcher.Placing.{IsTrading}
use multi_instrument_orderbo.Pool.Size.{length_bound, length-take_all}

-- All books are in order; the slots that are free or rest in a book lie below the pool's capacity, and
-- none of them is twice among these.
pub record IsMarket (e : Engine) (views : ℕ → View) : Type 0 where
  pub books : Books e views
  pub pool_valid : IsValid e.pool
  pub apart : (j a : ℕ) → count a (free e.pool) + count a (resting (views j)) ≤ 1
  pub below :
      (j a : ℕ) → e.pool.capacity ≤ a → count a (free e.pool) + count a (resting (views j)) ≡ 0

pub IsMarket-room :
    (e : Engine) (views : ℕ → View)
    → IsMarket e views
    → (j : ℕ) → e.pool.stack_top + length (resting (views j)) ≤ e.pool.capacity
IsMarket-room e views m j =
    let all = free e.pool ++ resting (views j) in
    let size =
      length_bound e.pool.capacity all
        (λ a. omega (arith, m.apart j a, count-append a (free e.pool) (resting (views j))))
        (λ a h. omega (arith, m.below j a h, count-append a (free e.pool) (resting (views j)))) in
    omega (
      arith,
      size,
      length-append (free e.pool) (resting (views j)),
      length-take_all e.pool.free_slots e.pool.stack_top
          (omega (arith, m.pool_valid.sized, m.pool_valid.within)),
    )

-- One book of the market.
pub IsMarket-IsTrading :
    (e : Engine) (views : ℕ → View) (k : ℕ) (sl : Slot)
    → IsMarket e views
    → lookup k e.matchers ≡ some sl
    → IsTrading sl e (views k)
IsMarket-IsTrading e views k sl m here = record {
  models = m.books.models k sl here;
  open_orders = m.books.open_orders k;
  pool_valid = m.pool_valid;
  apart = m.apart k;
  room = IsMarket-room e views m k;
}

-- Writes to slots that rest in no book.
pub Books-aside :
    (e : Engine) (views : ℕ → View) (lk : Links) (pool : Pool)
    → Books e views
    → ((j a : ℕ)
        → 0 < count a (resting (views j))
        → SameLinks e.links lk a × (pool.storage a ≡ e.pool.storage a))
    → Books (record e { links = lk; pool = pool }) views
Books-aside e views lk pool b kept = record {
  models = λ j sl here.
      Models-Same e.pool.storage pool.storage e.links lk sl.book (views j)
        (λ a m.
          let (links, same) = kept j a m in
          (links, (ap (λ r. r.id) same, ap (λ r. r.side) same, ap (λ r. r.limit_price) same)))
        (b.models j sl here);
  open_orders = λ j a m. subst IsOpen (sym (kept j a m).1) (b.open_orders j a m);
  apart = b.apart;
  uncrossed = b.uncrossed;
}
