-- ===== src/OrderBook/Lengths.antt =====
-- How many orders rest in the view once `add_resting` has added one.
use multi_instrument_orderbo.Prelude.{
  ℕ, suc, ◌+◌, ◌≡◌, List, [], ◌∷◌, ◌++◌, ℤ, length, length-append, arith, inl, inr, Bool-cases,
}
use multi_instrument_orderbo.Types.{Side, buy, sell}
use multi_instrument_orderbo.OrderedMap.{find, assign}
use multi_instrument_orderbo.OrderBook.{Orders, price_order, better}
use multi_instrument_orderbo.OrderBook.View.{
  Queues, View, slots, resting, with_queues, queue_or_empty,
}
use multi_instrument_orderbo.OrderBook.Add.{enqueue, queue_at}

length-assign :
    (s : Side) (k : ℤ) (q : Queues) (ys : List ℕ)
    → length (slots (assign (price_order s) k ys q))
        + length (queue_or_empty (find (price_order s) k q))
      ≡ length ys + length (slots q)
unfolding find assign
length-assign s k [] ys = omega (arith, length-append ys [])
length-assign s k ((p, xs) ∷ q) ys = elim (Bool-cases (better s p k)) [
  | inl f ↦ rw f (
      omega (
        arith,
        length-append xs (slots q),
        length-append xs (slots (assign (price_order s) k ys q)),
        length-assign s k q ys,
      ))
  | inr f ↦ elim (Bool-cases (better s k p)) [
    | inl g ↦ rw (f, g) (omega (arith, length-append ys (xs ++ slots q)))
    | inr g ↦ rw (f, g) (omega (arith, length-append ys (slots q), length-append xs (slots q)))
  ]
]

length-resting_with :
    (s : Side) (q : Queues) (v : View)
    → length (resting (with_queues s q v)) + length (slots (v s))
      ≡ length (slots q) + length (resting v)
length-resting_with buy q v = omega (
  arith,
  length-append (slots q) (slots (v sell)),
  length-append (slots (v buy)) (slots (v sell)),
)
length-resting_with sell q v =
    omega (
      arith,
      length-append (slots (v buy)) (slots q),
      length-append (slots (v buy)) (slots (v sell)),
    )

pub length-enqueue :
    (orders : Orders) (o : ℕ) (v : View)
    → length (resting (enqueue orders o v)) ≡ suc (length (resting v))
unfolding enqueue
length-enqueue orders o v =
    let s = (orders o).side in
    let p = (orders o).limit_price in
    let queue = queue_at s p v ++ (o ∷ []) in
    omega (
      arith,
      length-resting_with s (assign (price_order s) p queue (v s)) v,
      length-assign s p (v s) queue,
      length-append (queue_at s p v) (o ∷ []),
    )
