-- ===== src/OrderBook/Tests.antt =====
-- The theorems on `OrderBook` at the small book of Example.
use multi_instrument_orderbo.Prelude.{refl, [], ◌∷◌, pos}
use multi_instrument_orderbo.Types.{sell}
use multi_instrument_orderbo.OrderedMap.{find}
use multi_instrument_orderbo.HashMap.{lookup}
use multi_instrument_orderbo.OrderBook.View.{with_queues}
use multi_instrument_orderbo.OrderBook.Add.{Added, add_resting-Added}
use multi_instrument_orderbo.OrderBook.Settle.{settle_queue}
use multi_instrument_orderbo.OrderBook.Cancel.{Taken, cancel_and_get-Taken}
use multi_instrument_orderbo.OrderBook.Example.{orders, links, book, view, book-Models, locator}

add_resting-Added_example : Added orders 2 links book view
add_resting-Added_example = add_resting-Added orders 2 links book view book-Models refl

cancel_and_get-Taken_example :
    Taken orders 11 links book
      (with_queues sell (settle_queue sell (pos 100) (0 ∷ []) (view sell)) view)
      1
unfolding lookup find
cancel_and_get-Taken_example =
    cancel_and_get-Taken orders links book view book-Models (locator 1) (0 ∷ []) [] refl 11 refl
