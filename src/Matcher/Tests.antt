-- ===== src/Matcher/Tests.antt =====
-- The theorems on `Matcher` at the state of Example.
use multi_instrument_orderbo.Prelude.{◌≡◌, refl, true, inr, ◌⊎◌, some, [], ◌++◌, arith, sub64}
use multi_instrument_orderbo.OrderBook.Example.{view, book-Models}
use multi_instrument_orderbo.OrderBook.{peek_top}
use multi_instrument_orderbo.Types.{remaining}
use multi_instrument_orderbo.Level.{walk}
use multi_instrument_orderbo.Matcher.{
  State, order, next_maker, match_loop, refuses, prices_cross, consume, can_fill_levels,
  can_fully_fill,
}
use multi_instrument_orderbo.Matcher.Priority.{planned, match_loop-planned}
use multi_instrument_orderbo.OrderBook.Uncrossed.{IsUncrossed}
use multi_instrument_orderbo.Matcher.Uncrossed.{LeavesUncrossed, submit-LeavesUncrossed}
use native.Mathlib.Decide.{ℕ_discrete}
use multi_instrument_orderbo.Matcher.Entries.{IsIndexed}
use multi_instrument_orderbo.Matcher.Indexed.{LeavesIndexed, submit-LeavesIndexed}
use multi_instrument_orderbo.Matcher.FillOrKill.{FilledWhole, Killed, submit-FilledOrKilled}
use multi_instrument_orderbo.Matcher.Run.{Matched, match_loop-Matched}
use multi_instrument_orderbo.HashMap.{lookup}
use multi_instrument_orderbo.OrderBook.Example.{locator}
use multi_instrument_orderbo.Matcher.Submit.{Submitted, submit-Submitted}
use multi_instrument_orderbo.Matcher.Retire.{AllCancelled, cancel_all-AllCancelled}
use multi_instrument_orderbo.Matcher.Example.{
  start, clock, start-Ready, not_refused, fok_start, fok_start-Ready, not_malformed,
}

meets_first : next_maker 2 start ≡ some 0
unfolding next_maker refuses prices_cross peek_top remaining sub64
meets_first = refl

match_loop-Matched_example : Matched 5 2 start view []
match_loop-Matched_example =
    match_loop-Matched 5 2 start view [] start-Ready (omega arith, inr (omega arith))

submit-Submitted_example : Submitted 5 clock 2 start view
submit-Submitted_example = submit-Submitted clock 2 start view start-Ready not_refused

cancel_all-AllCancelled_example : AllCancelled start view
cancel_all-AllCancelled_example =
    cancel_all-AllCancelled start view book-Models (record { sized = refl; within = omega arith })
      (omega arith) (omega arith)

submit-FilledOrKilled_example : FilledWhole clock 2 fok_start view ⊎ Killed clock 2 fok_start view
submit-FilledOrKilled_example =
    submit-FilledOrKilled clock 2 fok_start view fok_start-Ready refl not_malformed

fok_within_reach : can_fully_fill fok_start (order fok_start 2) ≡ true
unfolding can_fully_fill can_fill_levels consume refuses prices_cross remaining sub64 walk
fok_within_reach = refl

match_loop-planned_example :
    (after : State) × (match_loop 5 2 start [] ≡ some (after, [] ++ planned 2 start view))
match_loop-planned_example =
    match_loop-planned 5 2 start view [] start-Ready (omega arith, inr (omega arith))

view-IsUncrossed : IsUncrossed view
view-IsUncrossed bid ask b a = absurd b

submit-LeavesUncrossed_example : LeavesUncrossed clock 2 start
submit-LeavesUncrossed_example =
    submit-LeavesUncrossed clock 2 start view start-Ready view-IsUncrossed

start-IsIndexed : IsIndexed start view
unfolding lookup
start-IsIndexed a m = elim (ℕ_discrete a 0) [
  | yes first ↦ rw first (locator 0, refl, refl)
  | no ne ↦ elim (ℕ_discrete a 1) [
    | yes second ↦ rw second (locator 1, refl, refl)
    | no ne' ↦ absurd (ground (arith, m, ne, ne'))
  ]
]

submit-LeavesIndexed_example : LeavesIndexed clock 2 start
unfolding lookup
submit-LeavesIndexed_example =
    submit-LeavesIndexed clock 2 start view start-Ready start-IsIndexed refl
