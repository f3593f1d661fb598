-- ===== src/Stream/Map/Flush.antt =====
-- src/stream.rs, `StreamMap::peek_flushable`: drop the blocks that are late, then choose one.
pub mod Deque
pub mod Drop
pub mod Late
pub mod Peek
pub mod Blocked
use dtp.Base.{
  ℕ, zero, suc, ◌+◌, Bool, true, false, ◌==◌, Option, none, some, List, [], ◌∷◌, ◌++◌,
  if◌then◌else◌, length, set, Result, ok, err, panic,
}
use mathlib.Core.List.{reverse}
use dtp.Scheduler.{Block, Scheduler}
use dtp.Stream.Map.{StreamMap, get_block, get_blocks, cancel_block}

-- `VecDeque`: the element at an index, the last of a queue, and all but the last.
unfoldable pub get : List ℕ → ℕ → Option ℕ
get [] i = none
get (x ∷ xs) zero = some x
get (x ∷ xs) (suc i) = get xs i

unfoldable pub last_of : ℕ → List ℕ → ℕ
last_of x [] = x
last_of x (y ∷ ys) = last_of y ys

unfoldable pub but_last : List ℕ → List ℕ
but_last [] = []
but_last (x ∷ []) = []
but_last (x ∷ y ∷ ys) = x ∷ but_last (y ∷ ys)

-- `swap_remove_back` and `swap_remove_front`: the element at the index goes, and the last or the
-- first takes its place.
unfoldable pub swap_remove_back : ℕ → List ℕ → List ℕ
unfolding last_of but_last
swap_remove_back i [] = []
swap_remove_back i (x ∷ xs) = but_last (set (x ∷ xs) i (last_of x xs))

unfoldable pub swap_remove_front : ℕ → List ℕ → List ℕ
swap_remove_front i [] = []
swap_remove_front zero (x ∷ xs) = xs
swap_remove_front (suc i) (x ∷ xs) = set xs i x

-- The last loop: the first number that equals `id` goes.
unfoldable pub find : ℕ → List ℕ → Option ℕ
find id [] = none
find id (x ∷ xs) =
    if x == id then some 0 else elim (find id xs) [ none ↦ none | some i ↦ some (suc i) ]

unfoldable pub take_out : ℕ → List ℕ → List ℕ
unfolding find swap_remove_front
take_out id xs = elim (find id xs) [ none ↦ xs | some i ↦ swap_remove_front i xs ]

-- A round of the second loop at the index `i`, in the two cases of the test; `loop` is the loop from
-- the next index on.
module _ {S : Type 0} (loop : List Block → StreamMap S → Result (List Block) × StreamMap S) where
  unfoldable pub canceled_at :
      ℕ → List Block → Result (Unit {0}) × StreamMap S → Result (List Block) × StreamMap S
  unfolding swap_remove_back
  canceled_at i kept (ok _, m) = loop kept (record m { flushable = swap_remove_back i m.flushable })
  canceled_at i kept (err e, m) = (err e, m)
  canceled_at i kept (panic, m) = (panic, m)

  unfoldable pub drop_or_keep :
      ℕ → ℕ → Block → List Block → StreamMap S → Bool × S → Result (List Block) × StreamMap S
  unfolding cancel_block canceled_at
  drop_or_keep i id b kept m (true, s) =
      canceled_at i kept (cancel_block id (record m { scheduler = s }))
  drop_or_keep i id b kept m (false, s) = loop (kept ++ (b ∷ [])) (record m { scheduler = s })

-- The end of `peek_flushable`, with the scheduler's answer.
unfoldable pub chosen :
    {S : Type 0} → Result (ℕ × S) → StreamMap S → Result (Option ℕ) × StreamMap S
unfolding take_out
chosen (ok (id, s)) m =
    (ok (some id), record m { scheduler = s; flushable = take_out id m.flushable })
chosen (err e) m = (err e, m)
chosen panic m = (panic, m)

module _ {W S : Type 0} (sched : Scheduler W S) (bandwidth rtt : W) (next now : ℕ) where
  -- The second loop, downwards from the index `i` (not with it), with the blocks kept so far.
  unfoldable pub drop_late : ℕ → List Block → StreamMap S → Result (List Block) × StreamMap S
  unfolding get get_block drop_or_keep
  drop_late zero kept m = (ok kept, m)
  drop_late (suc i) kept m = elim (get m.flushable i) [
    | none ↦ (panic, m)
    | some id ↦ elim (get_block id m) [
      | ok b ↦
          drop_or_keep (drop_late i) i id b kept m
            (sched.should_drop_block b bandwidth rtt next now m.scheduler)
      | err e ↦ (err e, m)
      | panic ↦ (panic, m)
    ]
  ]

  -- The rest, with the blocks that are not late.
  unfoldable pub choose : List Block → StreamMap S → Result (Option ℕ) × StreamMap S
  unfolding chosen
  choose [] m = (ok none, m)
  choose (b ∷ bs) m = chosen (sched.select_block (b ∷ bs) bandwidth rtt next now m.scheduler) m

  unfoldable pub choose_kept : Result (List Block) × StreamMap S → Result (Option ℕ) × StreamMap S
  unfolding choose
  choose_kept (ok bs, m) = choose bs m
  choose_kept (err e, m) = (err e, m)
  choose_kept (panic, m) = (panic, m)

  -- The part after the first loop, with its blocks.
  unfoldable pub serve_blocks : Result (List Block) → StreamMap S → Result (Option ℕ) × StreamMap S
  unfolding drop_late choose_kept
  serve_blocks (ok bs) m =
      let seen = sched.peek_through_flushable bs bandwidth rtt next now m.scheduler in
      choose_kept (drop_late (length m.flushable) [] (record m { scheduler = seen }))
  serve_blocks (err e) m = (err e, m)
  serve_blocks panic m = (panic, m)

  unfoldable pub peek_flushable : StreamMap S → Result (Option ℕ) × StreamMap S
  unfolding get_blocks serve_blocks
  peek_flushable m =
      if length m.flushable == 0
      then (ok none, m)
      else serve_blocks (get_blocks (reverse m.flushable) m) m
