-- ===== src/Scheduler/Dtp.antt =====
-- src/scheduler/dtp_scheduler.rs, `DtpScheduler`: the block of least weight, by its remaining time,
-- its priority and the share of it that is not sent.
pub mod Choice
use dtp.Base.{
  ℕ, ◌≤◌, ◌<◌, ◌≡◌, ◌⊎◌, refl, ap, sym, inl, inr, Bool, true, false, ◌&&◌, ◌||◌, Option, none, some,
  List, [], ◌∷◌, ltb, if◌then◌else◌, Result, ok, err, panic, arith, Bool-cases,
}
use dtp.Base.Words.{sub64}
use dtp.Base.Floats.{F64, IsNumber, IsOrdered}
use dtp.Scheduler.{Block, Scheduler, do_nothing}
use dtp.Scheduler.Basic.{Has}

-- The fields `alpha`, 0.5, and `beta`, 100000.0, and `max_prio`, 2, never change.
pub record DtpScheduler : Type 0 where
  pub ddl : ℕ
  pub size : ℕ
  pub prio : ℕ
  pub last_block_id : Option ℕ

abbrev pub new_dtp : DtpScheduler
new_dtp = record { ddl = 0; size = 0; prio = 999999999; last_block_id = none }

abbrev pub max_prio : ℕ
max_prio = 2

abbrev pub beta : ℕ
beta = 100000

module _ {W : Type 0} ⦃f : F64 W⦄ (pacing_rate rtt : W) (current_time : ℕ) where
  open f use {from_u64, half, add, sub, mul, div, neg, min_of, gt, eq}

  -- Bytes over KB/s, in milliseconds, taken off the time that is left.
  unfoldable pub remaining_time : Block → W
  remaining_time b =
      let passed_time = sub64 current_time b.block_create_time in
      let one_way_delay = div rtt (from_u64 2) in
      sub (sub (sub (from_u64 b.block_deadline) (from_u64 passed_time)) one_way_delay)
        (mul (div (from_u64 b.remaining_size) (mul pacing_rate (from_u64 1024))) (from_u64 1000))

  unfoldable pub remaining_time_weight : Block → W
  unfolding remaining_time
  remaining_time_weight b =
      let left = remaining_time b in
      let tempddl = from_u64 b.block_deadline in
      if gt left (from_u64 0)
      then div left tempddl
      else add (min_of (from_u64 1) (div (neg left) tempddl)) (from_u64 beta)

  unfoldable pub weight : Block → W
  unfolding remaining_time_weight
  weight b =
      let unsent_ratio = div (from_u64 b.remaining_size) (from_u64 b.block_size) in
      mul
        (add (mul (sub (from_u64 1) half) (remaining_time_weight b))
          (div (mul half (from_u64 b.block_priority)) (from_u64 max_prio)))
        unsent_ratio

  -- The block `b` is preferred to the best so far, `m`.
  unfoldable pub better : Block → Block → Bool
  unfolding weight
  better b m =
      gt (weight m) (weight b)
      || (eq (weight m) (weight b) && ltb b.remaining_size m.remaining_size)

  -- A round of the `for` loop: a block without data left is passed over.
  unfoldable pub consider : Option Block → Block → Option Block
  unfolding better
  consider none b = if ltb 0 b.remaining_size then some b else none
  consider (some m) b = if ltb 0 b.remaining_size && better b m then some b else some m

  -- The `for` loop, with the best block so far.
  unfoldable pub lightest : Option Block → List Block → Option Block
  unfolding consider
  lightest best [] = best
  lightest best (b ∷ bs) = lightest (consider best b) bs

  unfoldable pub select_dtp : List Block → DtpScheduler → Result (ℕ × DtpScheduler)
  unfolding lightest
  select_dtp bs s = elim (lightest none bs) [
    | some b ↦ ok (
      b.block_id,
      record {
        ddl = b.block_deadline;
        size = b.remaining_size;
        prio = b.block_priority;
        last_block_id = some b.block_id;
      },
    )
    | none ↦ elim s.last_block_id [
      | none ↦ panic
      | some id ↦ ok (id, record s { ddl = 0; size = 0; prio = 0 })
    ]
  ]

-- `should_drop_block`: the deadline has passed.
unfoldable pub misses_deadline : ℕ → Block → Bool
misses_deadline current_time b = ltb b.block_deadline (sub64 current_time b.block_create_time)

abbrev pub dtp_scheduler : {W : Type 0} ⦃f : F64 W⦄ → Scheduler W DtpScheduler
dtp_scheduler = record {
  select_block = λ bs pacing_rate rtt next_packet_id current_time s.
      select_dtp pacing_rate rtt current_time bs s;
  should_drop_block =
      λ b pacing_rate rtt next_packet_id current_time s. (misses_deadline current_time b, s);
  peek_through_flushable = do_nothing;
}
