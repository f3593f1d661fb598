-- ===== src/Scheduler/Foreign.antt =====
-- src/scheduler/c_scheduler.rs, `CScheduler`. The C functions `SolutionSelectBlock` and
-- `SolutionShouldDropBlock` are parameters, since they are outside the repository; without the
-- feature `interface` they are not called.
use dtp.Base.{ℕ, Bool, false, List, ok, if◌then◌else◌, length}
use dtp.Scheduler.{Block, Scheduler, do_nothing}

pub record Solution (W : Type 0) : Type 0 where
  pub interface : Bool
  pub solution_select : List Block → ℕ → ℕ → ℕ → ℕ
  pub solution_drop : Block → W → W → ℕ → ℕ → Bool

pub record CScheduler : Type 0 where

abbrev pub new_c : CScheduler
new_c = record {}

module _ {W : Type 0} (c : Solution W) where
  unfoldable pub solution_select_block : List Block → ℕ → ℕ → ℕ → ℕ
  solution_select_block bs block_num next_packet_id current_time =
      if c.interface then c.solution_select bs block_num next_packet_id current_time else 0

  unfoldable pub solution_should_drop_block : Block → W → W → ℕ → ℕ → Bool
  solution_should_drop_block b bandwidth rtt next_packet_id current_time =
      if c.interface then c.solution_drop b bandwidth rtt next_packet_id current_time else false

  abbrev pub c_scheduler : Scheduler W CScheduler
  c_scheduler = record {
    select_block = λ bs pacing_rate rtt next_packet_id current_time s.
        ok (solution_select_block bs (length bs) next_packet_id current_time, s);
    should_drop_block = λ b pacing_rate rtt next_packet_id current_time s.
        (solution_should_drop_block b pacing_rate rtt next_packet_id current_time, s);
    peek_through_flushable = do_nothing;
  }
