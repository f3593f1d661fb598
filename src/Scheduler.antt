-- ===== src/Scheduler.antt =====
-- src/scheduler: which block to send next, and which to drop. A scheduler is a record of the
-- operations of the trait; `new` is the initial state of each.
pub mod Basic
pub mod Dtp
pub mod Foreign
pub mod Dynamic
mod Tests
use dtp.Base.{ℕ, Bool, false, List, Result}

-- src/stream.rs, `Block`
pub record Block : Type 0 where
  pub block_id : ℕ
  pub block_deadline : ℕ
  pub block_priority : ℕ
  pub block_create_time : ℕ
  pub block_size : ℕ
  pub remaining_size : ℕ

pub data SchedulerType : Type 0 where
  basic_type dtp_type c_type dynamic_type : SchedulerType

-- The trait `Scheduler` over states `S` and floating point numbers `W`. The arguments after the
-- blocks are the pacing rate, the round trip time, the next packet number and the time.
pub record Scheduler (W S : Type 0) : Type 0 where
  pub select_block : List Block → W → W → ℕ → ℕ → S → Result (ℕ × S)
  pub should_drop_block : Block → W → W → ℕ → ℕ → S → Bool × S
  pub peek_through_flushable : List Block → W → W → ℕ → ℕ → S → S

-- The methods that the trait provides.
abbrev pub never_drop : {W S : Type 0} → Block → W → W → ℕ → ℕ → S → Bool × S
never_drop b pacing_rate rtt next_packet_id current_time s = (false, s)

abbrev pub do_nothing : {W S : Type 0} → List Block → W → W → ℕ → ℕ → S → S
do_nothing bs pacing_rate rtt next_packet_id current_time s = s
