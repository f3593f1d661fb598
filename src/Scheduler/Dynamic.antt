-- ===== src/Scheduler/Dynamic.antt =====
-- src/scheduler/mod.rs, `DynScheduler`: one of the schedulers, chosen by a type or by features.
use dtp.Base.{ℕ, Bool, List, Result, ok, err, panic, if◌then◌else◌}
use dtp.Base.Floats.{F64}
use dtp.Scheduler.{Block, Scheduler, SchedulerType}
use dtp.Scheduler.Basic.{BasicScheduler, new_basic, basic_scheduler}
use dtp.Scheduler.Dtp.{DtpScheduler, new_dtp, dtp_scheduler}
use dtp.Scheduler.Foreign.{Solution, CScheduler, new_c, c_scheduler}

-- The box behind `dyn Scheduler`.
pub data DynScheduler : Type 0 where
  basic : BasicScheduler → DynScheduler
  dtp_block : DtpScheduler → DynScheduler
  c : CScheduler → DynScheduler

-- `DynScheduler::default` by the features `interface` and `basic-scheduler`, and `new_scheduler`.
unfoldable pub default_scheduler : Bool → Bool → DynScheduler
default_scheduler interface basic_feature =
    if interface
    then DynScheduler.c new_c
    else if basic_feature
    then DynScheduler.basic new_basic
    else DynScheduler.dtp_block new_dtp

-- `DynScheduler::init`
unfoldable pub init_scheduler : Bool → Bool → SchedulerType → DynScheduler
unfolding default_scheduler
init_scheduler interface basic_feature SchedulerType.basic_type = DynScheduler.basic new_basic
init_scheduler interface basic_feature SchedulerType.dtp_type = DynScheduler.dtp_block new_dtp
init_scheduler interface basic_feature SchedulerType.c_type = DynScheduler.c new_c
init_scheduler interface basic_feature SchedulerType.dynamic_type =
    default_scheduler interface basic_feature

abbrev pub wrap : {S : Type 0} → (S → DynScheduler) → Result (ℕ × S) → Result (ℕ × DynScheduler)
wrap k (ok (id, s)) = ok (id, k s)
wrap k (err e) = err e
wrap k panic = panic

abbrev pub wrap_drop : {S : Type 0} → (S → DynScheduler) → Bool × S → Bool × DynScheduler
wrap_drop k p = (p.0, k p.1)

module _ {W : Type 0} ⦃f : F64 W⦄ (solution : Solution W) where
  unfoldable pub select_dyn : List Block → W → W → ℕ → ℕ → DynScheduler → Result (ℕ × DynScheduler)
  select_dyn bs bw rtt next now (DynScheduler.basic s) =
      wrap DynScheduler.basic (basic_scheduler.select_block bs bw rtt next now s)
  select_dyn bs bw rtt next now (DynScheduler.dtp_block s) =
      wrap DynScheduler.dtp_block (dtp_scheduler.select_block bs bw rtt next now s)
  select_dyn bs bw rtt next now (DynScheduler.c s) =
      wrap DynScheduler.c ((c_scheduler solution).select_block bs bw rtt next now s)

  unfoldable pub drop_dyn : Block → W → W → ℕ → ℕ → DynScheduler → Bool × DynScheduler
  drop_dyn b bw rtt next now (DynScheduler.basic s) =
      wrap_drop DynScheduler.basic (basic_scheduler.should_drop_block b bw rtt next now s)
  drop_dyn b bw rtt next now (DynScheduler.dtp_block s) =
      wrap_drop DynScheduler.dtp_block (dtp_scheduler.should_drop_block b bw rtt next now s)
  drop_dyn b bw rtt next now (DynScheduler.c s) =
      wrap_drop DynScheduler.c ((c_scheduler solution).should_drop_block b bw rtt next now s)

  unfoldable pub peek_dyn : List Block → W → W → ℕ → ℕ → DynScheduler → DynScheduler
  peek_dyn bs bw rtt next now (DynScheduler.basic s) =
      DynScheduler.basic (basic_scheduler.peek_through_flushable bs bw rtt next now s)
  peek_dyn bs bw rtt next now (DynScheduler.dtp_block s) =
      DynScheduler.dtp_block (dtp_scheduler.peek_through_flushable bs bw rtt next now s)
  peek_dyn bs bw rtt next now (DynScheduler.c s) =
      DynScheduler.c ((c_scheduler solution).peek_through_flushable bs bw rtt next now s)

  abbrev pub dyn_scheduler : Scheduler W DynScheduler
  dyn_scheduler = record {
    select_block = select_dyn;
    should_drop_block = drop_dyn;
    peek_through_flushable = peek_dyn;
  }
