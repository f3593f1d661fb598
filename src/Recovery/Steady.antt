-- ===== src/Recovery/Steady.antt =====
-- The greatest number sent is written by `on_packet_sent` alone: every other operation keeps it.
pub mod Acked
pub mod Lost
pub mod Operations
use dtp.Base.{
  ℕ, zero, suc, ◌+◌, ◌-◌, ◌*◌, ◌%◌, ◌^◌, ◌≡◌, refl, ◌∙◌, Bool, true, false, ◌||◌, Option, none,
  some, List, [], ◌∷◌, ◌++◌, ltb, ◌==◌, if◌then◌else◌, Result, ok, err, panic, Bool-cases,
  Option-cases, inl, inr, Error,
}
use dtp.Base.Errors.{◌>>=◌}
use dtp.Base.Maps.{lookup, update}
use dtp.Fec.Numbers.{FecPacketNumbers, packet_acked, packet_lost, get_delta, get_recovered_pns}
use dtp.Minmax.{running_min}
use dtp.Ranges.{RangeSet, Flatten, flatten_next_back, largest}
use dtp.Recovery.{
  Epoch, PerEpoch, at, put, is_counted, Sent, find, without, CongestionControl, Scales, Recovery,
  biased,
}
use dtp.Recovery.Timer.{
  rtt, update_rtt, probe_at, arm, earliest_loss_time, set_loss_detection_timer,
}
use dtp.Recovery.Acks.{
  on_packet_recovered, recover_each, recover, adjust, filtered, collect_sample, acked_in_group,
  acked_in_flight, on_packet_acked, below_lowest, ack_loop,
}
use dtp.Recovery.Losses.{
  lost_in_group, uncount, lose, lose_each, after_losses, in_persistent_congestion, on_packets_lost,
  detect_lost_packets,
}
use dtp.Ranges.{flatten}
use dtp.Ranges.Descend.{total}
use dtp.Recovery.Calls.{
  raise, sample_rtt, after_acks, process_acks, on_ack_received, on_timeout,
  on_loss_detection_timeout,
}

module _ {C : Type 0} where
  -- The greatest numbers sent are `t`, also where there is a result.
  abbrev pub Top : PerEpoch ℕ → Recovery C → Type 0
  Top t r = r.largest_sent_pkt ≡ t

  abbrev pub TopOk : PerEpoch ℕ → Result (Recovery C) → Type 0
  TopOk t (ok r) = Top t r
  TopOk t (err e) = Unit {0}
  TopOk t panic = Unit {0}

  abbrev pub TopWith : {A : Type 0} → PerEpoch ℕ → Result (A × Recovery C) → Type 0
  TopWith t (ok (a, r)) = Top t r
  TopWith t (err e) = Unit {0}
  TopWith t panic = Unit {0}

  pub then_ok :
      (t : PerEpoch ℕ) (m : Result (Recovery C)) (k : Recovery C → Result (Recovery C))
      → TopOk t m
      → ((r : Recovery C) → Top t r → TopOk t (k r))
      → TopOk t (m >>= k)
  then_ok t (ok r) k h q = q r h
  then_ok t (err e) k h q = tt
  then_ok t panic k h q = tt

  pub then_with :
      {A : Type 0} (t : PerEpoch ℕ) (m : Result (Recovery C))
      (k : Recovery C → Result (A × Recovery C))
      → TopOk t m
      → ((r : Recovery C) → Top t r → TopWith t (k r))
      → TopWith t (m >>= k)
  then_with t (ok r) k h q = q r h
  then_with t (err e) k h q = tt
  then_with t panic k h q = tt

  pub with_ok :
      {A : Type 0} (t : PerEpoch ℕ) (m : Result (A × Recovery C))
      (k : A × Recovery C → Result (Recovery C))
      → TopWith t m
      → ((a : A) (r : Recovery C) → Top t r → TopOk t (k (a, r)))
      → TopOk t (m >>= k)
  with_ok t (ok (a, r)) k h q = q a r h
  with_ok t (err e) k h q = tt
  with_ok t panic k h q = tt

  pub with_with :
      {A B : Type 0} (t : PerEpoch ℕ) (m : Result (A × Recovery C))
      (k : A × Recovery C → Result (B × Recovery C))
      → TopWith t m
      → ((a : A) (r : Recovery C) → Top t r → TopWith t (k (a, r)))
      → TopWith t (m >>= k)
  with_with t (ok (a, r)) k h q = q a r h
  with_with t (err e) k h q = tt
  with_with t panic k h q = tt

module _ {C : Type 0} (control : CongestionControl C) (scales : Scales) (t : PerEpoch ℕ) where
  probe_at-Top : (o : Option ℕ) (r : Recovery C) → Top t r → Top t (probe_at control o r)
  unfolding probe_at
  probe_at-Top none r h = h
  probe_at-Top (some x) r h = h

  arm-Top : (o : Option ℕ) (b : Bool) (r : Recovery C) → Top t r → Top t (arm control o b r)
  unfolding arm
  arm-Top (some x) b r h = h
  arm-Top none b r h = elim (Bool-cases (control.bytes_in_flight r.cc == 0)) [
    | inl e ↦ rw (arm, e) h
    | inr e ↦
        rw (arm, e)
          (probe_at-Top (earliest_loss_time r.time_of_last_sent_ack_eliciting_pkt b).0 r h)
  ]

  pub timer-Top :
      (b : Bool) (r : Recovery C) → Top t r → Top t (set_loss_detection_timer control b r)
  unfolding set_loss_detection_timer
  timer-Top b r h = arm-Top (earliest_loss_time r.loss_time b).0 b r h

  update_rtt-Top :
      (latest delay : ℕ) (r : Recovery C) → Top t r → Top t (update_rtt scales latest delay r)
  unfolding update_rtt
  update_rtt-Top latest delay r h = elim (Option-cases r.smoothed_rtt) [
    | inl e ↦ rw (update_rtt, e) h
    | inr (x, e) ↦ rw (update_rtt, e) h
  ]

  pub sample_rtt-Top :
      (o : Option Sent) (delay : ℕ) (e : Epoch) (now : ℕ) (r : Recovery C)
      → Top t r
      → Top t (sample_rtt control scales o delay e now r)
  unfolding sample_rtt
  sample_rtt-Top none delay e now r h = h
  sample_rtt-Top (some p) delay e now r h = elim (Bool-cases p.ack_eliciting) [
    | inl z ↦ rw (z) (update_rtt-Top (now - p.time) (if is_counted e then delay * 1000 else 0) r h)
    | inr z ↦ rw (z) h
  ]
