-- ===== src/Recovery/Steady/Operations.antt =====
-- Acknowledgements and time outs as a whole.
use dtp.Base.{
  ℕ, suc, ◌+◌, ◌%◌, ◌^◌, Bool, true, false, Option, none, some, ltb, Bool-cases, Option-cases, inl,
  inr,
}
use dtp.Ranges.{RangeSet, largest}
use dtp.Recovery.{Epoch, PerEpoch, at, put, find, CongestionControl, Scales, Recovery}
use dtp.Recovery.Timer.{earliest_loss_time}
use dtp.Recovery.Acks.{ack_loop}
use dtp.Recovery.Losses.{detect_lost_packets}
use dtp.Ranges.{flatten}
use dtp.Ranges.Descend.{total}
use dtp.Recovery.Calls.{
  raise, sample_rtt, after_acks, process_acks, on_ack_received, on_timeout,
  on_loss_detection_timeout,
}
use dtp.Recovery.Steady.{
  Top, TopOk, TopWith, then_ok, then_with, with_ok, timer-Top, sample_rtt-Top,
}
use dtp.Recovery.Steady.Acked.{ack_loop-Top}
use dtp.Recovery.Steady.Lost.{detect_lost_packets-Top}

module _ {C : Type 0} (control : CongestionControl C) (scales : Scales) (t : PerEpoch ℕ) where
  after_acks-Top :
      (newly : Bool) (e : Epoch) (b : Bool) (now : ℕ) (r : Recovery C)
      → Top t r
      → TopOk t (after_acks control scales newly e b now r)
  unfolding after_acks
  after_acks-Top false e b now r h = h
  after_acks-Top true e b now r h =
      then_ok t
        (detect_lost_packets control scales e now (record r { cc = control.cc_bbr_end_ack r.cc })) _
        (detect_lost_packets-Top control scales t e now
          (record r { cc = control.cc_bbr_end_ack r.cc }) h)
        (λ r2 h2. timer-Top control scales t b (record r2 { pto_count = 0 }) h2)

  process_acks-Top :
      (clock : ℕ → ℕ) (m : RangeSet) (delay k : ℕ) (e : Epoch) (b : Bool) (now : ℕ) (r : Recovery C)
      → Top t r
      → TopOk t (process_acks control scales clock m delay k e b now r)
  unfolding process_acks
  process_acks-Top clock m delay k e b now r h =
      let top = raise k (at e r.largest_acked_pkt) in
      let r1 : Recovery C = record r { largest_acked_pkt = put e top r.largest_acked_pkt } in
      let o = find top (at e r1.sent) in
      let r2 = sample_rtt control scales o delay e now r1 in
      with_ok t (ack_loop control scales (suc (total m)) e clock (flatten m) false r2) _
        (ack_loop-Top control scales t (suc (total m)) e clock (flatten m) false r2
          (sample_rtt-Top control scales t o delay e now r1 h))
        (λ newly r3 h3. after_acks-Top newly e b now r3 h3)

  pub on_ack_received-Top :
      (clock : ℕ → ℕ) (m : RangeSet) (delay : ℕ) (e : Epoch) (b : Bool) (now : ℕ) (r : Recovery C)
      → Top t r
      → TopWith t (on_ack_received control scales clock m delay e b now r)
  unfolding on_ack_received
  on_ack_received-Top clock m delay e b now r h = elim (Option-cases (largest m)) [
    | inl z ↦ rw (on_ack_received, z) tt
    | inr (k, z) ↦ elim (Bool-cases (ltb (at e r.largest_sent_pkt) k)) [
      | inl y ↦ rw (on_ack_received, z, y) h
      | inr y ↦
          let r1 = record r { cc = control.cc_bbr_begin_ack now r.cc } in
          rw (on_ack_received, z, y)
            (then_with t (process_acks control scales clock m delay k e b now r1) _
              (process_acks-Top clock m delay k e b now r1 h) (λ r2 h2. h2))
    ]
  ]

  on_timeout-Top :
      (o : Option ℕ × Epoch) (b : Bool) (now : ℕ) (r : Recovery C)
      → Top t r
      → TopOk t (on_timeout control scales o b now r)
  unfolding on_timeout
  on_timeout-Top (some x, e) b now r h =
      then_ok t (detect_lost_packets control scales e now r) _
        (detect_lost_packets-Top control scales t e now r h)
        (λ r2 h2. timer-Top control scales t b r2 h2)
  on_timeout-Top (none, e) b now r h =
      let d = (earliest_loss_time r.time_of_last_sent_ack_eliciting_pkt b).1 in
      timer-Top control scales t b
        (record r { loss_probes = put d 2 r.loss_probes; pto_count = (r.pto_count + 1) % 2 ^ 32 }) h

  pub on_loss_detection_timeout-Top :
      (b : Bool) (now : ℕ) (r : Recovery C)
      → Top t r
      → TopOk t (on_loss_detection_timeout control scales b now r)
  unfolding on_loss_detection_timeout
  on_loss_detection_timeout-Top b now r h =
      on_timeout-Top (earliest_loss_time r.loss_time b) b now r h
