-- ===== src/Recovery/Timer.antt =====
-- src/recovery.rs: round trip times and the loss detection timer.
use dtp.Base.{
  ℕ, ◌+◌, ◌-◌, ◌*◌, ◌/◌, ◌%◌, ◌^◌, min, max, Bool, Option, none, some, ltb, ◌==◌, if◌then◌else◌,
}
use dtp.Recovery.{
  Epoch, PerEpoch, CongestionControl, Scales, Recovery, initial, handshake, application,
  granularity, initial_rtt,
}

unfoldable pub sub_abs : ℕ → ℕ → ℕ
sub_abs lhs rhs = if ltb rhs lhs then lhs - rhs else rhs - lhs

abbrev unwrap_or : Option ℕ → ℕ → ℕ
unwrap_or none d = d
unwrap_or (some x) d = x

abbrev pub rtt : {C : Type 0} → Recovery C → ℕ
rtt r = unwrap_or r.smoothed_rtt initial_rtt

abbrev pub pto : {C : Type 0} → Recovery C → ℕ
pto r = rtt r + max (r.rttvar * 4) granularity + r.max_ack_delay

unfoldable pub update_rtt : {C : Type 0} → Scales → ℕ → ℕ → Recovery C → Recovery C
unfolding sub_abs
update_rtt k latest_rtt ack_delay r = elim r.smoothed_rtt [
  | none ↦ record r {
    latest_rtt = latest_rtt;
    min_rtt = latest_rtt;
    smoothed_rtt = some latest_rtt;
    rttvar = latest_rtt / 2;
  }
  | some srtt ↦
      let least = min r.min_rtt latest_rtt in
      let delay = min r.max_ack_delay ack_delay in
      let adjusted_rtt =
        if ltb (least + delay) latest_rtt then latest_rtt - delay else latest_rtt in
      record r {
        latest_rtt = latest_rtt;
        min_rtt = least;
        rttvar = k.three_quarters r.rttvar + k.quarter (sub_abs srtt adjusted_rtt);
        smoothed_rtt = some (k.seven_eighths srtt + k.eighth adjusted_rtt);
      }
]

-- One round of the loop of `earliest_loss_time`: `new_time.is_some() && (time.is_none() || new_time
-- < time)`.
unfoldable pub earlier : Option ℕ → Epoch → Option ℕ × Epoch → Option ℕ × Epoch
earlier none e best = best
earlier (some t) e (none, b) = (some t, e)
earlier (some t) e (some s, b) = if ltb t s then (some t, e) else (some s, b)

unfoldable pub earliest_loss_time : PerEpoch (Option ℕ) → Bool → Option ℕ × Epoch
unfolding earlier
earliest_loss_time times handshake_completed =
    let best = earlier times.of_handshake handshake (times.of_initial, initial) in
    if handshake_completed then earlier times.of_application application best else best

module _ {C : Type 0} (control : CongestionControl C) where
  -- `INITIAL_RTT * 2` without a sample; `2_u32.pow` wraps around.
  unfoldable pub timeout : Recovery C → ℕ
  timeout r = elim r.smoothed_rtt [
    | none ↦ initial_rtt * 2
    | some _ ↦ pto r * (2 ^ r.pto_count % 2 ^ 32)
  ]

  -- The timer for a probe, from the time the last packet was sent that asks for an acknowledgement.
  unfoldable pub probe_at : Option ℕ → Recovery C → Recovery C
  unfolding timeout
  probe_at none r = r
  probe_at (some sent_time) r = record r { loss_detection_timer = some (sent_time + timeout r) }

  unfoldable pub arm : Option ℕ → Bool → Recovery C → Recovery C
  unfolding probe_at earliest_loss_time
  arm (some t) handshake_completed r = record r { loss_detection_timer = some t }
  arm none handshake_completed r =
      if control.bytes_in_flight r.cc == 0
      then record r { loss_detection_timer = none }
      else probe_at (earliest_loss_time r.time_of_last_sent_ack_eliciting_pkt handshake_completed).0
          r

  unfoldable pub set_loss_detection_timer : Bool → Recovery C → Recovery C
  unfolding arm earliest_loss_time
  set_loss_detection_timer handshake_completed r =
      arm (earliest_loss_time r.loss_time handshake_completed).0 handshake_completed r
