-- ===== src/Recovery/Calls.antt =====
-- src/recovery.rs: the operations that a connection calls.
use dtp.Base.{
  ℕ, suc, ◌+◌, ◌-◌, ◌*◌, ◌%◌, ◌^◌, max, Bool, false, ◌||◌, Option, none, some, List, [], ◌∷◌, ltb,
  ◌==◌, if◌then◌else◌, Result, ok, panic, Error,
}
use dtp.Base.Errors.{◌>>=◌}
use dtp.Base.Maps.{lookup, update}
use dtp.Fec.{FecStatus}
use dtp.Fec.Numbers.{FecPacketNumbers, fec_packet_numbers, packet_sent}
use dtp.Ranges.{RangeSet, flatten, largest}
use dtp.Ranges.Descend.{total}
use dtp.Recovery.{
  Epoch, at, put, is_counted, Sent, find, insert, CongestionControl, Scales, Recovery,
}
use dtp.Recovery.Timer.{update_rtt, earliest_loss_time, set_loss_detection_timer}
use dtp.Recovery.Losses.{detect_lost_packets}
use dtp.Recovery.Acks.{ack_loop}

-- `entry(..).or_insert(..)` and `packet_sent`.
unfoldable pub sent_in_group :
    FecStatus → ℕ → List (ℕ × FecPacketNumbers) → List (ℕ × FecPacketNumbers)
unfolding lookup update packet_sent
sent_in_group info pkt_num groups =
    if info.group_id == 0 then groups else elim (lookup info.group_id groups) [
      | none ↦
          update info.group_id (packet_sent info.index pkt_num (fec_packet_numbers info.m info.n))
            groups
      | some g ↦ update info.group_id (packet_sent info.index pkt_num g) groups
    ]

-- The bytes of the packets in flight.
unfoldable pub unacked_bytes : List Sent → ℕ
unacked_bytes [] = 0
unacked_bytes (p ∷ ps) = (if p.in_flight then p.size else 0) + unacked_bytes ps

-- The greatest acknowledged number, which starts at the greatest `u64`.
unfoldable pub raise : ℕ → ℕ → ℕ
raise largest_acked old = if old == 2 ^ 64 - 1 then largest_acked else max old largest_acked

module _ {C : Type 0} (control : CongestionControl C) (scales : Scales) where
  unfoldable pub sent_in_flight : Sent → Epoch → Bool → ℕ → Recovery C → Recovery C
  unfolding at put is_counted set_loss_detection_timer
  sent_in_flight p e handshake_completed now r =
      let r1 = record r {
        time_of_last_sent_ack_eliciting_pkt =
            if p.ack_eliciting
            then put e (some now) r.time_of_last_sent_ack_eliciting_pkt
            else r.time_of_last_sent_ack_eliciting_pkt;
        app_limited =
            ltb ((control.bytes_in_flight r.cc + p.size + 1350) % 2 ^ 64) (control.cwnd r.cc);
        cc = if is_counted e then control.on_packet_sent_cc p p.size r.cc else r.cc;
      } in
      set_loss_detection_timer control handshake_completed r1

  unfoldable pub on_packet_sent : Sent → Epoch → Bool → ℕ → Recovery C → Recovery C
  unfolding sent_in_group at put sent_in_flight insert
  on_packet_sent p e handshake_completed now r =
      let r1 = record r {
        pns_in_fec_group = sent_in_group p.fec_info p.pkt_num r.pns_in_fec_group;
        largest_sent_pkt = put e (max (at e r.largest_sent_pkt) p.pkt_num) r.largest_sent_pkt;
        total_pkt_nums = (r.total_pkt_nums + 1) % 2 ^ 64;
      } in
      let r2 = if p.in_flight then sent_in_flight p e handshake_completed now r1 else r1 in
      record r2 { sent = put e (insert p (at e r2.sent)) r2.sent }

  -- The sample of the round trip time, if the packet with the greatest number is still out and
  -- asked for an acknowledgement. The delay is given in microseconds.
  unfoldable pub sample_rtt : Option Sent → ℕ → Epoch → ℕ → Recovery C → Recovery C
  unfolding update_rtt is_counted
  sample_rtt none ack_delay e now r = r
  sample_rtt (some p) ack_delay e now r =
      if p.ack_eliciting
      then update_rtt scales (now - p.time) (if is_counted e then ack_delay * 1000 else 0) r
      else r

  -- What follows the loop over the acknowledged numbers.
  unfoldable pub after_acks : Bool → Epoch → Bool → ℕ → Recovery C → Result (Recovery C)
  unfolding detect_lost_packets set_loss_detection_timer
  after_acks newly e handshake_completed now r =
      let r1 = record r { cc = control.cc_bbr_end_ack r.cc } in
      if newly
      then (do
        r2 ← detect_lost_packets control scales e now r1
        ok (set_loss_detection_timer control handshake_completed (record r2 { pto_count = 0 })))
      else ok r1

  unfoldable pub process_acks :
      (ℕ → ℕ) → RangeSet → ℕ → ℕ → Epoch → Bool → ℕ → Recovery C → Result (Recovery C)
  unfolding at put raise find sample_rtt ack_loop total flatten after_acks
  process_acks clock ranges ack_delay largest_acked e handshake_completed now r = do
    let largest_acked_pkt = raise largest_acked (at e r.largest_acked_pkt)
    let r1 = record r { largest_acked_pkt = put e largest_acked_pkt r.largest_acked_pkt }
    let r2 = sample_rtt (find largest_acked_pkt (at e r1.sent)) ack_delay e now r1
    q ← ack_loop control scales (suc (total ranges)) e clock (flatten ranges) false r2
    after_acks q.0 e handshake_completed now q.1

  -- An error is given with the state, which `cc_bbr_begin_ack` has changed. The feature `fuzzing` is
  -- off.
  unfoldable pub on_ack_received :
      (ℕ → ℕ) → RangeSet → ℕ → Epoch → Bool → ℕ → Recovery C → Result (Option Error × Recovery C)
  unfolding largest at process_acks
  on_ack_received clock ranges ack_delay e handshake_completed now r =
      let r1 = record r { cc = control.cc_bbr_begin_ack now r.cc } in
      elim (largest ranges) [
        | none ↦ panic
        | some largest_acked ↦
            if ltb (at e r.largest_sent_pkt) largest_acked
            then ok (some Error.invalid_packet, r1)
            else process_acks clock ranges ack_delay largest_acked e handshake_completed now r1
              >>= λ r2. ok (none, r2)
      ]

  -- `on_loss_detection_timeout` by the earliest loss time and its epoch.
  unfoldable pub on_timeout : Option ℕ × Epoch → Bool → ℕ → Recovery C → Result (Recovery C)
  unfolding detect_lost_packets set_loss_detection_timer earliest_loss_time put
  on_timeout (some _, e) handshake_completed now r = do
    r1 ← detect_lost_packets control scales e now r
    ok (set_loss_detection_timer control handshake_completed r1)
  on_timeout (none, _) handshake_completed now r =
      let e = (earliest_loss_time r.time_of_last_sent_ack_eliciting_pkt handshake_completed).1 in
      ok (
        set_loss_detection_timer control handshake_completed (record r {
          loss_probes = put e 2 r.loss_probes;
          pto_count = (r.pto_count + 1) % 2 ^ 32;
        }))

  unfoldable pub on_loss_detection_timeout : Bool → ℕ → Recovery C → Result (Recovery C)
  unfolding on_timeout earliest_loss_time
  on_loss_detection_timeout handshake_completed now r =
      on_timeout (earliest_loss_time r.loss_time handshake_completed) handshake_completed now r

  unfoldable pub drop_unacked_data : Epoch → Recovery C → Recovery C
  unfolding put at is_counted unacked_bytes
  drop_unacked_data e r = record r {
    cc =
        if is_counted e
        then control.decrease_bytes_in_flight (unacked_bytes (at e r.sent) % 2 ^ 64) r.cc
        else r.cc;
    loss_time = put e none r.loss_time;
    loss_probes = put e 0 r.loss_probes;
    time_of_last_sent_ack_eliciting_pkt = put e none r.time_of_last_sent_ack_eliciting_pkt;
    sent = put e [] r.sent;
    lost = put e [] r.lost;
    acked = put e [] r.acked;
  }

  -- Probes may leave whatever the window is.
  unfoldable pub cwnd_available : Recovery C → ℕ
  cwnd_available r =
      let probes = r.loss_probes in
      if ltb 0 probes.of_initial || ltb 0 probes.of_handshake || ltb 0 probes.of_application
      then 2 ^ 64 - 1
      else control.cwnd r.cc - control.bytes_in_flight r.cc
