-- ===== src/Recovery/Alarm.antt =====
-- When the loss detection timer is set.
use dtp.Base.{
  ℕ, ◌+◌, ◌%◌, ◌<◌, ◌^◌, ◌≡◌, inl, inr, refl, sym, ap, subst, ◌∙◌, Bool, true, false, Option, none,
  some, ◌==◌, ltb, max, if◌then◌else◌, arith, Bool-cases,
}
use dtp.Recovery.{
  Epoch, initial, handshake, application, PerEpoch, at, put, is_counted, Sent, insert,
  CongestionControl, Scales, Recovery,
}
use dtp.Recovery.Timer.{
  earlier, earliest_loss_time, timeout, probe_at, arm, set_loss_detection_timer,
}
use dtp.Recovery.Calls.{sent_in_group, unacked_bytes, sent_in_flight, on_packet_sent}
use dtp.Recovery.Reno.{KeepsFlight}
use dtp.Recovery.Packets.{is_out, is_out-insert}
use dtp.Recovery.Flight.{Tracks, at-put}

-- The time of the third epoch is one of those that count after the handshake.
earlier_time :
    (t : ℕ) (e : Epoch) (best : Option ℕ × Epoch) → (s : ℕ) × ((earlier (some t) e best).0 ≡ some s)
unfolding earlier
earlier_time t e (none, b) = (t, refl)
earlier_time t e (some s, b) = elim (Bool-cases (ltb t s)) [
  | inl l ↦ (t, rw (earlier, l) refl)
  | inr l ↦ (s, rw (earlier, l) refl)
]

module _ {C : Type 0} (control : CongestionControl C) where
  -- With bytes in flight and a time, the timer is set whatever was lost.
  armed :
      (o : Option ℕ) (h : Bool) (r : Recovery C) (s : ℕ)
      → (control.bytes_in_flight r.cc == 0) ≡ false
      → (earliest_loss_time r.time_of_last_sent_ack_eliciting_pkt h).0 ≡ some s
      → (t : ℕ) × ((arm control o h r).loss_detection_timer ≡ some t)
  unfolding arm probe_at
  armed (some t) h r s z e = (t, refl)
  armed none h r s z e = (s + timeout control r, rw (arm, z, e, probe_at) refl)

  unarmed :
      (h : Bool) (r : Recovery C)
      → control.bytes_in_flight r.cc ≡ 0
      → (arm control none h r).loss_detection_timer ≡ none
  unfolding arm
  unarmed h r z = rw (arm, z) refl

  if_timer :
      (b : Bool) (x y : Recovery C) (o : Option ℕ)
      → b ≡ true
      → x.loss_detection_timer ≡ o
      → (if b then x else y).loss_detection_timer ≡ o
  if_timer b x y o h k = rw (h) k

  -- The states before the timer is set, for a packet in flight.
  abbrev counted_in : Sent → Epoch → Recovery C → Recovery C
  counted_in p e r = record r {
    pns_in_fec_group = sent_in_group p.fec_info p.pkt_num r.pns_in_fec_group;
    largest_sent_pkt = put e (max (at e r.largest_sent_pkt) p.pkt_num) r.largest_sent_pkt;
    total_pkt_nums = (r.total_pkt_nums + 1) % 2 ^ 64;
  }

  abbrev stamped : Sent → Epoch → ℕ → Recovery C → Recovery C
  stamped p e now r = record (counted_in p e r) {
    time_of_last_sent_ack_eliciting_pkt =
        if p.ack_eliciting
        then put e (some now) r.time_of_last_sent_ack_eliciting_pkt
        else r.time_of_last_sent_ack_eliciting_pkt;
    app_limited = ltb ((control.bytes_in_flight r.cc + p.size + 1350) % 2 ^ 64) (control.cwnd r.cc);
    cc = if is_counted e then control.on_packet_sent_cc p p.size r.cc else r.cc;
  }

  times_some :
      (p : Sent) (now : ℕ) (times : PerEpoch (Option ℕ))
      → p.ack_eliciting ≡ true
      → (s : ℕ) × ((earliest_loss_time
            (if p.ack_eliciting then put application (some now) times else times)
            true).0
          ≡ some s)
  unfolding earliest_loss_time put
  times_some p now times k =
      let (s, e) =
        earlier_time now application
          (earlier times.of_handshake handshake (times.of_initial, initial)) in
      (s, rw (k) e)

module _ {C : Type 0} (Sound : ℕ → ℕ → C → Type 0) (control : CongestionControl C)
    (laws : KeepsFlight control Sound) (scales : Scales) where
  -- Let the invariant hold, and let a packet of 1 to 65535 bytes in flight that asks for an
  -- acknowledgement be sent in the third epoch, with the handshake completed and the bytes sent
  -- altogether below 2 ^ 53. Then the loss detection timer is set.
  pub on_packet_sent-timer :
      {budget : ℕ} (p : Sent) (now : ℕ) (r : Recovery C)
      → Tracks Sound budget 0 r
      → p.in_flight ≡ true
      → p.ack_eliciting ≡ true
      → 0 < p.size
      → budget + p.size < 2 ^ 53
      → (t : ℕ) × ((on_packet_sent control scales p application true now r).loss_detection_timer
          ≡ some t)
  unfolding on_packet_sent sent_in_flight set_loss_detection_timer
  on_packet_sent-timer {budget} p now r t f k s w =
      let r1 = stamped control p application now r in
      let u = unacked_bytes r.sent.of_application in
      let room = t.room in
      let sent = laws.sent (0 + u) t.bound r.cc p p.size t.sound (omega arith) in
      let out = laws.out (0 + u + p.size) t.bound (control.on_packet_sent_cc p p.size r.cc) sent in
      let z : (control.bytes_in_flight (control.on_packet_sent_cc p p.size r.cc) == 0) ≡ false =
        ground (arith, out, s) in
      let (x, e) = times_some control p now r.time_of_last_sent_ack_eliciting_pkt k in
      let (time, a) = armed control (earliest_loss_time r.loss_time true).0 true r1 x z e in
      (
        time,
        if_timer control p.in_flight
            (sent_in_flight control scales p application true now
              (counted_in control p application r))
            (counted_in control p application r) (some time) f a,
      )

  -- Let no byte be counted as in flight, and no loss time be set. After a packet in flight is sent in
  -- one of the first two epochs the packet is out, and the loss detection timer is not set.
  pub on_packet_sent-no_timer :
      (p : Sent) (e : Epoch) (h : Bool) (now : ℕ) (r : Recovery C)
      → p.in_flight ≡ true
      → is_counted e ≡ false
      → control.bytes_in_flight r.cc ≡ 0
      → (earliest_loss_time r.loss_time h).0 ≡ none
      → ((on_packet_sent control scales p e h now r).loss_detection_timer ≡ none)
        × (is_out p.pkt_num (at e (on_packet_sent control scales p e h now r).sent) ≡ true)
  unfolding on_packet_sent sent_in_flight set_loss_detection_timer
  on_packet_sent-no_timer p e h now r f c z l =
      let r1 = stamped control p e now r in
      let same : control.bytes_in_flight r1.cc ≡ 0 = rw (c) z in
      let a = unarmed control h r1 same in
      let flying = sent_in_flight control scales p e h now (counted_in control p e r) in
      let still = counted_in control p e r in
      let r2 = if p.in_flight then flying else still in
      (
        if_timer control p.in_flight flying still none f
            (subst (λ o. (arm control o h r1).loss_detection_timer ≡ none) (sym l) a),
        ap (is_out p.pkt_num) (at-put e (insert p (at e r2.sent)) r2.sent)
            ∙ is_out-insert p (at e r2.sent),
      )
