-- ===== src/Recovery/Flight/Timeouts.antt =====
-- The invariant over time outs and dropped epochs.
use dtp.Base.{ℕ, ◌+◌, ◌-◌, ◌%◌, ◌^◌, ◌≡◌, refl, subst, Bool, Option, none, some, [], ok, arith}
use dtp.Recovery.{
  Epoch, initial, handshake, application, at, put, is_counted, CongestionControl, Scales, Recovery,
}
use dtp.Recovery.Timer.{earliest_loss_time, set_loss_detection_timer}
use dtp.Recovery.Calls.{unacked_bytes, on_timeout, on_loss_detection_timeout, drop_unacked_data}
use dtp.Recovery.Reno.{KeepsFlight}
use dtp.Recovery.Flight.{AreFit, Groups, Tracks, put-all}
use dtp.Recovery.Flight.Detected.{detect_lost_packets-Detected}
use dtp.Recovery.Flight.Answers.{timer-Tracks}

module _ {C : Type 0} (Sound : ℕ → ℕ → C → Type 0) (control : CongestionControl C)
    (laws : KeepsFlight control Sound) (scales : Scales) where
  on_timeout-Tracks :
      {budget : ℕ} (o : Option ℕ) (e : Epoch) (h : Bool) (now : ℕ) (r : Recovery C)
      → Tracks Sound budget 0 r
      → (r' : Recovery C) × (on_timeout control scales (o, e) h now r ≡ ok r')
        × Tracks Sound budget 0 r'
  unfolding on_timeout
  on_timeout-Tracks (some s) e h now r t =
      let (r1, run, t1, _) = detect_lost_packets-Detected Sound control laws scales e now r t in
      (
        set_loss_detection_timer control h r1,
        rw (on_timeout, run) refl,
        timer-Tracks Sound control laws scales h r1 t1,
      )
  on_timeout-Tracks none e h now r t =
      let d = (earliest_loss_time r.time_of_last_sent_ack_eliciting_pkt h).1 in
      let r1 = record r {
        loss_probes = put d 2 r.loss_probes;
        pto_count = (r.pto_count + 1) % 2 ^ 32;
      } in
      (set_loss_detection_timer control h r1, refl, timer-Tracks Sound control laws scales h r1 t)

  -- With the invariant, a time out does not panic and keeps the invariant.
  pub on_loss_detection_timeout-Tracks :
      {budget : ℕ} (h : Bool) (now : ℕ) (r : Recovery C)
      → Tracks Sound budget 0 r
      → (r' : Recovery C) × (on_loss_detection_timeout control scales h now r ≡ ok r')
        × Tracks Sound budget 0 r'
  unfolding on_loss_detection_timeout
  on_loss_detection_timeout-Tracks h now r t =
      let b = earliest_loss_time r.loss_time h in on_timeout-Tracks b.0 b.1 h now r t

  nothing-AreFit : (groups : Groups) → AreFit groups []
  nothing-AreFit groups = (tt, tt)

  pub drop_unacked_data-Tracks :
      {budget : ℕ} (e : Epoch) (r : Recovery C)
      → Tracks Sound budget 0 r
      → Tracks Sound budget 0 (drop_unacked_data control scales e r)
  unfolding drop_unacked_data put at is_counted
  drop_unacked_data-Tracks initial r t = record {
    bound = t.bound;
    sound = t.sound;
    room = t.room;
    width = t.width;
    fit = put-all (AreFit r.pns_in_fec_group) initial [] r.sent (tt, tt) t.fit;
  }
  drop_unacked_data-Tracks handshake r t = record {
    bound = t.bound;
    sound = t.sound;
    room = t.room;
    width = t.width;
    fit = put-all (AreFit r.pns_in_fec_group) handshake [] r.sent (tt, tt) t.fit;
  }
  drop_unacked_data-Tracks application r t =
      let u = unacked_bytes r.sent.of_application in
      let room = t.room in
      let width = t.width in
      let small : u % 2 ^ 64 ≡ u = omega arith in
      let s = laws.decreased (0 + u) t.bound r.cc u t.sound (omega arith) in
      let c = control.decrease_bytes_in_flight u r.cc in
      let left : 0 + u - u ≡ 0 + unacked_bytes [] = unfold unacked_bytes in omega arith in
      rw (small) record {
        bound = t.bound;
        sound = subst (λ x. Sound x t.bound c) left s;
        room = unfold unacked_bytes in omega arith;
        width = width;
        fit = put-all (AreFit r.pns_in_fec_group) application [] r.sent (tt, tt) t.fit;
      }
