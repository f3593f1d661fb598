-- ===== src/Recovery/Flight/Answers.antt =====
-- The invariant over acknowledgements, time outs and dropped epochs.
use dtp.Base.{
  ℕ, suc, ◌≤◌, ◌<◌, ◌≡◌, inl, inr, refl, ap, ◌∙◌, Bool, true, false, Option, none, some, List, [],
  ◌∷◌, ltb, ltb→lt, ok, arith, Bool-cases, Error,
}
use dtp.Ranges.{RangeSet, flatten, largest}
use dtp.Ranges.Insert.{IsSeparated, Holds}
use dtp.Ranges.Largest.{IsFull, largest_lem}
use dtp.Ranges.Descend.{total, left, flatten-IsDescending}
use dtp.Recovery.{Epoch, at, put, Sent, find, CongestionControl, Scales, Recovery}
use dtp.Recovery.Timer.{set_loss_detection_timer}
use dtp.Recovery.Losses.{loss_delay_of}
use dtp.Recovery.Calls.{raise, sample_rtt, after_acks, process_acks, on_ack_received}
use dtp.Recovery.Reno.{KeepsFlight}
use dtp.Recovery.Packets.{is_out}
use dtp.Recovery.Flight.{Tracks, Kept-Tracks}
use dtp.Recovery.Flight.Loop.{ack_loop-Acknowledged}
use dtp.Recovery.Flight.Detect.{remaining}
use dtp.Recovery.Flight.Detected.{detect_lost_packets-Detected}
use dtp.Recovery.Flight.Operations.{set_loss_detection_timer-Kept, sample_rtt-Kept}

remaining-is_out :
    (delay now largest x : ℕ) (ps : List Sent)
    → is_out x ps ≡ false
    → is_out x (remaining delay now largest ps) ≡ false
unfolding is_out remaining
remaining-is_out delay now largest x [] h = refl
remaining-is_out delay now largest x (p ∷ ps) h =
    ground (arith, h, remaining-is_out delay now largest x ps)

-- What an acknowledgement leads to.
abbrev pub Answered :
    {C : Type 0} → Epoch → RangeSet → Recovery C → Option Error × Recovery C → Type 0
Answered e m r (some x, r') =
    (x ≡ Error.invalid_packet)
    × ((k : ℕ) × Holds k m × (at e r.largest_sent_pkt < k))
    × (r'.sent ≡ r.sent)
Answered e m r (none, r') =
    ((k : ℕ) → Holds k m → k ≤ at e r.largest_sent_pkt)
    × ((k : ℕ) → Holds k m → is_out k (at e r'.sent) ≡ false)

module _ {C : Type 0} (Sound : ℕ → ℕ → C → Type 0) (control : CongestionControl C)
    (laws : KeepsFlight control Sound) (scales : Scales) where
  pub timer-Tracks :
      {budget : ℕ} (h : Bool) (r : Recovery C)
      → Tracks Sound budget 0 r
      → Tracks Sound budget 0 (set_loss_detection_timer control h r)
  timer-Tracks h r t =
      Kept-Tracks Sound r (set_loss_detection_timer control h r)
        (set_loss_detection_timer-Kept control h r) t

  ended-Tracks :
      {budget : ℕ} (r : Recovery C)
      → Tracks Sound budget 0 r
      → Tracks Sound budget 0 (record r { cc = control.cc_bbr_end_ack r.cc })
  ended-Tracks r t = record {
    bound = t.bound;
    sound = laws.ended _ t.bound r.cc t.sound;
    room = t.room;
    width = t.width;
    fit = t.fit;
  }

  begun-Tracks :
      {budget : ℕ} (now : ℕ) (r : Recovery C)
      → Tracks Sound budget 0 r
      → Tracks Sound budget 0 (record r { cc = control.cc_bbr_begin_ack now r.cc })
  begun-Tracks now r t = record {
    bound = t.bound;
    sound = laws.begun _ t.bound r.cc now t.sound;
    room = t.room;
    width = t.width;
    fit = t.fit;
  }

  -- No number that was not out before is out after.
  after_acks-Tracks :
      {budget : ℕ} (newly : Bool) (e : Epoch) (h : Bool) (now : ℕ) (r : Recovery C)
      → Tracks Sound budget 0 r
      → (r' : Recovery C) × (after_acks control scales newly e h now r ≡ ok r')
        × Tracks Sound budget 0 r'
        × ((x : ℕ) → is_out x (at e r.sent) ≡ false → is_out x (at e r'.sent) ≡ false)
  unfolding after_acks
  after_acks-Tracks false e h now r t =
      (record r { cc = control.cc_bbr_end_ack r.cc }, refl, ended-Tracks r t, λ x k. k)
  after_acks-Tracks true e h now r t =
      let r1 = record r { cc = control.cc_bbr_end_ack r.cc } in
      let (r2, run, t2, d) =
        detect_lost_packets-Detected Sound control laws scales e now r1 (ended-Tracks r t) in
      let r3 = record r2 { pto_count = 0 } in
      let kept = (set_loss_detection_timer-Kept control h r3).0 in
      (
        set_loss_detection_timer control h r3,
        rw (after_acks, run) refl,
        timer-Tracks h r3 t2,
        λ x k.
            ap (λ s. is_out x (at e s)) kept
            ∙ ap (is_out x) d.gone
            ∙ remaining-is_out (loss_delay_of control scales r1) now (at e r.largest_acked_pkt) x
                (at e r.sent) k,
      )

  process_acks-Tracks :
      {budget : ℕ} (clock : ℕ → ℕ) (m : RangeSet) (delay k : ℕ) (e : Epoch) (h : Bool) (now : ℕ)
      (r : Recovery C)
      → IsSeparated m
      → IsFull m
      → Tracks Sound budget 0 r
      → (r' : Recovery C) × (process_acks control scales clock m delay k e h now r ≡ ok r')
        × Tracks Sound budget 0 r'
        × ((x : ℕ) → Holds x m → is_out x (at e r'.sent) ≡ false)
  unfolding process_acks flatten left
  process_acks-Tracks clock m delay k e h now r sep full t =
      let top = raise k (at e r.largest_acked_pkt) in
      let r1 = record r { largest_acked_pkt = put e top r.largest_acked_pkt } in
      let o = find top (at e r1.sent) in
      let r2 = sample_rtt control scales o delay e now r1 in
      let t2 = Kept-Tracks Sound r1 r2 (sample_rtt-Kept control scales o delay e now r1) t in
      let (q, run, t3, a) =
        ack_loop-Acknowledged Sound control laws scales (suc (total m)) e clock (flatten m) false r2
          (flatten-IsDescending m sep full) (omega arith) t2 in
      let (r', run', t4, out) = after_acks-Tracks q.0 e h now q.1 t3 in
      (r', rw (process_acks, run) run', t4, λ x i. out x (a.acked x (inr i)))

  -- Let the invariant hold, and let the set be separated ranges, nonempty, below 2 ^ 64, that hold a
  -- number. An acknowledgement neither panics nor runs out of fuel, and keeps the invariant. It is
  -- refused as an invalid packet exactly where the set holds a number above the field for the
  -- greatest number sent in the epoch, which is 0 before anything is sent (so that the number 0
  -- alone is accepted then), and the same packets are out then; otherwise no packet of the set is
  -- out afterwards, though the loop stops at the first number below the lowest packet.
  pub on_ack_received-Answered :
      {budget : ℕ} (clock : ℕ → ℕ) (m : RangeSet) (y delay : ℕ) (e : Epoch) (h : Bool) (now : ℕ)
      (r : Recovery C)
      → IsSeparated m
      → IsFull m
      → Holds y m
      → Tracks Sound budget 0 r
      → (q : Option Error × Recovery C) × (on_ack_received control scales clock m delay e h now r
          ≡ ok q)
        × Tracks Sound budget 0 q.1
        × Answered e m r q
  unfolding on_ack_received
  on_ack_received-Answered clock m y delay e h now r sep full i t =
      let r1 = record r { cc = control.cc_bbr_begin_ack now r.cc } in
      let t1 = begun-Tracks now r t in
      let (k, run, held, _) = largest_lem m y sep full i in
      elim (Bool-cases (ltb (at e r.largest_sent_pkt) k)) [
        | inl l ↦ (
          (some Error.invalid_packet, r1),
          rw (on_ack_received, run, l) refl,
          t1,
          (refl, (k, held, ltb→lt (at e r.largest_sent_pkt) k l), refl),
        )
        | inr l ↦
            let (r', run', t2, out) = process_acks-Tracks clock m delay k e h now r1 sep full t1 in
            (
              (none, r'),
              rw (on_ack_received, run, l, run') refl,
              t2,
              (
                λ x j.
                    let (k', again, _, le) = largest_lem m x sep full j in
                    let same : k ≡ k' = ground (arith, run, again) in ground (arith, l, same, le),
                out,
              ),
            )
      ]
