-- ===== src/Recovery/Flight/Detected.antt =====
-- The whole of `detect_lost_packets`.
use dtp.Base.{
  ℕ, ◌≡◌, refl, sym, ap, subst, ◌∙◌, Option, none, some, List, [], ◌∷◌, ◌++◌, append-nil, ok,
}
use dtp.Frame.{Frame}
use dtp.Recovery.{Epoch, at, put, Sent, CongestionControl, Scales, Recovery}
use dtp.Recovery.Timer.{rtt}
use dtp.Recovery.Losses.{
  up_to, lost_pkts, next_loss_time, after_losses, in_persistent_congestion, on_packets_lost,
  loss_delay_of, detect_lost_packets,
}
use dtp.Recovery.Reno.{KeepsFlight}
use dtp.Recovery.Flight.{at-put, Tracks}
use dtp.Recovery.Flight.Lost.{lose_each-Tracks}
use dtp.Recovery.Flight.Detect.{
  without_each, AreFound, remaining, lost_frames, lost_pkts-remaining, IsEarliest,
  next_loss_time-IsEarliest,
}

module _ {C : Type 0} (Sound : ℕ → ℕ → C → Type 0) (control : CongestionControl C)
    (laws : KeepsFlight control Sound) (scales : Scales) where
  -- The packets that leave are those that were sent no later than the greatest acknowledged one and
  -- are lost by their time or their number, their frames are to be sent again if they were in
  -- flight, and the loss time is the least of those that wait.
  pub record Detected (e : Epoch) (now : ℕ) (r r' : Recovery C) : Type 0 where
    pub gone :
        at e r'.sent
        ≡ remaining (loss_delay_of control scales r) now (at e r.largest_acked_pkt) (at e r.sent)
    pub resent :
        at e r'.lost
        ≡ at e r.lost
          ++ lost_frames
              (loss_delay_of control scales r)
              now
              (at e r.largest_acked_pkt)
              (at e r.sent)
    pub due :
        IsEarliest
          (loss_delay_of control scales r)
          now
          (at e r.largest_acked_pkt)
          (at e r'.loss_time)
          (at e r.sent)

  -- A congestion event leaves the packets and the times.
  pub record Quiet (r r' : Recovery C) : Type 0 where
    pub sent : r'.sent ≡ r.sent
    pub lost : r'.lost ≡ r.lost
    pub loss_time : r'.loss_time ≡ r.loss_time

  after_losses-Tracks :
      {budget : ℕ} (e : Epoch) (now : ℕ) (last : Option Sent) (r : Recovery C)
      → Tracks Sound budget 0 r
      → Tracks Sound budget 0 (after_losses control scales e now last r)
        × Quiet r (after_losses control scales e now last r)
  unfolding after_losses in_persistent_congestion
  after_losses-Tracks e now none r t = (t, record { sent = refl; lost = refl; loss_time = refl })
  after_losses-Tracks e now (some p) r t = (
    record {
      bound = t.bound;
      sound = laws.congested _ t.bound r.cc (rtt r) p.time now p.pkt_num e r.lost_count t.sound;
      room = t.room;
      width = t.width;
      fit = t.fit;
    },
    record { sent = refl; lost = refl; loss_time = refl },
  )

  on_packets_lost-Tracks :
      {budget : ℕ} (e : Epoch) (now : ℕ) (ks : List ℕ) (fs : List Frame) (r : Recovery C)
      → AreFound ks (at e r.sent) fs
      → Tracks Sound budget 0 r
      → (r' : Recovery C) × (on_packets_lost control scales ks e now r ≡ ok r')
        × Tracks Sound budget 0 r'
        × (at e r'.sent ≡ without_each ks (at e r.sent))
        × (at e r'.lost ≡ at e r.lost ++ fs)
        × (r'.loss_time ≡ r.loss_time)
  unfolding on_packets_lost
  on_packets_lost-Tracks e now ks fs r h t =
      let (q, run, t1, s, f, lt) = lose_each-Tracks Sound control laws scales e ks fs none r h t in
      let (t2, u) = after_losses-Tracks e now q.0 q.1 t1 in
      (
        after_losses control scales e now q.0 q.1,
        rw (on_packets_lost, run) refl,
        t2,
        ap (at e) u.sent ∙ s,
        ap (at e) u.lost ∙ f,
        u.loss_time ∙ lt,
      )

  abbrev scheduled : Epoch → ℕ → Recovery C → Recovery C
  scheduled e now r = record r {
    loss_time =
        put e
          (next_loss_time (loss_delay_of control scales r) now (at e r.largest_acked_pkt)
            (up_to (at e r.largest_acked_pkt) (at e r.sent)) none)
          r.loss_time;
  }

  scheduled_due :
      {budget : ℕ} (e : Epoch) (now : ℕ) (r : Recovery C)
      → Tracks Sound budget 0 r
      → IsEarliest
          (loss_delay_of control scales r)
          now
          (at e r.largest_acked_pkt)
          (at e (scheduled e now r).loss_time)
          (at e r.sent)
  scheduled_due e now r t =
      let delay = loss_delay_of control scales r in
      let largest = at e r.largest_acked_pkt in
      let time = next_loss_time delay now largest (up_to largest (at e r.sent)) none in
      subst (λ o. IsEarliest delay now largest o (at e r.sent)) (sym (at-put e time r.loss_time))
        (next_loss_time-IsEarliest delay now largest (at e r.sent) (t.fit e).0)

  -- By the list of the lost numbers, which may be empty.
  by_lost :
      {budget : ℕ} (e : Epoch) (now : ℕ) (r : Recovery C) (ks : List ℕ)
      → lost_pkts
          (loss_delay_of control scales r)
          now
          (at e r.largest_acked_pkt)
          (up_to (at e r.largest_acked_pkt) (at e r.sent))
        ≡ ks
      → AreFound ks (at e r.sent) (
          lost_frames (loss_delay_of control scales r) now (at e r.largest_acked_pkt) (at e r.sent))
      → without_each ks (at e r.sent)
        ≡ remaining (loss_delay_of control scales r) now (at e r.largest_acked_pkt) (at e r.sent)
      → Tracks Sound budget 0 r
      → (r' : Recovery C) × (detect_lost_packets control scales e now r ≡ ok r')
        × Tracks Sound budget 0 r'
        × Detected e now r r'
  unfolding detect_lost_packets without_each
  by_lost e now r [] z f w t = (
    scheduled e now r,
    rw (detect_lost_packets, z) refl,
    t,
    record {
      gone = w;
      resent = rw (f) (sym (append-nil (at e r.lost)));
      due = scheduled_due e now r t;
    },
  )
  by_lost e now r (k ∷ ks) z f w t =
      let fs =
        lost_frames (loss_delay_of control scales r) now (at e r.largest_acked_pkt) (at e r.sent) in
      let (r', run, t', s, l, lt) =
        on_packets_lost-Tracks e now (k ∷ ks) fs (scheduled e now r) f t in
      (
        r',
        rw (detect_lost_packets, z) run,
        t',
        record {
          gone = s ∙ w;
          resent = l;
          due =
              subst
                (λ x.
                  IsEarliest (loss_delay_of control scales r) now (at e r.largest_acked_pkt)
                    (at e x) (at e r.sent))
                (sym lt) (scheduled_due e now r t);
        },
      )

  -- With the invariant, detecting lost packets does not panic and keeps the invariant. The packets
  -- that leave are those up to the greatest acknowledged number that are behind it by the threshold
  -- or were sent at least the loss delay ago. The frames of those in flight are appended to what is
  -- to be sent again, in the order of their numbers. The loss time is the least at which a packet up
  -- to that number that stays will be lost, if there is one.
  pub detect_lost_packets-Detected :
      {budget : ℕ} (e : Epoch) (now : ℕ) (r : Recovery C)
      → Tracks Sound budget 0 r
      → (r' : Recovery C) × (detect_lost_packets control scales e now r ≡ ok r')
        × Tracks Sound budget 0 r'
        × Detected e now r r'
  detect_lost_packets-Detected e now r t =
      let delay = loss_delay_of control scales r in
      let largest = at e r.largest_acked_pkt in
      let (f, w) = lost_pkts-remaining delay now largest (at e r.sent) (t.fit e).0 in
      by_lost e now r (lost_pkts delay now largest (up_to largest (at e r.sent))) refl f w t
