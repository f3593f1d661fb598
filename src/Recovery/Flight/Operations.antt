-- ===== src/Recovery/Flight/Operations.antt =====
-- The invariant over the operations that a connection calls.
use dtp.Base.{
  ℕ, ◌+◌, ◌-◌, ◌*◌, ◌%◌, ◌≤◌, ◌<◌, ◌^◌, ◌≡◌, inl, inr, refl, sym, ap, subst, Bool, true, false,
  Option, none, some, List, All, ◌==◌, ltb, if◌then◌else◌, arith, Bool-cases, Option-cases, max,
}
use dtp.Base.Maps.{lookup, lookup-update}
use dtp.Fec.{FecStatus}
use dtp.Fec.Numbers.{fec_packet_numbers, packet_sent}
use dtp.Recovery.{
  Epoch, initial, handshake, application, PerEpoch, at, put, is_counted, Sent, find, insert,
  CongestionControl, Scales, Recovery,
}
use dtp.Recovery.Timer.{update_rtt, earliest_loss_time, probe_at, arm, set_loss_detection_timer}
use dtp.Recovery.Calls.{sent_in_group, unacked_bytes, sent_in_flight, on_packet_sent, sample_rtt}
use dtp.Recovery.Reno.{KeepsFlight}
use dtp.Recovery.Packets.{weight, All-insert, All-imp, insert-IsAscending, unacked_bytes-insert}
use dtp.Recovery.Flight.{
  Groups, IsFit, AreFit, Tracks, Kept, counted, uncounted, put-all, update-IsFit,
}

module _ {C : Type 0} (control : CongestionControl C) where
  probe_at-Kept : (o : Option ℕ) (r : Recovery C) → Kept r (probe_at control o r)
  unfolding probe_at
  probe_at-Kept none r = (refl, refl, refl)
  probe_at-Kept (some t) r = (refl, refl, refl)

  arm-Kept : (o : Option ℕ) (h : Bool) (r : Recovery C) → Kept r (arm control o h r)
  unfolding arm
  arm-Kept (some t) h r = (refl, refl, refl)
  arm-Kept none h r = elim (Bool-cases (control.bytes_in_flight r.cc == 0)) [
    | inl e ↦ rw (arm, e) (refl, refl, refl)
    | inr e ↦
        rw (arm, e) (probe_at-Kept (earliest_loss_time r.time_of_last_sent_ack_eliciting_pkt h).0 r)
  ]

  pub set_loss_detection_timer-Kept :
      (h : Bool) (r : Recovery C) → Kept r (set_loss_detection_timer control h r)
  unfolding set_loss_detection_timer
  set_loss_detection_timer-Kept h r = arm-Kept (earliest_loss_time r.loss_time h).0 h r

  update_rtt-Kept :
      (scales : Scales) (latest delay : ℕ) (r : Recovery C)
      → Kept r (update_rtt scales latest delay r)
  unfolding update_rtt
  update_rtt-Kept scales latest delay r = elim (Option-cases r.smoothed_rtt) [
    | inl e ↦ rw (update_rtt, e) (refl, refl, refl)
    | inr (s, e) ↦ rw (update_rtt, e) (refl, refl, refl)
  ]

  pub sample_rtt-Kept :
      (scales : Scales) (o : Option Sent) (delay : ℕ) (e : Epoch) (now : ℕ) (r : Recovery C)
      → Kept r (sample_rtt control scales o delay e now r)
  unfolding sample_rtt
  sample_rtt-Kept scales none delay e now r = (refl, refl, refl)
  sample_rtt-Kept scales (some p) delay e now r = elim (Bool-cases p.ack_eliciting) [
    | inl k ↦
        rw (sample_rtt, k)
          (update_rtt-Kept scales (now - p.time) (if is_counted e then delay * 1000 else 0) r)
    | inr k ↦ rw (sample_rtt, k) (refl, refl, refl)
  ]

-- The group of a packet that is sent is known then, and so are those that were known.
sent_in_group-IsFit :
    (info : FecStatus) (k : ℕ) (groups : Groups) (p : Sent)
    → IsFit groups p
    → IsFit (sent_in_group info k groups) p
unfolding sent_in_group
sent_in_group-IsFit info k groups p f = elim (Bool-cases (info.group_id == 0)) [
  | inl z ↦ rw (sent_in_group, z) f
  | inr z ↦ elim (Option-cases (lookup info.group_id groups)) [
    | inl e ↦
        rw (sent_in_group, z, e)
          (update-IsFit info.group_id (packet_sent info.index k (fec_packet_numbers info.m info.n))
            groups p f)
    | inr (g, e) ↦
        rw (sent_in_group, z, e)
          (update-IsFit info.group_id (packet_sent info.index k g) groups p f)
  ]
]

fresh-IsFit :
    (p : Sent) (k : ℕ) (groups : Groups)
    → p.size ≤ 65535
    → IsFit (sent_in_group p.fec_info k groups) p
unfolding sent_in_group
fresh-IsFit p k groups s = elim (Bool-cases (p.fec_info.group_id == 0)) [
  | inl z ↦ (s, inl (ground (arith, z)))
  | inr z ↦ elim (Option-cases (lookup p.fec_info.group_id groups)) [
    | inl e ↦
        let g = packet_sent p.fec_info.index k (fec_packet_numbers p.fec_info.m p.fec_info.n) in
        (s, inr (g, rw (sent_in_group, z, e) (lookup-update p.fec_info.group_id g groups)))
    | inr (h, e) ↦
        let g = packet_sent p.fec_info.index k h in
        (s, inr (g, rw (sent_in_group, z, e) (lookup-update p.fec_info.group_id g groups)))
  ]
]

if_elim :
    {A : Type 0} (P : A → Type 0) (b : Bool) (x y : A)
    → (b ≡ true → P x)
    → (b ≡ false → P y)
    → P (if b then x else y)
if_elim P true x y t f = t refl
if_elim P false x y t f = f refl

inserted_bytes :
    (e : Epoch) (p : Sent) (sent : PerEpoch (List Sent))
    → find p.pkt_num (at e sent) ≡ none
    → unacked_bytes (put e (insert p (at e sent)) sent).of_application
      ≡ counted e p + unacked_bytes sent.of_application
unfolding at put is_counted
inserted_bytes initial p sent h = omega arith
inserted_bytes handshake p sent h = omega arith
inserted_bytes application p sent h = unacked_bytes-insert p sent.of_application h

module _ {C : Type 0} (Sound : ℕ → ℕ → C → Type 0) (control : CongestionControl C)
    (laws : KeepsFlight control Sound) (scales : Scales) where
  weight_bound : (e : Epoch) (p : Sent) → counted e p ≤ p.size
  weight_bound e p = ground arith

  -- The state before the packet is inserted.
  inserted-Tracks :
      {budget : ℕ} (p : Sent) (e : Epoch) (r r2 : Recovery C)
      → Tracks Sound budget 0 r
      → find p.pkt_num (at e r.sent) ≡ none
      → p.size ≤ 65535
      → budget + p.size < 2 ^ 53
      → r2.sent ≡ r.sent
      → r2.pns_in_fec_group ≡ sent_in_group p.fec_info p.pkt_num r.pns_in_fec_group
      → ((bound : ℕ)
          → Sound (0 + unacked_bytes r.sent.of_application) bound r.cc
          → unacked_bytes r.sent.of_application + p.size < 2 ^ 53
          → Sound (counted e p + unacked_bytes r.sent.of_application) bound r2.cc)
      → Tracks Sound
          (budget + p.size)
          0
          (record r2 { sent = put e (insert p (at e r2.sent)) r2.sent })
  inserted-Tracks {budget} p e r r2 t fresh small wide s g sound =
      let groups = sent_in_group p.fec_info p.pkt_num r.pns_in_fec_group in
      let known : (d : Epoch) → All (IsFit groups) (at d r.sent) = λ d.
        All-imp (at d r.sent) (sent_in_group-IsFit p.fec_info p.pkt_num r.pns_in_fec_group)
          (t.fit d).1 in
      let u = unacked_bytes r.sent.of_application in
      let room = t.room in
      let b = inserted_bytes e p r.sent fresh in
      let w = weight_bound e p in
      let c = sound t.bound t.sound (omega arith) in
      let more : counted e p + u
          ≡ 0 + unacked_bytes (put e (insert p (at e r.sent)) r.sent).of_application =
        omega arith in
      rw (s, g)
        record {
          bound = t.bound;
          sound = subst (λ f. Sound f t.bound r2.cc) more c;
          room = omega arith;
          width = wide;
          fit =
              put-all (AreFit groups) e (insert p (at e r.sent)) r.sent
                (
                  insert-IsAscending p (at e r.sent) (t.fit e).0,
                  All-insert (IsFit groups) p (at e r.sent)
                      (fresh-IsFit p p.pkt_num r.pns_in_fec_group small) (known e),
                )
                (λ d. ((t.fit d).0, known d));
        }

  -- The bytes of a packet in flight are counted in the third epoch.
  sent_cc :
      (p : Sent) (e : Epoch) (flight bound : ℕ) (c : C)
      → p.in_flight ≡ true
      → Sound (0 + flight) bound c
      → flight + p.size < 2 ^ 53
      → Sound
          (counted e p + flight)
          bound
          (if is_counted e then control.on_packet_sent_cc p p.size c else c)
  sent_cc p e flight bound c f s w = elim (Bool-cases (is_counted e)) [
    | inl k ↦
        let m : 0 + flight + p.size ≡ weight p + flight = rw (f) (omega arith) in
        rw (k) (
          subst (λ x. Sound x bound (control.on_packet_sent_cc p p.size c)) m
            (laws.sent (0 + flight) bound c p p.size s (omega arith)))
    | inr k ↦ rw (k) s
  ]

  no_more : (p : Sent) (e : Epoch) (u : ℕ) → p.in_flight ≡ false → 0 + u ≡ counted e p + u
  no_more p e u f = ap (λ x. x + u) (sym (uncounted e p (inl f)))

  pub on_packet_sent-Tracks :
      {budget : ℕ} (p : Sent) (e : Epoch) (h : Bool) (now : ℕ) (r : Recovery C)
      → Tracks Sound budget 0 r
      → find p.pkt_num (at e r.sent) ≡ none
      → p.size ≤ 65535
      → budget + p.size < 2 ^ 53
      → Tracks Sound (budget + p.size) 0 (on_packet_sent control scales p e h now r)
  unfolding on_packet_sent sent_in_flight
  on_packet_sent-Tracks {budget} p e h now r t fresh small wide =
      let r1 = record r {
        pns_in_fec_group = sent_in_group p.fec_info p.pkt_num r.pns_in_fec_group;
        largest_sent_pkt = put e (max (at e r.largest_sent_pkt) p.pkt_num) r.largest_sent_pkt;
        total_pkt_nums = (r.total_pkt_nums + 1) % 2 ^ 64;
      } in
      let r2 = sent_in_flight control scales p e h now r1 in
      let (s, c, g) = sent_in_flight-Kept p e h now r1 in
      let u = unacked_bytes r.sent.of_application in
      if_elim
        (λ x.
          Tracks Sound (budget + p.size) 0
            (record x { sent = put e (insert p (at e x.sent)) x.sent }))
        p.in_flight r2 r1
        (λ f.
          inserted-Tracks p e r r2 t fresh small wide s g (λ b k w.
            subst (λ x. Sound (counted e p + u) b x) (sym c) (sent_cc p e u b r.cc f k w)))
        (λ f.
          inserted-Tracks p e r r1 t fresh small wide refl refl
            (λ b k w. subst (λ x. Sound x b r.cc) (no_more p e u f) k))
    where
      sent_in_flight-Kept :
          (p : Sent) (e : Epoch) (h : Bool) (now : ℕ) (r : Recovery C)
          → let r' = sent_in_flight control scales p e h now r in
            (r'.sent ≡ r.sent)
            × (r'.cc ≡ (if is_counted e then control.on_packet_sent_cc p p.size r.cc else r.cc))
            × (r'.pns_in_fec_group ≡ r.pns_in_fec_group)
      sent_in_flight-Kept p e h now r = set_loss_detection_timer-Kept control h (record r {
        time_of_last_sent_ack_eliciting_pkt =
            if p.ack_eliciting
            then put e (some now) r.time_of_last_sent_ack_eliciting_pkt
            else r.time_of_last_sent_ack_eliciting_pkt;
        app_limited =
            ltb ((control.bytes_in_flight r.cc + p.size + 1350) % 2 ^ 64) (control.cwnd r.cc);
        cc = if is_counted e then control.on_packet_sent_cc p p.size r.cc else r.cc;
      })
