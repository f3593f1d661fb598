-- ===== src/Recovery/Flight/Acked.antt =====
-- The invariant over the acknowledgement of a packet, with the packets that stay.
use dtp.Base.{
  ℕ, ◌+◌, ◌-◌, ◌≤◌, ◌≡◌, inl, inr, refl, sym, ap, subst, ◌&&◌, not, ◌∙◌, Bool, true, false, [],
  ◌++◌, ◌==◌, ok, arith, Bool-cases, Option-cases,
}
use dtp.Base.Maps.{update}
use dtp.Fec.Numbers.{packet_acked, get_delta, get_recovered_pns}
use dtp.Recovery.{
  Epoch, at, put, is_counted, Sent, find, without, CongestionControl, Scales, Recovery,
}
use dtp.Recovery.Timer.{rtt}
use dtp.Recovery.Acks.{recover, collect_sample, acked_in_group, acked_in_flight, on_packet_acked}
use dtp.Recovery.Calls.{unacked_bytes}
use dtp.Recovery.Reno.{KeepsFlight}
use dtp.Recovery.Packets.{All-find, is_out, is_out-without, find-is_out, found-is_out}
use dtp.Recovery.Flight.{
  IsFit, counted, update-IsTracked, without-IsTracked, recover-IsTracked, collect_sample-Kept,
  Tracks, uncounted, no_bytes, Kept-Tracks, SameOut, recover-SameOut, at-put,
}

module _ {C : Type 0} (Sound : ℕ → ℕ → C → Type 0) (control : CongestionControl C)
    (laws : KeepsFlight control Sound) (scales : Scales) where
  runs :
      (e : Epoch) (p : Sent) (r : Recovery C) (c' : C)
      → p.in_flight ≡ true
      → is_counted e ≡ true
      → control.on_packet_acked_cc p
          (rtt r)
          r.min_rtt
          r.latest_rtt
          r.app_limited
          e
          r.lost_count
          r.cc
        ≡ ok c'
      → acked_in_flight control scales e p r ≡ ok (record r { cc = c' })
  unfolding acked_in_flight
  runs e p r c' f c run = rw (acked_in_flight, run, f, c) refl

  -- The congestion control takes the bytes that are pending.
  acked_in_flight-Tracks :
      {budget : ℕ} (e : Epoch) (p : Sent) (r : Recovery C)
      → p.size ≤ 65535
      → Tracks Sound budget (counted e p) r
      → (r' : Recovery C) × (acked_in_flight control scales e p r ≡ ok r')
        × Tracks Sound budget 0 r'
        × (r'.sent ≡ r.sent)
  unfolding acked_in_flight
  acked_in_flight-Tracks {budget} e p r h t = elim (Bool-cases p.in_flight) [
    | inr f ↦
        (r, rw (acked_in_flight, f) refl, no_bytes Sound e p r (uncounted e p (inl f)) t, refl)
    | inl f ↦ elim (Bool-cases (is_counted e)) [
      | inr c ↦
          (r, rw (acked_in_flight, f, c) refl, no_bytes Sound e p r (uncounted e p (inr c)) t, refl)
      | inl c ↦
          let w : counted e p ≡ p.size = rw (c, f) refl in
          let t' = subst (λ w. Tracks Sound budget w r) w t in
          let b = t'.width in
          let room = t'.room in
          let u = unacked_bytes r.sent.of_application in
          let (c', run, s) =
            laws.acked (p.size + u) t'.bound r.cc p (rtt r) r.min_rtt r.latest_rtt r.app_limited e
              r.lost_count t'.sound h (omega arith) (omega arith) in
          let left : p.size + u - p.size ≡ 0 + u = omega arith in
          (
            record r { cc = c' },
            runs e p r c' f c run,
            record {
              bound = t'.bound + p.size;
              sound = subst (λ f. Sound f (t'.bound + p.size) c') left s;
              room = omega arith;
              width = b;
              fit = t'.fit;
            },
            refl,
          )
    ]
  ]

  acked_in_group-Tracks :
      {budget pending : ℕ} (now : ℕ) (p : Sent) (r : Recovery C)
      → IsFit r.pns_in_fec_group p
      → Tracks Sound budget pending r
      → (r' : Recovery C) × (acked_in_group control scales now p r ≡ ok r')
        × Tracks Sound budget pending r'
        × SameOut r.sent r'.sent
  unfolding acked_in_group
  acked_in_group-Tracks now p r (s, inl z) t = (r, rw (acked_in_group, z) refl, t, λ d x. refl)
  acked_in_group-Tracks {budget} {pending} now p r (s, inr (g, e)) t =
      elim (Bool-cases (p.fec_info.group_id == 0)) [
        | inl z ↦ (r, rw (acked_in_group, z) refl, t, λ d x. refl)
        | inr z ↦
            let g' = packet_acked p.pkt_num g in
            let r1 = record r {
              pns_in_fec_group = update p.fec_info.group_id g' r.pns_in_fec_group;
            } in
            let r2 = collect_sample control scales now (get_delta g') r1 in
            let t1 : Tracks Sound budget pending r1 =
              update-IsTracked Sound p.fec_info.group_id g' t in
            let k = collect_sample-Kept Sound control scales now (get_delta g') r1 in
            (
              recover (get_recovered_pns g') r2,
              rw (acked_in_group, z, e) refl,
              recover-IsTracked Sound (get_recovered_pns g') r2 (Kept-Tracks Sound r1 r2 k t1),
              λ d x.
                  recover-SameOut (get_recovered_pns g') r2 d x ∙ ap (λ s. is_out x (at d s)) k.0,
            )
      ]

  -- The packet with the number is no longer out, and all others stay; `newly` says whether it was.
  pub record Removed (k : ℕ) (e : Epoch) (newly : Bool) (r r' : Recovery C) : Type 0 where
    pub was_out : newly ≡ is_out k (at e r.sent)
    pub others : (x : ℕ) → is_out x (at e r'.sent) ≡ (is_out x (at e r.sent) && not (x == k))

  not_out-Removed :
      (k : ℕ) (e : Epoch) (r : Recovery C) → is_out k (at e r.sent) ≡ false → Removed k e false r r
  not_out-Removed k e r h = record {
    was_out = sym h;
    others = λ x. elim (Bool-cases (x == k)) [
      | inl s ↦ let q : x ≡ k = ground (arith, s) in rw (q, h) refl
      | inr s ↦ ground (arith, s)
    ];
  }

  -- Where a packet that is out is acknowledged, its bytes leave the count and the invariant holds
  -- on; any other number changes nothing.
  pub on_packet_acked-Tracks :
      {budget : ℕ} (k : ℕ) (e : Epoch) (now : ℕ) (r : Recovery C)
      → Tracks Sound budget 0 r
      → (q : Bool × Recovery C) × (on_packet_acked control scales k e now r ≡ ok q)
        × Tracks Sound budget 0 q.1
        × Removed k e q.0 r q.1
  unfolding on_packet_acked
  on_packet_acked-Tracks {budget} k e now r t = elim (Option-cases (find k (at e r.sent))) [
    | inl h ↦ (
      (false, r),
      rw (on_packet_acked, h) refl,
      t,
      not_out-Removed k e r (find-is_out k (at e r.sent) h),
    )
    | inr (p, h) ↦
        let p' = record p { frames = [] } in
        let r1 = record r {
          sent = put e (without k (at e r.sent)) r.sent;
          acked = put e (at e r.acked ++ p.frames) r.acked;
        } in
        let fit = All-find (IsFit r.pns_in_fec_group) k (at e r.sent) p (t.fit e).1 h in
        let t1 : Tracks Sound budget (counted e p) r1 = without-IsTracked Sound e k r.sent p h t in
        let (r2, run2, t2, same) = acked_in_group-Tracks now p' r1 fit t1 in
        let (r3, run3, t3, kept) = acked_in_flight-Tracks e p' r2 fit.0 t2 in
        (
          (true, r3),
          rw (on_packet_acked, h, run2, run3) refl,
          t3,
          record {
            was_out = sym (found-is_out k (at e r.sent) p h);
            others = λ x.
                ap (λ s. is_out x (at e s)) kept
                ∙ same e x
                ∙ ap (is_out x) (at-put e (without k (at e r.sent)) r.sent)
                ∙ is_out-without x k (at e r.sent) (t.fit e).0;
          },
        )
  ]
