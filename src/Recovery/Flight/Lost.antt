-- ===== src/Recovery/Flight/Lost.antt =====
-- The invariant over the loss of packets, with what is lost.
use dtp.Base.{
  ℕ, ◌+◌, ◌-◌, ◌%◌, ◌^◌, ◌≡◌, inl, inr, refl, sym, ap, subst, ◌∙◌, true, Option, some, List, [],
  ◌∷◌, ◌++◌, append_assoc, append-nil, ◌==◌, ok, arith, Bool-cases,
}
use dtp.Base.Maps.{update}
use dtp.Fec.Numbers.{packet_lost}
use dtp.Frame.{Frame}
use dtp.Recovery.{
  Epoch, at, put, is_counted, Sent, find, without, CongestionControl, Scales, Recovery,
}
use dtp.Recovery.Losses.{lost_in_group, uncount, lose, lose_each}
use dtp.Recovery.Calls.{unacked_bytes}
use dtp.Recovery.Reno.{KeepsFlight}
use dtp.Recovery.Packets.{All-find, find_number}
use dtp.Recovery.Flight.{
  IsFit, counted, update-IsTracked, without-IsTracked, at-put, Tracks, uncounted, no_bytes,
}
use dtp.Recovery.Flight.Detect.{frames_in_flight, without_each, AreFound}

module _ {C : Type 0} (Sound : ℕ → ℕ → C → Type 0) (control : CongestionControl C)
    (laws : KeepsFlight control Sound) (scales : Scales) where
  -- The fields that a loss leaves alone, and the group whose packet is lost.
  pub record Alike (r r' : Recovery C) : Type 0 where
    pub sent : r'.sent ≡ r.sent
    pub lost : r'.lost ≡ r.lost
    pub loss_time : r'.loss_time ≡ r.loss_time

  lost_in_group-Tracks :
      {budget pending : ℕ} (p : Sent) (r : Recovery C)
      → IsFit r.pns_in_fec_group p
      → Tracks Sound budget pending r
      → (r' : Recovery C) × (lost_in_group control scales p r ≡ ok r')
        × Tracks Sound budget pending r'
        × Alike r r'
  unfolding lost_in_group
  lost_in_group-Tracks p r (s, inl z) t =
      (r, rw (lost_in_group, z) refl, t, record { sent = refl; lost = refl; loss_time = refl })
  lost_in_group-Tracks {budget} {pending} p r (s, inr (g, e)) t =
      elim (Bool-cases (p.fec_info.group_id == 0)) [
        | inl z ↦ (
          r,
          rw (lost_in_group, z) refl,
          t,
          record { sent = refl; lost = refl; loss_time = refl },
        )
        | inr z ↦
            let g' = packet_lost p.pkt_num g in
            (
              record r { pns_in_fec_group = update p.fec_info.group_id g' r.pns_in_fec_group },
              rw (lost_in_group, z, e) refl,
              update-IsTracked Sound p.fec_info.group_id g' t,
              record { sent = refl; lost = refl; loss_time = refl },
            )
      ]

  -- The bytes of a packet in flight leave the count.
  uncount-Tracks :
      {budget : ℕ} (e : Epoch) (p : Sent) (r : Recovery C)
      → p.in_flight ≡ true
      → Tracks Sound budget (counted e p) r
      → Tracks Sound budget 0 (uncount control scales e p.size r)
  unfolding uncount
  uncount-Tracks {budget} e p r f t = elim (Bool-cases (is_counted e)) [
    | inr c ↦ rw (uncount, c) (no_bytes Sound e p r (uncounted e p (inr c)) t)
    | inl c ↦
        let w : counted e p ≡ p.size = rw (c, f) refl in
        let room = t.room in
        let u = unacked_bytes r.sent.of_application in
        let s = laws.decreased (counted e p + u) t.bound r.cc p.size t.sound (omega arith) in
        let left : counted e p + u - p.size ≡ 0 + u = omega arith in
        rw (uncount, c)
          record {
            bound = t.bound;
            sound =
                subst (λ f. Sound f t.bound (control.decrease_bytes_in_flight p.size r.cc)) left s;
            room = omega arith;
            width = t.width;
            fit = t.fit;
          }
  ]

  -- The packet is gone; the frames of one in flight are to be sent again.
  pub record Lost (e : Epoch) (p : Sent) (r r' : Recovery C) : Type 0 where
    pub gone : at e r'.sent ≡ without p.pkt_num (at e r.sent)
    pub frames : at e r'.lost ≡ at e r.lost ++ frames_in_flight p
    pub loss_time : r'.loss_time ≡ r.loss_time

  abbrev taken : Epoch → Sent → Recovery C → Recovery C
  taken e p r = record r {
    sent = put e (without p.pkt_num (at e r.sent)) r.sent;
    lost_count = (r.lost_count + 1) % 2 ^ 64;
  }

  abbrev resent : Epoch → Sent → Recovery C → Option Sent × Recovery C
  resent e p r =
      (some (record p { frames = [] }), record r { lost = put e (at e r.lost ++ p.frames) r.lost })

  lose_runs :
      (e : Epoch) (p : Sent) (last : Option Sent) (r r2 : Recovery C)
      → p.in_flight ≡ true
      → lost_in_group control scales p (uncount control scales e p.size (taken e p r)) ≡ ok r2
      → lose control scales e p last r ≡ ok (resent e p r2)
  unfolding lose
  lose_runs e p last r r2 f run = rw (lose, run, f) refl

  resent-Lost :
      (e : Epoch) (p : Sent) (r r2 : Recovery C)
      → p.in_flight ≡ true
      → Alike (taken e p r) r2
      → Lost e p r (resent e p r2).1
  resent-Lost e p r r2 f a =
      let flight : p.frames ≡ frames_in_flight p = rw (f) refl in
      record {
        gone = ap (at e) a.sent ∙ at-put e (without p.pkt_num (at e r.sent)) r.sent;
        frames =
            at-put e (at e r2.lost ++ p.frames) r2.lost
            ∙ ap (λ l. at e l ++ p.frames) a.lost
            ∙ ap (λ x. at e r.lost ++ x) flight;
        loss_time = a.loss_time;
      }

  lose-Tracks :
      {budget : ℕ} (e : Epoch) (p : Sent) (last : Option Sent) (r : Recovery C)
      → find p.pkt_num (at e r.sent) ≡ some p
      → Tracks Sound budget 0 r
      → (q : Option Sent × Recovery C) × (lose control scales e p last r ≡ ok q)
        × Tracks Sound budget 0 q.1
        × Lost e p r q.1
  unfolding lose
  lose-Tracks {budget} e p last r h t =
      let fit = All-find (IsFit r.pns_in_fec_group) p.pkt_num (at e r.sent) p (t.fit e).1 h in
      let t1 : Tracks Sound budget (counted e p) (taken e p r) =
        without-IsTracked Sound e p.pkt_num r.sent p h t in
      elim (Bool-cases p.in_flight) [
        | inr f ↦ (
          (last, taken e p r),
          rw (lose, f) refl,
          no_bytes Sound e p (taken e p r) (uncounted e p (inl f)) t1,
          record {
            gone = at-put e (without p.pkt_num (at e r.sent)) r.sent;
            frames = rw (f) (sym (append-nil (at e r.lost)));
            loss_time = refl;
          },
        )
        | inl f ↦
            let r1 = taken e p r in
            let (r2, run, t2, a) =
              lost_in_group-Tracks p (uncount control scales e p.size r1) fit
                (uncount-Tracks e p r1 f t1) in
            (
              resent e p r2,
              lose_runs e p last r r2 f run,
              t2,
              resent-Lost e p r r2 f
                  record { sent = a.sent; lost = a.lost; loss_time = a.loss_time },
            )
      ]

  -- The packets of a list of numbers, where each is found.
  pub lose_each-Tracks :
      {budget : ℕ} (e : Epoch) (ks : List ℕ) (fs : List Frame) (last : Option Sent) (r : Recovery C)
      → AreFound ks (at e r.sent) fs
      → Tracks Sound budget 0 r
      → (q : Option Sent × Recovery C) × (lose_each control scales e ks last r ≡ ok q)
        × Tracks Sound budget 0 q.1
        × (at e q.1.sent ≡ without_each ks (at e r.sent))
        × (at e q.1.lost ≡ at e r.lost ++ fs)
        × (q.1.loss_time ≡ r.loss_time)
  unfolding lose_each without_each
  lose_each-Tracks e [] fs last r h t =
      ((last, r), refl, t, refl, rw (h) (sym (append-nil (at e r.lost))), refl)
  lose_each-Tracks {budget} e (k ∷ ks) fs last r (p, gs, h, c, rest) t =
      let n = find_number k (at e r.sent) p h in
      let h' = subst (λ x. find x (at e r.sent) ≡ some p) (sym n) h in
      let (q, run, t1, l) = lose-Tracks e p last r h' t in
      let gone = l.gone ∙ ap (λ x. without x (at e r.sent)) n in
      let rest' = subst (λ x. AreFound ks x gs) (sym gone) rest in
      let (q', run', t2, s, f, lt) = lose_each-Tracks e ks gs q.0 q.1 rest' t1 in
      (
        q',
        rw (lose_each, h, run) run',
        t2,
        s ∙ ap (without_each ks) gone,
        f
            ∙ ap (λ x. x ++ gs) l.frames
            ∙ append_assoc (at e r.lost) (frames_in_flight p) gs
            ∙ ap (λ x. at e r.lost ++ x) (sym c),
        lt ∙ l.loss_time,
      )
