-- ===== src/Recovery/Steady/Acked.antt =====
-- Acknowledged packets.
use dtp.Base.{
  ℕ, zero, suc, ◌+◌, ◌*◌, Bool, ◌||◌, Option, none, some, List, [], ◌∷◌, ◌++◌, ltb, ◌==◌, Result,
  ok, err, panic, Bool-cases, Option-cases, inl, inr,
}
use dtp.Base.Errors.{◌>>=◌}
use dtp.Base.Maps.{lookup, update}
use dtp.Fec.Numbers.{packet_acked, get_delta, get_recovered_pns}
use dtp.Minmax.{running_min}
use dtp.Ranges.{Flatten, flatten_next_back}
use dtp.Recovery.{
  Epoch, PerEpoch, at, put, is_counted, Sent, find, without, CongestionControl, Scales, Recovery,
  biased,
}
use dtp.Recovery.Acks.{
  on_packet_recovered, recover_each, recover, adjust, filtered, collect_sample, acked_in_group,
  acked_in_flight, on_packet_acked, below_lowest, ack_loop,
}
use dtp.Recovery.Steady.{Top, TopOk, TopWith, then_with, with_with}

module _ {C : Type 0} where
  on_packet_recovered-Top :
      (t : PerEpoch ℕ) (k : ℕ) (r : Recovery C) → Top t r → Top t (on_packet_recovered k r)
  unfolding on_packet_recovered
  on_packet_recovered-Top t k r h = elim (Option-cases (find k r.sent.of_application)) [
    | inl e ↦ rw (on_packet_recovered, e) h
    | inr (p, e) ↦ rw (on_packet_recovered, e) h
  ]

  recover_each-Top :
      (t : PerEpoch ℕ) (ks : List ℕ) (r : Recovery C) → Top t r → Top t (recover_each ks r)
  unfolding recover_each
  recover_each-Top t [] r h = h
  recover_each-Top t (k ∷ ks) r h =
      recover_each-Top t ks (on_packet_recovered k r) (on_packet_recovered-Top t k r h)

  recover-Top :
      (t : PerEpoch ℕ) (o : Option (List ℕ)) (r : Recovery C) → Top t r → Top t (recover o r)
  unfolding recover
  recover-Top t none r h = h
  recover-Top t (some ks) r h = recover_each-Top t ks r h

module _ {C : Type 0} (control : CongestionControl C) (scales : Scales) (t : PerEpoch ℕ) where
  adjust-Top : (now last : ℕ) (r : Recovery C) → Top t r → Top t (adjust control scales now last r)
  unfolding adjust
  adjust-Top now last r h = elim (Bool-cases (ltb now (last + r.min_rtt * 2))) [
    | inl e ↦ rw (adjust, e) h
    | inr e ↦ rw (adjust, e) h
  ]

  filtered-Top :
      (now delta : ℕ) (last : Option ℕ) (r : Recovery C)
      → Top t r
      → Top t (filtered control scales now delta last r)
  unfolding filtered
  filtered-Top now delta none r h = h
  filtered-Top now delta (some last) r h =
      let window = r.min_rtt * 2 in
      let (value, filter) =
        running_min (scales.quarter_window window) (scales.half_window window) window now
          (biased delta) r.min_filter in
      adjust-Top now last (record r { delta = biased value; min_filter = filter }) h

  collect_sample-Top :
      (now : ℕ) (delta : Option ℕ) (r : Recovery C)
      → Top t r
      → Top t (collect_sample control scales now delta r)
  unfolding collect_sample
  collect_sample-Top now none r h = h
  collect_sample-Top now (some delta) r h = filtered-Top now delta r.last_adjust_time r h

  acked_in_group-Top :
      (now : ℕ) (p : Sent) (r : Recovery C)
      → Top t r
      → TopOk t (acked_in_group control scales now p r)
  unfolding acked_in_group
  acked_in_group-Top now p r h = elim (Bool-cases (p.fec_info.group_id == 0)) [
    | inl z ↦ rw (acked_in_group, z) h
    | inr z ↦ elim (Option-cases (lookup p.fec_info.group_id r.pns_in_fec_group)) [
      | inl e ↦ rw (acked_in_group, z, e) tt
      | inr (g, e) ↦
          let g' = packet_acked p.pkt_num g in
          let r1 = record r {
            pns_in_fec_group = update p.fec_info.group_id g' r.pns_in_fec_group;
          } in
          rw (acked_in_group, z, e)
            (recover-Top t (get_recovered_pns g')
              (collect_sample control scales now (get_delta g') r1)
              (collect_sample-Top now (get_delta g') r1 h))
    ]
  ]

  with_cc :
      (r : Recovery C) (m : Result C) → Top t r → TopOk t (m >>= λ c. ok (record r { cc = c }))
  with_cc r (ok c) h = h
  with_cc r (err e) h = tt
  with_cc r panic h = tt

  acked_in_flight-Top :
      (e : Epoch) (p : Sent) (r : Recovery C)
      → Top t r
      → TopOk t (acked_in_flight control scales e p r)
  unfolding acked_in_flight
  acked_in_flight-Top e p r h = elim (Bool-cases p.in_flight) [
    | inr z ↦ rw (acked_in_flight, z) h
    | inl z ↦ elim (Bool-cases (is_counted e)) [
      | inr y ↦ rw (acked_in_flight, z, y) h
      | inl y ↦ rw (acked_in_flight, z, y) (with_cc r _ h)
    ]
  ]

  on_packet_acked-Top :
      (k : ℕ) (e : Epoch) (now : ℕ) (r : Recovery C)
      → Top t r
      → TopWith t (on_packet_acked control scales k e now r)
  unfolding on_packet_acked
  on_packet_acked-Top k e now r h = elim (Option-cases (find k (at e r.sent))) [
    | inl z ↦ rw (on_packet_acked, z) h
    | inr (p, z) ↦
        let p' = record p { frames = [] } in
        let r1 = record r {
          sent = put e (without k (at e r.sent)) r.sent;
          acked = put e (at e r.acked ++ p.frames) r.acked;
        } in
        rw (on_packet_acked, z)
          (then_with t (acked_in_group control scales now p' r1) _ (acked_in_group-Top now p' r1 h)
            (λ r2 h2.
              then_with t (acked_in_flight control scales e p' r2) _
                (acked_in_flight-Top e p' r2 h2) (λ r3 h3. h3)))
  ]

  pub ack_loop-Top :
      (fuel : ℕ) (e : Epoch) (clock : ℕ → ℕ) (f : Flatten) (newly : Bool) (r : Recovery C)
      → Top t r
      → TopWith t (ack_loop control scales fuel e clock f newly r)
  unfolding ack_loop
  ack_loop-Top zero e clock f newly r h = tt
  ack_loop-Top (suc fuel) e clock f newly r h = elim (Option-cases (flatten_next_back f)) [
    | inl z ↦ rw (ack_loop, z) h
    | inr ((pn, f'), z) ↦ elim (Bool-cases (below_lowest pn (at e r.sent))) [
      | inl y ↦ rw (ack_loop, z, y) h
      | inr y ↦
          rw (ack_loop, z, y)
            (with_with t (on_packet_acked control scales pn e (clock pn) r) _
              (on_packet_acked-Top pn e (clock pn) r h)
              (λ a r2 h2. ack_loop-Top fuel e clock f' (newly || a) r2 h2))
    ]
  ]
