-- ===== src/Recovery/Acks.antt =====
-- src/recovery.rs: what an acknowledgement of a packet does.
use dtp.Base.{
  ℕ, zero, suc, ◌+◌, ◌-◌, ◌*◌, ◌/◌, ◌%◌, ◌^◌, Bool, true, false, ◌||◌, Option, none, some, List, [],
  ◌∷◌, ◌++◌, ltb, leb, ◌==◌, if◌then◌else◌, Result, ok, panic,
}
use dtp.Base.Errors.{◌>>=◌}
use dtp.Base.Maps.{lookup, update}
use dtp.Fec.Numbers.{packet_acked, get_delta, get_recovered_pns}
use dtp.Minmax.{reset, running_min}
use dtp.Ranges.{Flatten, flatten_next_back}
use dtp.Recovery.{
  Epoch, at, put, is_counted, Sent, find, without, CongestionControl, Scales, Recovery, biased,
}
use dtp.Recovery.Timer.{rtt}

-- `get_mut` on the packets that are out.
unfoldable pub take_frames : ℕ → List Sent → List Sent
take_frames k [] = []
take_frames k (p ∷ ps) =
    let rest = take_frames k ps in
    if p.pkt_num == k then record p { frames = [] } ∷ ps else p ∷ rest

unfoldable pub on_packet_recovered : {C : Type 0} → ℕ → Recovery C → Recovery C
unfolding find take_frames
on_packet_recovered pkt_num r = elim (find pkt_num r.sent.of_application) [
  | none ↦ r
  | some p ↦ record r {
    sent = record r.sent { of_application = take_frames pkt_num r.sent.of_application };
    acked = record r.acked { of_application = r.acked.of_application ++ p.frames };
  }
]

unfoldable pub recover_each : {C : Type 0} → List ℕ → Recovery C → Recovery C
unfolding on_packet_recovered
recover_each [] r = r
recover_each (pkt_num ∷ pkts) r = recover_each pkts (on_packet_recovered pkt_num r)

unfoldable pub recover : {C : Type 0} → Option (List ℕ) → Recovery C → Recovery C
unfolding recover_each
recover none r = r
recover (some pkts) r = recover_each pkts r

-- `self.n as i8 - self.delta`, and 1 where that is less than 1.
unfoldable pub adjusted_n : ℕ → ℕ → ℕ
adjusted_n n delta = let x = (n % 256 + 256 - delta) % 256 in if (x == 0) || leb 128 x then 1 else x

-- The packets of 1350 bytes in a round trip, as a `u8`, or 255.
unfoldable pub adjusted_m : ℕ → ℕ → ℕ
adjusted_m pacing_rate min_rtt =
    let x = (pacing_rate * (min_rtt / 1000000 % 2 ^ 64)) % 2 ^ 64 / 8000 / 1350 in
    if leb x 255 then x else 255

-- The test that ends the loop: the number is below the lowest that is out.
unfoldable pub below_lowest : ℕ → List Sent → Bool
below_lowest pn [] = false
below_lowest pn (p ∷ ps) = ltb pn p.pkt_num

module _ {C : Type 0} (control : CongestionControl C) (scales : Scales) where
  unfoldable pub adjust : ℕ → ℕ → Recovery C → Recovery C
  unfolding adjusted_n adjusted_m
  adjust now last_time r =
      if ltb now (last_time + r.min_rtt * 2)
      then record r {
        n = adjusted_n r.n r.delta;
        m = adjusted_m (control.pacing_rate r.cc) r.min_rtt;
        last_adjust_time = some now;
      }
      else r

  -- The new sample goes through the filter, whose values are biased.
  unfoldable pub filtered : ℕ → ℕ → Option ℕ → Recovery C → Recovery C
  unfolding adjust running_min
  filtered now delta none r =
      let (value, filter) = reset now (biased delta) r.min_filter in
      record r { last_adjust_time = some now; delta = biased value; min_filter = filter }
  filtered now delta (some last_time) r =
      let window = r.min_rtt * 2 in
      let (value, filter) =
        running_min (scales.quarter_window window) (scales.half_window window) window now
          (biased delta) r.min_filter in
      adjust now last_time (record r { delta = biased value; min_filter = filter })

  unfoldable pub collect_sample : ℕ → Option ℕ → Recovery C → Recovery C
  unfolding filtered
  collect_sample now none r = r
  collect_sample now (some delta) r = filtered now delta r.last_adjust_time r

  -- The group of an acknowledged packet, which must be known.
  unfoldable pub acked_in_group : ℕ → Sent → Recovery C → Result (Recovery C)
  unfolding lookup update packet_acked get_delta get_recovered_pns collect_sample recover
  acked_in_group now p r =
      if p.fec_info.group_id == 0
      then ok r
      else elim (lookup p.fec_info.group_id r.pns_in_fec_group) [
        | none ↦ panic
        | some g ↦
            let g' = packet_acked p.pkt_num g in
            let r1 = record r {
              pns_in_fec_group = update p.fec_info.group_id g' r.pns_in_fec_group;
            } in
            ok (recover (get_recovered_pns g') (collect_sample now (get_delta g') r1))
      ]

  unfoldable pub acked_in_flight : Epoch → Sent → Recovery C → Result (Recovery C)
  unfolding is_counted
  acked_in_flight e p r =
      if p.in_flight
      then (if is_counted e
          then (do
            c ←
                control.on_packet_acked_cc p (rtt r) r.min_rtt r.latest_rtt r.app_limited e
                  r.lost_count r.cc
            ok (record r { cc = c }))
          else ok r)
      else ok r

  -- `Instant::now()` is the argument `now`.
  unfoldable pub on_packet_acked : ℕ → Epoch → ℕ → Recovery C → Result (Bool × Recovery C)
  unfolding find without at put acked_in_group acked_in_flight
  on_packet_acked pkt_num e now r = elim (find pkt_num (at e r.sent)) [
    | none ↦ ok (false, r)
    | some p ↦ do
      let p' = record p { frames = [] }
      let r1 = record r {
        sent = put e (without pkt_num (at e r.sent)) r.sent;
        acked = put e (at e r.acked ++ p.frames) r.acked;
      }
      r2 ← acked_in_group now p' r1
      r3 ← acked_in_flight e p' r2
      ok (true, r3)
  ]

  -- The loop of `on_ack_received` from the greatest number down, on fuel. `clock` gives the time at
  -- which a number is handled.
  unfoldable pub ack_loop :
      ℕ → Epoch → (ℕ → ℕ) → Flatten → Bool → Recovery C → Result (Bool × Recovery C)
  unfolding flatten_next_back below_lowest on_packet_acked at
  ack_loop zero e clock f newly r = panic
  ack_loop (suc fuel) e clock f newly r = elim (flatten_next_back f) [
    | none ↦ ok (newly, r)
    | some (pn, f') ↦
        if below_lowest pn (at e r.sent)
        then ok (newly, r)
        else on_packet_acked pn e (clock pn) r >>= λ q. ack_loop fuel e clock f' (newly || q.0) q.1
  ]
