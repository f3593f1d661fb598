-- ===== src/Recovery/Losses.antt =====
-- src/recovery.rs: which packets are lost, and what a loss does.
use dtp.Base.{
  ℕ, ◌+◌, ◌*◌, ◌%◌, ◌^◌, min, max, Bool, false, ◌||◌, Option, none, some, List, [], ◌∷◌, ◌++◌, leb,
  ◌==◌, if◌then◌else◌, Result, ok, panic,
}
use dtp.Base.Errors.{◌>>=◌}
use dtp.Base.Maps.{lookup, update}
use dtp.Fec.Numbers.{packet_lost}
use dtp.Recovery.{
  Epoch, at, put, is_counted, Sent, find, without, CongestionControl, Scales, Recovery, granularity,
  packet_threshold, persistent_congestion_threshold,
}
use dtp.Recovery.Timer.{rtt, pto}

-- `BTreeMap::range` up to and with a number.
unfoldable pub up_to : ℕ → List Sent → List Sent
up_to largest [] = []
up_to largest (p ∷ ps) =
    let rest = up_to largest ps in if leb p.pkt_num largest then p ∷ rest else []

-- `unacked.time <= now - loss_delay`, or the number is behind by the threshold.
unfoldable pub is_lost : ℕ → ℕ → ℕ → Sent → Bool
is_lost loss_delay now largest_acked p =
    leb (p.time + loss_delay) now || leb ((p.pkt_num + packet_threshold) % 2 ^ 64) largest_acked

-- The two results of the loop of `detect_lost_packets`: the numbers of the lost packets, and the
-- time at which the first of the others will be lost.
unfoldable pub lost_pkts : ℕ → ℕ → ℕ → List Sent → List ℕ
unfolding is_lost
lost_pkts loss_delay now largest [] = []
lost_pkts loss_delay now largest (p ∷ ps) =
    let rest = lost_pkts loss_delay now largest ps in
    if is_lost loss_delay now largest p then p.pkt_num ∷ rest else rest

unfoldable pub sooner : Option ℕ → ℕ → Option ℕ
sooner none t = some t
sooner (some s) t = some (min s t)

unfoldable pub next_loss_time : ℕ → ℕ → ℕ → List Sent → Option ℕ → Option ℕ
unfolding is_lost sooner
next_loss_time loss_delay now largest [] time = time
next_loss_time loss_delay now largest (p ∷ ps) time =
    next_loss_time loss_delay now largest ps
      (if is_lost loss_delay now largest p then time else sooner time (p.time + loss_delay))

module _ {C : Type 0} (control : CongestionControl C) (scales : Scales) where
  -- `packet_lost` on the group of a packet, which must be known.
  unfoldable pub lost_in_group : Sent → Recovery C → Result (Recovery C)
  unfolding lookup update packet_lost
  lost_in_group p r =
      if p.fec_info.group_id == 0
      then ok r
      else elim (lookup p.fec_info.group_id r.pns_in_fec_group) [
        | none ↦ panic
        | some g ↦ ok (record r {
          pns_in_fec_group =
              update p.fec_info.group_id (packet_lost p.pkt_num g) r.pns_in_fec_group;
        })
      ]

  -- The bytes of a packet leave the count of the third epoch only.
  unfoldable pub uncount : Epoch → ℕ → Recovery C → Recovery C
  unfolding is_counted
  uncount e size r = record r {
    cc = if is_counted e then control.decrease_bytes_in_flight size r.cc else r.cc;
  }

  -- One round of the loop of `on_packets_lost`, with the packet removed and the last packet in
  -- flight that was lost before it.
  unfoldable pub lose : Epoch → Sent → Option Sent → Recovery C → Result (Option Sent × Recovery C)
  unfolding lost_in_group uncount at put without
  lose e p last r =
      let r1 = record r {
        sent = put e (without p.pkt_num (at e r.sent)) r.sent;
        lost_count = (r.lost_count + 1) % 2 ^ 64;
      } in
      if p.in_flight
      then (do
        r2 ← lost_in_group p (uncount e p.size r1)
        ok (
          some (record p { frames = [] }),
          record r2 { lost = put e (at e r2.lost ++ p.frames) r2.lost },
        ))
      else ok (last, r1)

  unfoldable pub lose_each :
      Epoch → List ℕ → Option Sent → Recovery C → Result (Option Sent × Recovery C)
  unfolding lose at find
  lose_each e [] last r = ok (last, r)
  lose_each e (pkt_num ∷ pkts) last r = elim (find pkt_num (at e r.sent)) [
    | none ↦ panic
    | some p ↦ lose e p last r >>= λ q. lose_each e pkts q.0 q.1
  ]

  unfoldable pub in_persistent_congestion : Recovery C → Bool
  in_persistent_congestion r =
      let congestion_period = pto r * persistent_congestion_threshold in false

  unfoldable pub after_losses : Epoch → ℕ → Option Sent → Recovery C → Recovery C
  unfolding in_persistent_congestion
  after_losses e now none r = r
  after_losses e now (some p) r =
      let r1 = record r {
        cc = control.congestion_event (rtt r) p.time now p.pkt_num e r.lost_count r.cc;
      } in
      if in_persistent_congestion r1 then record r1 { cc = control.collapse_cwnd r1.cc } else r1

  unfoldable pub on_packets_lost : List ℕ → Epoch → ℕ → Recovery C → Result (Recovery C)
  unfolding lose_each after_losses
  on_packets_lost lost_pkt e now r = do
    q ← lose_each e lost_pkt none r
    ok (after_losses e now q.0 q.1)

  abbrev pub loss_delay_of : Recovery C → ℕ
  loss_delay_of r = max (scales.nine_eighths (max r.latest_rtt (rtt r))) granularity

  unfoldable pub detect_lost_packets : Epoch → ℕ → Recovery C → Result (Recovery C)
  unfolding up_to lost_pkts next_loss_time on_packets_lost at put
  detect_lost_packets e now r =
      let largest_acked = at e r.largest_acked_pkt in
      let loss_delay = loss_delay_of r in
      let candidates = up_to largest_acked (at e r.sent) in
      let r1 = record r {
        loss_time = put e (next_loss_time loss_delay now largest_acked candidates none) r.loss_time;
      } in
      elim (lost_pkts loss_delay now largest_acked candidates) [
        | [] ↦ ok r1
        | pkt_num ∷ pkts ↦ on_packets_lost (pkt_num ∷ pkts) e now r1
      ]
