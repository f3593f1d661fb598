-- ===== src/Recovery/History.antt =====
-- The packet numbers that were sent so far, in every reached state, and what an acknowledgement is
-- measured by.
use dtp.Base.{
  ◌+◌, ◌%◌, ◌^◌, ltb, if◌then◌else◌, ℕ, ◌≤◌, ◌<◌, ◌≡◌, ◌⊎◌, refl, sym, subst, max, List, [], ◌∷◌,
  Bool, true, false, Option, none, some, Result, ok, err, panic, Error, All, arith, inl, inr,
}
use dtp.Base.Errors.{◌>>=◌}
use dtp.Base.Maps.{has}
use native.Mathlib.Decide.{dec_le}
use dtp.Ranges.{RangeSet}
use dtp.Ranges.Insert.{IsSeparated, Holds}
use dtp.Ranges.Largest.{IsFull}
use dtp.Recovery.{
  Epoch, initial, handshake, application, PerEpoch, at, put, each, is_counted, Sent,
  CongestionControl, Scales, Recovery,
}
use dtp.Recovery.Calls.{
  sent_in_group, sent_in_flight, on_packet_sent, on_ack_received, on_loss_detection_timeout,
  drop_unacked_data,
}
use dtp.Recovery.Reno.{KeepsFlight}
use dtp.Recovery.Packets.{is_out}
use dtp.Recovery.Steady.{Top, TopOk, TopWith, timer-Top}
use dtp.Recovery.Steady.Operations.{on_ack_received-Top, on_loss_detection_timeout-Top}
use dtp.Recovery.Flight.Answers.{Answered, on_ack_received-Answered}
use dtp.Recovery.Runs.{Event, handle, Runs, begun, handled, Runs-Tracks}

abbrev greatest : List ℕ → ℕ
greatest [] = 0
greatest (n ∷ ns) = max (greatest ns) n

greatest-All : (k : ℕ) (ns : List ℕ) → greatest ns < k → All (λ n. n < k) ns
greatest-All k [] h = tt
greatest-All k (n ∷ ns) h = (omega arith, greatest-All k ns (omega arith))

-- The number is 0, or there is one in the list that is no less.
abbrev pub Covered : List ℕ → ℕ → Type 0
Covered ns k = (k ≡ 0) ⊎ ((n : ℕ) × (has n ns ≡ true) × (k ≤ n))

greatest-Covered : (k : ℕ) (ns : List ℕ) → k ≤ greatest ns → Covered ns k
unfolding has
greatest-Covered k [] h = inl (omega arith)
greatest-Covered k (n ∷ ns) h = elim (dec_le k n) [
  | yes l ↦ inr (n, ground arith, l)
  | no l ↦ elim (greatest-Covered k ns (omega arith)) [
    | inl z ↦ inl z
    | inr (x, i, le) ↦ inr (x, ground (arith, i), le)
  ]
]

-- The numbers of each epoch after an event.
abbrev note : Event → PerEpoch (List ℕ) → PerEpoch (List ℕ)
note (Event.packet_sent p e h now) x = put e (p.pkt_num ∷ at e x) x
note (Event.ack_received clock m delay e h now) x = x
note (Event.timed_out h now) x = x
note (Event.dropped e) x = x

-- The field for each epoch is the greatest of its numbers.
record AreGreatest (t : PerEpoch ℕ) (x : PerEpoch (List ℕ)) : Type 0 where
  each_epoch : (e : Epoch) → at e t ≡ greatest (at e x)

put-AreGreatest :
    (d : Epoch) (k : ℕ) (t : PerEpoch ℕ) (x : PerEpoch (List ℕ))
    → AreGreatest t x
    → AreGreatest (put d (max (at d t) k) t) (put d (k ∷ at d x) x)
unfolding at put
put-AreGreatest d k t x g = record { each_epoch = λ e. go d e }
  where
    go : (d e : Epoch) → at e (put d (max (at d t) k) t) ≡ greatest (at e (put d (k ∷ at d x) x))
    go initial initial = rw (g.each_epoch initial) refl
    go initial handshake = g.each_epoch handshake
    go initial application = g.each_epoch application
    go handshake initial = g.each_epoch initial
    go handshake handshake = rw (g.each_epoch handshake) refl
    go handshake application = g.each_epoch application
    go application initial = g.each_epoch initial
    go application handshake = g.each_epoch handshake
    go application application = rw (g.each_epoch application) refl

module _ {C : Type 0} where
  -- What an acknowledgement leads to where the numbers `ns` were sent.
  abbrev pub Judged : List ℕ → Epoch → RangeSet → Recovery C → Option Error × Recovery C → Type 0
  Judged ns e m r (some x, r') =
      (x ≡ Error.invalid_packet) × ((k : ℕ) × Holds k m × All (λ n. n < k) ns) × (r'.sent ≡ r.sent)
  Judged ns e m r (none, r') =
      ((k : ℕ) → Holds k m → Covered ns k) × ((k : ℕ) → Holds k m → is_out k (at e r'.sent) ≡ false)

  Answered-Judged :
      (ns : List ℕ) (e : Epoch) (m : RangeSet) (r : Recovery C) (q : Option Error × Recovery C)
      → at e r.largest_sent_pkt ≡ greatest ns
      → Answered e m r q
      → Judged ns e m r q
  Answered-Judged ns e m r (some x, r') g (invalid, (k, held, above), same) =
      (invalid, (k, held, greatest-All k ns (omega arith)), same)
  Answered-Judged ns e m r (none, r') g (below, out) =
      (λ k held. greatest-Covered k ns (omega (arith, below k held)), out)

module _ {C : Type 0} (Sound : ℕ → ℕ → C → Type 0) (control : CongestionControl C)
    (scales : Scales) where
  -- The numbers of the packets that a run sent, by epoch.
  abbrev pub numbers :
      {budget : ℕ} {r : Recovery C} → Runs Sound control scales budget r → PerEpoch (List ℕ)
  numbers (begun bound c now s w) = each []
  numbers (handled event q run a e) = note event (numbers run)

  sent_in_flight-Top :
      (t : PerEpoch ℕ) (p : Sent) (e : Epoch) (h : Bool) (now : ℕ) (r : Recovery C)
      → Top t r
      → Top t (sent_in_flight control scales p e h now r)
  unfolding sent_in_flight
  sent_in_flight-Top t p e h now r k =
      timer-Top control scales t h
        (record r {
          time_of_last_sent_ack_eliciting_pkt =
              if p.ack_eliciting
              then put e (some now) r.time_of_last_sent_ack_eliciting_pkt
              else r.time_of_last_sent_ack_eliciting_pkt;
          app_limited =
              ltb ((control.bytes_in_flight r.cc + p.size + 1350) % 2 ^ 64) (control.cwnd r.cc);
          cc = if is_counted e then control.on_packet_sent_cc p p.size r.cc else r.cc;
        })
        k

  either :
      (t : PerEpoch ℕ) (b : Bool) (r s : Recovery C)
      → Top t r
      → Top t s
      → Top t (if b then r else s)
  either t true r s h k = h
  either t false r s h k = k

  on_packet_sent-Top :
      (p : Sent) (e : Epoch) (h : Bool) (now : ℕ) (r : Recovery C)
      → Top
          (put e (max (at e r.largest_sent_pkt) p.pkt_num) r.largest_sent_pkt)
          (on_packet_sent control scales p e h now r)
  unfolding on_packet_sent
  on_packet_sent-Top p e h now r =
      let t = put e (max (at e r.largest_sent_pkt) p.pkt_num) r.largest_sent_pkt in
      let r1 : Recovery C = record r {
        pns_in_fec_group = sent_in_group p.fec_info p.pkt_num r.pns_in_fec_group;
        largest_sent_pkt = t;
        total_pkt_nums = (r.total_pkt_nums + 1) % 2 ^ 64;
      } in
      either t p.in_flight (sent_in_flight control scales p e h now r1) r1
        (sent_in_flight-Top t p e h now r1 refl) refl

  unwrap :
      (t : PerEpoch ℕ) (x : Result (Recovery C))
      → TopOk t x
      → TopWith {A = Option Error} t (x >>= λ r. ok (none, r))
  unwrap t (ok r) h = h
  unwrap t (err e) h = tt
  unwrap t panic h = tt

  handle-AreGreatest :
      (event : Event) (r : Recovery C) (q : Option Error × Recovery C) (x : PerEpoch (List ℕ))
      → handle control scales event r ≡ ok q
      → AreGreatest r.largest_sent_pkt x
      → AreGreatest q.1.largest_sent_pkt (note event x)
  unfolding handle drop_unacked_data
  handle-AreGreatest (Event.packet_sent p e h now) r q x run g =
      let top =
        subst (TopWith (put e (max (at e r.largest_sent_pkt) p.pkt_num) r.largest_sent_pkt)) run
          (on_packet_sent-Top p e h now r) in
      subst (λ t. AreGreatest t (put e (p.pkt_num ∷ at e x) x)) (sym top)
        (put-AreGreatest e p.pkt_num r.largest_sent_pkt x g)
  handle-AreGreatest (Event.ack_received clock m delay e h now) r q x run g =
      let top =
        subst (TopWith r.largest_sent_pkt) run
          (on_ack_received-Top control scales r.largest_sent_pkt clock m delay e h now r refl) in
      subst (λ t. AreGreatest t x) (sym top) g
  handle-AreGreatest (Event.timed_out h now) r q x run g =
      let top = subst (TopWith r.largest_sent_pkt) run (
        unwrap r.largest_sent_pkt (on_loss_detection_timeout control scales h now r)
          (on_loss_detection_timeout-Top control scales r.largest_sent_pkt h now r refl)) in
      subst (λ t. AreGreatest t x) (sym top) g
  handle-AreGreatest (Event.dropped e) r q x run g =
      let same : Top r.largest_sent_pkt (drop_unacked_data control scales e r) = refl in
      let top = subst (TopWith r.largest_sent_pkt) run same in
      subst (λ t. AreGreatest t x) (sym top) g

  Runs-AreGreatest :
      {budget : ℕ} {r : Recovery C} (run : Runs Sound control scales budget r)
      → AreGreatest r.largest_sent_pkt (numbers run)
  unfolding at
  Runs-AreGreatest (begun bound c now s w) = record { each_epoch = nothing }
    where
      nothing : (e : Epoch) → at e (each {A = ℕ} 0) ≡ greatest (at e (each []))
      nothing initial = refl
      nothing handshake = refl
      nothing application = refl
  Runs-AreGreatest (handled {budget} {r} event q run a e) =
      handle-AreGreatest event r q (numbers run) e (Runs-AreGreatest run)

  -- In every reached state, take an acknowledgement of a set of separated, nonempty ranges below
  -- 2 ^ 64 that holds a number. It neither panics nor runs out of fuel. If it is refused, it is as an
  -- invalid packet, the set holds a number above all that were sent in the epoch, and the same
  -- packets are out. If it is taken, every number of the set is at most one that was sent in the
  -- epoch, or is 0, which passes even where nothing was sent; and no packet of the set is out.
  pub on_ack_received-Judged :
      (laws : KeepsFlight control Sound) {budget : ℕ} {r : Recovery C}
      (run : Runs Sound control scales budget r) (clock : ℕ → ℕ) (m : RangeSet) (y delay : ℕ)
      (e : Epoch) (h : Bool) (now : ℕ)
      → IsSeparated m
      → IsFull m
      → Holds y m
      → (q : Option Error × Recovery C) × (on_ack_received control scales clock m delay e h now r
          ≡ ok q)
        × Judged (at e (numbers run)) e m r q
  on_ack_received-Judged laws {budget} {r} run clock m y delay e h now sep full i =
      let (q, done, _, a) =
        on_ack_received-Answered Sound control laws scales clock m y delay e h now r sep full i
          (Runs-Tracks Sound control scales laws run) in
      (
        q,
        done,
        Answered-Judged (at e (numbers run)) e m r q ((Runs-AreGreatest run).each_epoch e) a,
      )
