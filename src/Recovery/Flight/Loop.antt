-- ===== src/Recovery/Flight/Loop.antt =====
-- The loop over the acknowledged numbers, which stops early, against the set of all of them.
use dtp.Base.{
  ℕ, zero, suc, ◌≤◌, ◌<◌, ◌≡◌, inl, inr, refl, sym, ap, ◌∙◌, ◌≢◌, subst, ◌&&◌, ◌||◌, not, Bool,
  true, false, some, [], ◌∷◌, List, ◌==◌, ltb→lt, ok, arith, Bool-cases, Option-cases,
}
use dtp.Ranges.{Flatten, flatten_next_back}
use dtp.Ranges.Descend.{left, Left, IsDescending, Steps, flatten_next_back-Steps}
use dtp.Recovery.{Epoch, Sent, at, CongestionControl, Scales, Recovery}
use dtp.Recovery.Acks.{below_lowest, ack_loop}
use dtp.Recovery.Reno.{KeepsFlight}
use dtp.Recovery.Packets.{is_out, IsAscending, All-imp, not_out}
use dtp.Recovery.Flight.{Tracks}
use dtp.Recovery.Flight.Acked.{Removed, on_packet_acked-Tracks}

below_lowest_lem :
    (x pn : ℕ) (ps : List Sent)
    → IsAscending ps
    → below_lowest pn ps ≡ true
    → x ≤ pn
    → is_out x ps ≡ false
unfolding below_lowest
below_lowest_lem x pn [] a b h = cc
below_lowest_lem x pn (p ∷ ps) a b h =
    let l = ltb→lt pn p.pkt_num b in
    not_out x (p ∷ ps) (omega arith, All-imp ps (λ q k. omega arith) a.0)

not_itself : (b : Bool) (k : ℕ) → (b && not (k == k)) ≡ false
not_itself b k = ground arith

other : (b : Bool) (x k : ℕ) → x ≢ k → (b && not (x == k)) ≡ b
other b x k h = ground (arith, h)

was : (a b : Bool) → b ≡ true → (a || b) ≡ true
was a b h = ground (arith, h)

-- Of the packets that are out, those that the iterator has left are acknowledged, and the others
-- stay; the loop reports if there was one.
pub record Acknowledged {C : Type 0} (e : Epoch) (f : Flatten) (newly : Bool) (r : Recovery C)
    (q : Bool × Recovery C) : Type 0 where
  pub acked : (x : ℕ) → Left x f → is_out x (at e q.1.sent) ≡ false
  pub stays : (x : ℕ) → (Left x f → ⊥) → is_out x (at e q.1.sent) ≡ is_out x (at e r.sent)
  pub still : newly ≡ true → q.0 ≡ true
  pub reports : (x : ℕ) → Left x f → is_out x (at e r.sent) ≡ true → q.0 ≡ true

none-Acknowledged :
    {C : Type 0} (e : Epoch) (f : Flatten) (newly : Bool) (r : Recovery C)
    → ((x : ℕ) → Left x f → is_out x (at e r.sent) ≡ false)
    → Acknowledged e f newly r (newly, r)
none-Acknowledged e f newly r h = record {
  acked = h;
  stays = λ x k. refl;
  still = λ k. k;
  reports = λ x k o. absurd (let z = h x k in cc);
}

top : (f f' : Flatten) (x k : ℕ) → Steps f (some (k, f')) → Left x f → x ≤ k
top f f' x k s l = elim (s.3 x l) [ inl z ↦ omega arith | inr m ↦ omega (arith, (s.4 x m).1) ]

module _ {C : Type 0} (Sound : ℕ → ℕ → C → Type 0) (control : CongestionControl C)
    (laws : KeepsFlight control Sound) (scales : Scales) where
  next-Acknowledged :
      (k : ℕ) (e : Epoch) (f f' : Flatten) (newly : Bool) (r : Recovery C) (p q : Bool × Recovery C)
      → Steps f (some (k, f'))
      → Removed Sound control laws scales k e p.0 r p.1
      → Acknowledged e f' (newly || p.0) p.1 q
      → Acknowledged e f newly r q
  next-Acknowledged k e f f' newly r p q (d, c, here, from, back) m a = record {
    acked = λ x h. elim (from x h) [
      | inl z ↦
          ap (λ y. is_out y (at e q.1.sent)) z
          ∙ a.stays k (λ l. omega (arith, (back k l).1))
          ∙ m.others k
          ∙ not_itself (is_out k (at e r.sent)) k
      | inr l ↦ a.acked x l
    ];
    stays = λ x h.
        a.stays x (λ l. h (back x l).0)
        ∙ m.others x
        ∙ other (is_out x (at e r.sent)) x k (λ z. h (subst (λ y. Left y f) (sym z) here));
    still = λ h. a.still (rw (h) refl);
    reports = λ x h o. elim (from x h) [
      | inl z ↦ a.still (was newly p.0 (m.was_out ∙ ap (λ y. is_out y (at e r.sent)) (sym z) ∙ o))
      | inr l ↦
          let b = (back x l).1 in
          a.reports x l (m.others x ∙ other (is_out x (at e r.sent)) x k (λ z. omega arith) ∙ o)
    ];
  }

  -- Let the invariant hold, and let the iterator go down over separated, nonempty ranges. With more
  -- fuel than numbers are left the loop ends without a panic and keeps the invariant. No number that
  -- the iterator has left is out afterwards in the epoch, though the loop stops at the first number
  -- below the lowest packet; every other is out exactly if it was before; and the loop reports a
  -- newly acknowledged packet if it was told of one or if one of the numbers was out.
  pub ack_loop-Acknowledged :
      {budget : ℕ} (fuel : ℕ) (e : Epoch) (clock : ℕ → ℕ) (f : Flatten) (newly : Bool)
      (r : Recovery C)
      → IsDescending f
      → left f < fuel
      → Tracks Sound budget 0 r
      → (q : Bool × Recovery C) × (ack_loop control scales fuel e clock f newly r ≡ ok q)
        × Tracks Sound budget 0 q.1
        × Acknowledged e f newly r q
  unfolding ack_loop
  ack_loop-Acknowledged zero e clock f newly r d h t = absurd (omega arith)
  ack_loop-Acknowledged {budget} (suc fuel) e clock f newly r d h t =
      elim (Option-cases (flatten_next_back f)) [
        | inl n ↦
            let s = subst (Steps f) n (flatten_next_back-Steps f d) in
            (
              (newly, r),
              rw (ack_loop, n) refl,
              t,
              none-Acknowledged e f newly r (λ x k. absurd (s.1 x k)),
            )
        | inr ((k, f'), n) ↦
            let s : Steps f (some (k, f')) = subst (Steps f) n (flatten_next_back-Steps f d) in
            elim (Bool-cases (below_lowest k (at e r.sent))) [
              | inl b ↦ (
                (newly, r),
                rw (ack_loop, n, b) refl,
                t,
                none-Acknowledged e f newly r
                    (λ x l. below_lowest_lem x k (at e r.sent) (t.fit e).0 b (top f f' x k s l)),
              )
              | inr b ↦
                  let (p, run, t', m) =
                    on_packet_acked-Tracks Sound control laws scales k e (clock k) r t in
                  let (q, run', t'', a) =
                    ack_loop-Acknowledged fuel e clock f' (newly || p.0) p.1 s.0
                      (omega (arith, s.1)) t' in
                  (
                    q,
                    rw (ack_loop, n, b, run) run',
                    t'',
                    next-Acknowledged k e f f' newly r p q s m a,
                  )
            ]
      ]
