-- ===== src/Cc/Hystart/Round.antt =====
-- The samples of a round, and what they say where LSS starts.
use dtp.Base.{
  ℕ, ◌+◌, ◌*◌, ◌/◌, ◌%◌, ◌^◌, ◌≤◌, ◌<◌, ◌≡◌, ◌∙◌, refl, ap, sym, min, max, Bool, true, false, ◌&&◌,
  Option, none, some, List, [], ◌∷◌, leb, leb→le, subst, length, All, arith, Bool-cases, inl, inr,
}
use dtp.Cc.Hystart.{
  Hystart, min_rtt_thresh, max_rtt_thresh, n_rtt_sample, low_cwnd, start_round, least_rtt, can_exit,
  sample, try_enter_lss,
}

-- The states of a round after the round trip times `rtts`, the last one first; `last` is the least
-- of the round before.
pub data Samples (last : Option ℕ) : List ℕ → Hystart → Type 0 where
  begun :
      (pkt_num : ℕ) (h : Hystart)
      → h.window_end ≡ none
      → h.current_round_min_rtt ≡ last
      → Samples last [] (start_round pkt_num h)
  sampled :
      {rtts : List ℕ} {h : Hystart} (pkt_num rtt cwnd now max_datagram_size : ℕ)
      → Samples last rtts h
      → length rtts < 2 ^ 32
      → h.lss_start_time ≡ none
      → Samples last (rtt ∷ rtts) (try_enter_lss pkt_num rtt cwnd now max_datagram_size h).1

abbrev pub least : List ℕ → Option ℕ
least [] = none
least (r ∷ rs) = some (least_rtt (least rs) r)

pub record IsRound (last : Option ℕ) (rtts : List ℕ) (h : Hystart) : Type 0 where
  pub known : h.last_round_min_rtt ≡ last
  pub current : h.current_round_min_rtt ≡ least rtts
  pub counted : h.rtt_sample_count ≡ length rtts

-- A bound of the least is a bound of all.
least_rtt-All : (b r : ℕ) (rs : List ℕ) → b ≤ least_rtt (least rs) r → (b ≤ r) × All (λ x. b ≤ x) rs
least_rtt-All b r [] h = (h, tt)
least_rtt-All b r (x ∷ rs) h =
    let (p, q) = least_rtt-All b x rs (omega arith) in (omega arith, (p, q))

and_left : (a b : Bool) → (a && b) ≡ true → a ≡ true
and_left true b e = refl
and_left false b e = cc

and_right : (a b : Bool) → (a && b) ≡ true → b ≡ true
and_right true b e = e
and_right false b e = cc

start_round_lem :
    (pkt_num : ℕ) (h : Hystart)
    → h.window_end ≡ none
    → start_round pkt_num h ≡ record h {
      window_end = some pkt_num;
      last_round_min_rtt = h.current_round_min_rtt;
      current_round_min_rtt = none;
      rtt_sample_count = 0;
      lss_start_time = none;
    }
unfolding start_round
start_round_lem pkt_num h e = rw (start_round, e) refl

try_enter_lss_lem :
    (pkt_num rtt cwnd now max_datagram_size : ℕ) (h : Hystart)
    → h.lss_start_time ≡ none
    → (try_enter_lss pkt_num rtt cwnd now max_datagram_size h).1
      ≡ sample pkt_num rtt cwnd now max_datagram_size h
unfolding try_enter_lss
try_enter_lss_lem pkt_num rtt cwnd now max_datagram_size h e = rw (try_enter_lss, e) refl

Samples-IsRound :
    (last : Option ℕ) {rtts : List ℕ} {h : Hystart} → Samples last rtts h → IsRound last rtts h
unfolding sample
Samples-IsRound last (begun pkt_num h e f) =
    rw (start_round_lem pkt_num h e) record { known = f; current = refl; counted = refl }
Samples-IsRound last (sampled {rtts} {h} pkt_num rtt cwnd now size r n e) =
    let s = Samples-IsRound last r in
    let c = s.counted in
    rw (try_enter_lss_lem pkt_num rtt cwnd now size h e) record {
      known = s.known;
      current = ap (λ o. some (least_rtt o rtt)) s.current;
      counted = omega (arith, c);
    }

-- The least round trip time that LSS asks for after a round with the least time `l`.
abbrev pub threshold : ℕ → ℕ
threshold l = l + min (max (l / 8) min_rtt_thresh) max_rtt_thresh

can_exit-true :
    (cwnd size count current : ℕ) (last : Option ℕ)
    → can_exit cwnd size count current last ≡ true
    → (8 ≤ count) × (l : ℕ) × (last ≡ some l) × (threshold l ≤ current)
can_exit-true cwnd size count current none e = cc
can_exit-true cwnd size count current (some l) e = (
  leb→le n_rtt_sample count (
      and_left (leb n_rtt_sample count) (leb (threshold l) current) (
        and_right (leb ((low_cwnd * size) % 2 ^ 64) cwnd)
          (leb n_rtt_sample count && leb (threshold l) current) e)),
  l,
  refl,
  leb→le (threshold l) current (
      and_right (leb n_rtt_sample count) (leb (threshold l) current) (
        and_right (leb ((low_cwnd * size) % 2 ^ 64) cwnd)
          (leb n_rtt_sample count && leb (threshold l) current) e)),
)

sample-none :
    (pkt_num rtt cwnd now size : ℕ) (h : Hystart)
    → can_exit cwnd size
        ((h.rtt_sample_count + 1) % 2 ^ 64)
        (least_rtt h.current_round_min_rtt rtt)
        h.last_round_min_rtt
      ≡ false
    → h.lss_start_time ≡ none
    → (sample pkt_num rtt cwnd now size h).lss_start_time ≡ none
unfolding sample
sample-none pkt_num rtt cwnd now size h x e = rw (sample, x) e

-- Where LSS has started in a round, the round has eight samples at least, the round before has a
-- least round trip time, and every sample of the round exceeds it by the threshold: an eighth of
-- it, between 4 and 16 milliseconds.
pub Samples-All :
    (last : Option ℕ) {rtts : List ℕ} {h : Hystart} (t : ℕ)
    → Samples last rtts h
    → h.lss_start_time ≡ some t
    → (8 ≤ length rtts) × (l : ℕ) × (last ≡ some l) × All (λ r. threshold l ≤ r) rtts
unfolding sample
Samples-All last t (begun pkt_num h e f) g =
    let e' = ap (λ (x : Hystart). x.lss_start_time) (start_round_lem pkt_num h e) in cc
Samples-All last t (sampled {rtts} {h} pkt_num rtt cwnd now size r n e) g =
    let s = Samples-IsRound last r in
    let c = s.counted in
    let count = (h.rtt_sample_count + 1) % 2 ^ 64 in
    let current = least_rtt h.current_round_min_rtt rtt in
    let g' =
      sym (ap (λ (x : Hystart). x.lss_start_time) (try_enter_lss_lem pkt_num rtt cwnd now size h e))
      ∙ g in
    elim (Bool-cases (can_exit cwnd size count current h.last_round_min_rtt)) [
      | inl x ↦
          let (k, l, known, low) = can_exit-true cwnd size count current h.last_round_min_rtt x in
          let low' = subst (λ o. threshold l ≤ least_rtt o rtt) s.current low in
          (omega (arith, c, k), l, sym s.known ∙ known, least_rtt-All (threshold l) rtt rtts low')
      | inr x ↦ let stays = sample-none pkt_num rtt cwnd now size h x e in cc
    ]
