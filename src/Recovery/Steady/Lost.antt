-- ===== src/Recovery/Steady/Lost.antt =====
-- Lost packets.
use dtp.Base.{ℕ, Option, none, some, List, [], ◌∷◌, ◌==◌, ok, Bool-cases, Option-cases, inl, inr}
use dtp.Base.Maps.{lookup}
use dtp.Recovery.{Epoch, PerEpoch, at, Sent, find, CongestionControl, Scales, Recovery}
use dtp.Recovery.Losses.{
  lost_in_group, uncount, lose, lose_each, after_losses, in_persistent_congestion, on_packets_lost,
  detect_lost_packets,
}
use dtp.Recovery.Steady.{Top, TopOk, TopWith, then_with, with_ok, with_with}

module _ {C : Type 0} (control : CongestionControl C) (scales : Scales) (t : PerEpoch ℕ) where
  lost_in_group-Top :
      (p : Sent) (r : Recovery C) → Top t r → TopOk t (lost_in_group control scales p r)
  unfolding lost_in_group
  lost_in_group-Top p r h = elim (Bool-cases (p.fec_info.group_id == 0)) [
    | inl z ↦ rw (lost_in_group, z) h
    | inr z ↦ elim (Option-cases (lookup p.fec_info.group_id r.pns_in_fec_group)) [
      | inl e ↦ rw (lost_in_group, z, e) tt
      | inr (g, e) ↦ rw (lost_in_group, z, e) h
    ]
  ]

  lose-Top :
      (e : Epoch) (p : Sent) (last : Option Sent) (r : Recovery C)
      → Top t r
      → TopWith t (lose control scales e p last r)
  unfolding lose uncount
  lose-Top e p last r h = elim (Bool-cases p.in_flight) [
    | inr z ↦ rw (lose, z) h
    | inl z ↦ rw (lose, z) (then_with t _ _ (lost_in_group-Top p _ h) (λ r2 h2. h2))
  ]

  lose_each-Top :
      (e : Epoch) (ks : List ℕ) (last : Option Sent) (r : Recovery C)
      → Top t r
      → TopWith t (lose_each control scales e ks last r)
  unfolding lose_each
  lose_each-Top e [] last r h = h
  lose_each-Top e (k ∷ ks) last r h = elim (Option-cases (find k (at e r.sent))) [
    | inl z ↦ rw (lose_each, z) tt
    | inr (p, z) ↦
        rw (lose_each, z)
          (with_with t (lose control scales e p last r) _ (lose-Top e p last r h)
            (λ q r2 h2. lose_each-Top e ks q r2 h2))
  ]

  after_losses-Top :
      (e : Epoch) (now : ℕ) (o : Option Sent) (r : Recovery C)
      → Top t r
      → Top t (after_losses control scales e now o r)
  unfolding after_losses in_persistent_congestion
  after_losses-Top e now none r h = h
  after_losses-Top e now (some p) r h = h

  on_packets_lost-Top :
      (ks : List ℕ) (e : Epoch) (now : ℕ) (r : Recovery C)
      → Top t r
      → TopOk t (on_packets_lost control scales ks e now r)
  unfolding on_packets_lost
  on_packets_lost-Top ks e now r h =
      with_ok t (lose_each control scales e ks none r) _ (lose_each-Top e ks none r h)
        (λ o r2 h2. after_losses-Top e now o r2 h2)

  lost_or_not :
      (e : Epoch) (now : ℕ) (ks : List ℕ) (r : Recovery C)
      → Top t r
      → TopOk t (elim ks [ [] ↦ ok r | k ∷ ks ↦ on_packets_lost control scales (k ∷ ks) e now r ])
  lost_or_not e now [] r h = h
  lost_or_not e now (k ∷ ks) r h = on_packets_lost-Top (k ∷ ks) e now r h

  pub detect_lost_packets-Top :
      (e : Epoch) (now : ℕ) (r : Recovery C)
      → Top t r
      → TopOk t (detect_lost_packets control scales e now r)
  unfolding detect_lost_packets
  detect_lost_packets-Top e now r h = lost_or_not e now _ _ h
