-- ===== src/Fec/Group/Missing.antt =====
-- A group without the feature `fec`, which restores nothing.
use dtp.Base.{
  ℕ, zero, suc, ◌+◌, ◌<◌, ◌≡◌, refl, sym, true, false, Option, none, some, List, [], ◌∷◌, ◌++◌,
  lt→ltb, ◌==◌, length, length-append, append_assoc, ok, panic, arith,
}
use dtp.Fec.Group.{FecGroup, nth, empty_from, take_shards, reconstructed, reconstruct}
use dtp.Fec.Group.Shards.{nth-append}

-- The first number of `empty` is one of a missing shard.
empty_from-cons :
    (pre p : List (Option (List ℕ))) (i j m : ℕ)
    → i ≡ length pre
    → nth p j ≡ ok none
    → i + j < m
    → (k : ℕ) × (ks : List ℕ) × (empty_from m i p ≡ k ∷ ks) × (nth (pre ++ p) k ≡ ok none)
unfolding empty_from nth
empty_from-cons pre [] i j m l e h = cc
empty_from-cons pre (some y ∷ p) i zero m l e h = cc
empty_from-cons pre (none ∷ p) i j m l e h =
    (i, empty_from m (suc i) p, rw (lt→ltb i m (omega arith)) refl, rw l (nth-append pre p none))
empty_from-cons pre (some y ∷ p) i (suc j) m l e h = rw (sym (append_assoc pre (some y ∷ []) p)) (
    empty_from-cons (pre ++ (some y ∷ [])) p (suc i) j m
      (omega (arith, length-append {0} pre (some y ∷ []))) e (omega arith))

reconstruct_lem :
    (g : FecGroup) (k : ℕ) (ks : List ℕ)
    → g.r.reconstruct_data g.shards ≡ (true, g.shards)
    → empty_from g.info.m 0 g.shards ≡ k ∷ ks
    → nth g.shards k ≡ ok none
    → (reconstruct g).0 ≡ panic
unfolding reconstruct reconstructed take_shards
reconstruct_lem g k ks r e n =
    let more : (suc (length ks) == 0) ≡ false = ground arith in
    rw (reconstruct, e, more, r, reconstructed, e, take_shards, n) refl

-- Where the algorithm succeeds and restores nothing, as `RSFec` does without the feature `fec`,
-- `reconstruct` panics as soon as one of the first `m` shards is missing.
pub reconstruct-Panics :
    (g : FecGroup) (j : ℕ)
    → g.r.reconstruct_data g.shards ≡ (true, g.shards)
    → j < g.info.m
    → nth g.shards j ≡ ok none
    → (reconstruct g).0 ≡ panic
reconstruct-Panics g j r h e =
    let (k, ks, first, there) = empty_from-cons [] g.shards 0 j g.info.m refl e (omega arith) in
    reconstruct_lem g k ks r first there
