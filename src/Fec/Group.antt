-- ===== src/Fec/Group.antt =====
-- src/fec.rs, `FecGroup`: the shards of a group, at the sender or at the receiver.
pub mod Shards
pub mod Recover
pub mod Receive
pub mod Missing
use dtp.Base.{
  ℕ, zero, suc, ◌+◌, ◌-◌, ◌%◌, Bool, true, false, ◌&&◌, Option, none, some, List, [], ◌∷◌, ltb, leb,
  ◌==◌, if◌then◌else◌, length, set, replicate, Result, ok, err, panic,
}
use dtp.Fec.{FecStatus, FecFrame, FecAlgorithm}

pub record FecGroup : Type 0 where
  pub info : FecStatus
  pub shard_size : ℕ
  pub r : FecAlgorithm
  pub next_index : ℕ
  pub shards : List (Option (List ℕ))
  pub restored : Bool

-- `FecGroup::new`, with the algorithm that `RSFec::new` makes, or a panic.
unfoldable pub fec_group : (ℕ → ℕ → Option FecAlgorithm) → FecStatus → ℕ → Result FecGroup
fec_group make info shard_size = elim (make info.m info.n) [
  | none ↦ panic
  | some r ↦ ok (record {
    info = info;
    shard_size = shard_size;
    r = r;
    next_index = 0;
    shards = replicate (info.m + info.n) none;
    restored = false;
  })
]

-- The four assertions of `feed_fec_frame`.
unfoldable pub fits : FecFrame → FecGroup → Bool
fits frame g =
    (frame.info.m == g.info.m)
    && ((frame.info.n == g.info.n)
        && ((frame.info.group_id == g.info.group_id) && (length frame.bytes == g.shard_size)))

unfoldable pub feed_fec_frame : FecFrame → FecGroup → Result FecGroup
unfolding fits
feed_fec_frame frame g =
    if fits frame g && ltb frame.info.index (length g.shards)
    then ok (record g {
      info = record g.info { index = frame.info.index };
      shards = set g.shards frame.info.index (some frame.bytes);
    })
    else panic

unfoldable pub full : FecGroup → Bool
full g = leb g.info.m g.next_index

-- The shards with zeros for those that are missing.
unfoldable pub filled : ℕ → List (Option (List ℕ)) → List (List ℕ)
filled shard_size [] = []
filled shard_size (none ∷ shards) = replicate shard_size 0 ∷ filled shard_size shards
filled shard_size (some x ∷ shards) = x ∷ filled shard_size shards

unfoldable pub nth : {A : Type 0} → List A → ℕ → Result A
nth [] i = panic
nth (x ∷ xs) zero = ok x
nth (x ∷ xs) (suc i) = nth xs i

abbrev pub and_then : {A B : Type 0} → Result A → (A → Result B) → Result B
and_then (ok a) k = k a
and_then (err e) k = err e
and_then panic k = panic

-- The `for` loop of `encode`, for `count` numbers from `index` on.
unfoldable pub redundancy : FecStatus → List (List ℕ) → ℕ → ℕ → Result (List FecFrame)
unfolding nth
redundancy info shards index zero = ok []
redundancy info shards index (suc count) = and_then (nth shards index) (λ x.
    and_then (redundancy info shards (suc index) count)
      (λ frames. ok (record { info = record info { index = index }; bytes = x } ∷ frames)))

unfoldable pub encoded : FecStatus → Bool × List (List ℕ) → Result (List FecFrame)
unfolding redundancy
encoded info (true, shards) = redundancy info shards info.m ((info.m + info.n) % 256 - info.m)
encoded info (false, shards) = panic

-- The sum of `m` and `n`, bytes, wraps around.
unfoldable pub encode : FecGroup → Result (List FecFrame)
unfolding filled encoded
encode g = encoded g.info (g.r.encode_shards (filled g.shard_size g.shards))

unfoldable pub verify : FecGroup → Result (Unit {0})
unfolding filled
verify g = if (g.r.verify_shards (filled g.shard_size g.shards)).0 then ok tt else panic

-- The first loop of `reconstruct`, from the index `i` on.
unfoldable pub empty_from : ℕ → ℕ → List (Option (List ℕ)) → List ℕ
empty_from m i [] = []
empty_from m i (some x ∷ shards) = empty_from m (suc i) shards
empty_from m i (none ∷ shards) =
    let rest = empty_from m (suc i) shards in if ltb i m then i ∷ rest else rest

-- The second loop; `unwrap` panics without the shard.
abbrev pub unwrap : {A : Type 0} → Option A → Result A
unwrap none = panic
unwrap (some a) = ok a

unfoldable pub take_shards : List (Option (List ℕ)) → List ℕ → Result (List (List ℕ))
unfolding nth
take_shards shards [] = ok []
take_shards shards (i ∷ is) =
    and_then (nth shards i)
      (λ o. and_then (unwrap o) (λ x. and_then (take_shards shards is) (λ xs. ok (x ∷ xs))))

unfoldable pub reconstructed :
    List ℕ → FecGroup → Bool × List (Option (List ℕ)) → Result (Option (List (List ℕ))) × FecGroup
unfolding take_shards
reconstructed empty g (true, shards) =
    (and_then (take_shards shards empty) (λ xs. ok (some xs)), record g { shards = shards })
reconstructed empty g (false, shards) = (ok none, record g { shards = shards })

unfoldable pub reconstruct : FecGroup → Result (Option (List (List ℕ))) × FecGroup
unfolding empty_from reconstructed
reconstruct g =
    let empty = empty_from g.info.m 0 g.shards in
    if length empty == 0
    then (ok none, g)
    else reconstructed empty g (g.r.reconstruct_data g.shards)
