-- ===== src/Fec/Group/Recover.antt =====
-- The shards of a group: encoded by the sender, and restored by the receiver.
use dtp.Base.{
  ℕ, zero, suc, ◌+◌, ◌-◌, ◌≤◌, ◌<◌, ◌%◌, ◌≡◌, refl, ap, ◌∙◌, true, false, Option, none, some, List,
  [], ◌∷◌, ◌==◌, length, take, length-replicate, ok, arith,
}
use dtp.Fec.{FecStatus, FecFrame}
use dtp.Fec.Group.{
  FecGroup, filled, nth, redundancy, encoded, encode, empty_from, take_shards, reconstructed,
  reconstruct,
}
use dtp.Fec.Group.Shards.{Agrees, present, lost, Sized, IsErasureCode, take_shards-lost}

-- An answer of `reconstruct`: nothing where nothing is missing.
abbrev pub answer : List (List ℕ) → Option (List (List ℕ))
answer [] = none
answer (x ∷ xs) = some (x ∷ xs)

reconstructed_lem :
    (empty : List ℕ) (xs : List (List ℕ)) (g : FecGroup) (q : List (Option (List ℕ)))
    → take_shards q empty ≡ ok xs
    → (reconstructed empty g (true, q)).0 ≡ ok (some xs)
unfolding reconstructed
reconstructed_lem empty xs g q e = rw e refl

-- Let the algorithm be an erasure code. Where the shards of a group are of a coded vector and at
-- least `m` of them are there, `reconstruct` does not panic: it returns the data shards that are
-- missing, in order, or nothing if none is.
pub reconstruct-Recovers :
    (g : FecGroup) (n size : ℕ) (v w : List (List ℕ))
    → IsErasureCode g.r g.info.m n size
    → length v ≡ g.info.m + n
    → Sized size v
    → g.r.encode_shards v ≡ (true, w)
    → Agrees g.shards w
    → g.info.m ≤ present g.shards
    → (reconstruct g).0 ≡ ok (answer (lost g.info.m g.shards w))
unfolding reconstruct
reconstruct-Recovers g n size v w code l sz e a h =
    let (q, restored, data_there) = code.restores v w g.shards l sz e a h in
    let (run, len) =
      take_shards-lost [] g.shards q w 0 g.info.m g.info.m refl (omega arith) a data_there in
    go q restored (lost g.info.m g.shards w) run len
  where
    go :
        (q : List (Option (List ℕ)))
        → g.r.reconstruct_data g.shards ≡ (true, q)
        → (xs : List (List ℕ)) → take_shards q (empty_from g.info.m 0 g.shards) ≡ ok xs
        → length (empty_from g.info.m 0 g.shards) ≡ length xs
        → (reconstruct g).0 ≡ ok (answer xs)
    go q restored [] run len = rw len refl
    go q restored (x ∷ xs) run len =
        let more : (suc (length xs) == 0) ≡ false = ground arith in
        rw (len, more, restored)
          (reconstructed_lem (empty_from g.info.m 0 g.shards) (x ∷ xs) g q run)

-- The frames carry the shards of the vector from the index `i` on.
abbrev pub Redundant : FecStatus → ℕ → List (List ℕ) → List FecFrame → Type 0
Redundant info i w [] = Unit {0}
Redundant info i w (f ∷ fs) =
    (f.info ≡ record info { index = i }) × (nth w i ≡ ok f.bytes) × Redundant info (suc i) w fs

nth_ok : (w : List (List ℕ)) (i : ℕ) → i < length w → (x : List ℕ) × (nth w i ≡ ok x)
unfolding nth
nth_ok [] i h = absurd (omega arith)
nth_ok (x ∷ w) zero h = (x, refl)
nth_ok (x ∷ w) (suc i) h = nth_ok w i (omega arith)

redundancy-cons :
    (info : FecStatus) (w : List (List ℕ)) (i count : ℕ) (x : List ℕ) (fs : List FecFrame)
    → nth w i ≡ ok x
    → redundancy info w (suc i) count ≡ ok fs
    → redundancy info w i (suc count)
      ≡ ok (record { info = record info { index = i }; bytes = x } ∷ fs)
unfolding redundancy
redundancy-cons info w i count x fs e f = rw (redundancy, e, f) refl

redundancy-Redundant :
    (info : FecStatus) (w : List (List ℕ)) (i count : ℕ)
    → i + count ≤ length w
    → (fs : List FecFrame) × (redundancy info w i count ≡ ok fs)
      × (length fs ≡ count)
      × Redundant info i w fs
unfolding redundancy
redundancy-Redundant info w i zero h = ([], refl, refl, tt)
redundancy-Redundant info w i (suc count) h =
    let (x, e) = nth_ok w i (omega arith) in
    let (fs, run, l, r) = redundancy-Redundant info w (suc i) count (omega arith) in
    (
      record { info = record info { index = i }; bytes = x } ∷ fs,
      redundancy-cons info w i count x fs e run,
      ap suc l,
      (refl, e, r),
    )

-- The shards that are there have this many bytes.
abbrev pub PartSized : ℕ → List (Option (List ℕ)) → Type 0
PartSized size [] = Unit {0}
PartSized size (none ∷ p) = PartSized size p
PartSized size (some x ∷ p) = (length x ≡ size) × PartSized size p

filled-Sized :
    (size : ℕ) (p : List (Option (List ℕ)))
    → PartSized size p
    → Sized size (filled size p) × (length (filled size p) ≡ length p)
unfolding filled
filled-Sized size [] h = (tt, refl)
filled-Sized size (none ∷ p) h =
    let (s, l) = filled-Sized size p h in ((length-replicate size 0, s), ap suc l)
filled-Sized size (some x ∷ p) h = let (s, l) = filled-Sized size p h.1 in ((h.0, s), ap suc l)

encode_lem :
    (g : FecGroup) (w : List (List ℕ)) (fs : List FecFrame)
    → g.r.encode_shards (filled g.shard_size g.shards) ≡ (true, w)
    → (g.info.m + g.info.n) % 256 - g.info.m ≡ g.info.n
    → redundancy g.info w g.info.m g.info.n ≡ ok fs
    → encode g ≡ ok fs
unfolding encode encoded
encode_lem g w fs e n run = rw (encode, e, encoded, n) run

-- Let the algorithm be an erasure code. Where the group has `m + n` shards, fewer than 256, and
-- those that are there have the size of the group, `encode` does not panic: it returns `n`
-- frames, which carry the shards from the index `m` on of a coded vector. That vector begins with
-- the `m` data shards, with zeros for those that are missing.
pub encode-Redundant :
    (g : FecGroup)
    → IsErasureCode g.r g.info.m g.info.n g.shard_size
    → length g.shards ≡ g.info.m + g.info.n
    → PartSized g.shard_size g.shards
    → g.info.m + g.info.n < 256
    → (w : List (List ℕ)) × (fs : List FecFrame) × (encode g ≡ ok fs)
      × (g.r.encode_shards (filled g.shard_size g.shards) ≡ (true, w))
      × (take g.info.m w ≡ take g.info.m (filled g.shard_size g.shards))
      × (length fs ≡ g.info.n)
      × Redundant g.info g.info.m w fs
encode-Redundant g code l p b =
    let (sz, len) = filled-Sized g.shard_size g.shards p in
    let (w, e, lw, same) = code.encodes (filled g.shard_size g.shards) (len ∙ l) sz in
    let n : (g.info.m + g.info.n) % 256 - g.info.m ≡ g.info.n = omega arith in
    let (fs, run, lf, r) = redundancy-Redundant g.info w g.info.m g.info.n (omega arith) in
    (w, fs, encode_lem g w fs e n run, e, same, lf, r)
