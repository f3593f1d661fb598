-- ===== src/Fec/Group/Receive.antt =====
-- A new group that frames are fed to, in any order and as often as they come, and then restored.
use dtp.Base.{
  ℕ, zero, suc, ◌+◌, ◌≤◌, ◌<◌, ◌≡◌, refl, ap, sym, ◌∙◌, Bool, true, false, Option, none, some, List,
  [], ◌∷◌, lt→ltb, length, set, replicate, Result, ok, err, panic, arith, Bool-cases, inl, inr,
  if◌then◌else◌,
}
use dtp.Base.Maps.{has}
use dtp.Fec.{FecStatus, FecFrame, FecAlgorithm}
use dtp.Fec.Group.{FecGroup, fec_group, fits, feed_fec_frame, nth, and_then, reconstruct}
use dtp.Fec.Group.Shards.{Agrees, present, lost, Sized, IsErasureCode}
use dtp.Fec.Group.Recover.{answer, reconstruct-Recovers}

-- Those shards of `w`, from the number `i` on, whose number is one of `ids`.
abbrev pub kept : List ℕ → ℕ → List (List ℕ) → List (Option (List ℕ))
kept ids i [] = []
kept ids i (x ∷ w) = (if has i ids then some x else none) ∷ kept ids (suc i) w

kept-nil : (i k : ℕ) (w : List (List ℕ)) → length w ≡ k → kept [] i w ≡ replicate k none
unfolding has
kept-nil i zero [] e = refl
kept-nil i zero (x ∷ w) e = absurd (omega arith)
kept-nil i (suc k) [] e = absurd (omega arith)
kept-nil i (suc k) (x ∷ w) e = ap (λ t. none ∷ t) (kept-nil (suc i) k w (omega arith))

has_below : (k i : ℕ) (ids : List ℕ) → k < i → has i (k ∷ ids) ≡ has i ids
unfolding has
has_below k i ids h = ground arith

has_above : (k i : ℕ) (ids : List ℕ) → i < k → has i (k ∷ ids) ≡ has i ids
unfolding has
has_above k i ids h = ground arith

has_here : (i : ℕ) (ids : List ℕ) → has i (i ∷ ids) ≡ true
unfolding has
has_here i ids = ground arith

-- A number in front of all that are looked for.
kept_below :
    (k : ℕ) (ids : List ℕ) (i : ℕ) (w : List (List ℕ)) → k < i → kept (k ∷ ids) i w ≡ kept ids i w
kept_below k ids i [] h = refl
kept_below k ids i (x ∷ w) h =
    rw (has_below k i ids h) (
      ap (λ t. (if has i ids then some x else none) ∷ t) (kept_below k ids (suc i) w (omega arith)))

set-kept :
    (ids : List ℕ) (i j k : ℕ) (w : List (List ℕ)) (x : List ℕ)
    → k ≡ i + j
    → nth w j ≡ ok x
    → (set (kept ids i w) j (some x) ≡ kept (k ∷ ids) i w) × (j < length (kept ids i w))
unfolding nth
set-kept ids i j k [] x e h = cc
set-kept ids i zero k (y ∷ w) x e h =
    let same : k ≡ i = omega arith in
    let y_x : y ≡ x = cc in
    let head : (if has i (k ∷ ids) then some y else none) ≡ some x =
      rw (same, has_here i ids, y_x) refl in
    (
      ap (λ t. some x ∷ t) (sym (kept_below k ids (suc i) w (omega arith)))
          ∙ ap (λ o. o ∷ kept (k ∷ ids) (suc i) w) (sym head),
      omega arith,
    )
set-kept ids i (suc j) k (y ∷ w) x e h =
    let (rest, l) = set-kept ids (suc i) j k w x (omega arith) h in
    (
      rw (has_above k i ids (omega arith))
          (ap (λ t. (if has i ids then some y else none) ∷ t) rest),
      omega arith,
    )

kept-Agrees : (ids : List ℕ) (i : ℕ) (w : List (List ℕ)) → Agrees (kept ids i w) w
kept-Agrees ids i [] = tt
kept-Agrees ids i (x ∷ w) = elim (Bool-cases (has i ids)) [
  | inl e ↦ rw (e) (refl, kept-Agrees ids (suc i) w)
  | inr e ↦ rw (e) (kept-Agrees ids (suc i) w)
]

-- A group with the number of its last frame and its shards.
abbrev group_of : FecAlgorithm → FecStatus → ℕ → ℕ → List (Option (List ℕ)) → FecGroup
group_of r info size index shards = record {
  info = record info { index = index };
  shard_size = size;
  r = r;
  next_index = 0;
  shards = shards;
  restored = false;
}

-- Frames that come one after the other, and the numbers of their shards.
abbrev pub feed_all : List FecFrame → FecGroup → Result FecGroup
feed_all [] g = ok g
feed_all (f ∷ fs) g = and_then (feed_fec_frame f g) (feed_all fs)

abbrev pub indices : List FecFrame → List ℕ → List ℕ
indices [] ids = ids
indices (f ∷ fs) ids = indices fs (f.info.index ∷ ids)

abbrev last_index : List FecFrame → ℕ → ℕ
last_index [] index = index
last_index (f ∷ fs) index = last_index fs f.info.index

-- The frame is one of the group's and carries a shard of the vector.
abbrev pub Carries : FecStatus → ℕ → List (List ℕ) → FecFrame → Type 0
Carries info size w f =
    (f.info.m ≡ info.m)
    × (f.info.n ≡ info.n)
    × (f.info.group_id ≡ info.group_id)
    × (length f.bytes ≡ size)
    × (nth w f.info.index ≡ ok f.bytes)

abbrev pub AllCarry : FecStatus → ℕ → List (List ℕ) → List FecFrame → Type 0
AllCarry info size w [] = Unit {0}
AllCarry info size w (f ∷ fs) = Carries info size w f × AllCarry info size w fs

-- What a frame has that a group takes.
abbrev pub Fits : FecStatus → ℕ → FecFrame → Result FecGroup → Type 0
Fits info size f (ok _) =
    (f.info.m ≡ info.m)
    × (f.info.n ≡ info.n)
    × (f.info.group_id ≡ info.group_id)
    × (length f.bytes ≡ size)
    × (f.info.index < info.m + info.n)
Fits info size f (err e) = ⊥
Fits info size f panic = Unit {0}

module _ (r : FecAlgorithm) (info : FecStatus) (size : ℕ) where
  Carries-fits :
      (w : List (List ℕ)) (f : FecFrame) (index : ℕ) (p : List (Option (List ℕ)))
      → Carries info size w f
      → fits f (group_of r info size index p) ≡ true
  unfolding fits
  Carries-fits w f index p (m, n, id, l, at) = ground (arith, m, n, id, l)

  feed_lem :
      (w : List (List ℕ)) (f : FecFrame) (index : ℕ) (ids : List ℕ)
      → Carries info size w f
      → feed_fec_frame f (group_of r info size index (kept ids 0 w))
        ≡ ok (group_of r info size f.info.index (kept (f.info.index ∷ ids) 0 w))
  unfolding feed_fec_frame
  feed_lem w f index ids c =
      let (stored, l) = set-kept ids 0 f.info.index f.info.index w f.bytes (omega arith) c.4 in
      rw (feed_fec_frame, Carries-fits w f index (kept ids 0 w) c, lt→ltb _ _ l, stored) refl

  feed_all_lem :
      (w : List (List ℕ)) (fs : List FecFrame) (index : ℕ) (ids : List ℕ)
      → AllCarry info size w fs
      → feed_all fs (group_of r info size index (kept ids 0 w))
        ≡ ok (group_of r info size (last_index fs index) (kept (indices fs ids) 0 w))
  feed_all_lem w [] index ids c = refl
  feed_all_lem w (f ∷ fs) index ids c =
      ap (λ g. and_then g (feed_all fs)) (feed_lem w f index ids c.0)
      ∙ feed_all_lem w fs f.info.index (f.info.index ∷ ids) c.1

  feed-Fits :
      (f : FecFrame) (index : ℕ) (p : List (Option (List ℕ)))
      → length p ≡ info.m + info.n
      → Fits info size f (feed_fec_frame f (group_of r info size index p))
  unfolding feed_fec_frame fits
  feed-Fits f index p l = ground (arith, l)

length-kept : (ids : List ℕ) (i : ℕ) (w : List (List ℕ)) → length (kept ids i w) ≡ length w
length-kept ids i [] = refl
length-kept ids i (x ∷ w) = omega (arith, length-kept ids (suc i) w)

-- Let the algorithm that a new group is made with be an erasure code, and let `w` be a vector that
-- it encodes. Frames of the group that carry shards of `w`, of `m` numbers at least, are all taken,
-- in any order and however often each comes. The group then holds exactly the shards whose numbers
-- came, and `reconstruct` returns the data shards that are missing, in order, or nothing if none is.
-- A further frame is taken only if its numbers and its length are those of the group and its index
-- is one of the group's.
pub feed_all-Recovers :
    (make : ℕ → ℕ → Option FecAlgorithm) (r : FecAlgorithm) (info : FecStatus) (size : ℕ)
    (v w : List (List ℕ)) (fs : List FecFrame) (f : FecFrame)
    → make info.m info.n ≡ some r
    → IsErasureCode r info.m info.n size
    → length v ≡ info.m + info.n
    → Sized size v
    → r.encode_shards v ≡ (true, w)
    → AllCarry info size w fs
    → info.m ≤ present (kept (indices fs []) 0 w)
    → (g : FecGroup) × (and_then (fec_group make info size) (feed_all fs) ≡ ok g)
      × (g.shards ≡ kept (indices fs []) 0 w)
      × ((reconstruct g).0 ≡ ok (answer (lost info.m (kept (indices fs []) 0 w) w)))
      × Fits info size f (feed_fec_frame f g)
unfolding fec_group
feed_all-Recovers make r info size v w fs f made code l sz e c enough =
    let (w', e', l', _) = code.encodes v l sz in
    let same : w' ≡ w = ap (λ (t : Bool × List (List ℕ)). t.1) (sym e' ∙ e) in
    let lw : length w ≡ info.m + info.n = ap (λ (t : List (List ℕ)). length t) (sym same) ∙ l' in
    let ids = indices fs [] in
    let g = group_of r info size (last_index fs info.index) (kept ids 0 w) in
    (
      g,
      rw (made, fec_group, ← kept-nil 0 (info.m + info.n) w lw)
          (feed_all_lem r info size w fs info.index [] c),
      refl,
      reconstruct-Recovers g info.n size v w code l sz e (kept-Agrees ids 0 w) enough,
      feed-Fits r info size f (last_index fs info.index) (kept ids 0 w) (length-kept ids 0 w ∙ lw),
    )
