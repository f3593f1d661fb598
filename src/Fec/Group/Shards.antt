-- ===== src/Fec/Group/Shards.antt =====
-- What is asked of an erasure code, and what a group's vector of shards has of a coded one.
use dtp.Base.{
  ℕ, zero, suc, ◌+◌, ◌≤◌, ◌≡◌, refl, ap, sym, true, Option, none, some, List, [], ◌∷◌, ◌++◌, lt→ltb,
  length, take, length-append, append_assoc, ok, arith,
}
use dtp.Fec.{FecAlgorithm}
use dtp.Fec.Group.{nth, empty_from, take_shards}

-- Every shard that is there is the one of the coded vector.
abbrev pub Agrees : List (Option (List ℕ)) → List (List ℕ) → Type 0
Agrees [] [] = Unit {0}
Agrees [] (x ∷ w) = ⊥
Agrees (o ∷ p) [] = ⊥
Agrees (none ∷ p) (x ∷ w) = Agrees p w
Agrees (some y ∷ p) (x ∷ w) = (y ≡ x) × Agrees p w

abbrev pub present : List (Option (List ℕ)) → ℕ
present [] = 0
present (none ∷ p) = present p
present (some y ∷ p) = suc (present p)

-- The first `k` shards are there, those of the coded vector.
abbrev pub HasData : ℕ → List (Option (List ℕ)) → List (List ℕ) → Type 0
HasData zero q w = Unit {0}
HasData (suc k) [] w = ⊥
HasData (suc k) (none ∷ q) w = ⊥
HasData (suc k) (some y ∷ q) [] = ⊥
HasData (suc k) (some y ∷ q) (x ∷ w) = (y ≡ x) × HasData k q w

-- Those of the first `k` coded shards that are missing.
abbrev pub lost : ℕ → List (Option (List ℕ)) → List (List ℕ) → List (List ℕ)
lost zero p w = []
lost (suc k) [] w = []
lost (suc k) (o ∷ p) [] = []
lost (suc k) (none ∷ p) (x ∷ w) = x ∷ lost k p w
lost (suc k) (some y ∷ p) (x ∷ w) = lost k p w

-- Shards of this many bytes.
abbrev pub Sized : ℕ → List (List ℕ) → Type 0
Sized size [] = Unit {0}
Sized size (x ∷ v) = (length x ≡ size) × Sized size v

-- What the documentation of `reed_solomon_erasure` says of `m` data and `n` parity shards: encoding
-- keeps the data, and from any `m` shards of a coded vector the data is restored.
pub record IsErasureCode (r : FecAlgorithm) (m n size : ℕ) : Type 0 where
  pub encodes :
      (v : List (List ℕ))
      → length v ≡ m + n
      → Sized size v
      → (w : List (List ℕ)) × (r.encode_shards v ≡ (true, w))
        × (length w ≡ m + n)
        × (take m w ≡ take m v)
  pub restores :
      (v w : List (List ℕ)) (p : List (Option (List ℕ)))
      → length v ≡ m + n
      → Sized size v
      → r.encode_shards v ≡ (true, w)
      → Agrees p w
      → m ≤ present p
      → (q : List (Option (List ℕ))) × (r.reconstruct_data p ≡ (true, q)) × HasData m q w

pub nth-append :
    (pre q : List (Option (List ℕ))) (o : Option (List ℕ))
    → nth (pre ++ (o ∷ q)) (length pre) ≡ ok o
unfolding nth
nth-append [] q o = refl
nth-append (x ∷ pre) q o = nth-append pre q o

empty_from_beyond : (m i : ℕ) (p : List (Option (List ℕ))) → m ≤ i → empty_from m i p ≡ []
unfolding empty_from
empty_from_beyond m i [] h = refl
empty_from_beyond m i (some x ∷ p) h = empty_from_beyond m (suc i) p (omega arith)
empty_from_beyond m i (none ∷ p) h = ground (arith, h, empty_from_beyond m (suc i) p)

take_shards-cons :
    (s : List (Option (List ℕ))) (i : ℕ) (is : List ℕ) (x : List ℕ) (xs : List (List ℕ))
    → nth s i ≡ ok (some x)
    → take_shards s is ≡ ok xs
    → take_shards s (i ∷ is) ≡ ok (x ∷ xs)
unfolding take_shards
take_shards-cons s i is x xs e f = rw (take_shards, e, f) refl

-- The missing shards, by their numbers and by the coded vector.
pub take_shards-lost :
    (pre p q : List (Option (List ℕ))) (w : List (List ℕ)) (i k m : ℕ)
    → i ≡ length pre
    → m ≡ i + k
    → Agrees p w
    → HasData k q w
    → (take_shards (pre ++ q) (empty_from m i p) ≡ ok (lost k p w))
      × (length (empty_from m i p) ≡ length (lost k p w))
unfolding take_shards empty_from
take_shards-lost pre p q w i zero m e f a h =
    let n = empty_from_beyond m i p (omega arith) in rw n (refl, refl)
take_shards-lost pre [] q [] i (suc k) m e f a h = (refl, refl)
take_shards-lost pre [] q (x ∷ w) i (suc k) m e f a h = elim a [ ]
take_shards-lost pre (o ∷ p) q [] i (suc k) m e f a h = elim a [ ]
take_shards-lost pre (o ∷ p) [] (x ∷ w) i (suc k) m e f a h = elim h [ ]
take_shards-lost pre (o ∷ p) (none ∷ q) (x ∷ w) i (suc k) m e f a h = elim h [ ]
take_shards-lost pre (some y ∷ p) (some z ∷ q) (x ∷ w) i (suc k) m e f a h =
    rw (sym (append_assoc pre (some z ∷ []) q)) (
      take_shards-lost (pre ++ (some z ∷ [])) p q w (suc i) k m
        (omega (arith, length-append {0} pre (some z ∷ []))) (omega arith) a.1 h.1)
take_shards-lost pre (none ∷ p) (some z ∷ q) (x ∷ w) i (suc k) m e f a h =
    let (run, len) =
      take_shards-lost (pre ++ (some z ∷ [])) p q w (suc i) k m
        (omega (arith, length-append {0} pre (some z ∷ []))) (omega arith) a h.1 in
    let s = pre ++ (some z ∷ q) in
    let run' : take_shards s (empty_from m (suc i) p) ≡ ok (lost k p w) =
      rw (sym (append_assoc pre (some z ∷ []) q)) run in
    let at : nth s i ≡ ok (some x) = rw (e, sym h.0) (nth-append pre q (some z)) in
    rw (lt→ltb i m (omega arith))
      (take_shards-cons s i (empty_from m (suc i) p) x (lost k p w) at run', ap suc len)
