-- ===== src/Stream/Map/Flush/Deque.antt =====
-- The queue of flushable streams as a collection: what an operation takes out of it.
use dtp.Base.{
  ℕ, zero, suc, ◌+◌, ◌<◌, ◌≡◌, refl, ap, ◌∙◌, some, List, [], ◌∷◌, ◌++◌, ◌==◌, length, set, arith,
  inl, inr, Bool-cases,
}
use dtp.Base.Maps.{count}
use dtp.Stream.Map.Flush.{
  get, last_of, but_last, swap_remove_back, swap_remove_front, find, take_out,
}

-- The same numbers, each as often, in another order.
pub record Same (xs ys : List ℕ) : Type 0 where
  pub counts : (x : ℕ) → count x xs ≡ count x ys

pub get-append :
    (pre : List ℕ) (id : ℕ) (rest : List ℕ) → get (pre ++ (id ∷ rest)) (length pre) ≡ some id
unfolding get
get-append [] id rest = refl
get-append (x ∷ pre) id rest = get-append pre id rest

set-append_at :
    (pre : List ℕ) (id v : ℕ) (rest : List ℕ)
    → set (pre ++ (id ∷ rest)) (length pre) v ≡ pre ++ (v ∷ rest)
set-append_at [] id v rest = refl
set-append_at (x ∷ pre) id v rest = ap (λ t. x ∷ t) (set-append_at pre id v rest)

but_last-append :
    (pre : List ℕ) (y : ℕ) (zs : List ℕ) → but_last (pre ++ (y ∷ zs)) ≡ pre ++ but_last (y ∷ zs)
unfolding but_last
but_last-append [] y zs = refl
but_last-append (x ∷ []) y zs = refl
but_last-append (x ∷ w ∷ pre) y zs = ap (λ t. x ∷ t) (but_last-append (w ∷ pre) y zs)

last_of-append :
    (x : ℕ) (pre : List ℕ) (y : ℕ) (zs : List ℕ) → last_of x (pre ++ (y ∷ zs)) ≡ last_of y zs
unfolding last_of
last_of-append x [] y zs = refl
last_of-append x (w ∷ pre) y zs = last_of-append w pre y zs

-- The last in front of the others.
abbrev rotated : List ℕ → List ℕ
rotated [] = []
rotated (y ∷ ys) = last_of y ys ∷ but_last (y ∷ ys)

count-rotated :
    (x y : ℕ) (ys : List ℕ) → count x (last_of y ys ∷ but_last (y ∷ ys)) ≡ count x (y ∷ ys)
unfolding count last_of but_last
count-rotated x y [] = refl
count-rotated x y (z ∷ ys) = ground (arith, count-rotated x z ys)

but_last-rotated : (id : ℕ) (rest : List ℕ) → but_last (last_of id rest ∷ rest) ≡ rotated rest
unfolding but_last last_of
but_last-rotated id [] = refl
but_last-rotated id (y ∷ ys) = refl

swap_remove_back_lem :
    (pre : List ℕ) (id : ℕ) (rest : List ℕ)
    → swap_remove_back (length pre) (pre ++ (id ∷ rest)) ≡ pre ++ rotated rest
unfolding swap_remove_back
swap_remove_back_lem [] id rest = but_last-rotated id rest
swap_remove_back_lem (w ∷ pre) id rest =
    rw (last_of-append w pre id rest, set-append_at pre id (last_of id rest) rest)
      (but_last-append (w ∷ pre) (last_of id rest) rest
        ∙ ap (λ t. (w ∷ pre) ++ t) (but_last-rotated id rest))

-- What stands behind the index is only put in another order.
pub swap_remove_back-Same :
    (pre : List ℕ) (id : ℕ) (rest : List ℕ)
    → (rest' : List ℕ) × (swap_remove_back (length pre) (pre ++ (id ∷ rest)) ≡ pre ++ rest')
      × Same rest' rest
swap_remove_back-Same pre id [] =
    ([], swap_remove_back_lem pre id [], record { counts = λ x. refl })
swap_remove_back-Same pre id (y ∷ ys) = (
  rotated (y ∷ ys),
  swap_remove_back_lem pre id (y ∷ ys),
  record { counts = λ x. count-rotated x y ys },
)

count-set :
    (x i v : ℕ) (xs : List ℕ) (y : ℕ)
    → get xs i ≡ some y
    → count x (set xs i v) + count x (y ∷ []) ≡ count x xs + count x (v ∷ [])
unfolding get count
count-set x i v [] y e = cc
count-set x zero v (w ∷ xs) y e = ground (arith, e)
count-set x (suc i) v (w ∷ xs) y e = ground (arith, count-set x i v xs y e)

get-find : (id i : ℕ) (xs : List ℕ) → find id xs ≡ some i → get xs i ≡ some id
unfolding get find
get-find id i [] e = cc
get-find id zero (x ∷ xs) e = ground (arith, e)
get-find id (suc i) (x ∷ xs) e = ground (arith, e, get-find id i xs)

count-swap_remove_front :
    (x i y : ℕ) (xs : List ℕ)
    → get xs i ≡ some y
    → count x (y ∷ swap_remove_front i xs) ≡ count x xs
unfolding get swap_remove_front count
count-swap_remove_front x i y [] e = cc
count-swap_remove_front x zero y (w ∷ xs) e = ground (arith, e)
count-swap_remove_front x (suc i) y (w ∷ xs) e = ground (arith, count-set x i w xs y e)

find-some : (id : ℕ) (xs : List ℕ) → 0 < count id xs → (i : ℕ) × (find id xs ≡ some i)
unfolding find count
find-some id [] h = absurd (omega arith)
find-some id (x ∷ xs) h = elim (Bool-cases (x == id)) [
  | inl e ↦ (0, rw e refl)
  | inr e ↦ let (i, f) = find-some id xs (ground (arith, h, e)) in (suc i, rw (e, f) refl)
]

-- Taking out a number that is there takes out one occurrence of it.
pub take_out-Same : (id : ℕ) (xs : List ℕ) → 0 < count id xs → Same (id ∷ take_out id xs) xs
unfolding take_out count
take_out-Same id xs h =
    let (i, e) = find-some id xs h in
    record { counts = λ x. rw e (count-swap_remove_front x i id xs (get-find id i xs e)) }
