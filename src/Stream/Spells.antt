-- ===== src/Stream/Spells.antt =====
-- Bytes that agree with a stream: `σ` gives the byte at each offset.
use dtp.Base.{
  ℕ, zero, suc, ◌+◌, ◌≤◌, ◌≡◌, refl, subst, List, [], ◌∷◌, ◌++◌, length, take, drop, arith, All,
  leb, length-take, length-drop, Bool-cases, inl, inr,
}
use dtp.Stream.RangeBuf.{RangeBuf, len, stop, split_off}
use dtp.Stream.Heap.{heap_push}

abbrev pub Spells : (ℕ → ℕ) → ℕ → List ℕ → Type 0
Spells σ o [] = Unit {0}
Spells σ o (x ∷ xs) = (x ≡ σ o) × Spells σ (suc o) xs

pub Spells-drop :
    (σ : ℕ → ℕ) (n o p : ℕ) (xs : List ℕ) → p ≡ o + n → Spells σ o xs → Spells σ p (drop n xs)
Spells-drop σ zero o p xs e h = subst (λ i. Spells σ i xs) (omega arith) h
Spells-drop σ (suc n) o p [] e h = tt
Spells-drop σ (suc n) o p (x ∷ xs) e h = Spells-drop σ n (suc o) p xs (omega arith) h.1

pub Spells-take : (σ : ℕ → ℕ) (n o : ℕ) (xs : List ℕ) → Spells σ o xs → Spells σ o (take n xs)
Spells-take σ zero o xs h = tt
Spells-take σ (suc n) o [] h = tt
Spells-take σ (suc n) o (x ∷ xs) h = (h.0, Spells-take σ n (suc o) xs h.1)

pub Spells-append :
    (σ : ℕ → ℕ) (o p : ℕ) (xs ys : List ℕ)
    → p ≡ o + length xs
    → Spells σ o xs
    → Spells σ p ys
    → Spells σ o (xs ++ ys)
Spells-append σ o p [] ys e h k = subst (λ i. Spells σ i ys) (omega arith) k
Spells-append σ o p (x ∷ xs) ys e h k = (h.0, Spells-append σ (suc o) p xs ys (omega arith) h.1 k)

-- A chunk of the stream that ends at `hi` or before.
pub record IsPart (σ : ℕ → ℕ) (hi : ℕ) (c : RangeBuf) : Type 0 where
  pub spells : Spells σ c.off c.bytes
  pub below : stop c ≤ hi

pub IsPart-front :
    (σ : ℕ → ℕ) (hi n : ℕ) (c : RangeBuf) → IsPart σ hi c → IsPart σ hi (split_off n c).0
IsPart-front σ hi n c p = record {
  spells = Spells-take σ n c.off c.bytes p.spells;
  below = omega (arith, p.below, length-take n c.bytes);
}

pub IsPart-back :
    (σ : ℕ → ℕ) (hi n : ℕ) (c : RangeBuf)
    → n ≤ len c
    → IsPart σ hi c
    → IsPart σ hi (split_off n c).1
IsPart-back σ hi n c h p = record {
  spells = Spells-drop σ n c.off (c.off + n) c.bytes refl p.spells;
  below = omega (arith, p.below, length-drop n c.bytes);
}

pub IsPart-mono :
    (σ : ℕ → ℕ) (hi hi' : ℕ) (c : RangeBuf) → hi ≤ hi' → IsPart σ hi c → IsPart σ hi' c
IsPart-mono σ hi hi' c h p = record { spells = p.spells; below = omega (arith, p.below) }

pub All-mono :
    (σ : ℕ → ℕ) (hi hi' : ℕ) (h : List RangeBuf)
    → hi ≤ hi'
    → All (IsPart σ hi) h
    → All (IsPart σ hi') h
All-mono σ hi hi' [] le a = tt
All-mono σ hi hi' (c ∷ h) le a = (IsPart-mono σ hi hi' c le a.0, All-mono σ hi hi' h le a.1)

pub heap_push-All :
    (P : RangeBuf → Type 0) (b : RangeBuf) (h : List RangeBuf)
    → P b
    → All P h
    → All P (heap_push b h)
unfolding heap_push
heap_push-All P b [] p a = (p, tt)
heap_push-All P b (c ∷ h) p a = elim (Bool-cases (leb b.off c.off)) [
  | inl e ↦ rw e (p, a)
  | inr e ↦ rw e (a.0, heap_push-All P b h p a.1)
]
