-- ===== src/Frame/Ack.antt =====
-- The ranges of an ACK frame, from the greatest down, and the set that a parser puts together.
use dtp.Base.{ℕ, ◌≤◌, ◌<◌, ◌≡◌, refl, ◌∙◌, List, [], ◌∷◌, ◌++◌, length, length-append, arith}
use mathlib.Core.List.{reverse, reverse-cons}
use dtp.Ranges.{Range, RangeSet, insert}
use dtp.Ranges.Insert.{Above, IsSeparated, add, insert-eq-add}
use dtp.Frame.Wire.{Descends, IsDescending, IsAckable}

Above-snoc : (x : ℕ) (it : List Range) (q : Range) → Above x it → x < q.0 → Above x (it ++ (q ∷ []))
Above-snoc x [] q p h = (h, tt)
Above-snoc x (r ∷ it) q p h = (p.0, Above-snoc x it q p.1 h)

Above-reverse : (x : ℕ) (m : List Range) → Above x m → Above x (reverse m)
Above-reverse x [] p = tt
Above-reverse x (r ∷ m) p =
    rw (reverse-cons r m) (Above-snoc x (reverse m) r (Above-reverse x m p.1) p.0)

Descends-snoc :
    (s : ℕ) (it : List Range) (q : Range)
    → q.0 < q.1
    → q.1 < s
    → Above q.1 it
    → Descends s it
    → Descends s (it ++ (q ∷ []))
Descends-snoc s [] q h k p d = (h, k, tt)
Descends-snoc s (r ∷ it) q h k p d = (d.0, d.1, Descends-snoc r.0 it q h p.0 p.1 d.2)

IsDescending-snoc :
    (it : List Range) (q : Range)
    → q.0 < q.1
    → Above q.1 it
    → IsDescending it
    → IsDescending (it ++ (q ∷ []))
IsDescending-snoc [] q h p d = absurd d
IsDescending-snoc (r ∷ it) q h p d = (d.0, d.1, Descends-snoc r.0 it q h p.0 p.1 d.2)

-- The ranges of a separated set descend when they are read from its end.
pub reverse-IsDescending :
    (m : RangeSet) → 0 < length m → IsSeparated m → IsAckable m → IsDescending (reverse m)
reverse-IsDescending [] h sep full = absurd (omega arith)
reverse-IsDescending (q ∷ []) h sep full = (full.0, full.1, tt)
reverse-IsDescending (q ∷ p ∷ m) h sep full = rw (reverse-cons q (p ∷ m)) (
    IsDescending-snoc (reverse (p ∷ m)) q full.0 (Above-reverse q.1 (p ∷ m) sep.1)
      (reverse-IsDescending (p ∷ m) (omega arith) sep.2 full.2))

pub length-reverse : (m : List Range) → length (reverse m) ≡ length m
length-reverse [] = refl
length-reverse (q ∷ m) =
    rw (reverse-cons q m) (omega (arith, length-append (reverse m) (q ∷ []), length-reverse m))

-- A range below the least one goes to the front.
pub insert_below :
    (a b s e : ℕ) (m : RangeSet)
    → a < b
    → b < s
    → IsSeparated ((s, e) ∷ m)
    → insert (a, b) ((s, e) ∷ m) ≡ (a, b) ∷ (s, e) ∷ m
unfolding add
insert_below a b s e m h k sep = insert-eq-add (a, b) ((s, e) ∷ m) (omega arith) sep ∙ ground arith

pub insert_first : (a b : ℕ) → a ≤ b → insert (a, b) [] ≡ (a, b) ∷ []
unfolding add
insert_first a b h = insert-eq-add (a, b) [] h tt
