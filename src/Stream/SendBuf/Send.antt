-- ===== src/Stream/SendBuf/Send.antt =====
-- A round of `SendBuf::pop`: what it takes off the front of the queue.
use dtp.Base.{
  ℕ, zero, suc, ◌+◌, ◌-◌, ◌≤◌, ◌<◌, ◌^◌, ◌≡◌, ◌⊎◌, refl, ap, sym, subst, ◌∙◌, Bool, true, false,
  ◌||◌, List, [], ◌∷◌, ◌++◌, length, take, drop, arith, ltb, min, Result, ok, err, panic,
  length-append, length-take, length-drop, append_assoc, if◌then◌else◌, inl, inr,
}
use dtp.Base.Words.{sub64}
use native.Mathlib.Decide.{dec_lt}
use dtp.Stream.RangeBuf.{RangeBuf, len, max_off, stop, split_off}
use dtp.Stream.Heap.{heap_push}
use dtp.Stream.SendBuf.{SendBuf, split_front}
use dtp.Stream.SendBuf.Queue.{IsQueue, Runs, Runs-le, bytes_of, heap_push_first}

take-append_min :
    (n m : ℕ) (xs ys : List ℕ) → m ≡ n - length xs → take n (xs ++ ys) ≡ take n xs ++ take m ys
take-append_min zero m [] ys e = let z : m ≡ 0 = omega arith in rw z refl
take-append_min zero m (x ∷ xs) ys e = let z : m ≡ 0 = omega arith in rw z refl
take-append_min (suc n) m [] ys e = let z : m ≡ suc n = omega arith in rw z refl
take-append_min (suc n) m (x ∷ xs) ys e = ap (λ t. x ∷ t) (take-append_min n m xs ys (omega arith))

drop-append_min :
    (n m : ℕ) (xs ys : List ℕ) → m ≡ n - length xs → drop n (xs ++ ys) ≡ drop n xs ++ drop m ys
drop-append_min zero m [] ys e = let z : m ≡ 0 = omega arith in rw z refl
drop-append_min zero m (x ∷ xs) ys e = let z : m ≡ 0 = omega arith in rw z refl
drop-append_min (suc n) m [] ys e = let z : m ≡ suc n = omega arith in rw z refl
drop-append_min (suc n) m (x ∷ xs) ys e = drop-append_min n m xs ys (omega arith)

pub take-nil : (n : ℕ) → take {A = ℕ} n [] ≡ []
take-nil zero = refl
take-nil (suc n) = refl

pub drop-nil : (n : ℕ) → drop {A = ℕ} n [] ≡ []
drop-nil zero = refl
drop-nil (suc n) = refl

take_all : (n : ℕ) (xs : List ℕ) → length xs ≤ n → take n xs ≡ xs
take_all n [] h = take-nil n
take_all zero (x ∷ xs) h = absurd (omega arith)
take_all (suc n) (x ∷ xs) h = ap (λ t. x ∷ t) (take_all n xs (omega arith))

drop_all : (n : ℕ) (xs : List ℕ) → length xs ≤ n → drop n xs ≡ []
drop_all n [] h = drop-nil n
drop_all zero (x ∷ xs) h = absurd (omega arith)
drop_all (suc n) (x ∷ xs) h = drop_all n xs (omega arith)

-- The first of a run of chunks, cut to `n` bytes: what is taken and what is left.
pub record Cuts (n lo hi : ℕ) (b : RangeBuf) (h : List RangeBuf) (t : RangeBuf × List RangeBuf)
    : Type 0 where
  pub taken : t.0.bytes ≡ take n b.bytes
  pub start : t.0.off ≡ lo
  pub left : Runs (stop t.0) hi t.1
  pub rest : bytes_of t.1 ≡ drop n b.bytes ++ bytes_of h
  pub full : (len t.0 ≡ n) ⊎ ((t.1 ≡ h) × (len t.0 ≤ n))

pub split_front-Cuts :
    (n limit lo hi : ℕ) (b : RangeBuf) (h : List RangeBuf)
    → 0 < n
    → hi ≤ limit
    → limit < 2 ^ 62
    → Runs lo hi (b ∷ h)
    → Cuts n lo hi b h (split_front n limit b h)
unfolding split_front
split_front-Cuts n limit lo hi b h pos l w r =
    let room : stop b ≤ hi = Runs-le (stop b) hi h r.2 in
    let same : max_off b ≡ stop b = omega (arith, room, l, w) in
    elim (dec_lt n (len b)) [
      | yes g ↦
          let at : min n (sub64 limit b.off) ≡ n = omega (arith, g, room) in
          let test : (ltb n (len b) || ltb limit (max_off b)) ≡ true = ground (arith, g) in
          let push_first : heap_push (split_off n b).1 h ≡ (split_off n b).1 ∷ h =
            heap_push_first (stop b) hi (split_off n b).1 h r.2 (omega (arith, g)) in
          let l1 : length (take n b.bytes) ≡ n = omega (arith, g, length-take n b.bytes) in
          let l2 : n + length (drop n b.bytes) ≡ len b = omega (arith, g, length-drop n b.bytes) in
          rw (test, at, push_first)
            (record {
              taken = refl;
              start = r.0;
              left = (
                omega (arith, l1),
                omega (arith, l2, g),
                subst (λ i. Runs i hi h) (omega (arith, l2)) r.2,
              );
              rest = unfold bytes_of in refl;
              full = inl l1;
            })
      | no g ↦
          let test : (ltb n (len b) || ltb limit (max_off b)) ≡ false =
            ground (arith, g, room, same) in
          rw test (record {
            taken = sym (take_all n b.bytes (omega (arith, g)));
            start = r.0;
            left = r.2;
            rest = rw (drop_all n b.bytes (omega (arith, g))) refl;
            full = inr (refl, omega (arith, g));
          })
    ]

nil_of_length : (xs : List ℕ) → length xs ≡ 0 → xs ≡ []
nil_of_length [] e = refl
nil_of_length (x ∷ xs) e = absurd (omega arith)

-- Taking `n` bytes off the run is taking the chunk, then the bytes that are missing.
Cuts-split :
    (n lo hi : ℕ) (b : RangeBuf) (h : List RangeBuf) (t : RangeBuf × List RangeBuf)
    → Cuts n lo hi b h t
    → (take n (bytes_of (b ∷ h)) ≡ t.0.bytes ++ take (n - len t.0) (bytes_of t.1))
      × (drop n (bytes_of (b ∷ h)) ≡ drop (n - len t.0) (bytes_of t.1))
unfolding bytes_of
Cuts-split n lo hi b h t c =
    let m : len t.0 ≡ min n (len b) =
      ap (λ (l : List ℕ). length l) c.taken ∙ length-take n b.bytes in
    let i : n - len t.0 ≡ n - len b = omega arith in
    let tk = take-append_min n (n - len t.0) b.bytes (bytes_of h) i in
    let dr = drop-append_min n (n - len t.0) b.bytes (bytes_of h) i in
    elim c.full [
      | inl f ↦
          let z : n - len t.0 ≡ 0 = omega (arith, f) in
          (tk ∙ rw (z, ← c.taken) refl, dr ∙ rw z (sym c.rest))
      | inr f ↦
          let same : bytes_of t.1 ≡ bytes_of h = ap bytes_of f.0 in
          let z : drop n b.bytes ≡ [] = nil_of_length _ (
            omega (
              arith,
              ap (λ (l : List ℕ). length l) (sym same ∙ c.rest),
              length-append (drop n b.bytes) (bytes_of h),
            )) in
          (tk ∙ rw (same, ← c.taken) refl, dr ∙ rw (z, same) refl)
    ]

-- The loop took `n` bytes, or all there were, off the queue `q` of `s` whose front is `p`, behind
-- what was in `out`; the bytes in all begin at `start`.
pub record Takes (p start n : ℕ) (s : SendBuf) (q : List RangeBuf) (out o : RangeBuf) (s' : SendBuf)
    : Type 0 where
  pub bytes : o.bytes ≡ out.bytes ++ take n (bytes_of q)
  pub begins : o.off ≡ start
  pub left : bytes_of s'.chunks ≡ drop n (bytes_of q)
  pub queue : IsQueue (p + length (take n (bytes_of q))) s'
  pub same_off : s'.off ≡ s.off
  pub same_fin : s'.fin_off ≡ s.fin_off

abbrev pub Ends :
    ℕ → ℕ → ℕ → SendBuf → List RangeBuf → RangeBuf → Result (RangeBuf × SendBuf) → Type 0
Ends p start n s q out (ok (o, s')) = Takes p start n s q out o s'
Ends p start n s q out (err e) = ⊥
Ends p start n s q out panic = ⊥

-- Where the bytes in `out` begin, or will begin if there are none yet.
abbrev pub Begins : ℕ → ℕ → ℕ → ℕ → RangeBuf → Type 0
Begins p start n off out =
    ((0 < len out) × (out.off ≡ start)) ⊎ ((len out ≡ 0) × (p ≡ start) × (out.off ≡ off) × (0 < n))

pub Ends-if :
    (p start n : ℕ) (s : SendBuf) (q : List RangeBuf) (out : RangeBuf) (t : Bool)
    (r1 r2 : Result (RangeBuf × SendBuf))
    → (t ≡ true → Ends p start n s q out r1)
    → (t ≡ false → Ends p start n s q out r2)
    → Ends p start n s q out (if t then r1 else r2)
Ends-if p start n s q out true r1 r2 h k = h refl
Ends-if p start n s q out false r1 r2 h k = k refl

-- What follows the chunk taken.
pub Ends-cons :
    (p start n : ℕ) (s s2 : SendBuf) (b : RangeBuf) (h : List RangeBuf)
    (t : RangeBuf × List RangeBuf) (out out' : RangeBuf) (r : Result (RangeBuf × SendBuf))
    → Cuts n p s.off b h t
    → out'.bytes ≡ out.bytes ++ t.0.bytes
    → s2.off ≡ s.off
    → s2.fin_off ≡ s.fin_off
    → Ends (p + len t.0) start (n - len t.0) s2 t.1 out' r
    → Ends p start n s (b ∷ h) out r
Ends-cons p start n s s2 b h t out out' (ok (o, s')) c e e1 e2 w =
    let (tk, dr) = Cuts-split n p s.off b h t c in
    record {
      bytes = w.bytes ∙ rw (e, tk) (append_assoc out.bytes t.0.bytes _);
      begins = w.begins;
      left = w.left ∙ sym dr;
      queue =
          subst (λ i. IsQueue i s')
            (omega (
              arith,
              ap (λ (l : List ℕ). length l) tk,
              length-append t.0.bytes (take (n - len t.0) (bytes_of t.1)),
            ))
            w.queue;
      same_off = w.same_off ∙ e1;
      same_fin = w.same_fin ∙ e2;
    }
Ends-cons p start n s s2 b h t out out' (err x) c e e1 e2 w = absurd w
Ends-cons p start n s s2 b h t out out' panic c e e1 e2 w = absurd w
