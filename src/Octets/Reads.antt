-- ===== src/Octets/Reads.antt =====
-- What reading from a buffer does, as a relation on the bytes that are left, with rules to
-- compose it along a `do` block.
use dtp.Base.{
  ℕ, ◌+◌, ◌-◌, ◌≤◌, ◌≡◌, refl, ◌∙◌, List, [], ◌∷◌, ◌++◌, length, take, drop, arith, length-append,
  length-drop, take-append_length, drop-append_length, drop-drop, le→ltb, ltb, append-nil, Result,
  ok, Error,
}
use dtp.Base.Bytes.{from_be}
use dtp.Octets.{
  Octets, M, ◌>>=◌, ◌>>◌, pure, lift, fail_if, as_ref, advance, get_u, peek_u, get_bytes, slice_at,
  get_cap, with_slice,
}

-- With `s` left to read, `m` returns `a`, leaves `t`, and writes nothing.
pub record Reads {A : Type 0} (m : M A) (s : List ℕ) (a : A) (t : List ℕ) : Type 0 where
  pub run :
      (b : Octets)
      → as_ref b ≡ s
      → (b' : Octets) × (m b ≡ ok (a, b'))
        × (as_ref b' ≡ t)
        × (b'.buf ≡ b.buf)
        × (b'.off + length t ≡ b.off + length s)

module _ {A B : Type 0} where
  pub Reads-bind :
      (m : M A) (f : A → M B) {s t u : List ℕ} {a : A} {c : B}
      → Reads m s a t
      → Reads (f a) t c u
      → Reads (m >>= f) s c u
  Reads-bind m f {s} {t} {u} {a} {c} p q = record { run = λ b h. step b h }
    where
      step :
          (b : Octets)
          → as_ref b ≡ s
          → (b' : Octets) × ((m >>= f) b ≡ ok (c, b'))
            × (as_ref b' ≡ u)
            × (b'.buf ≡ b.buf)
            × (b'.off + length u ≡ b.off + length s)
      step b h =
          let (b1, e1, r1, w1, l1) = p.run b h in
          let (b2, e2, r2, w2, l2) = q.run b1 r1 in (b2, rw (e1, ◌>>=◌) e2, r2, w2 ∙ w1, l2 ∙ l1)

pub Reads-pure : {A : Type 0} (a : A) (s : List ℕ) → Reads (pure a) s a s
Reads-pure a s = record { run = λ b h. (b, refl, h, refl, refl) }

-- Reading the next bytes `xs`, whichever way they are used, moves the offset over them.
abbrev Next : Octets → List ℕ → List ℕ → Type 0
Next b xs t =
    (slice_at (length xs) b ≡ xs)
    × (as_ref (advance (length xs) b) ≡ t)
    × (length xs ≤ length b.buf - b.off)

next : (xs t : List ℕ) (b : Octets) → as_ref b ≡ xs ++ t → Next b xs t
next xs t b h = (
  rw h (take-append_length xs t _ refl),
  (rw (← drop-drop (length xs) b.off (b.off + length xs) b.buf refl, h)
      (drop-append_length xs t _ refl)),
  omega (arith, ap_length, length-append xs t, length-drop b.off b.buf),
)
  where
    ap_length : length (drop b.off b.buf) ≡ length (xs ++ t)
    ap_length = rw h

pub get_bytes-Reads : (xs t : List ℕ) → Reads (get_bytes (length xs)) (xs ++ t) xs t
unfolding get_bytes
get_bytes-Reads xs t = record { run = λ b h. step b (next xs t b h) h }
  where
    step :
        (b : Octets)
        → Next b xs t
        → as_ref b ≡ xs ++ t
        → (b' : Octets) × (get_bytes (length xs) b ≡ ok (xs, b'))
          × (as_ref b' ≡ t)
          × (b'.buf ≡ b.buf)
          × (b'.off + length t ≡ b.off + length (xs ++ t))
    step b (bytes, left, room) h = (
      advance (length xs) b,
      rw (le→ltb _ _ room, bytes),
      left,
      refl,
      omega (arith, length-append xs t),
    )

-- An integer of `n` bytes is read as the number that its bytes spell.
pub get_u-Reads : (xs t : List ℕ) → Reads (get_u (length xs)) (xs ++ t) (from_be 0 xs) t
unfolding get_u
get_u-Reads xs t = record { run = λ b h. step b (next xs t b h) h }
  where
    step :
        (b : Octets)
        → Next b xs t
        → as_ref b ≡ xs ++ t
        → (b' : Octets) × (get_u (length xs) b ≡ ok (from_be 0 xs, b'))
          × (as_ref b' ≡ t)
          × (b'.buf ≡ b.buf)
          × (b'.off + length t ≡ b.off + length (xs ++ t))
    step b (bytes, left, room) h = (
      advance (length xs) b,
      ground (arith, bytes, length-drop b.off b.buf),
      left,
      refl,
      omega (arith, length-append xs t),
    )

pub peek_u8-Reads : (x : ℕ) (t : List ℕ) → Reads (peek_u 1) (x ∷ t) x (x ∷ t)
unfolding peek_u
peek_u8-Reads x t = record { run = λ b h. (b, rw h (ground arith), h, refl, refl) }

pub lift-Reads : {A : Type 0} (r : Result A) (s : List ℕ) {a : A} → r ≡ ok a → Reads (lift r) s a s
lift-Reads r s e = record { run = λ b h. (b, rw e, h, refl, refl) }

-- A check against the room that is left passes where as many bytes are left to read.
pub check-Reads :
    {A : Type 0} (n : ℕ) (e : Error) (k : M A) {s t : List ℕ} {a : A}
    → n ≤ length s
    → Reads k s a t
    → Reads (get_cap >>= λ room. fail_if (ltb room n) e >> k) s a t
check-Reads n e k {s} {t} {a} h q = record { run = λ b r. step b r }
  where
    step :
        (b : Octets)
        → as_ref b ≡ s
        → (b' : Octets) × ((get_cap >>= λ room. fail_if (ltb room n) e >> k) b ≡ ok (a, b'))
          × (as_ref b' ≡ t)
          × (b'.buf ≡ b.buf)
          × (b'.off + length t ≡ b.off + length s)
    step b r =
        let same : length (as_ref b) ≡ length s = rw r in
        let room : n ≤ length b.buf - b.off = omega (arith, length-drop b.off b.buf) in
        rw (le→ltb _ _ room) (q.run b r)

-- A buffer that is read as a whole.
pub get_u_whole :
    (xs : List ℕ)
    → get_u (length xs) (with_slice xs) ≡ ok (from_be 0 xs, record { buf = xs; off = length xs })
unfolding get_u with_slice
get_u_whole xs =
    let all : take (length xs) xs ≡ xs =
      rw append-nil at (take-append_length xs [] (length xs) refl) in
    ground (arith, all)
