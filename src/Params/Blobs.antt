-- ===== src/Params/Blobs.antt =====
-- Reading the id and the bytes of a parameter, as cases.
use dtp.Base.{
  ℕ, zero, suc, ◌+◌, ◌-◌, ◌≤◌, ◌≡◌, ◌⊎◌, inl, inr, refl, List, [], ◌∷◌, length, length-drop, take,
  drop, All, arith, ok, err, Error, ltb, Bool-cases,
}
use dtp.Base.Bytes.{IsByte, from_be}
use dtp.Octets.{
  Octets, ◌>>=◌, get_u, peek_u, cap, as_ref, slice_at, advance, get_bytes,
  get_bytes_with_u16_length,
}
use dtp.Octets.Safe.{IsValid, All-drop}

All-take : (n : ℕ) (xs : List ℕ) → All IsByte xs → All IsByte (take n xs)
All-take zero xs h = tt
All-take (suc n) [] h = tt
All-take (suc n) (x ∷ xs) h = (h.0, All-take n xs h.1)

pub get_u16_cases :
    (b : Octets)
    → (get_u 2 b ≡ err Error.buffer_too_short)
      ⊎ ((v : ℕ) × (get_u 2 b ≡ ok (v, advance 2 b)) × (b.off + 2 ≤ length b.buf))
unfolding get_u peek_u
get_u16_cases b =
    let l : length (as_ref b) ≡ length b.buf - b.off = length-drop b.off b.buf in
    elim (Bool-cases (ltb (length (as_ref b)) 2)) [
      | inl e ↦ inl (rw (get_u, peek_u, e) refl)
      | inr e ↦ inr (from_be 0 (slice_at 2 b), rw (get_u, peek_u, e) refl, ground (arith, e, l))
    ]

pub get_bytes_cases :
    (n : ℕ) (b : Octets)
    → (get_bytes n b ≡ err Error.buffer_too_short)
      ⊎ ((get_bytes n b ≡ ok (slice_at n b, advance n b)) × (n ≤ length b.buf - b.off))
unfolding get_bytes
get_bytes_cases n b = elim (Bool-cases (ltb (cap b) n)) [
  | inl e ↦ inl (rw (e) refl)
  | inr e ↦ inr (rw (e) refl, ground (arith, e))
]

-- The bytes of a parameter are bytes, and what is left of the buffer is shorter.
unfoldable pub Blob : Octets → Type 0
Blob b =
    (val : List ℕ) × (b' : Octets) × (get_bytes_with_u16_length b ≡ ok (val, b'))
    × All IsByte val
    × IsValid b'
    × (b'.buf ≡ b.buf)
    × (b.off ≤ b'.off)

pub u16_length_cases :
    (b : Octets) → IsValid b → (get_bytes_with_u16_length b ≡ err Error.buffer_too_short) ⊎ Blob b
unfolding get_bytes_with_u16_length Blob
u16_length_cases b v = elim (get_u16_cases b) [
  | inl e ↦ inl (rw (◌>>=◌, e) refl)
  | inr (n, e, room) ↦
      let b1 = advance 2 b in
      elim (get_bytes_cases n b1) [
        | inl f ↦ inl (rw (◌>>=◌, e) f)
        | inr (f, fits) ↦ inr (
          slice_at n b1,
          advance n b1,
          rw (◌>>=◌, e) f,
          All-take n (drop b1.off b.buf) (All-drop b1.off b.buf v.bytes),
          record { bytes = v.bytes; within = omega arith },
          refl,
          omega arith,
        )
      ]
]
