-- ===== src/Octets/Varint.antt =====
-- Variable-length integers: what `put_varint` writes and `get_varint` reads, in plain arithmetic.
use dtp.Base.{
  ℕ, suc, ◌+◌, ◌/◌, ◌%◌, ◌^◌, ◌≤◌, ◌<◌, ◌≡◌, refl, List, [], ◌∷◌, ◌++◌, length, arith, leb,
  if◌then◌else◌, ok, ltb, Error, length-append, le→leb, lt→leb, le→ltb, bit_or, err, ◌∙◌, sym,
  subst,
}
use dtp.Base.Bytes.{
  to_be, from_be, bit_and-0x3f, bit_or-0x40, bit_or-0x80, bit_or-0xc0, length-to_be,
}
use dtp.Octets.{
  M, ◌>>◌, get_varint, put_varint, varint_len, varint_parse_len, decode_vec, get_bytes, lift,
  peek_u8, cap, put_varint_with_len, put_u, or_first,
}
use native.Mathlib.Decide.{dec_le}
use dtp.Octets.Writes.{Writes, or_first-Writes, put_u-Writes}
use dtp.Octets.Reads.{
  Reads, Reads-bind, get_bytes-Reads, lift-Reads, check-Reads, peek_u8-Reads, get_u_whole,
}

-- The wire form of RFC 9000, section 16: the top two bits of the first byte give the length.
unfoldable pub varint : ℕ → List ℕ
varint v =
    if leb v 63
    then v ∷ []
    else if leb v 16383
    then (v / 256 + 64) ∷ to_be 1 v
    else if leb v 1_073_741_823
    then (v / 256 ^ 3 + 128) ∷ to_be 3 v
    else (v / 256 ^ 7 + 192) ∷ to_be 7 v

abbrev pub IsVarint : ℕ → Type 0
IsVarint v = v < 2 ^ 62

-- The bytes after the first byte `x`, with its top bits cleared, spell the number.
decode_vec_lem :
    (x : ℕ) (ys : List ℕ) (n : ℕ)
    → x < 256
    → suc (length ys) ≡ n
    → varint_parse_len x ≡ ok n
    → decode_vec n (x ∷ ys) ≡ ok (from_be 0 (x % 64 ∷ ys))
unfolding decode_vec varint_parse_len
decode_vec_lem x ys n hx hl e = ground (arith, bit_and-0x3f x, get_u_whole (x % 64 ∷ ys))

pub get_varint_bytes :
    (x : ℕ) (ys t : List ℕ) (n : ℕ)
    → x < 256
    → suc (length ys) ≡ n
    → varint_parse_len x ≡ ok n
    → Reads get_varint ((x ∷ ys) ++ t) (from_be 0 (x % 64 ∷ ys)) t
unfolding get_varint
get_varint_bytes x ys t n hx hl e = Reads-bind peek_u8 _ (peek_u8-Reads x (ys ++ t)) (
    Reads-bind (lift (varint_parse_len x)) _ (lift-Reads _ _ e) (
      check-Reads n _ _ (omega (arith, length-append ys t)) (
        Reads-bind (get_bytes n) _ {a = x ∷ ys} (rw (← hl) (get_bytes-Reads (x ∷ ys) t))
          (lift-Reads _ t (decode_vec_lem x ys n hx hl e)))))

abbrev Read : ℕ → List ℕ → Type 0
Read v bs = (t : List ℕ) → Reads get_varint (bs ++ t) v t

spelled :
    (x : ℕ) (ys : List ℕ) (n v : ℕ)
    → x < 256
    → suc (length ys) ≡ n
    → varint_parse_len x ≡ ok n
    → from_be 0 (x % 64 ∷ ys) ≡ v
    → Read v (x ∷ ys)
spelled x ys n v hx hl e ev t =
    subst (λ w. Reads get_varint ((x ∷ ys) ++ t) w t) ev (get_varint_bytes x ys t n hx hl e)

-- A number below 2 ^ 62 is read back from its wire form, whatever follows.
pub varint-Reads : (v : ℕ) → IsVarint v → (t : List ℕ) → Reads get_varint (varint v ++ t) v t
unfolding varint varint_parse_len
varint-Reads v h = elim (dec_le v 63) [
  | yes a ↦ rw (le→leb _ _ a) (spelled v [] 1 v (omega arith) refl (ground arith) (omega arith))
  | no a ↦ rw (lt→leb v 63 (omega arith)) (elim (dec_le v 16383) [
    | yes b ↦
        rw (le→leb _ _ b)
          (spelled (v / 256 + 64) (to_be 1 v) 2 v (omega arith) refl (ground arith) (omega arith))
    | no b ↦ rw (lt→leb v 16383 (omega arith)) (elim (dec_le v 1_073_741_823) [
      | yes c ↦ rw (le→leb _ _ c) (
          spelled (v / 256 ^ 3 + 128) (to_be 3 v) 4 v (omega arith) refl (ground arith)
            (omega arith))
      | no c ↦ rw (lt→leb v 1_073_741_823 (omega arith)) (
          spelled (v / 256 ^ 7 + 192) (to_be 7 v) 8 v (omega arith) refl (ground arith)
            (omega arith))
    ])
  ])
]

-- `varint_len` is the length of the wire form.
pub varint_len-length : (v : ℕ) → IsVarint v → varint_len v ≡ ok (length (varint v))
unfolding varint_len varint
varint_len-length v h = ground arith

pub length-varint_pos : (v : ℕ) → (1 ≤ length (varint v)) × (length (varint v) ≤ 8)
unfolding varint
length-varint_pos v = ground arith

-- The check of `put_varint_with_len` agrees with that of the write behind it.
capped-Writes :
    (n : ℕ) (m : M (Unit {0})) (bs : List ℕ)
    → n ≡ length bs
    → 0 < n
    → Writes m bs
    → Writes (λ b. if ltb (cap b) n then err Error.buffer_too_short else m b) bs
capped-Writes n m bs e pos p = record {
  fits = λ b h. rw (le→ltb (cap b) n (omega arith)) (p.fits b h);
  short = λ b i h. ground (arith, p.short b i h);
}

-- An integer write of `n + 1` bytes whose first byte `x` becomes `y` under the mask.
masked_put :
    (n u w mask y : ℕ)
    → u ≡ w
    → bit_or (w / 256 ^ n % 256) mask ≡ y
    → Writes
        (λ b.
          if ltb (cap b) (suc n)
          then err Error.buffer_too_short
          else (put_u (suc n) u >> or_first b.off mask) b)
        (y ∷ to_be n w)
masked_put n u w mask y same e =
    capped-Writes (suc n) _ (y ∷ to_be n w) (omega (arith, length-to_be n w)) (omega arith) (
      subst (λ a. Writes (λ b. (put_u (suc n) a >> or_first b.off mask) b) (y ∷ to_be n w))
        (sym same)
        (subst (λ x. Writes (λ b. (put_u (suc n) w >> or_first b.off mask) b) (x ∷ to_be n w)) e
          (or_first-Writes (put_u (suc n) w) _ mask (to_be n w) (put_u-Writes (suc n) w))))

put_varint_1 : (v : ℕ) → v ≤ 63 → Writes (put_varint_with_len v 1) (v ∷ [])
unfolding put_varint_with_len
put_varint_1 v h =
    capped-Writes 1 (put_u 1 (v % 2 ^ 8)) (v ∷ []) refl (omega arith) (
      subst (λ x. Writes (put_u 1 (v % 2 ^ 8)) (x ∷ [])) (omega arith) (put_u-Writes 1 (v % 2 ^ 8)))

put_varint_2 : (v : ℕ) → v ≤ 16383 → Writes (put_varint_with_len v 2) ((v / 256 + 64) ∷ to_be 1 v)
unfolding put_varint_with_len
put_varint_2 v h =
    masked_put 1 (v % 2 ^ 16) v 0x40 (v / 256 + 64) (omega arith)
      (bit_or-0x40 (v / 256 ^ 1 % 256) (omega arith) ∙ omega arith)

put_varint_4 :
    (v : ℕ) → v ≤ 1_073_741_823 → Writes (put_varint_with_len v 4) ((v / 256 ^ 3 + 128) ∷ to_be 3 v)
unfolding put_varint_with_len
put_varint_4 v h =
    masked_put 3 (v % 2 ^ 32) v 0x80 (v / 256 ^ 3 + 128) (omega arith)
      (bit_or-0x80 (v / 256 ^ 3 % 256) (omega arith) ∙ omega arith)

put_varint_8 :
    (v : ℕ) → IsVarint v → Writes (put_varint_with_len v 8) ((v / 256 ^ 7 + 192) ∷ to_be 7 v)
unfolding put_varint_with_len
put_varint_8 v h =
    masked_put 7 v v 0xc0 (v / 256 ^ 7 + 192) refl
      (bit_or-0xc0 (v / 256 ^ 7 % 256) (omega arith) ∙ omega arith)

-- `put_varint` writes the wire form of a number below 2 ^ 62.
pub put_varint-Writes : (v : ℕ) → IsVarint v → Writes (put_varint v) (varint v)
put_varint-Writes v h =
    unfold put_varint varint varint_len in
    elim (dec_le v 63) [
      | yes a ↦ rw (le→leb _ _ a) (put_varint_1 v a)
      | no a ↦ rw (lt→leb v 63 (omega arith)) (elim (dec_le v 16383) [
        | yes b ↦ rw (le→leb _ _ b) (put_varint_2 v b)
        | no b ↦ rw (lt→leb v 16383 (omega arith)) (elim (dec_le v 1_073_741_823) [
          | yes c ↦ rw (le→leb _ _ c) (put_varint_4 v c)
          | no c ↦
              rw
                (
                  lt→leb v 1_073_741_823 (omega arith),
                  le→leb v 4_611_686_018_427_387_903 (omega arith),
                )
                (put_varint_8 v h)
        ])
      ])
    ]
