-- ===== src/Octets/Writes.antt =====
-- What writing to a buffer does, as the bytes that it puts at the offset, with rules to compose it
-- along a `do` block.
use dtp.Base.{
  ℕ, suc, ◌+◌, ◌≤◌, ◌<◌, ◌≡◌, refl, ◌∙◌, sym, ap, List, [], ◌∷◌, ◌++◌, length, take, drop, arith,
  length-append, length-drop, length-take, take-append_length, drop-append_length, drop-drop,
  append_assoc, ok, err, Error, set-append, get_or-append, bit_or, take-append-drop,
}
use dtp.Base.Bytes.{to_be, length-to_be}
use dtp.Octets.{pure}
use dtp.Octets.{Octets, M, ◌>>=◌, ◌>>◌, overwrite, put_u, put_bytes, or_first}
use native.Mathlib.Decide.{dec_le}

abbrev pub written : List ℕ → Octets → Octets
written bs b = record { buf = overwrite b.buf b.off bs; off = b.off + length bs }

-- `m` writes `bs` where they fit, and answers `buffer_too_short` where they do not.
pub record Writes (m : M (Unit {0})) (bs : List ℕ) : Type 0 where
  pub fits : (b : Octets) → b.off + length bs ≤ length b.buf → m b ≡ ok (tt, written bs b)
  pub short :
      (b : Octets)
      → b.off ≤ length b.buf
      → length b.buf < b.off + length bs
      → m b ≡ err Error.buffer_too_short

pub length-overwrite :
    (buf : List ℕ) (off : ℕ) (bs : List ℕ)
    → off + length bs ≤ length buf
    → length (overwrite buf off bs) ≡ length buf
length-overwrite buf off bs h = omega (
  arith,
  length-append (take off buf) (bs ++ drop (off + length bs) buf),
  length-append bs (drop (off + length bs) buf),
  length-take off buf,
  length-drop (off + length bs) buf,
)

-- What is left and what stands before, around the bytes written.
pub drop-overwrite :
    (buf : List ℕ) (off : ℕ) (bs : List ℕ)
    → off + length bs ≤ length buf
    → drop off (overwrite buf off bs) ≡ bs ++ drop (off + length bs) buf
drop-overwrite buf off bs h =
    drop-append_length (take off buf) _ off (omega (arith, length-take off buf))

drop-overwrite_end :
    (buf : List ℕ) (off : ℕ) (bs : List ℕ)
    → off + length bs ≤ length buf
    → drop (off + length bs) (overwrite buf off bs) ≡ drop (off + length bs) buf
drop-overwrite_end buf off bs h =
    sym (drop-drop (length bs) off _ _ refl)
    ∙ ap (drop (length bs)) (drop-overwrite buf off bs h)
    ∙ drop-append_length bs _ _ refl

take-overwrite :
    (buf : List ℕ) (off : ℕ) (bs : List ℕ)
    → off + length bs ≤ length buf
    → take (off + length bs) (overwrite buf off bs) ≡ take off buf ++ bs
take-overwrite buf off bs h = rw (← append_assoc (take off buf) bs (drop (off + length bs) buf)) (
    take-append_length (take off buf ++ bs) _ _
      (omega (arith, length-append (take off buf) bs, length-take off buf)))

overwrite-overwrite :
    (buf : List ℕ) (off : ℕ) (xs ys : List ℕ)
    → off + length (xs ++ ys) ≤ length buf
    → overwrite (overwrite buf off xs) (off + length xs) ys ≡ overwrite buf off (xs ++ ys)
overwrite-overwrite buf off xs ys h =
    let l : length (xs ++ ys) ≡ length xs + length ys = length-append xs ys in
    let room : off + length xs ≤ length buf = omega arith in
    let left : drop (off + length xs + length ys) (overwrite buf off xs)
        ≡ drop (off + length (xs ++ ys)) buf =
      sym (drop-drop (length ys) (off + length xs) _ _ refl)
      ∙ ap (drop (length ys)) (drop-overwrite_end buf off xs room)
      ∙ drop-drop (length ys) (off + length xs) _ buf (omega arith) in
    rw (take-overwrite buf off xs room, left)
      (append_assoc (take off buf) xs _ ∙ ap (λ t. take off buf ++ t) (sym (append_assoc xs ys _)))

pub written-written :
    (xs ys : List ℕ) (b : Octets)
    → b.off + length (xs ++ ys) ≤ length b.buf
    → written ys (written xs b) ≡ written (xs ++ ys) b
written-written xs ys b h =
    let e : b.off + length xs + length ys ≡ b.off + length (xs ++ ys) =
      omega (arith, length-append xs ys) in
    cc (overwrite-overwrite b.buf b.off xs ys h, e)

pub Writes-bind :
    (m k : M (Unit {0})) (xs ys : List ℕ) → Writes m xs → Writes k ys → Writes (m >> k) (xs ++ ys)
Writes-bind m k xs ys p q = record { fits = both; short = neither }
  where
    both :
        (b : Octets)
        → b.off + length (xs ++ ys) ≤ length b.buf
        → (m >> k) b ≡ ok (tt, written (xs ++ ys) b)
    both b h =
        let l : length (xs ++ ys) ≡ length xs + length ys = length-append xs ys in
        let room : b.off + length xs ≤ length b.buf = omega arith in
        rw (p.fits b room, ◌>>=◌)
          (q.fits (written xs b) (omega (arith, length-overwrite b.buf b.off xs room))
            ∙ ap (λ s. ok (tt, s)) (written-written xs ys b h))

    neither :
        (b : Octets)
        → b.off ≤ length b.buf
        → length b.buf < b.off + length (xs ++ ys)
        → (m >> k) b ≡ err Error.buffer_too_short
    neither b i h =
        let l : length (xs ++ ys) ≡ length xs + length ys = length-append xs ys in
        elim (dec_le (b.off + length xs) (length b.buf)) [
          | yes room ↦
              rw (p.fits b room, ◌>>=◌)
                (q.short (written xs b) (omega (arith, length-overwrite b.buf b.off xs room))
                  (omega (arith, length-overwrite b.buf b.off xs room)))
          | no full ↦ rw (p.short b i (omega arith), ◌>>=◌) refl
        ]

pub put_u-Writes : (n v : ℕ) → Writes (put_u n v) (to_be n v)
unfolding put_u
put_u-Writes n v = record {
  fits = λ b h. ground (arith, length-to_be n v);
  short = λ b i h. ground (arith, length-to_be n v);
}

pub put_bytes-Writes : (v : List ℕ) → Writes (put_bytes v) v
unfolding put_bytes
put_bytes-Writes [] = record {
  fits = λ b h.
      let e : b.off + 0 ≡ b.off = omega arith in
      let keep : overwrite b.buf b.off [] ≡ b.buf = rw e (take-append-drop b.off b.buf) in
      ground (arith, keep);
  short = λ b i h. ground arith;
}
put_bytes-Writes (x ∷ v) = record { fits = λ b h. ground arith; short = λ b i h. ground arith }

-- A write of `x ∷ ys` whose first byte is then changed by a mask.
pub or_first-Writes :
    (m : M (Unit {0})) (x mask : ℕ) (ys : List ℕ)
    → Writes m (x ∷ ys)
    → Writes (λ b. (m >> or_first b.off mask) b) (bit_or x mask ∷ ys)
unfolding or_first
or_first-Writes m x mask ys p = record {
  fits = λ b h.
      let e : b.off ≡ length (take b.off b.buf) = omega (arith, length-take b.off b.buf) in
      rw (p.fits b h, ◌>>=◌)
        (rw
          (
            get_or-append (take b.off b.buf) (ys ++ drop (b.off + suc (length ys)) b.buf) x 0 b.off
                e,
            set-append (take b.off b.buf) (ys ++ drop (b.off + suc (length ys)) b.buf) x
                (bit_or x mask) b.off e,
          )
          refl);
  short = λ b i h. rw (p.short b i h, ◌>>=◌) refl;
}

pub Writes-pure : Writes (pure tt) []
Writes-pure = record {
  fits = λ b h.
      let e : b.off + 0 ≡ b.off = omega arith in
      let keep : overwrite b.buf b.off [] ≡ b.buf = rw e (take-append-drop b.off b.buf) in
      cc (keep, e);
  short = λ b i h. absurd (omega arith);
}
