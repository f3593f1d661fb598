-- ===== src/Packet/Number.antt =====
-- src/packet.rs: packet numbers on the wire, `pkt_num_len`, `encode_pkt_num` and `decode_pkt_num`.
use dtp.Base.{
  ℕ, zero, suc, ◌+◌, ◌-◌, ◌*◌, ◌/◌, ◌%◌, ◌^◌, ◌≤◌, ◌<◌, ◌≡◌, refl, sym, subst, ◌∙◌, ◌⊎◌, inl, inr,
  ◌&&◌, ltb, leb, ◌==◌, if◌then◌else◌, arith, length, drop, length-append, Result, ok, err, Error,
}
use dtp.Base.Bytes.{to_be, from_be, length-to_be, from_be-to_be_2, from_be-to_be_4}
use dtp.Octets.Reads.{get_u-Reads}
use dtp.Octets.Writes.{Writes, written, put_u-Writes, drop-overwrite}
use dtp.Octets.{Octets, get_u, put_u, M, fail, lift, ◌>>=◌, put_u8, put_u16, put_u24, put_u32}

unfoldable pub pkt_num_len : ℕ → Result ℕ
pkt_num_len pn =
    if ltb pn (2 ^ 8 - 1)
    then ok 1
    else if ltb pn (2 ^ 16 - 1)
    then ok 2
    else if ltb pn (2 ^ 32 - 1)
    then ok 4
    else err Error.invalid_packet

-- The `match` of `encode_pkt_num`.
unfoldable pub put_pkt_num : ℕ → ℕ → M (Unit {0})
put_pkt_num pn n =
    if n == 1
    then put_u8 (pn % 2 ^ 8)
    else if n == 2
    then put_u16 (pn % 2 ^ 16)
    else if n == 3
    then put_u24 (pn % 2 ^ 32)
    else if n == 4
    then put_u32 (pn % 2 ^ 32)
    else fail Error.invalid_packet

unfoldable pub encode_pkt_num : ℕ → M (Unit {0})
unfolding pkt_num_len put_pkt_num
encode_pkt_num pn = do n ← lift (pkt_num_len pn); put_pkt_num pn n

-- `(expected_pn & !pn_mask) | truncated_pn`: the low bits, `pn_win` of them counted, are replaced.
-- The callers read `truncated_pn` from `pn_len` bytes, so that `|` adds.
unfoldable pub candidate : ℕ → ℕ → ℕ → ℕ
candidate expected_pn pn_win truncated_pn = expected_pn / pn_win * pn_win + truncated_pn

unfoldable pub decode_pkt_num : ℕ → ℕ → ℕ → ℕ
unfolding candidate
decode_pkt_num largest_pn truncated_pn pn_len =
    let expected_pn = largest_pn + 1 in
    let pn_win = 2 ^ (pn_len * 8) in
    let pn_hwin = pn_win / 2 in
    let candidate_pn = candidate expected_pn pn_win truncated_pn in
    if leb (candidate_pn + pn_hwin) expected_pn && ltb candidate_pn (2 ^ 62 - pn_win)
    then candidate_pn + pn_win
    else if ltb (expected_pn + pn_hwin) candidate_pn && leb pn_win candidate_pn
    then candidate_pn - pn_win
    else candidate_pn

-- A candidate is the number or off by a window.
abbrev IsNear : ℕ → ℕ → ℕ → Type 0
IsNear c w pn = (c ≡ pn) ⊎ ((c + w ≡ pn) ⊎ (c ≡ pn + w))

choose :
    (e w hw c pn : ℕ)
    → hw + hw ≡ w
    → w ≤ 2 ^ 62
    → pn < 2 ^ 62
    → e < pn + hw
    → pn ≤ e + hw
    → IsNear c w pn
    → (if leb (c + hw) e && ltb c (2 ^ 62 - w)
        then c + w
        else if ltb (e + hw) c && leb w c
        then c - w
        else c)
      ≡ pn
choose e w hw c pn h l m lo hi q = ground arith

candidate-IsNear_1 :
    (e pn : ℕ)
    → e < pn + 2 ^ 7
    → pn ≤ e + 2 ^ 7
    → IsNear (candidate e (2 ^ 8) (pn % 2 ^ 8)) (2 ^ 8) pn
unfolding candidate
candidate-IsNear_1 e pn lo hi = ground arith

candidate-IsNear_2 :
    (e pn : ℕ)
    → e < pn + 2 ^ 15
    → pn ≤ e + 2 ^ 15
    → IsNear (candidate e (2 ^ 16) (pn % 2 ^ 16)) (2 ^ 16) pn
unfolding candidate
candidate-IsNear_2 e pn lo hi = ground arith

candidate-IsNear_3 :
    (e pn : ℕ)
    → e < pn + 2 ^ 23
    → pn ≤ e + 2 ^ 23
    → IsNear (candidate e (2 ^ 24) (pn % 2 ^ 24)) (2 ^ 24) pn
unfolding candidate
candidate-IsNear_3 e pn lo hi = ground arith

candidate-IsNear_4 :
    (e pn : ℕ)
    → e < pn + 2 ^ 31
    → pn ≤ e + 2 ^ 31
    → IsNear (candidate e (2 ^ 32) (pn % 2 ^ 32)) (2 ^ 32) pn
unfolding candidate
candidate-IsNear_4 e pn lo hi = ground arith

-- A packet number below 2 ^ 62 is decoded from its low one to four bytes where it is within half a window of the one that
-- is expected after the largest.
pub decode_pkt_num_lem :
    (largest_pn pn pn_len : ℕ)
    → 0 < pn_len
    → pn_len ≤ 4
    → pn < 2 ^ 62
    → largest_pn + 1 < pn + 2 ^ (pn_len * 8) / 2
    → pn ≤ largest_pn + 1 + 2 ^ (pn_len * 8) / 2
    → decode_pkt_num largest_pn (pn % 2 ^ (pn_len * 8)) pn_len ≡ pn
unfolding decode_pkt_num
decode_pkt_num_lem l pn zero z h b lo hi = absurd (omega arith)
decode_pkt_num_lem l pn (suc zero) z h b lo hi =
    choose (l + 1) (2 ^ 8) (2 ^ 7) _ pn refl (omega arith) b lo hi
      (candidate-IsNear_1 (l + 1) pn lo hi)
decode_pkt_num_lem l pn (suc (suc zero)) z h b lo hi =
    choose (l + 1) (2 ^ 16) (2 ^ 15) _ pn refl (omega arith) b lo hi
      (candidate-IsNear_2 (l + 1) pn lo hi)
decode_pkt_num_lem l pn (suc (suc (suc zero))) z h b lo hi =
    choose (l + 1) (2 ^ 24) (2 ^ 23) _ pn refl (omega arith) b lo hi
      (candidate-IsNear_3 (l + 1) pn lo hi)
decode_pkt_num_lem l pn (suc (suc (suc (suc zero)))) z h b lo hi =
    choose (l + 1) (2 ^ 32) (2 ^ 31) _ pn refl (omega arith) b lo hi
      (candidate-IsNear_4 (l + 1) pn lo hi)
decode_pkt_num_lem l pn (suc (suc (suc (suc (suc n))))) z h b lo hi = absurd (omega arith)

-- The lengths that `pkt_num_len` returns, and that the number fits in.
abbrev HasLen : ℕ → ℕ → Type 0
HasLen pn n = ((n ≡ 1) × (pn < 2 ^ 8)) ⊎ (((n ≡ 2) × (pn < 2 ^ 16)) ⊎ ((n ≡ 4) × (pn < 2 ^ 32)))

pkt_num_len-HasLen : (pn n : ℕ) → pkt_num_len pn ≡ ok n → HasLen pn n
unfolding pkt_num_len
pkt_num_len-HasLen pn n e = ground (arith, e)

put_low-Writes : (n u pn : ℕ) → u ≡ pn → Writes (put_u n u) (to_be n pn)
put_low-Writes n u pn e = subst (λ v. Writes (put_u n u) (to_be n v)) e (put_u-Writes n u)

put_pkt_num-Writes : (pn n : ℕ) → HasLen pn n → Writes (put_pkt_num pn n) (to_be n pn)
unfolding put_pkt_num
put_pkt_num-Writes pn n (inl h) =
    subst (λ i. Writes (put_pkt_num pn i) (to_be i pn)) (sym h.0)
      (put_low-Writes 1 (pn % 2 ^ 8) pn (omega (arith, h.1)))
put_pkt_num-Writes pn n (inr (inl h)) =
    subst (λ i. Writes (put_pkt_num pn i) (to_be i pn)) (sym h.0)
      (put_low-Writes 2 (pn % 2 ^ 16) pn (omega (arith, h.1)))
put_pkt_num-Writes pn n (inr (inr h)) =
    subst (λ i. Writes (put_pkt_num pn i) (to_be i pn)) (sym h.0)
      (put_low-Writes 4 (pn % 2 ^ 32) pn (omega (arith, h.1)))

from_be-to_be_len : (pn n : ℕ) → HasLen pn n → from_be 0 (to_be n pn) ≡ pn
from_be-to_be_len pn n (inl h) = rw h.0 (omega (arith, h.1))
from_be-to_be_len pn n (inr (inl h)) = rw h.0 (from_be-to_be_2 pn ∙ omega (arith, h.1))
from_be-to_be_len pn n (inr (inr h)) = rw h.0 (from_be-to_be_4 pn ∙ omega (arith, h.1))

low_lem : (pn n : ℕ) → HasLen pn n → (pn % 2 ^ (n * 8) ≡ pn) × (0 < n) × (n ≤ 4) × (pn < 2 ^ 62)
low_lem pn n (inl h) = rw h.0 (omega (arith, h.1), omega arith, omega arith, omega (arith, h.1))
low_lem pn n (inr (inl h)) =
    rw h.0 (omega (arith, h.1), omega arith, omega arith, omega (arith, h.1))
low_lem pn n (inr (inr h)) =
    rw h.0 (omega (arith, h.1), omega arith, omega arith, omega (arith, h.1))

encode_pkt_num_lem :
    (pn n : ℕ) (b b' : Octets)
    → pkt_num_len pn ≡ ok n
    → put_pkt_num pn n b ≡ ok (tt, b')
    → encode_pkt_num pn b ≡ ok (tt, b')
unfolding encode_pkt_num
encode_pkt_num_lem pn n b b' e h = rw (e, ◌>>=◌) h

-- A packet number below 2 ^ 32 - 1 is written in the bytes that `pkt_num_len` counts, its low
-- ones, and is read back from them by `decode_pkt_num` where it is within half a window of the one
-- expected after the largest.
pub decode_pkt_num-encode_pkt_num :
    (largest_pn pn n : ℕ) (b : Octets)
    → pkt_num_len pn ≡ ok n
    → b.off + n ≤ length b.buf
    → largest_pn + 1 < pn + 2 ^ (n * 8) / 2
    → pn ≤ largest_pn + 1 + 2 ^ (n * 8) / 2
    → (x : ℕ) × (b' : Octets) × (encode_pkt_num pn b ≡ ok (tt, b'))
      × (get_u n (record b' { off = b.off }) ≡ ok (x, b'))
      × (decode_pkt_num largest_pn x n ≡ pn)
decode_pkt_num-encode_pkt_num l pn n b e room lo hi =
    let k = pkt_num_len-HasLen pn n e in
    let (low, pos, four, wide) = low_lem pn n k in
    let m : length (to_be n pn) ≡ n = length-to_be n pn in
    let t = drop (b.off + length (to_be n pn)) b.buf in
    let b' : Octets = written (to_be n pn) b in
    let (b2, run, left, w, q) =
      (get_u-Reads (to_be n pn) t).run (record b' { off = b.off })
        (drop-overwrite b.buf b.off (to_be n pn) (omega arith)) in
    let off : b2.off ≡ b'.off = omega (arith, q, length-append (to_be n pn) t) in
    let same : b2 ≡ b' = cc (w, off) in
    (
      pn,
      b',
      encode_pkt_num_lem pn n b b' e ((put_pkt_num-Writes pn n k).fits b (omega arith)),
      subst (λ i. get_u i (record b' { off = b.off }) ≡ ok (pn, b')) m
          (run ∙ cc (from_be-to_be_len pn n k, same)),
      subst (λ x. decode_pkt_num l x n ≡ pn) low (decode_pkt_num_lem l pn n pos four wide lo hi),
    )
