-- ===== src/Frame/Parts.antt =====
-- The frames that are read by a loop or by flags: ACK, PADDING, STREAM.
use dtp.Base.{
  ℕ, zero, suc, ◌+◌, ◌-◌, ◌^◌, ◌≤◌, ◌<◌, ◌≡◌, ◌≢◌, refl, subst, Bool, true, false, List, [], ◌∷◌,
  ◌++◌, length, arith, append_assoc, replicate, lt→leb, leb, if◌then◌else◌, length-append,
  length-replicate,
}
use dtp.Octets.{Octets, ◌>>=◌, pure, peek_u, get_u, as_ref}
use dtp.Octets.Reads.{Reads, Reads-bind, Reads-pure, get_u-Reads}
use dtp.Octets.Varint.{varint, IsVarint}
use dtp.Octets.Rules.{read_num, read_bytes, read_pass, read_pass_ltb}
use dtp.Ranges.{Range, RangeSet, insert}
use dtp.Ranges.Insert.{IsSeparated, Above-trans}
use mathlib.Core.List.{reverse, reverse_aux}
use dtp.Stream.RangeBuf.{range_buf}
use dtp.Frame.{Frame}
use dtp.Frame.Parse.{
  ack_loop, parse_ack_frame, parse_stream_frame, padding_loop, parse_padding, peeks_zero,
  max_stream_size,
}
use dtp.Frame.Wire.{wire_blocks, wire_ack, Descends, IsDescending}
use dtp.Frame.Ack.{insert_below, insert_first}

ack_loop-Reads :
    (it : List Range) (s e : ℕ) (m : RangeSet) (t : List ℕ)
    → s ≤ 2 ^ 62
    → Descends s it
    → IsSeparated ((s, e) ∷ m)
    → Reads
        (ack_loop (length it) s ((s, e) ∷ m))
        (wire_blocks s it ++ t)
        (reverse_aux it ((s, e) ∷ m))
        t
unfolding ack_loop
ack_loop-Reads [] s e m t h d sep = Reads-pure _ t
ack_loop-Reads ((a, b) ∷ it) s e m t h d sep =
    let e1 : s - (s - b - 1) - 2 - (b - 1 - a) ≡ a = omega arith in
    let e2 : s - (s - b - 1) - 2 + 1 ≡ b = omega arith in
    simp append_assoc (
      read_num (s - b - 1) _ (omega arith) (
        read_pass_ltb s (2 + (s - b - 1)) _ _ (omega arith) (
          read_num (b - 1 - a) _ (omega arith) (
            read_pass_ltb (s - (s - b - 1) - 2) (b - 1 - a) _ _ (omega arith) (
              rw (e1, e2, insert_below a b s e m d.0 d.1 sep)
                (ack_loop-Reads it a b ((s, e) ∷ m) t (omega arith) d.2
                  (omega arith, (d.1, Above-trans b e m (omega arith) sep.1), sep)))))))

pub parse_ack_frame-Reads :
    (time delay : ℕ) (it : List Range) (t : List ℕ)
    → IsVarint time
    → IsVarint delay
    → IsVarint (length it)
    → IsDescending it
    → Reads parse_ack_frame (wire_ack time delay it ++ t) (Frame.ack time delay (reverse it)) t
unfolding parse_ack_frame
parse_ack_frame-Reads time delay [] t ht hd hl d = absurd d
parse_ack_frame-Reads time delay ((a, b) ∷ it) t ht hd hl d =
    let e1 : b - 1 - (b - 1 - a) ≡ a = omega arith in
    let e2 : b - 1 + 1 ≡ b = omega arith in
    let one : insert (a, b) [] ≡ (a, b) ∷ [] = insert_first a b (omega arith) in
    simp append_assoc (
      read_num (b - 1) _ (omega arith) (
        read_num time _ ht (
          read_num delay _ hd (
            read_num (length it) _ (omega arith) (
              read_num (b - 1 - a) _ (omega arith) (
                read_pass_ltb (b - 1) (b - 1 - a) _ _ (omega arith) (
                  rw (e1, e2, one)
                    (Reads-bind (ack_loop (length it) a ((a, b) ∷ [])) _
                      (ack_loop-Reads it a b [] t (omega arith) d.2 (omega arith, tt, tt))
                      (Reads-pure _ t)))))))))

-- PADDING takes every zero byte that follows.
abbrev pub NoZero : List ℕ → Type 0
NoZero [] = Unit {0}
NoZero (x ∷ t) = x ≢ 0

peeks_zero-Reads : (t : List ℕ) → Reads peeks_zero (0 ∷ t) true (0 ∷ t)
unfolding peeks_zero peek_u
peeks_zero-Reads t = record { run = λ b h. (b, ground (arith, h), h, refl, refl) }

peeks_zero_not : (t : List ℕ) → NoZero t → Reads peeks_zero t false t
unfolding peeks_zero peek_u
peeks_zero_not [] z = record { run = λ b h. (b, ground (arith, h), h, refl, refl) }
peeks_zero_not (x ∷ t) z = record { run = λ b h. (b, ground (arith, h), h, refl, refl) }

padding_loop-Reads :
    (n fuel len : ℕ) (t : List ℕ)
    → n ≤ fuel
    → NoZero t
    → Reads (padding_loop fuel len) (replicate n 0 ++ t) (len + n) t
unfolding padding_loop
padding_loop-Reads zero zero len t h z =
    subst (λ k. Reads (pure len) t k t) (omega arith) (Reads-pure len t)
padding_loop-Reads zero (suc fuel) len t h z =
    Reads-bind peeks_zero _ (peeks_zero_not t z)
      (subst (λ k. Reads (pure len) t k t) (omega arith) (Reads-pure len t))
padding_loop-Reads (suc n) zero len t h z = absurd (omega arith)
padding_loop-Reads (suc n) (suc fuel) len t h z =
    Reads-bind peeks_zero _ (peeks_zero-Reads (replicate n 0 ++ t)) (
      Reads-bind (get_u 1) _ (get_u-Reads (0 ∷ []) (replicate n 0 ++ t)) (
        subst (λ k. Reads (padding_loop fuel (len + 1)) (replicate n 0 ++ t) k t) (omega arith)
          (padding_loop-Reads n fuel (len + 1) t (omega arith) z)))

pub parse_padding-Reads :
    (n : ℕ) (t : List ℕ)
    → NoZero t
    → Reads parse_padding (replicate n 0 ++ t) (Frame.padding (suc n)) t
unfolding parse_padding
parse_padding-Reads n t z = record { run = λ b h. (loop (length (as_ref b)) (enough b h)).run b h }
  where
    enough : (b : Octets) → as_ref b ≡ replicate n 0 ++ t → n ≤ length (as_ref b)
    enough b h = rw h (omega (arith, length-append (replicate n 0) t, length-replicate {A = ℕ} n 0))

    counted : 1 + n ≡ suc n
    counted = omega arith

    loop :
        (fuel : ℕ)
        → n ≤ fuel
        → Reads
            (padding_loop fuel 1 >>= λ len. pure (Frame.padding len))
            (replicate n 0 ++ t)
            (Frame.padding (suc n))
            t
    loop fuel h =
        subst
          (λ k.
            Reads (padding_loop fuel 1 >>= λ len. pure (Frame.padding len)) (replicate n 0 ++ t)
              (Frame.padding k) t)
          counted
          (Reads-bind (padding_loop fuel 1) _ (padding_loop-Reads n fuel 1 t h z) (Reads-pure _ t))

pub parse_stream-Reads :
    (fin : Bool) (id off : ℕ) (bytes t : List ℕ)
    → IsVarint id
    → off + length bytes < 2 ^ 62
    → Reads
        (parse_stream_frame (if fin then 0x0f else 0x0e))
        (varint id ++ (varint off ++ (varint (length bytes) ++ (bytes ++ t))))
        (Frame.stream id (range_buf bytes off fin))
        t
unfolding parse_stream_frame
parse_stream-Reads true id off bytes t h k = read_num id _ h (
    read_num off _ (omega arith) (
      read_num (length bytes) _ (omega arith) (
        read_pass (leb max_stream_size (off + length bytes)) _ _ (lt→leb _ _ k)
          (read_bytes (length bytes) bytes _ refl (Reads-pure _ t)))))
parse_stream-Reads false id off bytes t h k = read_num id _ h (
    read_num off _ (omega arith) (
      read_num (length bytes) _ (omega arith) (
        read_pass (leb max_stream_size (off + length bytes)) _ _ (lt→leb _ _ k)
          (read_bytes (length bytes) bytes _ refl (Reads-pure _ t)))))
