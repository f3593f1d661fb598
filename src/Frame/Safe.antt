-- ===== src/Frame/Safe.antt =====
-- `from_bytes` on any input: no panic, and progress.
use dtp.Base.{
  ℕ, zero, suc, ◌+◌, ◌-◌, ◌%◌, ◌^◌, ◌≤◌, ◌<◌, ◌≡◌, refl, Bool, true, false, ◌&&◌, not, List, length,
  arith, Result, ok, err, panic, Error, if◌then◌else◌, ltb, leb, ◌==◌, Bool-cases, inl, inr, ◌∙◌,
  subst,
}
use dtp.Octets.{
  M, Octets, ◌>>=◌, ◌>>◌, pure, fail_if, get_varint, peek_u, get_u, as_ref, get_cap, get_bytes,
  get_bytes_with_varint_length, get_bytes_with_u8_length,
}
use dtp.Octets.Safe.{
  Safe, Stays, IsValid, IsValid-stays, Safe-bind, Safe-pure, Safe-fail, Safe-get_cap, Safe-guard,
  Safe-if, get_u-Safe, get_bytes-Safe, get_varint-Safe, get_bytes_with_varint_length-Safe,
  get_bytes_with_u8_length-Safe, get_varint-progress,
}
use dtp.Ranges.{RangeSet}
use dtp.Packet.{PacketType}
use dtp.Frame.{Frame, allowed}
use dtp.Frame.Parse.{
  ack_loop, parse_ack_frame, parse_stream_frame, parse_frame, from_bytes, padding_loop,
  parse_padding, peeks_zero, has_bit, max_stream_size,
}

num : {B : Type 0} (f : ℕ → M B) → ((v : ℕ) → Safe (f v)) → Safe (get_varint >>= f)
num f h = Safe-bind get_varint f get_varint-Safe h

blob :
    {B : Type 0} (f : List ℕ → M B)
    → ((v : List ℕ) → Safe (f v))
    → Safe (get_bytes_with_varint_length >>= f)
blob f h = Safe-bind get_bytes_with_varint_length f get_bytes_with_varint_length-Safe h

peeks_zero-Safe : Safe peeks_zero
unfolding peeks_zero peek_u
peeks_zero-Safe = record { run = λ b v. ground (arith, v.within) }

padding_loop-Safe : (fuel len : ℕ) → Safe (padding_loop fuel len)
unfolding padding_loop
padding_loop-Safe zero len = Safe-pure len
padding_loop-Safe (suc fuel) len =
    Safe-bind peeks_zero _ peeks_zero-Safe (rest (padding_loop-Safe fuel (len + 1)))
  where
    rest :
        Safe (padding_loop fuel (len + 1))
        → (more : Bool)
        → Safe (elim more [ true ↦ get_u 1 >> padding_loop fuel (len + 1) | false ↦ pure len ])
    rest next true = Safe-bind (get_u 1) _ (get_u-Safe 1) (λ _. next)
    rest next false = Safe-pure len

parse_padding-Safe : Safe parse_padding
unfolding parse_padding
parse_padding-Safe = record {
  run = λ b v.
      (Safe-bind (padding_loop (length (as_ref b)) 1) _ (padding_loop-Safe (length (as_ref b)) 1)
          (λ len. Safe-pure (Frame.padding len))).run
        b v;
}

ack_loop-Safe : (n s : ℕ) (m : RangeSet) → Safe (ack_loop n s m)
unfolding ack_loop
ack_loop-Safe zero s m = Safe-pure m
ack_loop-Safe (suc n) s m = num _ (λ gap. Safe-guard (ltb s (2 + gap)) Error.invalid_frame _ (
    num _ (λ ack_block.
      Safe-guard (ltb (s - gap - 2) ack_block) Error.invalid_frame _ (ack_loop-Safe n _ _))))

parse_ack_frame-Safe : Safe parse_ack_frame
unfolding parse_ack_frame
parse_ack_frame-Safe = num _ (λ largest. num _ (λ time. num _ (λ delay. num _ (λ count.
    num _ (λ block. Safe-guard (ltb largest block) Error.invalid_frame _ (
      Safe-bind (ack_loop count (largest - block) _) _ (ack_loop-Safe count _ _)
        (λ m. Safe-pure _)))))))

parse_stream_frame-Safe : (ty : ℕ) → Safe (parse_stream_frame ty)
unfolding parse_stream_frame
parse_stream_frame-Safe ty = num _ (λ id.
    Safe-bind (if has_bit (ty % 2 ^ 8) 0x04 then get_varint else pure 0) _
      (Safe-if (has_bit (ty % 2 ^ 8) 0x04) get_varint (pure 0) get_varint-Safe (Safe-pure 0))
      (λ off.
        Safe-bind (if has_bit (ty % 2 ^ 8) 0x02 then get_varint else get_cap) _
          (Safe-if (has_bit (ty % 2 ^ 8) 0x02) get_varint get_cap get_varint-Safe Safe-get_cap)
          (λ len.
            Safe-guard (leb max_stream_size (off + len)) Error.invalid_frame _
              (Safe-bind (get_bytes len) _ (get_bytes-Safe len) (λ bs. Safe-pure _)))))

parse_frame-Safe : (ty : ℕ) → Safe (parse_frame ty)
unfolding parse_frame
parse_frame-Safe ty = Safe-if (ty == 0x00) _ _ (parse_padding-Safe) (
    Safe-if (ty == 0x01) _ _ (Safe-pure _) (
      Safe-if (ty == 0x02) _ _ (parse_ack_frame-Safe) (
        Safe-if (ty == 0x04) _ _
          (num _ (λ id. Safe-bind (get_u 2) _ (get_u-Safe 2) (λ e. num _ (λ s. Safe-pure _))))
          (Safe-if (ty == 0x05) _ _ (num _ (λ a. num _ (λ b. Safe-pure _))) (
            Safe-if (ty == 0x06) _ _ (num _ (λ off. blob _ (λ bs. Safe-pure _))) (
              Safe-if (ty == 0x07) _ _ (blob _ (λ bs. Safe-pure _)) (
                Safe-if (leb 0x08 ty && leb ty 0x0f) _ _ (parse_stream_frame-Safe ty) (
                  Safe-if (ty == 0x10) _ _ (num _ (λ a. Safe-pure _)) (
                    Safe-if (ty == 0x11) _ _ (num _ (λ a. num _ (λ b. Safe-pure _))) (
                      Safe-if (ty == 0x12) _ _ (num _ (λ a. Safe-pure _)) (
                        Safe-if (ty == 0x13) _ _ (num _ (λ a. Safe-pure _)) (
                          Safe-if (ty == 0x14) _ _ (num _ (λ a. Safe-pure _)) (
                            Safe-if (ty == 0x15) _ _ (num _ (λ a. num _ (λ b. Safe-pure _))) (
                              Safe-if (ty == 0x16) _ _ (num _ (λ a. Safe-pure _)) (
                                Safe-if (ty == 0x17) _ _ (num _ (λ a. Safe-pure _)) (
                                  Safe-if (ty == 0x18) _ _
                                    (num _ (λ a. num _ (λ b.
                                      Safe-bind get_bytes_with_u8_length _
                                        get_bytes_with_u8_length-Safe
                                        (λ c.
                                          Safe-bind (get_bytes 16) _ (get_bytes-Safe 16)
                                            (λ d. Safe-pure _)))))
                                    (Safe-if (ty == 0x19) _ _ (num _ (λ a. Safe-pure _)) (
                                      Safe-if (ty == 0x1a) _ _
                                        (Safe-bind (get_bytes 8) _ (get_bytes-Safe 8)
                                          (λ d. Safe-pure _))
                                        (Safe-if (ty == 0x1b) _ _
                                          (Safe-bind (get_bytes 8) _ (get_bytes-Safe 8)
                                            (λ d. Safe-pure _))
                                          (Safe-if (ty == 0x1c) _ _
                                            (num _ (λ a. num _ (λ b. blob _ (λ c. Safe-pure _))))
                                            (Safe-if (ty == 0x1d) _ _
                                              (num _ (λ a. blob _ (λ c. Safe-pure _)))
                                              (Safe-if (ty == 0x1e) _ _ (Safe-pure _) (
                                                Safe-if (ty == 0x20) _ _
                                                  (num _ (λ a. num _ (λ b.
                                                    num _ (λ c.
                                                      num _ (λ d. num _ (λ e. Safe-pure _))))))
                                                  (Safe-fail _))))))))))))))))))))))))

-- How `from_bytes` may end on a buffer `b`.
abbrev pub IsGood : PacketType → Octets → Result (Frame × Octets) → Type 0
IsGood pkt b (ok (f, b')) =
    (allowed pkt f ≡ true) × (b'.buf ≡ b.buf) × (b.off < b'.off) × (b'.off ≤ length b.buf)
IsGood pkt b (err e) = Unit {0}
IsGood pkt b panic = ⊥

-- On every buffer of bytes `from_bytes` returns a frame or an error, never a panic. A frame that
-- it returns is one that the packet type may carry, and its bytes, one at least, lie within the
-- buffer, which is unchanged.
pub from_bytes-IsGood :
    (pkt : PacketType) (b : Octets) → IsValid b → IsGood pkt b (from_bytes pkt b)
unfolding from_bytes
from_bytes-IsGood pkt b v = typed (get_varint b) refl (get_varint-Safe.run b v)
  where
    checked :
        (ty : ℕ) (b1 b2 : Octets) (f : Frame)
        → b2.buf ≡ b.buf
        → b.off < b2.off
        → b2.off ≤ length b.buf
        → IsGood pkt b ((fail_if (not (allowed pkt f)) Error.invalid_packet >> pure f) b2)
    checked ty b1 b2 f w lo hi = elim (Bool-cases (allowed pkt f)) [
      | inl e ↦ rw e (e, w, lo, hi)
      | inr e ↦ rw e tt
    ]

    body :
        (ty : ℕ) (b1 : Octets)
        → b1.buf ≡ b.buf
        → b.off < b1.off
        → b1.off ≤ length b.buf
        → (r : Result (Frame × Octets)) → parse_frame ty b1 ≡ r
        → Stays b1 r
        → IsGood pkt b (
            (parse_frame ty >>= λ f. fail_if (not (allowed pkt f)) Error.invalid_packet >> pure f)
              b1)
    body ty b1 w lo hi (ok (f, b2)) e s =
        rw (e, ◌>>=◌)
          (checked ty b1 b2 f (s.0 ∙ w) (omega arith)
            (subst (λ (l : List ℕ). b2.off ≤ length l) w s.2))
    body ty b1 w lo hi (err x) e s = rw (e, ◌>>=◌) tt
    body ty b1 w lo hi panic e s = absurd s

    typed :
        (r : Result (ℕ × Octets)) → get_varint b ≡ r → Stays b r → IsGood pkt b (from_bytes pkt b)
    typed (ok (ty, b1)) e s =
        rw (e, ◌>>=◌)
          (body ty b1 s.0 (get_varint-progress b b1 ty e) s.2 (parse_frame ty b1) refl
            ((parse_frame-Safe ty).run b1 (IsValid-stays b b1 v s.0 s.2)))
    typed (err x) e s = rw (e, ◌>>=◌) tt
    typed panic e s = absurd s
