-- ===== src/Packet/Header/Safe.antt =====
-- `from_bytes` on any datagram: no panic, and fuel enough for the versions.
use dtp.Base.{
  ℕ, zero, suc, ◌+◌, ◌-◌, ◌≤◌, ◌<◌, ◌≡◌, ◌⊎◌, inl, inr, refl, none, some, List, [], ◌∷◌, ◌++◌,
  length, length-drop, arith, ok, err, Error, if◌then◌else◌, ltb, ◌==◌, Bool-cases,
}
use dtp.Base.Bytes.{from_be}
use dtp.Octets.{
  M, Octets, ◌>>=◌, get_u, peek_u, get_cap, cap, as_ref, slice_at, advance, get_bytes,
  get_bytes_with_varint_length,
}
use dtp.Octets.Safe.{
  Safe, Stays, Stays-trans, IsValid, IsValid-stays, Safe-bind, Safe-pure, Safe-fail, Safe-get_cap,
  Safe-guard, Safe-if, get_u-Safe, get_bytes-Safe, get_bytes_with_varint_length-Safe,
}
use dtp.Packet.{PacketType, initial, retry, handshake, zero_rtt, version_negotiation, short}
use dtp.Packet.Header.{
  is_long, skip, parse_short, long_type, parse_cid, parse_versions, parse_all_versions, parse_rest,
  parse_long, from_bytes,
}

number_of : {B : Type 0} (n : ℕ) (f : ℕ → M B) → ((v : ℕ) → Safe (f v)) → Safe (get_u n >>= f)
number_of n f h = Safe-bind (get_u n) f (get_u-Safe n) h

skip-Safe : (n : ℕ) → Safe (skip n)
unfolding skip
skip-Safe zero = Safe-pure tt
skip-Safe (suc n) = number_of 1 _ (λ _. skip-Safe n)

parse_short-Safe : (n : ℕ) → Safe (parse_short n)
unfolding parse_short
parse_short-Safe n = Safe-bind (get_bytes n) _ (get_bytes-Safe n) (λ dcid.
    number_of 4 _ (λ group_id. number_of 1 _ (λ index. number_of 1 _ (λ m. number_of 1 _ (λ n.
      number_of 1 _
        (λ padding. Safe-bind (skip padding) _ (skip-Safe padding) (λ _. Safe-pure _)))))))

long_type-Safe : (version first : ℕ) → Safe (long_type version first)
unfolding long_type
long_type-Safe version first = Safe-if _ _ _ (Safe-pure version_negotiation) (
    Safe-if _ _ _ (Safe-pure initial) (
      Safe-if _ _ _ (Safe-pure zero_rtt) (
        Safe-if _ _ _ (Safe-pure handshake)
          (Safe-if _ _ _ (Safe-pure retry) (Safe-fail Error.invalid_packet)))))

parse_cid-Safe : (version : ℕ) → Safe (parse_cid version)
unfolding parse_cid
parse_cid-Safe version = number_of 1 _ (λ n. Safe-guard _ Error.invalid_packet _ (get_bytes-Safe n))

get_u32_cases :
    (b : Octets)
    → (get_u 4 b ≡ err Error.buffer_too_short)
      ⊎ ((v : ℕ) × (get_u 4 b ≡ ok (v, advance 4 b)) × (b.off + 4 ≤ length b.buf))
unfolding get_u peek_u
get_u32_cases b =
    let l : length (as_ref b) ≡ length b.buf - b.off = length-drop b.off b.buf in
    elim (Bool-cases (ltb (length (as_ref b)) 4)) [
      | inl e ↦ inl (rw (get_u, peek_u, e) refl)
      | inr e ↦ inr (from_be 0 (slice_at 4 b), rw (get_u, peek_u, e) refl, ground (arith, e, l))
    ]

-- Each round reads four bytes, so the room that is left is fuel enough.
parse_versions-Stays :
    (fuel : ℕ) (list : List ℕ) (b : Octets)
    → IsValid b
    → cap b < fuel
    → Stays b (parse_versions fuel list b)
unfolding parse_versions
parse_versions-Stays zero list b v h = absurd (omega arith)
parse_versions-Stays (suc fuel) list b v h = elim (Bool-cases (cap b == 0)) [
  | inl z ↦ rw (parse_versions, z) (refl, omega arith, v.within)
  | inr z ↦ elim (get_u32_cases b) [
    | inl e ↦ rw (parse_versions, z, ◌>>=◌, e) tt
    | inr (x, e, room) ↦
        let valid = IsValid-stays b (advance 4 b) v refl room in
        rw (parse_versions, z, ◌>>=◌, e)
          (Stays-trans b (advance 4 b) (parse_versions fuel (list ++ (x ∷ [])) (advance 4 b)) refl
            (omega arith)
            (parse_versions-Stays fuel (list ++ (x ∷ [])) (advance 4 b) valid (omega arith)))
  ]
]

parse_all_versions-Safe : Safe parse_all_versions
unfolding parse_all_versions
parse_all_versions-Safe = record {
  run = λ b v. parse_versions-Stays (suc (cap b)) [] b v (omega arith);
}

parse_rest-Safe : (tag_len : ℕ) (ty : PacketType) → Safe (parse_rest tag_len ty)
unfolding parse_rest
parse_rest-Safe tag_len initial =
    Safe-bind get_bytes_with_varint_length _ get_bytes_with_varint_length-Safe
      (λ token. Safe-pure (some token, none))
parse_rest-Safe tag_len retry = Safe-bind get_cap _ Safe-get_cap (λ left.
    Safe-guard (ltb left tag_len) Error.invalid_packet _ (
      Safe-bind (get_bytes (left - tag_len)) _ (get_bytes-Safe (left - tag_len))
        (λ token. Safe-pure (some token, none))))
parse_rest-Safe tag_len version_negotiation =
    Safe-bind parse_all_versions _ parse_all_versions-Safe (λ list. Safe-pure (none, some list))
parse_rest-Safe tag_len handshake = Safe-pure (none, none)
parse_rest-Safe tag_len zero_rtt = Safe-pure (none, none)
parse_rest-Safe tag_len short = Safe-pure (none, none)

parse_long-Safe : (tag_len first : ℕ) → Safe (parse_long tag_len first)
unfolding parse_long
parse_long-Safe tag_len first = number_of 4 _ (λ version.
    Safe-bind (long_type version first) _ (long_type-Safe version first) (λ ty.
      Safe-bind (parse_cid version) _ (parse_cid-Safe version) (λ dcid.
        Safe-bind (parse_cid version) _ (parse_cid-Safe version) (λ scid.
          Safe-bind (parse_rest tag_len ty) _ (parse_rest-Safe tag_len ty) (λ rest. Safe-pure _)))))

-- On any bytes, with the offset within them, the parser of headers does not panic and does not run
-- out of fuel; it writes nothing, and a result moves the offset forward, within the buffer.
pub from_bytes-Stays :
    (tag_len dcid_len : ℕ) (b : Octets) → IsValid b → Stays b (from_bytes tag_len dcid_len b)
unfolding from_bytes
from_bytes-Stays tag_len dcid_len b v =
    (number_of 1 (λ first. if is_long first then parse_long tag_len first else parse_short dcid_len)
        (λ first.
          Safe-if (is_long first) _ _ (parse_long-Safe tag_len first)
            (parse_short-Safe dcid_len))).run
      b v
