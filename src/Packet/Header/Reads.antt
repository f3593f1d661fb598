-- ===== src/Packet/Header/Reads.antt =====
-- `from_bytes` reads a wire form as the header, without what is protected.
use dtp.Base.{
  ℕ, zero, suc, ◌+◌, ◌-◌, ◌*◌, ◌/◌, ◌^◌, ◌≤◌, ◌<◌, ◌≡◌, refl, ◌&&◌, Bool, true, false, Option, none,
  some, List, [], ◌++◌, append_assoc, replicate, length, length-append, bit_and, if◌then◌else◌, ltb,
  arith, Error,
}
use dtp.Base.Bytes.{to_be}
use dtp.Octets.{◌>>=◌, ◌>>◌, pure, fail_if, get_bytes}
use dtp.Octets.Reads.{Reads, Reads-bind, Reads-pure, get_bytes-Reads}
use dtp.Octets.Varint.{varint}
use dtp.Octets.Rules.{
  read_u8, read_u32, read_bytes, read_prefixed, read_pass, read_pass_ltb, read_cap,
}
use dtp.Packet.{PacketType, initial, retry, handshake, zero_rtt, version_negotiation, short}
use dtp.Packet.Header.{
  Header, max_cid_len, version_is_supported, is_long, skip, parse_short, long_type, parse_cid,
  parse_rest, parse_long, from_bytes,
}
use dtp.Packet.Header.Wire.{
  short_byte, long_byte, number, wire_short, wire_token, wire_long, wire_of, wire, IsNumbered,
  IsNamed, IsCarried, IsWritableAs, IsWritable, IsTagged, read_token, visible_short, visible_long,
  visible_of, visible,
}

short_form :
    (l : ℕ) (phase : Bool) → l ≤ 4 → is_long (64 + (if phase then 4 else 0) + (l - 1)) ≡ false
unfolding is_long
short_form zero true h = refl
short_form zero false h = refl
short_form (suc zero) true h = refl
short_form (suc zero) false h = refl
short_form (suc (suc zero)) true h = refl
short_form (suc (suc zero)) false h = refl
short_form (suc (suc (suc zero))) true h = refl
short_form (suc (suc (suc zero))) false h = refl
short_form (suc (suc (suc (suc zero)))) true h = refl
short_form (suc (suc (suc (suc zero)))) false h = refl
short_form (suc (suc (suc (suc (suc l))))) phase h = absurd (omega arith)

skip-Reads : (n : ℕ) (t : List ℕ) → Reads (skip n) (replicate n 0 ++ t) tt t
unfolding skip
skip-Reads zero t = Reads-pure tt t
skip-Reads (suc n) t = read_u8 0 (λ _. skip n) (omega arith) (skip-Reads n t)

parse_short-Reads :
    (h : Header) (t : List ℕ)
    → IsNumbered h
    → Reads
        (parse_short (length h.dcid))
        (h.dcid
          ++ (to_be 4 h.fec_info.group_id
              ++ (to_be 1 h.fec_info.index
                  ++ (to_be 1 h.fec_info.m
                      ++ (to_be 1 h.fec_info.n
                          ++ (to_be 1 (4 - h.pkt_num_len)
                              ++ (replicate (4 - h.pkt_num_len) 0 ++ t)))))))
        (visible_short h)
        t
unfolding parse_short
parse_short-Reads h t w = read_bytes (length h.dcid) h.dcid _ refl (
    read_u32 h.fec_info.group_id _ w.2 (
      read_u8 h.fec_info.index _ w.3 (
        read_u8 h.fec_info.m _ w.4 (
          read_u8 h.fec_info.n _ w.5 (
            read_u8 (4 - h.pkt_num_len) _ (omega arith) (
              Reads-bind (skip (4 - h.pkt_num_len)) _ (skip-Reads (4 - h.pkt_num_len) t)
                (Reads-pure (visible_short h) t)))))))

short_parts :
    (h : Header) (t : List ℕ)
    → wire_short h ++ t
      ≡ to_be 1 (short_byte h)
        ++ (h.dcid
            ++ (to_be 4 h.fec_info.group_id
                ++ (to_be 1 h.fec_info.index
                    ++ (to_be 1 h.fec_info.m
                        ++ (to_be 1 h.fec_info.n
                            ++ (to_be 1 (4 - h.pkt_num_len)
                                ++ (replicate (4 - h.pkt_num_len) 0 ++ t)))))))
short_parts h t = simp append_assoc

long_bits :
    (l : ℕ) (ty : PacketType)
    → l ≤ 4
    → (is_long (192 + number ty * 16 + (l - 1)) ≡ true)
      × (bit_and (192 + number ty * 16 + (l - 1)) 0x30 / 16 ≡ number ty)
unfolding is_long
long_bits zero initial h = (refl, refl)
long_bits zero zero_rtt h = (refl, refl)
long_bits zero handshake h = (refl, refl)
long_bits zero retry h = (refl, refl)
long_bits zero version_negotiation h = (refl, refl)
long_bits zero short h = (refl, refl)
long_bits (suc zero) initial h = (refl, refl)
long_bits (suc zero) zero_rtt h = (refl, refl)
long_bits (suc zero) handshake h = (refl, refl)
long_bits (suc zero) retry h = (refl, refl)
long_bits (suc zero) version_negotiation h = (refl, refl)
long_bits (suc zero) short h = (refl, refl)
long_bits (suc (suc zero)) initial h = (refl, refl)
long_bits (suc (suc zero)) zero_rtt h = (refl, refl)
long_bits (suc (suc zero)) handshake h = (refl, refl)
long_bits (suc (suc zero)) retry h = (refl, refl)
long_bits (suc (suc zero)) version_negotiation h = (refl, refl)
long_bits (suc (suc zero)) short h = (refl, refl)
long_bits (suc (suc (suc zero))) initial h = (refl, refl)
long_bits (suc (suc (suc zero))) zero_rtt h = (refl, refl)
long_bits (suc (suc (suc zero))) handshake h = (refl, refl)
long_bits (suc (suc (suc zero))) retry h = (refl, refl)
long_bits (suc (suc (suc zero))) version_negotiation h = (refl, refl)
long_bits (suc (suc (suc zero))) short h = (refl, refl)
long_bits (suc (suc (suc (suc zero)))) initial h = (refl, refl)
long_bits (suc (suc (suc (suc zero)))) zero_rtt h = (refl, refl)
long_bits (suc (suc (suc (suc zero)))) handshake h = (refl, refl)
long_bits (suc (suc (suc (suc zero)))) retry h = (refl, refl)
long_bits (suc (suc (suc (suc zero)))) version_negotiation h = (refl, refl)
long_bits (suc (suc (suc (suc zero)))) short h = (refl, refl)
long_bits (suc (suc (suc (suc (suc l))))) ty h = absurd (omega arith)

-- The types that a long header is printed with.
abbrev IsLongType : PacketType → Type 0
IsLongType short = ⊥
IsLongType version_negotiation = ⊥
IsLongType _ = Unit {0}

long_type_lem :
    (version first : ℕ) (ty : PacketType)
    → 0 < version
    → IsLongType ty
    → bit_and first 0x30 / 16 ≡ number ty
    → long_type version first ≡ pure ty
unfolding long_type
long_type_lem version first initial v i b = rw (b) (ground (arith, v))
long_type_lem version first zero_rtt v i b = rw (b) (ground (arith, v))
long_type_lem version first handshake v i b = rw (b) (ground (arith, v))
long_type_lem version first retry v i b = rw (b) (ground (arith, v))
long_type_lem version first short v i b = absurd i
long_type_lem version first version_negotiation v i b = absurd i

parse_cid-Reads :
    (version : ℕ) (cid t : List ℕ)
    → length cid ≤ max_cid_len
    → Reads (parse_cid version) (to_be 1 (length cid) ++ (cid ++ t)) cid t
unfolding parse_cid
parse_cid-Reads version cid t h = read_u8 (length cid) _ (omega arith) (
    read_pass (version_is_supported version && ltb max_cid_len (length cid)) _ _
      (short_enough (version_is_supported version)) (tail))
  where
    short_enough : (b : Bool) → (b && ltb max_cid_len (length cid)) ≡ false
    short_enough b = ground (arith, h)

    tail : Reads (get_bytes (length cid)) (cid ++ t) cid t
    tail = get_bytes-Reads cid t

parse_rest-Reads :
    (tag_len : ℕ) (ty : PacketType) (token : Option (List ℕ)) (t : List ℕ)
    → IsLongType ty
    → IsCarried ty token
    → IsTagged tag_len ty t
    → Reads (parse_rest tag_len ty) (wire_token ty token ++ t) (read_token ty token, none) t
unfolding parse_rest
parse_rest-Reads tag_len initial (some v) t i c g =
    rw (append_assoc (varint (length v)) v t)
      (read_prefixed v (λ token. pure (some token, none)) c (Reads-pure (some v, none) t))
parse_rest-Reads tag_len initial none t i c g =
    read_prefixed [] (λ token. pure (some token, none)) (omega arith) (Reads-pure (some [], none) t)
parse_rest-Reads tag_len retry (some v) t i c g =
    let l : length (v ++ t) ≡ length v + length t = length-append v t in
    let n : length v ≡ length (v ++ t) - tag_len = omega arith in
    read_cap
      (λ left.
        fail_if (ltb left tag_len) Error.invalid_packet
        >> (get_bytes (left - tag_len) >>= λ token. pure (some token, none)))
      (v ++ t)
      (read_pass_ltb (length (v ++ t)) tag_len Error.invalid_packet _ (omega arith) (
        read_bytes (length (v ++ t) - tag_len) v (λ token. pure (some token, none)) n
          (Reads-pure (some v, none) t)))
parse_rest-Reads tag_len retry none t i c g = absurd c
parse_rest-Reads tag_len zero_rtt token t i c g = Reads-pure (none, none) t
parse_rest-Reads tag_len handshake token t i c g = Reads-pure (none, none) t
parse_rest-Reads tag_len version_negotiation token t i c g = absurd i
parse_rest-Reads tag_len short token t i c g = absurd i

parse_long-Reads :
    (tag_len : ℕ) (ty : PacketType) (h : Header) (t : List ℕ)
    → IsLongType ty
    → IsNamed h
    → IsCarried ty h.token
    → IsTagged tag_len ty t
    → Reads
        (parse_long tag_len (long_byte ty h))
        (to_be 4 h.version
          ++ (to_be 1 (length h.dcid)
              ++ (h.dcid ++ (to_be 1 (length h.scid) ++ (h.scid ++ (wire_token ty h.token ++ t))))))
        (visible_long ty h)
        t
unfolding parse_long
parse_long-Reads tag_len ty h t i w c g =
    let bits = (long_bits h.pkt_num_len ty w.0).1 in
    read_u32 h.version _ w.2 (
      rw (long_type_lem h.version (long_byte ty h) ty w.1 i bits) (
        Reads-bind (parse_cid h.version) _ (parse_cid-Reads h.version h.dcid _ w.3) (
          Reads-bind (parse_cid h.version) _ (parse_cid-Reads h.version h.scid _ w.4) (
            Reads-bind (parse_rest tag_len ty) _ (parse_rest-Reads tag_len ty h.token t i c g)
              (Reads-pure (visible_long ty h) t)))))

long_parts :
    (ty : PacketType) (h : Header) (t : List ℕ)
    → wire_long ty h ++ t
      ≡ to_be 1 (long_byte ty h)
        ++ (to_be 4 h.version
            ++ (to_be 1 (length h.dcid)
                ++ (h.dcid
                    ++ (to_be 1 (length h.scid) ++ (h.scid ++ (wire_token ty h.token ++ t))))))
long_parts ty h t = simp append_assoc

first_long :
    (tag_len dcid_len : ℕ) (ty : PacketType) (h : Header) (t : List ℕ)
    → IsLongType ty
    → IsNamed h
    → IsCarried ty h.token
    → IsTagged tag_len ty t
    → Reads (from_bytes tag_len dcid_len) (wire_long ty h ++ t) (visible_long ty h) t
unfolding from_bytes
first_long tag_len dcid_len ty h t i w c g =
    let long = (long_bits h.pkt_num_len ty w.0).0 in
    rw (long_parts ty h t) (
      read_u8 (long_byte ty h)
        (λ first. if is_long first then parse_long tag_len first else parse_short dcid_len)
        (byte ty) (rw (long) (parse_long-Reads tag_len ty h t i w c g)))
  where
    byte : (ty : PacketType) → long_byte ty h < 2 ^ 8
    byte initial = omega (arith, w.0)
    byte zero_rtt = omega (arith, w.0)
    byte handshake = omega (arith, w.0)
    byte retry = omega (arith, w.0)
    byte version_negotiation = omega (arith, w.0)
    byte short = omega (arith, w.0)

first_short :
    (tag_len : ℕ) (h : Header) (t : List ℕ)
    → IsNumbered h
    → Reads (from_bytes tag_len (length h.dcid)) (wire_short h ++ t) (visible_short h) t
unfolding from_bytes
first_short tag_len h t w =
    let form = short_form h.pkt_num_len h.key_phase w.1 in
    rw (short_parts h t) (
      read_u8 (short_byte h)
        (λ first. if is_long first then parse_long tag_len first else parse_short (length h.dcid))
        (byte h.key_phase) (rw (form) (parse_short-Reads h t w)))
  where
    byte : (phase : Bool) → 64 + (if phase then 4 else 0) + (h.pkt_num_len - 1) < 2 ^ 8
    byte true = omega (arith, w.1)
    byte false = omega (arith, w.1)

by_type :
    (tag_len : ℕ) (ty : PacketType) (h : Header) (t : List ℕ)
    → IsWritableAs ty h
    → IsTagged tag_len ty t
    → Reads (from_bytes tag_len (length h.dcid)) (wire_of ty h ++ t) (visible_of ty h) t
by_type tag_len short h t w g = first_short tag_len h t w
by_type tag_len initial h t (w, c) g = first_long tag_len (length h.dcid) initial h t tt w c g
by_type tag_len zero_rtt h t (w, c) g = first_long tag_len (length h.dcid) zero_rtt h t tt w c g
by_type tag_len handshake h t (w, c) g = first_long tag_len (length h.dcid) handshake h t tt w c g
by_type tag_len retry h t (w, c) g = first_long tag_len (length h.dcid) retry h t tt w c g
by_type tag_len version_negotiation h t w g = absurd w

-- `from_bytes` reads the wire form of a header.
pub from_bytes-Reads :
    (tag_len : ℕ) (h : Header) (t : List ℕ)
    → IsWritable h
    → IsTagged tag_len h.ty t
    → Reads (from_bytes tag_len (length h.dcid)) (wire h ++ t) (visible h) t
from_bytes-Reads tag_len h t w g = by_type tag_len h.ty h t w g
