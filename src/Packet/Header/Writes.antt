-- ===== src/Packet/Header/Writes.antt =====
-- `to_bytes` writes the wire form.
use dtp.Base.{
  ℕ, zero, suc, ◌+◌, ◌-◌, ◌*◌, ◌%◌, ◌≤◌, ◌≡◌, refl, Bool, true, false, Option, none, some, List,
  replicate, length, bit_or, if◌then◌else◌, arith,
}
use dtp.Base.Bytes.{to_be}
use dtp.Octets.{put_u, put_bytes}
use dtp.Octets.Writes.{Writes, Writes-bind, put_u-Writes, put_bytes-Writes, Writes-pure}
use dtp.Octets.Varint.{put_varint-Writes}
use dtp.Octets.Rules.{write_prefixed}
use dtp.Packet.{PacketType, initial, retry, handshake, zero_rtt, version_negotiation, short}
use dtp.Packet.Header.{
  Header, fixed_bit, form_bit, len_bits, short_first, padding_of, put_zeros, put_short, put_rest,
  put_long, put_header, to_bytes,
}
use dtp.Packet.Header.Wire.{
  short_byte, long_byte, number, wire_short, wire_token, wire_long, wire_of, IsNumbered, IsNamed,
  IsCarried, IsWritableAs, IsWritable, wire,
}

short_first_lem :
    (l : ℕ) (phase : Bool) → l ≤ 4 → short_first l phase ≡ 64 + (if phase then 4 else 0) + (l - 1)
unfolding short_first
short_first_lem zero true h = refl
short_first_lem zero false h = refl
short_first_lem (suc zero) true h = refl
short_first_lem (suc zero) false h = refl
short_first_lem (suc (suc zero)) true h = refl
short_first_lem (suc (suc zero)) false h = refl
short_first_lem (suc (suc (suc zero))) true h = refl
short_first_lem (suc (suc (suc zero))) false h = refl
short_first_lem (suc (suc (suc (suc zero)))) true h = refl
short_first_lem (suc (suc (suc (suc zero)))) false h = refl
short_first_lem (suc (suc (suc (suc (suc l))))) phase h = absurd (omega arith)

long_first : ℕ → ℕ → ℕ
long_first l bits = bit_or (len_bits l) (bit_or (bit_or form_bit fixed_bit) (bits * 16))

long_first_lem :
    (l : ℕ) (ty : PacketType) → l ≤ 4 → long_first l (number ty) ≡ 192 + number ty * 16 + (l - 1)
unfolding long_first
long_first_lem zero initial h = refl
long_first_lem zero zero_rtt h = refl
long_first_lem zero handshake h = refl
long_first_lem zero retry h = refl
long_first_lem zero version_negotiation h = refl
long_first_lem zero short h = refl
long_first_lem (suc zero) initial h = refl
long_first_lem (suc zero) zero_rtt h = refl
long_first_lem (suc zero) handshake h = refl
long_first_lem (suc zero) retry h = refl
long_first_lem (suc zero) version_negotiation h = refl
long_first_lem (suc zero) short h = refl
long_first_lem (suc (suc zero)) initial h = refl
long_first_lem (suc (suc zero)) zero_rtt h = refl
long_first_lem (suc (suc zero)) handshake h = refl
long_first_lem (suc (suc zero)) retry h = refl
long_first_lem (suc (suc zero)) version_negotiation h = refl
long_first_lem (suc (suc zero)) short h = refl
long_first_lem (suc (suc (suc zero))) initial h = refl
long_first_lem (suc (suc (suc zero))) zero_rtt h = refl
long_first_lem (suc (suc (suc zero))) handshake h = refl
long_first_lem (suc (suc (suc zero))) retry h = refl
long_first_lem (suc (suc (suc zero))) version_negotiation h = refl
long_first_lem (suc (suc (suc zero))) short h = refl
long_first_lem (suc (suc (suc (suc zero)))) initial h = refl
long_first_lem (suc (suc (suc (suc zero)))) zero_rtt h = refl
long_first_lem (suc (suc (suc (suc zero)))) handshake h = refl
long_first_lem (suc (suc (suc (suc zero)))) retry h = refl
long_first_lem (suc (suc (suc (suc zero)))) version_negotiation h = refl
long_first_lem (suc (suc (suc (suc zero)))) short h = refl
long_first_lem (suc (suc (suc (suc (suc l))))) ty h = absurd (omega arith)

put_zeros-Writes : (n : ℕ) → Writes (put_zeros n) (replicate n 0)
unfolding put_zeros
put_zeros-Writes zero = Writes-pure
put_zeros-Writes (suc n) =
    Writes-bind (put_u 1 0) (put_zeros n) (to_be 1 0) (replicate n 0) (put_u-Writes 1 0)
      (put_zeros-Writes n)

put_short-Writes : (h : Header) → IsNumbered h → Writes (put_short h) (wire_short h)
unfolding put_short
put_short-Writes h w =
    let low = w.0 in
    let high = w.1 in
    let e : padding_of h.pkt_num_len ≡ 4 - h.pkt_num_len = omega arith in
    rw (short_first_lem h.pkt_num_len h.key_phase high, e)
      (Writes-bind (put_u 1 (short_byte h)) _ (to_be 1 (short_byte h)) _
        (put_u-Writes 1 (short_byte h))
        (Writes-bind (put_bytes h.dcid) _ h.dcid _ (put_bytes-Writes h.dcid) (
          Writes-bind _ _ _ _ (put_u-Writes 4 h.fec_info.group_id) (
            Writes-bind _ _ _ _ (put_u-Writes 1 h.fec_info.index) (
              Writes-bind _ _ _ _ (put_u-Writes 1 h.fec_info.m) (
                Writes-bind _ _ _ _ (put_u-Writes 1 h.fec_info.n) (
                  Writes-bind _ _ _ _ (put_u-Writes 1 (4 - h.pkt_num_len))
                    (put_zeros-Writes (4 - h.pkt_num_len)))))))))

put_rest-Writes :
    (ty : PacketType) (token : Option (List ℕ))
    → IsCarried ty token
    → Writes (put_rest ty token) (wire_token ty token)
unfolding put_rest
put_rest-Writes initial (some v) h = write_prefixed v h
put_rest-Writes initial none h = put_varint-Writes 0 (omega arith)
put_rest-Writes retry (some v) h = put_bytes-Writes v
put_rest-Writes retry none h = absurd h
put_rest-Writes zero_rtt token h = Writes-pure
put_rest-Writes handshake token h = Writes-pure
put_rest-Writes version_negotiation token h = Writes-pure
put_rest-Writes short token h = Writes-pure

put_long-Writes :
    (ty : PacketType) (h : Header)
    → IsNamed h
    → IsCarried ty h.token
    → Writes (put_long ty (number ty) h) (wire_long ty h)
unfolding put_long long_first
put_long-Writes ty h w c =
    let d : length h.dcid % 256 ≡ length h.dcid = omega (arith, w.3) in
    let s : length h.scid % 256 ≡ length h.scid = omega (arith, w.4) in
    rw (long_first_lem h.pkt_num_len ty w.0, d, s)
      (Writes-bind _ _ _ _ (put_u-Writes 1 (long_byte ty h)) (
        Writes-bind _ _ _ _ (put_u-Writes 4 h.version) (
          Writes-bind _ _ _ _ (put_u-Writes 1 (length h.dcid)) (
            Writes-bind _ _ _ _ (put_bytes-Writes h.dcid) (
              Writes-bind _ _ _ _ (put_u-Writes 1 (length h.scid))
                (Writes-bind _ _ _ _ (put_bytes-Writes h.scid) (put_rest-Writes ty h.token c)))))))

put_header-Writes :
    (ty : PacketType) (h : Header) → IsWritableAs ty h → Writes (put_header ty h) (wire_of ty h)
unfolding put_header
put_header-Writes short h w = put_short-Writes h w
put_header-Writes initial h (w, c) = put_long-Writes initial h w c
put_header-Writes zero_rtt h (w, c) = put_long-Writes zero_rtt h w c
put_header-Writes handshake h (w, c) = put_long-Writes handshake h w c
put_header-Writes retry h (w, c) = put_long-Writes retry h w c
put_header-Writes version_negotiation h w = absurd w

pub to_bytes-Writes : (h : Header) → IsWritable h → Writes (to_bytes h) (wire h)
unfolding to_bytes
to_bytes-Writes h w = put_header-Writes h.ty h w
