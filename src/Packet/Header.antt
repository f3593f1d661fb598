-- ===== src/Packet/Header.antt =====
-- src/packet.rs, `Header`: the header of a packet, its parser and its printer, and the update of the
-- numbers for error correction inside a written header.
pub mod Wire
pub mod Writes
pub mod Reads
pub mod RoundTrip
pub mod Safe
mod Tests
use dtp.Base.{
  ℕ, zero, suc, ◌+◌, ◌-◌, ◌*◌, ◌/◌, ◌%◌, ◌^◌, Bool, true, false, ◌&&◌, ◌||◌, not, Option, none,
  some, List, [], ◌∷◌, ◌++◌, ltb, ◌==◌, if◌then◌else◌, length, take, bit_and, bit_or, Error, Result,
  ok, err, panic,
}
use dtp.Fec.{FecStatus}
use dtp.Octets.{
  Octets, M, ◌>>=◌, ◌>>◌, pure, fail, fail_if, cap, get_cap, get_u8, get_u32, get_bytes,
  get_bytes_with_varint_length, put_u8, put_u32, put_varint, put_bytes, split_at,
}
use dtp.Packet.{PacketType, initial, retry, handshake, zero_rtt, version_negotiation, short}

abbrev pub form_bit : ℕ
form_bit = 0x80

abbrev pub fixed_bit : ℕ
fixed_bit = 0x40

abbrev pub key_phase_bit : ℕ
key_phase_bit = 0x04

abbrev pub type_mask : ℕ
type_mask = 0x30

abbrev pub max_cid_len : ℕ
max_cid_len = 20

pub record Header : Type 0 where
  pub ty : PacketType
  pub version : ℕ
  pub dcid : List ℕ
  pub scid : List ℕ
  pub pkt_num : ℕ
  pub pkt_num_len : ℕ
  pub token : Option (List ℕ)
  pub versions : Option (List ℕ)
  pub key_phase : Bool
  pub fec_info : FecStatus

abbrev pub default_info : FecStatus
default_info = record { m = 0; n = 0; group_id = 0; index = 0 }

unfoldable pub version_is_supported : ℕ → Bool
version_is_supported version =
    (version == 0xff00_0019) || ((version == 0xff00_0018) || (version == 0xff00_0017))

unfoldable pub is_long : ℕ → Bool
is_long b = not (bit_and b form_bit == 0)

unfoldable pub skip : ℕ → M (Unit {0})
skip zero = pure tt
skip (suc padding) = do get_u8; skip padding

unfoldable pub parse_short : ℕ → M Header
unfolding skip
parse_short dcid_len = do
  dcid ← get_bytes dcid_len
  group_id ← get_u32
  index ← get_u8
  m ← get_u8
  n ← get_u8
  padding ← get_u8
  skip padding
  pure record {
    ty = short;
    version = 0;
    dcid = dcid;
    scid = [];
    pkt_num = 0;
    pkt_num_len = 0;
    token = none;
    versions = none;
    key_phase = false;
    fec_info = record { m = m; n = n; group_id = group_id; index = index };
  }

-- `(first & TYPE_MASK) >> 4` as a type.
unfoldable pub long_type : ℕ → ℕ → M PacketType
long_type version first =
    let bits = bit_and first type_mask / 16 in
    if version == 0
    then pure version_negotiation
    else if bits == 0x00
    then pure initial
    else if bits == 0x01
    then pure zero_rtt
    else if bits == 0x02
    then pure handshake
    else if bits == 0x03
    then pure retry
    else fail Error.invalid_packet

-- A connection id behind its length.
unfoldable pub parse_cid : ℕ → M (List ℕ)
unfolding version_is_supported
parse_cid version = do
  cid_len ← get_u8
  fail_if (version_is_supported version && ltb max_cid_len cid_len) Error.invalid_packet
  get_bytes cid_len

-- The `while` loop over the versions, on fuel. Each round reads four bytes.
unfoldable pub parse_versions : ℕ → List ℕ → M (List ℕ)
parse_versions zero list = λ b. panic
parse_versions (suc fuel) list = do
  left ← get_cap
  if left == 0
      then pure list
      else (get_u32 >>= λ version. parse_versions fuel (list ++ (version ∷ [])))

unfoldable pub parse_all_versions : M (List ℕ)
unfolding parse_versions
parse_all_versions = do left ← get_cap; parse_versions (suc left) []

-- What follows the connection ids: the token and the versions. `tag_len` is the length of the tag of
-- AES-128-GCM.
unfoldable pub parse_rest : ℕ → PacketType → M (Option (List ℕ) × Option (List ℕ))
unfolding parse_all_versions
parse_rest tag_len initial = do token ← get_bytes_with_varint_length; pure (some token, none)
parse_rest tag_len retry = do
  left ← get_cap
  fail_if (ltb left tag_len) Error.invalid_packet
  token ← get_bytes (left - tag_len)
  pure (some token, none)
parse_rest tag_len version_negotiation = do list ← parse_all_versions; pure (none, some list)
parse_rest tag_len _ = pure (none, none)

unfoldable pub parse_long : ℕ → ℕ → M Header
unfolding long_type parse_cid parse_rest
parse_long tag_len first = do
  version ← get_u32
  ty ← long_type version first
  dcid ← parse_cid version
  scid ← parse_cid version
  rest ← parse_rest tag_len ty
  pure record {
    ty = ty;
    version = version;
    dcid = dcid;
    scid = scid;
    pkt_num = 0;
    pkt_num_len = 0;
    token = rest.0;
    versions = rest.1;
    key_phase = false;
    fec_info = default_info;
  }

unfoldable pub from_bytes : ℕ → ℕ → M Header
unfolding is_long parse_short parse_long
from_bytes tag_len dcid_len = do
  first ← get_u8
  if is_long first then parse_long tag_len first else parse_short dcid_len

unfoldable pub put_zeros : ℕ → M (Unit {0})
put_zeros zero = pure tt
put_zeros (suc padding) = do put_u8 0; put_zeros padding

-- `self.pkt_num_len.saturating_sub(1) as u8`
abbrev pub len_bits : ℕ → ℕ
len_bits pkt_num_len = (pkt_num_len - 1) % 256

unfoldable pub short_first : ℕ → Bool → ℕ
short_first pkt_num_len key_phase =
    let first = bit_or (bit_and (len_bits pkt_num_len) 0x7f) fixed_bit in
    if key_phase then bit_or first key_phase_bit else bit_and first 0xfb

-- `4 - self.pkt_num_len as u8`
abbrev pub padding_of : ℕ → ℕ
padding_of pkt_num_len = (4 + 256 - pkt_num_len % 256) % 256

unfoldable pub put_short : Header → M (Unit {0})
unfolding short_first put_zeros
put_short h = do
  put_u8 (short_first h.pkt_num_len h.key_phase)
  put_bytes h.dcid
  put_u32 h.fec_info.group_id
  put_u8 h.fec_info.index
  put_u8 h.fec_info.m
  put_u8 h.fec_info.n
  put_u8 (padding_of h.pkt_num_len)
  put_zeros (padding_of h.pkt_num_len)

unfoldable pub put_rest : PacketType → Option (List ℕ) → M (Unit {0})
put_rest initial (some v) = do put_varint (length v); put_bytes v
put_rest initial none = put_varint 0
put_rest retry (some v) = put_bytes v
put_rest retry none = λ b. panic
put_rest _ token = pure tt

-- A long header, by its type and the bits of the type.
unfoldable pub put_long : PacketType → ℕ → Header → M (Unit {0})
unfolding put_rest
put_long ty bits h = do
  put_u8 (bit_or (len_bits h.pkt_num_len) (bit_or (bit_or form_bit fixed_bit) (bits * 16)))
  put_u32 h.version
  put_u8 (length h.dcid % 256)
  put_bytes h.dcid
  put_u8 (length h.scid % 256)
  put_bytes h.scid
  put_rest ty h.token

unfoldable pub put_header : PacketType → Header → M (Unit {0})
unfolding put_short put_long
put_header short h = put_short h
put_header initial h = put_long initial 0x00 h
put_header zero_rtt h = put_long zero_rtt 0x01 h
put_header handshake h = put_long handshake 0x02 h
put_header retry h = put_long retry 0x03 h
put_header version_negotiation h = fail Error.invalid_packet

unfoldable pub to_bytes : Header → M (Unit {0})
unfolding put_header
to_bytes h = put_header h.ty h

unfoldable pub put_info : FecStatus → M (Unit {0})
put_info info = do put_u32 info.group_id; put_u8 info.index; put_u8 info.m; put_u8 info.n

-- The two parts are parts of the buffer, whose offset stays.
unfoldable pub joined : Octets → Octets → Result (Unit {0} × Octets) → Result Octets
joined b before (ok (_, after)) = ok (record b { buf = before.buf ++ after.buf })
joined b before (err e) = err e
joined b before panic = panic

unfoldable pub in_second : FecStatus → Octets → Result (Octets × Octets) → Result Octets
unfolding put_info joined
in_second info b (ok (before, info_buf)) = joined b before (put_info info info_buf)
in_second info b (err e) = err e
in_second info b panic = panic

unfoldable pub update_fec_info : Header → Octets → Result Octets
unfolding split_at in_second
update_fec_info h b = in_second h.fec_info b (split_at (1 + length h.dcid) b)
