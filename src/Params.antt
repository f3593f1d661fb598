-- ===== src/Params.antt =====
-- src/lib.rs, `TransportParams`: the parameters that the two sides of a connection exchange, with
-- their parser and their printer.
pub mod Wire
pub mod Writes
pub mod Entries
pub mod Reads
pub mod RoundTrip
pub mod Blobs
pub mod Legal
pub mod Safe
mod Tests
use dtp.Base.{
  ℕ, zero, suc, ◌%◌, ◌^◌, Bool, true, false, Option, none, some, List, [], ◌∷◌, ltb, leb, ◌==◌,
  if◌then◌else◌, length, take, replicate, Error, Result, ok, err, panic,
}
use dtp.Octets.{
  Octets, M, ◌>>=◌, ◌>>◌, pure, lift, get_cap, get_u16, get_varint, get_bytes,
  get_bytes_with_u16_length, put_u16, put_varint, put_bytes, varint_len, with_slice,
}

pub record TransportParams : Type 0 where
  pub original_connection_id : Option (List ℕ)
  pub max_idle_timeout : ℕ
  pub stateless_reset_token : Option (List ℕ)
  pub max_packet_size : ℕ
  pub initial_max_data : ℕ
  pub initial_max_stream_data_bidi_local : ℕ
  pub initial_max_stream_data_bidi_remote : ℕ
  pub initial_max_stream_data_uni : ℕ
  pub initial_max_streams_bidi : ℕ
  pub initial_max_streams_uni : ℕ
  pub ack_delay_exponent : ℕ
  pub max_ack_delay : ℕ
  pub disable_active_migration : Bool
  pub active_conn_id_limit : ℕ

abbrev pub default_params : TransportParams
default_params = record {
  original_connection_id = none;
  max_idle_timeout = 0;
  stateless_reset_token = none;
  max_packet_size = 65527;
  initial_max_data = 0;
  initial_max_stream_data_bidi_local = 0;
  initial_max_stream_data_bidi_remote = 0;
  initial_max_stream_data_uni = 0;
  initial_max_streams_bidi = 0;
  initial_max_streams_uni = 0;
  ack_delay_exponent = 3;
  max_ack_delay = 25;
  disable_active_migration = false;
  active_conn_id_limit = 0;
}

-- A value that is read from the bytes of a parameter, and used.
unfoldable pub used :
    {A : Type 0} → (A → Result TransportParams) → Result (A × Octets) → Result TransportParams
used f (ok (v, _)) = f v
used f (err e) = err e
used f panic = panic

unfoldable pub number : List ℕ → (ℕ → Result TransportParams) → Result TransportParams
unfolding used with_slice
number val f = used f (get_varint (with_slice val))

abbrev pub checked : Bool → Error → TransportParams → Result TransportParams
checked bad e tp = if bad then err e else ok tp

-- One parameter, by its id and its bytes.
unfoldable pub decode_param : Bool → ℕ → List ℕ → TransportParams → Result TransportParams
unfolding number used with_slice
decode_param is_server id val tp =
    if id == 0x0000
    then checked is_server Error.invalid_transport_param
        (record tp { original_connection_id = some val })
    else if id == 0x0001
    then number val (λ v. ok (record tp { max_idle_timeout = v }))
    else if id == 0x0002
    then (if is_server
        then err Error.invalid_transport_param
        else used (λ v. ok (record tp { stateless_reset_token = some v }))
            (get_bytes 16 (with_slice val)))
    else if id == 0x0003
    then number val (λ v.
      checked (ltb v 1200) Error.invalid_transport_param (record tp { max_packet_size = v }))
    else if id == 0x0004
    then number val (λ v. ok (record tp { initial_max_data = v }))
    else if id == 0x0005
    then number val (λ v. ok (record tp { initial_max_stream_data_bidi_local = v }))
    else if id == 0x0006
    then number val (λ v. ok (record tp { initial_max_stream_data_bidi_remote = v }))
    else if id == 0x0007
    then number val (λ v. ok (record tp { initial_max_stream_data_uni = v }))
    else if id == 0x0008
    then number val (λ v.
      checked (ltb (2 ^ 60) v) Error.stream_limit (record tp { initial_max_streams_bidi = v }))
    else if id == 0x0009
    then number val (λ v.
      checked (ltb (2 ^ 60) v) Error.stream_limit (record tp { initial_max_streams_uni = v }))
    else if id == 0x000a
    then number val (λ v.
      checked (ltb 20 v) Error.invalid_transport_param (record tp { ack_delay_exponent = v }))
    else if id == 0x000b
    then number val (λ v.
      checked (leb (2 ^ 14) v) Error.invalid_transport_param (record tp { max_ack_delay = v }))
    else if id == 0x000c
    then ok (record tp { disable_active_migration = true })
    else if id == 0x000d
    then checked is_server Error.invalid_transport_param tp
    else if id == 0x000e
    then number val (λ v. ok (record tp { active_conn_id_limit = v }))
    else ok tp

-- The `while` loop, on fuel. Each round reads four bytes at least.
unfoldable pub decode_loop : ℕ → Bool → TransportParams → M TransportParams
unfolding decode_param
decode_loop zero is_server tp = λ b. panic
decode_loop (suc fuel) is_server tp = do
  left ← get_cap
  if left == 0 then pure tp else (do
    id ← get_u16
    val ← get_bytes_with_u16_length
    tp' ← lift (decode_param is_server id val tp)
    decode_loop fuel is_server tp')

unfoldable pub decode : List ℕ → Bool → Result TransportParams
unfolding used with_slice decode_loop
decode buf is_server =
    used
      (λ params.
        used (λ tp. ok tp)
          (decode_loop (suc (length params)) is_server default_params (with_slice params)))
      (get_bytes_with_u16_length (with_slice buf))

-- A parameter with a number, which is left out if it is 0.
unfoldable pub put_number : ℕ → ℕ → M (Unit {0})
put_number id v =
    if v == 0
    then pure tt
    else (do put_u16 id; n ← lift (varint_len v); put_u16 (n % 2 ^ 16); put_varint v)

unfoldable pub put_blob : Bool → ℕ → Option (List ℕ) → M (Unit {0})
put_blob false id o = pure tt
put_blob true id none = pure tt
put_blob true id (some v) = do put_u16 id; put_u16 (length v % 2 ^ 16); put_bytes v

unfoldable pub put_flag : ℕ → Bool → M (Unit {0})
put_flag id false = pure tt
put_flag id true = do put_u16 id; put_u16 0

unfoldable pub put_params : TransportParams → Bool → M (Unit {0})
unfolding put_number put_blob put_flag
put_params tp is_server = do
  put_blob is_server 0x0000 tp.original_connection_id
  put_number 0x0001 tp.max_idle_timeout
  put_blob is_server 0x0002 tp.stateless_reset_token
  put_number 0x0003 tp.max_packet_size
  put_number 0x0004 tp.initial_max_data
  put_number 0x0005 tp.initial_max_stream_data_bidi_local
  put_number 0x0006 tp.initial_max_stream_data_bidi_remote
  put_number 0x0007 tp.initial_max_stream_data_uni
  put_number 0x0008 tp.initial_max_streams_bidi
  put_number 0x0009 tp.initial_max_streams_uni
  put_number 0x000a tp.ack_delay_exponent
  put_number 0x000b tp.max_ack_delay
  put_flag 0x000c tp.disable_active_migration
  put_number 0x000e tp.active_conn_id_limit

-- What the buffer holds up to its offset, where the writing succeeded.
unfoldable pub filled : Result (Unit {0} × Octets) → Result (List ℕ)
filled (ok (_, b)) = ok (take b.off b.buf)
filled (err e) = err e
filled panic = panic

unfoldable pub prefixed : List ℕ → Result (List ℕ) → Result (List ℕ)
unfolding filled with_slice
prefixed out (ok params) =
    filled ((put_u16 (length params % 2 ^ 16) >> put_bytes params) (with_slice out))
prefixed out (err e) = err e
prefixed out panic = panic

-- The parameters go through a buffer of 128 bytes.
unfoldable pub encode : TransportParams → Bool → List ℕ → Result (List ℕ)
unfolding put_params filled prefixed with_slice
encode tp is_server out =
    prefixed out (filled (put_params tp is_server (with_slice (replicate 128 0))))
