-- ===== src/Params/Tests.antt =====
-- Runs of the printer and the parser of parameters, and their theorem on them.
use dtp.Base.{
  ℕ, ◌+◌, ◌≡◌, refl, true, false, some, List, [], ◌∷◌, length, replicate, ok, err, Error, arith,
}
use dtp.Octets.{with_slice, get_bytes, get_varint, get_bytes_with_u16_length, put_bytes, put_varint}
use dtp.Octets.Varint.{varint}
use dtp.Params.{TransportParams, default_params, encode, decode}
use dtp.Params.Wire.{wire, received}
use dtp.Params.RoundTrip.{decode-encode}
use dtp.Params.Legal.{IsFine}
use dtp.Params.Safe.{decode-IsFine}

abbrev token : List ℕ
token = 0xba ∷ 0xba ∷ 0xba ∷ 0xba ∷ 1 ∷ 2 ∷ 3 ∷ 4 ∷ 5 ∷ 6 ∷ 7 ∷ 8 ∷ 9 ∷ 10 ∷ 11 ∷ 12 ∷ []

abbrev server_params : TransportParams
server_params = record default_params {
  original_connection_id = some (7 ∷ 8 ∷ 9 ∷ []);
  max_idle_timeout = 30;
  stateless_reset_token = some token;
  initial_max_streams_bidi = 12231;
  disable_active_migration = true;
  active_conn_id_limit = 8;
}

decode-encode_example :
    (buf : List ℕ) × (encode server_params true (replicate 100 0) ≡ ok buf)
    × (length buf ≡ 2 + length (wire server_params true))
    × (decode buf false ≡ ok (received server_params true))
unfolding varint
decode-encode_example =
    decode-encode server_params true (replicate 100 0)
      record {
        id_short = omega arith;
        token_whole = refl;
        idle = omega arith;
        packet = omega arith;
        packet_number = omega arith;
        max_data = omega arith;
        bidi_local = omega arith;
        bidi_remote = omega arith;
        uni = omega arith;
        streams_bidi = omega arith;
        streams_uni = omega arith;
        exponent = omega arith;
        delay = omega arith;
        limit = omega arith;
      }
      (omega arith) (omega arith)

abbrev exponent_zero : TransportParams
exponent_zero = record default_params { max_packet_size = 0; ack_delay_exponent = 0 }

-- An exponent of 0 is left out.
exponent_lost : encode exponent_zero true (replicate 10 0) ≡ ok (0 ∷ 5 ∷ 0 ∷ 0x0b ∷ 0 ∷ 1 ∷ 25 ∷ [])
unfolding encode with_slice put_bytes put_varint
exponent_lost = refl

-- The side that reads what is left has the default.
exponent_default : decode (0 ∷ 5 ∷ 0 ∷ 0x0b ∷ 0 ∷ 1 ∷ 25 ∷ []) true ≡ ok default_params
unfolding decode with_slice get_bytes get_varint get_bytes_with_u16_length
exponent_default = refl

-- A client may not send a token.
token_refused : decode (0 ∷ 4 ∷ 0 ∷ 2 ∷ 0 ∷ 0 ∷ []) true ≡ err Error.invalid_transport_param
unfolding decode with_slice get_bytes get_bytes_with_u16_length
token_refused = refl

-- Two parameters, the second of them cut off.
abbrev hostile : List ℕ
hostile = 0 ∷ 9 ∷ 0 ∷ 0x0a ∷ 0 ∷ 1 ∷ 20 ∷ 0 ∷ 0x0b ∷ 0 ∷ 2 ∷ []

decode-IsFine_example : IsFine true (decode hostile true)
decode-IsFine_example = decode-IsFine true hostile (ground arith)
