-- ===== src/Params/Wire.antt =====
-- The wire form of the parameters.
use dtp.Base.{
  ℕ, ◌≤◌, ◌<◌, ◌^◌, ◌≡◌, Bool, true, false, Option, none, some, List, [], ◌++◌, ◌==◌, if◌then◌else◌,
  length,
}
use dtp.Base.Bytes.{to_be}
use dtp.Octets.Varint.{varint, IsVarint}
use dtp.Params.{TransportParams}

abbrev pub entry : ℕ → List ℕ → List ℕ
entry id bs = to_be 2 id ++ (to_be 2 (length bs) ++ bs)

abbrev pub number_entry : ℕ → ℕ → List ℕ
number_entry id v = if v == 0 then [] else entry id (varint v)

abbrev pub blob_entry : Bool → ℕ → Option (List ℕ) → List ℕ
blob_entry false id o = []
blob_entry true id none = []
blob_entry true id (some v) = entry id v

abbrev pub flag_entry : ℕ → Bool → List ℕ
flag_entry id false = []
flag_entry id true = entry id []

abbrev pub wire : TransportParams → Bool → List ℕ
wire tp is_server =
    blob_entry is_server 0x0000 tp.original_connection_id
    ++ (number_entry 0x0001 tp.max_idle_timeout
        ++ (blob_entry is_server 0x0002 tp.stateless_reset_token
            ++ (number_entry 0x0003 tp.max_packet_size
                ++ (number_entry 0x0004 tp.initial_max_data
                    ++ (number_entry 0x0005 tp.initial_max_stream_data_bidi_local
                        ++ (number_entry 0x0006 tp.initial_max_stream_data_bidi_remote
                            ++ (number_entry 0x0007 tp.initial_max_stream_data_uni
                                ++ (number_entry 0x0008 tp.initial_max_streams_bidi
                                    ++ (number_entry 0x0009 tp.initial_max_streams_uni
                                        ++ (number_entry 0x000a tp.ack_delay_exponent
                                            ++ (number_entry 0x000b tp.max_ack_delay
                                                ++ (flag_entry 0x000c tp.disable_active_migration
                                                    ++ number_entry 0x000e
                                                        tp.active_conn_id_limit))))))))))))

-- A connection id or a token that a server sends.
abbrev pub HasLength : Option (List ℕ) → (ℕ → Type 0) → Type 0
HasLength none P = Unit {0}
HasLength (some v) P = P (length v)

-- The values that the other side accepts.
pub record IsAccepted (tp : TransportParams) : Type 0 where
  pub id_short : HasLength tp.original_connection_id (λ n. n < 2 ^ 16)
  pub token_whole : HasLength tp.stateless_reset_token (λ n. n ≡ 16)
  pub idle : IsVarint tp.max_idle_timeout
  pub packet : 1200 ≤ tp.max_packet_size
  pub packet_number : IsVarint tp.max_packet_size
  pub max_data : IsVarint tp.initial_max_data
  pub bidi_local : IsVarint tp.initial_max_stream_data_bidi_local
  pub bidi_remote : IsVarint tp.initial_max_stream_data_bidi_remote
  pub uni : IsVarint tp.initial_max_stream_data_uni
  pub streams_bidi : tp.initial_max_streams_bidi ≤ 2 ^ 60
  pub streams_uni : tp.initial_max_streams_uni ≤ 2 ^ 60
  pub exponent : tp.ack_delay_exponent ≤ 20
  pub delay : tp.max_ack_delay < 2 ^ 14
  pub limit : IsVarint tp.active_conn_id_limit

-- What the other side has: a client sends no connection id and no token.
abbrev pub sent : Bool → Option (List ℕ) → Option (List ℕ)
sent true o = o
sent false o = none

-- A value of 0 is left out, and the other side keeps its default.
abbrev pub or_default : ℕ → ℕ → ℕ
or_default d v = if v == 0 then d else v

abbrev pub received : TransportParams → Bool → TransportParams
received tp is_server = record tp {
  original_connection_id = sent is_server tp.original_connection_id;
  stateless_reset_token = sent is_server tp.stateless_reset_token;
  ack_delay_exponent = or_default 3 tp.ack_delay_exponent;
  max_ack_delay = or_default 25 tp.max_ack_delay;
}
