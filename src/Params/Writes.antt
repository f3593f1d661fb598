-- ===== src/Params/Writes.antt =====
-- `put_params` writes the wire form.
use dtp.Base.{
  ℕ, ◌%◌, ◌^◌, ◌<◌, ◌≡◌, Bool, true, false, Option, none, some, List, ◌++◌, ◌==◌, length, arith,
  Bool-cases, inl, inr,
}
use dtp.Base.Bytes.{to_be}
use dtp.Octets.{◌>>◌, put_u, put_varint}
use dtp.Octets.Writes.{Writes, Writes-bind, put_u-Writes, put_bytes-Writes, Writes-pure}
use dtp.Octets.Varint.{varint, IsVarint, put_varint-Writes, varint_len-length, length-varint_pos}
use dtp.Params.{TransportParams, put_number, put_blob, put_flag, put_params}
use dtp.Params.Wire.{number_entry, blob_entry, flag_entry, wire, HasLength, IsAccepted}

put_number-Writes : (id v : ℕ) → IsVarint v → Writes (put_number id v) (number_entry id v)
unfolding put_number
put_number-Writes id v h = elim (Bool-cases (v == 0)) [
  | inl z ↦ rw (put_number, z) Writes-pure
  | inr z ↦
      let n : length (varint v) % 2 ^ 16 ≡ length (varint v) = omega (arith, length-varint_pos v) in
      let rest : Writes (put_u 2 (length (varint v) % 2 ^ 16) >> put_varint v)
          (to_be 2 (length (varint v)) ++ varint v) =
        rw (n) (Writes-bind _ _ _ _ (put_u-Writes 2 (length (varint v))) (put_varint-Writes v h)) in
      rw (put_number, z, varint_len-length v h)
        (Writes-bind (put_u 2 id) _ (to_be 2 id) _ (put_u-Writes 2 id) rest)
]

put_blob-Writes :
    (s : Bool) (id : ℕ) (o : Option (List ℕ))
    → HasLength o (λ n. n < 2 ^ 16)
    → Writes (put_blob s id o) (blob_entry s id o)
unfolding put_blob
put_blob-Writes false id o h = Writes-pure
put_blob-Writes true id none h = Writes-pure
put_blob-Writes true id (some v) h =
    let n : length v % 2 ^ 16 ≡ length v = omega arith in
    rw (n) (
      Writes-bind (put_u 2 id) _ (to_be 2 id) _ (put_u-Writes 2 id)
        (Writes-bind _ _ _ _ (put_u-Writes 2 (length v)) (put_bytes-Writes v)))

put_flag-Writes : (id : ℕ) (b : Bool) → Writes (put_flag id b) (flag_entry id b)
unfolding put_flag
put_flag-Writes id false = Writes-pure
put_flag-Writes id true =
    Writes-bind (put_u 2 id) _ (to_be 2 id) _ (put_u-Writes 2 id) (put_u-Writes 2 0)

short_token : (o : Option (List ℕ)) → HasLength o (λ n. n ≡ 16) → HasLength o (λ n. n < 2 ^ 16)
short_token none h = tt
short_token (some v) h = omega arith

pub put_params-Writes :
    (tp : TransportParams) (s : Bool) → IsAccepted tp → Writes (put_params tp s) (wire tp s)
unfolding put_params
put_params-Writes tp s a =
    Writes-bind _ _ _ _ (put_blob-Writes s 0x0000 tp.original_connection_id a.id_short) (
      Writes-bind _ _ _ _ (put_number-Writes 0x0001 tp.max_idle_timeout a.idle) (
        Writes-bind _ _ _ _
          (put_blob-Writes s 0x0002 tp.stateless_reset_token
            (short_token tp.stateless_reset_token a.token_whole))
          (Writes-bind _ _ _ _ (put_number-Writes 0x0003 tp.max_packet_size a.packet_number) (
            Writes-bind _ _ _ _ (put_number-Writes 0x0004 tp.initial_max_data a.max_data) (
              Writes-bind _ _ _ _
                (put_number-Writes 0x0005 tp.initial_max_stream_data_bidi_local a.bidi_local)
                (Writes-bind _ _ _ _
                  (put_number-Writes 0x0006 tp.initial_max_stream_data_bidi_remote a.bidi_remote)
                  (Writes-bind _ _ _ _
                    (put_number-Writes 0x0007 tp.initial_max_stream_data_uni a.uni)
                    (Writes-bind _ _ _ _
                      (put_number-Writes 0x0008 tp.initial_max_streams_bidi
                        (omega (arith, a.streams_bidi)))
                      (Writes-bind _ _ _ _
                        (put_number-Writes 0x0009 tp.initial_max_streams_uni
                          (omega (arith, a.streams_uni)))
                        (Writes-bind _ _ _ _
                          (put_number-Writes 0x000a tp.ack_delay_exponent
                            (omega (arith, a.exponent)))
                          (Writes-bind _ _ _ _
                            (put_number-Writes 0x000b tp.max_ack_delay (omega (arith, a.delay)))
                            (Writes-bind _ _ _ _
                              (put_flag-Writes 0x000c tp.disable_active_migration)
                              (put_number-Writes 0x000e tp.active_conn_id_limit a.limit)))))))))))))
