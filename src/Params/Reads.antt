-- ===== src/Params/Reads.antt =====
-- `decode_loop` reads the wire form.
use dtp.Base.{
  ℕ, ◌^◌, ◌≡◌, refl, sym, ap, subst, ◌∙◌, Bool, false, not, [], append-nil, ltb, leb, ◌==◌, arith,
  ok, Error, le→ltb, lt→leb,
}
use dtp.Params.{TransportParams, default_params, decode_param}
use dtp.Params.Wire.{number_entry, wire, IsAccepted, received, sent, or_default}
use dtp.Params.Entries.{
  Decodes, Decodes-nil, number_lem, Decodes-number, Decodes-flag, Decodes-id, Decodes-token, passes,
}

kept : (d v : ℕ) → (v == 0) ≡ false → or_default d v ≡ v
kept d v h = rw (h) refl

pub wire-Decodes :
    (tp : TransportParams) (s : Bool)
    → IsAccepted tp
    → Decodes (not s) default_params (wire tp s) (received tp s)
unfolding decode_param
wire-Decodes tp s a =
    let p0 : TransportParams = record default_params {
      original_connection_id = sent s tp.original_connection_id;
    } in
    let p1 : TransportParams = record p0 { max_idle_timeout = tp.max_idle_timeout } in
    let p2 : TransportParams = record p1 {
      stateless_reset_token = sent s tp.stateless_reset_token;
    } in
    let p3 : TransportParams = record p2 { max_packet_size = tp.max_packet_size } in
    let p4 : TransportParams = record p3 { initial_max_data = tp.initial_max_data } in
    let p5 : TransportParams = record p4 {
      initial_max_stream_data_bidi_local = tp.initial_max_stream_data_bidi_local;
    } in
    let p6 : TransportParams = record p5 {
      initial_max_stream_data_bidi_remote = tp.initial_max_stream_data_bidi_remote;
    } in
    let p7 : TransportParams = record p6 {
      initial_max_stream_data_uni = tp.initial_max_stream_data_uni;
    } in
    let p8 : TransportParams = record p7 {
      initial_max_streams_bidi = tp.initial_max_streams_bidi;
    } in
    let p9 : TransportParams = record p8 { initial_max_streams_uni = tp.initial_max_streams_uni } in
    let p10 : TransportParams = record p9 {
      ack_delay_exponent = or_default 3 tp.ack_delay_exponent;
    } in
    let p11 : TransportParams = record p10 { max_ack_delay = or_default 25 tp.max_ack_delay } in
    let p12 : TransportParams = record p11 {
      disable_active_migration = tp.disable_active_migration;
    } in
    let p13 : TransportParams = record p12 { active_conn_id_limit = tp.active_conn_id_limit } in
    Decodes-id s tp.original_connection_id default_params _ refl a.id_short (
      Decodes-number (not s) 0x0001 tp.max_idle_timeout p1 _ (omega arith) a.idle
        (λ _. number_lem tp.max_idle_timeout (λ v. ok (record p0 { max_idle_timeout = v })) a.idle)
        (λ n. ap (λ v. record p0 { max_idle_timeout = v }) n)
        (Decodes-token s tp.stateless_reset_token p1 _ refl a.token_whole (
          Decodes-number (not s) 0x0003 tp.max_packet_size p3 _ (omega arith) a.packet_number
            (λ _.
              passes tp.max_packet_size (λ v. ltb v 1200) Error.invalid_transport_param
                (λ v. record p2 { max_packet_size = v }) a.packet_number
                (le→ltb tp.max_packet_size 1200 a.packet))
            (λ n. absurd (omega (arith, a.packet)))
            (Decodes-number (not s) 0x0004 tp.initial_max_data p4 _ (omega arith) a.max_data
              (λ _.
                number_lem tp.initial_max_data (λ v. ok (record p3 { initial_max_data = v }))
                  a.max_data)
              (λ n. ap (λ v. record p3 { initial_max_data = v }) n)
              (Decodes-number (not s) 0x0005 tp.initial_max_stream_data_bidi_local p5 _
                (omega arith) a.bidi_local
                (λ _.
                  number_lem tp.initial_max_stream_data_bidi_local
                    (λ v. ok (record p4 { initial_max_stream_data_bidi_local = v })) a.bidi_local)
                (λ n. ap (λ v. record p4 { initial_max_stream_data_bidi_local = v }) n)
                (Decodes-number (not s) 0x0006 tp.initial_max_stream_data_bidi_remote p6 _
                  (omega arith) a.bidi_remote
                  (λ _.
                    number_lem tp.initial_max_stream_data_bidi_remote
                      (λ v. ok (record p5 { initial_max_stream_data_bidi_remote = v }))
                      a.bidi_remote)
                  (λ n. ap (λ v. record p5 { initial_max_stream_data_bidi_remote = v }) n)
                  (Decodes-number (not s) 0x0007 tp.initial_max_stream_data_uni p7 _ (omega arith)
                    a.uni
                    (λ _.
                      number_lem tp.initial_max_stream_data_uni
                        (λ v. ok (record p6 { initial_max_stream_data_uni = v })) a.uni)
                    (λ n. ap (λ v. record p6 { initial_max_stream_data_uni = v }) n)
                    (Decodes-number (not s) 0x0008 tp.initial_max_streams_bidi p8 _ (omega arith)
                      (omega (arith, a.streams_bidi))
                      (λ _.
                        passes tp.initial_max_streams_bidi (λ v. ltb (2 ^ 60) v) Error.stream_limit
                          (λ v. record p7 { initial_max_streams_bidi = v })
                          (omega (arith, a.streams_bidi))
                          (le→ltb (2 ^ 60) tp.initial_max_streams_bidi a.streams_bidi))
                      (λ n. ap (λ v. record p7 { initial_max_streams_bidi = v }) n)
                      (Decodes-number (not s) 0x0009 tp.initial_max_streams_uni p9 _ (omega arith)
                        (omega (arith, a.streams_uni))
                        (λ _.
                          passes tp.initial_max_streams_uni (λ v. ltb (2 ^ 60) v) Error.stream_limit
                            (λ v. record p8 { initial_max_streams_uni = v })
                            (omega (arith, a.streams_uni))
                            (le→ltb (2 ^ 60) tp.initial_max_streams_uni a.streams_uni))
                        (λ n. ap (λ v. record p8 { initial_max_streams_uni = v }) n)
                        (Decodes-number (not s) 0x000a tp.ack_delay_exponent p10 _ (omega arith)
                          (omega (arith, a.exponent))
                          (λ nz.
                            passes tp.ack_delay_exponent (λ v. ltb 20 v)
                              Error.invalid_transport_param
                              (λ v. record p9 { ack_delay_exponent = v })
                              (omega (arith, a.exponent))
                              (le→ltb 20 tp.ack_delay_exponent a.exponent)
                            ∙ ap (λ v. ok (record p9 { ack_delay_exponent = v }))
                                (sym (kept 3 tp.ack_delay_exponent nz)))
                          (λ n. ap (λ v. record p9 { ack_delay_exponent = or_default 3 v }) n)
                          (Decodes-number (not s) 0x000b tp.max_ack_delay p11 _ (omega arith)
                            (omega (arith, a.delay))
                            (λ nz.
                              passes tp.max_ack_delay (λ v. leb (2 ^ 14) v)
                                Error.invalid_transport_param
                                (λ v. record p10 { max_ack_delay = v }) (omega (arith, a.delay))
                                (lt→leb (2 ^ 14) tp.max_ack_delay a.delay)
                              ∙ ap (λ v. ok (record p10 { max_ack_delay = v }))
                                  (sym (kept 25 tp.max_ack_delay nz)))
                            (λ n. ap (λ v. record p10 { max_ack_delay = or_default 25 v }) n)
                            (Decodes-flag (not s) tp.disable_active_migration p11 _ refl (
                              subst (λ x. Decodes (not s) p12 x (received tp s))
                                (append-nil (number_entry 0x000e tp.active_conn_id_limit))
                                (Decodes-number (not s) 0x000e tp.active_conn_id_limit p13 []
                                  (omega arith) a.limit
                                  (λ _.
                                    number_lem tp.active_conn_id_limit
                                      (λ v. ok (record p12 { active_conn_id_limit = v })) a.limit)
                                  (λ n. ap (λ v. record p12 { active_conn_id_limit = v }) n)
                                  (Decodes-nil (not s) p13)))))))))))))))
