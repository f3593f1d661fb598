-- ===== src/Params/RoundTrip.antt =====
-- `encode` and `decode` together.
use dtp.Base.{
  ℕ, suc, ◌+◌, ◌%◌, ◌^◌, ◌≤◌, ◌<◌, ◌≡◌, refl, ap, subst, ◌∙◌, Bool, not, List, [], ◌++◌, append-nil,
  replicate, length, length-replicate, take-append_length, arith, ok,
}
use dtp.Base.Bytes.{to_be}
use dtp.Octets.{Octets, M, ◌>>◌, with_slice, put_u, put_bytes, get_bytes, get_bytes_with_u16_length}
use dtp.Octets.Reads.{Reads, get_bytes-Reads}
use dtp.Octets.Rules.{read_u16}
use dtp.Octets.Writes.{Writes, Writes-bind, put_u-Writes, put_bytes-Writes}
use dtp.Params.{TransportParams, used, decode, put_params, filled, prefixed, encode}
use dtp.Params.Wire.{wire, IsAccepted, received}
use dtp.Params.Writes.{put_params-Writes}
use dtp.Params.Reads.{wire-Decodes}

-- What is written at the begin of a buffer is what the buffer holds up to its offset.
filled-Writes :
    (m : M (Unit {0})) (bs out : List ℕ)
    → Writes m bs
    → length bs ≤ length out
    → filled (m (with_slice out)) ≡ ok bs
unfolding filled with_slice
filled-Writes m bs out w h =
    ap filled (w.fits (record { buf = out; off = 0 }) (omega arith))
    ∙ ap ok (take-append_length bs _ (0 + length bs) (omega arith))

abbrev prefixed_wire : TransportParams → Bool → List ℕ
prefixed_wire tp s = to_be 2 (length (wire tp s)) ++ wire tp s

encode_lem :
    (tp : TransportParams) (s : Bool) (out : List ℕ)
    → IsAccepted tp
    → length (wire tp s) ≤ 128
    → 2 + length (wire tp s) ≤ length out
    → encode tp s out ≡ ok (prefixed_wire tp s)
unfolding encode prefixed
encode_lem tp s out a short room =
    let n : length (wire tp s) % 2 ^ 16 ≡ length (wire tp s) = omega arith in
    ap (prefixed out) (
      filled-Writes (put_params tp s) (wire tp s) (replicate 128 0) (put_params-Writes tp s a)
        (omega (arith, length-replicate {A = ℕ} 128 0)))
    ∙ filled-Writes (put_u 2 (length (wire tp s) % 2 ^ 16) >> put_bytes (wire tp s))
        (prefixed_wire tp s) out
        (rw (n) (
          Writes-bind _ _ _ _ (put_u-Writes 2 (length (wire tp s))) (put_bytes-Writes (wire tp s))))
        (omega arith)

-- All of the bytes of a buffer are read.
run_whole :
    {A : Type 0} (m : M A) (bs : List ℕ) (v : A)
    → Reads m bs v []
    → (b : Octets) × (m (with_slice bs) ≡ ok (v, b))
unfolding with_slice
run_whole m bs v r = let (b, e, _, _, _) = r.run (record { buf = bs; off = 0 }) refl in (b, e)

prefix-Reads :
    (bs : List ℕ)
    → length bs < 2 ^ 16
    → Reads get_bytes_with_u16_length (to_be 2 (length bs) ++ bs) bs []
unfolding get_bytes_with_u16_length
prefix-Reads bs h =
    read_u16 (length bs) get_bytes h
      (subst (λ x. Reads (get_bytes (length bs)) x bs []) (append-nil bs) (get_bytes-Reads bs []))

decode_lem :
    (tp : TransportParams) (s : Bool)
    → IsAccepted tp
    → length (wire tp s) ≤ 128
    → decode (prefixed_wire tp s) (not s) ≡ ok (received tp s)
unfolding decode used
decode_lem tp s a short =
    let (_, e) = run_whole _ _ _ (prefix-Reads (wire tp s) (omega arith)) in
    let (_, d) =
      run_whole _ _ _ ((wire-Decodes tp s a).run (suc (length (wire tp s))) (omega arith)) in
    ap (used _) e ∙ ap (used _) d

-- The parameters that one side encodes, if they are accepted ones, fit the buffer of 128 bytes and
-- the given buffer has room for them and their length, are what the other side decodes from the
-- encoding, where a client sends no original connection id and no reset token, and an exponent or a
-- delay of acknowledgements of 0 arrives as the default of 3 or 25.
pub decode-encode :
    (tp : TransportParams) (s : Bool) (out : List ℕ)
    → IsAccepted tp
    → length (wire tp s) ≤ 128
    → 2 + length (wire tp s) ≤ length out
    → (buf : List ℕ) × (encode tp s out ≡ ok buf)
      × (length buf ≡ 2 + length (wire tp s))
      × (decode buf (not s) ≡ ok (received tp s))
decode-encode tp s out a short room =
    (prefixed_wire tp s, encode_lem tp s out a short room, omega arith, decode_lem tp s a short)
