-- ===== src/Params/Safe.antt =====
-- `decode` on any bytes: no panic, fuel enough, and only values within their bounds.
use dtp.Base.{
  ℕ, zero, suc, ◌<◌, inl, inr, refl, ap, Bool, List, length, All, arith, Result, ok, err, panic,
  ◌==◌, Bool-cases,
}
use dtp.Base.Bytes.{IsByte}
use dtp.Octets.{M, Octets, ◌>>=◌, lift, cap, advance, with_slice}
use dtp.Octets.Safe.{IsValid, IsValid-stays}
use dtp.Params.{TransportParams, default_params, used, decode_param, decode_loop, decode}
use dtp.Params.Blobs.{get_u16_cases, Blob, u16_length_cases}
use dtp.Params.Legal.{IsLegal, IsFine, default-IsLegal, Fine, decode_param-Fine}

abbrev IsFineAt : Bool → Result (TransportParams × Octets) → Type 0
IsFineAt s (ok (tp, _)) = IsLegal s tp
IsFineAt s (err e) = Unit {0}
IsFineAt s panic = ⊥

-- What one parameter gives is handed on to the rest of the loop.
go_on :
    (s : Bool) (r : Result TransportParams) (k : TransportParams → M TransportParams) (b : Octets)
    → Fine s r
    → ((tp : TransportParams) → IsLegal s tp → IsFineAt s (k tp b))
    → IsFineAt s ((lift r >>= k) b)
go_on s (ok tp) k b f q = q tp f.holds
go_on s (err e) k b f q = tt
go_on s panic k b f q = absurd f.holds

decode_loop-IsFineAt :
    (fuel : ℕ) (s : Bool) (tp : TransportParams) (b : Octets)
    → IsValid b
    → cap b < fuel
    → IsLegal s tp
    → IsFineAt s (decode_loop fuel s tp b)
unfolding decode_loop Blob
decode_loop-IsFineAt zero s tp b v h p = absurd (omega arith)
decode_loop-IsFineAt (suc fuel) s tp b v h p = elim (Bool-cases (cap b == 0)) [
  | inl z ↦ rw (decode_loop, z) p
  | inr z ↦ elim (get_u16_cases b) [
    | inl e ↦ rw (decode_loop, z, ◌>>=◌, e) tt
    | inr (id, e, room) ↦
        let b1 = advance 2 b in
        elim (u16_length_cases b1 (IsValid-stays b b1 v refl room)) [
          | inl f ↦ rw (decode_loop, z, ◌>>=◌, e, f) tt
          | inr (val, b2, f, bytes, valid, same, on) ↦
              let less : cap b2 < fuel = omega (arith, ap length same) in
              rw (decode_loop, z, ◌>>=◌, e, f)
                (go_on s (decode_param s id val tp) (λ tp'. decode_loop fuel s tp') b2
                  (decode_param-Fine s id val tp bytes p)
                  (λ tp' p'. decode_loop-IsFineAt fuel s tp' b2 valid less p'))
        ]
  ]
]

decoded :
    (s : Bool) (r : Result (TransportParams × Octets))
    → IsFineAt s r
    → IsFine s (used (λ tp. ok tp) r)
unfolding used
decoded s (ok (tp, _)) h = h
decoded s (err e) h = tt
decoded s panic h = h

-- Decoding any bytes never panics, so the fuel of the loop is enough, and in the parameters that it
-- returns a packet has 1200 bytes at least, the limits of streams are at most 2 ^ 60, the exponent at
-- most 20 and the delay below 2 ^ 14, a token has 16 bytes, and a server gets no connection id and no
-- token.
pub decode-IsFine : (s : Bool) (buf : List ℕ) → All IsByte buf → IsFine s (decode buf s)
unfolding decode used with_slice Blob
decode-IsFine s buf h =
    elim (u16_length_cases (record { buf = buf; off = 0 })
      (record { bytes = h; within = omega arith })) [
        | inl e ↦ rw (e) tt
        | inr (val, b, e, bytes, _, _, _) ↦ rw (e) (
            decoded s _ (
              decode_loop-IsFineAt (suc (length val)) s default_params
                (record { buf = val; off = 0 }) (record { bytes = bytes; within = omega arith })
                (omega arith) (default-IsLegal s)))
      ]
