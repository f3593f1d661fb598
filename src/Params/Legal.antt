-- ===== src/Params/Legal.antt =====
-- `decode_param` on any bytes: no panic, and only values within their bounds.
use dtp.Base.{
  ℕ, ◌^◌, ◌≤◌, ◌<◌, ◌≡◌, inl, inr, refl, Bool, true, false, none, some, List, length, length-take,
  All, arith, Result, ok, err, panic, Error, if◌then◌else◌, ltb, leb, ◌==◌,
}
use dtp.Base.Bytes.{IsByte}
use dtp.Octets.{Octets, slice_at, get_bytes, get_varint, with_slice}
use dtp.Octets.Safe.{Stays, get_varint-Safe}
use dtp.Params.{TransportParams, default_params, used, number, checked, decode_param}
use dtp.Params.Wire.{HasLength}
use dtp.Params.Blobs.{get_bytes_cases}

-- What a side may have received: only a client has a connection id or a token.
abbrev pub IsLegal : Bool → TransportParams → Type 0
IsLegal is_server tp =
    (1200 ≤ tp.max_packet_size)
    × (tp.initial_max_streams_bidi ≤ 2 ^ 60)
    × (tp.initial_max_streams_uni ≤ 2 ^ 60)
    × (tp.ack_delay_exponent ≤ 20)
    × (tp.max_ack_delay < 2 ^ 14)
    × HasLength tp.stateless_reset_token (λ n. n ≡ 16)
    × (is_server ≡ true → tp.original_connection_id ≡ none)
    × (is_server ≡ true → tp.stateless_reset_token ≡ none)

abbrev pub IsFine : Bool → Result TransportParams → Type 0
IsFine s (ok tp) = IsLegal s tp
IsFine s (err e) = Unit {0}
IsFine s panic = ⊥

pub default-IsLegal : (s : Bool) → IsLegal s default_params
default-IsLegal s =
    (omega arith, omega arith, omega arith, omega arith, omega arith, tt, λ _. refl, λ _. refl)

-- `IsFine` with its two arguments, so that a rule can find them.
pub record Fine (s : Bool) (r : Result TransportParams) : Type 0 where
  pub holds : IsFine s r

legal : {s : Bool} {tp : TransportParams} → IsLegal s tp → Fine s (ok tp)
legal p = record { holds = p }

refused : {s : Bool} (e : Error) → Fine s (err e)
refused e = record { holds = tt }

Fine-if :
    (s t : Bool) (a b : Result TransportParams)
    → (t ≡ true → Fine s a)
    → (t ≡ false → Fine s b)
    → Fine s (if t then a else b)
Fine-if s true a b p q = p refl
Fine-if s false a b p q = q refl

used-Fine :
    {A : Type 0} (s : Bool) (f : A → Result TransportParams) (b : Octets) (r : Result (A × Octets))
    → Stays b r
    → ((v : A) → Fine s (f v))
    → Fine s (used f r)
unfolding used
used-Fine s f b (ok (v, _)) h q = q v
used-Fine s f b (err e) h q = refused e
used-Fine s f b panic h q = absurd h

number-Fine :
    (s : Bool) (val : List ℕ) (f : ℕ → Result TransportParams)
    → All IsByte val
    → ((v : ℕ) → Fine s (f v))
    → Fine s (number val f)
unfolding number with_slice
number-Fine s val f h q =
    let b : Octets = record { buf = val; off = 0 } in
    used-Fine s f b (get_varint b)
      (get_varint-Safe.run b (record { bytes = h; within = omega arith })) q

-- The sixteen bytes of a token.
token_cases :
    (s : Bool) (val : List ℕ) (f : List ℕ → Result TransportParams)
    → ((v : List ℕ) → length v ≡ 16 → Fine s (f v))
    → Fine s (used f (get_bytes 16 (with_slice val)))
unfolding used with_slice
token_cases s val f q =
    let b : Octets = record { buf = val; off = 0 } in
    elim (get_bytes_cases 16 b) [
      | inl e ↦ rw (e) (refused _)
      | inr (e, room) ↦ rw (e) (q (slice_at 16 b) (omega (arith, length-take 16 val)))
    ]

pub decode_param-Fine :
    (s : Bool) (id : ℕ) (val : List ℕ) (tp : TransportParams)
    → All IsByte val
    → IsLegal s tp
    → Fine s (decode_param s id val tp)
unfolding decode_param
decode_param-Fine s id val tp h p =
    Fine-if s (id == 0) _ _
      (λ _.
        Fine-if s s _ (ok (record tp { original_connection_id = some val })) (λ _. refused _)
          (λ c. legal (p.0, p.1, p.2, p.3, p.4, p.5, λ t. clash t c, p.7)))
      (λ _.
        Fine-if s (id == 1) _ _
          (λ _. plain (λ v. record tp { max_idle_timeout = v }) (λ v. legal p))
          (λ _.
            Fine-if s (id == 2) _ _
              (λ _.
                Fine-if s s _ _ (λ _. refused _)
                  (λ c.
                    token_cases s val (λ v. ok (record tp { stateless_reset_token = some v }))
                      (λ v e. legal (p.0, p.1, p.2, p.3, p.4, e, p.6, λ t. clash t c))))
              (λ _.
                Fine-if s (id == 3) _ _
                  (λ _.
                    tested (λ v. ltb v 1200) Error.invalid_transport_param
                      (λ v. record tp { max_packet_size = v })
                      (λ v e. legal (ground (arith, e), p.1, p.2, p.3, p.4, p.5, p.6, p.7)))
                  (λ _.
                    Fine-if s (id == 4) _ _
                      (λ _. plain (λ v. record tp { initial_max_data = v }) (λ v. legal p))
                      (λ _.
                        Fine-if s (id == 5) _ _
                          (λ _.
                            plain (λ v. record tp { initial_max_stream_data_bidi_local = v })
                              (λ v. legal p))
                          (λ _.
                            Fine-if s (id == 6) _ _
                              (λ _.
                                plain (λ v. record tp { initial_max_stream_data_bidi_remote = v })
                                  (λ v. legal p))
                              (λ _.
                                Fine-if s (id == 7) _ _
                                  (λ _.
                                    plain (λ v. record tp { initial_max_stream_data_uni = v })
                                      (λ v. legal p))
                                  (λ _.
                                    Fine-if s (id == 8) _ _
                                      (λ _.
                                        tested (λ v. ltb (2 ^ 60) v) Error.stream_limit
                                          (λ v. record tp { initial_max_streams_bidi = v })
                                          (λ v e.
                                            legal (
                                              p.0,
                                              ground (arith, e),
                                              p.2,
                                              p.3,
                                              p.4,
                                              p.5,
                                              p.6,
                                              p.7,
                                            )))
                                      (λ _.
                                        Fine-if s (id == 9) _ _
                                          (λ _.
                                            tested (λ v. ltb (2 ^ 60) v) Error.stream_limit
                                              (λ v. record tp { initial_max_streams_uni = v })
                                              (λ v e. legal (
                                                p.0,
                                                p.1,
                                                ground (arith, e),
                                                p.3,
                                                p.4,
                                                p.5,
                                                p.6,
                                                p.7,
                                              )))
                                          (λ _.
                                            Fine-if s (id == 10) _ _
                                              (λ _.
                                                tested (λ v. ltb 20 v) Error.invalid_transport_param
                                                  (λ v. record tp { ack_delay_exponent = v })
                                                  (λ v e. legal (
                                                    p.0,
                                                    p.1,
                                                    p.2,
                                                    ground (arith, e),
                                                    p.4,
                                                    p.5,
                                                    p.6,
                                                    p.7,
                                                  )))
                                              (λ _.
                                                Fine-if s (id == 11) _ _
                                                  (λ _.
                                                    tested (λ v. leb (2 ^ 14) v)
                                                      Error.invalid_transport_param
                                                      (λ v. record tp { max_ack_delay = v })
                                                      (λ v e. legal (
                                                        p.0,
                                                        p.1,
                                                        p.2,
                                                        p.3,
                                                        ground (arith, e),
                                                        p.5,
                                                        p.6,
                                                        p.7,
                                                      )))
                                                  (λ _.
                                                    Fine-if s (id == 12) _ _ (λ _. legal p)
                                                      (λ _.
                                                        Fine-if s (id == 13) _ _
                                                          (λ _.
                                                            Fine-if s s _ _ (λ _. refused _)
                                                            (λ _. legal p))
                                                          (λ _.
                                                            Fine-if s (id == 14) _ _
                                                            (λ _.
                                                            plain
                                                            (λ v. record tp {
                                                            active_conn_id_limit = v;
                                                            })
                                                            (λ v. legal p))
                                                            (λ _. legal p)))))))))))))))
  where
    clash : {A : Type 0} → s ≡ true → s ≡ false → A
    clash t c = absurd (ground (arith, t, c))

    plain :
        (f : ℕ → TransportParams)
        → ((v : ℕ) → Fine s (ok (f v)))
        → Fine s (number val (λ v. ok (f v)))
    plain f q = number-Fine s val _ h q

    tested :
        (bad : ℕ → Bool) (x : Error) (f : ℕ → TransportParams)
        → ((v : ℕ) → bad v ≡ false → Fine s (ok (f v)))
        → Fine s (number val (λ v. checked (bad v) x (f v)))
    tested bad x f q = number-Fine s val _ h (λ v. Fine-if s (bad v) _ _ (λ _. refused _) (q v))
