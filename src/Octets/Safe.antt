-- ===== src/Octets/Safe.antt =====
-- Reading on any input: no panic, no write, and an offset that never goes back or past the end.
use dtp.Base.{
  ℕ, zero, suc, ◌-◌, ◌/◌, ◌^◌, ◌≤◌, ◌<◌, ◌≡◌, refl, ◌∙◌, subst, sym, Bool, true, false, List, [],
  ◌∷◌, length, drop, arith, length-drop, Result, ok, err, panic, Error, All, if◌then◌else◌, ltb,
  set, get_or, ◌≢◌, lt→ltb, le→ltb, bit_and,
}
use dtp.Base.Bytes.{IsByte}
use native.Mathlib.Decide.{dec_lt, ℕ_discrete}
use dtp.Octets.{
  Octets, M, ◌>>=◌, ◌>>◌, pure, fail, lift, fail_if, as_ref, get_u, peek_u, get_bytes, get_cap,
  get_varint, varint_parse_len, decode_vec, get_bytes_with_varint_length, get_bytes_with_u8_length,
}

-- A buffer of bytes with its offset within it.
pub record IsValid (b : Octets) : Type 0 where
  pub bytes : All IsByte b.buf
  pub within : b.off ≤ length b.buf

-- How a read that began at `b` may end.
abbrev pub Stays : {A : Type 0} → Octets → Result (A × Octets) → Type 0
Stays b (ok (_, b')) = (b'.buf ≡ b.buf) × (b.off ≤ b'.off) × (b'.off ≤ length b.buf)
Stays b (err _) = Unit {0}
Stays b panic = ⊥

pub record Safe {A : Type 0} (m : M A) : Type 0 where
  pub run : (b : Octets) → IsValid b → Stays b (m b)

pub Stays-trans :
    {A : Type 0} (b b' : Octets) (r : Result (A × Octets))
    → b'.buf ≡ b.buf
    → b.off ≤ b'.off
    → Stays b' r
    → Stays b r
Stays-trans b b' (ok (a, c)) e h s =
    (s.0 ∙ e, omega arith, subst (λ (l : List ℕ). c.off ≤ length l) e s.2)
Stays-trans b b' (err x) e h s = tt
Stays-trans b b' panic e h s = s

pub IsValid-stays :
    (b b' : Octets) → IsValid b → b'.buf ≡ b.buf → b'.off ≤ length b.buf → IsValid b'
IsValid-stays b b' v e h = record {
  bytes = subst (All IsByte) (sym e) v.bytes;
  within = subst (λ (l : List ℕ). b'.off ≤ length l) (sym e) h;
}

pub Safe-bind :
    {A B : Type 0} (m : M A) (f : A → M B) → Safe m → ((a : A) → Safe (f a)) → Safe (m >>= f)
Safe-bind {A} {B} m f p q = record { run = λ b v. step b v (m b) refl (p.run b v) }
  where
    step :
        (b : Octets)
        → IsValid b
        → (r : Result (A × Octets)) → m b ≡ r
        → Stays b r
        → Stays b ((m >>= f) b)
    step b v (ok (a, b')) e s =
        rw (e, ◌>>=◌)
          (Stays-trans b b' (f a b') s.0 s.1 ((q a).run b' (IsValid-stays b b' v s.0 s.2)))
    step b v (err x) e s = rw (e, ◌>>=◌) tt
    step b v panic e s = absurd s

pub Safe-pure : {A : Type 0} (a : A) → Safe (pure a)
Safe-pure a = record { run = λ b v. (refl, omega arith, v.within) }

pub Safe-fail : {A : Type 0} (e : Error) → Safe (fail {A = A} e)
Safe-fail e = record { run = λ b v. tt }

pub Safe-get_cap : Safe get_cap
Safe-get_cap = record { run = λ b v. (refl, omega arith, v.within) }

pub Safe-fail_if : (t : Bool) (e : Error) → Safe (fail_if t e)
Safe-fail_if true e = record { run = λ b v. tt }
Safe-fail_if false e = record { run = λ b v. (refl, omega arith, v.within) }

pub Safe-lift : {A : Type 0} (r : Result A) → r ≢ panic → Safe (lift r)
Safe-lift (ok a) h = Safe-pure a
Safe-lift (err e) h = Safe-fail e
Safe-lift panic h = absurd (h refl)

pub Safe-if : {A : Type 0} (t : Bool) (m k : M A) → Safe m → Safe k → Safe (if t then m else k)
Safe-if true m k p q = p
Safe-if false m k p q = q

-- A guard in front of a read.
pub Safe-guard : {A : Type 0} (t : Bool) (e : Error) (m : M A) → Safe m → Safe (fail_if t e >> m)
Safe-guard t e m p = Safe-bind (fail_if t e) _ (Safe-fail_if t e) (λ _. p)

pub get_bytes-Safe : (n : ℕ) → Safe (get_bytes n)
unfolding get_bytes
get_bytes-Safe n = record { run = λ b v. run b v }
  where
    run : (b : Octets) → IsValid b → Stays b (get_bytes n b)
    run b v = elim (dec_lt (length b.buf - b.off) n) [
      | yes h ↦ rw (lt→ltb _ _ h) tt
      | no h ↦
          rw (le→ltb (length b.buf - b.off) n (omega arith))
            (refl, omega arith, omega (arith, v.within))
    ]

pub get_u-Safe : (n : ℕ) → Safe (get_u n)
unfolding get_u
get_u-Safe n = record { run = λ b v. run b v }
  where
    run : (b : Octets) → IsValid b → Stays b (get_u n b)
    run b v = elim (dec_lt (length (as_ref b)) n) [
      | yes h ↦ rw (lt→ltb _ _ h, get_u, peek_u) tt
      | no h ↦
          rw (le→ltb (length (as_ref b)) n (omega arith), get_u, peek_u)
            (refl, omega arith, omega (arith, v.within, length-drop b.off b.buf))
    ]

pub All-drop : (n : ℕ) (xs : List ℕ) → All IsByte xs → All IsByte (drop n xs)
All-drop zero xs h = h
All-drop (suc n) [] h = tt
All-drop (suc n) (x ∷ xs) h = All-drop n xs h.1

peek_empty : (b : Octets) → as_ref b ≡ [] → peek_u 1 b ≡ err Error.buffer_too_short
unfolding peek_u
peek_empty b h = ground (arith, h)

peek_first : (b : Octets) (x : ℕ) (t : List ℕ) → as_ref b ≡ x ∷ t → peek_u 1 b ≡ ok (x, b)
unfolding peek_u
peek_first b x t h = ground (arith, h)

get_u-ne-panic : (n : ℕ) (b : Octets) → get_u n b ≢ panic
unfolding get_u
get_u-ne-panic n b = ground arith

-- The lengths that a first byte can announce, on which the decoding of the copied bytes is total.
abbrev IsVarintLen : ℕ → Type 0
IsVarintLen n = (vec : List ℕ) → decode_vec n vec ≢ panic

decode_vec_1 : IsVarintLen 1
unfolding decode_vec
decode_vec_1 (vec) =
    ground (
      arith,
      get_u-ne-panic 1 (record { buf = set vec 0 (bit_and (get_or vec 0 0) 0x3f); off = 0 }),
    )

decode_vec_2 : IsVarintLen 2
unfolding decode_vec
decode_vec_2 (vec) =
    ground (
      arith,
      get_u-ne-panic 2 (record { buf = set vec 0 (bit_and (get_or vec 0 0) 0x3f); off = 0 }),
    )

decode_vec_4 : IsVarintLen 4
unfolding decode_vec
decode_vec_4 (vec) =
    ground (
      arith,
      get_u-ne-panic 4 (record { buf = set vec 0 (bit_and (get_or vec 0 0) 0x3f); off = 0 }),
    )

decode_vec_8 : IsVarintLen 8
unfolding decode_vec
decode_vec_8 (vec) =
    ground (
      arith,
      get_u-ne-panic 8 (record { buf = set vec 0 (bit_and (get_or vec 0 0) 0x3f); off = 0 }),
    )

parse_len_cases : (x : ℕ) → x < 256 → (n : ℕ) × (varint_parse_len x ≡ ok n) × IsVarintLen n
unfolding varint_parse_len
parse_len_cases x h = elim (ℕ_discrete (x / 2 ^ 6) 0) [
  | yes a ↦ (1, ground arith, decode_vec_1)
  | no a ↦ elim (ℕ_discrete (x / 2 ^ 6) 1) [
    | yes b ↦ (2, ground arith, decode_vec_2)
    | no b ↦ elim (ℕ_discrete (x / 2 ^ 6) 2) [
      | yes c ↦ (4, ground arith, decode_vec_4)
      | no c ↦ (8, ground arith, decode_vec_8)
    ]
  ]
]

-- What `get_varint` does behind the first byte.
abbrev get_varint_rest : ℕ → M ℕ
get_varint_rest first = do
  n ← lift (varint_parse_len first)
  room ← get_cap
  fail_if (ltb room n) Error.buffer_too_short
  vec ← get_bytes n
  lift (decode_vec n vec)

get_varint_rest-Safe : (x : ℕ) → x < 256 → Safe (get_varint_rest x)
get_varint_rest-Safe x h =
    let (n, e, total) = parse_len_cases x h in
    subst
      (λ (r : Result ℕ). Safe (
        lift r >>= λ k. get_cap >>= λ room.
        fail_if (ltb room k) Error.buffer_too_short
        >> (get_bytes k >>= λ vec. lift (decode_vec k vec))))
      (sym e)
      (Safe-bind get_cap _ Safe-get_cap (λ room.
        Safe-guard (ltb room n) Error.buffer_too_short _
          (Safe-bind (get_bytes n) _ (get_bytes-Safe n) (λ vec. Safe-lift _ (total vec)))))

pub get_varint-Safe : Safe get_varint
unfolding get_varint
get_varint-Safe = record { run = λ b v. go b v (as_ref b) refl (All-drop b.off b.buf v.bytes) }
  where
    go :
        (b : Octets)
        → IsValid b
        → (s : List ℕ) → as_ref b ≡ s
        → All IsByte s
        → Stays b (get_varint b)
    go b v [] h p = rw (peek_empty b h, ◌>>=◌) tt
    go b v (x ∷ t) h p = rw (peek_first b x t h, ◌>>=◌) ((get_varint_rest-Safe x p.0).run b v)

pub get_bytes_with_varint_length-Safe : Safe get_bytes_with_varint_length
unfolding get_bytes_with_varint_length
get_bytes_with_varint_length-Safe = Safe-bind get_varint _ get_varint-Safe get_bytes-Safe

pub get_bytes_with_u8_length-Safe : Safe get_bytes_with_u8_length
unfolding get_bytes_with_u8_length
get_bytes_with_u8_length-Safe = Safe-bind (get_u 1) _ (get_u-Safe 1) get_bytes-Safe

-- A number takes a byte at least.
pub get_varint-progress : (b b' : Octets) (v : ℕ) → get_varint b ≡ ok (v, b') → b.off < b'.off
unfolding get_varint
get_varint-progress b b' v e = ground arith
