-- ===== src/Octets.antt =====
-- src/octets.rs: `Octets`, a byte buffer with an offset. An operation is a function from the
-- buffer to its result and the buffer after it; after an error no caller reads the buffer again.
-- A slice of the buffer that an operation returns only for reading is the list of its bytes.
pub mod Reads
pub mod Writes
pub mod Varint
pub mod Rules
pub mod Safe
pub mod RoundTrip
mod Tests
use dtp.Base.{
  ℕ, zero, suc, ◌+◌, ◌-◌, ◌*◌, ◌/◌, ◌%◌, ◌^◌, Bool, List, [], ◌∷◌, ◌++◌, ltb, leb, ◌==◌,
  if◌then◌else◌, length, take, drop, set, get_or, bit_and, bit_or, Error, Result, ok, err, panic,
}
use dtp.Base.Bytes.{to_be, from_be}

pub record Octets : Type 0 where
  pub buf : List ℕ
  pub off : ℕ

abbrev pub M : Type 0 → Type 0
M A = Octets → Result (A × Octets)

infixl 5 ◌>>=◌ ◌>>◌
abbrev pub ◌>>=◌ : {A B : Type 0} → M A → (A → M B) → M B
◌>>=◌ m f b = elim (m b) [ ok (a, b') ↦ f a b' | err e ↦ err e | panic ↦ panic ]

abbrev pub ◌>>◌ : {A B : Type 0} → M A → M B → M B
m >> k = m >>= λ _. k

abbrev pub pure : {A : Type 0} → A → M A
pure a b = ok (a, b)

abbrev pub fail : {A : Type 0} → Error → M A
fail e b = err e

abbrev pub fail_if : Bool → Error → M (Unit {0})
fail_if c e b = if c then err e else ok (tt, b)

-- `Octets::with_slice`
unfoldable pub with_slice : List ℕ → Octets
with_slice buf = record { buf = buf; off = 0 }

-- `Octets::cap`, `Octets::len`, `as_ref` and `to_vec`
abbrev pub cap : Octets → ℕ
cap b = length b.buf - b.off

abbrev pub get_cap : M ℕ
get_cap b = ok (cap b, b)

abbrev pub len : Octets → ℕ
len b = length b.buf

abbrev pub as_ref : Octets → List ℕ
as_ref b = drop b.off b.buf

-- The `n` bytes from the offset on, and the offset moved over them.
abbrev pub slice_at : ℕ → Octets → List ℕ
slice_at n b = take n (drop b.off b.buf)

abbrev pub advance : ℕ → Octets → Octets
advance n b = record b { off = b.off + n }

-- The macros `peek_u!`, `get_u!` and `put_u!`, for an integer of `n` bytes.
unfoldable pub peek_u : ℕ → M ℕ
peek_u n b =
    if ltb (length (as_ref b)) n
    then err Error.buffer_too_short
    else ok (from_be 0 (slice_at n b), b)

unfoldable pub get_u : ℕ → M ℕ
unfolding peek_u
get_u n b = elim (peek_u n b) [
  | ok (out, b') ↦ ok (out, advance n b')
  | err e ↦ err e
  | panic ↦ panic
]

-- `buf[off..off + length v]` becomes `v`.
abbrev pub overwrite : List ℕ → ℕ → List ℕ → List ℕ
overwrite buf off v = take off buf ++ (v ++ drop (off + length v) buf)

unfoldable pub put_u : ℕ → ℕ → M (Unit {0})
put_u n v b =
    if ltb (length b.buf) (b.off + n)
    then err Error.buffer_too_short
    else ok (tt, record { buf = overwrite b.buf b.off (to_be n v); off = b.off + n })

abbrev pub get_u8 : M ℕ
get_u8 = get_u 1

abbrev pub peek_u8 : M ℕ
peek_u8 = peek_u 1

abbrev pub get_u16 : M ℕ
get_u16 = get_u 2

abbrev pub get_u24 : M ℕ
get_u24 = get_u 3

abbrev pub get_u32 : M ℕ
get_u32 = get_u 4

abbrev pub get_u64 : M ℕ
get_u64 = get_u 8

abbrev pub put_u8 : ℕ → M (Unit {0})
put_u8 = put_u 1

abbrev pub put_u16 : ℕ → M (Unit {0})
put_u16 = put_u 2

abbrev pub put_u24 : ℕ → M (Unit {0})
put_u24 = put_u 3

abbrev pub put_u32 : ℕ → M (Unit {0})
put_u32 = put_u 4

abbrev pub put_u64 : ℕ → M (Unit {0})
put_u64 = put_u 8

unfoldable pub get_bytes : ℕ → M (List ℕ)
get_bytes n b = if ltb (cap b) n then err Error.buffer_too_short else ok (slice_at n b, advance n b)

unfoldable pub peek_bytes : ℕ → M (List ℕ)
peek_bytes n b = if ltb (cap b) n then err Error.buffer_too_short else ok (slice_at n b, b)

unfoldable pub put_bytes : List ℕ → M (Unit {0})
put_bytes v b =
    if ltb (cap b) (length v)
    then err Error.buffer_too_short
    else if length v == 0
    then ok (tt, b)
    else ok (tt, record { buf = overwrite b.buf b.off v; off = b.off + length v })

-- `Octets::split_at`: the two parts are buffers of their own.
unfoldable pub split_at : ℕ → Octets → Result (Octets × Octets)
unfolding with_slice
split_at off b =
    if ltb (len b) off
    then err Error.buffer_too_short
    else ok (with_slice (take off b.buf), with_slice (drop off b.buf))

-- `Octets::slice`, and `Octets::slice_last`, which starts at `cap - len` and goes on to the end.
unfoldable pub slice : ℕ → Octets → Result (List ℕ)
slice n b = if ltb (cap b) n then err Error.buffer_too_short else ok (slice_at n b)

unfoldable pub slice_last : ℕ → Octets → Result (List ℕ)
slice_last n b = if ltb (cap b) n then err Error.buffer_too_short else ok (drop (cap b - n) b.buf)

-- `varint_len`; beyond 2 ^ 62 - 1 it is `unreachable!()`.
unfoldable pub varint_len : ℕ → Result ℕ
varint_len v =
    if leb v 63
    then ok 1
    else if leb v 16383
    then ok 2
    else if leb v 1_073_741_823
    then ok 4
    else if leb v 4_611_686_018_427_387_903
    then ok 8
    else panic

unfoldable pub varint_parse_len : ℕ → Result ℕ
varint_parse_len first =
    let top = first / 2 ^ 6 in
    if top == 0
    then ok 1
    else if top == 1
    then ok 2
    else if top == 2
    then ok 4
    else if top == 3
    then ok 8
    else panic

-- What `get_varint` reads of the copied bytes `vec`, by their number.
unfoldable pub decode_vec : ℕ → List ℕ → Result ℕ
unfolding with_slice
decode_vec n vec =
    let b = with_slice (set vec 0 (bit_and (get_or vec 0 0) 0x3f)) in
    let out : M ℕ → Result ℕ =
      λ (m : M ℕ). elim (m b) [ ok (v, _) ↦ ok v | err e ↦ err e | panic ↦ panic ] in
    if n == 1
    then out get_u8
    else if n == 2
    then out get_u16
    else if n == 4
    then out get_u32
    else if n == 8
    then out get_u64
    else panic

abbrev pub lift : {A : Type 0} → Result A → M A
lift r b = elim r [ ok a ↦ ok (a, b) | err e ↦ err e | panic ↦ panic ]

unfoldable pub get_varint : M ℕ
unfolding get_u peek_u get_bytes varint_parse_len decode_vec
get_varint = do
  first ← peek_u8
  n ← lift (varint_parse_len first)
  room ← get_cap
  fail_if (ltb room n) Error.buffer_too_short
  vec ← get_bytes n
  lift (decode_vec n vec)

-- `buf[0] |= mask` on the slice that starts at `i`.
unfoldable pub or_first : ℕ → ℕ → M (Unit {0})
or_first i mask b = ok (tt, record b { buf = set b.buf i (bit_or (get_or b.buf i 0) mask) })

unfoldable pub put_varint_with_len : ℕ → ℕ → M (Unit {0})
put_varint_with_len v n b =
    if ltb (cap b) n
    then err Error.buffer_too_short
    else if n == 1
    then put_u8 (v % 2 ^ 8) b
    else if n == 2
    then (put_u16 (v % 2 ^ 16) >> or_first b.off 0x40) b
    else if n == 4
    then (put_u32 (v % 2 ^ 32) >> or_first b.off 0x80) b
    else if n == 8
    then (put_u64 v >> or_first b.off 0xc0) b
    else panic

unfoldable pub put_varint : ℕ → M (Unit {0})
unfolding put_varint_with_len varint_len put_u or_first
put_varint v = do n ← lift (varint_len v); put_varint_with_len v n

unfoldable pub get_bytes_with_u8_length : M (List ℕ)
unfolding get_u get_bytes
get_bytes_with_u8_length = do n ← get_u8; get_bytes n

unfoldable pub get_bytes_with_u16_length : M (List ℕ)
unfolding get_u get_bytes
get_bytes_with_u16_length = do n ← get_u16; get_bytes n

unfoldable pub get_bytes_with_varint_length : M (List ℕ)
unfolding get_varint get_bytes
get_bytes_with_varint_length = do n ← get_varint; get_bytes n
