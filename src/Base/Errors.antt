-- ===== src/Base/Errors.antt =====
-- src/lib.rs, `enum Error`, and Rust's results: a value, an error, or a panic.
use Prim.Native.Nat.{ℕ}

pub data Error : Type 0 where
  done buffer_too_short unknown_version invalid_frame invalid_packet invalid_state : Error
  invalid_stream_state invalid_transport_param crypto_fail tls_fail flow_control : Error
  stream_limit final_size congestion_control scheduler_type : Error

-- `Error::to_wire`
unfoldable pub to_wire : Error → ℕ
to_wire Error.done = 0x0
to_wire Error.invalid_frame = 0x7
to_wire Error.invalid_stream_state = 0x5
to_wire Error.invalid_transport_param = 0x8
to_wire Error.crypto_fail = 0x100
to_wire Error.tls_fail = 0x100
to_wire Error.flow_control = 0x3
to_wire Error.stream_limit = 0x4
to_wire Error.final_size = 0x6
to_wire _ = 0xa

-- `panic` is a Rust panic: `unreachable!()`, `unwrap()` on `None`, a failed `assert!`.
pub data Result {ℓ} (A : Type ℓ) : Type ℓ where
  ok : A → Result A
  err : Error → Result A
  panic : Result A

infixl 5 ◌>>=◌
abbrev pub ◌>>=◌ {ℓ κ} : {A : Type ℓ} {B : Type κ} → Result A → (A → Result B) → Result B
ok a >>= f = f a
err e >>= f = err e
panic >>= f = panic
