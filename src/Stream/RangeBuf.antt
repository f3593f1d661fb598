-- ===== src/Stream/RangeBuf.antt =====
-- src/stream.rs, `RangeBuf`: bytes at an offset of a stream. (Its field `data` is `bytes` here.)
use dtp.Base.{ℕ, ◌+◌, ◌%◌, ◌^◌, Bool, false, List, length, ◌==◌, take, drop}

pub record RangeBuf : Type 0 where
  pub bytes : List ℕ
  pub off : ℕ
  pub fin : Bool

-- `RangeBuf::from`
abbrev pub range_buf : List ℕ → ℕ → Bool → RangeBuf
range_buf buf off fin = record { bytes = buf; off = off; fin = fin }

abbrev pub len : RangeBuf → ℕ
len b = length b.bytes

-- A u64, which wraps around.
abbrev pub max_off : RangeBuf → ℕ
max_off b = (b.off + len b) % 2 ^ 64

-- The end of a chunk, as it is meant.
abbrev pub stop : RangeBuf → ℕ
stop b = b.off + len b

abbrev pub is_empty : RangeBuf → Bool
is_empty b = len b == 0

-- `RangeBuf::split_off`: what stays, and the part from `at` on, which takes the `fin` flag.
-- (`Vec::split_off` panics beyond the length; every caller splits within it.)
abbrev pub split_off : ℕ → RangeBuf → RangeBuf × RangeBuf
split_off at b = (
  record b { bytes = take at b.bytes; fin = false },
  record { bytes = drop at b.bytes; off = b.off + at; fin = b.fin },
)
