-- ===== src/Fec.antt =====
-- src/fec.rs: forward error correction. A frame carries one shard of a group of `m` shards of data
-- and `n` shards of redundancy.
pub mod Group
pub mod Numbers
mod Tests
use dtp.Base.{ℕ, Bool, true, Option, some, List}

pub record FecStatus : Type 0 where
  pub m : ℕ
  pub n : ℕ
  pub group_id : ℕ
  pub index : ℕ

-- The field `data` is called `bytes`.
pub record FecFrame : Type 0 where
  pub info : FecStatus
  pub bytes : List ℕ

-- The trait `FecAlgorithm`. Each operation says whether it succeeds and what the vector is then.
pub record FecAlgorithm : Type 0 where
  pub encode_shards : List (List ℕ) → Bool × List (List ℕ)
  pub reconstruct_data : List (Option (List ℕ)) → Bool × List (Option (List ℕ))
  pub verify_shards : List (List ℕ) → Bool × Bool

-- `RSFec` without the feature `fec`: every operation succeeds and does nothing.
abbrev pub no_code : FecAlgorithm
no_code = record {
  encode_shards = λ v. (true, v);
  reconstruct_data = λ shards. (true, shards);
  verify_shards = λ shards. (true, true);
}

abbrev pub no_fec : ℕ → ℕ → Option FecAlgorithm
no_fec m n = some no_code
