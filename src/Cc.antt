-- ===== src/Cc.antt =====
-- src/cc/mod.rs: congestion control, its constants and what the algorithms share.
pub mod Reno
pub mod Trigger
pub mod Hystart
mod Tests
use dtp.Base.{ℕ, ◌*◌, Bool, false, Option, none, some, leb}

abbrev pub max_datagram_size : ℕ
max_datagram_size = 1452

abbrev pub initial_window : ℕ
initial_window = 10 * max_datagram_size

abbrev pub minimum_window : ℕ
minimum_window = 2 * max_datagram_size

-- The method of the trait, by `congestion_recovery_start_time`. An instant is a number.
unfoldable pub in_congestion_recovery : Option ℕ → ℕ → Bool
in_congestion_recovery none sent_time = false
in_congestion_recovery (some start) sent_time = leb sent_time start
