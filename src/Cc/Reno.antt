-- ===== src/Cc/Reno.antt =====
-- src/cc/reno.rs, `Reno`: the congestion window. The fields of `Sent` that Reno reads are its time and
-- its size. Sizes are 64-bit numbers.
pub mod Window
use dtp.Base.{
  ℕ, ◌+◌, ◌-◌, ◌*◌, ◌/◌, ◌%◌, ◌^◌, max, Bool, true, false, Option, none, some, ltb, ◌==◌,
  if◌then◌else◌, Result, ok, panic,
}
use dtp.Base.Words.{sub64}
use dtp.Cc.{max_datagram_size, initial_window, minimum_window, in_congestion_recovery}

pub record Reno : Type 0 where
  pub congestion_window : ℕ
  pub bytes_in_flight : ℕ
  pub congestion_recovery_start_time : Option ℕ
  pub ssthresh : ℕ

abbrev pub reno : Reno
reno = record {
  congestion_window = initial_window;
  bytes_in_flight = 0;
  congestion_recovery_start_time = none;
  ssthresh = 2 ^ 64 - 1;
}

abbrev pub collapse_cwnd : Reno → Reno
collapse_cwnd r = record r { congestion_window = minimum_window }

-- `saturating_sub`
abbrev pub decrease_bytes_in_flight : ℕ → Reno → Reno
decrease_bytes_in_flight bytes r = record r { bytes_in_flight = r.bytes_in_flight - bytes }

abbrev pub on_packet_sent_cc : ℕ → Reno → Reno
on_packet_sent_cc bytes_sent r = record r {
  bytes_in_flight = (r.bytes_in_flight + bytes_sent) % 2 ^ 64;
}

-- A division by zero panics.
unfoldable pub grow : ℕ → Reno → Result Reno
grow size r =
    if ltb r.congestion_window r.ssthresh
    then ok (record r { congestion_window = (r.congestion_window + size) % 2 ^ 64 })
    else if r.congestion_window == 0
    then panic
    else ok (record r {
      congestion_window =
          (r.congestion_window + (max_datagram_size * size) % 2 ^ 64 / r.congestion_window)
          % 2 ^ 64;
    })

unfoldable pub on_packet_acked_cc : ℕ → ℕ → Bool → Reno → Result Reno
unfolding in_congestion_recovery grow
on_packet_acked_cc time size app_limited r =
    let less = record r { bytes_in_flight = sub64 r.bytes_in_flight size } in
    if in_congestion_recovery r.congestion_recovery_start_time time
    then ok less
    else if app_limited
    then ok less
    else grow size less

-- `reduce` is the product of the window, as a floating point number, and 0.5, as an integer.
unfoldable pub congestion_event : (ℕ → ℕ) → ℕ → ℕ → Reno → Reno
unfolding in_congestion_recovery
congestion_event reduce time_sent now r =
    if in_congestion_recovery r.congestion_recovery_start_time time_sent
    then r
    else (let window = max (reduce r.congestion_window) minimum_window in
        record r {
          congestion_recovery_start_time = some now;
          congestion_window = window;
          ssthresh = window;
        })
