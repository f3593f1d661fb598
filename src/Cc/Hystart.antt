-- ===== src/Cc/Hystart.antt =====
-- src/cc/hystart.rs, `Hystart`: when slow start gives way to limited slow start (LSS). Instants and
-- durations are numbers of nanoseconds.
pub mod Round
use dtp.Base.{
  ℕ, ◌+◌, ◌-◌, ◌*◌, ◌/◌, ◌%◌, ◌^◌, min, max, Bool, true, false, ◌&&◌, Option, none, some, leb, ◌==◌,
  if◌then◌else◌, Result, ok, panic,
}
use dtp.Packet.{epoch_application}

abbrev pub low_cwnd : ℕ
low_cwnd = 16

abbrev pub min_rtt_thresh : ℕ
min_rtt_thresh = 4000000

abbrev pub max_rtt_thresh : ℕ
max_rtt_thresh = 16000000

abbrev pub n_rtt_sample : ℕ
n_rtt_sample = 8

abbrev pub abc_l : ℕ
abc_l = 2

pub record Hystart : Type 0 where
  pub enabled : Bool
  pub window_end : Option ℕ
  pub last_round_min_rtt : Option ℕ
  pub current_round_min_rtt : Option ℕ
  pub rtt_sample_count : ℕ
  pub lss_start_time : Option ℕ

abbrev pub hystart : Bool → Hystart
hystart enabled = record {
  enabled = enabled;
  window_end = none;
  last_round_min_rtt = none;
  current_round_min_rtt = none;
  rtt_sample_count = 0;
  lss_start_time = none;
}

abbrev pub is_some : {A : Type 0} → Option A → Bool
is_some none = false
is_some (some a) = true

unfoldable pub in_lss : ℕ → Hystart → Bool
in_lss epoch h = h.enabled && ((epoch == epoch_application) && is_some h.lss_start_time)

unfoldable pub start_round : ℕ → Hystart → Hystart
start_round pkt_num h = if is_some h.window_end then h else record h {
  window_end = some pkt_num;
  last_round_min_rtt = h.current_round_min_rtt;
  current_round_min_rtt = none;
  rtt_sample_count = 0;
  lss_start_time = none;
}

abbrev pub least_rtt : Option ℕ → ℕ → ℕ
least_rtt none rtt = rtt
least_rtt (some current) rtt = min current rtt

-- The tests for LSS, with the least round trip time of this round and of the last.
abbrev pub can_exit : ℕ → ℕ → ℕ → ℕ → Option ℕ → Bool
can_exit cwnd max_datagram_size count current none = false
can_exit cwnd max_datagram_size count current (some last) =
    leb ((low_cwnd * max_datagram_size) % 2 ^ 64) cwnd
    && (leb n_rtt_sample count
        && leb (last + min (max (last / 8) min_rtt_thresh) max_rtt_thresh) current)

-- The end of the round.
abbrev pub ended_by : ℕ → Option ℕ → Option ℕ
ended_by pkt_num none = none
ended_by pkt_num (some end_pkt_num) = if leb end_pkt_num pkt_num then none else some end_pkt_num

-- `try_enter_lss` where LSS has not started.
unfoldable pub sample : ℕ → ℕ → ℕ → ℕ → ℕ → Hystart → Hystart
sample pkt_num rtt cwnd now max_datagram_size h =
    let current = least_rtt h.current_round_min_rtt rtt in
    let count = (h.rtt_sample_count + 1) % 2 ^ 64 in
    record h {
      window_end = ended_by pkt_num h.window_end;
      current_round_min_rtt = some current;
      rtt_sample_count = count;
      lss_start_time =
          if can_exit cwnd max_datagram_size count current h.last_round_min_rtt
          then some now
          else h.lss_start_time;
    }

unfoldable pub try_enter_lss : ℕ → ℕ → ℕ → ℕ → ℕ → Hystart → Bool × Hystart
unfolding sample
try_enter_lss pkt_num rtt cwnd now max_datagram_size h =
    let h' = sample pkt_num rtt cwnd now max_datagram_size h in
    if is_some h.lss_start_time then (true, h) else (is_some h'.lss_start_time, h')

-- `ratio` is `k as usize`, the window over a quarter of the threshold; a division by zero panics.
unfoldable pub lss_cwnd : (ℕ → ℕ → ℕ) → ℕ → ℕ → ℕ → ℕ → ℕ → Result ℕ
lss_cwnd ratio pkt_size bytes_acked cwnd ssthresh max_datagram_size =
    let most = (max_datagram_size * abc_l) % 2 ^ 64 in
    if ratio cwnd ssthresh == 0
    then panic
    else ok ((cwnd + min pkt_size (most - min bytes_acked most) / ratio cwnd ssthresh) % 2 ^ 64)

abbrev pub congestion_event : Hystart → Hystart
congestion_event h = record h { window_end = none; lss_start_time = none }
