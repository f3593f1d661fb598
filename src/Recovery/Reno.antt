-- ===== src/Recovery/Reno.antt =====
-- src/cc/reno.rs: Reno as the congestion control of a connection, and what a congestion control
-- promises about the bytes in flight.
use dtp.Base.{ℕ, ◌+◌, ◌-◌, ◌/◌, ◌^◌, ◌≤◌, ◌<◌, ◌≡◌, refl, Bool, Result, ok, err, panic, arith}
use dtp.Cc.Reno.{
  Reno, collapse_cwnd, decrease_bytes_in_flight, on_packet_sent_cc, on_packet_acked_cc,
  congestion_event,
}
use dtp.Cc.Reno.Window.{IsSound, Acks, on_packet_acked_cc-Acks, congestion_event-IsSound}
use dtp.Recovery.{Epoch, Sent, CongestionControl}

-- `Sound flight bound c`: `flight` bytes are out, in a state whose size `bound` limits. A packet
-- that is acknowledged moves its bytes from the first to the second.
pub record KeepsFlight {C : Type 0} (control : CongestionControl C) (Sound : ℕ → ℕ → C → Type 0)
    : Type 0 where
  pub out : (flight bound : ℕ) (c : C) → Sound flight bound c → control.bytes_in_flight c ≡ flight
  pub sent :
      (flight bound : ℕ) (c : C) (p : Sent) (size : ℕ)
      → Sound flight bound c
      → flight + size < 2 ^ 53
      → Sound (flight + size) bound (control.on_packet_sent_cc p size c)
  pub acked :
      (flight bound : ℕ) (c : C) (p : Sent) (srtt min_rtt latest_rtt : ℕ) (app_limited : Bool)
      (e : Epoch) (lost_count : ℕ)
      → Sound flight bound c
      → p.size ≤ 65535
      → p.size ≤ flight
      → bound + p.size < 2 ^ 53
      → (c' : C) × (control.on_packet_acked_cc p srtt min_rtt latest_rtt app_limited e lost_count c
          ≡ ok c')
        × Sound (flight - p.size) (bound + p.size) c'
  pub decreased :
      (flight bound : ℕ) (c : C) (size : ℕ)
      → Sound flight bound c
      → size ≤ flight
      → Sound (flight - size) bound (control.decrease_bytes_in_flight size c)
  pub congested :
      (flight bound : ℕ) (c : C) (srtt time_sent now pkt_num : ℕ) (e : Epoch) (lost_count : ℕ)
      → Sound flight bound c
      → Sound flight bound (control.congestion_event srtt time_sent now pkt_num e lost_count c)
  pub begun :
      (flight bound : ℕ) (c : C) (now : ℕ)
      → Sound flight bound c
      → Sound flight bound (control.cc_bbr_begin_ack now c)
  pub ended :
      (flight bound : ℕ) (c : C)
      → Sound flight bound c
      → Sound flight bound (control.cc_bbr_end_ack c)

abbrev pub reno_control : (ℕ → ℕ) → CongestionControl Reno
reno_control reduce = record {
  cwnd = λ c. c.congestion_window;
  bytes_in_flight = λ c. c.bytes_in_flight;
  decrease_bytes_in_flight = decrease_bytes_in_flight;
  collapse_cwnd = collapse_cwnd;
  on_packet_sent_cc = λ p size. on_packet_sent_cc size;
  on_packet_acked_cc = λ p srtt min_rtt latest_rtt app_limited e lost_count.
      on_packet_acked_cc p.time p.size app_limited;
  congestion_event =
      λ srtt time_sent now pkt_num e lost_count. congestion_event reduce time_sent now;
  pacing_rate = λ c. 2 ^ 64 - 1;
  cc_bbr_begin_ack = λ now c. c;
  cc_bbr_end_ack = λ c. c;
}

acked_ok :
    (flight bound time size : ℕ) (app_limited : Bool) (r : Reno) (x : Result Reno)
    → Acks flight bound time size app_limited r x
    → (r' : Reno) × (x ≡ ok r') × IsSound (flight - size) (bound + size) r'
acked_ok flight bound time size app_limited r (ok r') a = (r', refl, a.0)
acked_ok flight bound time size app_limited r (err e) a = absurd a
acked_ok flight bound time size app_limited r panic a = absurd a

pub reno_control-KeepsFlight :
    (reduce : ℕ → ℕ)
    → ((c : ℕ) → c < 2 ^ 53 → reduce c ≡ c / 2)
    → KeepsFlight (reno_control reduce) IsSound
reno_control-KeepsFlight reduce halves = record {
  out = λ flight bound c s. s.out;
  sent = λ flight bound c p size s n.
      let o = s.out in
      record { low = s.low; high = s.high; width = s.width; out = omega arith; narrow = n };
  acked = λ flight bound c p srtt min_rtt latest_rtt app_limited e lost_count s h k b.
      acked_ok flight bound p.time p.size app_limited c
        (on_packet_acked_cc p.time p.size app_limited c)
        (on_packet_acked_cc-Acks flight bound p.time p.size app_limited c s h k b);
  decreased = λ flight bound c size s k.
      let o = s.out in
      let n = s.narrow in
      record {
        low = s.low;
        high = s.high;
        width = s.width;
        out = omega arith;
        narrow = omega arith;
      };
  congested = λ flight bound c srtt time_sent now pkt_num e lost_count s.
      congestion_event-IsSound reduce flight bound time_sent now c halves s;
  begun = λ flight bound c now s. s;
  ended = λ flight bound c s. s;
}
