-- ===== src/Recovery.antt =====
-- src/recovery.rs: the packets that are out, what was acknowledged and lost, and the loss detection
-- timer. Instants and durations are numbers of nanoseconds.
pub mod Timer
pub mod Losses
pub mod Acks
pub mod Calls
pub mod Packets
pub mod Reno
pub mod Flight
pub mod Runs
pub mod Alarm
pub mod Steady
pub mod History
mod Tests
use dtp.Base.{
  ℕ, ◌+◌, ◌-◌, ◌*◌, ◌%◌, ◌^◌, Bool, true, false, Option, none, some, List, [], ◌∷◌, ltb, ◌==◌,
  if◌then◌else◌, Result,
}
use dtp.Fec.{FecStatus}
use dtp.Fec.Numbers.{FecPacketNumbers}
use dtp.Frame.{Frame}
use dtp.Minmax.{Minmax, minmax, reset}

abbrev pub packet_threshold : ℕ
packet_threshold = 3

abbrev pub granularity : ℕ
granularity = 1000000

abbrev pub initial_rtt : ℕ
initial_rtt = 500000000

abbrev pub persistent_congestion_threshold : ℕ
persistent_congestion_threshold = 3

-- src/packet.rs, the epochs as indices of an array of three.
pub data Epoch : Type 0 where
  initial handshake application : Epoch

pub record PerEpoch (A : Type 0) : Type 0 where
  pub of_initial : A
  pub of_handshake : A
  pub of_application : A

abbrev pub each : {A : Type 0} → A → PerEpoch A
each a = record { of_initial = a; of_handshake = a; of_application = a }

unfoldable pub at : {A : Type 0} → Epoch → PerEpoch A → A
at initial x = x.of_initial
at handshake x = x.of_handshake
at application x = x.of_application

unfoldable pub put : {A : Type 0} → Epoch → A → PerEpoch A → PerEpoch A
put initial a x = record x { of_initial = a }
put handshake a x = record x { of_handshake = a }
put application a x = record x { of_application = a }

-- `epoch >= 2`
unfoldable pub is_counted : Epoch → Bool
is_counted application = true
is_counted _ = false

pub record Sent : Type 0 where
  pub pkt_num : ℕ
  pub frames : List Frame
  pub time : ℕ
  pub size : ℕ
  pub ack_eliciting : Bool
  pub in_flight : Bool
  pub fec_info : FecStatus

-- `BTreeMap<u64, Sent>`: the packets by ascending number. `get`, `remove` and `insert`.
unfoldable pub find : ℕ → List Sent → Option Sent
find k [] = none
find k (p ∷ ps) = if p.pkt_num == k then some p else find k ps

unfoldable pub without : ℕ → List Sent → List Sent
without k [] = []
without k (p ∷ ps) = let rest = without k ps in if p.pkt_num == k then ps else p ∷ rest

unfoldable pub insert : Sent → List Sent → List Sent
insert q [] = q ∷ []
insert q (p ∷ ps) =
    let rest = insert q ps in
    if ltb q.pkt_num p.pkt_num
    then q ∷ p ∷ ps
    else if p.pkt_num == q.pkt_num
    then q ∷ ps
    else p ∷ rest

-- src/cc/mod.rs, the trait `CongestionControl` over states `C`. The arguments of
-- `on_packet_acked_cc` are the packet, the smoothed, the least and the latest round trip time,
-- whether the application limits the sending, the epoch and the number of lost packets; those of
-- `congestion_event` are the round trip time, the time the packet was sent, the time, its number,
-- the epoch and the number of lost packets.
pub record CongestionControl (C : Type 0) : Type 0 where
  pub cwnd : C → ℕ
  pub bytes_in_flight : C → ℕ
  pub decrease_bytes_in_flight : ℕ → C → C
  pub collapse_cwnd : C → C
  pub on_packet_sent_cc : Sent → ℕ → C → C
  pub on_packet_acked_cc : Sent → ℕ → ℕ → ℕ → Bool → Epoch → ℕ → C → Result C
  pub congestion_event : ℕ → ℕ → ℕ → ℕ → Epoch → ℕ → C → C
  pub pacing_rate : C → ℕ
  pub cc_bbr_begin_ack : ℕ → C → C
  pub cc_bbr_end_ack : C → C

-- The products and quotients of durations with floating point constants: `mul_f64` by 9/8, 3/4,
-- 1/4, 7/8 and 1/8, and the `div_f32` of `Minmax` by 4 and 2.
pub record Scales : Type 0 where
  pub nine_eighths : ℕ → ℕ
  pub three_quarters : ℕ → ℕ
  pub quarter : ℕ → ℕ
  pub seven_eighths : ℕ → ℕ
  pub eighth : ℕ → ℕ
  pub quarter_window : ℕ → ℕ
  pub half_window : ℕ → ℕ

pub record Recovery (C : Type 0) : Type 0 where
  pub loss_detection_timer : Option ℕ
  pub pto_count : ℕ
  pub time_of_last_sent_ack_eliciting_pkt : PerEpoch (Option ℕ)
  pub largest_acked_pkt : PerEpoch ℕ
  pub largest_sent_pkt : PerEpoch ℕ
  pub latest_rtt : ℕ
  pub smoothed_rtt : Option ℕ
  pub rttvar : ℕ
  pub min_rtt : ℕ
  pub max_ack_delay : ℕ
  pub loss_time : PerEpoch (Option ℕ)
  pub sent : PerEpoch (List Sent)
  pub lost : PerEpoch (List Frame)
  pub acked : PerEpoch (List Frame)
  pub total_pkt_nums : ℕ
  pub lost_count : ℕ
  pub loss_probes : PerEpoch ℕ
  pub cc : C
  pub app_limited : Bool
  pub pns_in_fec_group : List (ℕ × FecPacketNumbers)
  pub m : ℕ
  pub n : ℕ
  pub last_adjust_time : Option ℕ
  pub min_filter : Minmax
  pub delta : ℕ

-- An 8-bit signed number by its two's complement pattern, and the pattern with the sign bit turned,
-- whose order as a natural number is the order of the signed numbers.
abbrev pub biased : ℕ → ℕ
biased x = (x + 128) % 256

-- `new`, with the state of the congestion control that the configuration chooses, and the time at
-- which the filter is made.
abbrev pub recovery : {C : Type 0} → C → ℕ → Recovery C
recovery c now = record {
  loss_detection_timer = none;
  pto_count = 0;
  time_of_last_sent_ack_eliciting_pkt = each none;
  largest_acked_pkt = each (2 ^ 64 - 1);
  largest_sent_pkt = each 0;
  latest_rtt = 0;
  smoothed_rtt = none;
  rttvar = 0;
  min_rtt = 0;
  max_ack_delay = 25000000;
  loss_time = each none;
  sent = each [];
  lost = each [];
  acked = each [];
  total_pkt_nums = 0;
  lost_count = 0;
  loss_probes = each 0;
  cc = c;
  app_limited = false;
  pns_in_fec_group = [];
  m = 10;
  n = 1;
  last_adjust_time = none;
  min_filter = (reset now (biased 0) (minmax now)).1;
  delta = 0;
}
