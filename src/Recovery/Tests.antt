-- ===== src/Recovery/Tests.antt =====
-- Runs of loss recovery with Reno, and its theorems on them.
use dtp.Base.{
  ℕ, ◌+◌, ◌*◌, ◌/◌, ◌≤◌, ◌≡◌, inl, refl, Bool, true, false, Option, none, some, List, [], ◌∷◌,
  Result, ok, arith, Error,
}
use dtp.Fec.{FecStatus}
use dtp.Frame.{Frame}
use dtp.Cc.Reno.{Reno, reno, on_packet_acked_cc, congestion_event}
use dtp.Cc.Reno.Window.{IsSound}
use dtp.Ranges.{flatten}
use dtp.Ranges.Descend.{left, total, flatten-IsDescending}
use dtp.Recovery.{
  Epoch, initial, application, at, find, is_counted, Sent, CongestionControl, Scales, Recovery,
  recovery,
}
use dtp.Recovery.Timer.{earliest_loss_time}
use dtp.Recovery.Losses.{detect_lost_packets}
use dtp.Recovery.Acks.{ack_loop}
use dtp.Recovery.Calls.{unacked_bytes, on_packet_sent, on_ack_received}
use dtp.Recovery.Packets.{is_out}
use dtp.Recovery.Reno.{KeepsFlight, reno_control, reno_control-KeepsFlight}
use dtp.Recovery.Flight.{Tracks}
use dtp.Recovery.Flight.Loop.{Acknowledged, ack_loop-Acknowledged}
use dtp.Recovery.Flight.Detected.{Detected, detect_lost_packets-Detected}
use dtp.Recovery.History.{numbers, Judged, on_ack_received-Judged}
use dtp.Recovery.Runs.{
  Event, packet_sent, ack_received, added, handle, Runs, handle-Runs, Runs-Tracks,
}
use dtp.Recovery.Alarm.{on_packet_sent-timer, on_packet_sent-no_timer}

abbrev half : ℕ → ℕ
half c = c / 2

abbrev control : CongestionControl Reno
control = reno_control half

abbrev laws : KeepsFlight control IsSound
laws = reno_control-KeepsFlight half (λ c h. refl)

abbrev scales : Scales
scales = record {
  nine_eighths = λ d. d * 9 / 8;
  three_quarters = λ d. d * 3 / 4;
  quarter = λ d. d / 4;
  seven_eighths = λ d. d * 7 / 8;
  eighth = λ d. d / 8;
  quarter_window = λ d. d / 4;
  half_window = λ d. d / 2;
}

abbrev no_group : FecStatus
no_group = record { m = 0; n = 0; group_id = 0; index = 0 }

abbrev packet : ℕ → ℕ → Sent
packet k time = record {
  pkt_num = k;
  frames = Frame.max_data k ∷ [];
  time = time;
  size = 1200;
  ack_eliciting = true;
  in_flight = true;
  fec_info = no_group;
}

abbrev start : Recovery Reno
start = recovery reno 0

start-IsSound : IsSound 0 14520 reno
start-IsSound = record {
  low = omega arith;
  high = omega arith;
  width = omega arith;
  out = refl;
  narrow = omega arith;
}

abbrev send : ℕ → Epoch → Recovery Reno → Recovery Reno
send k e r = on_packet_sent control scales (packet k (k * 1000000)) e true (k * 1000000) r

abbrev one_out : Recovery Reno
one_out = send 0 application start

abbrev started : Runs IsSound control scales 14520 start
started = Runs.begun 14520 reno 0 start-IsSound (omega arith)

start-Tracks : Tracks IsSound 14520 0 start
start-Tracks = Runs-Tracks IsSound control scales laws started

abbrev first_sent : Event
first_sent = packet_sent (packet 0 0) application true 0

one-Runs : Runs IsSound control scales 15720 one_out
unfolding handle find at
one-Runs = Runs.handled first_sent (none, one_out) started (refl, omega arith, omega arith) refl

one-Tracks : Tracks IsSound 15720 0 one_out
one-Tracks = Runs-Tracks IsSound control scales laws one-Runs

abbrev first_acked : Event
first_acked = ack_received (λ k. 50000000) ((0, 1) ∷ []) 0 application true 50000000

handle-Runs_example :
    (control.bytes_in_flight one_out.cc ≡ unacked_bytes one_out.sent.of_application)
    × ((q : Option Error × Recovery Reno) × (handle control scales first_acked one_out ≡ ok q)
        × (control.bytes_in_flight q.1.cc ≡ unacked_bytes q.1.sent.of_application)
        × (unacked_bytes q.1.sent.of_application ≤ 15720 + added first_acked))
handle-Runs_example =
    handle-Runs IsSound control scales laws first_acked one-Runs
      ((omega arith, tt, tt), (omega arith, omega arith, tt), (0, inl (omega arith, omega arith)))

on_ack_received-Judged_example :
    (q : Option Error × Recovery Reno) × (on_ack_received control scales
        (λ k. 50000000)
        ((0, 1) ∷ [])
        0
        application
        true
        50000000
        one_out
      ≡ ok q)
    × Judged
        (at application (numbers IsSound control scales one-Runs))
        application
        ((0, 1) ∷ [])
        one_out
        q
on_ack_received-Judged_example =
    on_ack_received-Judged IsSound control scales laws one-Runs (λ k. 50000000) ((0, 1) ∷ []) 0 0
      application true 50000000 (omega arith, tt, tt) (omega arith, omega arith, tt)
      (inl (omega arith, omega arith))

detect_lost_packets-Detected_example :
    (r' : Recovery Reno) × (detect_lost_packets control scales application 900000000 one_out
      ≡ ok r')
    × Tracks IsSound 15720 0 r'
    × Detected IsSound control laws scales application 900000000 one_out r'
detect_lost_packets-Detected_example =
    detect_lost_packets-Detected IsSound control laws scales application 900000000 one_out
      one-Tracks

ack_loop-Acknowledged_example :
    (q : Bool × Recovery Reno) × (ack_loop control scales 2 application
        (λ k. 7)
        (flatten ((0, 1) ∷ []))
        false
        one_out
      ≡ ok q)
    × Tracks IsSound 15720 0 q.1
    × Acknowledged application (flatten ((0, 1) ∷ [])) false one_out q
unfolding left flatten total
ack_loop-Acknowledged_example =
    ack_loop-Acknowledged IsSound control laws scales 2 application (λ k. 7) (flatten ((0, 1) ∷ []))
      false one_out
      (flatten-IsDescending ((0, 1) ∷ []) (omega arith, tt, tt) (omega arith, omega arith, tt))
      (omega arith) one-Tracks

on_packet_sent-timer_example :
    (t : ℕ) × ((on_packet_sent control scales
        (packet 0 0)
        application
        true
        7
        start).loss_detection_timer
      ≡ some t)
on_packet_sent-timer_example =
    on_packet_sent-timer IsSound control laws scales (packet 0 0) 7 start start-Tracks refl refl
      (omega arith) (omega arith)

on_packet_sent-no_timer_example :
    ((on_packet_sent control scales (packet 0 0) initial false 7 start).loss_detection_timer ≡ none)
    × (is_out 0 (at initial (on_packet_sent control scales (packet 0 0) initial false 7 start).sent)
        ≡ true)
unfolding is_counted earliest_loss_time
on_packet_sent-no_timer_example =
    on_packet_sent-no_timer IsSound control laws scales (packet 0 0) initial false 7 start refl refl
      refl refl

-- The fourth packet is acknowledged after 27 milliseconds: the first is behind by the threshold and
-- lost, the next two wait, and the window is halved.
abbrev four_out : Recovery Reno
four_out = send 3 application (send 2 application (send 1 application one_out))

abbrev seen : Result (Option Error × Recovery Reno) → List Frame × Option ℕ × ℕ × ℕ
seen (ok (x, r)) =
    (r.lost.of_application, r.loss_detection_timer, r.cc.congestion_window, r.cc.bytes_in_flight)
seen _ = ([], none, 0, 0)

acked_fourth :
    seen (
      on_ack_received control scales
        (λ k. 30000000)
        ((3, 4) ∷ [])
        0
        application
        true
        30000000
        four_out)
    ≡ (Frame.max_data 0 ∷ [], some 31375000, 7260, 2400)
unfolding on_ack_received on_packet_sent on_packet_acked_cc congestion_event
acked_fourth = refl
