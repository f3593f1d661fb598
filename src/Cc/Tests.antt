-- ===== src/Cc/Tests.antt =====
-- Runs of Reno, of the trigger and of Hystart, and their theorems on them.
use dtp.Base.{
  true, some, ◌≤◌, length, All, List, [], ◌∷◌, ℕ, ◌+◌, ◌-◌, ◌/◌, ◌≡◌, refl, false, ok, arith,
}
use dtp.Cc.{initial_window, in_congestion_recovery}
use dtp.Cc.Hystart as Hystart
use dtp.Cc.Hystart.Round as Round
use dtp.Cc.Trigger as Trigger
use dtp.Cc.Trigger.Jobs as Jobs
use dtp.Cc.Reno.{Reno, reno, on_packet_acked_cc, grow, congestion_event}
use dtp.Cc.Reno.Window.{IsSound, begun, sent, acknowledged, congested, Runs-IsSound}

abbrev halve : ℕ → ℕ
halve c = c / 2

abbrev sending : Reno
sending = record reno { bytes_in_flight = 3000 }

abbrev acked : Reno
acked = record reno { congestion_window = 15520; bytes_in_flight = 2000 }

acks : on_packet_acked_cc 7 1000 false sending ≡ ok acked
unfolding on_packet_acked_cc grow in_congestion_recovery
acks = refl

sending-IsSound : IsSound 3000 14520 sending
sending-IsSound = record {
  low = omega arith;
  high = omega arith;
  width = omega arith;
  out = refl;
  narrow = omega arith;
}

Runs-IsSound_example :
    IsSound ((0 + 3000) - 1000) (initial_window + (0 + 1000)) (congestion_event halve 8 9 acked)
Runs-IsSound_example =
    Runs-IsSound halve (λ c h. refl) (omega arith)
      (congested 8 9 (
        acknowledged 7 1000 false (sent 3000 begun (omega arith)) (omega arith) (omega arith) acks))

-- Two events while the first job runs, and the answer of that job.
abbrev answer : List Trigger.CcInfo → ℕ → ℕ → ℕ × ℕ
answer infos cwnd rate = (cwnd + 1, rate)

abbrev acked_event : ℕ → Trigger.CcInfo
acked_event id = record {
  event_type = 0x46;
  event_time = 0;
  rtt = 5;
  bytes_in_flight = 0;
  packet_id = id;
}

abbrev answered : Trigger.CcTrigger
answered = Trigger.receive (
    Trigger.cc_trigger_async answer (
      Trigger.request (acked_event 2)
        (Trigger.receive (Trigger.request (acked_event 1) (Trigger.cc_trigger_new 10 20)))))

answered_runs :
    (answered.congestion_window ≡ 11)
    × (answered.jobs ≡ record { infos = acked_event 2 ∷ []; cwnd = 11; rate = 20 } ∷ [])
unfolding Trigger.receive Trigger.request Trigger.cc_trigger_async
answered_runs = (refl, refl)

Runs-IsSingle_example :
    Jobs.IsSingle (acked_event 1 ∷ acked_event 2 ∷ []) (acked_event 1 ∷ []) answered
unfolding Trigger.receive Trigger.request Trigger.cc_trigger_async
Runs-IsSingle_example = Jobs.Runs-IsSingle answer (
    Jobs.received (
      Jobs.ended (
        Jobs.requested (acked_event 2)
          (Jobs.received (Jobs.requested (acked_event 1) (Jobs.begun 10 20))))))

-- A round after one with the least time of 8 milliseconds, with eight samples of 13 milliseconds.
abbrev before : Hystart.Hystart
before = record (Hystart.hystart true) { current_round_min_rtt = some 8000000 }

abbrev one_more : Hystart.Hystart → Hystart.Hystart
one_more h = (Hystart.try_enter_lss 5 13000000 30000 77 1452 h).1

abbrev started : Hystart.Hystart
started = one_more (
    one_more (
      one_more
        (one_more (one_more (one_more (one_more (one_more (Hystart.start_round 9 before))))))))

abbrev round_samples : List ℕ
round_samples =
    13000000 ∷ 13000000 ∷ 13000000 ∷ 13000000 ∷ 13000000 ∷ 13000000 ∷ 13000000 ∷ 13000000 ∷ []

started_lss : started.lss_start_time ≡ some 77
unfolding Hystart.try_enter_lss Hystart.sample Hystart.start_round
started_lss = refl

started-Samples : Round.Samples (some 8000000) round_samples started
unfolding Hystart.try_enter_lss Hystart.sample Hystart.start_round
started-Samples =
    Round.sampled 5 13000000 30000 77 1452
      (Round.sampled 5 13000000 30000 77 1452
        (Round.sampled 5 13000000 30000 77 1452
          (Round.sampled 5 13000000 30000 77 1452
            (Round.sampled 5 13000000 30000 77 1452
              (Round.sampled 5 13000000 30000 77 1452
                (Round.sampled 5 13000000 30000 77 1452
                  (Round.sampled 5 13000000 30000 77 1452 (Round.begun 9 before refl refl)
                    (omega arith) refl)
                  (omega arith) refl)
                (omega arith) refl)
              (omega arith) refl)
            (omega arith) refl)
          (omega arith) refl)
        (omega arith) refl)
      (omega arith) refl

Samples-All_example :
    (8 ≤ length round_samples)
    × (l : ℕ) × (some 8000000 ≡ some l)
    × All (λ r. Round.threshold l ≤ r) round_samples
Samples-All_example = Round.Samples-All (some 8000000) 77 started-Samples started_lss
