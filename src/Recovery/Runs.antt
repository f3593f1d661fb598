-- ===== src/Recovery/Runs.antt =====
-- The states that a connection reaches.
use dtp.Base.{
  ℕ, ◌+◌, ◌≤◌, ◌<◌, ◌^◌, ◌≡◌, refl, subst, [], Bool, Option, none, Result, ok, arith, Error,
}
use dtp.Base.Errors.{◌>>=◌}
use dtp.Ranges.{RangeSet}
use dtp.Ranges.Insert.{IsSeparated, Holds}
use dtp.Ranges.Largest.{IsFull}
use dtp.Recovery.{
  Epoch, initial, handshake, application, at, Sent, find, each, CongestionControl, Scales, Recovery,
  recovery,
}
use dtp.Recovery.Calls.{
  unacked_bytes, on_packet_sent, on_ack_received, on_loss_detection_timeout, drop_unacked_data,
}
use dtp.Recovery.Reno.{KeepsFlight}
use dtp.Recovery.Flight.{Groups, AreFit, Tracks}
use dtp.Recovery.Flight.Operations.{on_packet_sent-Tracks}
use dtp.Recovery.Flight.Answers.{on_ack_received-Answered}
use dtp.Recovery.Flight.Timeouts.{on_loss_detection_timeout-Tracks, drop_unacked_data-Tracks}

pub data Event : Type 0 where
  packet_sent : (p : Sent) (e : Epoch) (handshake_completed : Bool) (now : ℕ) → Event
  ack_received :
      (clock : ℕ → ℕ) (ranges : RangeSet) (ack_delay : ℕ) (e : Epoch) (handshake_completed : Bool)
      (now : ℕ)
      → Event
  timed_out : (handshake_completed : Bool) (now : ℕ) → Event
  dropped : (e : Epoch) → Event

-- The bytes that an event adds.
abbrev pub added : Event → ℕ
added (packet_sent p e h now) = p.size
added _ = 0

module _ {C : Type 0} (control : CongestionControl C) (scales : Scales) where
  -- The operation of an event.
  unfoldable pub handle : Event → Recovery C → Result (Option Error × Recovery C)
  unfolding on_packet_sent on_ack_received on_loss_detection_timeout drop_unacked_data
  handle (packet_sent p e h now) r = ok (none, on_packet_sent control scales p e h now r)
  handle (ack_received clock ranges delay e h now) r =
      on_ack_received control scales clock ranges delay e h now r
  handle (timed_out h now) r =
      on_loss_detection_timeout control scales h now r >>= λ r'. ok (none, r')
  handle (dropped e) r = ok (none, drop_unacked_data control scales e r)

-- What a connection keeps to: a packet number is not used while it is out, and a packet has 65535
-- bytes at most; a set of acknowledged numbers is separated, without empty ranges, below 2 ^ 64, and
-- holds a number.
abbrev pub Allowed : {C : Type 0} → ℕ → Event → Recovery C → Type 0
Allowed budget (packet_sent p e h now) r =
    (find p.pkt_num (at e r.sent) ≡ none) × (p.size ≤ 65535) × (budget + p.size < 2 ^ 53)
Allowed budget (ack_received clock ranges delay e h now) r =
    IsSeparated ranges × IsFull ranges × ((y : ℕ) × Holds y ranges)
Allowed budget (timed_out h now) r = Unit {0}
Allowed budget (dropped e) r = Unit {0}

module _ {C : Type 0} (Sound : ℕ → ℕ → C → Type 0) (control : CongestionControl C)
    (scales : Scales) where
  -- From a new connection, with the first bound and all bytes that were sent.
  pub data Runs : ℕ → Recovery C → Type 0 where
    begun :
        (bound : ℕ) (c : C) (now : ℕ)
        → Sound 0 bound c
        → bound < 2 ^ 53
        → Runs bound (recovery c now)
    handled :
        {budget : ℕ} {r : Recovery C} (event : Event) (q : Option Error × Recovery C)
        → Runs budget r
        → Allowed budget event r
        → handle control scales event r ≡ ok q
        → Runs (budget + added event) q.1

module _ {C : Type 0} (Sound : ℕ → ℕ → C → Type 0) (control : CongestionControl C) (scales : Scales)
    (laws : KeepsFlight control Sound) where
  same : {budget : ℕ} (r : Recovery C) → Tracks Sound budget 0 r → Tracks Sound (budget + 0) 0 r
  same {budget} r t = subst (λ b. Tracks Sound b 0 r) (omega arith) t

  exact :
      {budget : ℕ} (r : Recovery C)
      → Tracks Sound budget 0 r
      → control.bytes_in_flight r.cc ≡ unacked_bytes r.sent.of_application
  exact r t = omega (arith, laws.out _ t.bound r.cc t.sound)

  same_ok : {A : Type 0} {x : Result A} {a b : A} → x ≡ ok a → x ≡ ok b → a ≡ b
  same_ok e f = cc

  zeros : 0 ≡ 0 + unacked_bytes []
  unfolding unacked_bytes
  zeros = refl

  nothing : (groups : Groups) (e : Epoch) → AreFit groups (at e (each []))
  unfolding at
  nothing groups initial = (tt, tt)
  nothing groups handshake = (tt, tt)
  nothing groups application = (tt, tt)

  handle-Tracks :
      {budget : ℕ} (event : Event) (r : Recovery C)
      → Allowed budget event r
      → Tracks Sound budget 0 r
      → (q : Option Error × Recovery C) × (handle control scales event r ≡ ok q)
        × Tracks Sound (budget + added event) 0 q.1
  unfolding handle
  handle-Tracks (packet_sent p e h now) r (fresh, small, wide) t = (
    (none, on_packet_sent control scales p e h now r),
    refl,
    on_packet_sent-Tracks Sound control laws scales p e h now r t fresh small wide,
  )
  handle-Tracks (ack_received clock ranges delay e h now) r (sep, full, (y, i)) t =
      let (q, run, t', _) =
        on_ack_received-Answered Sound control laws scales clock ranges y delay e h now r sep full i
          t in
      (q, run, same q.1 t')
  handle-Tracks (timed_out h now) r a t =
      let (r', run, t') = on_loss_detection_timeout-Tracks Sound control laws scales h now r t in
      ((none, r'), rw (run) refl, same r' t')
  handle-Tracks (dropped e) r a t = (
    (none, drop_unacked_data control scales e r),
    refl,
    same (drop_unacked_data control scales e r)
        (drop_unacked_data-Tracks Sound control laws scales e r t),
  )

  pub Runs-Tracks :
      {budget : ℕ} {r : Recovery C} → Runs Sound control scales budget r → Tracks Sound budget 0 r
  unfolding unacked_bytes at
  Runs-Tracks (begun bound c now s w) = record {
    bound = bound;
    sound = subst (λ x. Sound x bound c) (zeros) s;
    room = omega arith;
    width = w;
    fit = λ e. nothing [] e;
  }
  Runs-Tracks (handled {budget} {r} event q run a e) =
      let (q', e', t) = handle-Tracks event r a (Runs-Tracks run) in
      subst (λ x. Tracks Sound (budget + added event) 0 x.1) (same_ok e' e) t

  -- In every reached state the bytes in flight that the congestion control counts are the sizes of
  -- the packets in flight of the third epoch together. An allowed event there does not panic, and
  -- the same holds after it.
  pub handle-Runs :
      {budget : ℕ} {r : Recovery C} (event : Event)
      → Runs Sound control scales budget r
      → Allowed budget event r
      → (control.bytes_in_flight r.cc ≡ unacked_bytes r.sent.of_application)
        × ((q : Option Error × Recovery C) × (handle control scales event r ≡ ok q)
            × (control.bytes_in_flight q.1.cc ≡ unacked_bytes q.1.sent.of_application)
            × (unacked_bytes q.1.sent.of_application ≤ budget + added event))
  handle-Runs {budget} {r} event run a =
      let t = Runs-Tracks run in
      let (q, e, t') = handle-Tracks event r a t in
      let room = t'.room in (exact r t, (q, e, exact q.1 t', omega arith))
