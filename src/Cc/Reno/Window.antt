-- ===== src/Cc/Reno/Window.antt =====
-- The window over a run of events, and the bytes in flight as the packets that are out.
use dtp.Base.{
  ℕ, ◌+◌, ◌-◌, ◌*◌, ◌/◌, ◌%◌, ◌^◌, ◌≤◌, ◌<◌, ◌≡◌, ◌⊎◌, refl, subst, Bool, true, false, ltb, leb,
  ◌==◌, if◌then◌else◌, Result, ok, err, panic, arith, Bool-cases, inl, inr,
}
use native.Mathlib.Nat.{div-le_of_le-mul, mul-le-mul_right}
use dtp.Base.Words.{sub64}
use dtp.Cc.{max_datagram_size, initial_window, minimum_window, in_congestion_recovery}
use dtp.Cc.Reno.{
  Reno, reno, collapse_cwnd, decrease_bytes_in_flight, on_packet_sent_cc, grow, on_packet_acked_cc,
  congestion_event,
}

-- The window is between the least and `bound`, and `flight` bytes are out.
pub record IsSound (flight bound : ℕ) (r : Reno) : Type 0 where
  pub low : minimum_window ≤ r.congestion_window
  pub high : r.congestion_window ≤ bound
  pub width : bound < 2 ^ 53
  pub out : r.bytes_in_flight ≡ flight
  pub narrow : flight < 2 ^ 53

avoidance : (c size : ℕ) → minimum_window ≤ c → (max_datagram_size * size) / c ≤ size
avoidance c size h = div-le_of_le-mul c (mul-le-mul_right size (omega arith))

-- How an acknowledgement changes the window: not at all in recovery or without a full window, and
-- by the size of the packet at most otherwise.
abbrev pub Acks : ℕ → ℕ → ℕ → ℕ → Bool → Reno → Result Reno → Type 0
Acks flight bound time size app_limited r (ok r') =
    IsSound (flight - size) (bound + size) r'
    × (r.congestion_window ≤ r'.congestion_window)
    × (((in_congestion_recovery r.congestion_recovery_start_time time ≡ true)
            ⊎ (app_limited ≡ true))
          × (r'.congestion_window ≡ r.congestion_window)
        ⊎ ((in_congestion_recovery r.congestion_recovery_start_time time ≡ false)
            × (app_limited ≡ false)
            × (r'.congestion_window
                ≡ r.congestion_window
                  + (if ltb r.congestion_window r.ssthresh
                      then size
                      else (max_datagram_size * size) / r.congestion_window))))
Acks flight bound time size app_limited r (err e) = ⊥
Acks flight bound time size app_limited r panic = ⊥

grow-Acks :
    (flight bound size : ℕ) (r : Reno)
    → IsSound flight bound r
    → size ≤ 65535
    → bound + size < 2 ^ 53
    → (r' : Reno) × (grow size r ≡ ok r')
      × IsSound flight (bound + size) r'
      × (r.congestion_window ≤ r'.congestion_window)
      × (r'.congestion_window
          ≡ r.congestion_window
            + (if ltb r.congestion_window r.ssthresh
                then size
                else (max_datagram_size * size) / r.congestion_window))
unfolding grow
grow-Acks flight bound size r s h b = elim (Bool-cases (ltb r.congestion_window r.ssthresh)) [
  | inl e ↦
      let l = s.low in
      let g = s.high in
      let n : (r.congestion_window + size) % 2 ^ 64 ≡ r.congestion_window + size = omega arith in
      (
        record r { congestion_window = r.congestion_window + size },
        rw (grow, e, n) refl,
        record { low = omega arith; high = omega arith; width = b; out = s.out; narrow = s.narrow },
        omega arith,
        rw e refl,
      )
  | inr e ↦
      let l = s.low in
      let g = s.high in
      let av = avoidance r.congestion_window size l in
      let nz : (r.congestion_window == 0) ≡ false = ground arith in
      let n : (max_datagram_size * size) % 2 ^ 64 ≡ max_datagram_size * size = omega arith in
      let k : (r.congestion_window + (max_datagram_size * size) / r.congestion_window) % 2 ^ 64
          ≡ r.congestion_window + (max_datagram_size * size) / r.congestion_window =
        omega arith in
      (
        record r {
          congestion_window =
              r.congestion_window + (max_datagram_size * size) / r.congestion_window;
        },
        rw (grow, e, nz, n, k) refl,
        record { low = omega arith; high = omega arith; width = b; out = s.out; narrow = s.narrow },
        omega arith,
        rw e refl,
      )
]

less-IsSound :
    (flight size bound : ℕ) (r : Reno)
    → IsSound flight bound r
    → size ≤ flight
    → IsSound (flight - size) bound (record r { bytes_in_flight = sub64 r.bytes_in_flight size })
less-IsSound flight size bound r s h =
    let o = s.out in
    let w = s.narrow in
    record { low = s.low; high = s.high; width = s.width; out = omega arith; narrow = omega arith }

bound-IsSound :
    (flight size bound : ℕ) (r : Reno)
    → IsSound flight bound r
    → bound + size < 2 ^ 53
    → IsSound flight (bound + size) r
bound-IsSound flight size bound r s b =
    let g = s.high in
    record { low = s.low; high = omega arith; width = b; out = s.out; narrow = s.narrow }

-- Where the window is sound and below its bound, an acknowledgement of a packet that is out, of
-- 65535 bytes at most, does not panic. Its bytes are no longer in flight, and the window keeps
-- its bounds, the upper one raised by the size: it stays as it is in recovery or where the
-- application limits the sending, and otherwise grows by the size of the packet in slow start,
-- and by 1452 times the size over the window in congestion avoidance.
pub on_packet_acked_cc-Acks :
    (flight bound time size : ℕ) (app_limited : Bool) (r : Reno)
    → IsSound flight bound r
    → size ≤ 65535
    → size ≤ flight
    → bound + size < 2 ^ 53
    → Acks flight bound time size app_limited r (on_packet_acked_cc time size app_limited r)
unfolding on_packet_acked_cc
on_packet_acked_cc-Acks flight bound time size app_limited r s h k b =
    let less = record r { bytes_in_flight = sub64 r.bytes_in_flight size } in
    let l = less-IsSound flight size bound r s k in
    let s' = bound-IsSound (flight - size) size bound less l b in
    elim (Bool-cases (in_congestion_recovery r.congestion_recovery_start_time time)) [
      | inl e ↦ rw (on_packet_acked_cc, e, Acks) (s', omega arith, inl (inl e, refl))
      | inr e ↦ elim (Bool-cases app_limited) [
        | inl f ↦ rw (on_packet_acked_cc, e, f, Acks) (s', omega arith, inl (inr f, refl))
        | inr f ↦
            let (r', run, s'', le, eq) = grow-Acks (flight - size) bound size less l h b in
            rw (on_packet_acked_cc, e, f, run, Acks) (s'', le, inr (e, f, eq))
      ]
    ]

-- A congestion event, with `reduce` as half the window where that is exact.
pub congestion_event-IsSound :
    (reduce : ℕ → ℕ) (flight bound time_sent now : ℕ) (r : Reno)
    → ((c : ℕ) → c < 2 ^ 53 → reduce c ≡ c / 2)
    → IsSound flight bound r
    → IsSound flight bound (congestion_event reduce time_sent now r)
unfolding congestion_event
congestion_event-IsSound reduce flight bound time_sent now r halves s =
    let l = s.low in
    let g = s.high in
    let w = s.width in
    let c = halves r.congestion_window (omega arith) in
    elim (Bool-cases (in_congestion_recovery r.congestion_recovery_start_time time_sent)) [
      | inl e ↦ rw (congestion_event, e) s
      | inr e ↦
          rw (congestion_event, e, c)
            record {
              low = omega arith;
              high = omega arith;
              width = w;
              out = s.out;
              narrow = s.narrow;
            }
    ]

-- The states of Reno, with the bytes in flight and the bytes acknowledged so far. A packet has 65535
-- bytes at most, and only packets that are out are acknowledged or lost.
pub data Runs (reduce : ℕ → ℕ) : ℕ → ℕ → Reno → Type 0 where
  begun : Runs reduce 0 0 reno
  sent :
      {flight acked : ℕ} {r : Reno} (size : ℕ)
      → Runs reduce flight acked r
      → flight + size < 2 ^ 53
      → Runs reduce (flight + size) acked (on_packet_sent_cc size r)
  acknowledged :
      {flight acked : ℕ} {r r' : Reno} (time size : ℕ) (app_limited : Bool)
      → Runs reduce flight acked r
      → size ≤ 65535
      → size ≤ flight
      → on_packet_acked_cc time size app_limited r ≡ ok r'
      → Runs reduce (flight - size) (acked + size) r'
  dropped :
      {flight acked : ℕ} {r : Reno} (size : ℕ)
      → Runs reduce flight acked r
      → size ≤ flight
      → Runs reduce (flight - size) acked (decrease_bytes_in_flight size r)
  congested :
      {flight acked : ℕ} {r : Reno} (time_sent now : ℕ)
      → Runs reduce flight acked r
      → Runs reduce flight acked (congestion_event reduce time_sent now r)
  collapsed :
      {flight acked : ℕ} {r : Reno}
      → Runs reduce flight acked r
      → Runs reduce flight acked (collapse_cwnd r)

Acks-IsSound :
    (flight bound time size : ℕ) (app_limited : Bool) (r r' : Reno) (x : Result Reno)
    → x ≡ ok r'
    → Acks flight bound time size app_limited r x
    → IsSound (flight - size) (bound + size) r'
Acks-IsSound flight bound time size app_limited r r' x e a =
    (subst (Acks flight bound time size app_limited r) e a).0

-- Let `reduce` halve windows below 2 ^ 53. In every run of Reno in which the initial window and
-- the bytes acknowledged together stay below 2 ^ 53, the bytes in flight are those of the packets
-- that are out, and the window is at least the least window and at most the initial one and the
-- bytes acknowledged together.
pub Runs-IsSound :
    (reduce : ℕ → ℕ) {flight acked : ℕ} {r : Reno}
    → ((c : ℕ) → c < 2 ^ 53 → reduce c ≡ c / 2)
    → initial_window + acked < 2 ^ 53
    → Runs reduce flight acked r
    → IsSound flight (initial_window + acked) r
Runs-IsSound reduce halves b begun = record {
  low = omega arith;
  high = omega arith;
  width = b;
  out = refl;
  narrow = omega arith;
}
Runs-IsSound reduce halves b (sent {flight} {acked} {r} size run n) =
    let s = Runs-IsSound reduce halves b run in
    let o = s.out in record { low = s.low; high = s.high; width = b; out = omega arith; narrow = n }
Runs-IsSound reduce halves b
      (acknowledged {flight} {acked} {r} {r'} time size app_limited run h k e) =
    let s = Runs-IsSound reduce halves (omega arith) run in
    let a =
      on_packet_acked_cc-Acks flight (initial_window + acked) time size app_limited r s h k
        (omega arith) in
    let s' =
      Acks-IsSound flight (initial_window + acked) time size app_limited r r'
        (on_packet_acked_cc time size app_limited r) e a in
    let l = s'.low in
    let g = s'.high in
    record { low = l; high = omega arith; width = b; out = s'.out; narrow = s'.narrow }
Runs-IsSound reduce halves b (dropped {flight} {acked} {r} size run k) =
    let s = Runs-IsSound reduce halves b run in
    let o = s.out in
    let n = s.narrow in
    record { low = s.low; high = s.high; width = b; out = omega arith; narrow = omega arith }
Runs-IsSound reduce halves b (congested {flight} {acked} {r} time_sent now run) =
    congestion_event-IsSound reduce flight (initial_window + acked) time_sent now r halves
      (Runs-IsSound reduce halves b run)
Runs-IsSound reduce halves b (collapsed {flight} {acked} {r} run) =
    let s = Runs-IsSound reduce halves b run in
    record { low = omega arith; high = omega arith; width = b; out = s.out; narrow = s.narrow }

-- After a congestion event by a packet sent outside recovery, the next event by a packet sent no
-- later than the first event changes nothing: the window is reduced once for a round trip.
pub congestion_event-once :
    (reduce : ℕ → ℕ) (first second now later : ℕ) (r : Reno)
    → in_congestion_recovery r.congestion_recovery_start_time first ≡ false
    → second ≤ now
    → congestion_event reduce second later (congestion_event reduce first now r)
      ≡ congestion_event reduce first now r
unfolding congestion_event in_congestion_recovery
congestion_event-once reduce first second now later r e h =
    let l : leb second now ≡ true = ground (arith, h) in
    rw (congestion_event, e, in_congestion_recovery, l) refl
