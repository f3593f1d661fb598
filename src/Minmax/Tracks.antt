-- ===== src/Minmax/Tracks.antt =====
-- The estimates stay in order, by time and by value, and the first is never outside the window.
use dtp.Base.{ℕ, ◌+◌, ◌-◌, ◌≤◌, ◌≡◌, refl, ltb, leb, ◌||◌, arith, Bool-cases, inl, inr}
use dtp.Minmax.{Minmax, age_estimates, subwin_update, running_min, running_max}

-- The later an estimate, the greater (`min`) it is; none is of the future.
pub record IsRising (now : ℕ) (m : Minmax) : Type 0 where
  pub first_second : m.first.time ≤ m.second.time
  pub second_third : m.second.time ≤ m.third.time
  pub past : m.third.time ≤ now
  pub low : m.first.value ≤ m.second.value
  pub high : m.second.value ≤ m.third.value

-- What a measurement `meas` at `time` leads to.
abbrev pub TracksMin : ℕ → ℕ → ℕ → ℕ × Minmax → Type 0
TracksMin win time meas (v, m) =
    IsRising time m × (v ≡ m.first.value) × (v ≤ meas) × (time ≤ m.first.time + win)

age_estimates-TracksMin :
    (quarter half win time meas : ℕ) (m : Minmax)
    → IsRising time m
    → m.third.value ≤ meas
    → time ≤ m.third.time + win
    → TracksMin win time meas (subwin_update quarter half win time meas m)
unfolding subwin_update age_estimates
age_estimates-TracksMin quarter half win time meas m s l w = ground (arith, s, l, w)

-- Where the estimates rise and none is of the future, `running_min` keeps them so, and returns the
-- first: it is no greater than the measurement and not from before the window.
pub running_min-TracksMin :
    (quarter half win time meas : ℕ) (m : Minmax)
    → IsRising time m
    → TracksMin win time meas (running_min quarter half win time meas m)
unfolding running_min
running_min-TracksMin quarter half win time meas m s =
    elim (Bool-cases (leb meas m.first.value || ltb win (time - m.third.time))) [
      | inl e ↦
          rw (running_min, e)
            (
              record {
                first_second = omega arith;
                second_third = omega arith;
                past = omega arith;
                low = omega arith;
                high = omega arith;
              },
              refl,
              omega arith,
              omega arith,
            )
      | inr e ↦ elim (Bool-cases (leb meas m.second.value)) [
        | inl f ↦
            rw (running_min, e, f)
              (age_estimates-TracksMin quarter half win time meas
                (record m {
                  second = record { time = time; value = meas };
                  third = record { time = time; value = meas };
                })
                (ground (arith, e, f, s)) (omega arith) (omega arith))
        | inr f ↦ elim (Bool-cases (leb meas m.third.value)) [
          | inl g ↦
              rw (running_min, e, f, g)
                (age_estimates-TracksMin quarter half win time meas
                  (record m { third = record { time = time; value = meas } })
                  (ground (arith, e, f, g, s)) (omega arith) (omega arith))
          | inr g ↦
              rw (running_min, e, f, g)
                (age_estimates-TracksMin quarter half win time meas m s (ground (arith, g))
                  (ground (arith, e)))
        ]
      ]
    ]

-- The same with the greatest measurement.
pub record IsFalling (now : ℕ) (m : Minmax) : Type 0 where
  pub first_second : m.first.time ≤ m.second.time
  pub second_third : m.second.time ≤ m.third.time
  pub past : m.third.time ≤ now
  pub high : m.second.value ≤ m.first.value
  pub low : m.third.value ≤ m.second.value

abbrev pub TracksMax : ℕ → ℕ → ℕ → ℕ × Minmax → Type 0
TracksMax win time meas (v, m) =
    IsFalling time m × (v ≡ m.first.value) × (meas ≤ v) × (time ≤ m.first.time + win)

age_estimates-TracksMax :
    (quarter half win time meas : ℕ) (m : Minmax)
    → IsFalling time m
    → meas ≤ m.third.value
    → time ≤ m.third.time + win
    → TracksMax win time meas (subwin_update quarter half win time meas m)
unfolding subwin_update age_estimates
age_estimates-TracksMax quarter half win time meas m s l w = ground (arith, s, l, w)

-- Where the estimates fall and none is of the future, `_running_max` keeps them so, and returns the
-- first: it is no less than the measurement and not from before the window.
pub running_max-TracksMax :
    (quarter half win time meas : ℕ) (m : Minmax)
    → IsFalling time m
    → TracksMax win time meas (running_max quarter half win time meas m)
unfolding running_max
running_max-TracksMax quarter half win time meas m s =
    elim (Bool-cases (leb m.first.value meas || ltb win (time - m.third.time))) [
      | inl e ↦
          rw (running_max, e)
            (
              record {
                first_second = omega arith;
                second_third = omega arith;
                past = omega arith;
                high = omega arith;
                low = omega arith;
              },
              refl,
              omega arith,
              omega arith,
            )
      | inr e ↦ elim (Bool-cases (leb m.second.value meas)) [
        | inl f ↦
            rw (running_max, e, f)
              (age_estimates-TracksMax quarter half win time meas
                (record m {
                  second = record { time = time; value = meas };
                  third = record { time = time; value = meas };
                })
                (ground (arith, e, f, s)) (omega arith) (omega arith))
        | inr f ↦ elim (Bool-cases (leb m.third.value meas)) [
          | inl g ↦
              rw (running_max, e, f, g)
                (age_estimates-TracksMax quarter half win time meas
                  (record m { third = record { time = time; value = meas } })
                  (ground (arith, e, f, g, s)) (omega arith) (omega arith))
          | inr g ↦
              rw (running_max, e, f, g)
                (age_estimates-TracksMax quarter half win time meas m s (ground (arith, g))
                  (ground (arith, e)))
        ]
      ]
    ]
