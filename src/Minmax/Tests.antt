-- ===== src/Minmax/Tests.antt =====
-- Runs of the filter, and its theorems on them.
use dtp.Base.{ℕ, ◌≡◌, refl, arith}
use dtp.Minmax.{MinmaxSample, Minmax, age_estimates, subwin_update, running_min}
use dtp.Minmax.Tracks.{TracksMin, running_min-TracksMin}

abbrev at_time : ℕ → ℕ → MinmaxSample
at_time time value = record { time = time; value = value }

abbrev rising : Minmax
rising = record { first = at_time 10 4; second = at_time 40 6; third = at_time 60 9 }

running_min-TracksMin_example : TracksMin 50 70 8 (running_min 12 25 50 70 8 rising)
running_min-TracksMin_example = running_min-TracksMin 12 25 50 70 8 rising record {
  first_second = omega arith;
  second_third = omega arith;
  past = omega arith;
  low = omega arith;
  high = omega arith;
}

-- The first estimate is too old, and the second takes its place.
running_min_runs : (running_min 12 25 50 70 8 rising).0 ≡ 6
unfolding running_min subwin_update age_estimates
running_min_runs = refl

abbrev falling : Minmax
falling = record { first = at_time 10 9; second = at_time 40 6; third = at_time 60 4 }
