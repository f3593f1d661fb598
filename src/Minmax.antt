-- ===== src/Minmax.antt =====
-- src/minmax.rs, `Minmax`: the least (or greatest) measurement of a window of time, by the three best.
-- Instants, durations and measurements are numbers; a duration since a later instant is 0.
pub mod Tracks
mod Tests
use dtp.Base.{ℕ, ◌-◌, Bool, ltb, leb, ◌==◌, ◌&&◌, ◌||◌, if◌then◌else◌}

pub record MinmaxSample : Type 0 where
  pub time : ℕ
  pub value : ℕ

-- The array `estimate`, by its three elements.
pub record Minmax : Type 0 where
  pub first : MinmaxSample
  pub second : MinmaxSample
  pub third : MinmaxSample

abbrev pub minmax : ℕ → Minmax
minmax now =
    let s : MinmaxSample = record { time = now; value = 0 } in
    record { first = s; second = s; third = s }

-- An operation returns its value with the estimates after it.
abbrev pub reset : ℕ → ℕ → Minmax → ℕ × Minmax
reset time meas m =
    let val : MinmaxSample = record { time = time; value = meas } in
    (meas, record { first = val; second = val; third = val })

-- `quarter` and `half` are `win.div_f32(4.0)` and `win.div_f32(2.0)`.
unfoldable pub age_estimates : ℕ → ℕ → ℕ → ℕ → ℕ → Minmax → Minmax
age_estimates quarter half win time meas m =
    let val : MinmaxSample = record { time = time; value = meas } in
    let delta_time = time - m.first.time in
    if ltb win delta_time
    then (if ltb win (time - m.second.time)
        then record { first = m.third; second = val; third = val }
        else record { first = m.second; second = m.third; third = val })
    else if (m.second.time == m.first.time) && ltb quarter delta_time
    then record { first = m.first; second = val; third = val }
    else if (m.third.time == m.second.time) && ltb half delta_time
    then record { first = m.first; second = m.second; third = val }
    else m

unfoldable pub subwin_update : ℕ → ℕ → ℕ → ℕ → ℕ → Minmax → ℕ × Minmax
unfolding age_estimates
subwin_update quarter half win time meas m =
    let aged = age_estimates quarter half win time meas m in (aged.first.value, aged)

unfoldable pub running_min : ℕ → ℕ → ℕ → ℕ → ℕ → Minmax → ℕ × Minmax
unfolding subwin_update
running_min quarter half win time meas m =
    let val : MinmaxSample = record { time = time; value = meas } in
    if leb meas m.first.value || ltb win (time - m.third.time)
    then reset time meas m
    else if leb meas m.second.value
    then subwin_update quarter half win time meas (record m { second = val; third = val })
    else if leb meas m.third.value
    then subwin_update quarter half win time meas (record m { third = val })
    else subwin_update quarter half win time meas m

unfoldable pub running_max : ℕ → ℕ → ℕ → ℕ → ℕ → Minmax → ℕ × Minmax
unfolding subwin_update
running_max quarter half win time meas m =
    let val : MinmaxSample = record { time = time; value = meas } in
    if leb m.first.value meas || ltb win (time - m.third.time)
    then reset time meas m
    else if leb m.second.value meas
    then subwin_update quarter half win time meas (record m { second = val; third = val })
    else if leb m.third.value meas
    then subwin_update quarter half win time meas (record m { third = val })
    else subwin_update quarter half win time meas m
