-- ===== src/Io.antt =====
-- service/io.go: the receive loop and the transmit loop, as steps on the state that they share with
-- the rest of the service.
pub mod Receive
pub mod Transmit
mod Tests
use nameq.Base.{ℕ, ◌-◌, ◌^◌, ◌*◌, ◌∷◌, [], List, Bool, if◌then◌else◌, some, none, Option}
use nameq.Base.Int.{ℤ, pos, negsuc, ◌-ℤ◌, ltb_ℤ}

-- Durations and times are in nanoseconds.
abbrev pub second : ℕ
second = 1000000000

abbrev pub latency_tolerance : ℤ
latency_tolerance = pos (15 * second)

abbrev pub max_duration : ℤ
max_duration = pos (2 ^ 63 - 1)

-- -2^63
abbrev pub min_duration : ℤ
min_duration = negsuc (2 ^ 63 - 1)

-- `t.Sub(u)`: the difference, or the nearest duration if it does not fit in 64 bits.
unfoldable pub time_sub : ℤ → ℤ → ℤ
unfolding ◌-ℤ◌
time_sub t u =
    let d = t -ℤ u in
    if ltb_ℤ max_duration d then max_duration else if ltb_ℤ d min_duration then min_duration else d
