-- ===== src/Launch/Composed.antt =====
-- What the composition of the commands guarantees.
use umodel_sre_rca.Common.{◌≡◌, if◌then◌else◌}
use umodel_sre_rca.Common.Int.{ℤ, pos, ltb_ℤ}
use umodel_sre_rca.Config.{Config}
use umodel_sre_rca.Worker.Loop.{poll_interval, call_timeout}

-- The loop uses the intervals of the file, where Load sets a timeout that is not positive.
abbrev KeepsIntervals : Config → ℤ → ℤ → Type 0
KeepsIntervals file poll timeout =
    (poll_interval poll ≡ file.poll_seconds)
    × (call_timeout timeout
        ≡ (if ltb_ℤ file.timeout_seconds (pos 1) then pos 300 else file.timeout_seconds))
