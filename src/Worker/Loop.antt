-- ===== src/Worker/Loop.antt =====
-- cmd/sre-worker/main.go: runLoop and runOnce. The ticks and the end of the context are the events of
-- the loop, in the order in which `select` takes them.
use umodel_sre_rca.Common.{Result, ok, err, Error, Bool, List, [], false, true, ◌∷◌, if◌then◌else◌}
use umodel_sre_rca.Common.Int.{ℤ, pos, ltb_ℤ}
use umodel_sre_rca.Schedule.{World}
use umodel_sre_rca.Worker.Env.{Env}
use umodel_sre_rca.Worker.Run.{run_one}

-- A tick carries what the poll after it reads of its surroundings.
pub data Event : Type 0 where
  done : Event
  tick : Env → Event

-- `errors` are those that are logged, the first one first; `running` says that the loop waits.
pub record LoopState : Type 0 where
  pub running : Bool
  pub errors : List Error
  pub world : World

-- errors.Is(err, store.ErrIncidentInactive)
abbrev pub logged : Result (Unit {0}) → List Error → List Error
logged (ok _) rest = rest
logged (err Error.incident_inactive) rest = rest
logged (err e) rest = e ∷ rest

abbrev pub with_errors : Result (Unit {0}) → LoopState → LoopState
with_errors r l = record l { errors = logged r l.errors }

-- The `for`, in the world that the last poll has left.
unfoldable pub wait_loop : List Event → World → LoopState
unfolding run_one
wait_loop [] w = record { running = true; errors = []; world = w }
wait_loop (Event.done ∷ events) w = record { running = false; errors = []; world = w }
wait_loop (Event.tick env ∷ events) w =
    with_errors (run_one env w).0 (wait_loop events (run_one env w).1)

-- The intervals, in seconds.
abbrev pub poll_interval : ℤ → ℤ
poll_interval seconds = if ltb_ℤ (pos 0) seconds then seconds else pos 15

abbrev pub call_timeout : ℤ → ℤ
call_timeout seconds = if ltb_ℤ (pos 0) seconds then seconds else pos 300

unfoldable pub run_loop : Env → List Event → World → LoopState
unfolding wait_loop run_one
run_loop first events w = with_errors (run_one first w).0 (wait_loop events (run_one first w).1)
