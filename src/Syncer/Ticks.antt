-- ===== src/Syncer/Ticks.antt =====
-- The goroutine of `SetupWithManager` in internal/controller/upstreamsyncer_controller.go.
use composable_resource_oper.Common.{Option, none, some, List, [], ◌∷◌}
use composable_resource_oper.Api.{Error}
use composable_resource_oper.Syncer.{World, Env, sync_upstream_data}

-- What the `select` receives: a tick, with all that its synchronisation finds, or the end of the
-- context
pub data Signal : Type 0 where
  tick : Env → Signal
  done : Signal

-- The loop. The error of a synchronisation is only logged. A goroutine that has received no more
-- signals waits.
unfoldable pub serve : List Signal → World → World
serve [] w = w
serve (done ∷ ss) w = w
serve (tick env ∷ ss) w = serve ss (sync_upstream_data env w).1

abbrev pub fresh : World
fresh = record { missing_devices = []; log = [] }

-- The goroutine, with the error of the adapter's creation
unfoldable pub set_up : Option Error → List Signal → Option Error × World
unfolding serve
set_up (some e) ss = (some e, fresh)
set_up none ss = (none, serve ss fresh)
