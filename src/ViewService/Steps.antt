-- ===== src/ViewService/Steps.antt =====
-- The view server as a state machine: the pings and ticks that change its state, in any order
-- (src/viewservice/server.go; the mutex makes each of them one step).
use distributed_systems_engi.Base.{List, [], ◌∷◌}
use distributed_systems_engi.ViewService.{ViewServer, PingArgs, ping, tick}

pub data Event : Type 0 where
  pinged : PingArgs → Event
  ticked : Event

unfoldable pub step : Event → ViewServer → ViewServer
step (pinged args) vs = ping args vs
step ticked vs = tick vs

unfoldable pub run : List Event → ViewServer → ViewServer
unfolding step
run [] vs = vs
run (e ∷ es) vs = run es (step e vs)
