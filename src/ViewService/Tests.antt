-- ===== src/ViewService/Tests.antt =====
-- Runs of the view server, and the theorems at concrete inputs.
use distributed_systems_engi.Base.{
  ℕ, ◌≡◌, refl, ◌≢◌, false, List, [], ◌∷◌, String, arith, string_eq, ne_of_test, lookup, insert,
}
use distributed_systems_engi.ViewService.{ViewServer, start_server, judge_ping, ping}
use distributed_systems_engi.ViewService.Steps.{Event, pinged, ticked, step, run}
use distributed_systems_engi.ViewService.Pending.{IsPending, run-IsPending}
use distributed_systems_engi.ViewService.Succession.{
  IsAck, Succeeds, step-waits_for-IsAck, step-Succeeds,
}
use distributed_systems_engi.ViewService.Failover.{rounds, failover}

abbrev from : String → ℕ → Event
from s n = pinged (record { me = s; viewnum = n })

-- a becomes primary, acks; b becomes backup, a acks.
abbrev setup : List Event
setup = from "a" 0 ∷ from "a" 1 ∷ from "b" 0 ∷ from "a" 2 ∷ []

abbrev pair : ViewServer
pair = run setup start_server

pair_view : pair.view ≡ record { viewnum = 2; primary = "a"; backup = "b" }
unfolding run ping judge_ping
pair_view = refl

run-IsPending_example : IsPending (run (from "a" 0 ∷ from "b" 0 ∷ []) start_server)
run-IsPending_example = run-IsPending (from "a" 0 ∷ from "b" 0 ∷ []) (omega arith)

-- a has not acked view 1, and its ack brings in the waiting view with b.
abbrev waiting : ViewServer
waiting = run (from "a" 0 ∷ from "b" 0 ∷ []) start_server

waiting_view : (step (from "a" 1) waiting).view.viewnum ≢ waiting.view.viewnum
unfolding run step ping judge_ping
waiting_view e = omega arith

waiting-unacked : waiting.acked ≡ false
unfolding run ping judge_ping
waiting-unacked = refl

step-waits_for-IsAck_example : IsAck (from "a" 1) waiting
step-waits_for-IsAck_example =
    step-waits_for-IsAck (from "a" 1) waiting waiting-unacked
      (λ e. waiting_view (λ i. (e i).viewnum))

step-Succeeds_example : Succeeds pair (step ticked pair)
step-Succeeds_example = step-Succeeds ticked pair (run-IsPending setup (omega arith))

failover_example :
    (run (rounds pair.view.backup pair.view.viewnum 5) pair).view.primary ≡ pair.view.backup
unfolding run ping judge_ping lookup insert
failover_example =
    failover pair 4 refl (omega arith) (ne_of_test _ _ refl) (ne_of_test _ _ refl)
      (ne_of_test _ _ refl) (ne_of_test _ _ refl) refl (omega arith)
