-- ===== src/ViewService/Succession.antt =====
-- When the view may change, and who may become primary (src/viewservice/server.go and the comment at
-- the top of src/viewservice/common.go).
use distributed_systems_engi.Base.{
  ◌+◌, ◌^◌, ◌<◌, String, ◌≡◌, ◌⊎◌, ◌≢◌, true, false, [], ◌∷◌, arith, ==-iff, string_eq,
}
use distributed_systems_engi.ViewService.{
  ViewServer, PingArgs, Flag, judge_ping, ping, tick, change_view,
}
use distributed_systems_engi.ViewService.Steps.{Event, pinged, ticked, step, run}
use distributed_systems_engi.ViewService.Pending.{IsPending}

-- The event is the primary's ping with the number of the current view.
abbrev pub IsAck : Event → ViewServer → Type 0
IsAck (pinged args) vs = (args.me ≡ vs.view.primary) × (args.viewnum ≡ vs.view.viewnum)
IsAck ticked vs = ⊥

judge_ping-waits :
    (args : PingArgs) (vs : ViewServer)
    → vs.acked ≡ false
    → (judge_ping args vs).view ≢ vs.view
    → (args.me ≡ vs.view.primary) × (args.viewnum ≡ vs.view.viewnum)
unfolding judge_ping
judge_ping-waits args vs h n = ground (arith, ==-iff args.me vs.view.primary)

-- While the flag Acked is not set, no ping or tick changes the view but a ping of the primary with the
-- number of the view. A tick does not clear the flag, so that a view that it makes is not waited for.
pub step-waits_for-IsAck :
    (e : Event) (vs : ViewServer) → vs.acked ≡ false → (step e vs).view ≢ vs.view → IsAck e vs
unfolding step ping tick change_view
step-waits_for-IsAck (pinged args) vs h n = judge_ping-waits args _ h n
step-waits_for-IsAck ticked vs h n = ground arith

-- The primary after a step: the same, the backup of the view before, or, where the view had no
-- primary, anyone.
abbrev pub Succeeds : ViewServer → ViewServer → Type 0
Succeeds vs vs' =
    (vs'.view.primary ≡ vs.view.primary)
    ⊎ (vs'.view.primary ≡ vs.view.backup)
    ⊎ (vs.view.primary ≡ "")

judge_ping-Succeeds :
    (args : PingArgs) (vs : ViewServer) → IsPending vs → Succeeds vs (judge_ping args vs)
unfolding judge_ping
judge_ping-Succeeds args vs h = ground (arith, ==-iff vs.view.primary "")

change_view-Succeeds : (p b w : Flag) (vs : ViewServer) → Succeeds vs (change_view p b w vs)
unfolding change_view
change_view-Succeeds p b w vs = ground arith

-- Over a ping or a tick of a state in which the waiting view, if there is one, is the successor of
-- the current view: the primary stays, or the backup of the view before becomes primary, or the view
-- had no primary.
pub step-Succeeds : (e : Event) (vs : ViewServer) → IsPending vs → Succeeds vs (step e vs)
unfolding step ping tick
step-Succeeds (pinged args) vs h = judge_ping-Succeeds args _ h
step-Succeeds ticked vs h = change_view-Succeeds _ _ _ _

-- The primary of a view that it has not acked and that has no backup, nor any waiting for it, pings
-- with 0, as after a restart, and then with the number of the view: it becomes its own backup, in the
-- next view, which counts as acked at once.
pub restart_before_ack :
    (s : String) (vs : ViewServer)
    → vs.acked ≡ false
    → vs.view.primary ≡ s
    → vs.view.backup ≡ ""
    → vs.new_view.backup ≡ ""
    → vs.view.viewnum ≢ 0
    → vs.view.viewnum + 1 < 2 ^ 64
    → let vs' =
        run
          (pinged (record { me = s; viewnum = 0 })
            ∷ pinged (record { me = s; viewnum = vs.view.viewnum })
            ∷ [])
          vs in
      (vs'.view.primary ≡ s)
      × (vs'.view.backup ≡ s)
      × (vs'.view.viewnum ≡ vs.view.viewnum + 1)
      × (vs'.acked ≡ true)
unfolding run step ping judge_ping
restart_before_ack s vs h p b n k room =
    ground (arith, ==-iff s vs.view.primary, ==-iff vs.view.backup "", ==-iff vs.new_view.backup "")
