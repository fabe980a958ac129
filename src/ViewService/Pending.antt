-- ===== src/ViewService/Pending.antt =====
-- The view that waits for the primary's ack, and the numbers of views (src/viewservice/server.go).
use distributed_systems_engi.Base.{
  ℕ, ◌+◌, ◌^◌, ◌<◌, ◌≤◌, ◌≡◌, refl, ◌⊎◌, inl, inr, false, List, [], ◌∷◌, arith, length, string_eq,
}
use distributed_systems_engi.ViewService.{
  ViewServer, PingArgs, start_server, Flag, judge_ping, ping, tick, change_view,
}
use distributed_systems_engi.ViewService.Steps.{Event, pinged, ticked, step, run}

-- What stands in `newView`: nothing, or the view after the current one, with the same primary, and
-- then only while the current view is not acked.
abbrev pub IsPending : ViewServer → Type 0
IsPending vs =
    (vs.new_view.viewnum ≡ 0)
    ⊎ ((vs.new_view.viewnum ≡ vs.view.viewnum + 1)
        × (vs.new_view.primary ≡ vs.view.primary)
        × (vs.acked ≡ false))

-- The view is the same, or the next one.
abbrev pub Advances : ViewServer → ViewServer → Type 0
Advances vs vs' = (vs'.view ≡ vs.view) ⊎ (vs'.view.viewnum ≡ vs.view.viewnum + 1)

judge_ping-IsPending :
    (args : PingArgs) (vs : ViewServer)
    → vs.view.viewnum + 1 < 2 ^ 64
    → IsPending vs
    → IsPending (judge_ping args vs)
unfolding judge_ping
judge_ping-IsPending args vs room h = ground arith

change_view-IsPending :
    (p b w : Flag) (vs : ViewServer) → IsPending vs → IsPending (change_view p b w vs)
unfolding change_view
change_view-IsPending p b w vs h = ground arith

tick-IsPending : (vs : ViewServer) → IsPending vs → IsPending (tick vs)
unfolding tick
tick-IsPending vs h = change_view-IsPending _ _ _ _ h

pub step-IsPending :
    (e : Event) (vs : ViewServer)
    → vs.view.viewnum + 1 < 2 ^ 64
    → IsPending vs
    → IsPending (step e vs)
unfolding step ping
step-IsPending (pinged args) vs room h = judge_ping-IsPending args _ room h
step-IsPending ticked vs room h = tick-IsPending vs h

judge_ping-Advances :
    (args : PingArgs) (vs : ViewServer)
    → vs.view.viewnum + 1 < 2 ^ 64
    → IsPending vs
    → Advances vs (judge_ping args vs)
unfolding judge_ping
judge_ping-Advances args vs room h = ground arith

change_view-Advances :
    (p b w : Flag) (vs : ViewServer)
    → vs.view.viewnum + 1 < 2 ^ 64
    → Advances vs (change_view p b w vs)
unfolding change_view
change_view-Advances p b w vs room = ground arith

pub step-Advances :
    (e : Event) (vs : ViewServer)
    → vs.view.viewnum + 1 < 2 ^ 64
    → IsPending vs
    → Advances vs (step e vs)
unfolding step ping tick
step-Advances (pinged args) vs room h = judge_ping-Advances args _ room h
step-Advances ticked vs room h = change_view-Advances _ _ _ _ room

pub step-viewnum-le :
    (e : Event) (vs : ViewServer)
    → vs.view.viewnum + 1 < 2 ^ 64
    → IsPending vs
    → ((step e vs).view.viewnum ≤ vs.view.viewnum + 1)
      × (vs.view.viewnum ≤ (step e vs).view.viewnum)
step-viewnum-le e vs room h = elim (step-Advances e vs room h) [
  | inl same ↦ rw same (omega arith)
  | inr next ↦ omega (arith, next)
]

-- A run keeps the invariant, and each event raises the number of the view by at most one.
record Runs (n : ℕ) (vs vs' : ViewServer) : Type 0 where
  pending : IsPending vs'
  grows : vs.view.viewnum ≤ vs'.view.viewnum
  bounded : vs'.view.viewnum ≤ vs.view.viewnum + n

run-Runs :
    (es : List Event) (vs : ViewServer)
    → vs.view.viewnum + length es < 2 ^ 64
    → IsPending vs
    → Runs (length es) vs (run es vs)
unfolding run
run-Runs [] vs room h = record { pending = h; grows = omega arith; bounded = omega arith }
run-Runs (e ∷ es) vs room h =
    let b = step-viewnum-le e vs (omega arith) h in
    let r = run-Runs es (step e vs) (omega (arith, b)) (step-IsPending e vs (omega arith) h) in
    record { pending = r.pending; grows = omega (arith, b, r); bounded = omega (arith, b, r) }

-- After any fewer than 2^64 pings and ticks from the start, whatever their order, the waiting view
-- is either absent or the successor of the current view, with the same primary, and then the
-- current view is not acked.
pub run-IsPending : (es : List Event) → length es < 2 ^ 64 → IsPending (run es start_server)
run-IsPending es room = (run-Runs es start_server (omega arith) (inl refl)).pending

-- The number of the view never falls: after the events `es` from the start, further events `fs`
-- leave it at least as high, and raise it by at most one each, if there are fewer than 2^64 events.
pub run-viewnum_mono :
    (es fs : List Event)
    → length es + length fs < 2 ^ 64
    → let vs = run es start_server in
      (vs.view.viewnum ≤ (run fs vs).view.viewnum)
      × ((run fs vs).view.viewnum ≤ vs.view.viewnum + length fs)
run-viewnum_mono es fs room =
    let r = run-Runs es start_server (omega arith) (inl refl) in
    let q = run-Runs fs (run es start_server) (omega (arith, r.bounded)) r.pending in
    (q.grows, q.bounded)
