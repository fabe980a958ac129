-- ===== src/ViewService/Failover.antt =====
-- A primary that stops pinging gives way to the backup (the countdown of src/viewservice/server.go).
use distributed_systems_engi.Base.{
  ℕ, zero, suc, ◌<◌, ◌≤◌, String, ◌≡◌, refl, ◌≢◌, ◌∙◌, true, List, [], ◌∷◌, arith, Map,
  lookup-insert, insert, ◌==◌, ==-iff, string_eq, if◌then◌else◌,
}
use distributed_systems_engi.ViewService.{
  ViewServer, Flag, held, timeout, judge_ping, ping, tick, change_view, decr32, time_of, count_down,
  flag_of, dead_pings,
}
use distributed_systems_engi.ViewService.Steps.{Event, pinged, ticked, step, run}

time_of-count_down :
    (who j : String) (times : Map String ℕ)
    → who ≢ ""
    → time_of j (count_down who times)
      ≡ (if who == j then decr32 (time_of who times) else time_of j times)
unfolding count_down
time_of-count_down who j times h =
    ground (arith, ==-iff who "", lookup-insert who j (decr32 (time_of who times)) times)

time_of-count_down_ne :
    (who j : String) (times : Map String ℕ)
    → who ≢ j
    → time_of j (count_down who times) ≡ time_of j times
unfolding count_down
time_of-count_down_ne who j times h =
    ground (arith, ==-iff who j, lookup-insert who j (decr32 (time_of who times)) times)

flag_of-held :
    (who : String) (times : Map String ℕ)
    → who ≢ ""
    → 0 < time_of who times
    → time_of who times ≤ dead_pings
    → flag_of who times ≡ held
unfolding flag_of
flag_of-held who times h lo hi = ground (arith, ==-iff who "")

flag_of-timeout :
    (who : String) (times : Map String ℕ)
    → who ≢ ""
    → time_of who times ≡ 0
    → flag_of who times ≡ timeout
unfolding flag_of
flag_of-timeout who times h z = ground (arith, ==-iff who "")

-- The primary `p` has `t` ticks left, and the backup `b` is another server.
record Silent (p b : String) (t : ℕ) (vs : ViewServer) : Type 0 where
  acked : vs.acked ≡ true
  primary : vs.view.primary ≡ p
  backup : vs.view.backup ≡ b
  witness : vs.witness ≢ p
  named : vs.view.viewnum ≢ 0
  left : time_of p vs.time_record ≡ t

-- The backup pings with the number of the view, and the server ticks.
abbrev pub round : String → ℕ → List Event → List Event
round b n es = pinged (record { me = b; viewnum = n }) ∷ ticked ∷ es

abbrev pub rounds : String → ℕ → ℕ → List Event
rounds b n zero = []
rounds b n (suc t) = round b n (rounds b n t)

module _ (p b : String) (hp : p ≢ "") (hb : b ≢ "") (ne : p ≢ b) where
  ping-backup :
      (vs : ViewServer) (t : ℕ)
      → Silent p b t vs
      → ping (record { me = b; viewnum = vs.view.viewnum }) vs
        ≡ record vs { time_record = insert b dead_pings vs.time_record }
  unfolding ping judge_ping
  ping-backup vs t s = ground (arith, ==-iff b vs.view.primary)

  time_of-ping :
      (ts : Map String ℕ)
      → (time_of p (insert b dead_pings ts) ≡ time_of p ts)
        × (time_of b (insert b dead_pings ts) ≡ dead_pings)
  time_of-ping ts = ground (
    arith,
    lookup-insert b p dead_pings ts,
    lookup-insert b b dead_pings ts,
    ==-iff b p,
    ==-iff b b,
  )

  -- The time that a tick leaves to the two servers.
  times-after :
      (ts : Map String ℕ) (t : ℕ)
      → time_of p ts ≡ suc t
      → suc t ≤ dead_pings
      → let t0 = insert b dead_pings ts in
        (time_of p (count_down p t0) ≡ t)
        × (time_of b (count_down b (count_down p t0)) ≡ 4)
        × (time_of p (count_down b (count_down p t0)) ≡ t)
  times-after ts t e hi = ground (
    arith,
    time_of-ping ts,
    time_of-count_down p p (insert b dead_pings ts) hp,
    time_of-count_down p b (insert b dead_pings ts) hp,
    time_of-count_down b b (count_down p (insert b dead_pings ts)) hb,
    time_of-count_down b p (count_down p (insert b dead_pings ts)) hb,
    ==-iff p p,
    ==-iff b b,
    ==-iff p b,
    ==-iff b p,
  )

  abbrev times : ViewServer → Map String ℕ
  times vs = count_down b (count_down p (insert b dead_pings vs.time_record))

  abbrev aged : ViewServer → ViewServer
  aged vs = record vs { time_record = count_down vs.witness (times vs) }

  -- A round leaves the choice of the next view to the flags of the two servers.
  tick-ping :
      (vs : ViewServer) (t : ℕ)
      → Silent p b t vs
      → (w : Flag) × (tick (ping (record { me = b; viewnum = vs.view.viewnum }) vs)
          ≡ change_view
              (flag_of p (count_down p (insert b dead_pings vs.time_record)))
              (flag_of b (times vs))
              w
              (aged vs))
  unfolding tick
  tick-ping vs t s = (
    flag_of vs.witness (count_down vs.witness (times vs)),
    rw (ping-backup vs t s) (cc (s.primary, s.backup)),
  )

  round-held :
      (vs : ViewServer) (t : ℕ)
      → Silent p b (suc (suc t)) vs
      → suc (suc t) ≤ dead_pings
      → tick (ping (record { me = b; viewnum = vs.view.viewnum }) vs) ≡ aged vs
  unfolding change_view
  round-held vs t s hi =
      let (w, e) = tick-ping vs (suc (suc t)) s in
      let (tp, tb, _) = times-after vs.time_record (suc t) s.left hi in
      ground (
        arith,
        e,
        flag_of-held p (count_down p (insert b dead_pings vs.time_record)) hp,
        flag_of-held b (times vs) hb,
      )

  round-timeout :
      (vs : ViewServer)
      → Silent p b 1 vs
      → (tick (ping (record { me = b; viewnum = vs.view.viewnum }) vs)).view.primary ≡ b
  unfolding change_view
  round-timeout vs s =
      let (w, e) = tick-ping vs 1 s in
      let (tp, tb, _) = times-after vs.time_record 0 s.left (omega arith) in
      ground (
        arith,
        e,
        flag_of-timeout p (count_down p (insert b dead_pings vs.time_record)) hp,
        flag_of-held b (times vs) hb,
      )

  aged-Silent :
      (vs : ViewServer) (t : ℕ)
      → Silent p b (suc t) vs
      → suc t ≤ dead_pings
      → Silent p b t (aged vs)
  aged-Silent vs t s hi =
      let (tp, tb, tp') = times-after vs.time_record t s.left hi in
      record {
        acked = s.acked;
        primary = s.primary;
        backup = s.backup;
        witness = s.witness;
        named = s.named;
        left = time_of-count_down_ne vs.witness p (times vs) s.witness ∙ tp';
      }

  run-rounds :
      (t : ℕ) (vs : ViewServer)
      → Silent p b (suc t) vs
      → suc t ≤ dead_pings
      → (run (rounds b vs.view.viewnum (suc t)) vs).view.primary ≡ b
  unfolding run step
  run-rounds zero vs s hi = round-timeout vs s
  run-rounds (suc t) vs s hi =
      rw (round-held vs t s hi, run)
        (run-rounds t (aged vs) (aged-Silent vs (suc t) s hi) (omega arith))

-- In an acked view with a primary and another server as backup, let the primary have `t + 1` counts
-- left, at most DeadPings, and stop pinging, where it is not its own witness. After `t + 1` rounds, in each of which the backup pings
-- with the number of the view and the server ticks, the backup of that view is the primary.
pub failover :
    (vs : ViewServer) (t : ℕ)
    → vs.acked ≡ true
    → vs.view.viewnum ≢ 0
    → vs.view.primary ≢ ""
    → vs.view.backup ≢ ""
    → vs.view.primary ≢ vs.view.backup
    → vs.witness ≢ vs.view.primary
    → time_of vs.view.primary vs.time_record ≡ suc t
    → suc t ≤ dead_pings
    → (run (rounds vs.view.backup vs.view.viewnum (suc t)) vs).view.primary ≡ vs.view.backup
failover vs t acked named hp hb ne witness left hi =
    run-rounds vs.view.primary vs.view.backup hp hb ne t vs
      (record {
        acked = acked;
        primary = refl;
        backup = refl;
        witness = witness;
        named = named;
        left = left;
      })
      hi
