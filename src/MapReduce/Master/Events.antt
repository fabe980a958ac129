-- ===== src/MapReduce/Master/Events.antt =====
-- How the events of a phase of src/mapreduce/master.go change where its jobs are.
use mathlib.Core.Path.{subst}
use distributed_systems_engi.Base.{
  List-cases, ℕ, ◌+◌, ◌<◌, ◌≤◌, ◌≡◌, sym, inl, inr, Bool, some, List, arith, ltb, if◌then◌else◌,
  Str, str_eq, Option-cases,
}
use distributed_systems_engi.MapReduce.Master.{
  JobType, Call, Phase, start_call, take_at, call_worker, register, assign, registered, assigned,
  returned, received, step,
}
use distributed_systems_engi.MapReduce.Master.Scheduling.{
  is, is_call, open_count, open_count-call_worker, open_count-assign, open_count-receive, IsPhase,
  assign-cases, receive-cases,
}
use distributed_systems_engi.MapReduce.Master.Counting.{sum, sum-take_at}

pub open_count-returned :
    (op : JobType) (n i : ℕ) (ok : Bool) (k : ℕ) (c : Call × List Call) (p p' : Phase)
    → take_at i p.calls ≡ some c
    → step op n (returned i ok) p ≡ some p'
    → (p'.n_cur ≡ p.n_cur)
      × (open_count k p' + (if ok then is k (c.0).job_number else 0) ≡ open_count k p)
unfolding step call_worker register
open_count-returned op n i ok k c p p' found e =
    let same : call_worker op ok c.0 (record p { calls = c.1 }) ≡ p' = ground (arith, e, found) in
    let moved = open_count-call_worker op ok i k c p found in
    (
      ground (arith, sym same),
      subst (λ q. open_count k q + (if ok then is k (c.0).job_number else 0) ≡ open_count k p) same
          moved,
    )

pub open_count-call :
    (i : ℕ) (c : Call × List Call) (p : Phase)
    → take_at i p.calls ≡ some c
    → 1 ≤ open_count (c.0).job_number p
unfolding open_count
open_count-call i c p found =
    let job = (c.0).job_number in ground (arith, sum-take_at (is_call job) i p.calls c found)

pub call-small :
    (n i : ℕ) (c : Call × List Call) (p : Phase)
    → take_at i p.calls ≡ some c
    → IsPhase n p
    → (c.0).job_number < n
call-small n i c p found h =
    ground (arith, open_count-call i c p found, h.new (c.0).job_number, h.bounded)

-- An event that is no return of a call starts jobs at most, and ends none.
abbrev pub IsQuiet : Phase → Phase → Type 0
IsQuiet p p' = (k : ℕ) → k < p'.n_cur → open_count k p' ≡ 0 → (k < p.n_cur) × (open_count k p ≡ 0)

pub registered-IsQuiet :
    (op : JobType) (n : ℕ) (w : Str) (p p' : Phase)
    → step op n (registered w) p ≡ some p'
    → IsQuiet p p'
unfolding step register open_count
registered-IsQuiet op n w p p' e k lt closed = ground (arith, e)

pub assigned-IsQuiet :
    (op : JobType) (n i : ℕ) (p p' : Phase) → step op n (assigned i) p ≡ some p' → IsQuiet p p'
unfolding step
assigned-IsQuiet op n i p p' e k lt closed = elim (Option-cases (take_at i p.waiting)) [
  | inl none' ↦ cc
  | inr (w, found) ↦
      let p1 = record p { waiting = w.1 } in
      let e' : assign n w.0 p1 ≡ some p' = ground (arith, e, found) in
      let moved : open_count k p' ≡ open_count k p + (if ltb p.n_cur n then is k p.n_cur else 0) =
        unfold open_count in open_count-assign n k w.0 p1 p' e' in
      elim (assign-cases n w.0 p1 p' e') [
        | inl (more, s) ↦
            let cur : p'.n_cur ≡ p.n_cur + 1 = unfold start_call in ground (arith, s) in
            ground (arith, moved, cur)
        | inr (all, job, f, s) ↦
            let cur : p'.n_cur ≡ p.n_cur = unfold start_call in ground (arith, s) in
            ground (arith, moved, cur)
      ]
]

pub received-IsQuiet :
    (op : JobType) (n : ℕ) (p p' : Phase) → step op n received p ≡ some p' → IsQuiet p p'
unfolding step
received-IsQuiet op n p p' e k lt closed =
    let (_, f, s, rest, r, e') = receive-cases n p p' e in
    ground (arith, open_count-receive n k p p' e, e')

pub end-closed :
    (n k : ℕ) (q : Phase) → IsPhase n q → q.successes ≡ n → (q.n_cur ≡ n) × (open_count k q ≡ 0)
end-closed n k q h done =
    let cur : q.n_cur ≡ n = omega (arith, h.bounded, h.counted, done) in
    (
      cur,
      elim (List-cases q.calls) [
        | inr (c, cs, e) ↦ absurd (ground (arith, h.counted, done, e, cur))
        | inl e1 ↦ elim (List-cases q.reports) [
          | inr (r, rs, e) ↦ absurd (ground (arith, h.counted, done, e, cur))
          | inl e2 ↦ elim (Option-cases q.failed) [
            | inr (m, e) ↦ absurd (ground (arith, h.counted, done, e, cur))
            | inl e3 ↦ unfold open_count sum in ground (arith, e1, e2, e3)
          ]
        ]
      ],
    )
