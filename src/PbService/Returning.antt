-- ===== src/PbService/Returning.antt =====
-- The loop of `PutAppend` of src/pbservice/server.go ends once a call is replied.
use distributed_systems_engi.Base.{
  All, false, ◌≡◌, ◌≢◌, refl, ◌⊎◌, inl, inr, Option, none, some, List, [], ◌∷◌, ◌==◌, ◌++◌, int_eq,
  string_eq, Bool-cases, Option-cases,
}
use distributed_systems_engi.PbService.Forwarding.{InSync, IsCalm, Served, put_append-Served}
use distributed_systems_engi.PbService.{
  Err, empty, wrong_server, already_op_id, ForwardArgs, Outcome, lost, no_reply, replied, Pair,
  call_forward, has_op, PutAppendArgs, forward_args, Pass, finish_put, put_pass, put_loop,
  put_append,
}

replied-some :
    (s : Pair) (o : Outcome) (a : ForwardArgs) → o ≡ replied → (call_forward a o s).1 ≢ none
unfolding call_forward
replied-some s lost a r e = cc
replied-some s no_reply a r e = cc
replied-some s replied a r e = cc

-- A pass returns if the rest of the loop does.
put_pass-returns :
    (args : PutAppendArgs) (o : Outcome) (again : Pair → Option (Pair × Err)) (s : Pair)
    → ((t : Pair) → (x : Pair × Err) × (again t ≡ some x)) ⊎ (o ≡ replied)
    → (x : Pair × Err) × (put_pass args o again s ≡ some x)
unfolding put_pass
put_pass-returns args o again s h =
    let c = call_forward (forward_args args s.primary) o s in
    elim (Bool-cases (has_op args.op_id s.primary)) [
      | inl old ↦ ((s, already_op_id), rw old refl)
      | inr new ↦ elim (Bool-cases (s.primary.view.backup == "")) [
        | inl alone ↦ (finish_put args empty s, rw (new, alone) refl)
        | inr named ↦ elim (Option-cases c.1) [
          | inr (e, answer) ↦ (finish_put args e c.0, rw (new, named, answer) refl)
          | inl failed ↦ elim h [
            | inl goes ↦ let (x, q) = goes c.0 in (x, rw (new, named, failed) q)
            | inr r ↦ absurd (replied-some s o (forward_args args s.primary) r failed)
          ]
        ]
      ]
    ]

put_loop-returns :
    (args : PutAppendArgs) (rs qs : List Pass) (r : Pass) (s : Pair)
    → r.outcome ≡ replied
    → (x : Pair × Err) × (put_loop args (rs ++ r ∷ qs) s ≡ some x)
unfolding put_loop
put_loop-returns args [] qs r s e =
    put_pass-returns args r.outcome (put_loop args qs) (r.meanwhile s) (inr e)
put_loop-returns args (q ∷ rs) qs r s e =
    put_pass-returns args q.outcome (put_loop args (rs ++ r ∷ qs)) (q.meanwhile s)
      (inl (λ t. put_loop-returns args rs qs r t e))

put_append-returns :
    (args : PutAppendArgs) (rs qs : List Pass) (r : Pass) (s : Pair)
    → r.outcome ≡ replied
    → (x : Pair × Err) × (put_append args (rs ++ r ∷ qs) s ≡ some x)
unfolding put_append
put_append-returns args rs qs r s e = elim (Bool-cases (s.primary.view.primary == s.primary.me)) [
  | inl mine ↦ let (x, q) = put_loop-returns args rs qs r s e in (x, rw mine q)
  | inr other ↦ ((s, wrong_server), rw other refl)
]

-- `PutAppend` at the primary, when the backup is named, agrees with the primary, the primary has not
-- recorded the operation, and no other handler runs in between: where some call of its loop is replied, whatever calls
-- fail before, it returns, and either it replies OK, the two agree again, the key has the put value (or
-- the old value with the appended text), no other key has changed, and both have recorded the operation;
-- or it replies ErrWrongServer, and the primary is as before.
pub put_append-serves :
    (args : PutAppendArgs) (rs qs : List Pass) (r : Pass) (s : Pair)
    → r.outcome ≡ replied
    → All IsCalm (rs ++ r ∷ qs)
    → InSync s
    → s.primary.view.primary ≡ s.primary.me
    → s.primary.view.backup ≢ ""
    → has_op args.op_id s.primary ≡ false
    → (s' : Pair) × (e : Err) × (put_append args (rs ++ r ∷ qs) s ≡ some (s', e))
      × Served args s.primary s' e
put_append-serves args rs qs r s answer calm sync is_primary named new =
    let ((s', e), ran) = put_append-returns args rs qs r s answer in
    (s', e, ran, put_append-Served args (rs ++ r ∷ qs) s s' e calm sync is_primary named new ran)
