-- ===== src/PbService/Stale.antt =====
-- A primary of src/pbservice/server.go that has been replaced: once its backup has a later view, `Get`
-- and `PutAppend` at the old primary do nothing, and do not report success.
use distributed_systems_engi.Base.{
  ◌≡◌, ◌≢◌, refl, ◌∙◌, sym, ap, ◌⊎◌, inl, inr, true, false, Option, none, some, List, [], ◌∷◌, ltb,
  ◌==◌, int_eq, string_eq, All, Bool-cases, arith,
}
use distributed_systems_engi.PbService.{
  Err, ok, wrong_server, already_op_id, ForwardArgs, forward, Outcome, lost, no_reply, replied,
  Pair, call_forward, has_op, GetArgs, get, PutAppendArgs, forward_args, Pass, put_pass, put_loop,
  put_append,
}
use distributed_systems_engi.PbService.Forwarding.{IsCalm}

-- The server that the primary takes for its backup has a later view.
pub record IsStale (s : Pair) : Type 0 where
  pub behind : ltb s.primary.view.viewnum s.backup.view.viewnum ≡ true
  pub has_backup : (s.primary.view.backup == "") ≡ false

module _ (s : Pair) (stale : IsStale s) where
  forward-stale :
      (args : ForwardArgs)
      → args.viewnum ≡ s.primary.view.viewnum
      → forward args s.backup ≡ (s.backup, wrong_server)
  unfolding forward
  forward-stale args e = let b = stale.behind in rw (e, b) refl

  -- The backup refuses what the primary forwards, and the call has no other effect.
  call_forward-stale :
      (args : ForwardArgs) (o : Outcome)
      → args.viewnum ≡ s.primary.view.viewnum
      → (call_forward args o s ≡ (s, none)) ⊎ (call_forward args o s ≡ (s, some wrong_server))
  unfolding call_forward
  call_forward-stale args lost e = inl refl
  call_forward-stale args no_reply e = inl (rw (forward-stale args e) refl)
  call_forward-stale args replied e = inr (rw (forward-stale args e) refl)

  get-stale : (args : GetArgs) (o : Outcome) → ((get args o s).0 ≡ s) × ((get args o s).1 ≢ ok)
  unfolding get
  get-stale args o =
      let unset = stale.has_backup in
      elim (call_forward-stale
        (record {
          key = "";
          value = "";
          op_id = args.op_id;
          op = "Get";
          viewnum = s.primary.view.viewnum;
        })
        o refl) [
          | inl failed ↦ rw (unset, failed) (ground arith)
          | inr refused ↦ rw (unset, refused) (ground arith)
        ]

  put_pass-stale :
      (args : PutAppendArgs) (o : Outcome) (again : Pair → Option (Pair × Err))
      → (put_pass args o again s ≡ some (s, already_op_id))
        ⊎ ((put_pass args o again s ≡ again s) ⊎ (put_pass args o again s ≡ some (s, wrong_server)))
  unfolding put_pass
  put_pass-stale args o again =
      let unset = stale.has_backup in
      elim (Bool-cases (has_op args.op_id s.primary)) [
        | inl known ↦ inl (rw known refl)
        | inr new ↦ elim (call_forward-stale (forward_args args s.primary) o refl) [
          | inl failed ↦
              let reply : (call_forward (forward_args args s.primary) o s).1 ≡ none =
                ap (λ x. x.1) failed in
              inr (inl (rw (new, unset, reply) (ap (λ x. again x.0) failed)))
          | inr refused ↦
              let reply : (call_forward (forward_args args s.primary) o s).1 ≡ some wrong_server =
                ap (λ x. x.1) refused in
              let same : (call_forward (forward_args args s.primary) o s).0 ≡ s =
                ap (λ x. x.0) refused in
              inr (inr (rw (new, unset, reply) (ground (arith, same))))
        ]
      ]

  ended :
      {s' : Pair} {e e' : Err}
      → e' ≢ ok
      → ◌≡◌ {A = Option (Pair × Err)} (some (s, e')) (some (s', e))
      → (s' ≡ s) × (e ≢ ok)
  ended ne h = (cc, λ q. ne (cc))

  put_loop-stale :
      (args : PutAppendArgs) (rs : List Pass) (s' : Pair) (e : Err)
      → All IsCalm rs
      → put_loop args rs s ≡ some (s', e)
      → (s' ≡ s) × (e ≢ ok)
  unfolding put_loop
  put_loop-stale args [] s' e calm h = cc
  put_loop-stale args (r ∷ rs) s' e calm h =
      let here : put_pass args r.outcome (put_loop args rs) s ≡ some (s', e) =
        ap (put_pass args r.outcome (put_loop args rs)) (sym (calm.0 s)) ∙ h in
      elim (put_pass-stale args r.outcome (put_loop args rs)) [
        | inl known ↦ ended (λ q. cc) (sym known ∙ here)
        | inr (inl failed) ↦ put_loop-stale args rs s' e calm.1 (sym failed ∙ here)
        | inr (inr refused) ↦ ended (λ q. cc) (sym refused ∙ here)
      ]

  -- Where the server that the primary takes for its backup has a later view, `Get` at the primary leaves
  -- both servers as they were and does not report OK, whatever becomes of its call; and nor does
  -- `PutAppend`, in any number of passes between which nothing else happens.
  pub stale-refused :
      (args : GetArgs) (o : Outcome) (put : PutAppendArgs) (rs : List Pass) (s' : Pair) (e : Err)
      → All IsCalm rs
      → put_append put rs s ≡ some (s', e)
      → ((get args o s).0 ≡ s) × ((get args o s).1 ≢ ok) × (s' ≡ s) × (e ≢ ok)
  unfolding put_append
  stale-refused args o put rs s' e calm h =
      elim (Bool-cases (s.primary.view.primary == s.primary.me)) [
        | inl own ↦
            let (same, no_ok) = put_loop-stale put rs s' e calm (rw own at h) in
            ((get-stale args o).0, (get-stale args o).1, same, no_ok)
        | inr other ↦
            let (same, no_ok) = ended (λ q. cc) (rw other at h) in
            ((get-stale args o).0, (get-stale args o).1, same, no_ok)
      ]
