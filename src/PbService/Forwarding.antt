-- ===== src/PbService/Forwarding.antt =====
-- `PutAppend` and `Forward` of src/pbservice/server.go: the backup follows the primary, however often a
-- call fails.
use mathlib.Core.Path.{subst}
use distributed_systems_engi.Base.{
  String, ◌≡◌, ◌≢◌, refl, ◌∙◌, sym, ap, ◌⊎◌, inl, inr, true, false, not, none, some, List, [], ◌∷◌,
  ltb, ◌==◌, ==-iff, ==-self, ==-of_ne, int_eq, string_eq, eqb_ℤ_iff, lookup, lookup-insert, All,
  Bool-cases, Option-cases, arith, if◌then◌else◌,
}
use distributed_systems_engi.PbService.{
  Err, ok, wrong_server, already_op_id, PbServer, forward, Outcome, lost, no_reply, replied, Pair,
  call_forward, has_op, PutAppendArgs, new_value, forward_args, Pass, finish_put, put_pass,
  put_loop, put_append,
}

-- The primary and the backup hold the same value for each key.
abbrev pub InSync : Pair → Type 0
InSync s = (k : String) → lookup k s.backup.store ≡ lookup k s.primary.store

-- No other handler runs while the mutex is free.
abbrev pub IsCalm : Pass → Type 0
IsCalm r = (s : Pair) → r.meanwhile s ≡ s

module _ (args : PutAppendArgs) where
  -- The backup agrees with the primary, or has the new value of the key already.
  abbrev Near : Pair → Type 0
  Near s =
      (k : String)
      → (lookup k s.backup.store ≡ lookup k s.primary.store)
        ⊎ (((args.key == k) ≡ true) × (lookup k s.backup.store ≡ some (new_value args s.primary)))

  forward-store :
      (p b : PbServer) (k : String)
      → let (b', e) = forward (forward_args args p) b in
        ((e ≡ ok)
          × (lookup k b'.store
              ≡ (if args.key == k then some (new_value args p) else lookup k b.store))
          × (has_op args.op_id b' ≡ true))
        ⊎ ((e ≡ wrong_server) × (b' ≡ b))
  unfolding forward
  forward-store p b k = elim (Bool-cases (not (ltb p.view.viewnum b.view.viewnum))) [
    | inl same ↦ rw same (
        inl (
          refl,
          lookup-insert args.key k (new_value args p) b.store,
          ground (
            arith,
            lookup-insert args.op_id args.op_id true b.op_id,
            eqb_ℤ_iff args.op_id args.op_id,
          ),
        ))
    | inr moved ↦ rw moved (inr (refl, refl))
  ]

  call_forward-Near :
      (o : Outcome) (s : Pair)
      → Near s
      → Near (call_forward (forward_args args s.primary) o s).0
        × ((call_forward (forward_args args s.primary) o s).0.primary ≡ s.primary)
  unfolding call_forward
  call_forward-Near lost s h = (h, refl)
  call_forward-Near no_reply s h =
      (λ k. ground (arith, forward-store s.primary s.backup k, h k), refl)
  call_forward-Near replied s h =
      (λ k. ground (arith, forward-store s.primary s.backup k, h k), refl)

  -- A reply OK means that the backup has the new value and the operation.
  call_forward-ok :
      (o : Outcome) (s : Pair)
      → (call_forward (forward_args args s.primary) o s).1 ≡ some ok
      → (lookup args.key (call_forward (forward_args args s.primary) o s).0.backup.store
          ≡ some (new_value args s.primary))
        × (has_op args.op_id (call_forward (forward_args args s.primary) o s).0.backup ≡ true)
  unfolding call_forward
  call_forward-ok lost s e = cc
  call_forward-ok no_reply s e = cc
  call_forward-ok replied s e =
      ground (arith, forward-store s.primary s.backup args.key, ==-self args.key)

  -- The replies that `Forward` gives
  call_forward-replies :
      (o : Outcome) (s : Pair) (e : Err)
      → (call_forward (forward_args args s.primary) o s).1 ≡ some e
      → (e ≡ ok) ⊎ (e ≡ wrong_server)
  unfolding call_forward forward
  call_forward-replies lost s e q = cc
  call_forward-replies no_reply s e q = cc
  call_forward-replies replied s e q = ground arith

  -- The new value is stored at both servers, and both have recorded the operation.
  pub record Applied (p : PbServer) (s' : Pair) : Type 0 where
    pub in_sync : InSync s'
    pub stored :
        (k : String)
        → lookup k s'.primary.store
          ≡ (if args.key == k then some (new_value args p) else lookup k p.store)
    pub recorded : (has_op args.op_id s'.primary ≡ true) × (has_op args.op_id s'.backup ≡ true)
    pub same_view : (s'.primary.view ≡ p.view) × (s'.primary.me ≡ p.me)

  -- What `PutAppend` promises at its end.
  abbrev pub Served : PbServer → Pair → Err → Type 0
  Served p s' e = ((e ≡ ok) × Applied p s') ⊎ ((e ≡ wrong_server) × (s'.primary ≡ p))

  finish-Served :
      (s : Pair) (e : Err)
      → Near s
      → (e ≡ ok) ⊎ (e ≡ wrong_server)
      → (e ≡ ok
          → (lookup args.key s.backup.store ≡ some (new_value args s.primary))
            × (has_op args.op_id s.backup ≡ true))
      → Served s.primary (finish_put args e s).0 (finish_put args e s).1
  unfolding finish_put
  finish-Served s e near (inr w) g = rw w (inr (refl, refl))
  finish-Served s e near (inl w) g =
      let (at, op) = g w in
      rw w (
        inl (
          refl,
          record {
            same_view = (refl, refl);
            in_sync = λ k. ground (
              arith,
              lookup-insert args.key k (new_value args s.primary) s.primary.store,
              near k,
              at,
              ==-iff args.key k,
            );
            stored = λ k. lookup-insert args.key k (new_value args s.primary) s.primary.store;
            recorded = (
              ground (
                arith,
                lookup-insert args.op_id args.op_id true s.primary.op_id,
                eqb_ℤ_iff args.op_id args.op_id,
              ),
              op,
            );
          },
        ))

  put_loop-step :
      (r : Pass) (rs : List Pass) (s : Pair)
      → IsCalm r
      → (s.primary.view.backup == "") ≡ false
      → has_op args.op_id s.primary ≡ false
      → put_loop args (r ∷ rs) s ≡ (
          let c = call_forward (forward_args args s.primary) r.outcome s in
          elim c.1 [ none ↦ put_loop args rs c.0 | some e ↦ some (finish_put args e c.0) ])
  unfolding put_loop put_pass
  put_loop-step r rs s calm named new =
      ap (put_pass args r.outcome (put_loop args rs)) (calm s) ∙ rw (new, named) refl

  -- The loop, when the view names a backup and the primary has not served the operation.
  put_loop-Served :
      (rs : List Pass) (s s' : Pair) (e : Err)
      → All IsCalm rs
      → Near s
      → (s.primary.view.backup == "") ≡ false
      → has_op args.op_id s.primary ≡ false
      → put_loop args rs s ≡ some (s', e)
      → Served s.primary s' e
  put_loop-Served [] s s' e calm near named new h = unfold put_loop in cc
  put_loop-Served (r ∷ rs) s s' e (calm, calms) near named new h =
      let c = call_forward (forward_args args s.primary) r.outcome s in
      let (near', same) = call_forward-Near r.outcome s near in
      let step = put_loop-step r rs s calm named new in
      elim (Option-cases c.1) [
        | inl failed ↦
            subst (λ p. Served p s' e) same
              (put_loop-Served rs c.0 s' e calms near' (rw same named) (rw same new)
                (ground (arith, step, failed)))
        | inr (x, answer) ↦
            let end : finish_put args x c.0 ≡ (s', e) = ground (arith, step, answer) in
            subst (λ p. Served p s' e) same
              (subst (λ q. Served c.0.primary q.0 q.1) end
                (finish-Served c.0 x near' (call_forward-replies r.outcome s x answer) λ is_ok.
                  subst
                    (λ p.
                      (lookup args.key c.0.backup.store ≡ some (new_value args p))
                      × (has_op args.op_id c.0.backup ≡ true))
                    (sym same) (call_forward-ok r.outcome s (answer ∙ ap some is_ok))))
      ]

-- `PutAppend` at the primary, when the backup is named, agrees with the primary, the primary has not
-- recorded the operation, and no other handler runs in between: whatever calls fail, if it returns, it replies
-- OK, and the two agree again, the key has the put value (or the old value with the appended text),
-- no other key has changed, and both have recorded the operation; or it replies ErrWrongServer, and
-- the primary is as before.
pub put_append-Served :
    (args : PutAppendArgs) (rs : List Pass) (s s' : Pair) (e : Err)
    → All IsCalm rs
    → InSync s
    → s.primary.view.primary ≡ s.primary.me
    → s.primary.view.backup ≢ ""
    → has_op args.op_id s.primary ≡ false
    → put_append args rs s ≡ some (s', e)
    → Served args s.primary s' e
unfolding put_append
put_append-Served args rs s s' e calm sync is_primary named new h =
    put_loop-Served args rs s s' e calm (λ k. inl (sync k))
      (==-of_ne s.primary.view.backup "" named) new
      (ground (arith, h, ==-iff s.primary.view.primary s.primary.me, is_primary))

-- Once the primary has recorded an operation, `PutAppend` with it answers ErrAlreadyOpID in its first
-- pass and changes nothing.
pub put_append-again :
    (args : PutAppendArgs) (r : Pass) (rs : List Pass) (s : Pair)
    → IsCalm r
    → s.primary.view.primary ≡ s.primary.me
    → has_op args.op_id s.primary ≡ true
    → put_append args (r ∷ rs) s ≡ some (s, already_op_id)
unfolding put_append put_loop put_pass
put_append-again args r rs s calm is_primary old =
    rw (calm s, old) (ground (arith, ==-iff s.primary.view.primary s.primary.me, is_primary))
