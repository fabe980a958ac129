-- ===== src/PbService/Retrying.antt =====
-- The tries of a client of src/pbservice/client.go whose replies are lost, at the primary of
-- src/pbservice/server.go.
use distributed_systems_engi.Base.{
  ◌≡◌, ◌≢◌, refl, sym, ap, ◌∙◌, inl, inr, true, false, Option, none, some, List, [], ◌∷◌, All,
  arith,
}
use distributed_systems_engi.PbService.{Pair, Pass, PutAppendArgs, ok, has_op, put_append}
use distributed_systems_engi.PbService.Forwarding.{
  InSync, IsCalm, Applied, put_append-Served, put_append-again,
}

-- A call of `PutAppend`: the first pass of its loop, and the others
abbrev pub Call : Type 0
Call = Pass × List Pass

-- `PutAppend` called again and again with the same arguments; `none` where a call does not return.
unfoldable pub tries : PutAppendArgs → List Call → Pair → Option Pair
unfolding put_append
tries args [] s = some s
tries args (c ∷ cs) s = elim (put_append args (c.0 ∷ c.1) s) [
  | none ↦ none
  | some r ↦ tries args cs r.0
]

tries-again :
    (args : PutAppendArgs) (cs : List Call) (s : Pair)
    → All (λ c. IsCalm c.0) cs
    → s.primary.view.primary ≡ s.primary.me
    → has_op args.op_id s.primary ≡ true
    → tries args cs s ≡ some s
unfolding tries
tries-again args [] s calm is_primary old = refl
tries-again args (c ∷ cs) s calm is_primary old = ground (
  arith,
  put_append-again args c.0 c.1 s calm.0 is_primary old,
  tries-again args cs s calm.1 is_primary old,
)

-- A client calls `PutAppend` at the primary, when the backup is named, agrees with the primary, and
-- has not served the operation, and no other handler runs in between. If the call is served and the
-- reply is lost, and the client tries again, however often, every call returns and the two servers end
-- as after the first: they agree, the key has the put value (or the old value with the appended text
-- once), and no other key has changed.
pub tries-once :
    (args : PutAppendArgs) (rs : List Pass) (cs : List Call) (s s' : Pair)
    → All IsCalm rs
    → All (λ c. IsCalm c.0) cs
    → InSync s
    → s.primary.view.primary ≡ s.primary.me
    → s.primary.view.backup ≢ ""
    → has_op args.op_id s.primary ≡ false
    → put_append args rs s ≡ some (s', ok)
    → (tries args cs s' ≡ some s') × Applied args s.primary s'
tries-once args rs cs s s' calm calms sync is_primary named new h =
    elim (put_append-Served args rs s s' ok calm sync is_primary named new h) [
      | inr (w, same) ↦ cc w
      | inl (o, applied) ↦
          let (view, me) = applied.same_view in
          let still : s'.primary.view.primary ≡ s'.primary.me =
            ap (λ v. v.primary) view ∙ is_primary ∙ sym me in
          (tries-again args cs s' calms still (applied.recorded).0, applied)
    ]
