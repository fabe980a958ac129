-- ===== src/PbService/Transfer.antt =====
-- `tick` and `TransDataToBackup` of src/pbservice/server.go: the transfer to a new backup.
use mathlib.Core.Option
use mathlib.Core.Path.{subst}
use distributed_systems_engi.Base.{
  ◌<◌, ◌≡◌, ◌≢◌, refl, ◌∙◌, sym, ap, ◌⊎◌, inl, inr, none, some, List, [], ◌∷◌, ==-iff, string_eq,
  All, arith, Option-cases, none-ne-some, some-injective,
}
use distributed_systems_engi.ViewService.{View}
use distributed_systems_engi.PbService.{
  PbServer, Outcome, lost, no_reply, replied, Pair, update_data, trans_data, trans_loop, tick,
}

-- A call that the caller sees fail.
abbrev pub IsFailed : Outcome → Type 0
IsFailed o = o ≢ replied

trans_loop-replaces :
    (p : PbServer) (os : List Outcome) (b b' : PbServer)
    → trans_loop p os b ≡ some b'
    → (b'.store ≡ p.store) × (b'.op_id ≡ p.op_id) × (b'.me ≡ b.me) × (b'.view ≡ b.view)
unfolding trans_loop trans_data update_data
trans_loop-replaces p [] b b' e = cc
trans_loop-replaces p (lost ∷ os) b b' e = trans_loop-replaces p os b b' e
trans_loop-replaces p (no_reply ∷ os) b b' e = trans_loop-replaces p os (update_data p b) b' e
trans_loop-replaces p (replied ∷ os) b b' e =
    let q : update_data p b ≡ b' = cc in
    subst (λ x. (x.store ≡ p.store) × (x.op_id ≡ p.op_id) × (x.me ≡ b.me) × (x.view ≡ b.view)) q
      (refl, refl, refl, refl)

trans_loop-fails :
    (p : PbServer) (os : List Outcome) (b : PbServer) → All IsFailed os → trans_loop p os b ≡ none
unfolding trans_loop trans_data
trans_loop-fails p [] b h = refl
trans_loop-fails p (lost ∷ os) b (h, hs) = trans_loop-fails p os b hs
trans_loop-fails p (no_reply ∷ os) b (h, hs) = trans_loop-fails p os (update_data p b) hs
trans_loop-fails p (replied ∷ os) b (h, hs) = absurd (h refl)

-- The new view makes the server of `p` transfer: it stays primary, or it is the backup that becomes
-- primary and has a backup.
abbrev pub Transfers : View → PbServer → Type 0
Transfers v p =
    (p.view.viewnum < v.viewnum)
    × (((v.primary ≡ p.view.primary) × (p.view.primary ≡ p.me))
        ⊎ ((v.primary ≢ p.view.primary)
            × (v.primary ≡ p.view.backup)
            × (p.view.backup ≡ p.me)
            × (v.backup ≢ "")))

abbrev with_backup : View → Pair → PbServer → Pair
with_backup v s b = record { primary = record s.primary { view = v }; backup = b }

tick-transfer :
    (v : View) (os : List Outcome) (s : Pair)
    → Transfers v s.primary
    → tick (some v) os s ≡ Option.map (with_backup v s) (trans_loop s.primary os s.backup)
unfolding tick
tick-transfer v os s (newer, inl (stays, mine)) =
    ground
      (arith, ==-iff v.primary s.primary.view.primary, ==-iff s.primary.view.primary s.primary.me)
tick-transfer v os s (newer, inr (moved, promoted, mine, named)) = ground (
  arith,
  ==-iff v.primary s.primary.view.primary,
  ==-iff v.primary s.primary.view.backup,
  ==-iff s.primary.view.backup s.primary.me,
  ==-iff v.backup "",
)

-- Where a server that transfers gets through `tick`, it has the new view, its data are as before,
-- and the backup of the new view has the same data and the same record of operations.
pub tick-replaces :
    (v : View) (os : List Outcome) (s s' : Pair)
    → Transfers v s.primary
    → tick (some v) os s ≡ some s'
    → (s'.primary ≡ record s.primary { view = v })
      × (s'.backup.store ≡ s.primary.store)
      × (s'.backup.op_id ≡ s.primary.op_id)
tick-replaces v os s s' h e = elim (Option-cases (trans_loop s.primary os s.backup)) [
  | inl stuck ↦
      absurd
        (none-ne-some (sym (tick-transfer v os s h ∙ ap (Option.map (with_backup v s)) stuck) ∙ e))
  | inr (b, got) ↦
      let (store, ops, _, _) = trans_loop-replaces s.primary os s.backup b got in
      let q : record { primary = record s.primary { view = v }; backup = b } ≡ s' =
        some-injective (sym (tick-transfer v os s h ∙ ap (Option.map (with_backup v s)) got) ∙ e) in
      subst
        (λ x.
          (x.primary ≡ record s.primary { view = v })
          × (x.backup.store ≡ s.primary.store)
          × (x.backup.op_id ≡ s.primary.op_id))
        q (refl, store, ops)
]

-- A server that transfers is in the loop of `tick`, holding its mutex, as long as every call to the
-- new view's backup fails. So it is for each call when the new view has no backup.
pub tick-hangs :
    (v : View) (os : List Outcome) (s : Pair)
    → Transfers v s.primary
    → All IsFailed os
    → tick (some v) os s ≡ none
tick-hangs v os s h failed =
    tick-transfer v os s h
    ∙ ap (Option.map (with_backup v s)) (trans_loop-fails s.primary os s.backup failed)
