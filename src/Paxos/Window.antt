-- ===== src/Paxos/Window.antt =====
-- `Done`, `Min`, `Max` and `Status` of src/paxos/paxos.go: what a peer remembers and forgets.
use distributed_systems_engi.Base.{
  ℕ, zero, suc, ◌+◌, ◌<◌, ◌≤◌, ◌≡◌, refl, ap, ◌∙◌, ℕ_discrete, ◌≢◌, inl, inr, ◌&&◌, none, some, [],
  ◌∷◌, arith, ℤ, pos, negsuc, ◌+ℤ◌, ◌≤ℤ◌, ◌<ℤ◌, ltb_ℤ, leb_ℤ, length, nat_eq, int_eq, Map, lookup,
  lookup-insert, All, Option-cases, if◌then◌else◌, eqb_ℤ_iff,
}
use distributed_systems_engi.Paxos.{
  decided, forgotten, is_decided, Instance, Paxos, get_my_min, forget_below, forget_ins,
  mark_forgotten, done, max_from, max, min_from, min_of, min, status,
}

module _ {V : Type 0} where
  lookup-forget_below :
      (m k : ℤ) (ins : Map ℤ (Instance V))
      → lookup k (forget_below m ins) ≡ (if ltb_ℤ k m then none else lookup k ins)
  unfolding forget_below lookup
  lookup-forget_below m k [] = ground arith
  lookup-forget_below m k ((j, i) ∷ ins) =
      ground (arith, lookup-forget_below m k ins, eqb_ℤ_iff j k)

  -- The instance as `Done` leaves it
  abbrev marked : ℤ → ℤ → Instance V → Instance V
  marked v k i = if leb_ℤ k v && is_decided i.status then record i { status = forgotten } else i

  lookup-mark_forgotten_above :
      (v k : ℤ) (ins : Map ℤ (Instance V)) → v <ℤ k → lookup k (mark_forgotten v ins) ≡ lookup k ins
  unfolding mark_forgotten lookup
  lookup-mark_forgotten_above v k [] h = refl
  lookup-mark_forgotten_above v k ((j, i) ∷ ins) h =
      ground (arith, lookup-mark_forgotten_above v k ins, eqb_ℤ_iff j k)

  -- After `Done(seq)`, for a `seq` that is not negative, `Status` says Forgotten up to `seq`, and
  -- above it what it said before.
  pub status-done :
      (seq s : ℤ) (px : Paxos V)
      → pos 0 ≤ℤ seq
      → status s (done seq px) ≡ (if leb_ℤ s seq then (forgotten, none) else status s px)
  unfolding status done get_my_min
  status-done seq s px h = elim (Option-cases (lookup px.me px.mins)) [
    | inl missing ↦ rw missing (
        ground (
          arith,
          lookup-insert px.me px.me seq px.mins,
          missing,
          lookup-mark_forgotten_above (pos 0) s px.ins,
        ))
    | inr (v, found) ↦ rw found (
        ground (
          arith,
          lookup-insert px.me px.me seq px.mins,
          found,
          lookup-mark_forgotten_above v s px.ins,
        ))
  ]

  max_from-ge : (m : ℤ) (ins : Map ℤ (Instance V)) → m ≤ℤ max_from m ins
  unfolding max_from
  max_from-ge m [] = omega arith
  max_from-ge m ((k, i) ∷ ins) = ground (arith, max_from-ge m ins, max_from-ge k ins)

  max_from-decided :
      (m k : ℤ) (ins : Map ℤ (Instance V)) (i : Instance V)
      → lookup k ins ≡ some i
      → i.status ≡ decided
      → k ≤ℤ max_from m ins
  unfolding max_from lookup
  max_from-decided m k [] i h d = cc
  max_from-decided m k ((j, i') ∷ ins) i h d = ground (
    arith,
    eqb_ℤ_iff j k,
    max_from-ge m ins,
    max_from-ge j ins,
    max_from-decided m k ins i,
    max_from-decided j k ins i,
  )

  -- `Max` is at least the number of each instance that is decided here, and at least -1.
  pub max-decided :
      (px : Paxos V) (k : ℤ) (i : Instance V)
      → lookup k px.ins ≡ some i
      → i.status ≡ decided
      → (k ≤ℤ max px) × (negsuc 0 ≤ℤ max px)
  unfolding max
  max-decided px k i h d =
      (max_from-decided (negsuc 0) k px.ins i h d, max_from-ge (negsuc 0) px.ins)

  -- Every entry is below `m`.
  abbrev pub IsBelow : ℤ → Map ℤ (Instance V) → Type 0
  IsBelow m = All (λ e. e.0 <ℤ m)

  forget_below-nil : (m : ℤ) (ins : Map ℤ (Instance V)) → IsBelow m ins → forget_below m ins ≡ []
  unfolding forget_below
  forget_below-nil m [] h = refl
  forget_below-nil m ((k, i) ∷ ins) h = ground (arith, forget_below-nil m ins)

  -- Where every known instance is below `Min`, a call of `Min` makes `Max` fall back to -1.
  pub max-min_forgets : (px : Paxos V) → IsBelow (min_of px) px.ins → max (min px).0 ≡ negsuc 0
  unfolding max min forget_ins max_from
  max-min_forgets px h = rw (forget_below-nil (min_of px) px.ins h)

-- Every recorded minimum is -1 or more, as `GetMyMin` and `Done` make them.
abbrev pub MinsValid : Map ℕ ℤ → Type 0
MinsValid mins = (j : ℕ) (v : ℤ) → lookup j mins ≡ some v → negsuc 0 ≤ℤ v

module _ (mins : Map ℕ ℤ) (valid : MinsValid mins) where
  min_from-le_start : (n k : ℕ) (m : ℤ) → negsuc 0 ≤ℤ m → min_from n k m mins ≤ℤ m
  unfolding min_from
  min_from-le_start zero k m h = omega arith
  min_from-le_start (suc n) k m h = elim (Option-cases (lookup k mins)) [
    | inl missing ↦ ground (arith, missing)
    | inr (v, found) ↦ ground (
      arith,
      found,
      valid k v found,
      min_from-le_start n (suc k) v,
      min_from-le_start n (suc k) m,
    )
  ]

  -- The loop returns at most the minimum of each peer that it passes.
  min_from-le :
      (n k : ℕ) (m : ℤ) (j : ℕ) (v : ℤ)
      → k ≤ j
      → j < k + n
      → lookup j mins ≡ some v
      → negsuc 0 ≤ℤ m
      → min_from n k m mins ≤ℤ v
  unfolding min_from
  min_from-le zero k m j v lo hi e h = absurd (omega arith)
  min_from-le (suc n) k m j v lo hi e h = elim (Option-cases (lookup k mins)) [
    | inl missing ↦ ground (arith, missing, valid j v e)
    | inr (w, found) ↦ elim (ℕ_discrete k j) [
      | yes same ↦
          let eq : w ≡ v = cc (found, e, ap (λ x. lookup x mins) same) in
          ground (
            arith,
            found,
            eq,
            valid k w found,
            min_from-le_start n (suc k) w,
            min_from-le_start n (suc k) m,
          )
      | no other ↦
          let next : suc k ≤ j = omega arith in
          ground (
            arith,
            found,
            valid k w found,
            min_from-le n (suc k) w j v,
            min_from-le n (suc k) m j v,
          )
    ]
  ]

  -- The loop returns -1 if it passes a peer with no minimum.
  min_from-missing :
      (n k : ℕ) (m : ℤ) (j : ℕ)
      → k ≤ j
      → j < k + n
      → lookup j mins ≡ none
      → min_from n k m mins ≡ negsuc 0
  unfolding min_from
  min_from-missing zero k m j lo hi e = absurd (omega arith)
  min_from-missing (suc n) k m j lo hi e = elim (Option-cases (lookup k mins)) [
    | inl missing ↦ ground (arith, missing)
    | inr (w, found) ↦
        let differ : k ≢ j = λ same. cc (found, e, ap (λ x. lookup x mins) same) in
        let next : suc k ≤ j = omega arith in
        ground (arith, found, min_from-missing n (suc k) w j, min_from-missing n (suc k) m j)
  ]

module _ {V : Type 0} (px : Paxos V) (valid : MinsValid px.mins) where
  -- `Min` is at most one more than the minimum recorded for any peer.
  pub min_of-le :
      (j : ℕ) (v : ℤ) → j < length px.peers → lookup j px.mins ≡ some v → min_of px ≤ℤ v +ℤ pos 1
  unfolding min_of
  min_of-le j v hj e = ground (
    arith,
    min_from-le px.mins valid (length px.peers) 0 (pos 0xffffffff) j v (omega arith) (omega arith) e
        (omega arith),
  )

  -- `Min` is 0 where some peer has no minimum recorded.
  pub min_of-missing : (j : ℕ) → j < length px.peers → lookup j px.mins ≡ none → min_of px ≡ pos 0
  unfolding min_of
  min_of-missing j hj e = rw (
      min_from-missing px.mins valid (length px.peers) 0 (pos 0xffffffff) j (omega arith)
        (omega arith) e)

  -- A call of `Min` deletes exactly the instances below the number that it returns, and no instance
  -- above a `Done` that some peer `j` has recorded; every other instance stays as it is.
  pub min-keeps :
      (j : ℕ) (v k : ℤ)
      → j < length px.peers
      → lookup j px.mins ≡ some v
      → v <ℤ k
      → (lookup k (min px).0.ins ≡ lookup k px.ins)
        × ((s : ℤ)
            → lookup s (min px).0.ins ≡ (if ltb_ℤ s (min px).1 then none else lookup s px.ins))
  unfolding min forget_ins
  min-keeps j v k hj e h = (
    lookup-forget_below (min_of px) k px.ins ∙ ground (arith, min_of-le j v hj e),
    λ s. lookup-forget_below (min_of px) s px.ins,
  )
