-- ===== src/Paxos/Protocol/Agreement.antt =====
-- Agreement: whatever the peers and the network do, all decided peers hold the same value.
use distributed_systems_engi.Base.{
  ℕ, zero, suc, ◌<◌, ◌≤◌, ◌≡◌, refl, sym, ◌∙◌, ap, ℕ_discrete, dec_lt, ◌⊎◌, inl, inr, false, Option,
  arith, str_eq,
}
use distributed_systems_engi.Paxos.{is_pending, rank}
use distributed_systems_engi.Paxos.Protocol.{
  accepting, System, Majority, Step, begin, prepares, promote, accepts, announce, relay, decides,
  Reach, start, later,
}
use distributed_systems_engi.Paxos.Protocol.Quorum.{count_mono, count-meet}
use distributed_systems_engi.Paxos.Protocol.Invariant.{
  Backed, Chosen, Chosen-mono, Extends, Extends-refl, Extends-update, Inv, Inv-init,
}
use distributed_systems_engi.Paxos.Protocol.Moves.{Inv-acc, Inv-round}
use distributed_systems_engi.Paxos.Protocol.Serve.{
  prepare-acc, prepare-RoundOk, accept-acc, accept-RoundOk,
}
use native.Mathlib.Nat.{le_refl}
use distributed_systems_engi.Paxos.Protocol.Steps.{
  AccOk-decide, RoundOk-begin, RoundOk-promote, Inv-sent,
}

module _ {V : Type 0} {n : ℕ} where
  Step-Inv : {s t : System V} → Step n s t → Inv n s → Inv n t
  Step-Inv (begin k num v q wf ne fresh') h =
      Inv-round h k _ (RoundOk-begin h k num v q wf ne fresh')
  Step-Inv (prepares k i d lt ne) h = Inv-round (prepare-acc h k i) k _ (prepare-RoundOk h k i d)
  Step-Inv (promote k q most) h = Inv-round h k _ (RoundOk-promote h k q most)
  Step-Inv (accepts k i d lt q) h = Inv-round (accept-acc h k i q) k _ (accept-RoundOk h k i d q)
  Step-Inv {s} (announce k q most) h = Inv-sent h _ (record {
    of = k;
    active = q;
    most = omega (arith, most, count_mono (s.rnd k).acked (s.rnd k).voted n (h.acked_voted k));
    same_val = refl;
  })
  Step-Inv (relay i p) h = Inv-sent h _ (h.decided i p)
  Step-Inv (decides i v p) h = Inv-acc h i _ (AccOk-decide h i v p)

  pub Reach-Inv : {s : System V} → Reach n s → Inv n s
  Reach-Inv start = Inv-init n
  Reach-Inv (later r st) = Step-Inv st (Reach-Inv r)

  -- No step takes back the number, the value or the votes of a round past its promises.
  pub Step-Extends : {s t : System V} → Inv n s → Step n s t → (j : ℕ) → Extends (s.rnd j) (t.rnd j)
  Step-Extends {s} h (begin k num v q wf ne fresh') =
      Extends-update s.rnd k _ (RoundOk-begin h k num v q wf ne fresh').extends
  Step-Extends {s} h (prepares k i d lt ne) =
      Extends-update s.rnd k _ (prepare-RoundOk h k i d).extends
  Step-Extends {s} h (promote k q most) =
      Extends-update s.rnd k _ (RoundOk-promote h k q most).extends
  Step-Extends {s} h (accepts k i d lt q) =
      Extends-update s.rnd k _ (accept-RoundOk h k i d q).extends
  Step-Extends {s} h (announce k q most) = λ j. Extends-refl (s.rnd j)
  Step-Extends {s} h (relay i p) = λ j. Extends-refl (s.rnd j)
  Step-Extends {s} h (decides i v p) = λ j. Extends-refl (s.rnd j)

module _ {V : Type 0} {n : ℕ} {s : System V} (h : Inv n s) where
  -- A round past its promises that is not below a chosen round has the chosen value.
  chosen-stays :
      (bound : ℕ) (k j : ℕ)
      → rank (s.rnd j).num < bound
      → (s.rnd k).phase ≡ accepting
      → Majority n (s.rnd k).voted
      → (s.rnd j).phase ≡ accepting
      → rank (s.rnd k).num ≤ rank (s.rnd j).num
      → (s.rnd j).best.val ≡ (s.rnd k).best.val
  chosen-stays zero k j lt qk most qj le = absurd (omega arith)
  chosen-stays (suc bound) k j lt qk most qj le =
      elim (ℕ_discrete (rank (s.rnd k).num) (rank (s.rnd j).num)) [
        | yes e ↦ ap (λ l. (s.rnd l).best.val) (sym (h.unique k j (h.begun k (λ q. cc)) e))
        | no ne ↦
            let (i, in_n, p, v) =
              count-meet (s.rnd j).promised (s.rnd k).voted n
                (omega (arith, most, h.quorum j qj)) in
            let reported = h.promised_best j i k p v (omega arith) in
            from (λ l lt' q' le'. chosen-stays bound k l lt' qk most q' le') (h.best_from j)
              reported
      ]
    where
      from :
          ((l : ℕ)
            → rank (s.rnd l).num < bound
            → (s.rnd l).phase ≡ accepting
            → rank (s.rnd k).num ≤ rank (s.rnd l).num
            → (s.rnd l).best.val ≡ (s.rnd k).best.val)
          → (rank (s.rnd j).best.num ≡ 0) ⊎ Backed s (s.rnd j).best.num (s.rnd j).best.val
          → rank (s.rnd k).num ≤ rank (s.rnd j).best.num
          → (s.rnd j).best.val ≡ (s.rnd k).best.val
      from ih (inl z) r = absurd (omega (arith, r, z, h.begun k (λ q. cc)))
      from ih (inr b) r =
          let e : rank (s.rnd b.of).num ≡ rank (s.rnd j).best.num = ap rank b.same_num in
          let below = h.best_lt j (λ q. cc) in
          sym b.same_val ∙ ih b.of (omega arith) b.active (omega arith)

  -- Two chosen values are the same.
  pub Chosen-unique : (v w : Option V) → Chosen n s v → Chosen n s w → v ≡ w
  Chosen-unique v w c d = elim (dec_lt (rank (s.rnd c.of).num) (rank (s.rnd d.of).num)) [
    | yes lt ↦
        sym c.same_val
        ∙ sym (chosen-stays _ c.of d.of (le_refl _) c.active c.most d.active (omega arith))
        ∙ d.same_val
    | no ge ↦
        sym c.same_val
        ∙ chosen-stays _ d.of c.of (le_refl _) d.active d.most c.active (omega arith)
        ∙ d.same_val
  ]

-- Any number of steps from one state to another.
pub data Steps {V : Type 0} (n : ℕ) (s : System V) : System V → Type 0 where
  stop : Steps n s s
  more : {t u : System V} → Steps n s t → Step n t u → Steps n s u

module _ {V : Type 0} {n : ℕ} where
  pub Steps-Inv : {s t : System V} → Inv n s → Steps n s t → Inv n t
  Steps-Inv h stop = h
  Steps-Inv h (more r st) = Step-Inv st (Steps-Inv h r)

  pub Steps-Chosen :
      {s t : System V} {v : Option V} → Inv n s → Steps n s t → Chosen n s v → Chosen n t v
  Steps-Chosen h stop c = c
  Steps-Chosen h (more r st) c = Chosen-mono (Step-Extends (Steps-Inv h r) st) (Steps-Chosen h r c)

  -- Agreement: in a state reached from the start by any steps, with any requests and replies lost,
  -- late or repeated, let peer `i` not be pending; then in every later state a peer `j` that is not
  -- pending holds the value that `i` held, if every round began with a number of its own.
  pub agreement :
      {s t : System V} (i j : ℕ)
      → Reach n s
      → Steps n s t
      → is_pending (s.acc i).status ≡ false
      → is_pending (t.acc j).status ≡ false
      → (t.acc j).v_a ≡ (s.acc i).v_a
  agreement i j r more' di dj =
      let h = Reach-Inv r in
      let h' = Steps-Inv h more' in
      Chosen-unique h' _ _ (h'.decided j dj) (Steps-Chosen h more' (h.decided i di))
