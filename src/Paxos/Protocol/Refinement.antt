-- ===== src/Paxos/Protocol/Refinement.antt =====
-- One pass of the loop of `Propose` of src/paxos/paxos.go in the protocol: what it announces, the
-- protocol may announce.
use mathlib.Core.Path.{subst}
use distributed_systems_engi.Base.{
  ℕ, ◌≡◌, ◌∙◌, refl, ap, Bool, false, Option, none, some, List, [], ◌∷◌, arith, Bool-cases, inl,
  inr, Str, All, All-mono,
}
use distributed_systems_engi.Paxos.{is_pending}
use distributed_systems_engi.Paxos.Proposer
use distributed_systems_engi.Paxos.Proposer.{
  Best, note_promise, Attempt, Prepared, Accepted, collect_promises, collect_accepts, send_prepare,
  send_accept, propose,
}
use distributed_systems_engi.Paxos.Protocol.{
  System, preparing, accepting, begin, promote, relay, announce, begin_round, Sent, here, Reach,
}
use distributed_systems_engi.Paxos.Protocol.Quorum.{update_self}
use distributed_systems_engi.Paxos.Protocol.Invariant.{Inv}
use distributed_systems_engi.Paxos.Protocol.Agreement.{
  Steps, stop, more, Reach-Inv, Steps-Inv, Steps-Chosen, Chosen-unique,
}
use distributed_systems_engi.Paxos.Protocol.Calls.{IsAhead, Steps-append, Outcome}
use distributed_systems_engi.Paxos.Protocol.Promising.{Promised, Promised-later, Asks-Promised}
use distributed_systems_engi.Paxos.Protocol.Voting.{Counted, Asks-Counted}
use distributed_systems_engi.Paxos.Protocol.Passes.{
  IsOrder, after_promote, Prepares, Pass, fails, goes_on, propose-fails, propose-heard,
  propose-accepted,
}

IsOrder-IsAhead :
    (n : ℕ) (f : ℕ → Bool) (is : List ℕ) → ((i : ℕ) → f i ≡ false) → IsOrder n is → IsAhead n f is
IsOrder-IsAhead n f is out h = record {
  once = λ j. ground (arith, h j);
  among = λ j p. (ground (arith, h j, p), out j);
}

module _ {V : Type 0} {n : ℕ} where
  -- A decision that a loop hears of can be sent on.
  relayed-Sent :
      {k : ℕ} {s t : System V} (heard : Option (Option V))
      → Outcome n k s t heard
      → (u : System V) × Steps n s u × All (λ w. Sent w u.sent) (Proposer.announce heard [])
  relayed-Sent {t} none h = (t, h.steps, tt)
  relayed-Sent {t} (some v) h =
      let (i, settled, held) = h.relayed v refl in
      (
        record t { sent = (t.acc i).v_a ∷ t.sent },
        more h.steps (relay i settled),
        (subst (λ x. Sent x ((t.acc i).v_a ∷ t.sent)) held here, tt),
      )

  Prepares-Promised :
      {me k : ℕ} {v : Option V} {n_p : Str} {a : Attempt V} {s t : System V}
      (p : Prepares n me k v n_p a s t)
      → Promised n k p.num s t (send_prepare n v p.num a.promises)
  unfolding send_prepare
  Prepares-Promised {k} {v} {s} p =
      let begun = begin k p.num v p.unused p.wf p.some_num p.new in
      Promised-later _ _ p.num (more stop begun) (
        Asks-Promised n k p.num (begin_round p.num v) p.calls
          (update_self s.rnd k (begin_round p.num v)) refl
          (IsOrder-IsAhead n (λ i. false) p.peers (λ i. refl) p.order) (omega arith))

  -- A round that is collecting promises has no votes.
  no_acks :
      {s : System V} (h : Inv n s) (k : ℕ)
      → (s.rnd k).phase ≡ preparing
      → (i : ℕ) → (s.rnd k).acked i ≡ false
  no_acks {s} h k e i = elim (Bool-cases ((s.rnd k).acked i)) [
    | inl acked ↦ absurd (cc (e, h.voted_active k i (h.acked_voted k i acked)))
    | inr free ↦ free
  ]

  -- Refinement: let a peer make one pass of the loop of `Propose` from a reached state, with calls in any
  -- order of the peers, replies lost, and any steps of the others in between. Then the protocol has
  -- steps from that state to one in which all values are sent that the pass announces.
  pub propose-Sent :
      {me k : ℕ} {v : Option V} {n_p : Str} {a : Attempt V} {s t : System V}
      → Reach n s
      → Pass n me k v n_p a s t
      → (u : System V) × Steps n s u × All (λ w. Sent w u.sent) (propose n me v n_p (a ∷ []))
  propose-Sent {me} {v} {n_p} {a} r (fails p few) =
      rw (propose-fails n me v n_p p.num a p.is_num few)
        (relayed-Sent (send_prepare n v p.num a.promises).announced (Prepares-Promised p).outcome)
  propose-Sent {me} {k} {v} {n_p} {a} {s} r (goes_on {t} {u} {is} p most order calls) =
      let first = Prepares-Promised p in
      let (val, quorum) = first.most most in
      let asked = after_promote k t in
      let accepted = record (t.rnd k) { phase = accepting } in
      let past = more first.outcome.steps (promote k first.phase quorum) in
      let free = no_acks (Steps-Inv (Reach-Inv r) first.outcome.steps) k first.phase in
      let ahead = IsOrder-IsAhead n (t.rnd k).acked is free order in
      let second : Counted n k accepted asked u (send_accept n a.accepts) =
        unfold send_accept in
        Asks-Counted n k accepted calls (update_self t.rnd k accepted) refl ahead (omega arith) in
      elim (Bool-cases (send_accept n a.accepts).majority) [
        | inl chosen ↦
            let here' : Sent (send_prepare n v p.num a.promises).v_a ((u.rnd k).best.val ∷ u.sent) =
              subst (λ x. Sent x ((u.rnd k).best.val ∷ u.sent)) (ap (λ x. x.val) second.best ∙ val)
                here in
            rw (propose-accepted n me v n_p p.num a p.is_num most chosen) (
              record u { sent = (u.rnd k).best.val ∷ u.sent },
              more (Steps-append past second.outcome.steps)
                  (announce k second.phase (second.most chosen)),
              (here', tt),
            )
        | inr lost ↦ rw (propose-heard n me v n_p p.num a p.is_num most lost) (
            let (w, steps, told) =
              relayed-Sent (send_accept n a.accepts).announced second.outcome in
            (w, Steps-append past steps, told))
      ]

  -- In a reached state in which peer `i` is not pending, whatever a pass of the loop of `Propose` that
  -- begins then announces is the value that `i` holds.
  pub propose-agrees :
      {me k : ℕ} {v : Option V} {n_p : Str} {a : Attempt V} {s t : System V} (i : ℕ)
      → Reach n s
      → is_pending (s.acc i).status ≡ false
      → Pass n me k v n_p a s t
      → All (λ w. w ≡ (s.acc i).v_a) (propose n me v n_p (a ∷ []))
  propose-agrees {me} {v} {n_p} {a} {s} i r settled pass =
      let (u, steps, sent) = propose-Sent r pass in
      let h = Reach-Inv r in
      let h' = Steps-Inv h steps in
      let chosen = Steps-Chosen h steps (h.decided i settled) in
      All-mono (λ w. Sent w u.sent) (λ w. w ≡ (s.acc i).v_a)
        (λ w p. Chosen-unique h' w (s.acc i).v_a (h'.sent w p) chosen) (propose n me v n_p (a ∷ []))
        sent
