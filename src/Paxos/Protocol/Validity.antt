-- ===== src/Paxos/Protocol/Validity.antt =====
-- Validity: the values of src/paxos/paxos.go that are accepted, announced or decided are values with
-- which a round began, the argument `v` of some `Propose`.
use distributed_systems_engi.Base.{
  ℕ, ◌<◌, ◌≡◌, ◌≢◌, refl, inl, inr, false, not, ◌&&◌, ◌||◌, Option, List, [], ◌∷◌, ◌++◌, Bool,
  Bool-cases, arith, Str, str_eq, ◌==◌,
}
use distributed_systems_engi.Paxos.{
  Instance, PreReply, AccReply, is_pending, prepare_instance, accept_instance, decide_instance,
  rank, rank-nil, bigger, bigger-rank,
}
use distributed_systems_engi.Paxos.Proposer.{note_promise}
use distributed_systems_engi.Paxos.Protocol.{
  idle, is_preparing, Round, System, take_promise, take_vote, Sent, here, there, Step, begin,
  prepares, promote, accepts, announce, relay, decides, Reach, start, later,
}
use distributed_systems_engi.Paxos.Protocol.Quorum.{update, update_all}
use distributed_systems_engi.Paxos.Protocol.Invariant.{Inv}
use distributed_systems_engi.Paxos.Protocol.Agreement.{Reach-Inv}

module _ {V : Type 0} where
  -- The value with which a round begins in this step, if one does.
  unfoldable pub started : {n : ℕ} {s t : System V} → Step n s t → List (Option V)
  started (begin k num v q wf ne new) = v ∷ []
  started _ = []

  -- The values with which the rounds of a run have begun, the latest first.
  unfoldable pub proposed : {n : ℕ} {s : System V} → Reach n s → List (Option V)
  unfolding started
  proposed start = []
  proposed (later r st) = started st ++ proposed r

  Sent-right :
      (vs : List (Option V)) {ws : List (Option V)} {v : Option V} → Sent v ws → Sent v (vs ++ ws)
  Sent-right [] h = h
  Sent-right (w ∷ vs) h = there (Sent-right vs h)

-- What holds of the values, for the values `vs` of the rounds begun.
record IsValid {V : Type 0} (vs : List (Option V)) (s : System V) : Type 0 where
  aimed : (k : ℕ) → (s.rnd k).phase ≢ idle → Sent (s.rnd k).best.val vs
  accepted : (i : ℕ) → 0 < rank (s.acc i).n_a → Sent (s.acc i).v_a vs
  settled : (i : ℕ) → is_pending (s.acc i).status ≡ false → Sent (s.acc i).v_a vs
  announced : (v : Option V) → Sent v s.sent → Sent v vs

module _ {V : Type 0} {s : System V} where
  IsValid-more : (ws : List (Option V)) {vs : List (Option V)} → IsValid vs s → IsValid (ws ++ vs) s
  IsValid-more ws h = record {
    aimed = λ k p. Sent-right ws (h.aimed k p);
    accepted = λ i p. Sent-right ws (h.accepted i p);
    settled = λ i p. Sent-right ws (h.settled i p);
    announced = λ v p. Sent-right ws (h.announced v p);
  }

module _ {V : Type 0} {vs : List (Option V)} {s : System V} (h : IsValid vs s) where
  IsValid-acc :
      (i : ℕ) (a : Instance V)
      → (0 < rank a.n_a → Sent a.v_a vs)
      → (is_pending a.status ≡ false → Sent a.v_a vs)
      → IsValid vs (record s { acc = update s.acc i a })
  IsValid-acc i a p q = record {
    aimed = h.aimed;
    accepted = update_all (λ j x. 0 < rank x.n_a → Sent x.v_a vs) s.acc i a p h.accepted;
    settled = update_all (λ j x. is_pending x.status ≡ false → Sent x.v_a vs) s.acc i a q h.settled;
    announced = h.announced;
  }

  IsValid-round :
      (k : ℕ) (r : Round V)
      → (r.phase ≢ idle → Sent r.best.val vs)
      → IsValid vs (record s { rnd = update s.rnd k r })
  IsValid-round k r p = record {
    aimed = update_all (λ j x. x.phase ≢ idle → Sent x.best.val vs) s.rnd k r p h.aimed;
    accepted = h.accepted;
    settled = h.settled;
    announced = h.announced;
  }

  IsValid-sent : (v : Option V) → Sent v vs → IsValid vs (record s { sent = v ∷ s.sent })
  IsValid-sent v p = record {
    aimed = h.aimed;
    accepted = h.accepted;
    settled = h.settled;
    announced = among;
  }
    where
      among : (w : Option V) → Sent w (v ∷ s.sent) → Sent w vs
      among w here = p
      among w (there q) = h.announced w q

  -- A refused Accept changes nothing; a granted one takes over the value of the round.
  accept_instance-IsValid :
      (i : ℕ) (num : Str) (val : Option V)
      → Sent val vs
      → IsValid vs (record s { acc = update s.acc i (accept_instance num val (s.acc i)).0 })
  unfolding accept_instance
  accept_instance-IsValid i num val p =
      let a = s.acc i in
      elim (Bool-cases (is_pending a.status && (bigger num a.n_p || num == a.n_p))) [
        | inl granted ↦ rw granted (IsValid-acc i _ (λ q. p) (λ q. p))
        | inr refused ↦ rw refused (IsValid-acc i a (h.accepted i) (h.settled i))
      ]

  prepare_instance-IsValid :
      (i : ℕ) (num : Str)
      → IsValid vs (record s { acc = update s.acc i (prepare_instance num (s.acc i)).0 })
  unfolding prepare_instance
  prepare_instance-IsValid i num =
      let a = s.acc i in
      elim (Bool-cases (is_pending a.status && bigger num a.n_p)) [
        | inl granted ↦ rw granted (IsValid-acc i _ (h.accepted i) (h.settled i))
        | inr refused ↦ rw refused (IsValid-acc i a (h.accepted i) (h.settled i))
      ]

  -- A vote changes no value of the round.
  take_vote-aimed :
      (d : Bool) (k i : ℕ) (r : AccReply V)
      → (take_vote d i r (s.rnd k)).phase ≢ idle
      → Sent (take_vote d i r (s.rnd k)).best.val vs
  unfolding take_vote
  take_vote-aimed d k i r p = elim (Bool-cases r.rejected) [
    | inl refused ↦ rw refused (h.aimed k (rw refused at p))
    | inr granted ↦ rw granted (h.aimed k (rw granted at p))
  ]

  -- A promise that shows an accepted number shows a value that the peer accepted.
  take_promise-aimed :
      {n : ℕ}
      → Inv n s
      → (d : Bool) (k i : ℕ) (r : PreReply V) → r.num ≡ (s.acc i).n_a
      → r.val ≡ (s.acc i).v_a
      → (s.rnd k).phase ≢ idle
      → Sent (take_promise d i r (s.rnd k)).best.val vs
  unfolding take_promise note_promise
  take_promise-aimed inv d k i r num val p =
      let old = h.aimed k p in
      elim (Bool-cases (d && (is_preparing (s.rnd k).phase && not r.rejected))) [
        | inr ignored ↦ rw ignored old
        | inl taken ↦ elim (Bool-cases (bigger r.num (s.rnd k).best.num)) [
          | inr lower ↦ rw (taken, lower) old
          | inl higher ↦
              let more = bigger-rank (inv.n_a_wf i) (inv.best_wf k) in
              rw (taken, higher, val) (h.accepted i (ground (arith, num, more)))
        ]
      ]

  prepare-aimed :
      {n : ℕ}
      → Inv n s
      → (d : Bool) (k i : ℕ) → (s.rnd k).phase ≢ idle
      → Sent (take_promise d i (prepare_instance (s.rnd k).num (s.acc i)).1 (s.rnd k)).best.val vs
  unfolding prepare_instance
  prepare-aimed inv d k i p =
      let a = s.acc i in
      elim (Bool-cases (is_pending a.status && bigger (s.rnd k).num a.n_p)) [
        | inl granted ↦ rw granted (take_promise-aimed inv d k i _ refl refl p)
        | inr refused ↦ rw refused (take_promise-aimed inv d k i _ refl refl p)
      ]

module _ {V : Type 0} {n : ℕ} where
  Step-IsValid :
      {s t : System V} {vs : List (Option V)} (st : Step n s t)
      → Inv n s
      → IsValid vs s
      → IsValid (started st ++ vs) t
  unfolding started
  Step-IsValid (begin k num v q wf ne new) inv h =
      IsValid-round (IsValid-more (v ∷ []) h) k _ (λ p. here)
  Step-IsValid {s} (prepares k i d lt ne) inv h =
      IsValid-round (prepare_instance-IsValid h i (s.rnd k).num) k _
        (λ p. prepare-aimed h inv d k i ne)
  Step-IsValid (promote k q most) inv h = IsValid-round h k _ (λ p. h.aimed k (λ e. cc))
  Step-IsValid {s} (accepts k i d lt q) inv h =
      let aimed = h.aimed k (λ e. cc) in
      IsValid-round (accept_instance-IsValid h i (s.rnd k).num (s.rnd k).best.val aimed) k _
        (take_vote-aimed h d k i _)
  Step-IsValid (announce k q most) inv h = IsValid-sent h _ (h.aimed k (λ e. cc))
  Step-IsValid (relay i p) inv h = IsValid-sent h _ (h.settled i p)
  Step-IsValid {s} (decides i v p) inv h =
      unfold decide_instance in IsValid-acc h i _ (λ q. h.announced v p) (λ q. h.announced v p)

  Reach-IsValid : {s : System V} (r : Reach n s) → IsValid (proposed r) s
  unfolding proposed
  Reach-IsValid start = record {
    aimed = λ k p. absurd (p refl);
    accepted = λ i p. absurd (omega (arith, p, rank-nil));
    settled = λ i p. cc;
    announced = λ v p. elim p [ ];
  }
  Reach-IsValid (later r st) = Step-IsValid st (Reach-Inv r) (Reach-IsValid r)

  -- Validity: in a state reached from the start by any steps, the value of a peer that is not pending
  -- is one with which a round of the run began, if every round began with a number of its own.
  pub validity :
      {s : System V} (i : ℕ) (r : Reach n s)
      → is_pending (s.acc i).status ≡ false
      → Sent (s.acc i).v_a (proposed r)
  validity i r p = (Reach-IsValid r).settled i p
