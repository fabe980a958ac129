-- ===== src/Paxos/Protocol/Promising.antt =====
-- The loop of `SendPrepare` of src/paxos/paxos.go in the protocol: a majority it reports is a majority
-- of promises, and the value it returns is that of the round.
use distributed_systems_engi.Base.{
  ℕ, ◌+◌, ◌/◌, ◌<◌, ◌≤◌, ◌≡◌, ◌∙◌, refl, ap, ◌⊎◌, inl, inr, Bool, true, false, Option, some, List,
  [], ◌∷◌, arith, Bool-cases, ltb, Str, nat_eq, ◌&&◌, str_eq,
}
use distributed_systems_engi.Paxos.{PreReply, prepare_instance, is_pending, Instance, bigger}
use distributed_systems_engi.Paxos.Proposer.{Best, Prepared, note_promise, collect_promises}
use distributed_systems_engi.Paxos.Protocol.{
  System, Round, preparing, prepares, take_promise, Majority,
}
use distributed_systems_engi.Paxos.Protocol.Quorum.{update, update_self, count}
use distributed_systems_engi.Paxos.Protocol.Agreement.{Steps, stop, more}
use distributed_systems_engi.Paxos.Protocol.Proposing.{
  Others, ask_prepare, Asks, asked, misses, goes_on, returns,
}
use distributed_systems_engi.Paxos.Protocol.Calls.{
  count_add, IsAhead, IsAhead-head, IsAhead-tail, IsAhead-add, Others-Steps, unheard, Steps-append,
  Outcome,
}

module _ {V : Type 0} where
  -- A refused `Prepare` changes nothing, and says so if the instance is not pending.
  prepare_refused :
      (num : Str) (a : Instance V)
      → let (a', r) = prepare_instance num a in
        r.rejected ≡ true
        → (a' ≡ a) × (r.val ≡ a.v_a) × (r.decided ≡ true → is_pending a.status ≡ false)
  unfolding prepare_instance
  prepare_refused num a = elim (Bool-cases (is_pending a.status && bigger num a.n_p)) [
    | inl granted ↦ rw granted (λ e. cc)
    | inr refused ↦ rw refused (λ e. (refl, refl, λ d. ground arith))
  ]

  take_promise-phase :
      (d : Bool) (i : ℕ) (r : PreReply V) (rd : Round V) → (take_promise d i r rd).phase ≡ rd.phase
  unfolding take_promise
  take_promise-phase d i r rd = ground arith

module _ {V : Type 0} (n k : ℕ) where
  -- What the proposer keeps of a reply of `Prepare`
  taken :
      (i : ℕ) (t : System V) (rd : Round V)
      → t.rnd k ≡ rd
      → rd.phase ≡ preparing
      → (ask_prepare k i t).1.rejected ≡ false
      → (ask_prepare k i t).0.rnd k ≡ record rd {
        promised = update rd.promised i true;
        best = note_promise (ask_prepare k i t).1 rd.best;
      }
  unfolding take_promise
  taken i t rd e phase granted = let g = rw e at granted in rw (update_self, e, phase, g) refl

  collect_promises-goes_on :
      (n_p : Str) (c : ℕ) (best : Best V) (r : PreReply V) (rs : List (Option (PreReply V)))
      → r.rejected ≡ false
      → c + 1 ≤ n / 2
      → collect_promises n n_p c best (some r ∷ rs)
        ≡ collect_promises n n_p (c + 1) (note_promise r best) rs
  unfolding collect_promises
  collect_promises-goes_on n_p c best r rs granted few =
      let e : ltb (n / 2) (c + 1) ≡ false = ground arith in rw (granted, e) refl

module _ {V : Type 0} (n k : ℕ) (n_p : Str) where
  -- After the loop of `SendPrepare`, from a round `rd` that is collecting promises
  pub record Promised (s t : System V) (p : Prepared V) : Type 0 where
    pub outcome : Outcome n k s t p.announced
    pub phase : (t.rnd k).phase ≡ preparing
    pub most : p.majority ≡ true → ((t.rnd k).best.val ≡ p.v_a) × Majority n (t.rnd k).promised

  pub Promised-later :
      {s t u : System V} {p : Prepared V} → Steps n s t → Promised t u p → Promised s u p
  Promised-later st h = record {
    outcome = record { steps = Steps-append st h.outcome.steps; relayed = h.outcome.relayed };
    phase = h.phase;
    most = h.most;
  }

  ask_prepare-Promised :
      {c i : ℕ} {s t : System V} (rd : Round V)
      → Others n k s t
      → t.rnd k ≡ rd
      → rd.phase ≡ preparing
      → i < n
      → rd.promised i ≡ false
      → c ≤ count rd.promised n
      → ((ask_prepare k i t).1.rejected ≡ true) ⊎ (n / 2 < c + 1)
      → Promised s
          (ask_prepare k i t).0
          (collect_promises n n_p c rd.best (some (ask_prepare k i t).1 ∷ []))
  unfolding collect_promises
  ask_prepare-Promised {c} {i} {s} {t} rd others e phase lt out le stop' =
      let r = (ask_prepare k i t).1 in
      let steps = more (Others-Steps others) (prepares k i true lt (λ q. cc)) in
      elim (Bool-cases r.rejected) [
        | inl refused ↦
            let (same, val, settled) = prepare_refused (t.rnd k).num (t.acc i) refused in
            let here = update_self t.acc i (prepare_instance (t.rnd k).num (t.acc i)).0 ∙ same in
            record {
              outcome = record {
                steps = steps;
                relayed = λ v told. (i, rw here (ground arith), rw here (ground arith));
              };
              phase =
                  ap (λ x. x.phase) (update_self t.rnd k (take_promise true i r (t.rnd k)))
                  ∙ take_promise-phase true i r (t.rnd k)
                  ∙ ap (λ x. x.phase) e
                  ∙ phase;
              most = λ m. cc (rw refused at m);
            }
        | inr granted ↦
            let enough : n / 2 < c + 1 = at_least stop' granted in
            let new = taken n k i t rd e phase granted in
            record {
              outcome = record {
                steps = steps;
                relayed = λ v told. absurd (ground (arith, granted, told));
              };
              phase = rw new phase;
              most =
                  λ m. rw new (ground (arith, granted, enough, count_add rd.promised i n lt out));
            }
      ]
    where
      at_least :
          ((ask_prepare k i t).1.rejected ≡ true) ⊎ (n / 2 < c + 1)
          → (ask_prepare k i t).1.rejected ≡ false
          → n / 2 < c + 1
      at_least (inl refused) granted = absurd (cc)
      at_least (inr enough) granted = enough

  pub Asks-Promised :
      {c : ℕ} {is : List ℕ} {s t : System V} {rs : List (Option (PreReply V))} (rd : Round V)
      → Asks n k (ask_prepare k) (λ r. r.rejected) c is s rs t
      → s.rnd k ≡ rd
      → rd.phase ≡ preparing
      → IsAhead n rd.promised is
      → c ≤ count rd.promised n
      → Promised s t (collect_promises n n_p c rd.best rs)
  unfolding collect_promises
  Asks-Promised rd asked e phase ahead le = record {
    outcome = record { steps = stop; relayed = λ v told. cc };
    phase = rw e phase;
    most = λ m. cc;
  }
  Asks-Promised rd (misses others rest) e phase ahead le =
      Promised-later (Others-Steps others)
        (Asks-Promised _ rest (unheard rd others e) phase (IsAhead-tail ahead) le)
  Asks-Promised rd (goes_on {c} {i} {t} {rs} others granted few rest) e phase ahead le =
      let same = unheard rd others e in
      let (lt, out) = IsAhead-head ahead in
      let new = taken n k i t _ same phase granted in
      let count' = count_add rd.promised i n lt out in
      let step = more (Others-Steps others) (prepares k i true lt (λ q. cc)) in
      Promised-later step (
        rw (collect_promises-goes_on n k n_p c rd.best (ask_prepare k i t).1 rs granted few)
          (Asks-Promised _ rest new phase (IsAhead-add ahead) (omega (arith, le, count'))))
  Asks-Promised rd (returns others why) e phase ahead le =
      let (lt, out) = IsAhead-head ahead in
      ask_prepare-Promised _ others (unheard rd others e) phase lt out le why
