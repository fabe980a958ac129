-- ===== src/Paxos/Protocol/Voting.antt =====
-- The loop of `SendAccept` of src/paxos/paxos.go in the protocol: a majority it reports is a majority of
-- votes that have arrived.
use distributed_systems_engi.Base.{
  ℕ, ◌+◌, ◌/◌, ◌<◌, ◌≤◌, ◌≡◌, ◌∙◌, refl, ap, ◌⊎◌, inl, inr, Bool, true, false, Option, some, List,
  [], ◌∷◌, arith, Bool-cases, ltb, Str, ◌==◌, nat_eq, ◌&&◌, ◌||◌, str_eq,
}
use distributed_systems_engi.Paxos.{AccReply, accept_instance, is_pending, Instance, bigger}
use distributed_systems_engi.Paxos.Proposer.{Accepted, collect_accepts}
use distributed_systems_engi.Paxos.Protocol.{System, Round, accepting, accepts, take_vote, Majority}
use distributed_systems_engi.Paxos.Protocol.Quorum.{update, update_self, count}
use distributed_systems_engi.Paxos.Protocol.Agreement.{Steps, stop, more}
use distributed_systems_engi.Paxos.Protocol.Proposing.{
  Others, ask_accept, Asks, asked, misses, goes_on, returns,
}
use distributed_systems_engi.Paxos.Protocol.Calls.{
  count_add, IsAhead, IsAhead-head, IsAhead-tail, IsAhead-add, Others-Steps, unheard, Steps-append,
  Outcome,
}

module _ {V : Type 0} where
  accept_refused :
      (num : Str) (val : Option V) (a : Instance V)
      → let (a', r) = accept_instance num val a in
        r.rejected ≡ true
        → (a' ≡ a) × (r.decided ≡ true → (is_pending a.status ≡ false) × (r.val ≡ a.v_a))
  unfolding accept_instance
  accept_refused num val a =
      elim (Bool-cases (is_pending a.status && (bigger num a.n_p || num == a.n_p))) [
        | inl granted ↦ rw granted (λ e. cc)
        | inr refused ↦ rw refused (λ e. (refl, λ d. (ground arith, ground arith)))
      ]

  take_vote-same :
      (d : Bool) (i : ℕ) (r : AccReply V) (rd : Round V)
      → ((take_vote d i r rd).phase ≡ rd.phase) × ((take_vote d i r rd).best ≡ rd.best)
  unfolding take_vote
  take_vote-same d i r rd = ground arith

  collect_accepts-goes_on :
      (n c : ℕ) (r : AccReply V) (rs : List (Option (AccReply V)))
      → r.rejected ≡ false
      → c + 1 ≤ n / 2
      → collect_accepts n c (some r ∷ rs) ≡ collect_accepts n (c + 1) rs
  unfolding collect_accepts
  collect_accepts-goes_on n c r rs granted few =
      let e : ltb (n / 2) (c + 1) ≡ false = ground arith in rw (granted, e) refl

module _ {V : Type 0} (n k : ℕ) where
  -- What the proposer keeps of a vote
  counted :
      (i : ℕ) (t : System V) (rd : Round V)
      → t.rnd k ≡ rd
      → (ask_accept k i t).1.rejected ≡ false
      → (ask_accept k i t).0.rnd k
        ≡ record rd { voted = update rd.voted i true; acked = update rd.acked i true }
  unfolding take_vote
  counted i t rd e granted = let g = rw e at granted in rw (update_self, e, g) refl

  -- After the loop of `SendAccept`, from a round `rd` that is collecting votes
  pub record Counted (rd : Round V) (s t : System V) (q : Accepted V) : Type 0 where
    pub outcome : Outcome n k s t q.announced
    pub phase : (t.rnd k).phase ≡ accepting
    pub best : (t.rnd k).best ≡ rd.best
    pub most : q.majority ≡ true → Majority n (t.rnd k).acked

  Counted-later :
      {rd rd' : Round V} {s t u : System V} {q : Accepted V}
      → Steps n s t
      → rd'.best ≡ rd.best
      → Counted rd' t u q
      → Counted rd s u q
  Counted-later st e h = record {
    outcome = record { steps = Steps-append st h.outcome.steps; relayed = h.outcome.relayed };
    phase = h.phase;
    best = h.best ∙ e;
    most = h.most;
  }

  ask_accept-Counted :
      {c i : ℕ} {s t : System V} (rd : Round V)
      → Others n k s t
      → t.rnd k ≡ rd
      → rd.phase ≡ accepting
      → i < n
      → rd.acked i ≡ false
      → c ≤ count rd.acked n
      → ((ask_accept k i t).1.rejected ≡ true) ⊎ (n / 2 < c + 1)
      → Counted rd s (ask_accept k i t).0 (collect_accepts n c (some (ask_accept k i t).1 ∷ []))
  unfolding collect_accepts
  ask_accept-Counted {c} {i} {s} {t} rd others e phase lt out le why =
      let r = (ask_accept k i t).1 in
      let steps = more (Others-Steps others) (accepts k i true lt (ap (λ x. x.phase) e ∙ phase)) in
      let now = update_self t.rnd k (take_vote true i r (t.rnd k)) in
      let (phase', best') = take_vote-same true i r (t.rnd k) in
      elim (Bool-cases r.rejected) [
        | inl refused ↦
            let (same, settled) =
              accept_refused (t.rnd k).num (t.rnd k).best.val (t.acc i) refused in
            let here = update_self t.acc i _ ∙ same in
            record {
              outcome = record {
                steps = steps;
                relayed = λ v told. (i, rw here (ground arith), rw here (ground arith));
              };
              phase = ap (λ x. x.phase) now ∙ phase' ∙ ap (λ x. x.phase) e ∙ phase;
              best = ap (λ x. x.best) now ∙ best' ∙ ap (λ x. x.best) e;
              most = λ m. cc (rw refused at m);
            }
        | inr granted ↦
            let enough : n / 2 < c + 1 = at_least why granted in
            let new = counted i t rd e granted in
            record {
              outcome = record {
                steps = steps;
                relayed = λ v told. absurd (ground (arith, granted, told));
              };
              phase = rw new phase;
              best = rw new refl;
              most = λ m. rw new (omega (arith, enough, count_add rd.acked i n lt out));
            }
      ]
    where
      at_least :
          ((ask_accept k i t).1.rejected ≡ true) ⊎ (n / 2 < c + 1)
          → (ask_accept k i t).1.rejected ≡ false
          → n / 2 < c + 1
      at_least (inl refused) granted = absurd (cc)
      at_least (inr enough) granted = enough

  pub Asks-Counted :
      {c : ℕ} {is : List ℕ} {s t : System V} {rs : List (Option (AccReply V))} (rd : Round V)
      → Asks n k (ask_accept k) (λ r. r.rejected) c is s rs t
      → s.rnd k ≡ rd
      → rd.phase ≡ accepting
      → IsAhead n rd.acked is
      → c ≤ count rd.acked n
      → Counted rd s t (collect_accepts n c rs)
  unfolding collect_accepts
  Asks-Counted rd asked e phase ahead le = record {
    outcome = record { steps = stop; relayed = λ v told. cc };
    phase = rw e phase;
    best = rw e refl;
    most = λ m. cc;
  }
  Asks-Counted rd (misses others rest) e phase ahead le =
      Counted-later (Others-Steps others) refl
        (Asks-Counted _ rest (unheard rd others e) phase (IsAhead-tail ahead) le)
  Asks-Counted rd (goes_on {c} {i} {t} {rs} others granted few rest) e phase ahead le =
      let same = unheard rd others e in
      let (lt, out) = IsAhead-head ahead in
      let new = counted i t _ same granted in
      let count' = count_add rd.acked i n lt out in
      let step =
        more (Others-Steps others) (accepts k i true lt (ap (λ x. x.phase) same ∙ phase)) in
      rw (collect_accepts-goes_on n c (ask_accept k i t).1 rs granted few) (
        Counted-later step refl
          (Asks-Counted _ rest new phase (IsAhead-add ahead) (omega (arith, le, count'))))
  Asks-Counted rd (returns others why) e phase ahead le =
      let (lt, out) = IsAhead-head ahead in
      Counted-later stop refl
        (ask_accept-Counted _ others (unheard rd others e) phase lt out le why)
