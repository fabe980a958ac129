-- ===== src/Paxos/Protocol/Passes.antt =====
-- One pass of the loop of `Propose` of src/paxos/paxos.go: the calls it makes in the protocol, and what
-- it announces, by the results of its two loops.
use distributed_systems_engi.Base.{
  occurs, ℕ, ◌≡◌, ◌≢◌, refl, true, false, Option, none, some, List, [], ◌∷◌, ◌+◌, arith, ltb, Str,
  if◌then◌else◌,
}
use distributed_systems_engi.Paxos.{PreReply, AccReply, IsNum, get_proposal_num}
use distributed_systems_engi.Paxos.Proposer
use distributed_systems_engi.Paxos.Proposer.{
  Best, note_promise, Attempt, Prepared, Accepted, collect_promises, collect_accepts, send_prepare,
  send_accept, propose,
}
use distributed_systems_engi.Paxos.Protocol.{System, idle, accepting, begin_round}
use distributed_systems_engi.Paxos.Protocol.Quorum.{update}
use distributed_systems_engi.Paxos.Protocol.Proposing.{ask_prepare, ask_accept, Asks}

-- An order in which the peers are asked: each of the `n` once.
abbrev pub IsOrder : ℕ → List ℕ → Type 0
IsOrder n is = (x : ℕ) → occurs x is ≡ (if ltb x n then 1 else 0)

module _ {V : Type 0} where
  -- Round `k` begins with `num`.
  abbrev pub after_begin : ℕ → Str → Option V → System V → System V
  after_begin k num v s = record s { rnd = update s.rnd k (begin_round num v) }

  abbrev pub after_promote : ℕ → System V → System V
  after_promote k s = record s { rnd = update s.rnd k (record (s.rnd k) { phase = accepting }) }

  -- Round `k` of peer `me` begins, with a number that no round has, and makes the calls of
  -- `SendPrepare`; the replies are those of `a`.
  pub record Prepares (n me k : ℕ) (v : Option V) (n_p : Str) (a : Attempt V) (s t : System V)
      : Type 0 where
    pub num : Str
    pub is_num : num ≡ get_proposal_num n me a.now n_p
    pub unused : (s.rnd k).phase ≡ idle
    pub wf : IsNum num
    pub some_num : num ≢ []
    pub new : (j : ℕ) → (s.rnd j).num ≢ num
    pub peers : List ℕ
    pub order : IsOrder n peers
    pub calls :
        Asks n k (ask_prepare k) (λ r. r.rejected) 0 peers (after_begin k num v s) a.promises t

  -- One pass of the loop of `Propose`: the calls of `SendAccept` follow if there is a majority.
  pub data Pass (n me k : ℕ) (v : Option V) (n_p : Str) (a : Attempt V) (s : System V)
      : System V → Type 0 where
    fails :
        {t : System V} (p : Prepares n me k v n_p a s t)
        → (send_prepare n v p.num a.promises).majority ≡ false
        → Pass n me k v n_p a s t
    goes_on :
        {t u : System V} {is : List ℕ} (p : Prepares n me k v n_p a s t)
        → (send_prepare n v p.num a.promises).majority ≡ true
        → IsOrder n is
        → Asks n k (ask_accept k) (λ r. r.rejected) 0 is (after_promote k t) a.accepts u
        → Pass n me k v n_p a s u

  -- A majority comes without a decision.
  collect_promises-open :
      (n : ℕ) (n_p : Str) (c : ℕ) (best : Best V) (rs : List (Option (PreReply V)))
      → let p = collect_promises n n_p c best rs in
        (p.majority ≡ true → (p.decided ≡ false) × (p.announced ≡ none))
        × (p.decided ≡ false → p.announced ≡ none)
  unfolding collect_promises
  collect_promises-open n n_p c best [] = (λ e. cc, λ e. refl)
  collect_promises-open n n_p c best (none ∷ rs) = collect_promises-open n n_p c best rs
  collect_promises-open n n_p c best (some r ∷ rs) =
      ground (arith, collect_promises-open n n_p (c + 1) (note_promise r best) rs)

  collect_accepts-open :
      (n c : ℕ) (rs : List (Option (AccReply V)))
      → let q = collect_accepts n c rs in
        (q.majority ≡ true → (q.decided ≡ false) × (q.announced ≡ none))
        × (q.decided ≡ false → q.announced ≡ none)
  unfolding collect_accepts
  collect_accepts-open n c [] = (λ e. cc, λ e. refl)
  collect_accepts-open n c (none ∷ rs) = collect_accepts-open n c rs
  collect_accepts-open n c (some r ∷ rs) = ground (arith, collect_accepts-open n (c + 1) rs)

module _ {V : Type 0} (n me : ℕ) (v : Option V) (n_p num : Str) (a : Attempt V)
    (e : num ≡ get_proposal_num n me a.now n_p) where
  abbrev prepared : Prepared V
  prepared = send_prepare n v num a.promises

  abbrev accepted : Accepted V
  accepted = send_accept n a.accepts

  prepared-open :
      prepared.majority ≡ true → (prepared.decided ≡ false) × (prepared.announced ≡ none)
  unfolding send_prepare
  prepared-open = (collect_promises-open n num 0 (record { num = []; val = v }) a.promises).0

  accepted-open :
      accepted.majority ≡ true → (accepted.decided ≡ false) × (accepted.announced ≡ none)
  unfolding send_accept
  accepted-open = (collect_accepts-open n 0 a.accepts).0

  pub propose-fails :
      prepared.majority ≡ false
      → propose n me v n_p (a ∷ []) ≡ Proposer.announce prepared.announced []
  unfolding propose
  propose-fails few = rw (← e, few) (ground arith)

  pub propose-heard :
      prepared.majority ≡ true
      → accepted.majority ≡ false
      → propose n me v n_p (a ∷ []) ≡ Proposer.announce accepted.announced []
  unfolding propose
  propose-heard most lost =
      let (open', silent) = prepared-open most in rw (← e, most, open', silent, lost) (ground arith)

  pub propose-accepted :
      prepared.majority ≡ true
      → accepted.majority ≡ true
      → propose n me v n_p (a ∷ []) ≡ prepared.v_a ∷ []
  unfolding propose
  propose-accepted most chosen =
      let (open', silent) = prepared-open most in
      let (open'', silent') = accepted-open chosen in
      rw (← e, most, open', silent, chosen, open'', silent') refl
