-- ===== src/Paxos/Protocol/Proposing.antt =====
-- The proposer of src/paxos/paxos.go at work in the protocol: the calls that the loops of `SendPrepare`
-- and `SendAccept` make of the peers, with whatever the others do in between.
use distributed_systems_engi.Base.{
  ℕ, ◌+◌, ◌/◌, ◌<◌, ◌≤◌, ◌≡◌, ◌⊎◌, Bool, true, false, Option, none, some, List, [], ◌∷◌,
}
use distributed_systems_engi.Paxos.{PreReply, AccReply, prepare_instance, accept_instance}
use distributed_systems_engi.Paxos.Protocol.{System, Step, take_promise, take_vote}
use distributed_systems_engi.Paxos.Protocol.Quorum.{update}

-- Round `k` is the same in both states, but for the votes.
abbrev pub IsUnheard : {V : Type 0} → ℕ → System V → System V → Type 0
IsUnheard k s t = t.rnd k ≡ record (s.rnd k) { voted = (t.rnd k).voted }

-- Steps that leave what the proposer of round `k` knows as it is: those of the other rounds, of
-- decisions, and of requests of round `k` whose reply is lost. Who has voted for the round the
-- proposer does not know before the reply.
pub data Others {V : Type 0} (n k : ℕ) (s : System V) : System V → Type 0 where
  nothing : Others n k s s
  other : {t u : System V} → Others n k s t → Step n t u → IsUnheard k t u → Others n k s u

module _ {V : Type 0} where
  -- The call of `Prepare` at peer `i` that is answered: the state after it, and the reply
  abbrev pub ask_prepare : ℕ → ℕ → System V → System V × PreReply V
  ask_prepare k i s =
      let (a, r) = prepare_instance (s.rnd k).num (s.acc i) in
      (
        record s { acc = update s.acc i a; rnd = update s.rnd k (take_promise true i r (s.rnd k)) },
        r,
      )

  -- The call of `Accept` at peer `i` that is answered
  abbrev pub ask_accept : ℕ → ℕ → System V → System V × AccReply V
  ask_accept k i s =
      let (a, r) = accept_instance (s.rnd k).num (s.rnd k).best.val (s.acc i) in
      (record s { acc = update s.acc i a; rnd = update s.rnd k (take_vote true i r (s.rnd k)) }, r)

  -- The calls of one loop after `c` grants, at the peers of the list: the replies, and the state
  -- after the last. It ends with the list, with the grant that makes a majority, or with a refusal.
  pub data Asks {R : Type 0} (n k : ℕ) (ask : ℕ → System V → System V × R) (rejected : R → Bool)
      : ℕ → List ℕ → System V → List (Option R) → System V → Type 0 where
    asked : {c : ℕ} {s : System V} → Asks n k ask rejected c [] s [] s
    misses :
        {c i : ℕ} {is : List ℕ} {s t u : System V} {rs : List (Option R)}
        → Others n k s t
        → Asks n k ask rejected c is t rs u
        → Asks n k ask rejected c (i ∷ is) s (none ∷ rs) u
    goes_on :
        {c i : ℕ} {is : List ℕ} {s t u : System V} {rs : List (Option R)}
        → Others n k s t
        → rejected (ask i t).1 ≡ false
        → c + 1 ≤ n / 2
        → Asks n k ask rejected (c + 1) is (ask i t).0 rs u
        → Asks n k ask rejected c (i ∷ is) s (some (ask i t).1 ∷ rs) u
    returns :
        {c i : ℕ} {is : List ℕ} {s t : System V}
        → Others n k s t
        → (rejected (ask i t).1 ≡ true) ⊎ (n / 2 < c + 1)
        → Asks n k ask rejected c (i ∷ is) s (some (ask i t).1 ∷ []) (ask i t).0
