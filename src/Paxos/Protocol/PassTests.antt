-- ===== src/Paxos/Protocol/PassTests.antt =====
-- Passes of the loop of `Propose` among two peers, and what they announce.
use mathlib.Core.Path.{subst}
use distributed_systems_engi.Base.{
  occurs, ℕ_discrete, eqb, ℕ, ◌≡◌, ◌≢◌, refl, true, false, some, none, List, [], ◌∷◌, All, arith,
  ne_of_test, inl, inr, str_eq, beq_str, split, itoa, atoi, ==-iff, nat_eq,
}
use distributed_systems_engi.Paxos.{
  PreReply, AccReply, number, numbered, get_proposal_num, prepare_instance, accept_instance,
  decide_instance, bigger,
}
use distributed_systems_engi.Paxos.Proposer.{
  Attempt, note_promise, send_prepare, send_accept, collect_promises, collect_accepts, propose,
}
use distributed_systems_engi.Paxos.Protocol.{System, init, take_promise, take_vote, Sent, start}
use distributed_systems_engi.Paxos.Protocol.Quorum.{count}
use distributed_systems_engi.Paxos.Protocol.Agreement.{Steps}
use distributed_systems_engi.Paxos.Protocol.Proposing.{nothing, returns, misses, asked}
use distributed_systems_engi.Paxos.Protocol.Calls.{lost_vote-Others}
use distributed_systems_engi.Paxos.Protocol.Proposing
use distributed_systems_engi.Paxos.Protocol.Passes.{IsOrder, Pass, fails, goes_on}
use distributed_systems_engi.Paxos.Protocol.Refinement.{propose-Sent, propose-agrees}
use distributed_systems_engi.Paxos.Protocol.Tests.{first}

-- The first pass of peer 0, asking peer 1 first, with every call granted.
abbrev granted : Attempt ℕ
granted = record {
  now = 5;
  promises = some yes_prepare ∷ some yes_prepare ∷ [];
  accepts = some yes_accept ∷ some yes_accept ∷ [];
}
  where
    yes_prepare : PreReply ℕ
    yes_prepare = record { num = []; val = none; rejected = false; decided = false; n_p = [] }

    yes_accept : AccReply ℕ
    yes_accept = record { rejected = false; decided = false; val = none }

abbrev order : List ℕ
order = 1 ∷ 0 ∷ []

order-IsOrder : IsOrder 2 order
unfolding occurs
order-IsOrder x = ground (arith, ==-iff 1 x, ==-iff 0 x)

-- Round 0 of peer 0: all is granted.
abbrev pass : (t : System ℕ) × Pass 2 0 0 (some 7) [] granted init t
unfolding prepare_instance accept_instance decide_instance bigger note_promise take_promise
    take_vote count beq_str split itoa atoi get_proposal_num send_prepare send_accept
    collect_promises collect_accepts propose
pass = (
  _,
  goes_on {is = order}
      (record {
        num = number 0 5;
        is_num = refl;
        unused = refl;
        wf = numbered 0 5 (omega arith) (omega arith);
        some_num = ne_of_test _ _ refl;
        new = λ j. ne_of_test _ _ refl;
        peers = order;
        order = order-IsOrder;
        calls = Proposing.goes_on nothing refl (omega arith) (returns nothing (inr (omega arith)));
      })
      refl order-IsOrder
      (Proposing.goes_on nothing refl (omega arith) (returns nothing (inr (omega arith)))),
)

propose-Sent_example : (u : System ℕ) × Steps 2 init u × All (λ w. Sent w u.sent) (some 7 ∷ [])
unfolding prepare_instance accept_instance decide_instance bigger note_promise take_promise
    take_vote count beq_str split itoa atoi get_proposal_num send_prepare send_accept
    collect_promises collect_accepts propose
propose-Sent_example = propose-Sent start pass.1

-- The same, but the reply of the second Accept is lost: the peer has granted it.
abbrev lossy : Attempt ℕ
lossy = record granted {
  accepts = some (record { rejected = false; decided = false; val = none }) ∷ none ∷ [];
}

lossy_pass : (t : System ℕ) × Pass 2 0 0 (some 7) [] lossy init t × ((t.acc 0).v_a ≡ some 7)
unfolding prepare_instance accept_instance decide_instance bigger note_promise take_promise
    take_vote count beq_str split itoa atoi get_proposal_num send_prepare send_accept
    collect_promises collect_accepts propose
lossy_pass = (
  _,
  goes_on {is = order}
      (record {
        num = number 0 5;
        is_num = refl;
        unused = refl;
        wf = numbered 0 5 (omega arith) (omega arith);
        some_num = ne_of_test _ _ refl;
        new = λ j. ne_of_test _ _ refl;
        peers = order;
        order = order-IsOrder;
        calls = Proposing.goes_on nothing refl (omega arith) (returns nothing (inr (omega arith)));
      })
      refl order-IsOrder
      (Proposing.goes_on nothing refl (omega arith)
        (misses (lost_vote-Others 0 nothing (omega arith) refl) asked)),
  refl,
)

-- Peer 1 promises with what it has accepted, and peer 0 has decided.
abbrev too_late : Attempt ℕ
too_late = record {
  now = 6;
  promises =
      some (record {
        num = number 0 5;
        val = some 7;
        rejected = false;
        decided = false;
        n_p = number 0 5;
      })
      ∷ some (record {
        num = number 0 5;
        val = some 7;
        rejected = true;
        decided = true;
        n_p = number 0 5;
      })
      ∷ [];
  accepts = [];
}

other_num : (j : ℕ) → (first.0.rnd j).num ≢ number 1 6
unfolding prepare_instance accept_instance decide_instance bigger note_promise take_promise
    take_vote count beq_str split itoa atoi
other_num j = elim (ℕ_discrete 0 j) [
  | yes e ↦ subst (λ i. (first.0.rnd i).num ≢ number 1 6) e (ne_of_test _ _ refl)
  | no ne ↦ let e : eqb 0 j ≡ false = ground arith in rw e (ne_of_test _ _ refl)
]

-- Round 1 of peer 1, with the value 9, after peer 0 has decided the value 7.
abbrev late_pass : (t : System ℕ) × Pass 2 1 1 (some 9) [] too_late first.0 t
unfolding prepare_instance accept_instance decide_instance bigger note_promise take_promise
    take_vote count beq_str split itoa atoi get_proposal_num send_prepare send_accept
    collect_promises collect_accepts propose
late_pass = (
  _,
  fails
      (record {
        num = number 1 6;
        is_num = refl;
        unused = refl;
        wf = numbered 1 6 (omega arith) (omega arith);
        some_num = ne_of_test _ _ refl;
        new = other_num;
        peers = order;
        order = order-IsOrder;
        calls = Proposing.goes_on nothing refl (omega arith) (returns nothing (inl refl));
      })
      refl,
)

propose-agrees_example : All (λ w. w ≡ some 7) (propose 2 1 (some 9) [] (too_late ∷ []))
unfolding prepare_instance accept_instance decide_instance bigger note_promise take_promise
    take_vote count beq_str split itoa atoi get_proposal_num send_prepare send_accept
    collect_promises collect_accepts propose
propose-agrees_example = propose-agrees 0 first.1 refl late_pass.1
