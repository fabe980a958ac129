-- ===== src/Paxos/Protocol/Tests.antt =====
-- A run of the protocol among two peers, and agreement in it.
use distributed_systems_engi.Base.{
  ℕ, ◌≡◌, ◌≢◌, refl, true, some, [], ◌∷◌, arith, ne_of_test, str_eq, beq_str, split, itoa, atoi,
}
use distributed_systems_engi.Paxos.{
  number, numbered, prepare_instance, accept_instance, decide_instance, bigger,
}
use distributed_systems_engi.Paxos.Proposer.{note_promise}
use distributed_systems_engi.Paxos.Protocol.{
  System, idle, preparing, begin, prepares, promote, accepts, announce, decides, take_promise,
  take_vote, Sent, here, Reach, start, later,
}
use distributed_systems_engi.Paxos.Protocol.Quorum.{count}
use distributed_systems_engi.Paxos.Protocol.Agreement.{Steps, stop, more, agreement}
use distributed_systems_engi.Paxos.Protocol.Validity.{proposed, started, validity}

pub preparing-ne-idle : preparing ≢ idle
preparing-ne-idle e = cc

-- Round 0 has the number "0_5" and the value 7; both peers grant all of it, and peer 0 decides.
abbrev pub first : (s : System ℕ) × Reach 2 s
unfolding prepare_instance accept_instance decide_instance bigger note_promise take_promise
    take_vote count beq_str split itoa atoi
first = (
  _,
  later
      (later
        (later
          (later
            (later
              (later
                (later
                  (later start (
                    begin 0 (number 0 5) (some 7) refl (numbered 0 5 (omega arith) (omega arith))
                      (ne_of_test _ _ refl) (λ j. ne_of_test _ _ refl)))
                  (prepares 0 0 true (omega arith) preparing-ne-idle))
                (prepares 0 1 true (omega arith) preparing-ne-idle))
              (promote 0 refl (omega arith)))
            (accepts 0 0 true (omega arith) refl))
          (accepts 0 1 true (omega arith) refl))
        (announce 0 refl (omega arith)))
      (decides 0 (some 7) here),
)

-- Peer 1 decides later.
abbrev second : (s : System ℕ) × Steps 2 first.0 s
unfolding prepare_instance accept_instance decide_instance bigger note_promise take_promise
    take_vote count beq_str split itoa atoi
second = (_, more stop (decides 1 (some 7) here))

agreement_example : (second.0.acc 1).v_a ≡ (first.0.acc 0).v_a
unfolding prepare_instance accept_instance decide_instance bigger note_promise take_promise
    take_vote count beq_str split itoa atoi
agreement_example = agreement 0 1 first.1 second.1 refl refl

validity_example : Sent {V = ℕ} (some 7) (some 7 ∷ [])
unfolding prepare_instance accept_instance decide_instance bigger note_promise take_promise
    take_vote count beq_str split itoa atoi proposed started
validity_example = validity 0 first.1 refl
