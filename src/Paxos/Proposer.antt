-- ===== src/Paxos/Proposer.antt =====
-- The proposer of src/paxos/paxos.go: `SendPrepare`, `SendAccept` and the loop of `Propose`. The
-- replies come as lists, in the order in which the peers are asked: `none` where every try failed.
use distributed_systems_engi.Base.{
  ℕ, ◌+◌, ◌/◌, Bool, true, false, not, Option, none, some, List, [], ◌∷◌, ltb, Str, if◌then◌else◌,
}
use distributed_systems_engi.Paxos.{PreReply, AccReply, bigger, get_proposal_num}

-- The highest accepted number that a promise has shown so far, and its value.
pub record Best (V : Type 0) : Type 0 where
  pub num : Str
  pub val : Option V

-- What `SendPrepare` returns, and the value with which it calls `SendDecide`, if it does.
pub record Prepared (V : Type 0) : Type 0 where
  pub majority : Bool
  pub decided : Bool
  pub n_p : Str
  pub v_a : Option V
  pub announced : Option (Option V)

-- What `SendAccept` returns, and the value with which it calls `SendDecide`, if it does.
pub record Accepted (V : Type 0) : Type 0 where
  pub majority : Bool
  pub decided : Bool
  pub announced : Option (Option V)

-- One round of the loop of `Propose`: the clock at `GetProposalNum`, and the replies.
pub record Attempt (V : Type 0) : Type 0 where
  pub now : ℕ
  pub promises : List (Option (PreReply V))
  pub accepts : List (Option (AccReply V))

module _ {V : Type 0} where
  unfoldable pub note_promise : PreReply V → Best V → Best V
  note_promise r b = if bigger r.num b.num then record { num = r.num; val = r.val } else b

  -- The loop of `SendPrepare` among `peers` peers, after `count` promises
  unfoldable pub collect_promises : ℕ → Str → ℕ → Best V → List (Option (PreReply V)) → Prepared V
  collect_promises peers n_p count best [] = record {
    majority = false;
    decided = false;
    n_p = n_p;
    v_a = best.val;
    announced = none;
  }
  collect_promises peers n_p count best (none ∷ rs) = collect_promises peers n_p count best rs
  collect_promises peers n_p count best (some r ∷ rs) =
      let best' = note_promise r best in
      let rest = collect_promises peers n_p (count + 1) best' rs in
      if not r.rejected
      then (if ltb (peers / 2) (count + 1)
          then record {
            majority = true;
            decided = false;
            n_p = n_p;
            v_a = best'.val;
            announced = none;
          }
          else rest)
      else record {
        majority = false;
        decided = r.decided;
        n_p = if bigger r.n_p n_p then r.n_p else n_p;
        v_a = best.val;
        announced = if r.decided then some r.val else none;
      }

  unfoldable pub send_prepare : ℕ → Option V → Str → List (Option (PreReply V)) → Prepared V
  unfolding collect_promises
  send_prepare peers v n_p rs = collect_promises peers n_p 0 (record { num = []; val = v }) rs

  unfoldable pub collect_accepts : ℕ → ℕ → List (Option (AccReply V)) → Accepted V
  collect_accepts peers count [] = record { majority = false; decided = false; announced = none }
  collect_accepts peers count (none ∷ rs) = collect_accepts peers count rs
  collect_accepts peers count (some r ∷ rs) =
      let rest = collect_accepts peers (count + 1) rs in
      if not r.rejected
      then (if ltb (peers / 2) (count + 1)
          then record { majority = true; decided = false; announced = none }
          else rest)
      else record {
        majority = false;
        decided = r.decided;
        announced = if r.decided then some r.val else none;
      }

  unfoldable pub send_accept : ℕ → List (Option (AccReply V)) → Accepted V
  unfolding collect_accepts
  send_accept peers rs = collect_accepts peers 0 rs

  abbrev pub announce : Option (Option V) → List (Option V) → List (Option V)
  announce none vs = vs
  announce (some v) vs = v ∷ vs

  -- `Propose` for the value `v`, with the number of the round before: the values with which it
  -- calls `SendDecide`, in order. The rounds end where the peer is dead.
  unfoldable pub propose : ℕ → ℕ → Option V → Str → List (Attempt V) → List (Option V)
  unfolding send_prepare send_accept
  propose peers me v n_p [] = []
  propose peers me v n_p (a ∷ as') =
      let p = send_prepare peers v (get_proposal_num peers me a.now n_p) a.promises in
      let q = send_accept peers a.accepts in
      let rest = propose peers me v p.n_p as' in
      announce p.announced (
        if p.decided
        then []
        else if p.majority
        then announce q.announced
            (if q.decided then [] else if q.majority then p.v_a ∷ [] else rest)
        else rest)
