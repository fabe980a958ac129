-- ===== src/Paxos/Protocol.antt =====
-- One instance of agreement among `n` peers, as interleaved steps (src/paxos/paxos.go). A round is one
-- pass of the loop of `Propose` at some peer; a step is one handler run at one peer for a round, with
-- its reply delivered or lost, or one decision of a proposer. Requests may be served late, more than
-- once, or never. Instances are not forgotten here, and a clash of numbers is excluded at `begin`.
pub mod Quorum
pub mod Invariant
mod Moves
mod Steps
mod Replies
mod Serve
pub mod Agreement
mod Validity
pub mod Proposing
mod Calls
mod Promising
mod Voting
pub mod Passes
pub mod Refinement
mod Tests
mod PassTests
use distributed_systems_engi.Base.{
  ℕ, ◌/◌, ◌<◌, ◌≡◌, ◌≢◌, Bool, true, false, not, ◌&&◌, Option, List, [], ◌∷◌, eqb, Str,
  if◌then◌else◌,
}
use distributed_systems_engi.Paxos.{
  Instance, PreReply, AccReply, fresh, pending, is_pending, prepare_instance, accept_instance,
  decide_instance, IsNum,
}
use distributed_systems_engi.Paxos.Proposer.{Best, note_promise}
use distributed_systems_engi.Paxos.Protocol.Quorum.{update, count}

pub data Phase : Type 0 where
  idle preparing accepting : Phase

abbrev pub is_preparing : Phase → Bool
is_preparing preparing = true
is_preparing _ = false

-- `promised` and `acked` are the peers whose grants the proposer has received; `voted` are those
-- that granted its Accept, received or not, which no code keeps.
pub record Round (V : Type 0) : Type 0 where
  pub phase : Phase
  pub num : Str
  pub best : Best V
  pub promised : ℕ → Bool
  pub acked : ℕ → Bool
  pub voted : ℕ → Bool

pub record System (V : Type 0) : Type 0 where
  pub acc : ℕ → Instance V
  pub rnd : ℕ → Round V
  pub sent : List (Option V)

-- `RecvCount > len(px.peers)/2`
abbrev pub Majority : ℕ → (ℕ → Bool) → Type 0
Majority n f = n / 2 < count f n

module _ {V : Type 0} where
  abbrev pub no_round : Round V
  no_round = record {
    phase = idle;
    num = [];
    best = record { num = []; val = Option.none };
    promised = λ i. false;
    acked = λ i. false;
    voted = λ i. false;
  }

  -- No peer knows of the instance, and no round has begun.
  abbrev pub init : System V
  init = record { acc = λ i. fresh; rnd = λ k. no_round; sent = [] }

  abbrev pub begin_round : Str → Option V → Round V
  begin_round num v = record {
    phase = preparing;
    num = num;
    best = record { num = []; val = v };
    promised = λ i. false;
    acked = λ i. false;
    voted = λ i. false;
  }

  -- The proposer takes a promise of peer `i` while it collects promises.
  unfoldable pub take_promise : Bool → ℕ → PreReply V → Round V → Round V
  take_promise delivered i r k =
      if delivered && (is_preparing k.phase && not r.rejected)
      then record k { promised = update k.promised i true; best = note_promise r k.best }
      else k

  -- The vote of peer `i` on an Accept, and the proposer's count of it.
  unfoldable pub take_vote : Bool → ℕ → AccReply V → Round V → Round V
  take_vote delivered i r k =
      if not r.rejected
      then record k {
        voted = update k.voted i true;
        acked = if delivered then update k.acked i true else k.acked;
      }
      else k

  pub data Sent (v : Option V) : List (Option V) → Type 0 where
    here : {vs : List (Option V)} → Sent v (v ∷ vs)
    there : {w : Option V} {vs : List (Option V)} → Sent v vs → Sent v (w ∷ vs)

  pub data Step (n : ℕ) (s : System V) : System V → Type 0 where
    begin :
        (k : ℕ) (num : Str) (v : Option V)
        → (s.rnd k).phase ≡ idle
        → IsNum num
        → num ≢ []
        → ((j : ℕ) → (s.rnd j).num ≢ num)
        → Step n s (record s { rnd = update s.rnd k (begin_round num v) })
    prepares :
        (k i : ℕ) (delivered : Bool)
        → i < n
        → (s.rnd k).phase ≢ idle
        → Step n s (record s {
          acc = update s.acc i (prepare_instance (s.rnd k).num (s.acc i)).0;
          rnd =
              update s.rnd k
                (take_promise delivered i (prepare_instance (s.rnd k).num (s.acc i)).1 (s.rnd k));
        })
    promote :
        (k : ℕ)
        → (s.rnd k).phase ≡ preparing
        → Majority n (s.rnd k).promised
        → Step n s (record s { rnd = update s.rnd k (record (s.rnd k) { phase = accepting }) })
    accepts :
        (k i : ℕ) (delivered : Bool)
        → i < n
        → (s.rnd k).phase ≡ accepting
        → Step n s (record s {
          acc = update s.acc i (accept_instance (s.rnd k).num (s.rnd k).best.val (s.acc i)).0;
          rnd = update s.rnd k (
              take_vote delivered i
                (accept_instance (s.rnd k).num (s.rnd k).best.val (s.acc i)).1
                (s.rnd k));
        })
    announce :
        (k : ℕ)
        → (s.rnd k).phase ≡ accepting
        → Majority n (s.rnd k).acked
        → Step n s (record s { sent = (s.rnd k).best.val ∷ s.sent })
    relay :
        (i : ℕ)
        → is_pending (s.acc i).status ≡ false
        → Step n s (record s { sent = (s.acc i).v_a ∷ s.sent })
    decides :
        (i : ℕ) (v : Option V)
        → Sent v s.sent
        → Step n s (record s { acc = update s.acc i (decide_instance v (s.acc i)) })

  pub data Reach (n : ℕ) : System V → Type 0 where
    start : Reach n init
    later : {s t : System V} → Reach n s → Step n s t → Reach n t
