-- ===== src/Paxos/Protocol/Calls.antt =====
-- What the calls of a proposer of src/paxos/paxos.go are made of: peers still to be asked, and steps.
use distributed_systems_engi.Base.{
  Bool-cases, inl, inr, occurs, ℕ, zero, ℕ_discrete, suc, ◌<◌, ◌≤◌, ◌≡◌, ◌∙◌, refl, ap, Bool, true,
  false, Option, some, List, ◌∷◌, arith, ==-iff, nat_eq, str_eq,
}
use distributed_systems_engi.Paxos.{is_pending, AccReply, accept_instance}
use distributed_systems_engi.Paxos.Protocol.{System, Round, take_vote, accepting, accepts}
use distributed_systems_engi.Paxos.Protocol.Quorum.{update, update_self, count}
use distributed_systems_engi.Paxos.Protocol.Agreement.{Steps, stop, more}
use distributed_systems_engi.Paxos.Protocol.Proposing.{Others, nothing, other, IsUnheard}

count_beyond : (f : ℕ → Bool) (i n : ℕ) (b : Bool) → n ≤ i → count (update f i b) n ≡ count f n
unfolding count
count_beyond f i zero b le = refl
count_beyond f i (suc n) b le = ground (arith, count_beyond f i n b, ==-iff i n)

-- A peer that joins a set makes it one larger.
pub count_add :
    (f : ℕ → Bool) (i n : ℕ) → i < n → f i ≡ false → count (update f i true) n ≡ suc (count f n)
unfolding count
count_add f i zero lt out = absurd (omega arith)
count_add f i (suc n) lt out = elim (ℕ_discrete i n) [
  | yes e ↦ ground (arith, out, count_beyond f i n true, e, ==-iff i n)
  | no ne ↦ ground (arith, count_add f i n (omega arith) out, ==-iff i n)
]

-- The peers still to be asked: among the `n`, each once, and not in the set.
pub record IsAhead (n : ℕ) (f : ℕ → Bool) (is : List ℕ) : Type 0 where
  pub once : (j : ℕ) → occurs j is ≤ 1
  pub among : (j : ℕ) → 0 < occurs j is → (j < n) × (f j ≡ false)

pub IsAhead-head :
    {n i : ℕ} {f : ℕ → Bool} {is : List ℕ} → IsAhead n f (i ∷ is) → (i < n) × (f i ≡ false)
unfolding occurs
IsAhead-head {i} h = h.among i (ground (arith, ==-iff i i))

pub IsAhead-tail : {n i : ℕ} {f : ℕ → Bool} {is : List ℕ} → IsAhead n f (i ∷ is) → IsAhead n f is
unfolding occurs
IsAhead-tail {i} h = record {
  once = λ j. ground (arith, h.once j);
  among = λ j p. h.among j (ground (arith, p));
}

pub IsAhead-add :
    {n i : ℕ} {f : ℕ → Bool} {is : List ℕ} → IsAhead n f (i ∷ is) → IsAhead n (update f i true) is
unfolding occurs
IsAhead-add {i} h = record {
  once = λ j. ground (arith, h.once j);
  among = λ j p. ground (arith, h.once j, h.among j, p, ==-iff i j);
}

take_vote-lost :
    {V : Type 0} (i : ℕ) (r : AccReply V) (rd : Round V)
    → take_vote false i r rd ≡ record rd { voted = (take_vote false i r rd).voted }
unfolding take_vote
take_vote-lost i r rd = elim (Bool-cases r.rejected) [
  | inl refused ↦ rw refused refl
  | inr granted ↦ rw granted refl
]

module _ {V : Type 0} {n : ℕ} where
  pub Others-Steps : {k : ℕ} {s t : System V} → Others n k s t → Steps n s t
  Others-Steps nothing = stop
  Others-Steps (other h st same) = more (Others-Steps h) st

  pub Others-same : {k : ℕ} {s t : System V} → Others n k s t → IsUnheard k s t
  Others-same nothing = refl
  Others-same {k} (other {u} h st same) =
      same ∙ ap (λ (r : Round V). record r { voted = (u.rnd k).voted }) (Others-same h)

  -- A call of `Accept` whose reply is lost, granted or not, is no news to the proposer.
  pub lost_vote-Others :
      {k : ℕ} {s t : System V} (i : ℕ)
      → Others n k s t
      → i < n
      → (t.rnd k).phase ≡ accepting
      → let (a, r) = accept_instance (t.rnd k).num (t.rnd k).best.val (t.acc i) in
        Others n k s (record t {
          acc = update t.acc i a;
          rnd = update t.rnd k (take_vote false i r (t.rnd k));
        })
  lost_vote-Others {k} {t} i others lt phase =
      other others (accepts k i false lt phase) (rw update_self (take_vote-lost i _ (t.rnd k)))

  -- What the proposer knows after these steps, if the round was `rd`
  pub unheard :
      {k : ℕ} {s t : System V} (rd : Round V)
      → Others n k s t
      → s.rnd k ≡ rd
      → t.rnd k ≡ record rd { voted = (t.rnd k).voted }
  unheard {k} {t} rd others e =
      Others-same others ∙ ap (λ (r : Round V). record r { voted = (t.rnd k).voted }) e

  pub Steps-append : {s t u : System V} → Steps n s t → Steps n t u → Steps n s u
  Steps-append a stop = a
  Steps-append a (more b st) = more (Steps-append a b) st

-- What a loop of calls leaves behind: the protocol's steps, the phase, and what a result claims.
pub record Outcome {V : Type 0} (n k : ℕ) (s t : System V) (announced : Option (Option V))
    : Type 0 where
  pub steps : Steps n s t
  pub relayed :
      (v : Option V)
      → announced ≡ some v
      → (i : ℕ) × (is_pending (t.acc i).status ≡ false) × ((t.acc i).v_a ≡ v)
