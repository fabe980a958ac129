-- ===== src/Paxos.antt =====
-- src/paxos/paxos.go: the state of one peer and the handlers that change it under its mutex. An
-- interface{} value is an `Option V`, with nil as `none`. A Go int is a `ℤ`; a peer index is a `ℕ`.
mod Number
pub mod Permutation
pub mod Proposer
pub mod Handlers
pub mod Window
pub mod Protocol
mod Tests
unfoldable pub use Number.{sep, bigger, get_proposal_num, number}
pub use Number.{
  get_proposal_num-bigger, get_proposal_num-clash, IsNum, none_yet, numbered, rank, rank-nil,
  bigger-rank, rank-injective,
}
use distributed_systems_engi.Base.{
  ℕ, zero, suc, ◌+◌, Bool, true, false, not, ◌&&◌, ◌||◌, Option, none, some, List, [], ◌∷◌, String,
  ℤ, pos, negsuc, ◌+ℤ◌, ltb_ℤ, leb_ℤ, length, ◌==◌, nat_eq, int_eq, Str, str_eq, Map, or_zero,
  lookup, insert, if◌then◌else◌,
}

pub data Fate : Type 0 where
  decided pending forgotten : Fate

abbrev pub is_decided : Fate → Bool
is_decided decided = true
is_decided _ = false

abbrev pub is_pending : Fate → Bool
is_pending pending = true
is_pending _ = false

pub record Instance (V : Type 0) : Type 0 where
  pub n_p : Str
  pub n_a : Str
  pub v_a : Option V
  pub status : Fate

pub record Paxos (V : Type 0) : Type 0 where
  pub peers : List String
  pub me : ℕ
  pub ins : Map ℤ (Instance V)
  pub mins : Map ℕ ℤ

pub record PreArgs : Type 0 where
  pub seq : ℤ
  pub num : Str

pub record PreReply (V : Type 0) : Type 0 where
  pub num : Str
  pub val : Option V
  pub rejected : Bool
  pub decided : Bool
  pub n_p : Str

pub record AccArgs (V : Type 0) : Type 0 where
  pub seq : ℤ
  pub num : Str
  pub val : Option V

pub record AccReply (V : Type 0) : Type 0 where
  pub rejected : Bool
  pub decided : Bool
  pub val : Option V

pub record DecArgs (V : Type 0) : Type 0 where
  pub seq : ℤ
  pub val : Option V
  pub me : ℕ
  pub min : ℤ

-- The minimum that `Decide` records for the sender: it never goes back.
unfoldable pub raise_min : ℕ → ℤ → Map ℕ ℤ → Map ℕ ℤ
raise_min sender min mins = elim (lookup sender mins) [
  | none ↦ insert sender min mins
  | some v ↦ if ltb_ℤ v min then insert sender min mins else mins
]

-- The loop of `Min` over `n` peers from index `k`
unfoldable pub min_from : ℕ → ℕ → ℤ → Map ℕ ℤ → ℤ
min_from zero k min mins = min
min_from (suc n) k min mins = elim (lookup k mins) [
  | none ↦ negsuc 0
  | some v ↦ min_from n (suc k) (if ltb_ℤ v min then v else min) mins
]

module _ {V : Type 0} where
  -- &Instance{Status: Pending}
  abbrev pub fresh : Instance V
  fresh = record { n_p = []; n_a = []; v_a = none; status = pending }

  -- The instance that `Prepare` and `Accept` work on, made where it is missing.
  abbrev pub instance_at : ℤ → Paxos V → Instance V
  instance_at seq px = or_zero fresh (lookup seq px.ins)

  -- `Prepare` on the instance
  unfoldable pub prepare_instance : Str → Instance V → Instance V × PreReply V
  prepare_instance num i =
      if is_pending i.status && bigger num i.n_p
      then (
        record i { n_p = num },
        record { num = i.n_a; val = i.v_a; rejected = false; decided = false; n_p = i.n_p },
      )
      else (
        i,
        record {
          num = i.n_a;
          val = i.v_a;
          rejected = true;
          decided = not (is_pending i.status);
          n_p = i.n_p;
        },
      )

  unfoldable pub prepare : PreArgs → Paxos V → Paxos V × PreReply V
  prepare args px =
      let (i, reply) = prepare_instance args.num (instance_at args.seq px) in
      (record px { ins = insert args.seq i px.ins }, reply)

  -- `Accept` on the instance
  unfoldable pub accept_instance : Str → Option V → Instance V → Instance V × AccReply V
  accept_instance num val i =
      if is_pending i.status && (bigger num i.n_p || num == i.n_p)
      then (
        record i { n_p = num; n_a = num; v_a = val },
        record { rejected = false; decided = false; val = none },
      )
      else (
        i,
        record {
          rejected = true;
          decided = not (is_pending i.status);
          val = if not (is_pending i.status) then i.v_a else none;
        },
      )

  unfoldable pub accept : AccArgs V → Paxos V → Paxos V × AccReply V
  accept args px =
      let (i, reply) = accept_instance args.num args.val (instance_at args.seq px) in
      (record px { ins = insert args.seq i px.ins }, reply)

  -- `Decide` on the instance; a missing one is made as `&Instance{}`, and its status is set here.
  unfoldable pub decide_instance : Option V → Instance V → Instance V
  decide_instance val i = record i { v_a = val; status = decided }

  unfoldable pub decide : DecArgs V → Paxos V → Paxos V
  decide args px = record px {
    mins = raise_min args.me args.min px.mins;
    ins = insert args.seq (decide_instance args.val (instance_at args.seq px)) px.ins;
  }

  unfoldable pub get_my_min : Paxos V → ℤ
  get_my_min px = or_zero (negsuc 0) (lookup px.me px.mins)

  -- The loop of `ForgetIns`: delete the instances below `min`.
  unfoldable pub forget_below : ℤ → Map ℤ (Instance V) → Map ℤ (Instance V)
  forget_below min [] = []
  forget_below min ((k, i) ∷ m) =
      let rest = forget_below min m in if ltb_ℤ k min then rest else (k, i) ∷ rest

  unfoldable pub forget_ins : ℤ → Paxos V → Paxos V
  forget_ins min px = record px { ins = forget_below min px.ins }

  -- The loop of `Done`: the decided instances up to `v` become forgotten.
  unfoldable pub mark_forgotten : ℤ → Map ℤ (Instance V) → Map ℤ (Instance V)
  mark_forgotten v [] = []
  mark_forgotten v ((k, i) ∷ m) =
      (k, if leb_ℤ k v && is_decided i.status then record i { status = forgotten } else i)
      ∷ mark_forgotten v m

  -- `Done`: a missing minimum reads as 0 in the loop, and counts as lower than `seq`.
  unfoldable pub done : ℤ → Paxos V → Paxos V
  done seq px = elim (lookup px.me px.mins) [
    | none ↦ record px { ins = mark_forgotten (pos 0) px.ins; mins = insert px.me seq px.mins }
    | some v ↦
        if ltb_ℤ v seq
        then record px { ins = mark_forgotten v px.ins; mins = insert px.me seq px.mins }
        else px
  ]

  -- The loop of `Max`
  unfoldable pub max_from : ℤ → Map ℤ (Instance V) → ℤ
  max_from max [] = max
  max_from max ((k, i) ∷ m) = max_from (if ltb_ℤ max k && is_decided i.status then k else max) m

  unfoldable pub max : Paxos V → ℤ
  max px = max_from (negsuc 0) px.ins

  -- `Min` returns this number, and deletes the instances below it.
  unfoldable pub min_of : Paxos V → ℤ
  min_of px = min_from (length px.peers) 0 (pos 0xffffffff) px.mins +ℤ pos 1

  unfoldable pub min : Paxos V → Paxos V × ℤ
  unfolding min_of
  min px = (forget_ins (min_of px) px, min_of px)

  unfoldable pub status : ℤ → Paxos V → Fate × Option V
  status seq px =
      if leb_ℤ seq (get_my_min px)
      then (forgotten, none)
      else elim (lookup seq px.ins) [ none ↦ (pending, none) | some i ↦ (i.status, i.v_a) ]

  -- `Start`: the state after its call of `Min`, and whether it starts a proposal.
  unfoldable pub start : ℤ → Paxos V → Paxos V × Bool
  unfolding min
  start seq px = let (px', m) = min px in (px', leb_ℤ m seq)

  -- `AddOrUpdateIns`
  unfoldable pub add_or_update_ins : ℤ → Option V → Fate → Paxos V → Paxos V
  add_or_update_ins seq val st px = record px {
    ins = insert seq (record (instance_at seq px) { v_a = val; status = st }) px.ins;
  }

  -- `Make`
  abbrev pub make : List String → ℕ → Paxos V
  make peers me = record { peers = peers; me = me; ins = []; mins = [] }
