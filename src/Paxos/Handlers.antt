-- ===== src/Paxos/Handlers.antt =====
-- The handlers `Prepare`, `Accept` and `Decide` of src/paxos/paxos.go on one peer: promises grow, a
-- decision stays, and a refusal leaves the instance alone.
use distributed_systems_engi.Base.{
  ◌≤◌, ◌≡◌, refl, ◌⊎◌, inl, inr, Bool-cases, ◌&&◌, ◌||◌, insert, [], true, false, Option, none,
  arith, ℤ, ◌==◌, ==-iff, int_eq, Str, str_eq, or_zero, lookup, lookup-insert,
}
use distributed_systems_engi.Paxos.{
  pending, is_pending, Instance, Paxos, fresh, none_yet, PreArgs, AccArgs, DecArgs, instance_at,
  prepare_instance, prepare, accept_instance, accept, decide_instance, decide, bigger, IsNum, rank,
  bigger-rank,
}

-- The requests that a peer serves.
pub data Request (V : Type 0) : Type 0 where
  prepares : PreArgs → Request V
  accepts : AccArgs V → Request V
  decides : DecArgs V → Request V

-- An instance whose numbers are numbers, with nothing accepted above the promise.
pub record IsSound {V : Type 0} (i : Instance V) : Type 0 where
  pub n_p_num : IsNum i.n_p
  pub n_a_num : IsNum i.n_a
  pub n_a_le : rank i.n_a ≤ rank i.n_p

-- What happens to an instance over time: its promise and the accepted number only grow, and once
-- it is not pending it stays so, with its numbers.
pub record Grows {V : Type 0} (i i' : Instance V) : Type 0 where
  pub n_p_grows : rank i.n_p ≤ rank i'.n_p
  pub n_a_grows : rank i.n_a ≤ rank i'.n_a
  pub settled :
      (is_pending i.status ≡ true)
      ⊎ ((is_pending i'.status ≡ false) × (i'.n_p ≡ i.n_p) × (i'.n_a ≡ i.n_a))

module _ {V : Type 0} where
  unfoldable pub serve : Request V → Paxos V → Paxos V
  serve (prepares args) px = (prepare args px).0
  serve (accepts args) px = (accept args px).0
  serve (decides args) px = decide args px

  -- The request carries a number, if it carries any.
  abbrev pub HasNum : Request V → Type 0
  HasNum (prepares args) = IsNum args.num
  HasNum (accepts args) = IsNum args.num
  HasNum (decides args) = Unit

  pub IsSound-fresh : IsSound {V = V} (record { n_p = []; n_a = []; v_a = none; status = pending })
  IsSound-fresh = record { n_p_num = none_yet; n_a_num = none_yet; n_a_le = omega arith }

  abbrev Keeps : Instance V → Instance V → Type 0
  Keeps i i' = IsSound i' × Grows i i'

  Keeps-refl : (i : Instance V) → IsSound i → Keeps i i
  Keeps-refl i s = (
    s,
    record {
      n_p_grows = omega arith;
      n_a_grows = omega arith;
      settled = elim (Bool-cases (is_pending i.status)) [
        | inl open' ↦ inl open'
        | inr closed ↦ inr (closed, refl, refl)
      ];
    },
  )

  prepare_instance-Keeps :
      (num : Str) (i : Instance V) → IsNum num → IsSound i → Keeps i (prepare_instance num i).0
  unfolding prepare_instance
  prepare_instance-Keeps num i h s =
      let b = bigger-rank h s.n_p_num in
      elim (Bool-cases (is_pending i.status && bigger num i.n_p)) [
        | inl yes' ↦ rw yes' (
          record { n_p_num = h; n_a_num = s.n_a_num; n_a_le = ground (arith, b, s.n_a_le) },
          record {
            n_p_grows = ground (arith, b);
            n_a_grows = omega arith;
            settled = inl (ground arith);
          },
        )
        | inr no' ↦ rw no' (Keeps-refl i s)
      ]

  accept_instance-Keeps :
      (num : Str) (v : Option V) (i : Instance V)
      → IsNum num
      → IsSound i
      → Keeps i (accept_instance num v i).0
  unfolding accept_instance
  accept_instance-Keeps num v i h s =
      let b = bigger-rank h s.n_p_num in
      let e = ==-iff num i.n_p in
      elim (Bool-cases (is_pending i.status && (bigger num i.n_p || num == i.n_p))) [
        | inl yes' ↦
            let le : rank i.n_p ≤ rank num = at_least (ground arith) in
            rw yes' (
              record { n_p_num = h; n_a_num = h; n_a_le = omega arith },
              record {
                n_p_grows = le;
                n_a_grows = omega (arith, le, s.n_a_le);
                settled = inl (ground arith);
              },
            )
        | inr no' ↦ rw no' (Keeps-refl i s)
      ]
    where
      at_least : (bigger num i.n_p || num == i.n_p) ≡ true → rank i.n_p ≤ rank num
      at_least g = elim (Bool-cases (bigger num i.n_p)) [
        | inl lt ↦ ground (arith, bigger-rank h s.n_p_num)
        | inr nlt ↦ rw (← (==-iff num i.n_p).0 (ground arith)) (omega arith)
      ]

  decide_instance-Keeps :
      (v : Option V) (i : Instance V) → IsSound i → Keeps i (decide_instance v i)
  unfolding decide_instance
  decide_instance-Keeps v i s = (
    record { n_p_num = s.n_p_num; n_a_num = s.n_a_num; n_a_le = s.n_a_le },
    record { n_p_grows = omega arith; n_a_grows = omega arith; settled = inr (refl, refl, refl) },
  )

  -- The entry of one instance, whatever the handler did to the instance of its request.
  Keeps-insert :
      (px : Paxos V) (seq k : ℤ) (i : Instance V)
      → ((j : ℤ) → IsSound (instance_at j px))
      → Keeps (instance_at seq px) i
      → Keeps (instance_at k px) (or_zero fresh (lookup k (insert seq i px.ins)))
  Keeps-insert px seq k i sound h = rw lookup-insert (elim (Bool-cases (seq == k)) [
    | inl same ↦ rw (same, ← (==-iff seq k).0 same) h
    | inr other ↦ rw other (Keeps-refl (instance_at k px) (sound k))
  ])

  -- Over any request with a number, at any instance of a peer whose instances are sound: the
  -- instance is sound afterwards, its promise and its accepted number do not fall, and one that is
  -- not pending keeps its numbers and is never pending again.
  pub serve-Grows :
      (r : Request V) (px : Paxos V)
      → HasNum r
      → ((j : ℤ) → IsSound (instance_at j px))
      → (k : ℤ)
      → IsSound (instance_at k (serve r px)) × Grows (instance_at k px) (instance_at k (serve r px))
  unfolding serve prepare accept decide
  serve-Grows (prepares args) px h sound k =
      Keeps-insert px args.seq k _ sound (prepare_instance-Keeps args.num _ h (sound args.seq))
  serve-Grows (accepts args) px h sound k =
      Keeps-insert px args.seq k _ sound
        (accept_instance-Keeps args.num args.val _ h (sound args.seq))
  serve-Grows (decides args) px h sound k =
      Keeps-insert px args.seq k _ sound (decide_instance-Keeps args.val _ (sound args.seq))
