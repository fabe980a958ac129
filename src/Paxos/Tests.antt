-- ===== src/Paxos/Tests.antt =====
-- The theorems about one peer at concrete inputs.
use distributed_systems_engi.Base.{
  ℕ, ◌≡◌, refl, none, some, [], ◌∷◌, arith, ℤ, pos, lookup, ltb, ltb_ℤ, nat_eq, int_eq,
  if◌then◌else◌,
}
use distributed_systems_engi.Paxos.{
  Fate, decided, Instance, Paxos, instance_at, min, make, bigger, number, rank, numbered,
  bigger-rank,
}
use distributed_systems_engi.Paxos.Handlers.{
  prepares, IsSound, IsSound-fresh, Grows, serve, serve-Grows,
}
use distributed_systems_engi.Paxos.Permutation.{get_rnd_pmt, get_rnd_pmt-occurs}
use distributed_systems_engi.Base.{occurs}
use distributed_systems_engi.Paxos.Window.{MinsValid, min-keeps}

bigger-rank_example :
    bigger (number 10 3) (number 9 8) ≡ ltb (rank (number 9 8)) (rank (number 10 3))
bigger-rank_example =
    bigger-rank (numbered 10 3 (omega arith) (omega arith))
      (numbered 9 8 (omega arith) (omega arith))

serve-Grows_example :
    let px = serve (prepares (record { seq = pos 0; num = number 0 5 })) (make {V = ℕ} [] 0) in
    IsSound (instance_at (pos 0) px)
    × Grows (instance_at (pos 0) (make {V = ℕ} [] 0)) (instance_at (pos 0) px)
unfolding lookup
serve-Grows_example =
    serve-Grows (prepares (record { seq = pos 0; num = number 0 5 })) (make {V = ℕ} [] 0)
      (numbered 0 5 (omega arith) (omega arith)) (λ j. IsSound-fresh) (pos 0)

abbrev instance : Fate → Instance ℕ
instance st = record { n_p = number 0 5; n_a = number 0 5; v_a = some 7; status = st }

-- Peer 0 of three, when peer 2 has not been heard from.
abbrev px : Paxos ℕ
px = record {
  peers = "a" ∷ "b" ∷ "c" ∷ [];
  me = 0;
  ins = (pos 0, instance decided) ∷ (pos 1, instance decided) ∷ [];
  mins = (0, pos 0) ∷ (1, pos 1) ∷ [];
}

-- The same when peer 2 is done up to 1 too
abbrev heard : Paxos ℕ
heard = record px { mins = (0, pos 1) ∷ (1, pos 1) ∷ (2, pos 1) ∷ [] }

heard-MinsValid : MinsValid heard.mins
unfolding lookup
heard-MinsValid j v e = ground arith

px-MinsValid : MinsValid px.mins
unfolding lookup
px-MinsValid j v e = ground arith

min-keeps_example :
    (lookup (pos 2) (min heard).0.ins ≡ lookup (pos 2) heard.ins)
    × ((s : ℤ)
        → lookup s (min heard).0.ins ≡ (if ltb_ℤ s (min heard).1 then none else lookup s heard.ins))
unfolding lookup
min-keeps_example =
    min-keeps heard heard-MinsValid 1 (pos 1) (pos 2) (omega arith) refl (omega arith)

get_rnd_pmt-occurs_example : occurs 2 (get_rnd_pmt (λ i n. 0) (λ i js. js) 3) ≡ 1
unfolding get_rnd_pmt
get_rnd_pmt-occurs_example =
    get_rnd_pmt-occurs (λ i n. 0) (λ i js. js) (λ i n h. h) (λ i js. refl) (λ i x js. refl) 3 2
