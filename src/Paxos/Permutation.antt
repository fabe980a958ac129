-- ===== src/Paxos/Permutation.antt =====
-- `GetRndPmt` of src/paxos/paxos.go: the order in which a proposer asks the peers. What `Intn` draws and
-- the order in which `range` visits the map are parameters.
use distributed_systems_engi.Base.{
  occurs, upto, occurs-upto, length-upto, ℕ, zero, suc, ◌+◌, ◌<◌, ◌≡◌, refl, List, [], ◌∷◌, none,
  some, arith, ◌==◌, ==-iff, nat_eq, if◌then◌else◌, length, get_elem?, ltb,
}

-- delete(rep, k)
unfoldable pub drop_key : ℕ → List ℕ → List ℕ
drop_key k [] = []
drop_key k (j ∷ js) = let rest = drop_key k js in if k == j then js else j ∷ rest

module _ (intn : ℕ → ℕ → ℕ) (visit : ℕ → List ℕ → List ℕ) where
  -- The passes of the second loop from the `i`th, `m` of them: a place that no key fills stays 0.
  unfoldable pub draw : ℕ → ℕ → List ℕ → List ℕ
  unfolding drop_key
  draw zero i rep = []
  draw (suc m) i rep = elim (get_elem? (visit i rep) (intn i (length rep))) [
    | none ↦ 0 ∷ draw m (suc i) rep
    | some v ↦ v ∷ draw m (suc i) (drop_key v rep)
  ]

  unfoldable pub get_rnd_pmt : ℕ → List ℕ
  unfolding draw
  get_rnd_pmt peers = draw peers 0 (upto peers 0)

occurs-drop_key :
    (x k : ℕ) (js : List ℕ)
    → 0 < occurs k js
    → occurs x js ≡ occurs x (drop_key k js) + (if k == x then 1 else 0)
unfolding occurs drop_key
occurs-drop_key x k [] h = absurd (omega arith)
occurs-drop_key x k (j ∷ js) h =
    ground (arith, ==-iff k j, ==-iff k x, ==-iff j x, ==-iff j k, occurs-drop_key x k js)

length-drop_key : (k : ℕ) (js : List ℕ) → 0 < occurs k js → length js ≡ suc (length (drop_key k js))
unfolding occurs drop_key
length-drop_key k [] h = absurd (omega arith)
length-drop_key k (j ∷ js) h = ground (arith, ==-iff k j, ==-iff j k, length-drop_key k js)

get_elem-occurs : (js : List ℕ) (t v : ℕ) → get_elem? js t ≡ some v → 0 < occurs v js
unfolding occurs
get_elem-occurs [] t v e = cc
get_elem-occurs (j ∷ js) zero v e = ground (arith, ==-iff j v)
get_elem-occurs (j ∷ js) (suc t) v e = ground (arith, get_elem-occurs js t v e)

get_elem-some : (js : List ℕ) (t : ℕ) → t < length js → (v : ℕ) × (get_elem? js t ≡ some v)
get_elem-some [] t h = absurd (omega arith)
get_elem-some (j ∷ js) zero h = (j, refl)
get_elem-some (j ∷ js) (suc t) h = get_elem-some js t (omega arith)

module _ (intn : ℕ → ℕ → ℕ) (visit : ℕ → List ℕ → List ℕ)
    (intn-lt : (i n : ℕ) → 0 < n → intn i n < n)
    (visit-length : (i : ℕ) (js : List ℕ) → length (visit i js) ≡ length js)
    (visit-occurs : (i x : ℕ) (js : List ℕ) → occurs x (visit i js) ≡ occurs x js) where
  draw-occurs :
      (m i : ℕ) (rep : List ℕ)
      → length rep ≡ m
      → (x : ℕ) → occurs x (draw intn visit m i rep) ≡ occurs x rep
  unfolding draw occurs
  draw-occurs zero i [] e x = refl
  draw-occurs zero i (j ∷ js) e x = absurd (omega arith)
  draw-occurs (suc m) i rep e x =
      let (v, at) =
        get_elem-some (visit i rep) (intn i (length rep))
          (omega (arith, intn-lt i (length rep), visit-length i rep)) in
      let found : 0 < occurs v rep =
        omega
          (arith, get_elem-occurs (visit i rep) (intn i (length rep)) v at, visit-occurs i v rep) in
      rw (at, draw)
        (ground (
          arith,
          draw-occurs m (suc i) (drop_key v rep) (omega (arith, length-drop_key v rep found)) x,
          occurs-drop_key x v rep found,
        ))

  -- Where `Intn` stays below its bound and `range` visits each key once, the order in which a proposer
  -- asks the peers has each of them once, and no other number.
  pub get_rnd_pmt-occurs :
      (peers x : ℕ) → occurs x (get_rnd_pmt intn visit peers) ≡ (if ltb x peers then 1 else 0)
  unfolding get_rnd_pmt
  get_rnd_pmt-occurs peers x =
      ground
        (arith, draw-occurs peers 0 (upto peers 0) (length-upto peers 0) x, occurs-upto x peers 0)
