-- ===== src/MapReduce/Master/Counting.antt =====
-- Sums over the goroutines and the reports of a phase of src/mapreduce/master.go.
use distributed_systems_engi.Base.{
  ℕ, zero, suc, ◌+◌, ◌≡◌, inl, inr, some, List, [], ◌∷◌, ◌++◌, arith, length, Option-cases,
}
use distributed_systems_engi.MapReduce.Master.{take_at}

unfoldable pub sum {ℓ} : {A : Type ℓ} → (A → ℕ) → List A → ℕ
sum f [] = 0
sum f (x ∷ xs) = f x + sum f xs

pub sum-append {ℓ} :
    {A : Type ℓ} (f : A → ℕ) (xs ys : List A) → sum f (xs ++ ys) ≡ sum f xs + sum f ys
unfolding sum
sum-append f [] ys = omega arith
sum-append f (x ∷ xs) ys = omega (arith, sum-append f xs ys)

pub sum-take_at {ℓ} :
    {A : Type ℓ} (f : A → ℕ) (i : ℕ) (xs : List A) (p : A × List A)
    → take_at i xs ≡ some p
    → sum f xs ≡ f p.0 + sum f p.1
unfolding sum take_at
sum-take_at f i [] p e = cc
sum-take_at f zero (x ∷ xs) p e = ground (arith, e)
sum-take_at f (suc i) (x ∷ xs) p e = elim (Option-cases (take_at i xs)) [
  | inl none' ↦ cc
  | inr (q, found) ↦ ground (arith, e, found, sum-take_at f i xs q found)
]

pub length-take_at {ℓ} :
    {A : Type ℓ} (i : ℕ) (xs : List A) (p : A × List A)
    → take_at i xs ≡ some p
    → length xs ≡ suc (length p.1)
unfolding take_at
length-take_at i [] p e = cc
length-take_at zero (x ∷ xs) p e = ground (arith, e)
length-take_at (suc i) (x ∷ xs) p e = elim (Option-cases (take_at i xs)) [
  | inl none' ↦ cc
  | inr (q, found) ↦ ground (arith, e, found, length-take_at i xs q found)
]
