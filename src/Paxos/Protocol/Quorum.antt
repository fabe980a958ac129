-- ===== src/Paxos/Protocol/Quorum.antt =====
-- Sets of peers as Boolean functions, their sizes, and why two majorities meet.
use mathlib.Core.Path.{subst}
use distributed_systems_engi.Base.{
  ℕ, zero, suc, ◌+◌, ◌<◌, ◌≤◌, ◌≡◌, ◌≢◌, sym, ℕ_discrete, Bool, true, false, ◌&&◌, inl, inr,
  Bool-cases, arith, eqb, if◌then◌else◌,
}

abbrev pub update {ℓ} : {A : Type ℓ} → (ℕ → A) → ℕ → A → ℕ → A
update f i a j = if eqb i j then a else f j

pub update_self {ℓ} : {A : Type ℓ} (f : ℕ → A) (i : ℕ) (a : A) → update f i a i ≡ a
update_self f i a = let e : eqb i i ≡ true = ground arith in rw e

pub update_ne {ℓ} : {A : Type ℓ} (f : ℕ → A) {i j : ℕ} (a : A) → i ≢ j → update f i a j ≡ f j
update_ne f {i} {j} a h = let e : eqb i j ≡ false = ground arith in rw e

-- A property of the values holds after an update if it holds of the new value.
pub update_all {ℓ κ} :
    {A : Type ℓ} (P : ℕ → A → Type κ) (f : ℕ → A) (i : ℕ) (a : A)
    → P i a
    → ((j : ℕ) → P j (f j))
    → (j : ℕ) → P j (update f i a j)
update_all P f i a h all j = elim (ℕ_discrete i j) [
  | yes e ↦ subst (λ x. P x (update f i a x)) e (subst (P i) (sym (update_self f i a)) h)
  | no ne ↦ subst (P j) (sym (update_ne f a ne)) (all j)
]

-- How many of the first `n` peers are in the set.
unfoldable pub count : (ℕ → Bool) → ℕ → ℕ
count f zero = 0
count f (suc n) = (if f n then 1 else 0) + count f n

count-le : (f : ℕ → Bool) (n : ℕ) → count f n ≤ n
unfolding count
count-le f zero = omega arith
count-le f (suc n) = ground (arith, count-le f n)

-- Two sets with more members together than there are peers share a peer.
pub count-meet :
    (f g : ℕ → Bool) (n : ℕ)
    → n < count f n + count g n
    → (i : ℕ) × (i < n) × (f i ≡ true) × (g i ≡ true)
unfolding count
count-meet f g zero h = absurd (omega arith)
count-meet f g (suc n) h = elim (Bool-cases (f n && g n)) [
  | inl both ↦ (n, omega arith, ground arith, ground arith)
  | inr not_both ↦
      let (i, lt, a, b) = count-meet f g n (ground (arith, count-le f n, count-le g n)) in
      (i, omega arith, a, b)
]

pub count_mono :
    (f g : ℕ → Bool) (n : ℕ) → ((i : ℕ) → f i ≡ true → g i ≡ true) → count f n ≤ count g n
unfolding count
count_mono f g zero h = omega arith
count_mono f g (suc n) h = ground (arith, count_mono f g n h, h n)
