-- ===== src/Base/Sort.antt =====
-- Go's order of strings, byte by byte, and sort.Strings, as insertion sort on lists of bytes.
use distributed_systems_engi.Base.Tests.{ltb, eqb, if◌then◌else◌, Bool-cases}
use distributed_systems_engi.Base.Keys.{◌==◌, ==-iff, ==-self}
use distributed_systems_engi.Base.Text.{Str, str_eq}
use mathlib.Core.Path.{subst, ◌≡◌, refl, sym, ◌∙◌}
use mathlib.Core.Logic.{inl, inr}
use mathlib.Core.Bool.{Bool, true, false, ◌&&◌, ◌||◌}
use mathlib.Core.List.{List, [], ◌∷◌}
use native.Mathlib.Omega.{arith}

unfoldable pub lt_str : Str → Str → Bool
lt_str [] [] = false
lt_str [] (b ∷ t) = true
lt_str (a ∷ s) [] = false
lt_str (a ∷ s) (b ∷ t) = ltb a b || (eqb a b && lt_str s t)

lt_str_irrefl : (s : Str) → lt_str s s ≡ false
unfolding lt_str
lt_str_irrefl [] = refl
lt_str_irrefl (a ∷ s) = ground (arith, lt_str_irrefl s)

lt_str_trans : (s t u : Str) → lt_str s t ≡ true → lt_str t u ≡ true → lt_str s u ≡ true
unfolding lt_str
lt_str_trans [] [] u h k = cc
lt_str_trans [] (b ∷ t) [] h k = cc
lt_str_trans [] (b ∷ t) (c ∷ u) h k = refl
lt_str_trans (a ∷ s) [] u h k = cc
lt_str_trans (a ∷ s) (b ∷ t) [] h k = cc
lt_str_trans (a ∷ s) (b ∷ t) (c ∷ u) h k = ground (arith, lt_str_trans s t u)

lt_str_total : (s t : Str) → lt_str s t ≡ false → lt_str t s ≡ false → s ≡ t
unfolding lt_str
lt_str_total [] [] h k = refl
lt_str_total [] (b ∷ t) h k = cc
lt_str_total (a ∷ s) [] h k = cc
lt_str_total (a ∷ s) (b ∷ t) h k = ground (arith, lt_str_total s t)

-- sort.Strings
insert_sorted : Str → List Str → List Str
insert_sorted s [] = s ∷ []
insert_sorted s (t ∷ ts) =
    let rest = insert_sorted s ts in if lt_str t s then t ∷ rest else s ∷ t ∷ ts

unfoldable pub sort_strings : List Str → List Str
unfolding insert_sorted
sort_strings [] = []
sort_strings (s ∷ ss) = insert_sorted s (sort_strings ss)

unfoldable pub elem : Str → List Str → Bool
elem k [] = false
elem k (s ∷ ss) = (s == k) || elem k ss

-- No string occurs twice.
abbrev pub Distinct : List Str → Type 0
Distinct [] = Unit
Distinct (s ∷ ss) = (elem s ss ≡ false) × Distinct ss

-- Every string is above `s`, and above the one before.
abbrev pub IncreasesFrom : Str → List Str → Type 0
IncreasesFrom s [] = Unit
IncreasesFrom s (t ∷ ts) = (lt_str s t ≡ true) × IncreasesFrom t ts

abbrev pub Increases : List Str → Type 0
Increases [] = Unit
Increases (s ∷ ss) = IncreasesFrom s ss

elem-insert_sorted :
    (k s : Str) (ts : List Str) → elem k (insert_sorted s ts) ≡ ((s == k) || elem k ts)
unfolding elem insert_sorted
elem-insert_sorted k s [] = refl
elem-insert_sorted k s (t ∷ ts) = ground (arith, elem-insert_sorted k s ts)

pub elem-sort_strings : (k : Str) (ss : List Str) → elem k (sort_strings ss) ≡ elem k ss
unfolding elem sort_strings
elem-sort_strings k [] = refl
elem-sort_strings k (s ∷ ss) =
    elem-insert_sorted k s (sort_strings ss) ∙ ground (arith, elem-sort_strings k ss)

-- Of two strings one of which is not in a list that starts with the other, one is below.
lt_str-of_not_head :
    (u s : Str) (us : List Str) → elem s (u ∷ us) ≡ false → lt_str u s ≡ false → lt_str s u ≡ true
unfolding elem
lt_str-of_not_head u s us n above = elim (Bool-cases (lt_str s u)) [
  | inl below ↦ below
  | inr no' ↦ absurd (ground (arith, lt_str_total u s above no', ==-self s, n))
]

insert_sorted-IncreasesFrom :
    (s t : Str) (ts : List Str)
    → lt_str t s ≡ true
    → elem s ts ≡ false
    → IncreasesFrom t ts
    → IncreasesFrom t (insert_sorted s ts)
unfolding insert_sorted elem
insert_sorted-IncreasesFrom s t [] h n i = (h, tt)
insert_sorted-IncreasesFrom s t (u ∷ us) h n i = elim (Bool-cases (lt_str u s)) [
  | inl below ↦ rw below (i.0, insert_sorted-IncreasesFrom s u us below (ground arith) i.1)
  | inr above ↦ rw above (h, (lt_str-of_not_head u s us n above, i.1))
]

insert_sorted-Increases :
    (s : Str) (ts : List Str) → elem s ts ≡ false → Increases ts → Increases (insert_sorted s ts)
unfolding insert_sorted elem
insert_sorted-Increases s [] n i = tt
insert_sorted-Increases s (t ∷ ts) n i = elim (Bool-cases (lt_str t s)) [
  | inl below ↦ rw below (insert_sorted-IncreasesFrom s t ts below (ground arith) i)
  | inr above ↦ rw above (lt_str-of_not_head t s ts n above, i)
]

pub sort_strings-Increases : (ss : List Str) → Distinct ss → Increases (sort_strings ss)
unfolding sort_strings
sort_strings-Increases [] d = tt
sort_strings-Increases (s ∷ ss) d =
    insert_sorted-Increases s (sort_strings ss) (elem-sort_strings s ss ∙ d.0)
      (sort_strings-Increases ss d.1)

-- Every member of a list that increases from `s` is above `s`.
IncreasesFrom-lt :
    (s k : Str) (ts : List Str) → IncreasesFrom s ts → elem k ts ≡ true → lt_str s k ≡ true
unfolding elem
IncreasesFrom-lt s k [] i e = cc
IncreasesFrom-lt s k (t ∷ ts) i e = elim (Bool-cases (t == k)) [
  | inl same ↦ rw (← (==-iff t k).0 same) i.0
  | inr other ↦ lt_str_trans s t k i.0 (IncreasesFrom-lt t k ts i.1 (ground (arith, other)))
]

IncreasesFrom-not_elem : (s : Str) (ts : List Str) → IncreasesFrom s ts → elem s ts ≡ false
IncreasesFrom-not_elem s ts i = elim (Bool-cases (elem s ts)) [
  | inr out ↦ out
  | inl in' ↦ absurd (ground (arith, IncreasesFrom-lt s s ts i in', lt_str_irrefl s))
]

IncreasesFrom-Increases : (s : Str) (ts : List Str) → IncreasesFrom s ts → Increases ts
IncreasesFrom-Increases s [] i = tt
IncreasesFrom-Increases s (t ∷ ts) i = i.1

-- The head of an increasing list is its only member that is not above another one.
Increases-head :
    (s t : Str) (ss ts : List Str)
    → IncreasesFrom s ss
    → IncreasesFrom t ts
    → ((k : Str) → elem k (s ∷ ss) ≡ elem k (t ∷ ts))
    → s ≡ t
unfolding elem
Increases-head s t ss ts i j h = elim (Bool-cases (t == s)) [
  | inl same ↦ sym ((==-iff t s).0 same)
  | inr other ↦
      let ts' : lt_str t s ≡ true =
        IncreasesFrom-lt t s ts j (ground (arith, h s, ==-self s, other)) in
      let other' : (s == t) ≡ false = ground (arith, ==-iff s t, ==-iff t s) in
      let st : lt_str s t ≡ true =
        IncreasesFrom-lt s t ss i (ground (arith, h t, ==-self t, other')) in
      absurd (ground (arith, lt_str_trans s t s st ts', lt_str_irrefl s))
]

-- Two increasing lists with the same members are equal.
pub Increases-unique :
    (ss ts : List Str) → Increases ss → Increases ts → ((k : Str) → elem k ss ≡ elem k ts) → ss ≡ ts
unfolding elem
Increases-unique [] [] i j h = refl
Increases-unique [] (t ∷ ts) i j h = absurd (ground (arith, h t, ==-self t))
Increases-unique (s ∷ ss) [] i j h = absurd (ground (arith, h s, ==-self s))
Increases-unique (s ∷ ss) (t ∷ ts) i j h =
    let same = Increases-head s t ss ts i j h in
    ap2 same (
      Increases-unique ss ts (IncreasesFrom-Increases s ss i) (IncreasesFrom-Increases t ts j) (λ k.
        elim (Bool-cases (s == k)) [
          | inl head ↦
              let sk = (==-iff s k).0 head in
              let out : elem k ss ≡ false =
                subst (λ x. elem x ss ≡ false) sk (IncreasesFrom-not_elem s ss i) in
              let out' : elem k ts ≡ false =
                subst (λ x. elem x ts ≡ false) (sym same ∙ sk) (IncreasesFrom-not_elem t ts j) in
              out ∙ sym out'
          | inr tail ↦
              let tail' : (t == k) ≡ false = subst (λ x. (x == k) ≡ false) same tail in
              ground (arith, h k, tail, tail')
        ]))
  where
    ap2 : s ≡ t → ss ≡ ts → s ∷ ss ≡ t ∷ ts
    ap2 p q = cc

-- Sorting forgets the order: two lists without repetitions and with the same members sort alike.
pub sort_strings_unique :
    (ss ts : List Str)
    → Distinct ss
    → Distinct ts
    → ((k : Str) → elem k ss ≡ elem k ts)
    → sort_strings ss ≡ sort_strings ts
sort_strings_unique ss ts d e h =
    Increases-unique (sort_strings ss) (sort_strings ts) (sort_strings-Increases ss d)
      (sort_strings-Increases ts e)
      (λ k. elem-sort_strings k ss ∙ h k ∙ sym (elem-sort_strings k ts))
