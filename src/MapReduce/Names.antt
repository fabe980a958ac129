-- ===== src/MapReduce/Names.antt =====
-- The names of the files of a job (`MapName`, `ReduceName` and `MergeName` of
-- src/mapreduce/mapreduce.go): no two of them are the same text.
use mathlib.Core.Path.{subst}
use mathlib.Core.List.{append_assoc, append-nil}
use distributed_systems_engi.Base.{
  ℕ, ◌≤◌, ◌≡◌, refl, sym, ap, ◌∙◌, ◌≢◌, inl, inr, Bool, true, false, ◌&&◌, List, [], ◌∷◌, ◌++◌,
  arith, eqb, ◌==◌, ==-iff, ==-of_ne, str_eq, Str, codes, split, itoa, max_int, split-Lacks,
  split-append, itoa-Lacks, itoa-injective, append-cancel, All, some, none, lookup, insert,
  lookup-insert, delete, lookup-delete, if◌then◌else◌, Bool-cases,
}
use distributed_systems_engi.MapReduce.{Files, map_name, reduce_name, merge_name, out_name}

-- What a file is for: the input of a map job, the pairs of a map job for a reduce job, the results
-- of a reduce job, the merged output.
pub data Name : Type 0 where
  splits : ℕ → Name
  parts : ℕ → ℕ → Name
  results : ℕ → Name
  output : Name

abbrev pub name_of : Str → Name → Str
name_of file (splits i) = map_name file i
name_of file (parts i r) = reduce_name file i r
name_of file (results r) = merge_name file r
name_of file output = out_name file

-- The numbers of the jobs are within int.
abbrev pub IsSmall : Name → Type 0
IsSmall (splits i) = i ≤ max_int
IsSmall (parts i r) = (i ≤ max_int) × (r ≤ max_int)
IsSmall (results r) = r ≤ max_int
IsSmall output = Unit

abbrev pub eq_name : Name → Name → Bool
eq_name (splits i) (splits j) = eqb i j
eq_name (parts i r) (parts j s) = eqb i j && eqb r s
eq_name (results r) (results s) = eqb r s
eq_name output output = true
eq_name _ _ = false

-- What follows "mrtmp." and the name of the input
abbrev suffix : Name → Str
suffix (splits i) = b'-' ∷ itoa i
suffix (parts i r) = b'-' ∷ (itoa i ++ b'-' ∷ itoa r)
suffix (results r) = b'-' ∷ codes "res" ++ b'-' ∷ itoa r
suffix output = []

name_of-suffix : (file : Str) (a : Name) → name_of file a ≡ codes "mrtmp." ++ file ++ suffix a
unfolding map_name reduce_name merge_name out_name
name_of-suffix file (splits i) = simp append_assoc
name_of-suffix file (parts i r) = simp append_assoc
name_of-suffix file (results r) = simp append_assoc
name_of-suffix file output = simp (append_assoc, append-nil)

-- The pieces of the suffix between dashes
abbrev pieces : Name → List Str
pieces (splits i) = [] ∷ itoa i ∷ []
pieces (parts i r) = [] ∷ itoa i ∷ itoa r ∷ []
pieces (results r) = [] ∷ codes "res" ∷ itoa r ∷ []
pieces output = [] ∷ []

itoa-Lacks_dash : (n : ℕ) → All (λ c. c ≢ 45) (itoa n)
itoa-Lacks_dash n = itoa-Lacks 45 n (omega arith)

split-suffix : (a : Name) → split 45 (suffix a) ≡ pieces a
split-suffix (splits i) =
    split-append 45 [] (itoa i) tt
    ∙ ap (λ ps. [] ∷ ps) (split-Lacks 45 (itoa i) (itoa-Lacks_dash i))
split-suffix (parts i r) =
    split-append 45 [] (itoa i ++ 45 ∷ itoa r) tt
    ∙ ap (λ ps. [] ∷ ps)
        (split-append 45 (itoa i) (itoa r) (itoa-Lacks_dash i)
          ∙ ap (λ ps. itoa i ∷ ps) (split-Lacks 45 (itoa r) (itoa-Lacks_dash r)))
split-suffix (results r) =
    split-append 45 [] (codes "res" ++ 45 ∷ itoa r) tt
    ∙ ap (λ ps. [] ∷ ps)
        (split-append 45 (codes "res") (itoa r) (omega arith)
          ∙ ap (λ ps. codes "res" ∷ ps) (split-Lacks 45 (itoa r) (itoa-Lacks_dash r)))
split-suffix output = unfold split in refl

itoa-ne-res : (i : ℕ) → itoa i ≢ codes "res"
itoa-ne-res i e =
    let r : All (λ c. c ≢ 114) (codes "res") =
      subst (All (λ c. c ≢ 114)) e (itoa-Lacks 114 i (omega arith)) in
    absurd (r.0 refl)

pieces-injective : (a b : Name) → IsSmall a → IsSmall b → pieces a ≡ pieces b → eq_name a b ≡ true
pieces-injective (splits i) (splits j) ha hb e = ground (arith, itoa-injective i j ha hb (cc))
pieces-injective (parts i r) (parts j s) ha hb e =
    ground (arith, itoa-injective i j ha.0 hb.0 (cc), itoa-injective r s ha.1 hb.1 (cc))
pieces-injective (results r) (results s) ha hb e = ground (arith, itoa-injective r s ha hb (cc))
pieces-injective output output ha hb e = refl
pieces-injective (parts i r) (results s) ha hb e = absurd (itoa-ne-res i (cc))
pieces-injective (results r) (parts j s) ha hb e = absurd (itoa-ne-res j (cc))
pieces-injective (splits i) (parts j s) ha hb e = cc
pieces-injective (splits i) (results s) ha hb e = cc
pieces-injective (splits i) output ha hb e = cc
pieces-injective (parts i r) (splits j) ha hb e = cc
pieces-injective (parts i r) output ha hb e = cc
pieces-injective (results r) (splits j) ha hb e = cc
pieces-injective (results r) output ha hb e = cc
pieces-injective output (splits j) ha hb e = cc
pieces-injective output (parts j s) ha hb e = cc
pieces-injective output (results s) ha hb e = cc

eq_name→eq : (a b : Name) → eq_name a b ≡ true → a ≡ b
eq_name→eq (splits i) (splits j) e = ground arith
eq_name→eq (parts i r) (parts j s) e = ground arith
eq_name→eq (results r) (results s) e = ground arith
eq_name→eq output output e = refl
eq_name→eq (splits i) (parts j s) e = cc
eq_name→eq (splits i) (results s) e = cc
eq_name→eq (splits i) output e = cc
eq_name→eq (parts i r) (splits j) e = cc
eq_name→eq (parts i r) (results s) e = cc
eq_name→eq (parts i r) output e = cc
eq_name→eq (results r) (splits j) e = cc
eq_name→eq (results r) (parts j s) e = cc
eq_name→eq (results r) output e = cc
eq_name→eq output (splits j) e = cc
eq_name→eq output (parts j s) e = cc
eq_name→eq output (results s) e = cc

pub eq_name_self : (a : Name) → eq_name a a ≡ true
eq_name_self (splits i) = ground arith
eq_name_self (parts i r) = ground arith
eq_name_self (results r) = ground arith
eq_name_self output = refl

module _ (file : Str) where
  -- Two files of a job whose numbers are within int have the same name only if they are for the
  -- same thing.
  pub name_of-injective :
      (a b : Name) → IsSmall a → IsSmall b → name_of file a ≡ name_of file b → a ≡ b
  name_of-injective a b ha hb e =
      let e' = sym (name_of-suffix file a) ∙ e ∙ name_of-suffix file b in
      let s : suffix a ≡ suffix b =
        append-cancel (codes "mrtmp." ++ file) (suffix a) (suffix b) e' in
      eq_name→eq a b
        (pieces-injective a b ha hb (sym (split-suffix a) ∙ ap (split 45) s ∙ split-suffix b))

  -- A file of a job after another one was written
  pub lookup-write :
      (a b : Name) (text : Str) (fs : Files)
      → IsSmall a
      → IsSmall b
      → lookup (name_of file b) (insert (name_of file a) text fs)
        ≡ (if eq_name a b then some text else lookup (name_of file b) fs)
  lookup-write a b text fs ha hb = elim (Bool-cases (eq_name a b)) [
    | inl same ↦
        let e : (name_of file a == name_of file b) ≡ true =
          (==-iff (name_of file a) (name_of file b)).1 (ap (name_of file) (eq_name→eq a b same)) in
        rw same (lookup-insert (name_of file a) (name_of file b) text fs ∙ rw e)
    | inr other ↦
        let e : (name_of file a == name_of file b) ≡ false =
          ==-of_ne (name_of file a) (name_of file b)
            (λ p. cc (other, eq_name_self a, ap (eq_name a) (name_of-injective a b ha hb p))) in
        rw other (lookup-insert (name_of file a) (name_of file b) text fs ∙ rw e)
  ]

  -- A file of a job after another one was removed
  pub lookup-remove :
      (a b : Name) (fs : Files)
      → IsSmall a
      → IsSmall b
      → lookup (name_of file b) (delete (name_of file a) fs)
        ≡ (if eq_name a b then none else lookup (name_of file b) fs)
  lookup-remove a b fs ha hb = elim (Bool-cases (eq_name a b)) [
    | inl same ↦
        let e : (name_of file a == name_of file b) ≡ true =
          (==-iff (name_of file a) (name_of file b)).1 (ap (name_of file) (eq_name→eq a b same)) in
        rw same (lookup-delete (name_of file a) (name_of file b) fs ∙ rw e)
    | inr other ↦
        let e : (name_of file a == name_of file b) ≡ false =
          ==-of_ne (name_of file a) (name_of file b)
            (λ p. cc (other, eq_name_self a, ap (eq_name a) (name_of-injective a b ha hb p))) in
        rw other (lookup-delete (name_of file a) (name_of file b) fs ∙ rw e)
  ]
