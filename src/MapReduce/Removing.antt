-- ===== src/MapReduce/Removing.antt =====
-- Routines that remove files of a job of src/mapreduce/mapreduce.go: one after the other, and in the
-- loops of `CleanupFiles`.
use distributed_systems_engi.Base.{
  ℕ, zero, suc, ◌+◌, ◌<◌, ◌≡◌, ◌≢◌, refl, ◌∙◌, Bool, true, false, ◌||◌, Option, none, some, arith,
  Str, str_eq, is_some, lookup, delete, if◌then◌else◌, Option-cases, inl, inr,
}
use distributed_systems_engi.MapReduce.{Files, run_jobs, remove_file, ◌>>=◌}
use distributed_systems_engi.MapReduce.Names.{
  Name, name_of, IsSmall, eq_name, eq_name_self, lookup-remove,
}

-- The file is there.
abbrev pub IsThere : Str → Files → Name → Type 0
IsThere file fs a = is_some (lookup (name_of file a) fs) ≡ true

-- Where the files of a set are there, the routine ends and has removed these and no others of the job.
pub record Removes (file : Str) (gone : Name → Bool) (f : Files → Option Files) : Type 0 where
  pub ends :
      (fs : Files)
      → ((a : Name) → IsSmall a → gone a ≡ true → IsThere file fs a)
      → (fs' : Files) × (f fs ≡ some fs')
        × ((a : Name)
            → IsSmall a
            → lookup (name_of file a) fs' ≡ (if gone a then none else lookup (name_of file a) fs))

bind-elim :
    (o : Option Files) (f : Files → Option Files)
    → (elim o [ none ↦ none | some fs ↦ f fs ]) ≡ (o >>= f)
bind-elim none f = refl
bind-elim (some fs) f = refl

pub Removes-same :
    {file : Str} {gone gone' : Name → Bool} {f f' : Files → Option Files}
    → ((a : Name) → gone' a ≡ gone a)
    → ((fs : Files) → f' fs ≡ f fs)
    → Removes file gone f
    → Removes file gone' f'
Removes-same same same' h = record {
  ends = λ fs there.
      let (fs', ran, look) = h.ends fs (λ a small g. there a small (same a ∙ g)) in
      (fs', same' fs ∙ ran, λ a small. rw (same a) (look a small));
}

-- Some job from `i` on, below `i + n`, removes the file.
abbrev pub any : (ℕ → Name → Bool) → ℕ → ℕ → Name → Bool
any gone zero i a = false
any gone (suc n) i a = gone i a || any gone n (suc i) a

any-apart :
    (gone : ℕ → Name → Bool) (n i k : ℕ) (a : Name)
    → ((j m : ℕ) → j ≢ m → gone j a ≡ true → gone m a ≡ false)
    → k < i
    → gone k a ≡ true
    → any gone n i a ≡ false
any-apart gone zero i k a apart lt g = refl
any-apart gone (suc n) i k a apart lt g =
    ground
      (arith, apart k i (λ e. omega arith) g, any-apart gone n (suc i) k a apart (omega arith) g)

module _ (file : Str) where
  pub remove_file-Removes :
      (a : Name) → IsSmall a → Removes file (eq_name a) (remove_file (name_of file a))
  unfolding remove_file
  remove_file-Removes a small = record {
    ends = λ fs there. elim (Option-cases (lookup (name_of file a) fs)) [
      | inl missing ↦ absurd (ground (arith, missing, there a small (eq_name_self a)))
      | inr (text, found) ↦ (
        delete (name_of file a) fs,
        ground (arith, found),
        λ b hb. lookup-remove file a b fs small hb,
      )
    ];
  }

  pub seq-Removes :
      (gone gone' : Name → Bool) (f f' : Files → Option Files)
      → ((a : Name) → gone a ≡ true → gone' a ≡ false)
      → Removes file gone f
      → Removes file gone' f'
      → Removes file (λ a. gone a || gone' a) (λ fs. f fs >>= f')
  seq-Removes gone gone' f f' apart h h' = record {
    ends = λ fs there.
        let (fs1, ran, first) = h.ends fs (λ a small g. there a small (ground (arith, g))) in
        let (fs2, ran', second) =
          h'.ends fs1 (λ a small g. ground (arith, g, first a small, apart a, there a small)) in
        (fs2, rw ran ran', λ a small. ground (arith, first a small, second a small));
  }

  pub run_jobs-Removes :
      (gone : ℕ → Name → Bool) (job : ℕ → Files → Option Files)
      → ((a : Name) (j m : ℕ) → j ≢ m → gone j a ≡ true → gone m a ≡ false)
      → (n i : ℕ) → ((k : ℕ) → k < i + n → Removes file (gone k) (job k))
      → Removes file (any gone n i) (run_jobs job n i)
  unfolding run_jobs
  run_jobs-Removes gone job apart zero i each = record {
    ends = λ fs there. (fs, refl, λ a small. refl);
  }
  run_jobs-Removes gone job apart (suc n) i each =
      let rest = run_jobs-Removes gone job apart n (suc i) (λ k lt. each k (omega arith)) in
      let both =
        seq-Removes (gone i) (any gone n (suc i)) (job i) (run_jobs job n (suc i))
          (λ a g. any-apart gone n (suc i) i a (apart a) (omega arith) g) (each i (omega arith))
          rest in
      record {
        ends = λ fs there.
            let (fs', ran, look) = both.ends fs there in
            (fs', bind-elim (job i fs) (run_jobs job n (suc i)) ∙ ran, look);
      }
