-- ===== src/Base/Text.antt =====
-- Go strings as lists of bytes, where the code takes them apart, and what the code uses of the
-- packages strings and strconv: Split at one byte, Itoa, and Atoi for texts with no sign.
use Prim.Native.Char.{code}
use Prim.Native.String.{String}
use Prim.Native.Nat.{ℕ, zero, suc, ◌+◌, ◌-◌, ◌*◌, ◌/◌, ◌%◌, ◌^◌, ◌≤◌, ◌<◌}
use mathlib.Core.Path.{◌≡◌, refl, ap, ◌∙◌}
use mathlib.Core.Logic.{◌≢◌, ◌⊎◌, ◌↔◌, inl, inr}
use mathlib.Core.Bool.{Bool, true, false, ◌&&◌}
use mathlib.Core.Option.{Option, none, some}
use mathlib.Core.List.{List, [], ◌∷◌, ◌++◌}
use native.Mathlib.Omega.{arith}
use distributed_systems_engi.Base.Tests.{ltb, leb, eqb, Bool-cases, if◌then◌else◌}
use distributed_systems_engi.Base.Keys.{Eq}
use distributed_systems_engi.Base.Lists.{All, All-append, All-mono}

abbrev pub Str : Type 0
Str = List ℕ

-- The bytes of an ASCII text
abbrev pub codes : String → Str
codes String.[] = []
codes (String.◌∷◌ c s) = code c ∷ codes s

unfoldable pub beq_str : Str → Str → Bool
beq_str [] [] = true
beq_str (a ∷ s) (b ∷ t) = eqb a b && beq_str s t
beq_str _ _ = false

beq_str→eq : (s t : Str) → beq_str s t ≡ true → s ≡ t
unfolding beq_str
beq_str→eq [] [] h = refl
beq_str→eq (a ∷ s) (b ∷ t) h = ground (arith, beq_str→eq s t)
beq_str→eq [] (b ∷ t) h = cc
beq_str→eq (a ∷ s) [] h = cc

beq_str_self : (s : Str) → beq_str s s ≡ true
unfolding beq_str
beq_str_self [] = refl
beq_str_self (a ∷ s) = ground (arith, beq_str_self s)

pub beq_str_iff : (s t : Str) → (beq_str s t ≡ true) ↔ (s ≡ t)
beq_str_iff s t = (beq_str→eq s t, λ e. rw e (beq_str_self t))

instance abbrev pub str_eq : Eq Str
str_eq = record { test = beq_str; test_iff = beq_str_iff }

-- strings.Split(s, sep) for a separator of one byte
cons_head : ℕ → List Str → List Str
cons_head c [] = (c ∷ []) ∷ []
cons_head c (p ∷ ps) = (c ∷ p) ∷ ps

unfoldable pub split : ℕ → Str → List Str
unfolding cons_head
split sep [] = [] ∷ []
split sep (c ∷ s) = let rest = split sep s in if eqb c sep then [] ∷ rest else cons_head c rest

-- strconv.Itoa and FormatInt(_, 10) of a number that is not negative; the fuel is above the number.
digits : ℕ → ℕ → Str
digits zero n = []
digits (suc f) n =
    let rest = digits f (n / 10) in if ltb n 10 then (48 + n) ∷ [] else rest ++ (48 + n % 10) ∷ []

unfoldable pub itoa : ℕ → Str
unfolding digits
itoa n = digits (suc n) n

abbrev is_digit : ℕ → Bool
is_digit c = leb 48 c && leb c 57

parse_digits : ℕ → Str → Option ℕ
parse_digits acc [] = some acc
parse_digits acc (c ∷ s) = if is_digit c then parse_digits (acc * 10 + (c - 48)) s else none

abbrev pub max_int : ℕ
max_int = 2 ^ 63 - 1

-- The largest uint32
abbrev pub max_uint32 : ℕ
max_uint32 = 2 ^ 32 - 1

-- The number that strconv.Atoi returns: 0 with a syntax error
-- (and so for the empty text), the largest int with a range error.
abbrev clamp : Option ℕ → ℕ
clamp none = 0
clamp (some n) = if ltb max_int n then max_int else n

unfoldable pub atoi : Str → ℕ
unfolding parse_digits
atoi s = clamp (parse_digits 0 s)

abbrev IsDigit : ℕ → Type 0
IsDigit c = (48 ≤ c) × (c ≤ 57)

digits-All : (f n : ℕ) → All IsDigit (digits f n)
unfolding digits
digits-All zero n = tt
digits-All (suc f) n = elim (Bool-cases (ltb n 10)) [
  | inl small ↦ rw small (ground arith)
  | inr big ↦
      rw big (All-append IsDigit (digits f (n / 10)) _ (digits-All f (n / 10)) (omega arith))
]

parse_digits-append :
    (s : Str) (acc c m : ℕ)
    → parse_digits acc s ≡ some m
    → 48 ≤ c
    → c ≤ 57
    → parse_digits acc (s ++ c ∷ []) ≡ some (m * 10 + (c - 48))
unfolding parse_digits
parse_digits-append [] acc c m h lo hi = ground arith
parse_digits-append (d ∷ s) acc c m h lo hi =
    ground (arith, parse_digits-append s (acc * 10 + (d - 48)) c m)

parse_digits-digits : (f n : ℕ) → n < f → parse_digits 0 (digits f n) ≡ some n
unfolding digits
parse_digits-digits zero n h = absurd (omega arith)
parse_digits-digits (suc f) n h = elim (Bool-cases (ltb n 10)) [
  | inl small ↦ rw small (unfold parse_digits in ground arith)
  | inr big ↦ rw big (
      parse_digits-append (digits f (n / 10)) 0 (48 + n % 10) (n / 10)
        (parse_digits-digits f (n / 10) (ground arith)) (omega arith) (omega arith)
      ∙ ap some (omega arith))
]

-- Reading back a printed number.
pub atoi-itoa : (n : ℕ) → n ≤ max_int → atoi (itoa n) ≡ n
unfolding atoi itoa
atoi-itoa n h = rw (parse_digits-digits (suc n) n (omega arith)) (ground arith)

module _ (sep : ℕ) where
  -- The separator does not occur.
  abbrev pub Lacks : Str → Type 0
  Lacks = All (λ c. c ≢ sep)

  pub split-Lacks : (s : Str) → Lacks s → split sep s ≡ s ∷ []
  unfolding split
  split-Lacks [] h = refl
  split-Lacks (c ∷ s) h = ground (arith, split-Lacks s)

  pub split-append : (s t : Str) → Lacks s → split sep (s ++ sep ∷ t) ≡ s ∷ split sep t
  unfolding split
  split-append [] t h = ground arith
  split-append (c ∷ s) t h = ground (arith, split-append s t)

  pub itoa-Lacks : (n : ℕ) → sep < 48 ⊎ 57 < sep → Lacks (itoa n)
  unfolding itoa
  itoa-Lacks n h =
      All-mono IsDigit (λ c. c ≢ sep) (λ c d e. omega (arith, d, e, h)) (digits (suc n) n)
        (digits-All (suc n) n)

-- Two printed numbers, joined by "_", split into the two.
pub split-join : (m n : ℕ) → split 95 (itoa m ++ 95 ∷ itoa n) ≡ itoa m ∷ itoa n ∷ []
unfolding itoa
split-join m n =
    split-append 95 (itoa m) (itoa n) (itoa-Lacks 95 m (omega arith))
    ∙ ap (λ ps. itoa m ∷ ps) (split-Lacks 95 (itoa n) (itoa-Lacks 95 n (omega arith)))

pub itoa-injective : (m n : ℕ) → m ≤ max_int → n ≤ max_int → itoa m ≡ itoa n → m ≡ n
itoa-injective m n hm hn e = cc (atoi-itoa m hm, atoi-itoa n hn, e)
