-- ===== src/Paxos/Number.antt =====
-- Proposal numbers (`GetProposalNum` and `Bigger` in src/paxos/paxos.go): texts "head_tail", where the
-- head is made of peer indices and the tail is a clock reading.
use distributed_systems_engi.Base.{
  ℕ, suc, ◌+◌, ◌*◌, ◌^◌, ◌<◌, ◌≤◌, ◌≡◌, ◌≢◌, refl, sym, ap, ◌∙◌, inl, inr, Bool, true, false, not,
  List, [], ◌∷◌, ◌++◌, arith, ltb, eqb, ◌==◌, ==-iff, ==-of_ne, Str, str_eq, beq_str, split, itoa,
  atoi, atoi-itoa, split-join, itoa-injective, max_int, if◌then◌else◌, Bool-cases,
}

-- The byte '_', at which `Bigger` and `GetProposalNum` split.
abbrev pub sep : ℕ
sep = b'_'

-- The branches of `Bigger` for two different texts, on the parts of each.
bigger_parts : List Str → List Str → Bool
bigger_parts (a0 ∷ a1 ∷ ps) (b0 ∷ b1 ∷ qs) =
    if not (a0 == b0) then ltb (atoi b0) (atoi a0) else ltb (atoi b1) (atoi a1)
bigger_parts (a0 ∷ a1 ∷ ps) _ = true
bigger_parts _ _ = false

unfoldable pub bigger : Str → Str → Bool
unfolding bigger_parts
bigger a b = if a == b then false else bigger_parts (split sep a) (split sep b)

-- strings.Split(src, "_")[0]
head_part : List Str → Str
head_part [] = []
head_part (p ∷ ps) = p

-- The peer `me` of `peers` peers makes a number after `src`, at the clock reading `now`.
unfoldable pub get_proposal_num : ℕ → ℕ → ℕ → Str → Str
unfolding head_part
get_proposal_num peers me now src =
    let index = atoi (head_part (split sep src)) in
    let head =
      if src == [] then itoa me else if eqb index me then itoa index else itoa (index + peers) in
    head ++ sep ∷ itoa now

-- The text of a number with the given head and clock reading.
abbrev pub number : ℕ → ℕ → Str
number h t = itoa h ++ sep ∷ itoa t

-- The rank of a text: 0 for one that is no number, and else a number that grows with head and tail.
rank_parts : List Str → ℕ
rank_parts (a0 ∷ a1 ∷ ps) = suc (atoi a0 * 2 ^ 63 + atoi a1)
rank_parts _ = 0

pub rank : Str → ℕ
unfolding rank_parts
rank a = rank_parts (split sep a)

-- The texts that stand in the protocol: none yet, or a number within int64.
pub data IsNum : Str → Type 0 where
  none_yet : IsNum []
  numbered : (h t : ℕ) → h ≤ max_int → t ≤ max_int → IsNum (number h t)

rank-number : (h t : ℕ) → h ≤ max_int → t ≤ max_int → rank (number h t) ≡ suc (h * 2 ^ 63 + t)
unfolding rank
rank-number h t bh bt = rw (split-join h t) (ground (arith, atoi-itoa h, atoi-itoa t))

pub rank-nil : rank [] ≡ 0
unfolding rank split
rank-nil = refl

itoa-test : (h h' : ℕ) → h ≤ max_int → h' ≤ max_int → (itoa h == itoa h') ≡ eqb h h'
itoa-test h h' bh bh' =
    ground (arith, ==-iff (itoa h) (itoa h'), itoa-injective h h' bh bh', λ (e : h ≡ h'). ap itoa e)

number-injective :
    (h t h' t' : ℕ)
    → h ≤ max_int
    → t ≤ max_int
    → h' ≤ max_int
    → t' ≤ max_int
    → number h t ≡ number h' t'
    → (h ≡ h') × (t ≡ t')
number-injective h t h' t' bh bt bh' bt' e =
    let p : split sep (number h t) ≡ split sep (number h' t') = ap (split sep) e in
    let q : itoa h ∷ itoa t ∷ [] ≡ itoa h' ∷ itoa t' ∷ [] =
      sym (split-join h t) ∙ p ∙ split-join h' t' in
    (itoa-injective h h' bh bh' (cc), itoa-injective t t' bt bt' (cc))

parts-rank :
    (h t h' t' : ℕ)
    → h ≤ max_int
    → t ≤ max_int
    → h' ≤ max_int
    → t' ≤ max_int
    → bigger_parts (itoa h ∷ itoa t ∷ []) (itoa h' ∷ itoa t' ∷ [])
      ≡ ltb (h' * 2 ^ 63 + t') (h * 2 ^ 63 + t)
unfolding bigger_parts
parts-rank h t h' t' bh bt bh' bt' =
    rw (itoa-test h h' bh bh', atoi-itoa h bh, atoi-itoa h' bh', atoi-itoa t bt, atoi-itoa t' bt')
      (ground arith)

number-ne-nil : (h t : ℕ) → h ≤ max_int → t ≤ max_int → number h t ≢ []
number-ne-nil h t bh bt e =
    let p : rank (number h t) ≡ rank [] = ap rank e in
    omega (arith, p, rank-nil, rank-number h t bh bt)

-- On numbers and the empty text `Bigger` compares the ranks: the heads first, then the readings.
pub bigger-rank : {a b : Str} → IsNum a → IsNum b → bigger a b ≡ ltb (rank b) (rank a)
unfolding bigger bigger_parts
bigger-rank none_yet none_yet = unfold split rank beq_str in refl
bigger-rank none_yet (numbered h t bh bt) =
    rw (rank-nil, rank-number h t bh bt) (unfold split in ground arith)
bigger-rank (numbered h t bh bt) none_yet =
    rw
      (
        rank-nil,
        rank-number h t bh bt,
        split-join h t,
        ==-of_ne (number h t) [] (number-ne-nil h t bh bt),
      )
      (unfold split in ground arith)
bigger-rank (numbered h t bh bt) (numbered h' t' bh' bt') =
    elim (Bool-cases (number h t == number h' t')) [
      | inl e ↦
          let p =
            number-injective h t h' t' bh bt bh' bt' ((==-iff (number h t) (number h' t')).0 e) in
          rw (e, rank-number h t bh bt, rank-number h' t' bh' bt') (ground (arith, p))
      | inr n ↦
          rw
            (
              n,
              rank-number h t bh bt,
              rank-number h' t' bh' bt',
              split-join h t,
              split-join h' t',
              parts-rank h t h' t' bh bt bh' bt',
            )
            (ground arith)
    ]

-- Different numbers have different ranks.
pub rank-injective : {a b : Str} → IsNum a → IsNum b → rank a ≡ rank b → a ≡ b
rank-injective none_yet none_yet e = refl
rank-injective none_yet (numbered h t bh bt) e =
    absurd (omega (arith, e, rank-nil, rank-number h t bh bt))
rank-injective (numbered h t bh bt) none_yet e =
    absurd (omega (arith, e, rank-nil, rank-number h t bh bt))
rank-injective (numbered h t bh bt) (numbered h' t' bh' bt') e =
    let (p, q) =
      same_pair h t h' t' bt bt'
        (omega (arith, e, rank-number h t bh bt, rank-number h' t' bh' bt')) in
    cc
  where
    same_pair :
        (h t h' t' : ℕ)
        → t ≤ max_int
        → t' ≤ max_int
        → h * 2 ^ 63 + t ≡ h' * 2 ^ 63 + t'
        → (h ≡ h') × (t ≡ t')
    same_pair h t h' t' bt bt' e = omega arith

get_proposal_num_lem :
    (peers me now h t : ℕ)
    → h ≤ max_int
    → t ≤ max_int
    → get_proposal_num peers me now (number h t) ≡ number (if eqb h me then h else h + peers) now
unfolding get_proposal_num
get_proposal_num_lem peers me now h t bh bt =
    rw (split-join h t, atoi-itoa h bh, ==-of_ne (number h t) [] (number-ne-nil h t bh bt))
      (ground arith)

-- The number that a peer makes after it was refused in favour of a number `number h t` is a number,
-- and bigger, if the clock has gone on since `t`, there are peers, and the new head is an int.
pub get_proposal_num-bigger :
    (peers me now h t : ℕ)
    → 0 < peers
    → h + peers ≤ max_int
    → t < now
    → now ≤ max_int
    → IsNum (get_proposal_num peers me now (number h t))
      × (bigger (get_proposal_num peers me now (number h t)) (number h t) ≡ true)
get_proposal_num-bigger peers me now h t hp bh lt bt =
    let h' = (if eqb h me then h else h + peers) in
    let ge : h ≤ h' = ground arith in
    let le : h' ≤ max_int = ground arith in
    let e = get_proposal_num_lem peers me now h t (omega arith) (omega arith) in
    rw e (
      numbered h' now le bt,
      bigger-rank (numbered h' now le bt) (numbered h t (omega arith) (omega arith))
          ∙ rw (rank-number h t (omega arith) (omega arith), rank-number h' now le bt)
              (ground arith),
    )

-- Two peers that both differ from the head of `src` make the same number after `src` at the same
-- clock reading, whatever their indices are.
pub get_proposal_num-clash :
    (peers me other now h t : ℕ)
    → h ≤ max_int
    → t ≤ max_int
    → h ≢ me
    → h ≢ other
    → get_proposal_num peers me now (number h t) ≡ get_proposal_num peers other now (number h t)
get_proposal_num-clash peers me other now h t bh bt n m =
    rw (get_proposal_num_lem peers me now h t bh bt, get_proposal_num_lem peers other now h t bh bt)
      (ground arith)
