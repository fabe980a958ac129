-- ===== src/MapReduce/Splitting.antt =====
-- `Split` of src/mapreduce/mapreduce.go: it cuts a text between lines, into at most as many texts as
-- there are map jobs. Where it makes fewer, a map job has no input.
use native.Mathlib.Nat.{div-add-mod, mod-lt}
use mathlib.Core.List.{append_assoc, append-nil}
use distributed_systems_engi.Base.{
  ℕ, ◌+◌, ◌*◌, ◌/◌, ◌<◌, ◌≤◌, ◌≡◌, refl, sym, ap, ◌∙◌, inl, inr, List, [], ◌∷◌, ◌++◌, map, arith,
  ltb, ◌==◌, nat_eq, Str, str_eq, codes, beq_str, ℕ_discrete, split, split-append, Lacks,
  Bool-cases, All, length, length-append,
}
use distributed_systems_engi.MapReduce.{
  drop_cr, scan_pieces, scan_lines, split_lines, split_text, max_token,
}

-- A text of whole lines
unfoldable pub unlines : List Str → Str
unlines [] = []
unlines (l ∷ ls) = l ++ codes "\n" ++ unlines ls

unfoldable pub concat {ℓ} : {A : Type ℓ} → List (List A) → List A
concat [] = []
concat (xs ∷ xss) = xs ++ concat xss

-- A line that the scanner gives back as it is: no newline, no carriage return, not too long.
abbrev pub IsLine : Str → Type 0
IsLine l = Lacks 10 l × Lacks 13 l × (length l < max_token)

split-cons : (s : Str) → (p : Str) × (ps : List Str) × (split 10 s ≡ p ∷ ps)
unfolding split
split-cons [] = ([], [], refl)
split-cons (c ∷ s) =
    let (p, ps, e) = split-cons s in
    elim (Bool-cases (c == 10)) [
      | inl newline ↦ ([], split 10 s, ground (arith, newline))
      | inr other ↦ (c ∷ p, ps, ground (arith, other, e))
    ]

drop_cr-Lacks : (l : Str) → Lacks 13 l → drop_cr l ≡ l
unfolding drop_cr
drop_cr-Lacks [] h = refl
drop_cr-Lacks (c ∷ []) h = ground (arith)
drop_cr-Lacks (c ∷ d ∷ s) h = ap (λ t. c ∷ t) (drop_cr-Lacks (d ∷ s) h.1)

-- The scanner finds the lines of a text of whole lines.
scan_lines-unlines : (ls : List Str) → All IsLine ls → scan_lines (unlines ls) ≡ ls
unfolding scan_lines unlines
scan_lines-unlines [] h = unfold split beq_str in refl
scan_lines-unlines (l ∷ ls) h =
    let rest = unlines ls in
    let (p, ps, e) = split-cons rest in
    let cut : split 10 (l ++ codes "\n" ++ rest) ≡ l ∷ p ∷ ps =
      ap (split 10) (append_assoc l (codes "\n") rest)
      ∙ split-append 10 l rest (h.0).0
      ∙ ap (λ qs. l ∷ qs) e in
    ground
      (arith, cut, ap scan_pieces e, drop_cr-Lacks l ((h.0).1), (h.0).2, scan_lines-unlines ls h.1)

unlines-append : (ls ms : List Str) → unlines (ls ++ ms) ≡ unlines ls ++ unlines ms
unfolding unlines
unlines-append [] ms = refl
unlines-append (l ∷ ls) ms =
    ap (λ t. l ++ codes "\n" ++ t) (unlines-append ls ms)
    ∙ sym (append_assoc (l ++ codes "\n") (unlines ls) (unlines ms))

split_lines-groups :
    (nchunk m i : ℕ) (opened ls : List Str)
    → (groups : List (List Str)) × (split_lines nchunk m i (unlines opened) ls ≡ map unlines groups)
      × (concat groups ≡ opened ++ ls)
unfolding split_lines concat
split_lines-groups nchunk m i opened [] = (opened ∷ [], refl, refl)
split_lines-groups nchunk m i opened (l ∷ ls) =
    let text = l ++ codes "\n" in
    let one : unlines (l ∷ []) ≡ text = unfold unlines in append-nil text in
    elim (Bool-cases (ltb (nchunk * m) i)) [
      | inl full ↦
          let (gs, e, c) = split_lines-groups nchunk (m + 1) (i + length text) (l ∷ []) ls in
          (
            opened ∷ gs,
            ground (
              arith,
              full,
              sym (ap (λ w. split_lines nchunk (m + 1) (i + length text) w ls) one) ∙ e,
            ),
            ap (λ ms. opened ++ ms) c,
          )
      | inr room ↦
          let (gs, e, c) = split_lines-groups nchunk m (i + length text) (opened ++ l ∷ []) ls in
          let w : unlines (opened ++ l ∷ []) ≡ unlines opened ++ text =
            unlines-append opened (l ∷ []) ∙ ap (λ t. unlines opened ++ t) one in
          (
            gs,
            ground (arith, room, sym (ap (λ t. split_lines nchunk m (i + length text) t ls) w) ∙ e),
            c ∙ append_assoc opened (l ∷ []) ls,
          )
    ]

-- The texts that `Split` makes of lines that the scanner gives back are whole lines of the input,
-- and put together they are all of its lines, in order.
pub split_text-groups :
    (nmap : ℕ) (ls : List Str)
    → All IsLine ls
    → (groups : List (List Str)) × (split_text nmap (unlines ls) ≡ map unlines groups)
      × (concat groups ≡ ls)
unfolding split_text
split_text-groups nmap ls h =
    let (gs, e, c) = split_lines-groups (length (unlines ls) / nmap + 1) 1 0 [] ls in
    (
      gs,
      ap (split_lines (length (unlines ls) / nmap + 1) 1 0 []) (scan_lines-unlines ls h)
          ∙ unfold unlines in e,
      c,
    )

-- The bytes of the lines, each with a newline
abbrev size : List Str → ℕ
size [] = 0
size (l ∷ ls) = length l + 1 + size ls

length-drop_cr-le : (s : Str) → length (drop_cr s) ≤ length s
unfolding drop_cr
length-drop_cr-le [] = omega arith
length-drop_cr-le (c ∷ []) = ground arith
length-drop_cr-le (c ∷ d ∷ s) = omega (arith, length-drop_cr-le (d ∷ s))

size-scan_pieces-le : (ps : List Str) → size (scan_pieces ps) ≤ size ps
unfolding scan_pieces
size-scan_pieces-le [] = omega arith
size-scan_pieces-le (p ∷ []) = ground (arith, length-drop_cr-le p)
size-scan_pieces-le (p ∷ q ∷ ps) = ground (arith, length-drop_cr-le p, size-scan_pieces-le (q ∷ ps))

size-split : (s : Str) → size (split 10 s) ≡ length s + 1
unfolding split
size-split [] = omega arith
size-split (c ∷ s) = let (p, ps, e) = split-cons s in ground (arith, e, size-split s, ap size e)

split_lines-length :
    (nchunk n total m i : ℕ) (w : Str) (ls : List Str)
    → total < nchunk * n
    → m ≤ n
    → i + size ls ≤ total + 1
    → m + length (split_lines nchunk m i w ls) ≤ n + 1
unfolding split_lines
split_lines-length nchunk n total m i w [] h le fits = omega arith
split_lines-length nchunk n total m i w (l ∷ ls) h le fits =
    let text = l ++ codes "\n" in
    let len : length text ≡ length l + 1 = length-append l (codes "\n") in
    elim (Bool-cases (ltb (nchunk * m) i)) [
      | inl full ↦
          let lt : m < n = elim (ℕ_discrete m n) [
            | yes e ↦ absurd (ground (arith, full, ap (λ (t : ℕ). nchunk * t) e))
            | no ne ↦ omega arith
          ] in
          let r =
            split_lines-length nchunk n total (m + 1) (i + length text) text ls h (omega arith)
              (omega (arith, len)) in
          ground (arith, full, r)
      | inr room ↦
          let r =
            split_lines-length nchunk n total m (i + length text) (w ++ text) ls h le
              (omega (arith, len)) in
          ground (arith, room, r)
    ]

split_lines_some :
    (nchunk m i : ℕ) (w : Str) (ls : List Str) → 1 ≤ length (split_lines nchunk m i w ls)
unfolding split_lines
split_lines_some nchunk m i w [] = omega arith
split_lines_some nchunk m i w (l ∷ ls) =
    let text = l ++ codes "\n" in
    ground (arith, split_lines_some nchunk m (i + length text) (w ++ text) ls)

nchunk_room : (total n : ℕ) → 0 < n → total < (total / n + 1) * n
nchunk_room total n h = grind (arith, div-add-mod total n, mod-lt total h)

-- `Split` makes at least one text, and at most as many as there are map jobs, whatever the input.
pub split_text-length :
    (nmap : ℕ) (s : Str)
    → 0 < nmap
    → (1 ≤ length (split_text nmap s)) × (length (split_text nmap s) ≤ nmap)
unfolding split_text scan_lines
split_text-length nmap s h =
    let nchunk = length s / nmap + 1 in
    let room : length s < nchunk * nmap = nchunk_room (length s) nmap h in
    let fits = size-scan_pieces-le (split 10 s) in
    let most =
      split_lines-length nchunk nmap (length s) 1 0 [] (scan_lines s) room (omega arith)
        (omega (arith, fits, size-split s)) in
    (split_lines_some nchunk 1 0 [] (scan_lines s), omega (arith, most))
