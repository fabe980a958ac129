-- ===== src/MapReduce/Tests.antt =====
-- The jobs on a small text with a plain coder, and the theorems at concrete inputs.
use distributed_systems_engi.Base.{
  ◌≡◌, refl, some, [], ◌∷◌, arith, Str, codes, Lacks, split, itoa, itoa-Lacks, length, lookup, map,
  beq_str, str_eq, sort_strings, elem, lt_str,
}
use distributed_systems_engi.MapReduce.{
  Files, split_text, split_lines, scan_lines, scan_pieces, drop_cr, out_name, run_single,
}
use distributed_systems_engi.MapReduce.Splitting.{concat}
use distributed_systems_engi.MapReduce.Reference.{reference, report}
use distributed_systems_engi.MapReduce.Sequential.{run_single-reference}
use distributed_systems_engi.MapReduce.WordCount.{
  wc_map, wc_reduce, count, distinct, All-map, run_single-counts,
}
use distributed_systems_engi.MapReduce.Samples.{coder, coder-IsCoder, fields, fields-All}

abbrev text : Str
text = codes "to be\nor\nnot\nto\nbe\n"

abbrev files : Files
files = (codes "in.txt", text) ∷ []

run_single-reference_example :
    (fs' : Files) × (run_single coder 2 3 (codes "in.txt") (wc_map fields) wc_reduce files
      ≡ some fs')
    × (lookup (out_name (codes "in.txt")) fs'
        ≡ some (reference (wc_map fields) wc_reduce (split_text 2 text)))
run_single-reference_example =
    run_single-reference coder (Lacks 0) coder-IsCoder (wc_map fields) wc_reduce
      (λ s. unfold wc_map in All-map (Lacks 0) (fields s) (omega arith, tt) (fields-All s))
      (λ k vs. unfold wc_reduce in itoa-Lacks 0 (length vs) (omega arith)) (codes "in.txt") 3
      (omega arith) 2 text files (omega arith) (omega arith) (omega arith)
      (unfold lookup beq_str in refl)
      (unfold split_text split_lines scan_lines scan_pieces split drop_cr beq_str in refl)

run_single-counts_example :
    let words = concat (map fields (split_text 2 text)) in
    (fs' : Files) × (run_single coder 2 3 (codes "in.txt") (wc_map fields) wc_reduce files
      ≡ some fs')
    × (lookup (out_name (codes "in.txt")) fs'
        ≡ some (report (λ w. itoa (count w words)) (sort_strings (distinct words))))
run_single-counts_example =
    run_single-counts coder (Lacks 0) fields coder-IsCoder fields-All
      (λ n. itoa-Lacks 0 n (omega arith)) 2 3 (codes "in.txt") text files (omega arith)
      (omega arith) (omega arith) (omega arith) (unfold lookup beq_str in refl)
      (unfold split_text split_lines scan_lines scan_pieces split drop_cr beq_str in refl)

counted :
    report
      (λ w. itoa (count w (concat (map fields (split_text 2 text)))))
      (sort_strings (distinct (concat (map fields (split_text 2 text)))))
    ≡ codes "be: 2\nnot: 1\nor: 1\nto: 2\n"
unfolding report itoa count concat split_text split_lines scan_lines scan_pieces split drop_cr
    beq_str sort_strings distinct elem lt_str
counted = refl
