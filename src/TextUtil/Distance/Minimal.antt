-- ===== src/TextUtil/Distance/Minimal.antt =====
-- The table of `levenshtein` of docpipe/textutil/textutil.go against the recursive description of the
-- edit distance.
use bepaylot.Prelude.{
  ℕ, suc, ◌+◌, ◌≡◌, refl, sym, ap, ap₂, ◌∙◌, Text, List, [], ◌∷◌, ltb, if◌then◌else◌, length,
  Bool-cases, inl, inr, arith,
}
use Prim.Native.Nat.{min}
use bepaylot.TextUtil.Distance.{
  count_up, cost, row_from, next_row, rows_from, last_cell, table_distance, levenshtein,
}

-- The least number of insertions, deletions and replacements that turn one text into another, by their
-- last runes; the texts are written backwards.
abbrev pub edits : Text → Text → ℕ
edits [] t = length t
edits (x ∷ s) [] = suc (length s)
edits (x ∷ s) (y ∷ t) = min (min (edits s (y ∷ t) + 1) (edits (x ∷ s) t + 1)) (edits s t + cost x y)

abbrev pub onto : Text → Text → Text
onto [] acc = acc
onto (x ∷ s) acc = onto s (x ∷ acc)

abbrev pub backwards : Text → Text
backwards s = onto s []

edits_comm : (s t : Text) → edits s t ≡ edits t s
edits_comm [] [] = refl
edits_comm [] (y ∷ t) = refl
edits_comm (x ∷ s) [] = refl
edits_comm (x ∷ s) (y ∷ t) =
    ground (arith, edits_comm s (y ∷ t), edits_comm (x ∷ s) t, edits_comm s t)

-- The cells of a row after the one of `t`.
cells : Text → Text → Text → List ℕ
cells s t [] = []
cells s t (y ∷ b) = edits s (y ∷ t) ∷ cells s (y ∷ t) b

row_from-cells :
    (x : ℕ) (s t b : Text)
    → row_from x b (edits s t) (edits (x ∷ s) t) (cells s t b) ≡ cells (x ∷ s) t b
unfolding row_from cells
row_from-cells x s t [] = refl
row_from-cells x s t (y ∷ b) = ap (λ c. edits (x ∷ s) (y ∷ t) ∷ c) (row_from-cells x s (y ∷ t) b)

edits_nil : (s : Text) → edits s [] ≡ length s
edits_nil [] = refl
edits_nil (x ∷ s) = refl

next_row-cells :
    (i x : ℕ) (b s : Text)
    → i ≡ suc (length s)
    → next_row i x b (length s ∷ cells s [] b) ≡ suc (length s) ∷ cells (x ∷ s) [] b
unfolding next_row
next_row-cells i x b s e =
    ap₂ (λ k d. k ∷ row_from x b d k (cells s [] b)) e (sym (edits_nil s))
    ∙ ap (λ c. suc (length s) ∷ c) (row_from-cells x s [] b)

rows_from-cells :
    (i : ℕ) (a b s : Text)
    → i ≡ suc (length s)
    → rows_from i a b (length s ∷ cells s [] b) ≡ length (onto a s) ∷ cells (onto a s) [] b
unfolding rows_from
rows_from-cells i [] b s e = refl
rows_from-cells i (x ∷ a) b s e =
    ap (λ r. rows_from (i + 1) a b r) (next_row-cells i x b s e)
    ∙ rows_from-cells (i + 1) a b (x ∷ s) (omega (arith, e))

count_up-cells : (k : ℕ) (t b : Text) → k ≡ length t → count_up k (length b) ≡ k ∷ cells [] t b
unfolding count_up cells
count_up-cells k t [] e = refl
count_up-cells k t (y ∷ b) e =
    ap (λ c. k ∷ c)
      (count_up-cells (k + 1) (y ∷ t) b (omega (arith, e))
        ∙ ap (λ n. n ∷ cells [] (y ∷ t) b) (omega (arith, e)))

last_cell-cells : (s t b : Text) → last_cell (edits s t ∷ cells s t b) ≡ edits s (onto b t)
unfolding last_cell cells
last_cell-cells s t [] = refl
last_cell-cells s t (y ∷ b) = last_cell-cells s (y ∷ t) b

table_distance-edits : (a b : Text) → table_distance a b ≡ edits (backwards a) (backwards b)
table_distance-edits a b =
    ap (λ r. last_cell (rows_from 1 a b r)) (count_up-cells 0 [] b refl)
    ∙ ap last_cell (rows_from-cells 1 a b [] refl)
    ∙ ap (λ n. last_cell (n ∷ cells (backwards a) [] b)) (sym (edits_nil (backwards a)))
    ∙ last_cell-cells (backwards a) [] b

-- `levenshtein` computes the edit distance: the least number of insertions, deletions and replacements,
-- as its recursion on the last runes of the two texts gives it.
pub levenshtein-edits : (a b : Text) → levenshtein a b ≡ edits (backwards a) (backwards b)
unfolding levenshtein
levenshtein-edits a b = elim (Bool-cases (ltb (length a) (length b))) [
  | inl e ↦
      ap (λ c. if c then table_distance b a else table_distance a b) e
      ∙ table_distance-edits b a
      ∙ edits_comm (backwards b) (backwards a)
  | inr e ↦
      ap (λ c. if c then table_distance b a else table_distance a b) e ∙ table_distance-edits a b
]
