-- ===== src/TextUtil/Distance.antt =====
-- `levenshtein` and `Similarity` of docpipe/textutil/textutil.go. A row of the table is a list; `prev`
-- and `cur` of the loops are the argument and the result of `next_row`.
pub mod Minimal
use bepaylot.Prelude.{ℕ, zero, suc, ◌+◌, Text, List, [], ◌∷◌, ◌==◌, ltb, if◌then◌else◌, length}
use Prim.Native.Nat.{min}

-- The initial row: 0, 1, ... up to `n`.
unfoldable pub count_up : ℕ → ℕ → List ℕ
count_up from zero = from ∷ []
count_up from (suc n) = from ∷ count_up (from + 1) n

abbrev pub cost : ℕ → ℕ → ℕ
cost x y = if x == y then 0 else 1

-- The inner loop over `j`: `diagonal` is prev[j-1], `left` is cur[j-1], the list is prev[j ..].
unfoldable pub row_from : ℕ → Text → ℕ → ℕ → List ℕ → List ℕ
row_from x [] diagonal left above = []
row_from x (y ∷ b) diagonal left [] = []
row_from x (y ∷ b) diagonal left (p ∷ above) =
    let here = min (min (p + 1) (left + 1)) (diagonal + cost x y) in
    here ∷ row_from x b p here above

-- One round of the outer loop, for the rune `x` of `a` with `i` runes up to it.
unfoldable pub next_row : ℕ → ℕ → Text → List ℕ → List ℕ
next_row i x b [] = []
next_row i x b (p ∷ above) = i ∷ row_from x b p i above

unfoldable pub rows_from : ℕ → Text → Text → List ℕ → List ℕ
rows_from i [] b prev = prev
rows_from i (x ∷ a) b prev = rows_from (i + 1) a b (next_row i x b prev)

-- prev[len(b)]
unfoldable pub last_cell : List ℕ → ℕ
last_cell [] = 0
last_cell (c ∷ []) = c
last_cell (c ∷ d ∷ cs) = last_cell (d ∷ cs)

abbrev pub table_distance : Text → Text → ℕ
table_distance a b = last_cell (rows_from 1 a b (count_up 0 (length b)))

unfoldable pub levenshtein : Text → Text → ℕ
levenshtein a b = if ltb (length a) (length b) then table_distance b a else table_distance a b
