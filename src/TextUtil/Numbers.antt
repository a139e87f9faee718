-- ===== src/TextUtil/Numbers.antt =====
-- `ParseNumber` of docpipe/textutil/textutil.go: how dots and commas are told apart before the text
-- goes to strconv.ParseFloat.
use bepaylot.Prelude.{
  ℕ, ◌+◌, Text, text, Bool, true, false, ◌&&◌, ◌||◌, not, Option, none, some, [], ◌∷◌, ◌==◌, ltb,
  if◌then◌else◌, length, keep, map, trim, contains_rune,
}
use bepaylot.GoLibrary.{Unicode}

-- strings.Count of a one-rune text.
unfoldable pub count_rune : ℕ → Text → ℕ
count_rune r s = length (keep (λ x. x == r) s)

-- strings.ReplaceAll of a one-rune text by nothing, and by another rune.
abbrev pub remove_rune : ℕ → Text → Text
remove_rune r s = keep (λ x. not (x == r)) s

abbrev pub replace_rune : ℕ → ℕ → Text → Text
replace_rune r q s = map (λ x. if x == r then q else x) s

-- len(string(r)), and len(t), in bytes.
abbrev pub utf8_len : ℕ → ℕ
utf8_len r = if ltb r 0x80 then 1 else if ltb r 0x800 then 2 else if ltb r 0x10000 then 3 else 4

unfoldable pub byte_len : Text → ℕ
byte_len [] = 0
byte_len (r ∷ rs) = utf8_len r + byte_len rs

-- The number of bytes after the first `r`, a rune of one byte: len(t) - strings.Index(t, r) - 1.
unfoldable pub after_first : ℕ → Text → ℕ
after_first r [] = 0
after_first r (x ∷ xs) = let rest = after_first r xs in if x == r then byte_len xs else rest

-- The number of runes after the last `r`: the later of two marks has fewer after it.
unfoldable pub after_last : ℕ → Text → ℕ
after_last r [] = 0
after_last r (x ∷ xs) =
    let rest = after_last r xs in if x == r && count_rune r xs == 0 then length xs else rest

-- The `switch` that decides which marks group digits and which is the decimal mark.
unfoldable pub plain_number : Text → Text
unfolding count_rune after_first after_last byte_len
plain_number t =
    let dots = count_rune b'.' t in
    let commas = count_rune b',' t in
    if ltb 0 dots && ltb 0 commas
    then (if ltb (after_last b',' t) (after_last b'.' t)
        then replace_rune b',' b'.' (remove_rune b'.' t)
        else remove_rune b',' t)
    else if ltb 1 dots
    then remove_rune b'.' t
    else if ltb 1 commas
    then remove_rune b',' t
    else if dots == 1 && after_first b'.' t == 3
    then remove_rune b'.' t
    else if commas == 1 && after_first b',' t == 3
    then remove_rune b',' t
    else if commas == 1
    then replace_rune b',' b'.' t
    else t

module _ {Float : Type 0} (u : Unicode Float) where
  abbrev pub is_kept : ℕ → Bool
  is_kept r = u.is_digit r || r == b'.' || r == b',' || r == b'-'

  -- The loop: digits and marks are kept, spaces and letters dropped, anything else is an error.
  unfoldable pub number_runes : Text → Option Text
  number_runes [] = some []
  number_runes (r ∷ rs) =
      let rest = number_runes rs in
      if is_kept r
      then elim rest [ none ↦ none | some t ↦ some (r ∷ t) ]
      else if u.is_space r || u.is_letter r
      then rest
      else none

  abbrev pub is_blank : Text → Bool
  is_blank [] = true
  is_blank (_ ∷ _) = false

  unfoldable pub parse_number : Text → Option Float
  unfolding number_runes plain_number
  parse_number s = elim (number_runes s) [
    | none ↦ none
    | some t ↦
        if is_blank (trim (contains_rune (text ".,-")) t)
        then none
        else u.parse_float (plain_number t)
  ]
