-- ===== src/TextUtil.antt =====
-- docpipe/textutil/textutil.go: Vietnamese-aware comparison forms of texts, similarity and the reading
-- of numbers. Texts are lists of code points, so a length in runes is a length here.
pub mod Distance
pub mod Numbers
use bepaylot.Prelude.{
  ℕ, zero, suc, ◌+◌, ◌/◌, Text, text, text_eq, contains_rune, contains, has_prefix, trim, join,
  Bool, true, false, ◌&&◌, ◌||◌, not, Option, none, some, List, [], ◌∷◌, ◌++◌, ◌==◌, leb,
  if◌then◌else◌, length, keep, map,
}
use bepaylot.GoLibrary.{Unicode}

-- The replacer of `đ` and `Đ`.
abbrev pub fold_d : ℕ → ℕ
fold_d r = if r == 0x111 then b'd' else if r == 0x110 then b'D' else r

-- utf8.RuneError
abbrev pub rune_error : ℕ
rune_error = 0xfffd

abbrev pub take_runes : ℕ → Text → Text
take_runes zero s = []
take_runes (suc n) [] = []
take_runes (suc n) (r ∷ rs) = r ∷ take_runes n rs

module _ {Float : Type 0} (u : Unicode Float) where
  abbrev pub stripped : Text → Option Text → Text
  stripped s none = s
  stripped s (some out) = out

  -- Unaccent
  unfoldable pub unaccent : Text → Text
  unaccent s = u.to_lower (stripped (map fold_d s) (u.strip_marks (map fold_d s)))

  -- strings.Fields: the runs of runes that are no space. `word` is the run before the runes left.
  abbrev pub end_word : Text → List Text → List Text
  end_word [] words = words
  end_word (r ∷ rs) words = (r ∷ rs) ∷ words

  unfoldable pub fields_from : Text → Text → List Text
  fields_from word [] = end_word word []
  fields_from word (r ∷ rs) = elim (u.is_space r) [
    | true ↦ end_word word (fields_from [] rs)
    | false ↦ fields_from (word ++ r ∷ []) rs
  ]

  -- CollapseSpace
  unfoldable pub collapse_space : Text → Text
  unfolding fields_from
  collapse_space s = join (text " ") (fields_from [] s)

  -- Normalize
  unfoldable pub normalize : Text → Text
  unfolding unaccent collapse_space
  normalize s = collapse_space (unaccent s)

  -- ContainsFold
  unfoldable pub contains_fold : Text → Text → Bool
  unfolding normalize
  contains_fold haystack needle = contains (normalize haystack) (normalize needle)

  abbrev pub is_alnum : ℕ → Bool
  is_alnum r = u.is_letter r || u.is_digit r

  -- The separators that a value of digits may have.
  abbrev pub is_separator : ℕ → Bool
  is_separator r = contains_rune (text " .,-/_'") r

  -- `numeric` after the loop of ValueKey: every rune is a digit or a separator.
  unfoldable pub is_numeric : Text → Bool
  is_numeric [] = true
  is_numeric (r ∷ rs) = (u.is_digit r || is_separator r) && is_numeric rs

  abbrev pub is_empty : Text → Bool
  is_empty [] = true
  is_empty (_ ∷ _) = false

  -- The key of a text that is accent-folded.
  unfoldable pub key_of : Text → Text
  unfolding is_numeric
  key_of s =
      if is_numeric s && not (is_empty (keep u.is_digit s))
      then keep u.is_digit s
      else keep is_alnum s

  -- ValueKey
  unfoldable pub value_key : Text → Text
  unfolding unaccent key_of
  value_key s = key_of (unaccent (trim u.is_space s))

  -- ValueIn
  unfoldable pub value_in : Text → Text → Bool
  unfolding value_key
  value_in value s =
      if is_empty (value_key value)
      then false
      else if contains (keep u.is_digit s) (value_key value)
      then true
      else contains (keep is_alnum (unaccent s)) (value_key value)

  -- The counts `bad` and `total` of BadCharRatio, which gives their quotient.
  abbrev pub is_bad : ℕ → Bool
  is_bad r = r == rune_error || u.is_private r || u.is_control r

  unfoldable pub bad_chars : Text → ℕ × ℕ
  bad_chars s = (length (keep is_bad shown), length shown)
    where
      shown : Text
      shown = keep (λ r. not (u.is_space r)) s

-- EstimateTokens
unfoldable pub estimate_tokens : Text → ℕ
estimate_tokens s = if length s == 0 then 0 else length s / 3 + 1

-- Truncate
unfoldable pub truncate : Text → ℕ → Text
truncate s n = if leb (length s) n then s else take_runes n s ++ text "…"
