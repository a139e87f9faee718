-- ===== src/CheckExpr/Value.antt =====
-- internal/checkexpr/eval.go: documents, scopes, values during evaluation and results. The struct
-- `value` with its tag `k` is a data type whose constructors have the fields that the code sets and
-- reads at that tag; a field that a constructor lacks is the zero value there.
pub mod Dedupe
pub mod Digits
use bepaylot.Prelude.{
  ℕ, zero, suc, ◌+◌, ◌%◌, Text, text, text_eq, contains_text, lit, join, Bool, true, false, ◌&&◌,
  not, Option, none, some, List, [], ◌∷◌, ◌++◌, ◌==◌, if◌then◌else◌, length,
}
use bepaylot.GoLibrary.{Library}

-- `Ref`
pub record Ref : Type 0 where
  pub doc : Text
  pub label : Text
  pub field_id : Text

-- `FieldValue`, `Doc`; a map is a function from its keys.
pub record FieldValue : Type 0 where
  pub text : Text
  pub field_id : Text

pub record Doc : Type 0 where
  pub id : Text
  pub doc_type : Text
  pub label : Text
  pub fields : Text → Option FieldValue

-- `FieldInfo.ValueType`: the names that the code tells apart.
pub record FieldInfo : Type 0 where
  pub label : Text
  pub value_type : Text

pub record TypeInfo : Type 0 where
  pub title : Text
  pub fields : Text → Option FieldInfo

pub record Scope : Type 0 where
  pub types : Text → Option TypeInfo
  pub groups : Text → List Doc
  pub single : Text → Option Doc
  pub single_type : Text → Option Text

-- `value`. `num` and `bool` carry `whole` and `note`; a date literal keeps its text in `s`; `pair` is
-- the value of tag kStr that BETWEEN sends through broadcast2 with its bounds in `l`.
mutual
  pub data Value (Float Time : Type 0) : Type 0 where
    unknown : List Text → List Ref → Value Float Time
    num : Float → List Ref → Bool → Value Float Time
    str : Text → List Ref → Value Float Time
    date : Time → Text → List Ref → Value Float Time
    bool : Bool → List Ref → Text → Value Float Time
    list : Values Float Time → Value Float Time
    pair : Value Float Time → Value Float Time → Value Float Time

  pub data Values (Float Time : Type 0) : Type 0 where
    nil : Values Float Time
    cons : Value Float Time → Values Float Time → Values Float Time

-- `Status`
pub data Status : Type 0 where
  pass fail unknown error : Status

-- `Item`, `Result`
pub record Item : Type 0 where
  pub note : Text
  pub refs : List Ref

pub record Result : Type 0 where
  pub status : Status
  pub detail : Text
  pub failing : List Item
  pub missing : List Text
  pub refs : List Ref

module _ {Float Time : Type 0} where
  abbrev pub refs_of : Value Float Time → List Ref
  refs_of (Value.unknown why refs) = refs
  refs_of (num x refs whole) = refs
  refs_of (str s refs) = refs
  refs_of (date t s refs) = refs
  refs_of (bool b refs note) = refs
  refs_of (list l) = []
  refs_of (pair a b) = []

  abbrev pub missing_of : Value Float Time → List Text
  missing_of (Value.unknown why refs) = why
  missing_of _ = []

  -- `v.s`
  abbrev pub string_of : Value Float Time → Text
  string_of (str s refs) = s
  string_of (date t s refs) = s
  string_of _ = []

  abbrev pub is_whole : Value Float Time → Bool
  is_whole (num x refs whole) = whole
  is_whole _ = false

  abbrev pub is_unknown : Value Float Time → Bool
  is_unknown (Value.unknown why refs) = true
  is_unknown _ = false

  abbrev pub values : Values Float Time → List (Value Float Time)
  values nil = []
  values (cons v vs) = v ∷ values vs

  abbrev pub from_values : List (Value Float Time) → Values Float Time
  from_values [] = nil
  from_values (v ∷ vs) = cons v (from_values vs)

  -- `unknown(why...)`
  abbrev pub unknown_why : List Text → Value Float Time
  unknown_why why = Value.unknown why []

-- The loop of `fmtNum`: a dot before each group of three digits counted from the right.
unfoldable pub group_digits : Text → Text
group_digits [] = []
group_digits (d ∷ []) = d ∷ []
group_digits (d ∷ e ∷ ds) =
    let rest = group_digits (e ∷ ds) in
    if suc (length ds) % 3 == 0 then d ∷ b'.' ∷ rest else d ∷ rest

module _ {Float Time : Type 0} (lib : Library Float Time) where
  open lib use {floats as fl, calendar as cal}

  -- `fmtNum`
  unfoldable pub fmt_num : Float → Text
  unfolding group_digits
  fmt_num x =
      if fl.eq x (fl.trunc x) && fl.lt (fl.abs x) fl.ten_to_15
      then (if fl.lt x (fl.from_nat 0)
          then b'-' ∷ group_digits (fl.format_int (fl.abs x))
          else group_digits (fl.format_int (fl.abs x)))
      else fl.format_fixed2 x

  -- `value.text`
  unfoldable mutual
    pub show : Value Float Time → Text
    show (Value.unknown why refs) = lit "(không có)"
    show (num x refs whole) = fmt_num x
    show (str s refs) = lit "“" ++ (s ++ lit "”")
    show (date t s refs) = cal.format (lit "02/01/2006") t
    show (bool b refs note) = if b then lit "đúng" else lit "sai"
    show (list l) = lit "[" ++ (join (lit ", ") (show_all l) ++ lit "]")
    show (pair a b) = lit "“”"

    pub show_all : Values Float Time → List Text
    show_all nil = []
    show_all (cons v vs) = show v ∷ show_all vs

  -- `asText`
  unfoldable pub as_text : Value Float Time → Text
  as_text (str s refs) = s
  as_text (pair a b) = []
  as_text (date t s refs) = cal.format (lit "2006-01-02") t
  as_text v = show v

-- The loop of `dedupe`, with the texts seen so far.
unfoldable pub dedupe_from : List Text → List Text → List Text
dedupe_from seen [] = []
dedupe_from seen (x ∷ xs) = elim (contains_text seen x) [
  | true ↦ dedupe_from seen xs
  | false ↦ x ∷ dedupe_from (x ∷ seen) xs
]

-- `dedupe`
unfoldable pub dedupe : List Text → List Text
unfolding dedupe_from
dedupe xs = dedupe_from [] xs
