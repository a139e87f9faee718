-- ===== src/Tests/Sample.antt =====
-- A library for ASCII texts whose numbers are natural numbers, and small scopes.
use bepaylot.Prelude.{
  ℕ, ◌+◌, ◌-◌, ◌*◌, ◌/◌, Text, text, text_eq, Bool, false, ◌&&◌, ◌||◌, Option, none, some, [], ◌∷◌,
  ◌==◌, ltb, leb, if◌then◌else◌, map, refl,
}
use bepaylot.GoLibrary.{Unicode, Floats, Calendar, Library, pos, below, equal, above}
use bepaylot.CheckExpr.Value.{FieldInfo, TypeInfo, Scope}

abbrev pub digit : ℕ → Bool
digit r = leb b'0' r && leb r b'9'

abbrev pub letter : ℕ → Bool
letter r = (leb b'a' r && leb r b'z') || (leb b'A' r && leb r b'Z')

abbrev pub space : ℕ → Bool
space r = r == b' ' || r == 0x09 || r == 0x0a

abbrev pub upper_rune : ℕ → ℕ
upper_rune r = if leb b'a' r && leb r b'z' then r - 32 else r

abbrev pub lower_rune : ℕ → ℕ
lower_rune r = if leb b'A' r && leb r b'Z' then r + 32 else r

abbrev pub decimal_from : ℕ → Text → Option ℕ
decimal_from n [] = some n
decimal_from n (r ∷ rs) =
    let rest = decimal_from (n * 10 + (r - b'0')) rs in if digit r then rest else none

abbrev pub ascii : Unicode ℕ
ascii = record {
  is_space = space;
  is_digit = digit;
  is_letter = letter;
  is_private = λ _. false;
  is_control = λ _. false;
  equal_fold = λ s t. text_eq (map upper_rune s) (map upper_rune t);
  to_upper = map upper_rune;
  to_lower = map lower_rune;
  strip_marks = λ s. some s;
  parse_float = decimal_from 0;
}

abbrev pub naturals : Floats ℕ
naturals = record {
  from_nat = λ n. n;
  plus = λ a b. a + b;
  minus = λ a b. a - b;
  times = λ a b. a * b;
  over = λ a b. a / b;
  abs = λ a. a;
  trunc = λ a. a;
  round = λ a. a;
  pow_ten = λ a. 1;
  eq = λ a b. a == b;
  lt = ltb;
  ge = λ a b. leb b a;
  half_cent = 0;
  four_fifths = 0;
  ten_to_15 = 1_000_000_000_000_000;
  to_int = pos;
  format_int = λ a. [];
  format_fixed2 = λ a. [];
  sort = λ xs. xs;
  length-sort = λ xs. refl;
}

abbrev pub days : Calendar ℕ
days = record {
  parse_layout = λ layout s. none;
  format = λ layout t. [];
  compare = λ a b. if ltb a b then below else if ltb b a then above else equal;
  add_date = λ y m d t. t;
  today = 0;
}

abbrev pub library : Library ℕ ℕ
library = record {
  unicode = ascii;
  floats = naturals;
  calendar = days;
  formats = record { quote = λ s. s; decimal = λ n. [] };
}

-- One type `hd` with a field `gia` of type number.
abbrev pub price_field : Text → Option FieldInfo
price_field key =
    if text_eq key (text "gia")
    then some (record { label = text "Gia"; value_type = text "number" })
    else none

abbrev pub contract_type : Text → Option TypeInfo
contract_type name =
    if text_eq name (text "hd")
    then some (record { title = text "HD"; fields = price_field })
    else none

abbrev pub sample_scope : Scope
sample_scope = record {
  types = contract_type;
  groups = λ _. [];
  single = λ _. none;
  single_type = λ _. none;
}
