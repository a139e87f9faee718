-- ===== src/Agent/JsonRepair.antt =====
-- internal/agent/jsonrepair.go: arithmetic where a JSON value belongs is rewritten to the number it
-- denotes. The code goes by bytes, of which it tells only ASCII ones apart; here they are code points.
-- `eval` stands for tools.EvalNumber, `none` on an error.
pub mod Values
pub mod Rewrites
pub mod Repaired
pub mod Guarded
use bepaylot.Prelude.{
  ℕ, zero, suc, ◌+◌, ◌-◌, Text, text, contains_rune, trim_right, Bool, true, false, ◌&&◌, ◌||◌, not,
  Option, none, some, List, [], ◌∷◌, ◌++◌, ◌==◌, ltb, leb, if◌then◌else◌, length, drop,
}

-- The cases of `c == ' ' || …` and the cutset of strings.TrimRight
abbrev pub is_blank : ℕ → Bool
is_blank c = c == b' ' || (c == 0x09 || (c == 0x0d || c == 0x0a))

abbrev pub is_digit : ℕ → Bool
is_digit c = leb b'0' c && leb c b'9'

-- exprChars
abbrev pub is_expr_char : ℕ → Bool
is_expr_char c =
    is_digit c
    || (c == b'+'
        || (c == b'-'
            || (c == b'*'
                || (c == b'/'
                    || (c == b'%'
                        || (c == b'^'
                            || (c == b'('
                                || (c == b')'
                                    || (c == b'.'
                                        || (c == b'e' || (c == b'E' || is_blank c)))))))))))

-- plainJSONNumber: `^-?(0|[1-9][0-9]*)(\.[0-9]+)?([eE][+-]?[0-9]+)?$`, from its end
abbrev pub all_digits : Text → Bool
all_digits [] = true
all_digits (c ∷ cs) = is_digit c && all_digits cs

abbrev pub some_digits : Text → Bool
some_digits [] = false
some_digits (c ∷ cs) = is_digit c && all_digits cs

abbrev pub after_e : Text → Bool
after_e [] = false
after_e (c ∷ cs) = if c == b'+' || c == b'-' then some_digits cs else some_digits (c ∷ cs)

abbrev pub exponent_part : Text → Bool
exponent_part [] = true
exponent_part (c ∷ cs) = (c == b'e' || c == b'E') && after_e cs

-- The digits after the first one, and what follows them.
abbrev pub fraction_digits : Text → Bool
fraction_digits [] = true
fraction_digits (c ∷ cs) =
    let more = fraction_digits cs in if is_digit c then more else exponent_part (c ∷ cs)

abbrev pub fraction : Text → Bool
fraction [] = false
fraction (c ∷ cs) = is_digit c && fraction_digits cs

abbrev pub fraction_part : Text → Bool
fraction_part [] = true
fraction_part (c ∷ cs) = if c == b'.' then fraction cs else exponent_part (c ∷ cs)

abbrev pub integer_digits : Text → Bool
integer_digits [] = true
integer_digits (c ∷ cs) =
    let more = integer_digits cs in if is_digit c then more else fraction_part (c ∷ cs)

abbrev pub integer_part : Text → Bool
integer_part [] = false
integer_part (c ∷ cs) = if c == b'0' then fraction_part cs else is_digit c && integer_digits cs

unfoldable pub is_plain_number : Text → Bool
is_plain_number [] = false
is_plain_number (c ∷ cs) = if c == b'-' then integer_part cs else integer_part (c ∷ cs)

abbrev pub before : ℕ → Text × Text → Text × Text
before c (s, rest) = (c ∷ s, rest)

-- skipJSONString, from after the opening quote: the rest of the string, and what follows it.
unfoldable pub skip_json_string : Text → Text × Text
skip_json_string [] = ([], [])
skip_json_string (c ∷ []) = (c ∷ [], [])
skip_json_string (c ∷ d ∷ ds) =
    let escaped = skip_json_string ds in
    let more = skip_json_string (d ∷ ds) in
    if c == b'\\'
    then before c (before d escaped)
    else if c == b'"'
    then (c ∷ [], d ∷ ds)
    else before c more

-- What a byte of a value means at a depth of parentheses.
pub data ScanStep : Type 0 where
  opens closes unbalanced ends refused goes_on : ScanStep

abbrev pub scan_step : ℕ → ℕ → ScanStep
scan_step depth c =
    if c == b'('
    then opens
    else if c == b')'
    then (if depth == 0 then unbalanced else closes)
    else if depth == 0 && (c == b',' || (c == b'}' || c == b']'))
    then ends
    else if not (is_expr_char c)
    then refused
    else goes_on

-- A value, what follows it, and whether it may be an expression.
pub record Scanned : Type 0 where
  pub token : Text
  pub rest : Text
  pub is_expression : Bool

abbrev pub with_byte : ℕ → Scanned → Scanned
with_byte c s = record s { token = c ∷ s.token }

-- What the byte `c` before `cs` does, where `go` scans on at a depth.
abbrev pub scan_next : ScanStep → ℕ → ℕ → Text → (ℕ → Scanned) → Scanned
scan_next opens depth c cs go = with_byte c (go (suc depth))
scan_next closes depth c cs go = with_byte c (go (depth - 1))
scan_next unbalanced depth c cs go = record { token = []; rest = c ∷ cs; is_expression = false }
scan_next ends depth c cs go = record { token = []; rest = c ∷ cs; is_expression = true }
scan_next refused depth c cs go = record { token = []; rest = c ∷ cs; is_expression = false }
scan_next goes_on depth c cs go = with_byte c (go depth)

-- scanExprValue
unfoldable pub scan_expr_value : ℕ → Text → Scanned
scan_expr_value depth [] = record { token = []; rest = []; is_expression = true }
scan_expr_value depth (c ∷ cs) =
    scan_next (scan_step depth c) depth c cs (λ d. scan_expr_value d cs)

abbrev pub top_is_array : List ℕ → Bool
top_is_array [] = false
top_is_array (c ∷ cs) = c == b'['

abbrev pub pop : List ℕ → List ℕ
pop [] = []
pop (c ∷ cs) = cs

-- valuePosition; the top of the stack comes first.
abbrev pub value_position : ℕ → List ℕ → Bool
value_position prev stack =
    if prev == b':' || prev == b'['
    then true
    else if prev == b','
    then top_is_array stack
    else false

abbrev pub starts_value : ℕ → Bool
starts_value c = is_digit c || (c == b'-' || (c == b'+' || (c == b'(' || c == b'.')))

-- What one round of the loop writes, how many values it rewrites, and the state after it.
pub record Round : Type 0 where
  pub written : Text
  pub fixes : ℕ
  pub stack : List ℕ
  pub prev : ℕ
  pub rest : Text

module _ (eval : Text → Option Text) where
  abbrev pub evaluated : List ℕ → Scanned → Text → Option Text → Round
  evaluated stack s trimmed none = record {
    written = s.token;
    fixes = 0;
    stack = stack;
    prev = b'0';
    rest = s.rest;
  }
  evaluated stack s trimmed (some number) = record {
    written = number ++ drop (length trimmed) s.token;
    fixes = 1;
    stack = stack;
    prev = b'0';
    rest = s.rest;
  }

  -- The case of a value.
  abbrev pub value_round : List ℕ → Scanned → Round
  unfolding trim_right is_plain_number
  value_round stack s =
      let trimmed = trim_right is_blank s.token in
      if s.is_expression && not (is_plain_number trimmed)
      then evaluated stack s trimmed (eval trimmed)
      else record { written = s.token; fixes = 0; stack = stack; prev = b'0'; rest = s.rest }

  abbrev pub byte_round : List ℕ → ℕ → ℕ → Text → Round
  byte_round stack prev c cs = record {
    written = c ∷ [];
    fixes = 0;
    stack = stack;
    prev = prev;
    rest = cs;
  }

  unfoldable pub repair_round : List ℕ → ℕ → ℕ → Text → Round
  unfolding skip_json_string scan_expr_value value_round
  repair_round stack prev c cs =
      if c == b'"'
      then record {
        written = c ∷ (skip_json_string cs).0;
        fixes = 0;
        stack = stack;
        prev = b'"';
        rest = (skip_json_string cs).1;
      }
      else if is_blank c
      then byte_round stack prev c cs
      else if c == b'{' || c == b'['
      then byte_round (c ∷ stack) c c cs
      else if c == b'}' || c == b']'
      then byte_round (pop stack) c c cs
      else if c == b',' || c == b':'
      then byte_round stack c c cs
      else if value_position prev stack && starts_value c
      then value_round stack (scan_expr_value 0 (c ∷ cs))
      else byte_round stack c c cs

  abbrev pub after_round : Round → Option (Text × ℕ) → Option (Text × ℕ)
  after_round r none = none
  after_round r (some (s, n)) = some (r.written ++ s, r.fixes + n)

  -- The loop, on fuel.
  unfoldable pub repair_from : ℕ → List ℕ → ℕ → Text → Option (Text × ℕ)
  unfolding repair_round
  repair_from zero stack prev s = none
  repair_from (suc fuel) stack prev [] = some ([], 0)
  repair_from (suc fuel) stack prev (c ∷ cs) =
      let r = repair_round stack prev c cs in after_round r (repair_from fuel r.stack r.prev r.rest)

  -- repairJSONExpressions
  unfoldable pub repair_json_expressions : Text → Option (Text × ℕ)
  unfolding repair_from
  repair_json_expressions s = repair_from (suc (length s)) [] 0 s
