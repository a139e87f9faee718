-- ===== src/Tests/RepairTests.antt =====
-- internal/agent/jsonrepair.go with an evaluator that knows one sum.
use bepaylot.Prelude.{
  ℕ, ◌≡◌, refl, Text, text, text_eq, trim_right, Option, none, some, List, [], ◌∷◌, map,
  if◌then◌else◌,
}
use bepaylot.Agent.JsonRepair.{
  repair_json_expressions, repair_from, repair_round, skip_json_string, scan_expr_value,
  is_plain_number,
}
use bepaylot.Agent.JsonRepair.Values.{outside}
use bepaylot.Agent.JsonRepair.Rewrites.{Rewritten}
use bepaylot.Agent.JsonRepair.Repaired.{
  repair_json_expressions-Rewritten, repair_json_expressions-unchanged,
}
use bepaylot.Agent.JsonRepair.Guarded.{Computed, guard_repair, delivered-Computed}
use bepaylot.Agent.TextGuard.Lossless.{delivered}
use bepaylot.Tests.Sample.{space, lower_rune}

abbrev one_sum : Text → Option Text
unfolding text_eq
one_sum s = if text_eq s (text "1 + 2") then some (text "3") else none

-- The sum is a value once, once in a string, and once a key.
abbrev sums : Text
sums = text "{\"1 + 2\": [1 + 2 , \"1 + 2\", 12%, -0.5e3]}"

repair_json_expressions-Rewritten_example :
    (t : Text) × (n : ℕ) × (repair_json_expressions one_sum sums ≡ some (t, n))
    × Rewritten one_sum (outside [] 0) sums t n
repair_json_expressions-Rewritten_example = repair_json_expressions-Rewritten one_sum sums

repaired :
    repair_json_expressions one_sum sums
    ≡ some (text "{\"1 + 2\": [3 , \"1 + 2\", 12%, -0.5e3]}", 1)
unfolding repair_json_expressions repair_from repair_round skip_json_string scan_expr_value
    is_plain_number trim_right one_sum text_eq
repaired = refl

repair_json_expressions-unchanged_example : text "[1,\"a\"]" ≡ text "[1,\"a\"]"
unfolding repair_json_expressions repair_from repair_round skip_json_string scan_expr_value
    is_plain_number trim_right one_sum text_eq
repair_json_expressions-unchanged_example =
    repair_json_expressions-unchanged one_sum (text "[1,\"a\"]") (text "[1,\"a\"]") refl

abbrev in_chunks : List Text
in_chunks = text "{\"a\": 1 " ∷ text "+ 2}\nso" ∷ []

delivered-Computed_example :
    Computed space
      (map lower_rune)
      one_sum
      (text "{\"a\": 1 + 2}\nso")
      (delivered space (map lower_rune) (guard_repair one_sum) in_chunks)
delivered-Computed_example = delivered-Computed space (map lower_rune) one_sum in_chunks
