-- ===== src/Tests/TextUtilTests.antt =====
-- docpipe/textutil on concrete texts.
use bepaylot.Prelude.{◌≡◌, text}
use bepaylot.TextUtil.Distance.{levenshtein}
use bepaylot.TextUtil.Distance.Minimal.{levenshtein-edits}

levenshtein-edits_example : levenshtein (text "cong ty") (text "con ty") ≡ 1
levenshtein-edits_example = levenshtein-edits (text "cong ty") (text "con ty")
