-- ===== src/Agent/JsonRepair/Repaired.antt =====
-- repairJSONExpressions of internal/agent/jsonrepair.go as a whole: its loop round by round.
use bepaylot.Prelude.{
  ℕ, zero, suc, ◌+◌, ◌<◌, ◌≡◌, refl, sym, ap, ◌∙◌, Text, trim_right, true, false, ◌&&◌, ◌||◌, not,
  Option, none, some, List, [], ◌∷◌, ◌++◌, ◌==◌, if-intro, length, arith,
}
use bepaylot.Agent.JsonRepair.{
  is_blank, is_plain_number, skip_json_string, starts_value, value_position, pop, Scanned,
  scan_expr_value, Round, evaluated, value_round, byte_round, repair_round, after_round,
  repair_from, repair_json_expressions,
}
use bepaylot.Agent.JsonRepair.Values.{
  Place, lead, advance, outside, skip_json_string-parts, skip_json_string-Closed,
}
use bepaylot.Agent.JsonRepair.Rewrites.{
  Rewritten, ended, kept, computed, Sound, Sound-byte, Sound-string, IsValue, Sound-kept,
  Sound-computed, scan_expr_value-IsValue,
}

advance-blank :
    (stack : List ℕ) (last c : ℕ)
    → is_blank c ≡ true
    → advance (outside stack last) c ≡ outside stack last
unfolding advance
advance-blank stack last c h = ground (arith, h)

advance-open :
    (stack : List ℕ) (last c : ℕ)
    → (c == b'{' || c == b'[') ≡ true
    → advance (outside stack last) c ≡ outside (c ∷ stack) (lead c)
unfolding advance
advance-open stack last c h = ground (arith, h)

advance-close :
    (stack : List ℕ) (last c : ℕ)
    → (c == b'}' || c == b']') ≡ true
    → advance (outside stack last) c ≡ outside (pop stack) (lead c)
unfolding advance
advance-close stack last c h = ground (arith, h)

advance-other :
    (stack : List ℕ) (last c : ℕ)
    → (c == b'"') ≡ false
    → is_blank c ≡ false
    → (c == b'{' || c == b'[') ≡ false
    → (c == b'}' || c == b']') ≡ false
    → advance (outside stack last) c ≡ outside stack (lead c)
unfolding advance
advance-other stack last c h i j k = ground (arith, h, i, j, k)

module _ (eval : Text → Option Text) where
  evaluated-Sound :
      (stack : List ℕ) (prev c : ℕ) (cs : Text) (s : Scanned)
      → IsValue eval stack (lead prev) c cs s
      → value_position prev stack ≡ true
      → is_plain_number (trim_right is_blank s.token) ≡ false
      → (o : Option Text) → eval (trim_right is_blank s.token) ≡ o
      → Sound eval stack prev c cs (evaluated eval stack s (trim_right is_blank s.token) o)
  evaluated-Sound stack prev c cs s v h plain none e = Sound-kept eval stack prev c cs s v
  evaluated-Sound stack prev c cs s v h plain (some number) e =
      Sound-computed eval stack prev c cs s number v h plain e

  value_round-Sound :
      (stack : List ℕ) (prev c : ℕ) (cs : Text) (s : Scanned)
      → IsValue eval stack (lead prev) c cs s
      → value_position prev stack ≡ true
      → Sound eval stack prev c cs (value_round eval stack s)
  unfolding value_round
  value_round-Sound stack prev c cs s v h =
      if-intro (Sound eval stack prev c cs)
        (s.is_expression && not (is_plain_number (trim_right is_blank s.token))) _ _
        (λ e. evaluated-Sound stack prev c cs s v h (ground (arith, e)) _ refl)
        (λ e. Sound-kept eval stack prev c cs s v)

  repair_round-Sound :
      (stack : List ℕ) (prev c : ℕ) (cs : Text)
      → Sound eval stack prev c cs (repair_round eval stack prev c cs)
  unfolding repair_round
  repair_round-Sound stack prev c cs =
      let P : Round → Type 0 = Sound eval stack prev c cs in
      if-intro P (c == b'"') _ _
        (λ e.
          Sound-string eval stack prev c cs (skip_json_string cs) e (skip_json_string-parts cs)
            (skip_json_string-Closed cs stack (lead prev)))
        (λ quote.
          if-intro P (is_blank c) _ _
            (λ e. Sound-byte eval stack prev c cs stack prev (advance-blank stack (lead prev) c e))
            (λ blank.
              if-intro P (c == b'{' || c == b'[') _ _
                (λ e.
                  Sound-byte eval stack prev c cs (c ∷ stack) c
                    (advance-open stack (lead prev) c e))
                (λ opened.
                  if-intro P (c == b'}' || c == b']') _ _
                    (λ e.
                      Sound-byte eval stack prev c cs (pop stack) c
                        (advance-close stack (lead prev) c e))
                    (λ close.
                      if-intro P (c == b',' || c == b':') _ _ (λ e. other quote blank opened close)
                        (λ e.
                          if-intro P (value_position prev stack && starts_value c) _ _
                            (λ v.
                              value_round-Sound stack prev c cs (scan_expr_value 0 (c ∷ cs))
                                (scan_expr_value-IsValue eval stack (lead prev) c cs
                                  (ground (arith, v)))
                                (ground (arith, v)))
                            (λ v. other quote blank opened close))))))
    where
      other :
          (c == b'"') ≡ false
          → is_blank c ≡ false
          → (c == b'{' || c == b'[') ≡ false
          → (c == b'}' || c == b']') ≡ false
          → Sound eval stack prev c cs (byte_round eval stack c c cs)
      other h i j k =
          Sound-byte eval stack prev c cs stack c (advance-other stack (lead prev) c h i j k)

  -- What the loop gives for a text from a place on, when the fuel is above the length of the text.
  repair_from-Rewritten :
      (fuel : ℕ) (stack : List ℕ) (prev : ℕ) (s : Text)
      → length s < fuel
      → (t : Text) × (n : ℕ) × (repair_from eval fuel stack prev s ≡ some (t, n))
        × Rewritten eval (outside stack (lead prev)) s t n
  unfolding repair_from
  repair_from-Rewritten zero stack prev s h = absurd (omega (arith, h))
  repair_from-Rewritten (suc fuel) stack prev [] h = ([], 0, refl, ended)
  repair_from-Rewritten (suc fuel) stack prev (c ∷ cs) h =
      let r : Round = repair_round eval stack prev c cs in
      let (shorter, sound) = repair_round-Sound stack prev c cs in
      let (t, n, e, w) =
        repair_from-Rewritten fuel r.stack r.prev r.rest (omega (arith, h, shorter)) in
      (r.written ++ t, r.fixes + n, ap (after_round eval r) e, sound t n w)

  -- repairJSONExpressions always ends; it keeps every byte of the text in its place, but for the values it
  -- counts: each of them begins outside strings where a JSON value can stand, is no JSON number, and is
  -- replaced with the number that its evaluation gives.
  pub repair_json_expressions-Rewritten :
      (s : Text)
      → (t : Text) × (n : ℕ) × (repair_json_expressions eval s ≡ some (t, n))
        × Rewritten eval (outside [] 0) s t n
  unfolding repair_json_expressions
  repair_json_expressions-Rewritten s = repair_from-Rewritten (suc (length s)) [] 0 s (omega arith)

  Rewritten-unchanged : {p : Place} {s t : Text} {n : ℕ} → Rewritten eval p s t n → n ≡ 0 → s ≡ t
  Rewritten-unchanged ended h = refl
  Rewritten-unchanged (kept c w) h = ap (λ x. c ∷ x) (Rewritten-unchanged w h)
  Rewritten-unchanged (computed c cs number v b l e whole w) h = absurd (omega (arith, h))

  some_pair :
      {t t' : Text} {n n' : ℕ}
      → ◌≡◌ {A = Option (Text × ℕ)} (some (t, n)) (some (t', n'))
      → (t ≡ t') × (n ≡ n')
  some_pair e = (cc, cc)

  -- A text in which repairJSONExpressions counts no value comes back as it is.
  pub repair_json_expressions-unchanged :
      (s t : Text) → repair_json_expressions eval s ≡ some (t, 0) → s ≡ t
  repair_json_expressions-unchanged s t e =
      let (t', n, e', w) = repair_json_expressions-Rewritten s in
      let same = some_pair (sym e' ∙ e) in Rewritten-unchanged w same.1 ∙ same.0
