-- ===== src/CheckExpr/Verdict/Lists.antt =====
-- Comparisons of lists in internal/checkexpr/eval.go: from `broadcast2` to `verdict`.
use bepaylot.Prelude.{
  ℕ, Text, ◌≡◌, refl, ◌∙◌, Bool, true, false, ◌&&◌, List, [], ◌∷◌, if◌then◌else◌, inl, inr, ◌⊎◌,
  arith,
}
use bepaylot.GoLibrary.{Library}
use bepaylot.CheckExpr.Syntax.{CompareOp}
use bepaylot.CheckExpr.Value.{Ref, num, list, pass, fail, Result, dedupe}
use bepaylot.CheckExpr.Verdict.{
  Tally, bool_verdict, count_in, close_tally, verdict, verdict_items, after_item,
}
use bepaylot.CheckExpr.Verdict.Worst.{numbers}
use bepaylot.CheckExpr.Operators.{
  broadcast2, broadcast_left, broadcast_right, apply_known, compare, holds_at, sign_of,
}

module _ {Float Time : Type 0} (lib : Library Float Time) where
  -- Every number of a list stands to `y` as the operator says.
  abbrev pub all_hold : CompareOp → Float → List (Float × List Ref × Bool) → Bool
  all_hold op y [] = true
  all_hold op y ((x, refs, whole) ∷ xs) =
      let rest = all_hold op y xs in
      holds_at op (sign_of lib (num x [] false) (num y [] false)).0 && rest

  -- Of the loop over the items of a list: no reason is missing, and each item so far has passed or failed.
  abbrev Decided : Tally → Type 0
  Decided t = ((t.status ≡ pass) ⊎ (t.status ≡ fail)) × (t.missing ≡ [])

  after_item-Decided :
      (holds rest : Bool) (refs : List Ref) (note : Text) (go_on : Tally → Result) (t : Tally)
      → Decided t
      → ((t' : Tally) → Decided t' → (go_on t').status ≡ (if rest then t'.status else fail))
      → (after_item
          (bool_verdict lib holds refs note).status
          (bool_verdict lib holds refs note)
          go_on
          t).status
        ≡ (if holds && rest then t.status else fail)
  unfolding after_item count_in
  after_item-Decided true rest refs note go_on t d k = k _ d
  after_item-Decided false rest refs note go_on t d k = k _ (inr refl, d.1) ∙ ground arith

  compared_items :
      (op : CompareOp) (xs : List (Float × List Ref × Bool)) (y : Float) (refs : List Ref)
      (whole : Bool) (n : ℕ) (t : Tally)
      → Decided t
      → (verdict_items lib
          (broadcast_left (compare lib op) (numbers lib xs) (num y refs whole))
          n
          t).status
        ≡ (if all_hold op y xs then t.status else fail)
  unfolding verdict broadcast2 broadcast_right apply_known after_item count_in dedupe close_tally
      compare sign_of
  compared_items op [] y refs whole n t d = ground (arith, d)
  compared_items op ((x, x_refs, x_whole) ∷ xs) y refs whole n t d =
      after_item-Decided (holds_at op (sign_of lib (num x x_refs x_whole) (num y refs whole)).0)
        (all_hold op y xs) _ _ _ t d (λ t' d'. compared_items op xs y refs whole n t' d')

  -- A comparison of a list of numbers that is not empty with a number passes when the operator holds for
  -- every item, and fails when it does not hold for some item.
  pub verdict-compare :
      (op : CompareOp) (x : Float × List Ref × Bool) (xs : List (Float × List Ref × Bool))
      (y : Float) (refs : List Ref) (whole : Bool)
      → (verdict lib
          (broadcast2 (compare lib op) (list (numbers lib (x ∷ xs))) (num y refs whole))).status
        ≡ (if all_hold op y (x ∷ xs) then pass else fail)
  unfolding verdict broadcast2
  verdict-compare op (x, x_refs, x_whole) xs y refs whole =
      compared_items op ((x, x_refs, x_whole) ∷ xs) y refs whole _ _ (inl refl, refl)
