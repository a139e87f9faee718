-- ===== src/CheckExpr/Verdict/Worst.antt =====
-- `verdict` and `logic` of internal/checkexpr/eval.go against their descriptions: the worst outcome of
-- the items, and Kleene's three-valued connectives.
use bepaylot.Prelude.{
  ℕ, ◌≡◌, ◌≢◌, refl, ap, ◌∙◌, Text, Bool, true, false, ◌||◌, not, Option, none, some, List, [], ◌∷◌,
  ◌++◌, if◌then◌else◌, inl, ◌⊎◌, arith as linear, All,
}
use bepaylot.GoLibrary.{Library}
use bepaylot.CheckExpr.Syntax.{LogicOp, CompareOp}
use bepaylot.CheckExpr.Value.{
  Ref, Value, Values, num, list, nil, cons, Status, pass, fail, error, Result, values, dedupe,
}
use bepaylot.CheckExpr.Verdict.{
  Tally, no_tally, count_in, close_tally, is_nonempty, is_pass, verdict, verdict_items, after_item,
  to_bool, logic,
}
use bepaylot.CheckExpr.Operators.{broadcast2, broadcast_left, broadcast_right, apply_known, compare}

-- Kleene's connectives; `none` is the unknown truth value.
abbrev pub kleene_and : Option Bool → Option Bool → Option Bool
kleene_and (some false) q = some false
kleene_and (some true) q = q
kleene_and none (some false) = some false
kleene_and none (some true) = none
kleene_and none none = none

abbrev pub kleene_not : Option Bool → Option Bool
kleene_not none = none
kleene_not (some b) = some (not b)

abbrev pub kleene : LogicOp → Option Bool → Option Bool → Option Bool
kleene LogicOp.and p q = kleene_and p q
kleene LogicOp.or p q = kleene_not (kleene_and (kleene_not p) (kleene_not q))

-- The worse of two outcomes: pass, then unknown, then fail, then error.
abbrev pub worse : Status → Status → Status
worse error s = error
worse fail error = error
worse fail s = fail
worse Status.unknown pass = Status.unknown
worse Status.unknown s = s
worse pass s = s

module _ {Float Time : Type 0} (lib : Library Float Time) where
  -- The verdict of a conjunction or disjunction is Kleene's connective of the verdicts of the two sides,
  -- where an error counts as unknown, and is itself never an error.
  pub verdict-logic :
      (op : LogicOp) (l r : Value Float Time)
      → (to_bool lib (verdict lib (logic lib op l r)).status
          ≡ kleene op (to_bool lib (verdict lib l).status) (to_bool lib (verdict lib r).status))
        × ((verdict lib (logic lib op l r)).status ≢ error)
  unfolding logic verdict
  verdict-logic LogicOp.and l r = ground linear
  verdict-logic LogicOp.or l r = ground linear

  abbrev pub worst_of : List (Value Float Time) → Status
  worst_of [] = pass
  worst_of (v ∷ vs) = worse (verdict lib v).status (worst_of vs)

  -- A value whose outcome is unknown has a reason for it.
  abbrev pub Reasoned : Value Float Time → Type 0
  Reasoned v = (verdict lib v).status ≡ Status.unknown → is_nonempty (verdict lib v).missing ≡ true

  abbrev tally_status : Tally → Status
  tally_status t =
      if is_pass t.status
      then (if is_nonempty t.missing then Status.unknown else pass)
      else t.status

  abbrev Open : Status → Type 0
  Open s = (s ≡ pass) ⊎ (s ≡ fail)

  close_tally_status : (n : ℕ) (t : Tally) → (close_tally lib n t).status ≡ tally_status t
  unfolding close_tally
  close_tally_status n t = ground linear

  nonempty-append :
      (xs ys : List Text) → is_nonempty (xs ++ ys) ≡ (is_nonempty xs || is_nonempty ys)
  nonempty-append [] ys = refl
  nonempty-append (x ∷ xs) ys = refl

  worse_assoc : (a b c : Status) → worse (worse a b) c ≡ worse a (worse b c)
  worse_assoc a b c = ground linear

  count_in-Open :
      (s : Status) (sub : Result) (t : Tally) → Open t.status → Open (count_in s sub t).status
  unfolding count_in
  count_in-Open s sub t h = ground linear

  count_in_status :
      (s : Status) (sub : Result) (t : Tally)
      → Open t.status
      → s ≢ error
      → (s ≡ Status.unknown → is_nonempty sub.missing ≡ true)
      → tally_status (count_in s sub t) ≡ worse (tally_status t) s
  unfolding count_in
  count_in_status s sub t h e k = ground (linear, nonempty-append t.missing sub.missing)

  after_item_worst :
      (s w : Status) (sub : Result) (go_on : Tally → Result) (t : Tally)
      → sub.status ≡ s
      → Open t.status
      → (s ≡ Status.unknown → is_nonempty sub.missing ≡ true)
      → ((t' : Tally) → Open t'.status → (go_on t').status ≡ worse (tally_status t') w)
      → (after_item s sub go_on t).status ≡ worse (tally_status t) (worse s w)
  unfolding after_item
  after_item_worst error w sub go_on t e o k h = ground linear
  after_item_worst pass w sub go_on t e o k h =
      h _ (count_in-Open pass sub t o)
      ∙ ap (λ a. worse a w) (count_in_status pass sub t o (λ p. cc) k)
      ∙ worse_assoc (tally_status t) pass w
  after_item_worst fail w sub go_on t e o k h =
      h _ (count_in-Open fail sub t o)
      ∙ ap (λ a. worse a w) (count_in_status fail sub t o (λ p. cc) k)
      ∙ worse_assoc (tally_status t) fail w
  after_item_worst Status.unknown w sub go_on t e o k h =
      h _ (count_in-Open Status.unknown sub t o)
      ∙ ap (λ a. worse a w) (count_in_status Status.unknown sub t o (λ p. cc) k)
      ∙ worse_assoc (tally_status t) Status.unknown w

  verdict_items_worst :
      (vs : Values Float Time) (n : ℕ) (t : Tally)
      → Open t.status
      → All Reasoned (values vs)
      → (verdict_items lib vs n t).status ≡ worse (tally_status t) (worst_of (values vs))
  unfolding verdict
  verdict_items_worst nil n t o h = ground (linear, close_tally_status n t)
  verdict_items_worst (cons v vs) n t o h =
      after_item_worst (verdict lib v).status (worst_of (values vs)) (verdict lib v)
        (λ t'. verdict_items lib vs n t') t refl o h.0 λ t' o'. verdict_items_worst vs n t' o' h.1

  -- The verdict of a list that is not empty is the worst verdict of its items, in the order pass,
  -- unknown, fail, error, where every item that is unknown has a reason for it.
  pub verdict-list :
      (v : Value Float Time) (vs : Values Float Time)
      → All Reasoned (values (cons v vs))
      → (verdict lib (list (cons v vs))).status ≡ worst_of (values (cons v vs))
  unfolding verdict
  verdict-list v vs h = verdict_items_worst (cons v vs) _ no_tally (inl refl) h

  -- A list of numbers, each with the places in the documents that it was read from.
  abbrev pub numbers : List (Float × List Ref × Bool) → Values Float Time
  numbers [] = nil
  numbers ((x, refs, whole) ∷ xs) = cons (num x refs whole) (numbers xs)

  unreasoned_items :
      (op : CompareOp) (xs : List (Float × List Ref × Bool)) (n : ℕ) (t : Tally)
      → t.status ≡ pass
      → t.missing ≡ []
      → (verdict_items lib
          (broadcast_left (compare lib op) (numbers xs) (Value.unknown [] []))
          n
          t).status
        ≡ pass
  unfolding verdict broadcast2 broadcast_right apply_known after_item count_in dedupe close_tally
  unreasoned_items op [] n t s m = ground linear
  unreasoned_items op ((x, refs, whole) ∷ xs) n t s m = unreasoned_items op xs n _ s (ground linear)

  -- The hypothesis of the theorem on lists is needed: a comparison of a list of numbers that is not empty,
  -- of whatever values and places and with whatever operator, with a conjunction of two numbers passes,
  -- though no item is known to hold.
  pub verdict-ill_typed :
      (op : CompareOp) (x : Float × List Ref × Bool) (xs : List (Float × List Ref × Bool))
      (a b : Float) (a_refs b_refs : List Ref) (a_whole b_whole : Bool)
      → (verdict lib (
          broadcast2
            (compare lib op)
            (list (numbers (x ∷ xs)))
            (logic lib LogicOp.and (num a a_refs a_whole) (num b b_refs b_whole)))).status
        ≡ pass
  unfolding verdict broadcast2 broadcast_right apply_known after_item count_in dedupe logic
  verdict-ill_typed op (x, refs, whole) xs a b a_refs b_refs a_whole b_whole =
      unreasoned_items op xs _ _ refl refl
