-- ===== src/CheckExpr/Safety.antt =====
-- `Check` of internal/checkexpr/eval.go against the evaluation of what it accepts.
use bepaylot.Prelude.{
  ℕ, zero, suc, ◌-◌, ◌<◌, ◌≡◌, refl, sym, subst, ap, Text, Bool, true, false, some, List, [], ◌∷◌,
  ltb, if◌then◌else◌, length, get_elem?, Outcome, ok, failed, panicked, out_of_fuel, ◌>>=◌, Gives,
  Gives-bind, Gives-if, ◌||◌, >>=-eq-ok, Option-cases, inl, inr, arith as linear,
}
use bepaylot.GoLibrary.{Library}
use bepaylot.CheckExpr.Syntax.{Node, Nodes, nil, cons, ident, member, call, neg, num, str, bool}
use bepaylot.CheckExpr.Parser.{parse}
use bepaylot.CheckExpr.Value.{
  Scope, Value, Values, list, pair, Result, pass, fail, Status, is_unknown,
}
use bepaylot.CheckExpr.Verdict.{verdict}
use bepaylot.CheckExpr.Functions.{
  Fn, sum, average, count, exists, abs, round, between, same, match, contains_fn, if_fn, and_fn,
  or_fn, date_add, today, fn_of, arity, arg, agg, aggregate, aggregated, flat, branch,
  no_documents_apply, date_add_item, date_add_value, date_add_items, fits,
}
use bepaylot.CheckExpr.Calls.{call_fn, call_name}
use bepaylot.CheckExpr.Eval.{eval_args, eval, eval_node, eval_formula}
use bepaylot.CheckExpr.Check.{
  CheckError, Used, within, check_call, count_nodes, walk, walk_all, check,
}

arg-Gives : {A : Type 0} (xs : List A) (i : ℕ) → i < length xs → Gives (arg xs i)
arg-Gives [] i h = absurd (omega linear)
arg-Gives (x ∷ xs) zero h = (x, refl)
arg-Gives (x ∷ xs) (suc i) h = arg-Gives xs i (omega linear)

get_elem?-some :
    {A : Type 0} (xs : List A) (i : ℕ) → i < length xs → (x : A) × (get_elem? xs i ≡ some x)
get_elem?-some [] i h = absurd (omega linear)
get_elem?-some (x ∷ xs) zero h = (x, refl)
get_elem?-some (x ∷ xs) (suc i) h = get_elem?-some xs i (omega linear)

module _ {Float Time : Type 0} (lib : Library Float Time) where
  open lib use {unicode as uni, floats as fl}

  aggregate-Gives : (f : Fn) (x : Float) (xs : List Float) → Gives (aggregate lib f (x ∷ xs))
  unfolding aggregate
  aggregate-Gives Fn.min x xs = arg-Gives _ 0 (omega (linear, fl.length-sort (x ∷ xs)))
  aggregate-Gives Fn.max x xs =
      arg-Gives _ (length (fl.sort (x ∷ xs)) - 1) (omega (linear, fl.length-sort (x ∷ xs)))
  aggregate-Gives sum x xs = (_, refl)
  aggregate-Gives _ x xs = (_, refl)

  aggregated-Gives :
      (f : Fn) (items : List (Value Float Time)) (found : List Float × List Text)
      → Gives (aggregated lib f items found)
  aggregated-Gives f items (xs, m ∷ missing) = (_, refl)
  aggregated-Gives f items ([], []) = (_, refl)
  aggregated-Gives f items (x ∷ xs, []) = Gives-bind (aggregate-Gives f x xs) λ y. (_, refl)

  agg-Gives : (f : Fn) (args : List (Value Float Time)) → Gives (agg lib f args)
  unfolding agg
  agg-Gives f args = aggregated-Gives f (flat args) _

  branch-Gives :
      (c : Result) (args : List (Value Float Time)) → 1 < length args → Gives (branch lib c args)
  unfolding branch
  branch-Gives c args h = go c.status
    where
      third :
          (b : Bool)
          → ltb 2 (length args) ≡ b
          → Gives (if b then arg args 2 else ok (no_documents_apply lib c))
      third true e = arg-Gives args 2 (ground linear)
      third false e = (_, refl)

      go :
          (s : Status)
          → Gives (elim s [
            | pass ↦ arg args 1
            | fail ↦ if ltb 2 (length args) then arg args 2 else ok (no_documents_apply lib c)
            | _ ↦ ok (Value.unknown c.missing [])
          ])
      go pass = arg-Gives args 1 h
      go fail = third (ltb 2 (length args)) refl
      go Status.unknown = (_, refl)
      go Status.error = (_, refl)

  fits-Gives : (a b c : Value Float Time) → Gives (fits lib a b (some c))
  fits-Gives (Value.date t s refs) (Value.num x refs' whole) c = (_, refl)
  fits-Gives (Value.date t s refs) (Value.unknown why refs') c = (_, refl)
  fits-Gives (Value.date t s refs) _ c = (_, refl)
  fits-Gives (Value.unknown why refs) b c = (_, refl)
  fits-Gives _ b c = (_, refl)

  date_add_item-Gives : (a b c : Value Float Time) → Gives (date_add_item lib a (some b) (some c))
  unfolding date_add_item
  date_add_item-Gives a b c = Gives-if (is_unknown a || is_unknown b) (_, refl) (fits-Gives a b c)

  mutual
    unfolding date_add_value

    date_add_value-Gives :
        (a b c : Value Float Time) → Gives (date_add_value lib a (some b) (some c))
    date_add_value-Gives (list l) b c = Gives-bind (date_add_items-Gives l b c) λ vs. (_, refl)
    date_add_value-Gives (pair v w) b c = date_add_item-Gives (pair v w) b c
    date_add_value-Gives a b c = date_add_item-Gives a b c

    date_add_items-Gives :
        (l : Values Float Time) (b c : Value Float Time)
        → Gives (date_add_items lib l (some b) (some c))
    date_add_items-Gives Values.nil b c = (_, refl)
    date_add_items-Gives (Values.cons v vs) b c =
        Gives-bind (date_add_value-Gives v b c)
          λ w. Gives-bind (date_add_items-Gives vs b c) λ ws. (_, refl)

  date_add-Gives :
      (args : List (Value Float Time)) → 2 < length args → Gives (call_fn lib date_add args)
  unfolding call_fn
  date_add-Gives args h = Gives-bind (arg-Gives args 0 (omega linear)) λ a.
      let (b, eb) = get_elem?-some args 1 (omega linear) in
      let (c, ec) = get_elem?-some args 2 h in rw (eb, ec) (date_add_value-Gives a b c)

  -- With a number of arguments that the table allows, a function does not panic.
  call_fn-Gives :
      (f : Fn) (args : List (Value Float Time))
      → within (length args) (arity f) ≡ true
      → Gives (call_fn lib f args)
  unfolding call_fn arity
  call_fn-Gives sum args h = agg-Gives sum args
  call_fn-Gives Fn.min args h = agg-Gives Fn.min args
  call_fn-Gives Fn.max args h = agg-Gives Fn.max args
  call_fn-Gives average args h = agg-Gives average args
  call_fn-Gives count args h = (_, refl)
  call_fn-Gives exists args h = (_, refl)
  call_fn-Gives abs args h = Gives-bind (arg-Gives args 0 (ground linear)) λ a. (_, refl)
  call_fn-Gives round args h = Gives-bind (arg-Gives args 0 (ground linear)) λ a. (_, refl)
  call_fn-Gives between args h = Gives-bind (arg-Gives args 0 (ground linear)) λ a.
      Gives-bind (arg-Gives args 1 (ground linear))
        λ lo. Gives-bind (arg-Gives args 2 (ground linear)) λ hi. (_, refl)
  call_fn-Gives same args h = (_, refl)
  call_fn-Gives match args h =
      Gives-bind (arg-Gives args 0 (ground linear))
        λ a. Gives-bind (arg-Gives args 1 (ground linear)) λ b. (_, refl)
  call_fn-Gives contains_fn args h =
      Gives-bind (arg-Gives args 0 (ground linear))
        λ a. Gives-bind (arg-Gives args 1 (ground linear)) λ b. (_, refl)
  call_fn-Gives if_fn args h =
      Gives-bind (arg-Gives args 0 (ground linear))
        λ a. branch-Gives (verdict lib a) args (ground linear)
  call_fn-Gives and_fn args h = Gives-bind (arg-Gives args 0 (ground linear)) λ a. (_, refl)
  call_fn-Gives or_fn args h = Gives-bind (arg-Gives args 0 (ground linear)) λ a. (_, refl)
  call_fn-Gives date_add args h = date_add-Gives args (ground linear)
  call_fn-Gives today args h = (_, refl)

check_call-ok :
    (name : Text) (n : ℕ) (inner : Outcome CheckError Used) {used : Used}
    → check_call name n inner ≡ ok used
    → (f : Fn) × (fn_of name ≡ some f) × (within n (arity f) ≡ true) × (inner ≡ ok used)
unfolding check_call
check_call-ok name n inner h = elim (Option-cases (fn_of name)) [
  | inl e ↦ ground linear
  | inr (f, e) ↦ (f, e, ground linear, ground linear)
]

module _ {Float Time : Type 0} (lib : Library Float Time) where
  call_name-Gives :
      (name : Text) (f : Fn) (args : List (Value Float Time))
      → fn_of name ≡ some f
      → within (length args) (arity f) ≡ true
      → Gives (call_name lib name args)
  unfolding call_name
  call_name-Gives name f args e h = rw (e, call_name) (call_fn-Gives lib f args h)

  -- The arguments of a call are evaluated to as many values.
  abbrev AllGive : Scope → Nodes Float → Type 0
  AllGive sc ns =
      (vs : List (Value Float Time)) × (eval_args lib sc ns ≡ ok vs) × (length vs ≡ count_nodes ns)

  call-Gives :
      (sc : Scope) (name : Text) (ns : Nodes Float) (f : Fn)
      → fn_of name ≡ some f
      → within (count_nodes ns) (arity f) ≡ true
      → AllGive sc ns
      → Gives (eval_args lib sc ns >>= λ vs. call_name lib name vs)
  call-Gives sc name ns f e h (vs, evs, len) =
      subst (λ r. Gives (r >>= λ vs. call_name lib name vs)) (sym evs)
        (call_name-Gives name f vs e (subst (λ n. within n (arity f) ≡ true) (sym len) h))

  args-AllGive :
      (sc : Scope) (n : Node Float) (ns : Nodes Float)
      → Gives (eval lib sc n)
      → AllGive sc ns
      → AllGive sc (cons n ns)
  unfolding eval
  args-AllGive sc n ns (v, ev) (vs, evs, len) = (v ∷ vs, rw (ev, evs), ap suc len)

  mutual
    unfolding eval walk

    eval-Gives :
        (sc checked : Scope) (n : Node Float) (used : Used)
        → walk checked n ≡ ok used
        → Gives (eval lib sc n)
    eval-Gives sc checked (num x at) used h = (_, refl)
    eval-Gives sc checked (str s at) used h = (_, refl)
    eval-Gives sc checked (bool b at) used h = (_, refl)
    eval-Gives sc checked (ident name at) used h = (_, refl)
    eval-Gives sc checked (member name key at) used h = (_, refl)
    eval-Gives sc checked (neg x at) used h =
        Gives-bind (eval-Gives sc checked x used h) λ v. (_, refl)
    eval-Gives sc checked (Node.not x at) used h =
        Gives-bind (eval-Gives sc checked x used h) λ v. (_, refl)
    eval-Gives sc checked (Node.logic op l r at) used h =
        let (p, el, rest) = >>=-eq-ok (walk checked l) _ h in
        let (q, er, _) = >>=-eq-ok (walk checked r) _ rest in
        Gives-bind (eval-Gives sc checked l p el)
          λ v. Gives-bind (eval-Gives sc checked r q er) λ w. (_, refl)
    eval-Gives sc checked (Node.arith op l r at) used h =
        let (p, el, rest) = >>=-eq-ok (walk checked l) _ h in
        let (q, er, _) = >>=-eq-ok (walk checked r) _ rest in
        Gives-bind (eval-Gives sc checked l p el)
          λ v. Gives-bind (eval-Gives sc checked r q er) λ w. (_, refl)
    eval-Gives sc checked (Node.compare op l r at) used h =
        let (p, el, rest) = >>=-eq-ok (walk checked l) _ h in
        let (q, er, _) = >>=-eq-ok (walk checked r) _ rest in
        Gives-bind (eval-Gives sc checked l p el)
          λ v. Gives-bind (eval-Gives sc checked r q er) λ w. (_, refl)
    eval-Gives sc checked (call name ns at) used h =
        let (f, found, fits_arity, inner) =
          check_call-ok name (count_nodes ns) (walk_all checked ns) h in
        call-Gives sc name ns f found fits_arity (eval_args-AllGive sc checked ns used inner)

    eval_args-AllGive :
        (sc checked : Scope) (ns : Nodes Float) (used : Used)
        → walk_all checked ns ≡ ok used
        → AllGive sc ns
    eval_args-AllGive sc checked nil used h = ([], refl, refl)
    eval_args-AllGive sc checked (cons n ns) used h =
        let (p, en, rest) = >>=-eq-ok (walk checked n) _ h in
        let (q, ens, _) = >>=-eq-ok (walk_all checked ns) _ rest in
        args-AllGive sc n ns (eval-Gives sc checked n p en) (eval_args-AllGive sc checked ns q ens)

  -- A formula that `Check` accepts in some scope is evaluated by `Eval` to a result in every scope: no
  -- function of the table is missing, no argument index is out of range, and the parser has fuel.
  pub check-eval_safe :
      (src : Text) (checked sc : Scope) (used : Used)
      → check (lib.unicode) src checked ≡ ok used
      → (r : Result) × (eval_formula lib src sc ≡ ok r)
  unfolding check eval_formula eval_node
  check-eval_safe src checked sc used h = go (parse (lib.unicode) src) refl
    where
      go :
          (parsed : Outcome _ (Node Float))
          → parse (lib.unicode) src ≡ parsed
          → (r : Result) × (eval_formula lib src sc ≡ ok r)
      go (ok n) e =
          let (v, ev) = eval-Gives sc checked n used (rw (e, check) at h) in
          (verdict lib v, rw (e, eval_formula) (rw (ev, eval_node)))
      go (failed x) e = absurd (ground (linear, e))
      go panicked e = absurd (ground (linear, e))
      go out_of_fuel e = absurd (ground (linear, e))
