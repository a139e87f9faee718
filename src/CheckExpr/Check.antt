-- ===== src/CheckExpr/Check.antt =====
-- internal/checkexpr/eval.go: `Check`, which validates a formula against the types of a scope.
use bepaylot.Prelude.{
  ℕ, Text, Bool, ◌&&◌, Option, none, some, List, [], ◌∷◌, ◌++◌, leb, if◌then◌else◌, Outcome, ok,
  failed, panicked, out_of_fuel, ◌>>=◌,
}
use bepaylot.GoLibrary.{Unicode}
use bepaylot.CheckExpr.Syntax.{
  Node, Nodes, num, str, bool, ident, member, call, neg, ParseError, nil, cons,
}
use bepaylot.CheckExpr.Parser.{parse}
use bepaylot.CheckExpr.Value.{Scope}
use bepaylot.CheckExpr.Functions.{Fn, fn_of, arity}
use bepaylot.CheckExpr.Eval.{type_of, type_info}

-- The errors of `Check`.
pub data CheckError : Type 0 where
  unparsed : ParseError → CheckError
  no_type : Text → CheckError
  no_field : Text → Text → CheckError
  no_function : Text → CheckError
  bad_arity : Text → Fn → CheckError

-- A (type, key) pair that the formula reads.
abbrev pub Used : Type 0
Used = List (Text × Text)

abbrev pub within : ℕ → ℕ × Option ℕ → Bool
within n (least, none) = leb least n
within n (least, some most) = leb least n && leb n most

unfoldable pub check_ident : Scope → Text → Outcome CheckError Used
check_ident sc name = elim (type_of sc name) [ none ↦ failed (no_type name) | some t ↦ ok [] ]

unfoldable pub check_member : Scope → Text → Text → Outcome CheckError Used
check_member sc name key = elim (type_of sc name) [
  | none ↦ failed (no_type name)
  | some t ↦ elim ((type_info sc t).fields key) [
    | none ↦ failed (no_field (type_info sc t).title key)
    | some info ↦ ok ((t, key) ∷ [])
  ]
]

-- The arguments of a call are walked (`inner`) after its name and their number `n` are checked.
unfoldable pub check_call : Text → ℕ → Outcome CheckError Used → Outcome CheckError Used
check_call name n inner = elim (fn_of name) [
  | none ↦ failed (no_function name)
  | some f ↦ if within n (arity f) then inner else failed (bad_arity name f)
]

abbrev pub count_nodes : {Float : Type 0} → Nodes Float → ℕ
count_nodes nil = 0
count_nodes (cons n ns) = Prim.Native.Nat.suc (count_nodes ns)

-- `walk`, which gives the pairs in the order in which it appends them to `used`.
unfoldable mutual
  pub walk : {Float : Type 0} → Scope → Node Float → Outcome CheckError Used
  walk sc (num x at) = ok []
  walk sc (str s at) = ok []
  walk sc (bool b at) = ok []
  walk sc (ident name at) = check_ident sc name
  walk sc (member name key at) = check_member sc name key
  walk sc (call name args at) = check_call name (count_nodes args) (walk_all sc args)
  walk sc (neg x at) = walk sc x
  walk sc (Node.not x at) = walk sc x
  walk sc (Node.logic op l r at) = walk sc l >>= λ p. walk sc r >>= λ q. ok (p ++ q)
  walk sc (Node.arith op l r at) = walk sc l >>= λ p. walk sc r >>= λ q. ok (p ++ q)
  walk sc (Node.compare op l r at) = walk sc l >>= λ p. walk sc r >>= λ q. ok (p ++ q)

  pub walk_all : {Float : Type 0} → Scope → Nodes Float → Outcome CheckError Used
  walk_all sc nil = ok []
  walk_all sc (cons n ns) = walk sc n >>= λ p. walk_all sc ns >>= λ q. ok (p ++ q)

-- `Check`
unfoldable pub check : {Float : Type 0} → Unicode Float → Text → Scope → Outcome CheckError Used
check u src sc = elim (parse u src) [
  | ok n ↦ walk sc n
  | failed e ↦ failed (unparsed e)
  | panicked ↦ panicked
  | out_of_fuel ↦ out_of_fuel
]
