-- ===== src/CheckExpr/Verdict.antt =====
-- internal/checkexpr/eval.go: `verdict`, which turns a value into the outcome of a check, and the
-- three-valued `logic`.
pub mod Worst
pub mod Lists
use bepaylot.Prelude.{
  ℕ, suc, ◌+◌, Text, text_eq, lit, join, Bool, true, false, ◌&&◌, ◌||◌, not, Option, none, some,
  List, [], ◌∷◌, ◌++◌, ◌==◌, if◌then◌else◌, length, map,
}
use bepaylot.GoLibrary.{Library}
use bepaylot.CheckExpr.Syntax.{LogicOp}
use bepaylot.CheckExpr.Value.{
  Ref, Value, Values, num, str, date, bool, list, pair, nil, cons, Status, pass, fail, error, Item,
  Result, refs_of, values, dedupe, show,
}

abbrev pub only_status : Status → Result
only_status s = record { status = s; detail = []; failing = []; missing = []; refs = [] }

-- The loop over the items of a list: `r` and `missing` of the source.
pub record Tally : Type 0 where
  pub status : Status
  pub failing : List Item
  pub missing : List Text
  pub refs : List Ref

abbrev pub no_tally : Tally
no_tally = record { status = pass; failing = []; missing = []; refs = [] }

-- What the loop does with the verdict `sub` of an item, if that is no error.
unfoldable pub count_in : Status → Result → Tally → Tally
count_in fail sub t = record t {
  status = fail;
  failing = t.failing ++ sub.failing;
  refs = t.refs ++ sub.refs;
}
count_in Status.unknown sub t = record t {
  missing = t.missing ++ sub.missing;
  refs = t.refs ++ sub.refs;
}
count_in _ sub t = record t { refs = t.refs ++ sub.refs }

-- An item with the verdict `sub`: an error ends the loop, otherwise it goes on.
unfoldable pub after_item : Status → Result → (Tally → Result) → Tally → Result
after_item error sub go_on t = sub
after_item s sub go_on t = go_on (count_in s sub t)

abbrev pub is_pass : Status → Bool
is_pass pass = true
is_pass _ = false

abbrev pub is_nonempty {ℓ} : {A : Type ℓ} → List A → Bool
is_nonempty [] = false
is_nonempty (_ ∷ _) = true

module _ {Float Time : Type 0} (lib : Library Float Time) where
  open lib use {formats as fmt}

  -- After the loop, over `n` items.
  unfoldable pub close_tally : ℕ → Tally → Result
  close_tally n t =
      if is_pass t.status && is_nonempty t.missing
      then record (only_status Status.unknown) { missing = dedupe t.missing; refs = t.refs }
      else record {
        status = t.status;
        detail =
            if is_pass t.status
            then fmt.decimal n ++ (lit "/" ++ (fmt.decimal n ++ lit " giấy tờ đạt"))
            else [];
        failing = t.failing;
        missing = [];
        refs = t.refs;
      }

  abbrev pub bool_verdict : Bool → List Ref → Text → Result
  bool_verdict true refs note = record (only_status pass) { detail = note; refs = refs }
  bool_verdict false refs note = record (only_status fail) {
    detail = note;
    failing = record { note = note; refs = refs } ∷ [];
    refs = refs;
  }

  abbrev pub no_documents : Result
  no_documents = record (only_status Status.unknown) {
    missing = lit "không có giấy tờ nào để kiểm" ∷ [];
  }

  abbrev pub not_boolean : Value Float Time → Result
  not_boolean v = record (only_status error) {
    detail = lit "công thức phải cho kết quả đúng/sai, nhưng cho " ++ show lib v;
  }

  -- `verdict`; an item whose verdict is an error ends the loop with it.
  unfoldable mutual
    pub verdict : Value Float Time → Result
    verdict (bool b refs note) = bool_verdict b refs note
    verdict (list nil) = no_documents
    verdict (list (cons v vs)) = verdict_items (cons v vs) (length (values (cons v vs))) no_tally
    verdict (Value.unknown why refs) = record (only_status Status.unknown) {
      missing = dedupe why;
      refs = refs;
    }
    verdict (num x refs whole) = not_boolean (num x refs whole)
    verdict (str s refs) = not_boolean (str s refs)
    verdict (date t s refs) = not_boolean (date t s refs)
    verdict (pair a b) = not_boolean (pair a b)

    pub verdict_items : Values Float Time → ℕ → Tally → Result
    verdict_items nil n t = close_tally n t
    verdict_items (cons v vs) n t =
        after_item (verdict v).status (verdict v) (λ t'. verdict_items vs n t') t

  -- `toBool`: the value, if it is known.
  abbrev pub to_bool : Status → Option Bool
  to_bool pass = some true
  to_bool fail = some false
  to_bool _ = none

  abbrev pub detail_part : Text → List Text
  detail_part [] = []
  detail_part (r ∷ rs) = (r ∷ rs) ∷ []

  abbrev pub fail_notes : Result → List Text
  fail_notes r = map (λ (i : Item). i.note) r.failing

  -- `notes`
  abbrev pub notes : Result → Result → Text
  notes lv rv = join (lit "; ") (
      dedupe ((detail_part lv.detail ++ fail_notes lv) ++ (detail_part rv.detail ++ fail_notes rv)))

  abbrev pub fail_note : Result → Result → Text
  fail_note lv rv = join (lit "; ") (dedupe (fail_notes lv ++ fail_notes rv))

  abbrev pub is_known : Bool → Option Bool → Bool
  is_known b none = false
  is_known true (some c) = c
  is_known false (some c) = not c

  abbrev pub both_known : Option Bool → Option Bool → Bool
  both_known (some b) (some c) = true
  both_known _ _ = false

  -- `logic`
  unfoldable pub logic : LogicOp → Value Float Time → Value Float Time → Value Float Time
  logic LogicOp.and l r =
      let lv = verdict l in
      let rv = verdict r in
      if is_known false (to_bool lv.status) || is_known false (to_bool rv.status)
      then bool false (refs_of l ++ refs_of r) (fail_note lv rv)
      else if both_known (to_bool lv.status) (to_bool rv.status)
      then bool true (refs_of l ++ refs_of r) (notes lv rv)
      else Value.unknown (lv.missing ++ rv.missing) []
  logic LogicOp.or l r =
      let lv = verdict l in
      let rv = verdict r in
      if is_known true (to_bool lv.status) || is_known true (to_bool rv.status)
      then bool true (refs_of l ++ refs_of r) (notes lv rv)
      else if both_known (to_bool lv.status) (to_bool rv.status)
      then bool false (refs_of l ++ refs_of r) (notes lv rv)
      else Value.unknown (lv.missing ++ rv.missing) []
