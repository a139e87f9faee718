-- ===== src/Docpipe/Group.antt =====
-- docpipe/group.go: the pages of a file as documents.
pub mod Partition
use bepaylot.Prelude.{
  ℕ, Text, Bool, true, false, ◌&&◌, ◌||◌, not, List, [], ◌∷◌, ◌++◌, if◌then◌else◌, lit,
}

-- types.PageDocType; an empty label: not classified
pub record PageDocType (Float : Type 0) : Type 0 where
  pub page_no : ℕ
  pub label : Text
  pub confidence : Float
  pub first_page : Bool

-- Document
pub record Document (Float : Type 0) : Type 0 where
  pub page_start : ℕ
  pub page_end : ℕ
  pub label : Text
  pub proposed_label : Text
  pub confidence : Float

abbrev pub is_nonempty {ℓ} : {A : Type ℓ} → List A → Bool
is_nonempty [] = false
is_nonempty (_ ∷ _) = true

abbrev pub any_classified : {Float : Type 0} → List (PageDocType Float) → Bool
any_classified [] = false
any_classified (p ∷ ps) = is_nonempty p.label || any_classified ps

-- `out[len(out)-1].PageEnd = n`
abbrev pub extend_last : {Float : Type 0} → ℕ → List (Document Float) → List (Document Float)
extend_last n [] = []
extend_last n (d ∷ []) = record d { page_end = n } ∷ []
extend_last n (d ∷ e ∷ ds) = d ∷ extend_last n (e ∷ ds)

-- `lt` is `<` on float64.
module _ {Float : Type 0} (lt : Float → Float → Bool) (min_confidence : Float) where
  -- The document that a page starts.
  unfoldable pub new_document : PageDocType Float → Document Float
  unfolding lit
  new_document p =
      if not (is_nonempty p.label) || lt p.confidence min_confidence
      then record {
        page_start = p.page_no;
        page_end = p.page_no;
        label = lit "unknown";
        proposed_label = p.label;
        confidence = p.confidence;
      }
      else record {
        page_start = p.page_no;
        page_end = p.page_no;
        label = p.label;
        proposed_label = [];
        confidence = p.confidence;
      }

  -- One round of the loop, on the documents so far.
  abbrev pub add_page : PageDocType Float → List (Document Float) → List (Document Float)
  add_page p out =
      if is_nonempty out && not p.first_page
      then extend_last p.page_no out
      else out ++ new_document p ∷ []

  unfoldable pub group_from :
      List (Document Float) → List (PageDocType Float) → List (Document Float)
  group_from out [] = out
  group_from out (p ∷ ps) = group_from (add_page p out) ps

  -- GroupByFirstPage
  unfoldable pub group_by_first_page : List (PageDocType Float) → List (Document Float)
  unfolding group_from
  group_by_first_page ps = if any_classified ps then group_from [] ps else []
