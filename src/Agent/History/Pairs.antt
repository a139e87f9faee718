-- ===== src/Agent/History/Pairs.antt =====
-- pairToolCalls of internal/agent/history.go: which ids it keeps.
use bepaylot.Prelude.{
  ℕ, suc, ◌≡◌, refl, subst, Text, text_eq_sound, contains_text, ◌&&◌, List, [], ◌∷◌, Bool-cases,
  inl, inr, arith,
}
use bepaylot.Agent.History.{
  Message, ToolCall, result_ids, call_ids, kept_calls, kept_results, pair_tool_calls,
}

contains-call_ids :
    (have : List Text) (n : ℕ) (cs : List ToolCall) (id : Text)
    → contains_text (call_ids (kept_calls have n cs)) id
      ≡ (contains_text (call_ids cs) id && contains_text have id)
unfolding kept_calls contains_text
contains-call_ids have n [] id = refl
contains-call_ids have n (c ∷ cs) id = ground (
  arith,
  contains-call_ids have n cs id,
  contains-call_ids have (suc n) cs id,
  text_eq_sound c.id id,
)

contains-result_ids :
    (called : List Text) (rs : List Message) (id : Text)
    → contains_text (result_ids (kept_results called rs)) id
      ≡ (contains_text (result_ids rs) id && contains_text called id)
unfolding kept_results contains_text
contains-result_ids called [] id = refl
contains-result_ids called (r ∷ rs) id =
    ground (arith, contains-result_ids called rs id, text_eq_sound r.tool_call_id id)

-- The calls are numbered from `n`.
abbrev pub NumberedFrom : ℕ → List ToolCall → Type 0
NumberedFrom n [] = Unit
NumberedFrom n (c ∷ cs) = (c.index ≡ n) × NumberedFrom (suc n) cs

kept_calls-NumberedFrom :
    (have : List Text) (n : ℕ) (cs : List ToolCall) → NumberedFrom n (kept_calls have n cs)
unfolding kept_calls
kept_calls-NumberedFrom have n [] = tt
kept_calls-NumberedFrom have n (c ∷ cs) = elim (Bool-cases (contains_text have c.id)) [
  | inl e ↦
      subst (NumberedFrom n) {x = record c { index = n } ∷ kept_calls have (suc n) cs}
        (ground (arith, e)) (refl, kept_calls-NumberedFrom have (suc n) cs)
  | inr e ↦
      subst (NumberedFrom n) {x = kept_calls have n cs} (ground (arith, e))
        (kept_calls-NumberedFrom have n cs)
]

-- Of the ids of the calls and of the results that a turn stored, pairToolCalls keeps exactly those that
-- have both, among the calls as among the results.
pub pair_tool_calls_lem :
    (calls : List ToolCall) (results : List Message) (id : Text)
    → (contains_text (call_ids (pair_tool_calls calls results).0) id
        ≡ (contains_text (call_ids calls) id && contains_text (result_ids results) id))
      × (contains_text (result_ids (pair_tool_calls calls results).1) id
          ≡ (contains_text (call_ids calls) id && contains_text (result_ids results) id))
unfolding pair_tool_calls
pair_tool_calls_lem calls results id = (
  contains-call_ids (result_ids results) 0 calls id,
  ground (
    arith,
    contains-call_ids (result_ids results) 0 calls id,
    contains-result_ids (call_ids (kept_calls (result_ids results) 0 calls)) results id,
  ),
)

-- The calls that pairToolCalls keeps are numbered from 0 without a gap.
pub pair_tool_calls-NumberedFrom :
    (calls : List ToolCall) (results : List Message)
    → NumberedFrom 0 (pair_tool_calls calls results).0
unfolding pair_tool_calls
pair_tool_calls-NumberedFrom calls results = kept_calls-NumberedFrom (result_ids results) 0 calls
