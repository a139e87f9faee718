-- ===== src/Agent/Budget.antt =====
-- internal/agent/budget.go: the budget of model calls of one turn. Every copy made by WithTools shares the
-- counter and the inbox, so both are a state that `pick` takes and returns. The counter is an int32 that a
-- turn cannot bring near its bound, and is a plain number here.
pub mod Picks
use bepaylot.Prelude.{
  ℕ, zero, suc, ◌+◌, ◌-◌, ◌*◌, Text, text, lit, Bool, true, false, ◌&&◌, Option, none, some, List,
  [], ◌∷◌, ◌++◌, ltb, leb, if◌then◌else◌,
}
use bepaylot.GoLibrary.{Formats}
use bepaylot.Agent.History.{Message}
use bepaylot.Agent.Continue.{user_message}
use bepaylot.Agent.Steer.{Steerer, apply, splice}

-- wrapUpNotice
unfoldable pub wrap_up_notice : Text
unfolding lit
wrap_up_notice =
    lit
      "[Notice from the system] You have used all the tool calls available for this turn, so no tools can be called now. Write your final answer to the user now, in the user's language, using what you have gathered so far. If part of the request could not be completed, say exactly which part and why."

-- budgetWarnCalls
abbrev pub budget_warn_calls : ℕ
budget_warn_calls = 3

-- graphStepsFor
abbrev pub graph_steps_for : ℕ → ℕ
graph_steps_for n = 2 * n + 10

-- The two models that a budgetModel holds; `bound_model` stands for the one with the tools bound.
pub data ModelChoice : Type 0 where
  base_model bound_model : ModelChoice

-- budgetModel, without its models: whether WithTools has bound tools, and the inbox if there is one.
pub record BudgetModel (Row : Type 0) : Type 0 where
  pub has_tools : Bool
  pub calls : ℕ
  pub max_calls : ℕ
  pub steer : Option (Steerer Row Message)

-- newBudgetModel
abbrev pub new_budget_model : {Row : Type 0} → ℕ → Option (Steerer Row Message) → BudgetModel Row
new_budget_model max_calls steer = record {
  has_tools = false;
  calls = 0;
  max_calls = max_calls;
  steer = steer;
}

-- WithTools, when the model binds the tools without an error
abbrev pub with_tools : {Row : Type 0} → BudgetModel Row → BudgetModel Row
with_tools b = record b { has_tools = true }

-- The transcript with the user's new messages, if there is an inbox.
abbrev pub steered :
    {Row : Type 0}
    → List Message
    → Option (Steerer Row Message)
    → Option (Steerer Row Message) × List Message
unfolding apply splice
steered input none = (none, input)
steered input (some s) = let taken = apply user_message input s in (some taken.0, taken.1)

-- `formats` is package fmt, for fmt.Sprintf.
module _ (formats : Formats) where
  -- fmt.Sprintf(budgetWarnNotice, left)
  unfoldable pub budget_warn_notice : ℕ → Text
  unfolding lit
  budget_warn_notice left =
      lit "[Notice from the system] Only "
      ++ (formats.decimal left
          ++ lit
              " model calls remain in this turn, this one included, and the final call has no tools. Stop exploring: do what is still essential (batch independent tool calls into one step) and get ready to give a complete final answer. Put the most important part first; if something will not fit, say what is left.")

  -- The choice of `pick`, for the call numbered `n`.
  abbrev pub chosen : Bool → ℕ → ℕ → List Message → ModelChoice × List Message
  unfolding wrap_up_notice budget_warn_notice
  chosen has_tools n max_calls input =
      if has_tools
      then (if leb max_calls n
          then (base_model, input ++ user_message wrap_up_notice ∷ [])
          else (let left = suc max_calls - n in
              if leb left budget_warn_calls && ltb (suc budget_warn_calls) max_calls
              then (bound_model, input ++ user_message (budget_warn_notice left) ∷ [])
              else (bound_model, input)))
      else (base_model, input)

  -- pick
  unfoldable pub pick :
      {Row : Type 0}
      → List Message
      → BudgetModel Row
      → BudgetModel Row × (ModelChoice × List Message)
  unfolding steered chosen
  pick input b =
      let n = suc b.calls in
      let taken = steered input b.steer in
      (record b { calls = n; steer = taken.0 }, chosen b.has_tools n b.max_calls taken.1)
