-- ===== src/Agent/Budget/Picks.antt =====
-- The calls of a whole turn under the budget of internal/agent/budget.go.
use bepaylot.Prelude.{
  ℕ, zero, suc, ◌-◌, ◌<◌, ◌≡◌, ◌≢◌, refl, ap, ◌∙◌, if-intro, true, ◌&&◌, List, [], ◌∷◌, ◌++◌, ltb,
  leb, if◌then◌else◌, length, arith,
}
use bepaylot.GoLibrary.{Formats}
use bepaylot.Agent.History.{Message}
use bepaylot.Agent.Continue.{user_message}
use bepaylot.Agent.Budget.{
  BudgetModel, ModelChoice, base_model, bound_model, wrap_up_notice, budget_warn_notice, steered,
  chosen, pick,
}

-- The calls that are given the tools.
unfoldable pub bound_calls : List (ModelChoice × List Message) → ℕ
bound_calls [] = 0
bound_calls ((base_model, t) ∷ ps) = bound_calls ps
bound_calls ((bound_model, t) ∷ ps) = suc (bound_calls ps)

module _ (formats : Formats) where
  -- The picks of a turn, one for the transcript of each model call.
  unfoldable pub picks :
      {Row : Type 0} → List (List Message) → BudgetModel Row → List (ModelChoice × List Message)
  unfolding pick
  picks [] b = []
  picks (input ∷ inputs) b = let p = pick formats input b in p.1 ∷ picks inputs p.0

  -- What a call is given when `left` calls remain, it included, of a budget of more than four.
  abbrev pub scheduled : ℕ → List Message → ModelChoice × List Message
  unfolding wrap_up_notice budget_warn_notice
  scheduled zero t = (base_model, t ++ user_message wrap_up_notice ∷ [])
  scheduled (suc zero) t = (base_model, t ++ user_message wrap_up_notice ∷ [])
  scheduled (suc (suc zero)) t =
      (bound_model, t ++ user_message (budget_warn_notice formats 2) ∷ [])
  scheduled (suc (suc (suc zero))) t =
      (bound_model, t ++ user_message (budget_warn_notice formats 3) ∷ [])
  scheduled (suc (suc (suc (suc left)))) t = (bound_model, t)

  -- The calls that are warned.
  warned_lem :
      (calls max_calls left : ℕ) (t : List Message)
      → left ≡ max_calls - calls
      → 4 < max_calls
      → 1 < left
      → left < 4
      → chosen formats true (suc calls) max_calls t
        ≡ (bound_model, t ++ user_message (budget_warn_notice formats left) ∷ [])
  unfolding chosen
  warned_lem calls m left t e h above below =
      let warned : ModelChoice × List Message =
        (bound_model, t ++ user_message (budget_warn_notice formats left) ∷ []) in
      if-intro (λ (x : ModelChoice × List Message). x ≡ warned) (leb m (suc calls)) _ _
        (λ a. absurd (ground (arith, a, e, above)))
        (λ a.
          if-intro (λ (x : ModelChoice × List Message). x ≡ warned)
            (leb (suc m - suc calls) 3 && ltb 4 m) _ _
            (λ b.
              ap (λ k. (bound_model, t ++ user_message (budget_warn_notice formats k) ∷ []))
                (omega (arith, e)))
            (λ b. absurd (ground (arith, b, e, below, h))))

  chosen_lem :
      (calls max_calls left : ℕ) (t : List Message)
      → left ≡ max_calls - calls
      → 4 < max_calls
      → chosen formats true (suc calls) max_calls t ≡ scheduled left t
  unfolding chosen scheduled
  chosen_lem calls m zero t e h = ground (arith, e, h)
  chosen_lem calls m (suc zero) t e h = ground (arith, e, h)
  chosen_lem calls m (suc (suc zero)) t e h = warned_lem calls m 2 t e h (omega arith) (omega arith)
  chosen_lem calls m (suc (suc (suc zero))) t e h =
      warned_lem calls m 3 t e h (omega arith) (omega arith)
  chosen_lem calls m (suc (suc (suc (suc left)))) t e h = ground (arith, e, h)

  -- Under a budget of more than four calls with tools bound, a call gets the transcript with the user's
  -- new messages and what is scheduled for the number of calls that remain, it included, when these are
  -- not four: nothing more while more than four do, a warning with that number for three and for two, and
  -- the wrap-up without tools from the last one on.
  pub pick-scheduled :
      {Row : Type 0} (input : List Message) (b : BudgetModel Row)
      → b.has_tools ≡ true
      → 4 < b.max_calls
      → b.max_calls - b.calls ≢ 4
      → (pick formats input b).1 ≡ scheduled (b.max_calls - b.calls) (steered input b.steer).1
  unfolding pick
  pick-scheduled input b e h k =
      ap (λ t. chosen formats t (suc b.calls) b.max_calls (steered input b.steer).1) e
      ∙ chosen_lem b.calls b.max_calls (b.max_calls - b.calls) _ refl h

  chosen-bound_calls :
      (n max_calls : ℕ) (t : List Message) (ps : List (ModelChoice × List Message))
      → bound_calls (chosen formats true n max_calls t ∷ ps)
        ≡ (if leb max_calls n then bound_calls ps else suc (bound_calls ps))
  unfolding chosen bound_calls
  chosen-bound_calls n m t ps = ground arith

  -- With tools bound, the calls that are given them are as many as the budget less the calls already made
  -- and one more, or all calls when fewer are made.
  pub picks-bound_calls :
      {Row : Type 0} (inputs : List (List Message)) (b : BudgetModel Row)
      → b.has_tools ≡ true
      → bound_calls (picks inputs b) ≡ (
          if ltb (b.max_calls - suc b.calls) (length inputs)
          then b.max_calls - suc b.calls
          else length inputs)
  unfolding picks pick bound_calls
  picks-bound_calls [] b e = ground arith
  picks-bound_calls (input ∷ inputs) b e =
      let ih = picks-bound_calls inputs (pick formats input b).0 e in
      ap
        (λ t. bound_calls (
          chosen formats t (suc b.calls) b.max_calls (steered input b.steer).1
          ∷ picks inputs (pick formats input b).0))
        e
      ∙ chosen-bound_calls (suc b.calls) b.max_calls _ _
      ∙ ground (arith, ih)
