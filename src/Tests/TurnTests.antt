-- ===== src/Tests/TurnTests.antt =====
-- The model calls of a turn of internal/agent: a reply in two pieces, and a budget of five calls.
use bepaylot.Prelude.{
  ℕ, zero, suc, ◌≡◌, refl, Text, text, text_eq, contains_text, Bool, false, Option, none, some,
  List, [], ◌∷◌, ◌⊎◌, arith,
}
use bepaylot.GoLibrary.{Formats}
use bepaylot.Agent.History.{Message}
use bepaylot.Agent.Steer.{new_steerer}
use bepaylot.Llm.Retry.{Called, returned, call_failed, Stream}
use bepaylot.Agent.Continue.{
  Reply, assistant_message, user_message, max_continuations, generate_resuming, resume_from,
  hit_output_limit, stream_resuming, rounds, forward,
}
use bepaylot.Agent.Continue.Pieces.{Resumes, generate_resuming-Resumes}
use bepaylot.Agent.Continue.Streamed.{follow_first, never, stream_resuming-follow}
use bepaylot.Agent.Budget.{BudgetModel, pick, steered, with_tools, new_budget_model}
use bepaylot.Agent.Budget.Picks.{picks, bound_calls, scheduled, pick-scheduled, picks-bound_calls}
use bepaylot.Tests.Sample.{ascii}

abbrev reply : Text → Text → Reply
reply s finish = record { message = assistant_message s; finish = finish }

-- The first reply is cut off.
abbrev model : ℕ → List Message → Called Text Reply
model zero t = returned (reply (text "Hel") (text "length"))
model (suc n) t = returned (reply (text "lo") (text "stop"))

abbrev open_context : ℕ → Bool
open_context n = false

abbrev asked : List Message
asked = user_message (text "hi") ∷ []

generate_resuming-Resumes_example :
    ((e : Text) × (model 0 asked ≡ call_failed e)
      × ((generate_resuming ascii model open_context asked).result ≡ call_failed e))
    ⊎ ((first : Reply) × (model 0 asked ≡ returned first)
        × Resumes ascii model open_context asked max_continuations 0 first.message.content first
            (generate_resuming ascii model open_context asked))
generate_resuming-Resumes_example = generate_resuming-Resumes ascii model open_context asked

joined :
    generate_resuming ascii model open_context asked
    ≡ record { result = returned (reply (text "Hello") (text "stop")); last = 1 }
unfolding generate_resuming resume_from hit_output_limit contains_text text_eq
joined = refl

-- The same, streamed rune by rune, with a nil chunk.
abbrev streamed : ℕ → List Message → Called Text (Stream Text (Option Reply))
streamed zero t = returned (record {
  chunks = some (reply (text "H") []) ∷ none ∷ some (reply (text "el") (text "length")) ∷ [];
  ending = none;
})
streamed (suc n) t =
    returned (record { chunks = some (reply (text "lo") (text "stop")) ∷ []; ending = none })

stream_resuming-follow_example :
    stream_resuming ascii never streamed open_context asked
    ≡ follow_first ascii streamed open_context asked (streamed 0 asked)
stream_resuming-follow_example = stream_resuming-follow ascii streamed open_context asked

three_chunks :
    stream_resuming ascii never streamed open_context asked
    ≡ returned (record {
      sent =
          reply (text "H") []
          ∷ reply (text "el") (text "length")
          ∷ reply (text "lo") (text "stop")
          ∷ [];
      error = none;
    })
unfolding stream_resuming rounds forward hit_output_limit contains_text text_eq
three_chunks = refl

-- Five calls, of which one is made.
abbrev formats : Formats
formats = record { quote = λ s. s; decimal = λ n. n ∷ [] }

abbrev budget : BudgetModel ℕ
budget = record (with_tools (new_budget_model 5 (some new_steerer))) { calls = 1 }

pick-scheduled_example :
    (pick formats asked (record budget { calls = 2 })).1
    ≡ scheduled formats 3 (steered asked budget.steer).1
pick-scheduled_example =
    pick-scheduled formats asked (record budget { calls = 2 }) refl (omega arith)
      (λ e. omega (arith, e))

picks-bound_calls_example :
    bound_calls (picks formats (asked ∷ asked ∷ asked ∷ asked ∷ []) budget) ≡ 3
picks-bound_calls_example =
    picks-bound_calls formats (asked ∷ asked ∷ asked ∷ asked ∷ []) budget refl
