-- ===== src/Tests/LlmTests.antt =====
-- internal/llm/retry.go on a model whose second stream is whole.
use bepaylot.Prelude.{ℕ, zero, suc, ◌≡◌, refl, Text, text, Bool, false, none, some, [], ◌∷◌}
use bepaylot.Llm.Retry.{Called, returned, Stream, stream, drained, retry_from, model_retries}
use bepaylot.Llm.Retry.Calls.{IsWhole, Honest, stream-IsWhole}

abbrev cut : Stream Text ℕ
cut = record { chunks = 1 ∷ 2 ∷ []; ending = some (text "reset") }

abbrev whole : Stream Text ℕ
whole = record { chunks = 3 ∷ []; ending = none }

abbrev streams : ℕ → Called Text (Stream Text ℕ)
streams zero = returned cut
streams (suc n) = returned whole

abbrev waits : ℕ → Bool
waits n = false

stream-IsWhole_example :
    IsWhole (stream streams waits).result
    × Honest (λ i. drained (streams i)) waits model_retries 0 (stream streams waits)
stream-IsWhole_example = stream-IsWhole streams waits

second_stream : stream streams waits ≡ record { result = returned whole; last = 1 }
unfolding stream drained retry_from
second_stream = refl
