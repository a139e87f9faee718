-- ===== src/Llm/Retry.antt =====
-- internal/llm/retry.go: a failed call of a model is made again. The wrapped model is a parameter that
-- answers the call with a number; `gives_up` says that the context is done after that call, or during the
-- wait that follows it.
pub mod Calls
use bepaylot.Prelude.{
  ℕ, zero, suc, ◌+◌, ◌*◌, ◌/◌, ◌%◌, ◌^◌, Bool, true, false, Option, none, some, List, [], ◌∷◌, ltb,
  if◌then◌else◌,
}

-- The result of a call.
pub data Called {ℓ} (E : Type 0) (A : Type ℓ) : Type ℓ where
  returned : A → Called E A
  call_failed : E → Called E A

-- modelRetries
abbrev pub model_retries : ℕ
model_retries = 2

-- A result, and the number of the last call made for it.
pub record Retried (E A : Type 0) : Type 0 where
  pub result : Called E A
  pub last : ℕ

module _ {E A : Type 0} (call : ℕ → Called E A) (gives_up : ℕ → Bool) where
  -- The loop from the call numbered `attempt` on, with `left` more after it.
  abbrev pub after_call : ℕ → Called E A → Retried E A → Retried E A
  after_call attempt (returned a) again = record { result = returned a; last = attempt }
  after_call attempt (call_failed e) again =
      if gives_up attempt then record { result = call_failed e; last = attempt } else again

  unfoldable pub retry_from : ℕ → ℕ → Retried E A
  retry_from zero attempt = record { result = call attempt; last = attempt }
  retry_from (suc left) attempt = after_call attempt (call attempt) (retry_from left (suc attempt))

  -- retryModel.Generate
  unfoldable pub generate : Retried E A
  unfolding retry_from
  generate = retry_from model_retries 0

-- A stream of chunks, which ends by io.EOF or by an error.
pub record Stream (E A : Type 0) : Type 0 where
  pub chunks : List A
  pub ending : Option E

module _ {E A : Type 0} where
  abbrev pub ended : Stream E A → Option E → Called E (Stream E A)
  ended s none = returned s
  ended s (some e) = call_failed e

  -- An attempt of Stream: one copy is drained by drainForError, the other is what the caller gets.
  unfoldable pub drained : Called E (Stream E A) → Called E (Stream E A)
  drained (call_failed e) = call_failed e
  drained (returned s) = ended s s.ending

  -- retryModel.Stream
  unfoldable pub stream : (ℕ → Called E (Stream E A)) → (ℕ → Bool) → Retried E (Stream E A)
  unfolding drained retry_from
  stream open_stream gives_up = retry_from (λ i. drained (open_stream i)) gives_up model_retries 0

-- sleepBackoff: the delay in nanoseconds after the failure of `attempt`, where `random` stands for the
-- value that rand.Int63n reduces to its range. No product overflows, since the loops stop before attempt 2.
abbrev pub base_delay : ℕ → ℕ
base_delay attempt =
    if ltb 3000000000 (300000000 * 2 ^ attempt) then 3000000000 else 300000000 * 2 ^ attempt

unfoldable pub backoff : ℕ → ℕ → ℕ
backoff attempt random = base_delay attempt + random % (base_delay attempt / 2 + 1)
