-- ===== src/Llm/Retry/Calls.antt =====
-- The calls that retryModel of internal/llm/retry.go makes, and what it returns of them.
use bepaylot.Prelude.{
  ℕ, zero, suc, ◌+◌, ◌*◌, ◌≤◌, ◌<◌, ◌≡◌, refl, sym, subst, Bool, true, false, Option, none,
  Option-cases, ◌⊎◌, inl, inr, if-intro, arith,
}
use bepaylot.Llm.Retry.{
  Called, returned, call_failed, Retried, Stream, after_call, retry_from, ended, drained, stream,
  backoff, model_retries,
}

module _ {E A : Type 0} (call : ℕ → Called E A) (gives_up : ℕ → Bool) where
  -- The calls from one number up to another all failed while the caller still waited, up to the last.
  pub data FailedUpTo (last : ℕ) : ℕ → Type 0 where
    reached : FailedUpTo last last
    onward :
        (first : ℕ) (e : E)
        → call first ≡ call_failed e
        → gives_up first ≡ false
        → FailedUpTo last (suc first)
        → FailedUpTo last first

  abbrev pub IsReturned : Called E A → Type 0
  IsReturned c = (a : A) × (c ≡ returned a)

  -- A result is the one of the last call; every call before it failed; and the last of them returned, or
  -- is the last permitted, or the caller gave up after it.
  abbrev pub Honest : ℕ → ℕ → Retried E A → Type 0
  Honest left first r =
      (r.result ≡ call r.last)
      × FailedUpTo r.last first
      × (r.last ≤ first + left)
      × (IsReturned r.result ⊎ ((r.last ≡ first + left) ⊎ (gives_up r.last ≡ true)))

  after_call-Honest :
      (left first : ℕ) (again : Retried E A)
      → Honest left (suc first) again
      → (c : Called E A) → call first ≡ c
      → Honest (suc left) first (after_call call gives_up first c again)
  after_call-Honest left first again h (returned a) e = (sym e, reached, omega arith, inl (a, refl))
  after_call-Honest left first again h (call_failed x) e =
      if-intro (λ (r : Retried E A). Honest (suc left) first r) (gives_up first) _ _
        (λ g. (sym e, reached, omega arith, inr (inr g)))
        (λ g. (
          h.0,
          onward first x e g h.1,
          omega (arith, h.2),
          elim h.3 [
            | inl k ↦ inl k
            | inr k ↦ elim k [ inl m ↦ inr (inl (omega (arith, m))) | inr m ↦ inr (inr m) ]
          ],
        ))

  pub retry_from-Honest : (left first : ℕ) → Honest left first (retry_from call gives_up left first)
  unfolding retry_from
  retry_from-Honest zero first = (refl, reached, omega arith, inr (inl (omega arith)))
  retry_from-Honest (suc left) first =
      after_call-Honest left first _ (retry_from-Honest left (suc first)) (call first) refl

module _ {E A : Type 0} where
  -- A stream that ended by io.EOF.
  abbrev pub IsWhole : Called E (Stream E A) → Type 0
  IsWhole (returned s) = s.ending ≡ none
  IsWhole (call_failed e) = Unit

  drained-IsWhole : (c : Called E (Stream E A)) → IsWhole (drained c)
  unfolding drained
  drained-IsWhole (call_failed e) = tt
  drained-IsWhole (returned s) = elim (Option-cases s.ending) [
    | inl e ↦ subst (λ (o : Option E). IsWhole (ended s o)) (sym e) e
    | inr x ↦ subst (λ (o : Option E). IsWhole (ended s o)) (sym x.1) tt
  ]

  -- Of at most three calls Stream returns what the last one gave: a stream only when it ended by io.EOF,
  -- and an error only when no call is left or the caller gave up; every call before it failed.
  pub stream-IsWhole :
      (open_stream : ℕ → Called E (Stream E A)) (gives_up : ℕ → Bool)
      → IsWhole (stream open_stream gives_up).result
        × Honest
            (λ i. drained (open_stream i))
            gives_up
            model_retries
            0
            (stream open_stream gives_up)
  unfolding stream
  stream-IsWhole open_stream gives_up =
      let h = retry_from-Honest (λ i. drained (open_stream i)) gives_up model_retries 0 in
      (subst (λ (c : Called E (Stream E A)). IsWhole c) (sym h.0) (drained-IsWhole _), h)

-- The wait after a failure that is followed by another call lasts between 0.3 and 0.9 seconds, and the
-- second wait is at least twice as long as the shortest first one.
pub backoff_bounds :
    (attempt random : ℕ)
    → attempt < model_retries
    → (300000000 * suc attempt ≤ backoff attempt random) × (backoff attempt random ≤ 900000000)
unfolding backoff
backoff_bounds zero random h = (omega arith, omega arith)
backoff_bounds (suc zero) random h = (omega arith, omega arith)
backoff_bounds (suc (suc n)) random h = absurd (omega arith)
