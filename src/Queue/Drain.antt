-- ===== src/Queue/Drain.antt =====
-- Drain of internal/queue/inline.go: the ids over its rounds, and its end.
use bepaylot.Prelude.{
  ℕ, zero, suc, ◌<◌, ◌≡◌, refl, sym, ap, ◌∙◌, subst, Text, Bool, true, false, Option, none, some,
  List, [], ◌∷◌, ◌++◌, append_assoc, append-nil, length, All, if◌then◌else◌, if-intro, arith,
}
use bepaylot.Queue.{
  Task, Inline, Tried, Answers, Handler, Drained, done, no_handler, limit_reached, max_retry,
  enqueue_all, first_due, attempts, is_retried, is_failure, settle, run_task, with_handler, round,
  drain,
}
use bepaylot.Queue.Ids.{IsQueue, attempts-IsQueue, settle-IsQueue, first_due-IsQueue}
use bepaylot.Queue.Retry.{final_ending, attempts_ending}

-- How the ids stand when Drain has ended: if a type has no handler, a task of it is left out of the queue
-- with its id still known.
abbrev pub IdsKept : Inline × Drained → Type 0
IdsKept (q, done) = IsQueue [] q
IdsKept (q, limit_reached) = IsQueue [] q
IdsKept (q, no_handler τ) = (t : Task) × (t.task_type ≡ τ) × IsQueue t.id q

module _ (clock : ℕ → ℕ) (handlers : Text → Option Handler) where
  round-IdsKept :
      (n : ℕ) (q : Inline) (go_on : Inline → Inline × Drained)
      → ((q' : Inline) → IsQueue [] q' → IdsKept (go_on q'))
      → IsQueue [] q
      → (found : Option (Task × List Task)) → first_due (clock n) q.queue ≡ found
      → IdsKept (round clock handlers n q go_on found)
  round-IdsKept n q go_on k h none e = h
  round-IdsKept n q go_on k h (some (t, rest)) e = handled (handlers t.task_type)
    where
      busy : IsQueue t.id (record q { queue = rest })
      busy = first_due-IsQueue (clock n) q t rest h e

      handled :
          (o : Option Handler)
          → IdsKept (with_handler clock handlers n t (record q { queue = rest }) go_on o)
      handled none = (t, refl, busy)
      handled (some f) = k (run_task clock handlers (clock n) t (f n) (record q { queue = rest })) (
          settle-IsQueue t
            (attempts (clock n) (f n) (max_retry t.task_type) 0 t (record q { queue = rest }))
            (attempts-IsQueue t.id (clock n) (f n) (max_retry t.task_type) 0 t
              (record q { queue = rest }) busy))

  -- Over a Drain with whatever handlers, times and limit, the ids of the queued tasks stay distinct and
  -- the known ids stay those of the queued tasks, except that a task without a handler leaves its id.
  pub drain-IdsKept : (n : ℕ) (q : Inline) → IsQueue [] q → IdsKept (drain clock handlers n q)
  unfolding drain
  drain-IdsKept zero q h = h
  drain-IdsKept (suc n) q h =
      round-IdsKept n q (λ q'. drain clock handlers n q') (λ q' h'. drain-IdsKept n q' h') h
        (first_due (clock n) q.queue) refl

queue-settle : (t : Task) (r : Tried) → (settle t r).queue ≡ r.state.queue
unfolding settle
queue-settle t r =
    if-intro (λ (q : Inline). q.queue ≡ r.state.queue) (is_failure r.ending) _ _ (λ e. refl)
      (λ e. refl)

first_due_nil : (now : ℕ) → first_due now [] ≡ none
unfolding first_due
first_due_nil now = refl

first_due-cons :
    (now : ℕ) (t : Task) (ts : List Task) → t.not_before ≡ 0 → first_due now (t ∷ ts) ≡ some (t, ts)
unfolding first_due
first_due-cons now t ts e = ground arith

failed-settle :
    (t : Task) (r : Tried)
    → (settle t r).failed
      ≡ (if is_failure r.ending then r.state.failed ++ t ∷ [] else r.state.failed)
unfolding settle
failed-settle t r = ground arith

attempts_quiet :
    (h : Answers)
    → ((t : Task) (i : ℕ) (final : Bool) → (h t i final).0 ≡ [])
    → (now left attempt : ℕ) (t : Task) (q : Inline) → (attempts now h left attempt t q).state ≡ q
unfolding attempts enqueue_all
attempts_quiet h quiet now zero attempt t q = ap (λ rs. enqueue_all now rs q) (quiet t attempt true)
attempts_quiet h quiet now (suc left) attempt t q =
    if-intro (λ (r : Tried). r.state ≡ q) (is_retried (h t attempt false).1) _ _
      (λ e.
        attempts_quiet h quiet now left (suc attempt) t _
        ∙ ap (λ rs. enqueue_all now rs q) (quiet t attempt false))
      (λ e. ap (λ rs. enqueue_all now rs q) (quiet t attempt false))

module _ (clock : ℕ → ℕ) (handler_of : Text → Handler) where
  -- No run of a handler makes a request.
  abbrev pub Quiet : Type 0
  Quiet = (τ : Text) (n : ℕ) (t : Task) (i : ℕ) (final : Bool) → (handler_of τ n t i final).0 ≡ []

  -- Whether a task fails for good in a round.
  abbrev pub fails : ℕ → Task → Bool
  fails n t = is_failure (final_ending (handler_of t.task_type n) t (max_retry t.task_type) 0)

  -- The tasks that fail when each has a round, of those left, in order.
  abbrev pub failures : ℕ → List Task → List Task
  failures zero ts = []
  failures (suc n) [] = []
  failures (suc n) (t ∷ ts) = let rest = failures n ts in if fails n t then t ∷ rest else rest

  abbrev ran : ℕ → Task → Inline → Inline
  ran n t q = run_task clock (λ τ. some (handler_of τ)) (clock n) t (handler_of t.task_type n) q

  queue-ran : Quiet → (n : ℕ) (t : Task) (q : Inline) → (ran n t q).queue ≡ q.queue
  queue-ran quiet n t q =
      queue-settle t _
      ∙ ap (λ (s : Inline). s.queue)
          (attempts_quiet (handler_of t.task_type n) (quiet t.task_type n) (clock n)
            (max_retry t.task_type) 0 t q)

  failed-ran :
      Quiet
      → (n : ℕ) (t : Task) (q : Inline)
      → (ran n t q).failed ≡ (if fails n t then q.failed ++ t ∷ [] else q.failed)
  failed-ran quiet n t q =
      let h = handler_of t.task_type n in
      failed-settle t _
      ∙ ap
          (λ (s : Inline).
            (if is_failure (attempts (clock n) h (max_retry t.task_type) 0 t q).ending
              then s.failed ++ t ∷ []
              else s.failed))
          (attempts_quiet h (quiet t.task_type n) (clock n) (max_retry t.task_type) 0 t q)
      ∙ ap (λ e. (if is_failure e then q.failed ++ t ∷ [] else q.failed))
          (attempts_ending (clock n) h (max_retry t.task_type) 0 t q)

  failures-cons :
      Quiet
      → (n : ℕ) (t : Task) (ts : List Task) (q : Inline)
      → (ran n t q).failed ++ failures n ts ≡ q.failed ++ failures (suc n) (t ∷ ts)
  failures-cons quiet n t ts q =
      ap (λ fs. fs ++ failures n ts) (failed-ran quiet n t q)
      ∙ if-intro (λ fs. fs ++ failures n ts ≡ q.failed ++ failures (suc n) (t ∷ ts)) (fails n t) _ _
          (λ e. append_assoc q.failed (t ∷ []) (failures n ts) ∙ ground (arith, e))
          (λ e. ground (arith, e))

  -- The loop is over, with no task left and these failures.
  abbrev pub Emptied : List Task → Inline × Drained → Type 0
  Emptied fs x = (x.1 ≡ done) × (x.0.queue ≡ []) × (x.0.failed ≡ fs)

  drain-Emptied :
      Quiet
      → (n : ℕ) (ts : List Task) (q : Inline) → q.queue ≡ ts
      → All (λ t. t.not_before ≡ 0) ts
      → length ts < n
      → Emptied (q.failed ++ failures n ts) (drain clock (λ τ. some (handler_of τ)) n q)
  unfolding drain
  drain-Emptied quiet zero ts q e h l = absurd (omega (arith, l))
  drain-Emptied quiet (suc n) [] q e h l =
      subst
        (λ o. Emptied (q.failed ++ []) (
          round clock (λ τ. some (handler_of τ)) n q
            (λ q'. drain clock (λ τ. some (handler_of τ)) n q') o))
        {x = none} (sym (ap (first_due (clock n)) e ∙ first_due_nil (clock n)))
        (refl, e, sym (append-nil q.failed))
  drain-Emptied quiet (suc n) (t ∷ ts) q e h l =
      let q' : Inline = record q { queue = ts } in
      let ih =
        drain-Emptied quiet n ts (ran n t q') (queue-ran quiet n t q') h.1 (omega (arith, l)) in
      subst
        (λ o. Emptied (q.failed ++ failures (suc n) (t ∷ ts)) (
          round clock (λ τ. some (handler_of τ)) n q
            (λ q'. drain clock (λ τ. some (handler_of τ)) n q') o))
        {x = some (t, ts)} (sym (ap (first_due (clock n)) e ∙ first_due-cons (clock n) t ts h.0))
        (ih.0, ih.1, ih.2 ∙ failures-cons quiet n t ts q')

  -- When every type has a handler, no handler makes a request and no task is delayed, Drain with a limit
  -- above the number of the queued tasks ends with none left, and has recorded as failed, in order and
  -- besides what it had recorded before, exactly those of them whose attempts come to a failure.
  pub drain-done :
      Quiet
      → (n : ℕ) (q : Inline) → All (λ t. t.not_before ≡ 0) q.queue
      → length q.queue < n
      → Emptied (q.failed ++ failures n q.queue) (drain clock (λ τ. some (handler_of τ)) n q)
  drain-done quiet n q h l = drain-Emptied quiet n q.queue q refl h l
