-- ===== src/Tests/QueueTests.antt =====
-- internal/queue/inline.go on a queue of one task.
use bepaylot.Prelude.{
  zero, suc, ◌≡◌, refl, Text, text, text_eq, contains_text, lit, true, false, none, some, [], ◌∷◌,
  arith,
}
use bepaylot.Queue.{
  Task, Request, Inline, Answers, Handler, erred, skipped, new_inline, enqueue, enqueue_all,
  attempts, drain, first_due, settle, forget, max_retry,
}
use bepaylot.Queue.Ids.{IsQueue, enqueue-IsQueue, new_inline-IsQueue}
use bepaylot.Queue.Retry.{Made, attempts_lem}
use bepaylot.Queue.Drain.{IdsKept, drain-IdsKept, Emptied, drain-done}
use bepaylot.Queue.Duplicates.{enqueue-enqueue_all}

abbrev request : Request
request = record {
  task_type = text "index:tree";
  payload = some (text "{}");
  id = text "a";
  process_in = 5;
}

abbrev other : Request
other = record request { id = text "b" }

abbrev task : Task
task = record { task_type = text "index:tree"; payload = text "{}"; id = text "a"; not_before = 0 }

-- Its queue holds one task.
abbrev one_task : Inline
one_task = record {
  queue = task ∷ [];
  seen = text "a" ∷ [];
  failed = [];
  dead = [];
  honor_delays = false;
}

enqueued : (enqueue 7 request new_inline).0 ≡ one_task
unfolding enqueue contains_text
enqueued = refl

one_task-IsQueue : IsQueue [] (enqueue 7 request new_inline).0
one_task-IsQueue = enqueue-IsQueue [] 7 request new_inline new_inline-IsQueue

-- A handler that fails at every attempt, the third time for good.
abbrev thrice : Answers
thrice t i final = ([], elim i [ zero ↦ erred | suc j ↦ elim j [ zero ↦ erred | suc k ↦ skipped ] ])

abbrev for_all : Text → Handler
for_all τ n t i final = ([], erred)

attempts_lem_example : Made thrice 5 0 task (attempts 7 thrice 5 0 task new_inline)
attempts_lem_example = attempts_lem 7 thrice 5 0 task new_inline

skipped_at_third : (attempts 7 thrice 5 0 task new_inline).made ≡ 3
unfolding attempts enqueue_all
skipped_at_third = refl

drain-IdsKept_example : IdsKept (drain (λ n. n) (λ τ. none) 3 (enqueue 7 request new_inline).0)
drain-IdsKept_example =
    drain-IdsKept (λ n. n) (λ τ. none) 3 (enqueue 7 request new_inline).0 one_task-IsQueue

-- The id of a task that had no handler stays known.
stuck : (drain (λ n. n) (λ τ. none) 3 one_task).0.seen ≡ text "a" ∷ []
unfolding drain first_due
stuck = refl

enqueue-enqueue_all_example :
    enqueue 9 request (enqueue_all 8 (other ∷ []) (enqueue 7 request new_inline).0)
    ≡ (enqueue_all 8 (other ∷ []) (enqueue 7 request new_inline).0, true)
enqueue-enqueue_all_example =
    enqueue-enqueue_all 7 8 9 request request (other ∷ []) (text "{}") (text "{}") new_inline refl
      refl refl refl

-- The task fails in the only round that runs it.
drain-done_example :
    Emptied (λ n. n) for_all (task ∷ []) (drain (λ n. n) (λ τ. some (for_all τ)) 2 one_task)
unfolding max_retry text_eq lit
drain-done_example =
    drain-done (λ n. n) for_all (λ τ n t i final. refl) 2 one_task (refl, tt) (omega arith)

-- The dead-letter sink is told of the six attempts that the policy permits, where three were made.
told_of_six :
    (settle task (attempts 7 thrice 5 0 task one_task)).dead
    ≡ record { task = task; ending = skipped; attempts = 6 } ∷ []
unfolding settle attempts enqueue_all forget max_retry text_eq lit
told_of_six = refl
