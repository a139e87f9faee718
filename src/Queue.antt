-- ===== src/Queue.antt =====
-- internal/queue/inline.go: the in-process task queue, and the policies of internal/queue/queue.go. A
-- method that holds the mutex is one step; a handler is a parameter: a run of it makes enqueue requests
-- and ends with a result. Times are natural numbers; a zero time is 0.
pub mod Ids
pub mod Retry
pub mod Drain
pub mod Duplicates
use bepaylot.Prelude.{
  ℕ, zero, suc, ◌+◌, Text, text_eq, contains_text, lit, Bool, true, false, ◌&&◌, ◌||◌, not, Option,
  none, some, List, [], ◌∷◌, ◌++◌, ltb, leb, if◌then◌else◌, Option-cases,
}

-- inlineTask
pub record Task : Type 0 where
  pub task_type : Text
  pub payload : Text
  pub id : Text
  pub not_before : ℕ

-- What `Enqueue` is given: the type, json.Marshal of the payload (`none` on an error), and Opts.
pub record Request : Type 0 where
  pub task_type : Text
  pub payload : Option Text
  pub id : Text
  pub process_in : ℕ

-- How a handler ends: nil, an error that is ErrSkipRetry, another error.
pub data Ending : Type 0 where
  succeeded skipped erred : Ending

-- A call of the dead-letter sink.
pub record DeadLetter : Type 0 where
  pub task : Task
  pub ending : Ending
  pub attempts : ℕ

-- Inline, without the handlers; `seen` holds the keys of the map.
pub record Inline : Type 0 where
  pub queue : List Task
  pub seen : List Text
  -- for each entry of Failed, its task
  pub failed : List Task
  pub dead : List DeadLetter
  pub honor_delays : Bool

abbrev pub new_inline : Inline
new_inline = record { queue = []; seen = []; failed = []; dead = []; honor_delays = false }

abbrev pub is_nonempty : Text → Bool
is_nonempty [] = false
is_nonempty (_ ∷ _) = true

-- `delete(q.seen, id)`
unfoldable pub forget : Text → List Text → List Text
unfolding text_eq
forget id [] = []
forget id (s ∷ ss) = let rest = forget id ss in if text_eq s id then rest else s ∷ rest

abbrev pub task_of : Request → Text → ℕ → Bool → Task
task_of r payload now honor = record {
  task_type = r.task_type;
  payload = payload;
  id = r.id;
  not_before = if ltb 0 r.process_in && honor then now + r.process_in else 0;
}

-- Enqueue at the time `now`; the result says whether it returned no error.
abbrev pub enqueue_marshalled : ℕ → Request → Inline → Option Text → Inline × Bool
enqueue_marshalled now r q none = (q, false)
enqueue_marshalled now r q (some payload) =
    let queued = q.queue ++ task_of r payload now q.honor_delays ∷ [] in
    if is_nonempty r.id
    then (if contains_text q.seen r.id
        then (q, true)
        else (record q { seen = r.id ∷ q.seen; queue = queued }, true))
    else (record q { queue = queued }, true)

unfoldable pub enqueue : ℕ → Request → Inline → Inline × Bool
unfolding contains_text
enqueue now r q = enqueue_marshalled now r q r.payload

-- Enqueue requests, one after another; a handler may drop the errors.
unfoldable pub enqueue_all : ℕ → List Request → Inline → Inline
unfolding enqueue
enqueue_all now [] q = q
enqueue_all now (r ∷ rs) q = enqueue_all now rs (enqueue now r q).0

-- MaxRetry of the policies; a type that has none has 3.
unfoldable pub max_retry : Text → ℕ
unfolding text_eq lit
max_retry t =
    if text_eq t (lit "index:tree")
    then 5
    else if text_eq t (lit "housekeeping:sweep")
    then 0
    else 3

abbrev pub behind : Task → Option (Task × List Task) → Option (Task × List Task)
behind t none = none
behind t (some (u, us)) = some (u, t ∷ us)

-- The first task that is due at `now`, and the others.
unfoldable pub first_due : ℕ → List Task → Option (Task × List Task)
first_due now [] = none
first_due now (t ∷ ts) =
    let rest = first_due now ts in if leb t.not_before now then some (t, ts) else behind t rest

-- What a handler does with a task in one round of Drain: for the attempt's number and whether it is the
-- final one, the requests made and the end.
abbrev pub Answers : Type 0
Answers = Task → ℕ → Bool → List Request × Ending

-- A handler may do with a task what it did not in an earlier round; the rounds are counted down.
abbrev pub Handler : Type 0
Handler = ℕ → Answers

abbrev pub is_retried : Ending → Bool
is_retried erred = true
is_retried _ = false

abbrev pub is_failure : Ending → Bool
is_failure succeeded = false
is_failure _ = true

-- What Drain has done with a task: the state, the end of the last attempt, and the attempts made.
pub record Tried : Type 0 where
  pub state : Inline
  pub ending : Ending
  pub made : ℕ

-- `now` is the time of the enqueue requests.
module _ (now : ℕ) (h : Answers) where
  -- The loop over the attempts, from number `attempt` on, with `left` more after it.
  unfoldable pub attempts : ℕ → ℕ → Task → Inline → Tried
  unfolding enqueue_all
  attempts zero attempt t q =
      let (rs, e) = h t attempt true in
      record { state = enqueue_all now rs q; ending = e; made = suc attempt }
  attempts (suc left) attempt t q =
      let (rs, e) = h t attempt false in
      let again = attempts left (suc attempt) t (enqueue_all now rs q) in
      if is_retried e
      then again
      else record { state = enqueue_all now rs q; ending = e; made = suc attempt }

-- After the attempts: the id is free again, and a failure is recorded.
unfoldable pub settle : Task → Tried → Inline
unfolding forget max_retry
settle t r =
    let q = r.state in
    let q' = record q { seen = if is_nonempty t.id then forget t.id q.seen else q.seen } in
    if is_failure r.ending
    then record q' {
      failed = q'.failed ++ t ∷ [];
      dead =
          q'.dead
          ++ record { task = t; ending = r.ending; attempts = suc (max_retry t.task_type) } ∷ [];
    }
    else q'

-- How Drain ends: no task is due, a type has no handler, the limit is reached.
pub data Drained : Type 0 where
  done : Drained
  no_handler : Text → Drained
  limit_reached : Drained

-- `clock` is the time of the rounds, counted down; `handlers` the registered map.
module _ (clock : ℕ → ℕ) (handlers : Text → Option Handler) where
  abbrev pub run_task : ℕ → Task → Answers → Inline → Inline
  run_task now t h q = settle t (attempts now h (max_retry t.task_type) 0 t q)

  -- A round with the first due task, its handler, and the rest of the loop.
  abbrev pub with_handler :
      ℕ → Task → Inline → (Inline → Inline × Drained) → Option Handler → Inline × Drained
  with_handler n t q go_on none = (q, no_handler t.task_type)
  with_handler n t q go_on (some h) = go_on (run_task (clock n) t (h n) q)

  abbrev pub round :
      ℕ → Inline → (Inline → Inline × Drained) → Option (Task × List Task) → Inline × Drained
  round n q go_on none = (q, done)
  round n q go_on (some (t, rest)) =
      with_handler n t (record q { queue = rest }) go_on (handlers t.task_type)

  -- Drain
  unfoldable pub drain : ℕ → Inline → Inline × Drained
  unfolding first_due attempts settle
  drain zero q = (q, limit_reached)
  drain (suc n) q = round n q (λ q'. drain n q') (first_due (clock n) q.queue)
