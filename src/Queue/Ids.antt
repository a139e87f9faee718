-- ===== src/Queue/Ids.antt =====
-- The task ids of internal/queue/inline.go: which of them Enqueue takes for duplicates.
use bepaylot.Prelude.{
  ℕ, zero, suc, ◌≡◌, refl, sym, subst, Text, text_eq, text_eq_refl, text_eq_sound, contains_text,
  Bool, true, false, ◌&&◌, ◌||◌, not, Option, none, some, List, [], ◌∷◌, ◌++◌, leb, if◌then◌else◌,
  if-intro, Bool-cases, Option-cases, inl, inr, arith,
}
use bepaylot.Queue.{
  Task, Request, Inline, new_inline, DeadLetter, Tried, Answers, is_nonempty, forget, task_of,
  enqueue_marshalled, enqueue, enqueue_all, first_due, attempts, is_retried, is_failure, settle,
}

-- A task with the id is queued.
abbrev pub queued : Text → List Task → Bool
queued id [] = false
queued id (t ∷ ts) = text_eq t.id id || queued id ts

abbrev pub distinct_ids : List Task → Bool
distinct_ids [] = true
distinct_ids (t ∷ ts) = not (is_nonempty t.id && queued t.id ts) && distinct_ids ts

-- Between two steps; `busy` is the id of the task that runs, empty if none does or it has none.
pub record IsQueue (busy : Text) (q : Inline) : Type 0 where
  pub distinct : distinct_ids q.queue ≡ true
  pub apart : (is_nonempty busy && queued busy q.queue) ≡ false
  pub exact :
      (id : Text)
      → contains_text q.seen id ≡ (is_nonempty id && (queued id q.queue || text_eq busy id))

queued-append :
    (id : Text) (ts us : List Task) → queued id (ts ++ us) ≡ (queued id ts || queued id us)
queued-append id [] us = refl
queued-append id (t ∷ ts) us = ground (arith, queued-append id ts us)

text_eq_comm : (s t : Text) → text_eq s t ≡ text_eq t s
unfolding text_eq
text_eq_comm [] [] = refl
text_eq_comm [] (y ∷ t) = refl
text_eq_comm (x ∷ s) [] = refl
text_eq_comm (x ∷ s) (y ∷ t) = ground (arith, text_eq_comm s t)

distinct-snoc :
    (ts : List Task) (t : Task)
    → distinct_ids ts ≡ true
    → (is_nonempty t.id && queued t.id ts) ≡ false
    → distinct_ids (ts ++ t ∷ []) ≡ true
distinct-snoc [] t h k = ground arith
distinct-snoc (u ∷ ts) t h k = ground (
  arith,
  distinct-snoc ts t,
  queued-append u.id ts (t ∷ []),
  text_eq_comm t.id u.id,
  text_eq_sound u.id t.id,
)

empty_id : (s id : Text) → is_nonempty s ≡ false → (is_nonempty id && text_eq s id) ≡ false
unfolding text_eq
empty_id [] [] h = refl
empty_id [] (x ∷ id) h = refl
empty_id (y ∷ s) id h = cc

-- A task without an id, or with an id that is not known, goes to the end.
snoc-IsQueue :
    (busy : Text) (q : Inline) (t : Task)
    → is_nonempty t.id ≡ false
    → IsQueue busy q
    → IsQueue busy (record q { queue = q.queue ++ t ∷ [] })
snoc-IsQueue busy q t e h = record {
  distinct = distinct-snoc q.queue t h.distinct (ground (arith, e));
  apart = ground (arith, queued-append busy q.queue (t ∷ []), h.apart, empty_id t.id busy e);
  exact = λ id. ground (arith, h.exact id, queued-append id q.queue (t ∷ []), empty_id t.id id e);
}

fresh-IsQueue :
    (busy : Text) (q : Inline) (t : Task)
    → is_nonempty t.id ≡ true
    → contains_text q.seen t.id ≡ false
    → IsQueue busy q
    → IsQueue busy (record q { seen = t.id ∷ q.seen; queue = q.queue ++ t ∷ [] })
fresh-IsQueue busy q t e n h = record {
  distinct = distinct-snoc q.queue t h.distinct (ground (arith, h.exact t.id));
  apart = ground (arith, queued-append busy q.queue (t ∷ []), h.exact t.id, text_eq_comm t.id busy);
  exact = λ id.
      unfold contains_text in
      ground (arith, h.exact id, queued-append id q.queue (t ∷ []), text_eq_sound t.id id);
}

enqueue_marshalled-IsQueue :
    (busy : Text) (now : ℕ) (r : Request) (q : Inline) (p : Option Text)
    → IsQueue busy q
    → IsQueue busy (enqueue_marshalled now r q p).0
enqueue_marshalled-IsQueue busy now r q none h = h
enqueue_marshalled-IsQueue busy now r q (some payload) h =
    let t : Task = task_of r payload now q.honor_delays in
    if-intro (λ (x : Inline × Bool). IsQueue busy x.0) (is_nonempty r.id) _ _
      (λ e.
        if-intro (λ (x : Inline × Bool). IsQueue busy x.0) (contains_text q.seen r.id) _ _ (λ k. h)
          (λ k. fresh-IsQueue busy q t e k h))
      (λ e. snoc-IsQueue busy q t e h)

-- Enqueue keeps the ids of the queue distinct, and the known ids those of the queue and of the task that
-- runs.
pub enqueue-IsQueue :
    (busy : Text) (now : ℕ) (r : Request) (q : Inline)
    → IsQueue busy q
    → IsQueue busy (enqueue now r q).0
unfolding enqueue
enqueue-IsQueue busy now r q h = enqueue_marshalled-IsQueue busy now r q r.payload h

pub enqueue_all-IsQueue :
    (busy : Text) (now : ℕ) (rs : List Request) (q : Inline)
    → IsQueue busy q
    → IsQueue busy (enqueue_all now rs q)
unfolding enqueue_all
enqueue_all-IsQueue busy now [] q h = h
enqueue_all-IsQueue busy now (r ∷ rs) q h =
    enqueue_all-IsQueue busy now rs (enqueue now r q).0 (enqueue-IsQueue busy now r q h)

pub attempts-IsQueue :
    (busy : Text) (now : ℕ) (h : Answers) (left attempt : ℕ) (t : Task) (q : Inline)
    → IsQueue busy q
    → IsQueue busy (attempts now h left attempt t q).state
unfolding attempts
attempts-IsQueue busy now h zero attempt t q k =
    enqueue_all-IsQueue busy now (h t attempt true).0 q k
attempts-IsQueue busy now h (suc left) attempt t q k =
    let k' = enqueue_all-IsQueue busy now (h t attempt false).0 q k in
    if-intro (λ (r : Tried). IsQueue busy r.state) (is_retried (h t attempt false).1) _ _
      (λ e.
        attempts-IsQueue busy now h left (suc attempt) t (enqueue_all now (h t attempt false).0 q)
          k')
      (λ e. k')

-- What taking the first due task out of the queue does to the ids.
record Taken (ts : List Task) (t : Task) (rest : List Task) : Type 0 where
  still_distinct : distinct_ids rest ≡ true
  gone : (is_nonempty t.id && queued t.id rest) ≡ false
  others : (id : Text) → queued id ts ≡ (queued id rest || text_eq t.id id)

Taken-skip :
    (u t : Task) (ts rest : List Task)
    → distinct_ids (u ∷ ts) ≡ true
    → Taken ts t rest
    → Taken (u ∷ ts) t (u ∷ rest)
Taken-skip u t ts rest d k = record {
  still_distinct = ground (arith, k.others u.id, k.still_distinct);
  gone = ground (arith, k.others u.id, k.gone, text_eq_comm t.id u.id, text_eq_sound u.id t.id);
  others = λ id. ground (arith, k.others id);
}

first_due-Taken :
    (now : ℕ) (ts : List Task) (t : Task) (rest : List Task)
    → distinct_ids ts ≡ true
    → first_due now ts ≡ some (t, rest)
    → Taken ts t rest
unfolding first_due
first_due-Taken now [] t rest d e = cc
first_due-Taken now (u ∷ ts) t rest d e = elim (Bool-cases (leb u.not_before now)) [
  | inl due ↦
      let p : (u, ts) ≡ (t, rest) = ground (arith, e, due) in
      subst (λ (p : Task × List Task). Taken (u ∷ ts) p.0 p.1) p
        (record {
          still_distinct = ground (arith, d);
          gone = ground (arith, d);
          others = λ id. ground arith;
        })
  | inr late ↦ elim (Option-cases (first_due now ts)) [
    | inl n ↦ ground (arith, e, late, n)
    | inr ((v, vs), k) ↦
        let p : (v, u ∷ vs) ≡ (t, rest) = ground (arith, e, late, k) in
        subst (λ (p : Task × List Task). Taken (u ∷ ts) p.0 p.1) p
          (Taken-skip u v ts vs d (first_due-Taken now ts v vs (ground (arith, d)) k))
  ]
]

take-IsQueue :
    (q : Inline) (t : Task) (rest : List Task)
    → IsQueue [] q
    → Taken q.queue t rest
    → IsQueue t.id (record q { queue = rest })
take-IsQueue q t rest h k = record {
  distinct = k.still_distinct;
  apart = k.gone;
  exact = λ id. ground (arith, h.exact id, k.others id, empty_id [] id refl);
}

contains-forget :
    (id : Text) (ss : List Text) (j : Text)
    → contains_text (forget id ss) j ≡ (contains_text ss j && not (text_eq id j))
unfolding forget contains_text
contains-forget id [] j = refl
contains-forget id (s ∷ ss) j = ground (
  arith,
  contains-forget id ss j,
  text_eq_sound s id,
  text_eq_sound s j,
  text_eq_comm s id,
  text_eq_refl s,
)

-- After the attempts the task's id is free again.
pub settle-IsQueue : (t : Task) (r : Tried) → IsQueue t.id r.state → IsQueue [] (settle t r)
unfolding settle
settle-IsQueue t r h = if-intro (IsQueue []) (is_failure r.ending) _ _ (λ e. freed) (λ e. freed)
  where
    freed :
        {failed : List Task} {dead : List DeadLetter}
        → IsQueue [] (record r.state {
          seen = if is_nonempty t.id then forget t.id r.state.seen else r.state.seen;
          failed = failed;
          dead = dead;
        })
    freed = record {
      distinct = h.distinct;
      apart = refl;
      exact = λ id. ground (
        arith,
        h.exact id,
        contains-forget t.id r.state.seen id,
        text_eq_sound t.id id,
        empty_id t.id id,
        empty_id [] id refl,
        h.apart,
      );
    }

pub first_due-IsQueue :
    (now : ℕ) (q : Inline) (t : Task) (rest : List Task)
    → IsQueue [] q
    → first_due now q.queue ≡ some (t, rest)
    → IsQueue t.id (record q { queue = rest })
first_due-IsQueue now q t rest h e =
    take-IsQueue q t rest h (first_due-Taken now q.queue t rest h.distinct e)

nothing_busy : (id : Text) → (is_nonempty id && text_eq [] id) ≡ false
unfolding text_eq
nothing_busy [] = refl
nothing_busy (x ∷ id) = refl

-- A queue starts without tasks and without ids.
pub new_inline-IsQueue : IsQueue [] new_inline
unfolding contains_text
new_inline-IsQueue = record { distinct = refl; apart = refl; exact = λ id. sym (nothing_busy id) }
