-- ===== src/Queue/Retry.antt =====
-- The attempts that Drain of internal/queue/inline.go makes with a task.
use bepaylot.Prelude.{
  ℕ, zero, suc, ◌+◌, ◌≤◌, ◌<◌, ◌≡◌, refl, ap, ◌∙◌, true, false, ◌⊎◌, inl, inr, ◌==◌, if◌then◌else◌,
  if-intro, arith,
}
use bepaylot.Queue.{Task, Inline, Ending, Tried, Answers, enqueue_all, attempts, is_retried}

-- The attempts from number `attempt` on, with `left` more after it: `more` are made after the first of
-- them. All before the last end with an error that is retried; the last one, told that it is the final one
-- only when no more are left, gives the end, and is the final one or ended otherwise.
pub record Made (h : Answers) (left attempt : ℕ) (t : Task) (r : Tried) : Type 0 where
  pub more : ℕ
  pub within : more ≤ left
  pub count : r.made ≡ suc (attempt + more)
  pub retried : (i : ℕ) → i < more → is_retried (h t (attempt + i) false).1 ≡ true
  pub last : r.ending ≡ (h t (attempt + more) (more == left)).1
  pub stopped : (more ≡ left) ⊎ (is_retried r.ending ≡ false)

retried_from :
    (h : Answers) (attempt n : ℕ) (t : Task)
    → is_retried (h t attempt false).1 ≡ true
    → ((i : ℕ) → i < n → is_retried (h t (suc attempt + i) false).1 ≡ true)
    → (i : ℕ) → i < suc n
    → is_retried (h t (attempt + i) false).1 ≡ true
retried_from h attempt n t e k zero l =
    ap (λ m. is_retried (h t m false).1) {x = attempt + 0} (omega arith) ∙ e
retried_from h attempt n t e k (suc i) l =
    ap (λ m. is_retried (h t m false).1) {x = attempt + suc i} (omega arith)
    ∙ k i (omega (arith, l))

Made-again :
    (h : Answers) (left attempt : ℕ) (t : Task) (r : Tried)
    → is_retried (h t attempt false).1 ≡ true
    → Made h left (suc attempt) t r
    → Made h (suc left) attempt t r
Made-again h left attempt t r e m = record {
  more = suc m.more;
  within = omega (arith, m.within);
  count = omega (arith, m.count);
  retried = retried_from h attempt m.more t e m.retried;
  last =
      m.last
      ∙ ap (λ n. (h t n (m.more == left)).1) {x = suc attempt + m.more} (omega arith)
      ∙ ap (λ b. (h t (attempt + suc m.more) b).1) (ground arith);
  stopped = elim m.stopped [ inl k ↦ inl (omega (arith, k)) | inr k ↦ inr k ];
}

-- Of the attempts from some number on, with some left, every one before the last ends with an error that is
-- retried, and the last ends otherwise or none is left after it; its end is the result, and only the final
-- attempt is told that it is.
pub attempts_lem :
    (now : ℕ) (h : Answers) (left attempt : ℕ) (t : Task) (q : Inline)
    → Made h left attempt t (attempts now h left attempt t q)
unfolding attempts
attempts_lem now h zero attempt t q = record {
  more = 0;
  within = omega arith;
  count = omega arith;
  retried = λ i below. absurd (omega (arith, below));
  last = ap (λ n. (h t n true).1) (omega arith);
  stopped = inl refl;
}
attempts_lem now h (suc left) attempt t q =
    let ih = attempts_lem now h left (suc attempt) t (enqueue_all now (h t attempt false).0 q) in
    if-intro (λ (r : Tried). Made h (suc left) attempt t r) (is_retried (h t attempt false).1) _ _
      (λ e. Made-again h left attempt t _ e ih)
      (λ e. record {
        more = 0;
        within = omega arith;
        count = omega arith;
        retried = λ i below. absurd (omega (arith, below));
        last =
            ap (λ n. (h t n false).1) {y = attempt + 0} (omega arith)
            ∙ ap (λ b. (h t (attempt + 0) b).1) (ground arith);
        stopped = inr e;
      })

-- The end of a task with `left` more attempts after the next one: the first end that is not retried, or
-- that of the final attempt.
abbrev pub final_ending : Answers → Task → ℕ → ℕ → Ending
final_ending h t zero attempt = (h t attempt true).1
final_ending h t (suc left) attempt =
    let again = final_ending h t left (suc attempt) in
    if is_retried (h t attempt false).1 then again else (h t attempt false).1

pub attempts_ending :
    (now : ℕ) (h : Answers) (left attempt : ℕ) (t : Task) (q : Inline)
    → (attempts now h left attempt t q).ending ≡ final_ending h t left attempt
unfolding attempts
attempts_ending now h zero attempt t q = refl
attempts_ending now h (suc left) attempt t q =
    let ih = attempts_ending now h left (suc attempt) t (enqueue_all now (h t attempt false).0 q) in
    if-intro (λ (r : Tried). r.ending ≡ final_ending h t (suc left) attempt)
      (is_retried (h t attempt false).1) _ _ (λ e. ground (arith, e, ih)) (λ e. ground (arith, e))
