-- ===== src/Agent/History/Trim.antt =====
-- trimHistory of internal/agent/history.go: its two loops, and what they leave of the history.
use bepaylot.Prelude.{
  ℕ, zero, suc, ◌+◌, ◌-◌, ◌≤◌, ◌≡◌, refl, sym, ap, ◌∙◌, subst, Bool, true, false, Option, none,
  some, List, [], ◌∷◌, ◌++◌, ltb, ◌⊎◌, inl, inr, Bool-cases, length, length-append, append_assoc,
  ◌<◌, arith,
}
use bepaylot.GoLibrary.{pos}
use bepaylot.Agent.History.{
  Message, message_tokens, approx_messages_tokens, is_user, last_index, last_user, drop_over,
  skip_to_user, trim_at, trim_history,
}

-- The message at `n` is a user message.
abbrev pub UserAt : ℕ → List Message → Type 0
UserAt n [] = ⊥
UserAt zero (m ∷ ms) = is_user m ≡ true
UserAt (suc n) (m ∷ ms) = UserAt n ms

UserAt-last_index :
    (m : Message) (ms : List Message) (o : Option ℕ) (u : Bool) (n : ℕ)
    → ((i : ℕ) → o ≡ some i → UserAt i ms)
    → is_user m ≡ u
    → last_index o u ≡ some n
    → UserAt n (m ∷ ms)
UserAt-last_index m ms (some i) u n k f h =
    subst (λ j. UserAt j (m ∷ ms)) {x = suc i} (cc) (k i refl)
UserAt-last_index m ms none true n k f h = subst (λ j. UserAt j (m ∷ ms)) {x = 0} (cc) f
UserAt-last_index m ms none false n k f h = cc

last_user-UserAt : (ms : List Message) (n : ℕ) → last_user ms ≡ some n → UserAt n ms
unfolding last_user
last_user-UserAt [] n h = cc
last_user-UserAt (m ∷ ms) n h =
    UserAt-last_index m ms (last_user ms) (is_user m) n (λ i e. last_user-UserAt ms i e) refl h

-- What the first loop leaves.
record Dropped (budget n : ℕ) (ms : List Message) (r : ℕ × List Message) : Type 0 where
  before : List Message
  cut : ms ≡ before ++ r.1
  count : length before + r.0 ≡ n
  user_left : UserAt r.0 r.1
  fits : (approx_messages_tokens r.1 ≤ budget) ⊎ (r.0 ≡ 0)

Dropped-more :
    (budget n : ℕ) (m : Message) (ms : List Message)
    → Dropped budget n ms (drop_over budget n (approx_messages_tokens ms) ms)
    → Dropped budget
        (suc n)
        (m ∷ ms)
        (drop_over budget n ((message_tokens m + approx_messages_tokens ms) - message_tokens m) ms)
Dropped-more budget n m ms d =
    subst (λ t. Dropped budget (suc n) (m ∷ ms) (drop_over budget n t ms))
      {x = approx_messages_tokens ms} (omega arith)
      (record {
        before = m ∷ d.before;
        cut = ap (λ x. m ∷ x) d.cut;
        count = omega (arith, d.count);
        user_left = d.user_left;
        fits = d.fits;
      })

drop_over-Dropped :
    (budget n : ℕ) (ms : List Message)
    → UserAt n ms
    → Dropped budget n ms (drop_over budget n (approx_messages_tokens ms) ms)
unfolding drop_over approx_messages_tokens
drop_over-Dropped budget zero ms h = record {
  before = [];
  cut = refl;
  count = refl;
  user_left = h;
  fits = inr refl;
}
drop_over-Dropped budget (suc n) [] h = elim h [ ]
drop_over-Dropped budget (suc n) (m ∷ ms) h =
    elim (Bool-cases (ltb budget (message_tokens m + approx_messages_tokens ms))) [
      | inl e ↦
          subst (Dropped budget (suc n) (m ∷ ms)) (ground (arith, e))
            (Dropped-more budget n m ms (drop_over-Dropped budget n ms h))
      | inr e ↦
          subst (Dropped budget (suc n) (m ∷ ms)) {x = (suc n, m ∷ ms)} (ground (arith, e))
            (record {
              before = [];
              cut = refl;
              count = omega arith;
              user_left = h;
              fits = inl (ground (arith, e));
            })
    ]

-- What the second loop leaves.
record Skipped (n : ℕ) (ms r : List Message) : Type 0 where
  before : List Message
  cut : ms ≡ before ++ r
  count : length before ≤ n
  begins : UserAt 0 r
  smaller : approx_messages_tokens r ≤ approx_messages_tokens ms

Skipped-more :
    (n : ℕ) (m : Message) (ms r : List Message) → Skipped n ms r → Skipped (suc n) (m ∷ ms) r
unfolding approx_messages_tokens
Skipped-more n m ms r d = record {
  before = m ∷ d.before;
  cut = ap (λ x. m ∷ x) d.cut;
  count = omega (arith, d.count);
  begins = d.begins;
  smaller = omega (arith, d.smaller);
}

skip_to_user-Skipped : (n : ℕ) (ms : List Message) → UserAt n ms → Skipped n ms (skip_to_user n ms)
unfolding skip_to_user approx_messages_tokens
skip_to_user-Skipped zero ms h = record {
  before = [];
  cut = refl;
  count = omega arith;
  begins = h;
  smaller = omega arith;
}
skip_to_user-Skipped (suc n) [] h = elim h [ ]
skip_to_user-Skipped (suc n) (m ∷ ms) h = elim (Bool-cases (is_user m)) [
  | inl e ↦
      subst (Skipped (suc n) (m ∷ ms)) {x = m ∷ ms} (ground (arith, e))
        (record { before = []; cut = refl; count = omega arith; begins = e; smaller = omega arith })
  | inr e ↦
      subst (Skipped (suc n) (m ∷ ms)) {x = skip_to_user n ms} (ground (arith, e))
        (Skipped-more n m ms (skip_to_user n ms) (skip_to_user-Skipped n ms h))
]

-- `r` is `ms` without some messages at the front. It begins with a user message, it still has the one at
-- `k`, and it fits the budget unless it begins at `k`.
pub record Trimmed (budget k : ℕ) (ms r : List Message) : Type 0 where
  pub before : List Message
  pub cut : ms ≡ before ++ r
  pub count : length before ≤ k
  pub begins : UserAt 0 r
  pub fits : (approx_messages_tokens r ≤ budget) ⊎ (length before ≡ k)

Trimmed-loops :
    (budget k : ℕ) (ms : List Message) (left : ℕ × List Message)
    → Dropped budget k ms left
    → Skipped left.0 left.1 (skip_to_user left.0 left.1)
    → Trimmed budget k ms (skip_to_user left.0 left.1)
Trimmed-loops budget k ms left d s = record {
  before = d.before ++ s.before;
  cut = d.cut ∙ ap (λ x. d.before ++ x) s.cut ∙ sym (append_assoc d.before s.before _);
  count = omega (arith, length-append d.before s.before, d.count, s.count);
  begins = s.begins;
  fits = elim d.fits [
    | inl e ↦ inl (omega (arith, e, s.smaller))
    | inr e ↦ inr (omega (arith, length-append d.before s.before, e, d.count, s.count))
  ];
}

-- When a history has a user message, the last of them at `k`, and is over a positive budget, trimHistory
-- cuts messages off its front only: what is left begins with a user message, still has the one at `k`,
-- and fits the budget unless it begins at that last user message.
pub trim_history-Trimmed :
    (ms : List Message) (budget k : ℕ)
    → last_user ms ≡ some k
    → suc budget < approx_messages_tokens ms
    → Trimmed (suc budget) k ms (trim_history ms (pos (suc budget)))
unfolding trim_history
trim_history-Trimmed ms budget k h over =
    subst (Trimmed (suc budget) k ms) {x = trim_at (suc budget) ms (some k)}
      (ground (arith, h, over))
      (Trimmed-loops (suc budget) k ms (drop_over (suc budget) k (approx_messages_tokens ms) ms)
        (drop_over-Dropped (suc budget) k ms (last_user-UserAt ms k h))
        (skip_to_user-Skipped _ _
          (drop_over-Dropped (suc budget) k ms (last_user-UserAt ms k h)).user_left))
