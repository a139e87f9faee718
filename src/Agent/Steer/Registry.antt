-- ===== src/Agent/Steer/Registry.antt =====
-- runRegistry of internal/agent/steer.go: acquire and release of a session's turn.
use bepaylot.Prelude.{
  ℕ, suc, ◌≡◌, ◌≢◌, ◌<◌, ◌⊎◌, refl, sym, ap, ◌∙◌, subst, Bool, false, true, Bool-cases, if-intro,
  ◌==◌, Option, none, some, List, [], ◌∷◌, Option-cases, inl, inr, All, contains_rune, arith,
}
use bepaylot.Agent.Steer.{RunRegistry, find_run, delete_run, is_run, acquire, acquired, release}

find_run-delete_run : (id : ℕ) (es : List (ℕ × ℕ)) → find_run id (delete_run id es) ≡ none
unfolding find_run delete_run
find_run-delete_run id [] = refl
find_run-delete_run id (e ∷ es) = ground (arith, find_run-delete_run id es)

find_run-delete_run_other :
    (id j : ℕ) (es : List (ℕ × ℕ)) → j ≢ id → find_run j (delete_run id es) ≡ find_run j es
unfolding find_run delete_run
find_run-delete_run_other id j [] h = refl
find_run-delete_run_other id j (e ∷ es) h = ground (arith, find_run-delete_run_other id j es h)

-- The addresses of closed channels were given out.
abbrev pub GivenOut : RunRegistry → Type 0
GivenOut g = All (λ r. r < g.fresh) g.done

contains_rune-fresh : (n : ℕ) (rs : List ℕ) → All (λ r. r < n) rs → contains_rune rs n ≡ false
unfolding contains_rune
contains_rune-fresh n [] h = refl
contains_rune-fresh n (r ∷ rs) h = ground (arith, h.0, contains_rune-fresh n rs h.1)

-- What a release of the turn that was acquired for `id` leaves of the registry `g`.
abbrev pub Freed : ℕ → ℕ → RunRegistry → RunRegistry × ℕ × Bool → Type 0
Freed id j g a =
    (g' : RunRegistry) × (release id a.1 a.0 ≡ some g')
    × (find_run id g'.runs ≡ none)
    × (find_run j g'.runs ≡ find_run j g.runs)

-- A free session's turn that `acquire` registered is released without a panic; then the session is free
-- again, and any other session has the turn it had before. The addresses of closed channels are among
-- those given out.
pub release-acquire :
    (id j : ℕ) (g : RunRegistry)
    → GivenOut g
    → find_run id g.runs ≡ none
    → j ≢ id
    → Freed id j g (acquire id g)
unfolding acquire release find_run delete_run
release-acquire id j g h e k = subst (Freed id j g) (sym (ap (λ o. acquired id g o) e)) (
  record {
    runs = delete_run id ((id, g.fresh) ∷ g.runs);
    fresh = suc g.fresh;
    done = g.fresh ∷ g.done;
  },
  ground (arith, contains_rune-fresh g.fresh g.done h),
  find_run-delete_run id ((id, g.fresh) ∷ g.runs),
  find_run-delete_run_other id j ((id, g.fresh) ∷ g.runs) k ∙ ground (arith, k),
)

-- What `acquire` and `release` can make of the registry `g` while the run `r` of the session `id` is not
-- released: turns of whatever sessions are acquired, and other runs, or runs of other sessions, released.
pub data Later (id r : ℕ) (g : RunRegistry) : RunRegistry → Type 0 where
  at_once : Later id r g g
  acquires : {h : RunRegistry} (j : ℕ) → Later id r g h → Later id r g (acquire j h).0
  releases :
      {h h' : RunRegistry} (j k : ℕ)
      → (j ≢ id) ⊎ (k ≢ r)
      → release j k h ≡ some h'
      → Later id r g h
      → Later id r g h'

abbrev Runs : ℕ → ℕ → RunRegistry → Type 0
Runs id r g = find_run id g.runs ≡ some r

acquire-Runs : (id r j : ℕ) (h : RunRegistry) → Runs id r h → Runs id r (acquire j h).0
unfolding acquire find_run
acquire-Runs id r j h e = elim (Option-cases (find_run j h.runs)) [
  | inl f ↦ ground (arith, e, f)
  | inr (cur, f) ↦ ground (arith, e, f)
]

abbrev RunsIn : ℕ → ℕ → Option RunRegistry → Type 0
RunsIn id r none = Unit
RunsIn id r (some g) = Runs id r g

-- A release of the session's turn is that of its run.
not_run :
    (id r k : ℕ) (h : RunRegistry) → Runs id r h → is_run (find_run id h.runs) k ≡ true → k ≡ r
not_run id r k h e a =
    let same : is_run (some r) k ≡ true = subst (λ o. is_run o k ≡ true) e a in ground (arith, same)

release-RunsIn :
    (id r j k : ℕ) (h : RunRegistry)
    → (j ≢ id) ⊎ (k ≢ r)
    → Runs id r h
    → RunsIn id r (release j k h)
unfolding release
release-RunsIn id r j k h apart f =
    if-intro (RunsIn id r) (contains_rune h.done k) _ _ (λ d. tt)
      (λ d.
        if-intro (λ (es : List (ℕ × ℕ)). find_run id es ≡ some r) (is_run (find_run j h.runs) k) _ _
          (λ a. elim (Bool-cases (j == id)) [
            | inl same ↦ elim apart [
              | inl n ↦ absurd (n (ground (arith, same)))
              | inr n ↦ absurd (
                  n (
                    not_run id r k h f (
                      subst (λ i. is_run (find_run i h.runs) k ≡ true) {y = id}
                        (ground (arith, same)) a)))
            ]
            | inr other ↦ find_run-delete_run_other j id h.runs (λ e. ground (arith, e, other)) ∙ f
          ])
          (λ a. f))

release-Runs :
    (id r j k : ℕ) (h h' : RunRegistry)
    → (j ≢ id) ⊎ (k ≢ r)
    → release j k h ≡ some h'
    → Runs id r h
    → Runs id r h'
release-Runs id r j k h h' apart e f = subst (RunsIn id r) e (release-RunsIn id r j k h apart f)

acquired-Runs : (id : ℕ) (g : RunRegistry) → Runs id (acquire id g).1 (acquire id g).0
unfolding acquire find_run
acquired-Runs id g = elim (Option-cases (find_run id g.runs)) [
  | inl e ↦ ground (arith, e)
  | inr (cur, e) ↦ ground (arith, e)
]

Later-Runs : (id r : ℕ) (g h : RunRegistry) → Runs id r g → Later id r g h → Runs id r h
Later-Runs id r g h e at_once = e
Later-Runs id r g h e (acquires j l) = acquire-Runs id r j _ (Later-Runs id r g _ e l)
Later-Runs id r g h e (releases j k apart f l) =
    release-Runs id r j k _ _ apart f (Later-Runs id r g _ e l)

-- While the run that `acquire` gave for a session is not released, whatever other turns are acquired and
-- released, every `acquire` of the session gives that run, is no owner and does not change the registry.
pub acquire-acquire :
    (id : ℕ) (g h : RunRegistry)
    → Later id (acquire id g).1 (acquire id g).0 h
    → acquire id h ≡ (h, (acquire id g).1, false)
acquire-acquire id g h l =
    unfold acquire in ap (λ o. acquired id h o) (Later-Runs id _ _ h (acquired-Runs id g) l)
