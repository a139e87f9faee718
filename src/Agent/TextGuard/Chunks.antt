-- ===== src/Agent/TextGuard/Chunks.antt =====
-- The methods of internal/agent/textguard.go on a segment of a line, whole and in two parts.
use bepaylot.Prelude.{
  ℕ, ◌≡◌, refl, sym, ap, ◌∙◌, Text, has_prefix, trim, trim_left, trim_right, drop_space, ==_iff,
  Bool, true, false, ◌||◌, not, [], ◌∷◌, ◌++◌, append_assoc, if◌then◌else◌, Bool-cases, inl, inr,
  All, arith,
}
use bepaylot.Agent.TextGuard.{
  Guard, GuardMode, pass, fenced, raw, fence, is_blank, opens, might_start, might_start_region,
  starts_raw_json, start_or_pass, hold_or_release, consume_at, then_output,
}

-- What is trimmed from the right of a text is no part of a prefix.
prefix-drop_space :
    (space : ℕ → Bool) (r q : ℕ) (s t p : Text)
    → (has_prefix t p ≡ true → has_prefix s p ≡ true)
    → has_prefix (drop_space space r t) (q ∷ p) ≡ true
    → has_prefix (r ∷ s) (q ∷ p) ≡ true
unfolding has_prefix
prefix-drop_space space r q s [] p k h = ground arith
prefix-drop_space space r q s (y ∷ ys) p k h = ground arith

prefix-nil : (s : Text) → has_prefix s [] ≡ true
unfolding has_prefix
prefix-nil [] = refl
prefix-nil (r ∷ s) = refl

has_prefix-trim_right :
    (space : ℕ → Bool) (s p : Text)
    → has_prefix (trim_right space s) p ≡ true
    → has_prefix s p ≡ true
unfolding trim_right
has_prefix-trim_right space [] p h = h
has_prefix-trim_right space (r ∷ s) [] h = prefix-nil (r ∷ s)
has_prefix-trim_right space (r ∷ s) (q ∷ p) h =
    prefix-drop_space space r q s (trim_right space s) p (has_prefix-trim_right space s p) h

-- A prefix of `s ++ s'` is a prefix of `s`, or goes past it.
has_prefix-append :
    (s s' p : Text) → has_prefix (s ++ s') p ≡ true → (has_prefix p s || has_prefix s p) ≡ true
unfolding has_prefix
has_prefix-append [] s' [] h = refl
has_prefix-append [] s' (q ∷ p) h = refl
has_prefix-append (r ∷ s) s' [] h = refl
has_prefix-append (r ∷ s) s' (q ∷ p) h =
    ground (arith, has_prefix-append s s' p, ==_iff r q, ==_iff q r)

prefix_of_append : (p s s' : Text) → has_prefix p (s ++ s') ≡ true → has_prefix p s ≡ true
unfolding has_prefix
prefix_of_append p [] s' h = prefix-nil p
prefix_of_append [] (q ∷ s) s' h = ground arith
prefix_of_append (r ∷ p) (q ∷ s) s' h = ground (arith, prefix_of_append p s s')

-- A text that can no longer start a region, with more text after it.
might_start-append :
    (f : Bool) (s s' : Text) → might_start f s ≡ false → might_start f (s ++ s') ≡ false
unfolding might_start
might_start-append f [] s' h = ground arith
might_start-append f (r ∷ s) s' h = elim (Bool-cases (has_prefix ((r ∷ s) ++ s') fence)) [
  | inl e ↦ ground (arith, has_prefix-append (r ∷ s) s' fence e)
  | inr e ↦ elim (Bool-cases (has_prefix fence ((r ∷ s) ++ s'))) [
    | inl e' ↦ ground (arith, prefix_of_append fence (r ∷ s) s' e')
    | inr e' ↦ rw (e, e') (ground arith)
  ]
]

trim_left-append :
    (p : ℕ → Bool) (s s' : Text) {c : ℕ} {t : Text}
    → trim_left p s ≡ c ∷ t
    → trim_left p (s ++ s') ≡ (c ∷ t) ++ s'
unfolding trim_left
trim_left-append p [] s' e = absurd (ground arith)
trim_left-append p (r ∷ s) s' e = elim (Bool-cases (p r)) [
  | inl b ↦ rw b (trim_left-append p s s' (rw b at e))
  | inr b ↦ rw b (ap (λ w. w ++ s') (rw b at e))
]

might_start_region-append :
    (f : Bool) (s s' : Text)
    → might_start_region f s ≡ false
    → might_start_region f (s ++ s') ≡ false
unfolding might_start_region
might_start_region-append f s s' m = go (trim_left is_blank s) refl
  where
    go : (t : Text) → trim_left is_blank s ≡ t → might_start_region f (s ++ s') ≡ false
    go [] e = absurd (unfold might_start in ground arith)
    go (c ∷ t) e =
        rw (trim_left-append is_blank s s' e) (might_start-append f (c ∷ t) s' (rw e at m))

-- An input that has only blanks for white space in a line, before its newline.
module _ (space : ℕ → Bool) (lower : Text → Text) (repair : Text → Text × ℕ)
    (blank_is_space : (r : ℕ) → is_blank r ≡ true → space r ≡ true) where
  abbrev pub Plain : Text → Type 0
  Plain s = All (λ r. space r ≡ true → is_blank r ≡ true) s

  pub Plain-append : (s t : Text) → Plain s → Plain t → Plain (s ++ t)
  Plain-append [] t h k = k
  Plain-append (r ∷ s) t h k = (h.0, Plain-append s t h.1 k)

  -- What starts with a rune that is no blank starts with it for both ways to trim.
  trim_left-Plain :
      (s s' : Text) {c : ℕ} {t : Text}
      → Plain s
      → trim_left is_blank s ≡ c ∷ t
      → trim_left space (s ++ s') ≡ (c ∷ t) ++ s'
  unfolding trim_left
  trim_left-Plain [] s' h e = absurd (ground arith)
  trim_left-Plain (r ∷ s) s' h e = elim (Bool-cases (is_blank r)) [
    | inl b ↦ rw (blank_is_space r b) (trim_left-Plain s s' h.1 (rw b at e))
    | inr b ↦ elim (Bool-cases (space r)) [
      | inl sp ↦ absurd (ground (arith, h.0 sp))
      | inr sp ↦ rw sp (ap (λ w. w ++ s') (rw b at e))
    ]
  ]

  not_raw :
      (c : ℕ) (u : Text)
      → opens (c ∷ []) ≡ false
      → starts_raw_json space lower repair (trim_right space (c ∷ u)) ≡ false
  unfolding starts_raw_json trim_right
  not_raw c u h = go (trim_right space u)
    where
      go : (v : Text) → starts_raw_json space lower repair (drop_space space c v) ≡ false
      go [] = ground arith
      go (y ∷ ys) = ground arith

  -- A line whose start was released is passed on whole.
  passes_of :
      (f : Bool) (g : Guard) (c : ℕ) (t line : Text)
      → g.in_fence ≡ f
      → might_start f (c ∷ t) ≡ false
      → has_prefix (trim space line) fence ≡ false
      → (opens (c ∷ []) ≡ false → starts_raw_json space lower repair (trim space line) ≡ false)
      → start_or_pass space lower repair line g ≡ (g, line)
  unfolding start_or_pass might_start
  passes_of f g c t line i m p k = ground arith

  no_fence :
      (f : Bool) (c : ℕ) (t s' : Text)
      → might_start f (c ∷ t) ≡ false
      → has_prefix (trim_right space ((c ∷ t) ++ s')) fence ≡ false
  unfolding might_start
  no_fence f c t s' m = elim (Bool-cases (has_prefix (trim_right space ((c ∷ t) ++ s')) fence)) [
    | inr e ↦ e
    | inl e ↦ ground (
      arith,
      has_prefix-append (c ∷ t) s' fence (has_prefix-trim_right space ((c ∷ t) ++ s') fence e),
    )
  ]

  start_or_pass-Plain :
      (g : Guard) (s s' : Text)
      → Plain s
      → might_start_region g.in_fence s ≡ false
      → start_or_pass space lower repair (s ++ s') g ≡ (g, s ++ s')
  unfolding might_start_region
  start_or_pass-Plain g s s' h m = go (trim_left is_blank s) refl
    where
      go :
          (t : Text)
          → trim_left is_blank s ≡ t
          → start_or_pass space lower repair (s ++ s') g ≡ (g, s ++ s')
      go [] e = absurd (unfold might_start in ground arith)
      go (c ∷ t) e =
          passes_of g.in_fence g c t (s ++ s') refl (rw e at m)
            (unfold trim in rw (trim_left-Plain s s' h e) (no_fence g.in_fence c t s' (rw e at m)))
            λ o. unfold trim in rw (trim_left-Plain s s' h e) (not_raw c (t ++ s') o)

  pub then_output_ap :
      (x : Guard × Text) (k k' : Guard → Guard × Text)
      → k x.0 ≡ k' x.0
      → then_output space lower repair x k ≡ then_output space lower repair x k'
  then_output_ap x k k' e = ap {B = Guard × Text} (λ p. (p.0, x.1 ++ p.1)) e

  pub then_output_assoc :
      (x : Guard × Text) (k k' : Guard → Guard × Text)
      → then_output space lower repair (then_output space lower repair x k) k'
        ≡ then_output space lower repair x (λ g. then_output space lower repair (k g) k')
  then_output_assoc x k k' = simp append_assoc

  pass_partial :
      (seg : Text) (c : Bool) (g : Guard)
      → g.partial ≡ true
      → consume_at space lower repair pass seg c g ≡ (record g { partial = not c }, seg)
  unfolding consume_at
  pass_partial seg c g e = rw e

  pass_open :
      (seg : Text) (c : Bool) (g : Guard)
      → g.partial ≡ false
      → consume_at space lower repair pass seg c g ≡ (
          if c
          then start_or_pass space lower repair (g.line ++ seg) (record g { line = [] })
          else hold_or_release space lower repair (record g { line = g.line ++ seg }))
  unfolding consume_at
  pass_open seg c g e =
      ap
        (λ b.
          if b
          then (record g { partial = not c }, seg)
          else if c
          then start_or_pass space lower repair (g.line ++ seg) (record g { line = [] })
          else hold_or_release space lower repair (record g { line = g.line ++ seg }))
        e

  hold :
      (g : Guard)
      → might_start_region g.in_fence g.line ≡ true
      → hold_or_release space lower repair g ≡ (g, [])
  unfolding hold_or_release
  hold g m = rw m

  release :
      (g : Guard)
      → might_start_region g.in_fence g.line ≡ false
      → hold_or_release space lower repair g ≡ (record g { line = []; partial = true }, g.line)
  unfolding hold_or_release
  release g m = rw m

  -- A segment may come in two parts.
  pub consume_at_merge :
      (m : GuardMode) (s s' : Text) (c : Bool) (g : Guard)
      → Plain (g.line ++ s)
      → consume_at space lower repair m (s ++ s') c g
        ≡ then_output space lower repair
            (consume_at space lower repair m s false g)
            (λ g'. consume_at space lower repair m s' c g')
  unfolding consume_at
  consume_at_merge fenced s s' true g h = rw append_assoc
  consume_at_merge fenced s s' false g h = rw append_assoc
  consume_at_merge raw s s' true g h = rw append_assoc
  consume_at_merge raw s s' false g h = rw append_assoc
  consume_at_merge pass s s' c g h = elim (Bool-cases g.partial) [
    | inl e ↦
        pass_partial (s ++ s') c g e
        ∙ sym (ap (λ x. then_output space lower repair x (after s' c)) (pass_partial s false g e))
    | inr e ↦ elim (Bool-cases (might_start_region g.in_fence (g.line ++ s))) [
      | inl m ↦
          pass_open (s ++ s') c g e
          ∙ rw (← append_assoc) (sym (pass_open s' c (record g { line = g.line ++ s }) e))
          ∙ sym (
              ap (λ x. then_output space lower repair x (after s' c))
                (pass_open s false g e ∙ hold (record g { line = g.line ++ s }) m))
      | inr m ↦
          pass_open (s ++ s') c g e
          ∙ rw (← append_assoc) (released c e m)
          ∙ sym (
              ap (λ x. then_output space lower repair x (after s' c))
                (pass_open s false g e ∙ release (record g { line = g.line ++ s }) m))
    ]
  ]
    where
      after : Text → Bool → Guard → Guard × Text
      after s' c g = consume_at space lower repair pass s' c g

      released :
          (c : Bool)
          → g.partial ≡ false
          → might_start_region g.in_fence (g.line ++ s) ≡ false
          → (if c
              then start_or_pass space lower repair ((g.line ++ s) ++ s') (record g { line = [] })
              else hold_or_release space lower repair (record g { line = (g.line ++ s) ++ s' }))
            ≡ (record g { line = []; partial = not c }, (g.line ++ s) ++ s')
      released true e m =
          start_or_pass-Plain (record g { line = [] }) (g.line ++ s) s' h m
          ∙ ap (λ b. (record g { line = []; partial = b }, (g.line ++ s) ++ s')) e
      released false e m =
          release (record g { line = (g.line ++ s) ++ s' })
            (might_start_region-append g.in_fence (g.line ++ s) s' m)
