-- ===== src/Agent/TextGuard/Feed.antt =====
-- `feed` of internal/agent/textguard.go on a stream, whole and in chunks.
use bepaylot.Prelude.{
  ℕ, ◌≡◌, refl, sym, ap, ◌∙◌, subst, Text, Bool, true, false, List, [], ◌∷◌, ◌++◌, append_assoc,
  append-nil, ◌==◌, if◌then◌else◌, Bool-cases, inl, inr, All, arith,
}
use bepaylot.Agent.TextGuard.{
  Guard, GuardMode, pass, fenced, raw, new_guard, is_blank, scan_rune, scan_raw, start_or_pass,
  hold_or_release, might_start_region, fence_line, open_raw, after_scan, end_fenced, fenced_line,
  raw_line, consume_at, consume, then_output, is_nonempty, feed_from, feed, feed_all,
}
use bepaylot.Agent.TextGuard.Chunks.{
  Plain, Plain-append, consume_at_merge, then_output_ap, then_output_assoc,
}

scan_raw_line : (s : Text) (g : Guard) → (scan_raw s g).line ≡ g.line
unfolding scan_raw
scan_raw_line [] g = refl
scan_raw_line (c ∷ s) g = scan_raw_line s (scan_rune c g) ∙ scan_rune_line c g
  where
    scan_rune_line : (c : ℕ) (g : Guard) → (scan_rune c g).line ≡ g.line
    scan_rune_line c g = ground arith

-- The chunks of a stream, joined.
abbrev pub joined : List Text → Text
joined [] = []
joined (c ∷ cs) = c ++ joined cs

module _ (space : ℕ → Bool) (lower : Text → Text) (repair : Text → Text × ℕ)
    (blank_is_space : (r : ℕ) → is_blank r ≡ true → space r ≡ true) where
  abbrev PlainLine : Text → Type 0
  PlainLine s = Plain space lower repair blank_is_space s

  abbrev in_turn : Guard × Text → (Guard → Guard × Text) → Guard × Text
  in_turn x k = then_output space lower repair x k

  -- An incomplete segment keeps the mode.
  mode_kept :
      (m : GuardMode) (s : Text) (g : Guard)
      → (consume_at space lower repair m s false g).0.mode ≡ g.mode
  unfolding consume_at hold_or_release
  mode_kept pass s g = ground arith
  mode_kept fenced s g = refl
  mode_kept raw s g = refl

  consume_merge :
      (s s' : Text) (c : Bool) (g : Guard)
      → PlainLine (g.line ++ s)
      → consume space lower repair (s ++ s') c g
        ≡ in_turn (consume space lower repair s false g) (λ g'. consume space lower repair s' c g')
  unfolding consume
  consume_merge s s' c g h =
      consume_at_merge space lower repair blank_is_space g.mode s s' c g h
      ∙ then_output_ap space lower repair blank_is_space
          (consume_at space lower repair g.mode s false g)
          (λ g'. consume_at space lower repair g.mode s' c g')
          (λ g'. consume space lower repair s' c g')
          (ap
            (λ m.
              consume_at space lower repair m s' c
                (consume_at space lower repair g.mode s false g).0)
            (sym (mode_kept g.mode s g)))

  in_turn_nil : (x : Guard × Text) → in_turn x (λ g. (g, [])) ≡ x
  in_turn_nil x = rw append-nil

  feed_newline :
      (seg b : Text) (x : ℕ) (g : Guard)
      → (x == 0x0a) ≡ true
      → feed_from space lower repair seg (x ∷ b) g
        ≡ in_turn
            (consume space lower repair (seg ++ x ∷ []) true g)
            (λ g'. feed_from space lower repair [] b g')
  unfolding feed_from
  feed_newline seg b x g e = rw (e, feed_from)

  feed_rune :
      (seg b : Text) (x : ℕ) (g : Guard)
      → (x == 0x0a) ≡ false
      → feed_from space lower repair seg (x ∷ b) g
        ≡ feed_from space lower repair (seg ++ x ∷ []) b g
  unfolding feed_from
  feed_rune seg b x g e = rw (e, feed_from)

  feed_end :
      (seg : Text) (g : Guard)
      → feed_from space lower repair seg [] g ≡ (
          if is_nonempty space lower repair seg
          then consume space lower repair seg false g
          else (g, []))
  unfolding feed_from
  feed_end seg g = refl

  feed_from_merge :
      (r : ℕ) (s acc b : Text) (g : Guard)
      → PlainLine (g.line ++ r ∷ s)
      → feed_from space lower repair ((r ∷ s) ++ acc) b g
        ≡ in_turn
            (consume space lower repair (r ∷ s) false g)
            (λ g'. feed_from space lower repair acc b g')
  feed_from_merge r s [] [] g h = unfold feed_from in rw append-nil (sym (in_turn_nil _))
  feed_from_merge r s (a ∷ acc) [] g h =
      unfold feed_from in consume_merge (r ∷ s) (a ∷ acc) false g h
  feed_from_merge r s acc (x ∷ b) g h = elim (Bool-cases (x == 0x0a)) [
    | inl e ↦
        feed_newline ((r ∷ s) ++ acc) b x g e
        ∙ ap (λ w. in_turn w (λ g'. feed_from space lower repair [] b g'))
            (ap (λ w. consume space lower repair w true g) (append_assoc (r ∷ s) acc (x ∷ []))
              ∙ consume_merge (r ∷ s) (acc ++ x ∷ []) true g h)
        ∙ then_output_assoc space lower repair blank_is_space
            (consume space lower repair (r ∷ s) false g)
            (λ g'. consume space lower repair (acc ++ x ∷ []) true g')
            (λ g'. feed_from space lower repair [] b g')
        ∙ then_output_ap space lower repair blank_is_space
            (consume space lower repair (r ∷ s) false g)
            (λ g'.
              in_turn (consume space lower repair (acc ++ x ∷ []) true g')
                (λ g''. feed_from space lower repair [] b g''))
            (λ g'. feed_from space lower repair acc (x ∷ b) g') (sym (feed_newline acc b x _ e))
    | inr e ↦
        feed_rune ((r ∷ s) ++ acc) b x g e
        ∙ ap (λ w. feed_from space lower repair w b g) (append_assoc (r ∷ s) acc (x ∷ []))
        ∙ feed_from_merge r s (acc ++ x ∷ []) b g h
        ∙ then_output_ap space lower repair blank_is_space
            (consume space lower repair (r ∷ s) false g)
            (λ g'. feed_from space lower repair (acc ++ x ∷ []) b g')
            (λ g'. feed_from space lower repair acc (x ∷ b) g') (sym (feed_rune acc b x _ e))
  ]

  -- Every white space of the text is a blank, a tab or a newline.
  abbrev pub PlainText : Text → Type 0
  PlainText s = All (λ r. (r == 0x0a) ≡ false → space r ≡ true → is_blank r ≡ true) s

  -- What is left in the line after a segment.
  PlainLine-left : (s t : Text) → PlainLine (s ++ t) → PlainLine s
  PlainLine-left [] t h = tt
  PlainLine-left (r ∷ s) t h = (h.0, PlainLine-left s t h.1)

  after_scan_line : (g : Guard) → (after_scan space lower repair g).0.line ≡ g.line
  unfolding after_scan
  after_scan_line g = ground arith

  open_raw_line : (s : Text) (g : Guard) → (open_raw space lower repair s g).0.line ≡ g.line
  unfolding open_raw
  open_raw_line s g = after_scan_line _ ∙ scan_raw_line s _

  fence_line_line : (s : Text) (g : Guard) → (fence_line space lower repair s g).0.line ≡ g.line
  unfolding fence_line
  fence_line_line s g = ground arith

  start_or_pass_line :
      (s : Text) (g : Guard) → (start_or_pass space lower repair s g).0.line ≡ g.line
  unfolding start_or_pass
  start_or_pass_line s g = ground (arith, open_raw_line s g, fence_line_line s g)

  fenced_line_line : (s : Text) (g : Guard) → (fenced_line space lower repair s g).0.line ≡ g.line
  unfolding fenced_line end_fenced
  fenced_line_line s g = ground arith

  raw_line_line : (s : Text) (g : Guard) → (raw_line space lower repair s g).0.line ≡ g.line
  unfolding raw_line
  raw_line_line s g = after_scan_line _ ∙ scan_raw_line s _

  complete_line :
      (m : GuardMode) (seg : Text) (g : Guard)
      → PlainLine g.line
      → PlainLine (consume_at space lower repair m seg true g).0.line
  unfolding consume_at
  complete_line pass seg g h = elim (Bool-cases g.partial) [
    | inl e ↦ subst PlainLine (ground (arith, e)) h
    | inr e ↦
        subst PlainLine {x = []}
          (ground (arith, start_or_pass_line (g.line ++ seg) (record g { line = [] }))) tt
  ]
  complete_line fenced seg g h =
      subst PlainLine (sym (fenced_line_line (g.line ++ seg) (record g { line = [] }))) tt
  complete_line raw seg g h =
      subst PlainLine (sym (raw_line_line (g.line ++ seg) (record g { line = [] }))) tt

  incomplete_line :
      (m : GuardMode) (seg : Text) (g : Guard)
      → PlainLine (g.line ++ seg)
      → PlainLine (consume_at space lower repair m seg false g).0.line
  unfolding consume_at hold_or_release
  incomplete_line pass seg g h = elim (Bool-cases g.partial) [
    | inl e ↦ subst PlainLine (ground (arith, e)) (PlainLine-left g.line seg h)
    | inr e ↦ elim (Bool-cases (might_start_region g.in_fence (g.line ++ seg))) [
      | inl m ↦ subst PlainLine (ground (arith, e, m)) h
      | inr m ↦ subst PlainLine {x = []} (ground (arith, e, m)) tt
    ]
  ]
  incomplete_line fenced seg g h = h
  incomplete_line raw seg g h = h

  PlainLine-snoc :
      (s t : Text) (r : ℕ)
      → PlainLine (s ++ t)
      → (space r ≡ true → is_blank r ≡ true)
      → PlainLine (s ++ (t ++ r ∷ []))
  PlainLine-snoc s t r h k =
      subst PlainLine (append_assoc s t (r ∷ []))
        (Plain-append space lower repair blank_is_space (s ++ t) (r ∷ []) h (k, tt))

  -- After a line has been fed, what is left of it has no other white space either.
  newline_line :
      (seg : Text) (r : ℕ) (g : Guard)
      → PlainLine (g.line ++ seg)
      → PlainLine ((consume space lower repair (seg ++ r ∷ []) true g).0.line ++ [])
  unfolding consume
  newline_line seg r g h =
      subst PlainLine (sym (append-nil _))
        (complete_line g.mode (seg ++ r ∷ []) g (PlainLine-left g.line seg h))

  feed_from_line :
      (seg a : Text) (g : Guard)
      → PlainLine (g.line ++ seg)
      → PlainText a
      → PlainLine (feed_from space lower repair seg a g).0.line
  feed_from_line [] [] g h k = unfold feed_from in subst PlainLine (append-nil g.line) h
  feed_from_line (q ∷ seg) [] g h k =
      unfold feed_from consume in incomplete_line g.mode (q ∷ seg) g h
  feed_from_line seg (r ∷ a) g h k = elim (Bool-cases (r == 0x0a)) [
    | inl e ↦
        subst (λ x. PlainLine x.0.line) (sym (feed_newline seg a r g e))
          (feed_from_line [] a (consume space lower repair (seg ++ r ∷ []) true g).0
            (newline_line seg r g h) k.1)
    | inr e ↦
        subst (λ x. PlainLine x.0.line) (sym (feed_rune seg a r g e))
          (feed_from_line (seg ++ r ∷ []) a g (PlainLine-snoc g.line seg r h (k.0 e)) k.1)
  ]

  feed_from-append :
      (seg a b : Text) (g : Guard)
      → PlainLine (g.line ++ seg)
      → PlainText a
      → feed_from space lower repair seg (a ++ b) g
        ≡ in_turn
            (feed_from space lower repair seg a g)
            (λ g'. feed_from space lower repair [] b g')
  feed_from-append [] [] b g h k = unfold feed_from in refl
  feed_from-append (q ∷ seg) [] b g h k =
      ap (λ w. feed_from space lower repair w b g) (sym (append-nil (q ∷ seg)))
      ∙ unfold feed_from in feed_from_merge q seg [] b g h
  feed_from-append seg (r ∷ a) b g h k = elim (Bool-cases (r == 0x0a)) [
    | inl e ↦
        feed_newline seg (a ++ b) r g e
        ∙ then_output_ap space lower repair blank_is_space
            (consume space lower repair (seg ++ r ∷ []) true g)
            (λ g'. feed_from space lower repair [] (a ++ b) g')
            (λ g'.
              in_turn (feed_from space lower repair [] a g')
                (λ g''. feed_from space lower repair [] b g''))
            (feed_from-append [] a b (consume space lower repair (seg ++ r ∷ []) true g).0
              (newline_line seg r g h) k.1)
        ∙ sym (
            then_output_assoc space lower repair blank_is_space
              (consume space lower repair (seg ++ r ∷ []) true g)
              (λ g'. feed_from space lower repair [] a g')
              (λ g'. feed_from space lower repair [] b g'))
        ∙ sym (
            ap (λ w. in_turn w (λ g'. feed_from space lower repair [] b g'))
              (feed_newline seg a r g e))
    | inr e ↦
        feed_rune seg (a ++ b) r g e
        ∙ feed_from-append (seg ++ r ∷ []) a b g (PlainLine-snoc g.line seg r h (k.0 e)) k.1
        ∙ sym (
            ap (λ w. in_turn w (λ g'. feed_from space lower repair [] b g'))
              (feed_rune seg a r g e))
  ]

  feed_all_line :
      (cs : List Text) (g : Guard)
      → PlainLine g.line
      → All PlainText cs
      → feed_all space lower repair cs g ≡ feed space lower repair (joined cs) g
  unfolding feed_all feed
  feed_all_line [] g h k = unfold feed_from in refl
  feed_all_line (c ∷ cs) g h k =
      then_output_ap space lower repair blank_is_space (feed_from space lower repair [] c g)
        (λ g'. feed_all space lower repair cs g')
        (λ g'. feed_from space lower repair [] (joined cs) g')
        (feed_all_line cs (feed_from space lower repair [] c g).0
          (feed_from_line [] c g (subst PlainLine (sym (append-nil g.line)) h) k.0) k.1)
      ∙ sym (feed_from-append [] c (joined cs) g (subst PlainLine (sym (append-nil g.line)) h) k.0)

  -- However a stream is cut into chunks, the guard releases the same text and ends in the same state as
  -- when it is fed the whole at once, provided that a blank and a tab count as white space and that the
  -- stream has no other white space than blanks, tabs and newlines.
  pub feed_all-joined :
      (chunks : List Text)
      → All PlainText chunks
      → feed_all space lower repair chunks new_guard
        ≡ feed space lower repair (joined chunks) new_guard
  feed_all-joined chunks h = feed_all_line chunks new_guard tt h
