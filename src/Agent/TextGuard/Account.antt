-- ===== src/Agent/TextGuard/Account.antt =====
-- The methods of internal/agent/textguard.go that take a line or a part of one: what of the text goes
-- out, and what is held.
use bepaylot.Prelude.{
  ℕ, ◌≡◌, refl, sym, ap, ◌∙◌, subst, Text, Bool, true, false, [], ◌∷◌, ◌++◌, append_assoc,
  append-nil, if◌then◌else◌, Bool-cases, inl, inr, ◌⊎◌, has_prefix, trim, not, ◌&&◌, arith, text_eq,
}
use bepaylot.Agent.TextGuard.{
  Guard, GuardMode, pass, fenced, raw, fence, is_closed, opens, scan_rune, scan_raw,
  starts_raw_json, end_raw, end_fenced, is_json_tag, fence_line, after_scan, open_raw,
  start_or_pass, fenced_line, raw_line, hold_or_release, might_start_region, consume_at, drop_three,
}

-- What a guard holds back.
abbrev pub held_of : GuardMode → Text → Text → Text → Text
held_of pass line region_open region = line
held_of fenced line region_open region = region_open ++ (region ++ line)
held_of raw line region_open region = region ++ line

abbrev pub held : Guard → Text
held g = held_of g.mode g.line g.region_open g.region

-- Nothing of a line is held when the line is being passed on.
abbrev pub Tidy : Guard → Type 0
Tidy g = (g.partial ≡ false) ⊎ ((g.mode ≡ pass) × (g.line ≡ []))

held-scan_rune : (c : ℕ) (g : Guard) → held (scan_rune c g) ≡ held g
unfolding scan_rune
held-scan_rune c g = ground arith

scan_rune-mode : (c : ℕ) (g : Guard) → (scan_rune c g).mode ≡ g.mode
unfolding scan_rune
scan_rune-mode c g = ground arith

scan_rune-partial : (c : ℕ) (g : Guard) → (scan_rune c g).partial ≡ g.partial
unfolding scan_rune
scan_rune-partial c g = ground arith

held-scan_raw : (s : Text) (g : Guard) → held (scan_raw s g) ≡ held g
unfolding scan_raw
held-scan_raw [] g = refl
held-scan_raw (c ∷ s) g = held-scan_raw s (scan_rune c g) ∙ held-scan_rune c g

scan_raw-mode : (s : Text) (g : Guard) → (scan_raw s g).mode ≡ g.mode
unfolding scan_raw
scan_raw-mode [] g = refl
scan_raw-mode (c ∷ s) g = scan_raw-mode s (scan_rune c g) ∙ scan_rune-mode c g

scan_raw-partial : (s : Text) (g : Guard) → (scan_raw s g).partial ≡ g.partial
unfolding scan_raw
scan_raw-partial [] g = refl
scan_raw-partial (c ∷ s) g = scan_raw-partial s (scan_rune c g) ∙ scan_rune-partial c g

module _ (space : ℕ → Bool) (lower : Text → Text) (repair : Text → Text × ℕ) where
  -- The text `s` with some parts of it, which do not overlap, repaired.
  pub data Repaired : Text → Text → Type 0 where
    kept : (s : Text) → Repaired s s
    fixed : (s : Text) → Repaired s (repair s).0
    both : {s t s' t' : Text} → Repaired s s' → Repaired t t' → Repaired (s ++ t) (s' ++ t')

  -- A guard with its output accounts for the text `s`: a part of it went out, the rest is held.
  pub record Accounted (s : Text) (x : Guard × Text) : Type 0 where
    pub released : Text
    pub split : s ≡ released ++ held x.0
    pub repaired : Repaired released x.1
    pub tidy : Tidy x.0

  pub Accounted-if :
      (b : Bool) {s : Text} {x y : Guard × Text}
      → Accounted s x
      → Accounted s y
      → Accounted s (if b then x else y)
  Accounted-if true ax ay = ax
  Accounted-if false ax ay = ay

  pub Accounted-same : {s t : Text} (x : Guard × Text) → s ≡ t → Accounted t x → Accounted s x
  Accounted-same x e a = subst (λ r. Accounted r x) (sym e) a

  -- Everything is held, or a text goes out as it is.
  Accounted-hold : (g : Guard) → g.partial ≡ false → Accounted (held g) (g, [])
  Accounted-hold g t = record { released = []; split = refl; repaired = kept []; tidy = inl t }

  Accounted-pass : (s : Text) (g : Guard) → g.partial ≡ false → Accounted (s ++ held g) (g, s)
  Accounted-pass s g t = record { released = s; split = refl; repaired = kept s; tidy = inl t }

  Accounted-end_raw :
      (g : Guard)
      → g.partial ≡ false
      → Accounted (g.region ++ g.line) (end_raw space lower repair g)
  unfolding end_raw
  Accounted-end_raw g t = record {
    released = g.region;
    split = refl;
    repaired = fixed g.region;
    tidy = inl t;
  }

  Accounted-end_fenced :
      (line : Text) (g : Guard)
      → g.partial ≡ false
      → Accounted
          (g.region_open ++ (g.region ++ (line ++ g.line)))
          (end_fenced space lower repair line g)
  unfolding end_fenced
  Accounted-end_fenced line g t =
      Accounted-if (opens (trim space g.region))
        (record {
          released = g.region_open ++ (g.region ++ line);
          split = closed;
          repaired = both (kept g.region_open) (both (fixed g.region) (kept line));
          tidy = inl t;
        })
        (record {
          released = g.region_open ++ (g.region ++ line);
          split = closed;
          repaired = kept _;
          tidy = inl t;
        })
    where
      closed :
          g.region_open ++ (g.region ++ (line ++ g.line))
          ≡ (g.region_open ++ (g.region ++ line)) ++ g.line
      closed = rw (append_assoc, append_assoc)

  Accounted-after_scan :
      (g : Guard)
      → g.mode ≡ raw
      → g.partial ≡ false
      → Accounted (held g) (after_scan space lower repair g)
  unfolding after_scan
  Accounted-after_scan g e t =
      Accounted-if (is_closed g.depth)
        (Accounted-same _ (ap (λ (m : GuardMode). held_of m g.line g.region_open g.region) e)
          (Accounted-end_raw g t))
        (Accounted-hold g t)

  Accounted-open_raw :
      (line : Text) (g : Guard)
      → g.partial ≡ false
      → Accounted (line ++ g.line) (open_raw space lower repair line g)
  unfolding open_raw
  Accounted-open_raw line g t =
      subst (λ s. Accounted s (open_raw space lower repair line g)) (held-scan_raw line _)
        (Accounted-after_scan _ (scan_raw-mode line _) (scan_raw-partial line _ ∙ t))

  Accounted-fence_line :
      (line : Text) (g : Guard)
      → g.mode ≡ pass
      → g.partial ≡ false
      → Accounted (line ++ g.line) (fence_line space lower repair line g)
  unfolding fence_line
  Accounted-fence_line line g e t = Accounted-if g.in_fence (passed false) (
      Accounted-if
        (is_json_tag space lower repair (lower (trim space (drop_three (trim space line)))))
        (Accounted-hold (record g { mode = fenced; region_open = line; region = [] }) t)
        (passed true))
    where
      passed : (b : Bool) → Accounted (line ++ g.line) (record g { in_fence = b }, line)
      passed b =
          Accounted-same _
            (ap (λ (m : GuardMode). line ++ held_of m g.line g.region_open g.region) (sym e))
            (Accounted-pass line (record g { in_fence = b }) t)

  Accounted-start_or_pass :
      (line : Text) (g : Guard)
      → g.mode ≡ pass
      → g.partial ≡ false
      → Accounted (line ++ g.line) (start_or_pass space lower repair line g)
  unfolding start_or_pass
  Accounted-start_or_pass line g e t =
      Accounted-if (has_prefix (trim space line) fence) (Accounted-fence_line line g e t) (
        Accounted-if (not g.in_fence && starts_raw_json space lower repair (trim space line))
          (Accounted-open_raw line g t)
          (Accounted-same _
            (ap (λ (m : GuardMode). line ++ held_of m g.line g.region_open g.region) (sym e))
            (Accounted-pass line g t)))

  Accounted-fenced_line :
      (line : Text) (g : Guard)
      → g.mode ≡ fenced
      → g.partial ≡ false
      → Accounted
          (g.region_open ++ (g.region ++ (line ++ g.line)))
          (fenced_line space lower repair line g)
  unfolding fenced_line
  Accounted-fenced_line line g e t =
      Accounted-if (text_eq (trim space line) fence) (Accounted-end_fenced line g t) (
        Accounted-same _
          (ap (λ s. g.region_open ++ s) (sym (append_assoc g.region line g.line))
            ∙ ap (λ (m : GuardMode). held_of m g.line g.region_open (g.region ++ line)) (sym e))
          (Accounted-hold (record g { region = g.region ++ line }) t))

  Accounted-raw_line :
      (line : Text) (g : Guard)
      → g.mode ≡ raw
      → g.partial ≡ false
      → Accounted (g.region ++ (line ++ g.line)) (raw_line space lower repair line g)
  unfolding raw_line
  Accounted-raw_line line g e t =
      Accounted-same _
        (sym (append_assoc g.region line g.line)
          ∙ ap (λ (m : GuardMode). held_of m g.line g.region_open (g.region ++ line)) (sym e)
          ∙ sym (held-scan_raw line (record g { region = g.region ++ line })))
        (Accounted-after_scan _ (scan_raw-mode line _ ∙ e) (scan_raw-partial line _ ∙ t))

  pub Accounted-consume_at :
      (m : GuardMode) (seg : Text) (complete : Bool) (g : Guard)
      → g.mode ≡ m
      → Tidy g
      → Accounted
          (held_of m g.line g.region_open g.region ++ seg)
          (consume_at space lower repair m seg complete g)
  unfolding consume_at hold_or_release
  Accounted-consume_at fenced seg complete g e t =
      Accounted-if complete
        (Accounted-same _ (rw (append_assoc, append_assoc, append-nil))
          (Accounted-fenced_line (g.line ++ seg) (record g { line = [] }) e whole))
        (Accounted-same _
          (rw (append_assoc, append_assoc)
            (ap (λ (m : GuardMode). held_of m (g.line ++ seg) g.region_open g.region) (sym e)))
          (Accounted-hold (record g { line = g.line ++ seg }) whole))
    where
      whole : g.partial ≡ false
      whole = elim t [ inl h ↦ h | inr (h, l) ↦ cc ]
  Accounted-consume_at raw seg complete g e t =
      Accounted-if complete
        (Accounted-same _ (rw (append_assoc, append-nil))
          (Accounted-raw_line (g.line ++ seg) (record g { line = [] }) e whole))
        (Accounted-same _
          (append_assoc g.region g.line seg
            ∙ ap (λ (m : GuardMode). held_of m (g.line ++ seg) g.region_open g.region) (sym e))
          (Accounted-hold (record g { line = g.line ++ seg }) whole))
    where
      whole : g.partial ≡ false
      whole = elim t [ inl h ↦ h | inr (h, l) ↦ cc ]
  Accounted-consume_at pass seg complete g e t = elim (Bool-cases g.partial) [
    | inl p ↦
        subst (Accounted (g.line ++ seg)) {x = (record g { partial = not complete }, seg)}
          (ground (arith, p))
          (record {
            released = seg;
            split =
                ap (λ l. l ++ seg) (empty p)
                ∙ sym (append-nil seg)
                ∙ ap (λ l. seg ++ l) (sym (empty p))
                ∙ ap (λ (m : GuardMode). seg ++ held_of m g.line g.region_open g.region) (sym e);
            repaired = kept seg;
            tidy = inr (e, empty p);
          })
    | inr p ↦
        subst (Accounted (g.line ++ seg))
          {x = if complete
            then start_or_pass space lower repair (g.line ++ seg) (record g { line = [] })
            else hold_or_release space lower repair (record g { line = g.line ++ seg })}
          (ground (arith, p))
          (Accounted-if complete
            (Accounted-same _ (sym (append-nil _))
              (Accounted-start_or_pass (g.line ++ seg) (record g { line = [] }) e p))
            (Accounted-if (might_start_region g.in_fence (g.line ++ seg))
              (Accounted-same _
                (ap (λ (m : GuardMode). held_of m (g.line ++ seg) g.region_open g.region) (sym e))
                (Accounted-hold (record g { line = g.line ++ seg }) p))
              (record {
                released = g.line ++ seg;
                split =
                    sym (append-nil _)
                    ∙ ap (λ (m : GuardMode). (g.line ++ seg) ++ held_of m [] g.region_open g.region)
                        (sym e);
                repaired = kept _;
                tidy = inr (e, refl);
              })))
  ]
    where
      empty : g.partial ≡ true → g.line ≡ []
      empty p = elim t [ inl h ↦ cc | inr (h, l) ↦ l ]
