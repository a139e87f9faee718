-- ===== src/Agent/JsonRepair/Rewrites.antt =====
-- What repairJSONExpressions of internal/agent/jsonrepair.go changes in a text.
use bepaylot.Prelude.{
  ℕ, suc, ◌+◌, ◌≤◌, ◌≡◌, refl, sym, ap, ◌∙◌, subst, Text, trim_right, drop_space, true, false,
  Option, some, List, [], ◌∷◌, ◌++◌, append_assoc, ◌==◌, if-intro, inl, inr, length, length-append,
  drop, arith, All,
}
use bepaylot.Agent.JsonRepair.{
  is_blank, is_expr_char, is_plain_number, starts_value, value_position, ScanStep, opens, closes,
  unbalanced, ends, refused, goes_on, scan_step, scan_next, Scanned, scan_expr_value, Round,
  byte_round,
}
use bepaylot.Agent.JsonRepair.Values.{
  Place, lead, advance, advance_all, advance_all-append, IsValuePlace, outside, within, Closed,
  IsScan, scan_expr_value-IsScan, advance_all-expr, advance-starts,
}

trim_right-cons :
    (c : ℕ) (cs : Text)
    → is_blank c ≡ false
    → trim_right is_blank (c ∷ cs) ≡ c ∷ trim_right is_blank cs
unfolding trim_right
trim_right-cons c cs h = kept (trim_right is_blank cs)
  where
    kept : (ds : Text) → drop_space is_blank c ds ≡ c ∷ ds
    kept [] = ground (arith, h)
    kept (d ∷ ds) = refl

trim_right-drop :
    (cs : Text) → trim_right is_blank cs ++ drop (length (trim_right is_blank cs)) cs ≡ cs
unfolding trim_right
trim_right-drop [] = refl
trim_right-drop (c ∷ cs) = with_rest (trim_right is_blank cs) (trim_right-drop cs)
  where
    with_rest :
        (ds : Text)
        → ds ++ drop (length ds) cs ≡ cs
        → drop_space is_blank c ds ++ drop (length (drop_space is_blank c ds)) (c ∷ cs) ≡ c ∷ cs
    with_rest [] e =
        if-intro (λ (t : Text). t ++ drop (length t) (c ∷ cs) ≡ c ∷ cs) (is_blank c) _ _ (λ h. refl)
          (λ h. refl)
    with_rest (d ∷ ds) e = ap (λ t. c ∷ t) e

module _ (eval : Text → Option Text) where
  -- A text and what is made of it, from a place on: each byte is kept, but for expressions at places of
  -- values that are no JSON numbers and that `eval` accepts, each replaced with its number.
  pub data Rewritten : Place → Text → Text → ℕ → Type 0 where
    ended : {p : Place} → Rewritten p [] [] 0
    kept :
        {p : Place} {s t : Text} {n : ℕ} (c : ℕ)
        → Rewritten (advance p c) s t n
        → Rewritten p (c ∷ s) (c ∷ t) n
    computed :
        {p : Place} {whole s t : Text} {n : ℕ} (c : ℕ) (cs number : Text)
        → IsValuePlace p
        → starts_value c ≡ true
        → is_plain_number (c ∷ cs) ≡ false
        → eval (c ∷ cs) ≡ some number
        → whole ≡ c ∷ (cs ++ s)
        → Rewritten (advance_all p (c ∷ cs)) s t n
        → Rewritten p whole (number ++ t) (suc n)

  at_end : {p q : Place} {t : Text} {n : ℕ} → Rewritten p [] t n → Rewritten q [] t n
  at_end ended = ended
  at_end (computed c cs number v b l e w r) = cc

  keep_all :
      (w : Text) {p : Place} {s t : Text} {n : ℕ}
      → Rewritten (advance_all p w) s t n
      → Rewritten p (w ++ s) (w ++ t) n
  unfolding advance_all
  keep_all [] r = r
  keep_all (c ∷ w) r = kept c (keep_all w r)

  recount : {p : Place} {s t : Text} {n m : ℕ} → n ≡ m → Rewritten p s t n → Rewritten p s t m
  recount {p = p} {s = s} {t = t} e r = subst (λ (k : ℕ). Rewritten p s t k) e r

  -- A round of the loop that reads `c` and perhaps more.
  abbrev pub Sound : List ℕ → ℕ → ℕ → Text → Round → Type 0
  Sound stack prev c cs r =
      (length r.rest ≤ length cs)
      × ((t : Text) (n : ℕ)
          → Rewritten (outside r.stack (lead r.prev)) r.rest t n
          → Rewritten (outside stack (lead prev)) (c ∷ cs) (r.written ++ t) (r.fixes + n))

  pub Sound-byte :
      (stack : List ℕ) (prev c : ℕ) (cs : Text) (stack' : List ℕ) (prev' : ℕ)
      → advance (outside stack (lead prev)) c ≡ outside stack' (lead prev')
      → Sound stack prev c cs (byte_round eval stack' prev' c cs)
  Sound-byte stack prev c cs stack' prev' e = (
    omega arith,
    λ t n r. recount (omega arith) (kept c (subst (λ (p : Place). Rewritten p cs t n) (sym e) r)),
  )

  pub Sound-string :
      (stack : List ℕ) (prev c : ℕ) (cs : Text) (r : Text × Text)
      → (c == b'"') ≡ true
      → r.0 ++ r.1 ≡ cs
      → Closed stack (lead prev) r
      → Sound stack prev c cs
          (record { written = c ∷ r.0; fixes = 0; stack = stack; prev = b'"'; rest = r.1 })
  unfolding advance
  Sound-string stack prev c cs (a, b) e parts closed = (
    omega (arith, ap length parts, length-append a b),
    λ t n k. recount (omega arith) (
        subst (λ (s : Text). Rewritten (outside stack (lead prev)) (c ∷ s) (c ∷ (a ++ t)) n) parts
          (kept c (
            subst (λ (p : Place). Rewritten p (a ++ b) (a ++ t) n) (ground (arith, e))
              (keep_all a (within_string t n k))))),
  )
    where
      within_string :
          (t : Text) (n : ℕ)
          → Rewritten (outside stack 0) b t n
          → Rewritten (advance_all (within stack (lead prev)) a) b t n
      within_string t n k = elim closed [
        | inl nothing ↦
            subst (λ (s : Text). Rewritten (advance_all (within stack (lead prev)) a) s t n)
              (sym nothing)
              (at_end (subst (λ (s : Text). Rewritten (outside stack 0) s t n) nothing k))
        | inr out ↦ subst (λ (p : Place). Rewritten p b t n) (sym out) k
      ]

  -- The first byte of a value belongs to it.
  scan_next-starts :
      (k : ScanStep) (c : ℕ) (cs : Text) (go : ℕ → Scanned)
      → scan_step 0 c ≡ k
      → starts_value c ≡ true
      → (tok : Text) × ((scan_next k 0 c cs go).token ≡ c ∷ tok)
  scan_next-starts opens c cs go e h = (_, refl)
  scan_next-starts closes c cs go e h = (_, refl)
  scan_next-starts goes_on c cs go e h = (_, refl)
  scan_next-starts unbalanced c cs go e h = absurd (ground (arith, e, h))
  scan_next-starts ends c cs go e h = absurd (ground (arith, e, h))
  scan_next-starts refused c cs go e h = absurd (ground (arith, e, h))

  starts-nonblank : (c : ℕ) → starts_value c ≡ true → is_blank c ≡ false
  starts-nonblank c h = ground (arith, h)

  value_place :
      (prev : ℕ) (stack : List ℕ)
      → value_position prev stack ≡ true
      → IsValuePlace (outside stack (lead prev))
  value_place prev stack h = (refl, ground (arith, h))

  -- A value that starts with `c`, cut out of the text.
  pub record IsValue (stack : List ℕ) (last c : ℕ) (cs : Text) (s : Scanned) : Type 0 where
    pub tail : Text
    pub starts : starts_value c ≡ true
    pub token : s.token ≡ c ∷ tail
    pub parts : tail ++ s.rest ≡ cs
    pub after : advance_all (outside stack last) (c ∷ tail) ≡ outside stack 0

  IsValue-intro :
      (stack : List ℕ) (last c : ℕ) (cs : Text) (s : Scanned) (tail : Text)
      → starts_value c ≡ true
      → s.token ≡ c ∷ tail
      → IsScan (c ∷ cs) s
      → IsValue stack last c cs s
  unfolding advance_all
  IsValue-intro stack last c cs s tail h e (whole, bytes) =
      let joined : c ∷ (tail ++ s.rest) ≡ c ∷ cs = ap (λ t. t ++ s.rest) (sym e) ∙ whole in
      record {
        tail = tail;
        starts = h;
        token = e;
        parts = cc;
        after =
            ap (λ p. advance_all p tail) (advance-starts stack last c h)
            ∙ advance_all-expr stack tail
                (subst (λ (t : Text). All (λ b. is_expr_char b ≡ true) t) e bytes).1;
      }

  pub scan_expr_value-IsValue :
      (stack : List ℕ) (last c : ℕ) (cs : Text)
      → starts_value c ≡ true
      → IsValue stack last c cs (scan_expr_value 0 (c ∷ cs))
  unfolding scan_expr_value
  scan_expr_value-IsValue stack last c cs h =
      let first = scan_next-starts (scan_step 0 c) c cs (λ d. scan_expr_value d cs) refl h in
      IsValue-intro stack last c cs (scan_expr_value 0 (c ∷ cs)) first.0 h first.1
        (scan_expr_value-IsScan 0 (c ∷ cs))

  pub Sound-kept :
      (stack : List ℕ) (prev c : ℕ) (cs : Text) (s : Scanned)
      → IsValue stack (lead prev) c cs s
      → Sound stack prev c cs
          (record { written = s.token; fixes = 0; stack = stack; prev = b'0'; rest = s.rest })
  Sound-kept stack prev c cs s v = (
    omega (arith, ap length v.parts, length-append v.tail s.rest),
    λ t n k. recount (omega arith) (
        subst (λ (src : Text). Rewritten (outside stack (lead prev)) (c ∷ src) (s.token ++ t) n)
          v.parts
          (subst
            (λ (w : Text).
              Rewritten (outside stack (lead prev)) (c ∷ (v.tail ++ s.rest)) (w ++ t) n)
            (sym v.token)
            (keep_all (c ∷ v.tail)
              (subst (λ (p : Place). Rewritten p s.rest t n) (sym v.after) k)))),
  )

  pub Sound-computed :
      (stack : List ℕ) (prev c : ℕ) (cs : Text) (s : Scanned) (number : Text)
      → IsValue stack (lead prev) c cs s
      → value_position prev stack ≡ true
      → is_plain_number (trim_right is_blank s.token) ≡ false
      → eval (trim_right is_blank s.token) ≡ some number
      → Sound stack prev c cs (record {
        written = number ++ drop (length (trim_right is_blank s.token)) s.token;
        fixes = 1;
        stack = stack;
        prev = b'0';
        rest = s.rest;
      })
  Sound-computed stack prev c cs s number v here plain e = (
    omega (arith, ap length v.parts, length-append v.tail s.rest),
    λ t n k. recount {n = suc n} (omega arith) (
        subst (λ (w : Text). Rewritten (outside stack (lead prev)) (c ∷ cs) w (suc n))
          (sym (written t))
          (computed c u number (value_place prev stack here) v.starts
            (ap is_plain_number (sym trimmed) ∙ plain) (ap eval (sym trimmed) ∙ e) whole
            (keep_all blanks (subst (λ (p : Place). Rewritten p s.rest t n) (sym there) k)))),
  )
    where
      u : Text
      u = trim_right is_blank v.tail

      blanks : Text
      blanks = drop (length u) v.tail

      trimmed : trim_right is_blank s.token ≡ c ∷ u
      trimmed =
          ap (trim_right is_blank) v.token ∙ trim_right-cons c v.tail (starts-nonblank c v.starts)

      cut : drop (length (trim_right is_blank s.token)) s.token ≡ blanks
      cut = ap (λ x. drop (length x) s.token) trimmed ∙ ap (λ x. drop (suc (length u)) x) v.token

      written :
          (t : Text)
          → (number ++ drop (length (trim_right is_blank s.token)) s.token) ++ t
            ≡ number ++ (blanks ++ t)
      written t = append_assoc number _ t ∙ ap (λ x. number ++ (x ++ t)) cut

      whole : c ∷ cs ≡ c ∷ (u ++ (blanks ++ s.rest))
      whole =
          ap (λ x. c ∷ x)
            (sym v.parts
              ∙ ap (λ x. x ++ s.rest) (sym (trim_right-drop v.tail))
              ∙ append_assoc u blanks s.rest)

      there : advance_all (advance_all (outside stack (lead prev)) (c ∷ u)) blanks ≡ outside stack 0
      there =
          sym (advance_all-append (outside stack (lead prev)) (c ∷ u) blanks)
          ∙ ap (λ x. advance_all (outside stack (lead prev)) (c ∷ x)) (trim_right-drop v.tail)
          ∙ v.after
