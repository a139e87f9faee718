-- ===== src/Agent/JsonRepair/Values.antt =====
-- Strings and values of a JSON text, as internal/agent/jsonrepair.go cuts them out, next to a reading of
-- the text byte by byte.
use bepaylot.Prelude.{
  ℕ, suc, ◌-◌, ◌≡◌, refl, ap, ◌∙◌, Text, Bool, true, false, ◌&&◌, ◌||◌, List, [], ◌∷◌, ◌++◌, ◌==◌,
  if◌then◌else◌, if-intro, ◌⊎◌, inl, inr, arith, All,
}
use bepaylot.Agent.JsonRepair.{
  is_blank, is_expr_char, skip_json_string, before, starts_value, scan_next, scan_step, ScanStep,
  Scanned, scan_expr_value, top_is_array, pop, opens, closes, goes_on,
}

-- Where a reader of the text stands: within a string, after a backslash there, the open containers and
-- the last byte outside strings that is not blank, if it can stand before a value.
pub record Place : Type 0 where
  pub in_string : Bool
  pub escaped : Bool
  pub containers : List ℕ
  pub last : ℕ

abbrev pub lead : ℕ → ℕ
lead c = if c == b':' || (c == b'[' || c == b',') then c else 0

abbrev pub advance_within : Place → ℕ → Place
advance_within p c =
    if p.escaped
    then record p { escaped = false }
    else if c == b'\\'
    then record p { escaped = true }
    else if c == b'"'
    then record p { in_string = false; last = 0 }
    else p

abbrev pub advance_outside : Place → ℕ → Place
advance_outside p c =
    if c == b'"'
    then record p { in_string = true }
    else if is_blank c
    then p
    else if c == b'{' || c == b'['
    then record p { containers = c ∷ p.containers; last = lead c }
    else if c == b'}' || c == b']'
    then record p { containers = pop p.containers; last = 0 }
    else record p { last = lead c }

unfoldable pub advance : Place → ℕ → Place
advance p c = if p.in_string then advance_within p c else advance_outside p c

unfoldable pub advance_all : Place → Text → Place
unfolding advance
advance_all p [] = p
advance_all p (c ∷ cs) = advance_all (advance p c) cs

-- A value can stand here.
abbrev pub IsValuePlace : Place → Type 0
IsValuePlace p =
    (p.in_string ≡ false)
    × ((p.last == b':' || (p.last == b'[' || (p.last == b',' && top_is_array p.containers))) ≡ true)

pub advance_all-append :
    (p : Place) (s t : Text) → advance_all p (s ++ t) ≡ advance_all (advance_all p s) t
unfolding advance_all
advance_all-append p [] t = refl
advance_all-append p (c ∷ s) t = advance_all-append (advance p c) s t

abbrev pub outside : List ℕ → ℕ → Place
outside stack last = record { in_string = false; escaped = false; containers = stack; last = last }

abbrev pub within : List ℕ → ℕ → Place
within stack last = record { in_string = true; escaped = false; containers = stack; last = last }

-- The parts of a text.
pub skip_json_string-parts : (s : Text) → (skip_json_string s).0 ++ (skip_json_string s).1 ≡ s
unfolding skip_json_string
skip_json_string-parts [] = refl
skip_json_string-parts (c ∷ []) = refl
skip_json_string-parts (c ∷ d ∷ ds) =
    ground (arith, skip_json_string-parts (d ∷ ds), skip_json_string-parts ds)

advance-escape :
    (stack : List ℕ) (last c d : ℕ)
    → (c == b'\\') ≡ true
    → advance (advance (within stack last) c) d ≡ within stack last
unfolding advance
advance-escape stack last c d h = ground (arith, h)

advance-quote :
    (stack : List ℕ) (last c : ℕ)
    → (c == b'"') ≡ true
    → advance (within stack last) c ≡ outside stack 0
unfolding advance
advance-quote stack last c h = ground (arith, h)

advance-within :
    (stack : List ℕ) (last c : ℕ)
    → (c == b'\\') ≡ false
    → (c == b'"') ≡ false
    → advance (within stack last) c ≡ within stack last
unfolding advance
advance-within stack last c h k = ground (arith, h, k)

-- A string that is cut out is either not closed in the text, or what stands outside it follows.
abbrev pub Closed : List ℕ → ℕ → Text × Text → Type 0
Closed stack last r = (r.1 ≡ []) ⊎ (advance_all (within stack last) r.0 ≡ outside stack 0)

Closed-before :
    (stack : List ℕ) (last c : ℕ) (r : Text × Text)
    → advance (within stack last) c ≡ within stack last
    → Closed stack last r
    → Closed stack last (before c r)
unfolding advance_all
Closed-before stack last c r e (inl h) = inl h
Closed-before stack last c r e (inr h) = inr (ap (λ p. advance_all p r.0) e ∙ h)

Closed-escape :
    (stack : List ℕ) (last c d : ℕ) (r : Text × Text)
    → (c == b'\\') ≡ true
    → Closed stack last r
    → Closed stack last (before c (before d r))
unfolding advance_all
Closed-escape stack last c d r e (inl h) = inl h
Closed-escape stack last c d r e (inr h) =
    inr (ap (λ p. advance_all p r.0) (advance-escape stack last c d e) ∙ h)

pub skip_json_string-Closed :
    (s : Text) (stack : List ℕ) (last : ℕ) → Closed stack last (skip_json_string s)
unfolding skip_json_string advance_all
skip_json_string-Closed [] stack last = inl refl
skip_json_string-Closed (c ∷ []) stack last = inl refl
skip_json_string-Closed (c ∷ d ∷ ds) stack last =
    if-intro (Closed stack last) (c == b'\\') _ _
      (λ e.
        Closed-escape stack last c d (skip_json_string ds) e
          (skip_json_string-Closed ds stack last))
      (λ e.
        if-intro (Closed stack last) (c == b'"') _ _ (λ f. inr (advance-quote stack last c f))
          (λ f.
            Closed-before stack last c (skip_json_string (d ∷ ds)) (advance-within stack last c e f)
              (skip_json_string-Closed (d ∷ ds) stack last)))

-- A part of the text that has bytes of expressions only, and what follows it.
abbrev pub IsScan : Text → Scanned → Type 0
IsScan s r = (r.token ++ r.rest ≡ s) × All (λ c. is_expr_char c ≡ true) r.token

scan_next-IsScan :
    (k : ScanStep) (depth c : ℕ) (cs : Text) (go : ℕ → Scanned)
    → scan_step depth c ≡ k
    → ((d : ℕ) → IsScan cs (go d))
    → IsScan (c ∷ cs) (scan_next k depth c cs go)
scan_next-IsScan opens depth c cs go e h =
    (ap (λ t. c ∷ t) (h (suc depth)).0, (ground (arith, e), (h (suc depth)).1))
scan_next-IsScan closes depth c cs go e h =
    (ap (λ t. c ∷ t) (h (depth - 1)).0, (ground (arith, e), (h (depth - 1)).1))
scan_next-IsScan goes_on depth c cs go e h =
    (ap (λ t. c ∷ t) (h depth).0, (ground (arith, e), (h depth).1))
scan_next-IsScan _ depth c cs go e h = (refl, tt)

pub scan_expr_value-IsScan : (depth : ℕ) (s : Text) → IsScan s (scan_expr_value depth s)
unfolding scan_expr_value
scan_expr_value-IsScan depth [] = (refl, tt)
scan_expr_value-IsScan depth (c ∷ cs) =
    scan_next-IsScan (scan_step depth c) depth c cs _ refl (λ d. scan_expr_value-IsScan d cs)

advance-expr :
    (stack : List ℕ) (c : ℕ) → is_expr_char c ≡ true → advance (outside stack 0) c ≡ outside stack 0
unfolding advance
advance-expr stack c h = ground (arith, h)

-- A value starts with a byte that is no blank, and is not read as anything but a value.
pub advance_all-expr :
    (stack : List ℕ) (s : Text)
    → All (λ c. is_expr_char c ≡ true) s
    → advance_all (outside stack 0) s ≡ outside stack 0
unfolding advance_all
advance_all-expr stack [] h = refl
advance_all-expr stack (c ∷ s) h =
    ap (λ p. advance_all p s) (advance-expr stack c h.0) ∙ advance_all-expr stack s h.1

pub advance-starts :
    (stack : List ℕ) (last c : ℕ)
    → starts_value c ≡ true
    → advance (outside stack last) c ≡ outside stack 0
unfolding advance
advance-starts stack last c h = ground (arith, h)
