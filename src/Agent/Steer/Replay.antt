-- ===== src/Agent/Steer/Replay.antt =====
-- `apply` of internal/agent/steer.go on the later model calls of a turn.
use bepaylot.Prelude.{
  ℕ, suc, ◌+◌, ◌≤◌, ◌≡◌, refl, sym, ap, ◌∙◌, subst, Text, List, [], ◌∷◌, ◌++◌, append_assoc,
  append-nil, leb, Bool-cases, inl, inr, All, length, arith,
}
use bepaylot.Agent.Steer.{SteerMsg, PlacedMsg, Steerer, due, splice, spliced, place, apply}

module _ {Message : Type 0} where
  abbrev pub messages : List (PlacedMsg Message) → List Message
  messages [] = []
  messages (p ∷ ps) = p.message ∷ messages ps

  -- Every message is placed at `n` or before it.
  abbrev pub Within : ℕ → List (PlacedMsg Message) → Type 0
  Within n ps = All (λ p. p.at ≤ n) ps

  due-Within : (n i : ℕ) (ps : List (PlacedMsg Message)) → Within n ps → Within n (due i ps).1
  unfolding due
  due-Within n i [] h = tt
  due-Within n i (p ∷ ps) h = elim (Bool-cases (leb p.at i)) [
    | inl e ↦ subst (λ x. Within n x) {x = (due i ps).1} (ground (arith, e)) (due-Within n i ps h.1)
    | inr e ↦ subst (λ x. Within n x) {x = p ∷ ps} (ground (arith, e)) h
  ]

  -- A message that is due is placed at once.
  due_all : (i : ℕ) (ps : List (PlacedMsg Message)) → Within i ps → due i ps ≡ (messages ps, [])
  unfolding due
  due_all i [] h = refl
  due_all i (p ∷ ps) h = ground (arith, due_all i ps h.1, h.0)

  splice_nil : (i : ℕ) (ms : List Message) → splice i ms [] ≡ ms
  unfolding splice due
  splice_nil i [] = refl
  splice_nil i (m ∷ ms) = ap (λ x. m ∷ x) (splice_nil (suc i) ms)

  splice-append :
      (i : ℕ) (ms : List Message) (x : Message) (more : List Message)
      (ps : List (PlacedMsg Message))
      → Within (i + length ms) ps
      → splice i (ms ++ x ∷ more) ps ≡ splice i ms ps ++ x ∷ more
  unfolding splice
  splice-append i [] x more ps h =
      ap (λ t. (due i ps).0 ++ x ∷ t)
        (ap (λ d. splice (suc i) more d.1) (due_all i ps (subst (λ n. Within n ps) (omega arith) h))
          ∙ splice_nil (suc i) more)
  splice-append i (m ∷ ms) x more ps h =
      ap (λ t. (due i ps).0 ++ (m ∷ t))
        (splice-append (suc i) ms x more (due i ps).1
          (due-Within _ i ps (subst (λ n. Within n ps) (omega arith) h)))
      ∙ sym (append_assoc (due i ps).0 (m ∷ splice (suc i) ms (due i ps).1) (x ∷ more))

  pub spliced-append :
      (ms : List Message) (x : Message) (more : List Message) (ps : List (PlacedMsg Message))
      → Within (length ms) ps
      → spliced (ms ++ x ∷ more) ps ≡ spliced ms ps ++ x ∷ more
  unfolding spliced
  spliced-append ms x more [] h = refl
  spliced-append ms x more (p ∷ ps) h =
      splice-append 0 ms x more (p ∷ ps)
        (subst (λ n. Within n (p ∷ ps)) {x = length ms} (omega arith) h)

  pub Within-append :
      (n : ℕ) (ps qs : List (PlacedMsg Message)) → Within n ps → Within n qs → Within n (ps ++ qs)
  Within-append n [] qs h k = k
  Within-append n (p ∷ ps) qs h k = (h.0, Within-append n ps qs h.1 k)

  pub Within-weaken :
      (n n' : ℕ) (ps : List (PlacedMsg Message)) → n ≤ n' → Within n ps → Within n' ps
  Within-weaken n n' [] e h = tt
  Within-weaken n n' (p ∷ ps) e h = (omega (arith, e, h.0), Within-weaken n n' ps e h.1)

-- `zs` has all of `xs` and all of `ys`, each in its order, and nothing else.
pub data Merged {Message : Type 0} : List Message → List Message → List Message → Type 0 where
  neither : Merged [] [] []
  one_of_first :
      {xs ys zs : List Message} (x : Message) → Merged xs ys zs → Merged (x ∷ xs) ys (x ∷ zs)
  one_of_second :
      {xs ys zs : List Message} (y : Message) → Merged xs ys zs → Merged xs (y ∷ ys) (y ∷ zs)

module _ {Message : Type 0} where
  Merged-second :
      {xs ys zs : List Message} (ws : List Message)
      → Merged xs ys zs
      → Merged xs (ws ++ ys) (ws ++ zs)
  Merged-second [] m = m
  Merged-second (w ∷ ws) m = one_of_second w (Merged-second ws m)

  Merged-nil : (xs : List Message) → Merged xs [] xs
  Merged-nil [] = neither
  Merged-nil (x ∷ xs) = one_of_first x (Merged-nil xs)

  messages-due :
      (i : ℕ) (ps : List (PlacedMsg Message)) → messages ps ≡ (due i ps).0 ++ messages (due i ps).1
  unfolding due
  messages-due i [] = refl
  messages-due i (p ∷ ps) = ground (arith, messages-due i ps)

  splice-Merged :
      (i : ℕ) (ms : List Message) (ps : List (PlacedMsg Message))
      → Within (i + length ms) ps
      → Merged ms (messages ps) (splice i ms ps)
  unfolding splice
  splice-Merged i [] ps h =
      let all = due_all i ps (subst (λ n. Within n ps) (omega arith) h) in
      subst (λ zs. Merged [] (messages ps) zs)
        (sym (ap (λ (d : List Message × List (PlacedMsg Message)). d.0) all))
        (subst (λ zs. Merged [] zs zs) (append-nil (messages ps))
          (Merged-second (messages ps) neither))
  splice-Merged i (m ∷ ms) ps h =
      subst (λ ys. Merged (m ∷ ms) ys (splice i (m ∷ ms) ps)) (sym (messages-due i ps))
        (Merged-second (due i ps).0 (
          one_of_first m (
            splice-Merged (suc i) ms (due i ps).1
              (due-Within _ i ps (subst (λ n. Within n ps) (omega arith) h)))))

  pub spliced-Merged :
      (ms : List Message) (ps : List (PlacedMsg Message))
      → Within (length ms) ps
      → Merged ms (messages ps) (spliced ms ps)
  unfolding spliced
  spliced-Merged ms [] h = Merged-nil ms
  spliced-Merged ms (p ∷ ps) h =
      splice-Merged 0 ms (p ∷ ps) (subst (λ n. Within n (p ∷ ps)) {x = length ms} (omega arith) h)

module _ {Row Message : Type 0} (user_message : Text → Message) where
  pub place-Within : (n : ℕ) (ms : List (SteerMsg Row)) → Within n (place user_message n ms)
  place-Within n [] = tt
  place-Within n (m ∷ ms) = (omega arith, place-Within n ms)

  pub apply-Within :
      (input : List Message) (s : Steerer Row Message)
      → Within (length input) s.placed
      → Within (length input) (apply user_message input s).0.placed
  unfolding apply
  apply-Within input s h =
      Within-append (length input) s.placed (place user_message (length input) s.pending) h
        (place-Within (length input) s.pending)

  -- When the messages delivered so far stand at the end of the transcript or before it, the next call's
  -- transcript, with at least one new step and no new message, is the one shown before with the new steps
  -- at its end.
  pub apply-append :
      (input : List Message) (s : Steerer Row Message)
      → Within (length input) s.placed
      → (x : Message) (more : List Message)
      → (apply user_message (input ++ x ∷ more) (apply user_message input s).0).1
        ≡ (apply user_message input s).1 ++ x ∷ more
  unfolding apply
  apply-append input s h x more =
      ap (λ ps. spliced (input ++ x ∷ more) ps) (append-nil _)
      ∙ spliced-append input x more _ (apply-Within input s h)
