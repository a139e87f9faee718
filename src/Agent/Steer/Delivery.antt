-- ===== src/Agent/Steer/Delivery.antt =====
-- The inbox of internal/agent/steer.go over a whole turn, as a relation that its operations step.
use bepaylot.Prelude.{
  ℕ, suc, ◌≤◌, ◌≡◌, refl, sym, ap, ◌∙◌, subst, Text, Bool, true, false, List, [], ◌∷◌, ◌++◌,
  append_assoc, append-nil, if◌then◌else◌, Bool-cases, inl, inr, ◌⊎◌, length, length-append, arith,
}
use bepaylot.Agent.Steer.{
  SteerMsg, PlacedMsg, Steerer, new_steerer, framed, push, close, place, apply, spliced,
}
use bepaylot.Agent.Steer.Replay.{
  Within, Within-weaken, Within-append, place-Within, messages, Merged, spliced-Merged,
}

messages-append :
    {Message : Type 0} (ps qs : List (PlacedMsg Message))
    → messages (ps ++ qs) ≡ messages ps ++ messages qs
messages-append [] qs = refl
messages-append (p ∷ ps) qs = ap (λ t. p.message ∷ t) (messages-append ps qs)

module _ {Row Message : Type 0} (user_message : Text → Message) where
  -- `s` is reached when `took` are the messages that `push` accepted, in order, `left` those that `close`
  -- returned, and no transcript of a model call had more than `n` messages.
  pub data Reaches
      : ℕ → Steerer Row Message → List (SteerMsg Row) → List (SteerMsg Row) → Type 0 where
    started : Reaches 0 new_steerer [] []
    pushed :
        {n : ℕ} {s : Steerer Row Message} {took left : List (SteerMsg Row)} (m : SteerMsg Row)
        → Reaches n s took left
        → Reaches n
            (push user_message m s).0
            (if (push user_message m s).1 then took ++ m ∷ [] else took)
            left
    applied :
        {n : ℕ} {s : Steerer Row Message} {took left : List (SteerMsg Row)} (n' : ℕ)
        (input : List Message)
        → n ≤ n'
        → length input ≤ n'
        → Reaches n s took left
        → Reaches n' (apply user_message input s).0 took left
    closed_off :
        {n : ℕ} {s : Steerer Row Message} {took left : List (SteerMsg Row)}
        → Reaches n s took left
        → Reaches n (close user_message s).0 took (left ++ (close user_message s).1)

  abbrev pub frames : List (SteerMsg Row) → List Message
  frames [] = []
  frames (m ∷ ms) = framed user_message m ∷ frames ms

  frames-append : (xs ys : List (SteerMsg Row)) → frames (xs ++ ys) ≡ frames xs ++ frames ys
  frames-append [] ys = refl
  frames-append (m ∷ xs) ys = ap (λ t. framed user_message m ∷ t) (frames-append xs ys)

  messages-place :
      (n : ℕ) (ms : List (SteerMsg Row)) → messages (place user_message n ms) ≡ frames ms
  messages-place n [] = refl
  messages-place n (m ∷ ms) = ap (λ t. framed user_message m ∷ t) (messages-place n ms)

  -- What holds of every reachable inbox.
  pub record Kept (n : ℕ) (s : Steerer Row Message) (took left : List (SteerMsg Row)) : Type 0 where
    pub count : s.taken ≡ length took
    pub order : frames took ≡ messages s.placed ++ (frames s.pending ++ frames left)
    pub within : Within n s.placed
    pub shut : (s.closed ≡ false) ⊎ (s.pending ≡ [])
    pub unreturned : (s.closed ≡ true) ⊎ (left ≡ [])

  none_waits :
      {n : ℕ} {s : Steerer Row Message} {took left : List (SteerMsg Row)}
      → Kept n s took left
      → s.closed ≡ true
      → s.pending ≡ []
  none_waits k e = elim k.shut [ inl f ↦ cc | inr f ↦ f ]

  none_returned :
      {n : ℕ} {s : Steerer Row Message} {took left : List (SteerMsg Row)}
      → Kept n s took left
      → s.closed ≡ false
      → left ≡ []
  none_returned k e = elim k.unreturned [ inl f ↦ cc | inr f ↦ f ]

  abbrev KeptAfter :
      ℕ
      → List (SteerMsg Row)
      → List (SteerMsg Row)
      → SteerMsg Row
      → Steerer Row Message × Bool
      → Type 0
  KeptAfter n took left m x = Kept n x.0 (if x.1 then took ++ m ∷ [] else took) left

  Kept-push :
      (n : ℕ) (s : Steerer Row Message) (took left : List (SteerMsg Row)) (m : SteerMsg Row)
      → Kept n s took left
      → Kept n
          (push user_message m s).0
          (if (push user_message m s).1 then took ++ m ∷ [] else took)
          left
  unfolding push
  Kept-push n s took left m k = elim (Bool-cases s.closed) [
    | inl e ↦ subst (KeptAfter n took left m) {x = (s, false)} (ground (arith, e)) k
    | inr e ↦
        subst (KeptAfter n took left m)
          {x = (record s { pending = s.pending ++ m ∷ []; taken = suc s.taken }, true)}
          (ground (arith, e))
          (record {
            count = omega (arith, length-append took (m ∷ []), k.count);
            order = queued (none_returned k e);
            within = k.within;
            shut = inl e;
            unreturned = k.unreturned;
          })
  ]
    where
      queued :
          left ≡ []
          → frames (took ++ m ∷ [])
            ≡ messages s.placed ++ (frames (s.pending ++ m ∷ []) ++ frames left)
      queued e =
          frames-append took (m ∷ [])
          ∙ ap (λ t. t ++ frames (m ∷ []))
              (k.order
                ∙ ap (λ t. messages s.placed ++ t)
                    (ap (λ t. frames s.pending ++ frames t) e ∙ append-nil _))
          ∙ append_assoc (messages s.placed) (frames s.pending) (frames (m ∷ []))
          ∙ sym (
              ap (λ t. messages s.placed ++ t)
                (ap (λ t. frames (s.pending ++ m ∷ []) ++ frames t) e
                  ∙ append-nil _
                  ∙ frames-append s.pending (m ∷ [])))

  Kept-apply :
      (n n' : ℕ) (s : Steerer Row Message) (took left : List (SteerMsg Row)) (input : List Message)
      → n ≤ n'
      → length input ≤ n'
      → Kept n s took left
      → Kept n' (apply user_message input s).0 took left
  Kept-apply n n' s took left input e f k =
      unfold apply in
      record {
        count = k.count;
        order =
            k.order
            ∙ sym (
                ap (λ t. t ++ frames left)
                  (messages-append s.placed _
                    ∙ ap (λ t. messages s.placed ++ t) (messages-place (length input) s.pending))
                ∙ append_assoc (messages s.placed) (frames s.pending) (frames left));
        within =
            Within-append n' s.placed (place user_message (length input) s.pending)
              (Within-weaken n n' s.placed e k.within)
              (Within-weaken (length input) n' _ f
                (place-Within user_message (length input) s.pending));
        shut = inr refl;
        unreturned = k.unreturned;
      }

  Kept-close :
      (n : ℕ) (s : Steerer Row Message) (took left : List (SteerMsg Row))
      → Kept n s took left
      → Kept n (close user_message s).0 took (left ++ (close user_message s).1)
  unfolding close
  Kept-close n s took left k = record {
    count = k.count;
    order = k.order ∙ ap (λ t. messages s.placed ++ t) (returned s.closed refl);
    within = k.within;
    shut = inr refl;
    unreturned = inl refl;
  }
    where
      returned :
          (b : Bool) → s.closed ≡ b → frames s.pending ++ frames left ≡ frames (left ++ s.pending)
      returned true e =
          ap (λ t. frames t ++ frames left) (none_waits k e)
          ∙ sym (ap (λ t. frames (left ++ t)) (none_waits k e) ∙ ap frames (append-nil left))
      returned false e =
          ap (λ t. frames s.pending ++ frames t) (none_returned k e)
          ∙ append-nil (frames s.pending)
          ∙ sym (ap (λ t. frames (t ++ s.pending)) (none_returned k e))

  Kept-Reaches :
      {n : ℕ} {s : Steerer Row Message} {took left : List (SteerMsg Row)}
      → Reaches n s took left
      → Kept n s took left
  Kept-Reaches started = record {
    count = refl;
    order = refl;
    within = tt;
    shut = inr refl;
    unreturned = inr refl;
  }
  Kept-Reaches (pushed m h) = Kept-push _ _ _ _ m (Kept-Reaches h)
  Kept-Reaches (applied n' input e f h) = Kept-apply _ n' _ _ _ input e f (Kept-Reaches h)
  Kept-Reaches (closed_off h) = Kept-close _ _ _ _ (Kept-Reaches h)

  apply-Merged :
      (n : ℕ) (s : Steerer Row Message) (input : List Message)
      → Within n s.placed
      → n ≤ length input
      → Merged input (messages s.placed ++ frames s.pending) (apply user_message input s).1
  apply-Merged n s input h e =
      unfold apply in
      let placed = place user_message (length input) s.pending in
      subst (λ ys. Merged input ys (spliced input (s.placed ++ placed)))
        (messages-append s.placed placed
          ∙ ap (λ t. messages s.placed ++ t) (messages-place (length input) s.pending))
        (spliced-Merged input (s.placed ++ placed) (
          Within-append (length input) s.placed placed (Within-weaken n (length input) s.placed e h)
            (place-Within user_message (length input) s.pending)))

  -- Over every sequence of push, apply and close, the count is that of the messages `push` accepted;
  -- these, in their order and as the model sees them, are the messages delivered, then those waiting, then
  -- those `close` returned; none waits once the inbox is closed, and none was returned before. A model call
  -- whose transcript has at least as many messages as each one before it then gets exactly its
  -- transcript, the messages delivered and those that waited, each in order.
  pub Reaches-Kept :
      {n : ℕ} {s : Steerer Row Message} {took left : List (SteerMsg Row)}
      → Reaches n s took left
      → Kept n s took left
        × ((input : List Message)
            → n ≤ length input
            → Merged input (messages s.placed ++ frames s.pending) (apply user_message input s).1)
  Reaches-Kept h = (Kept-Reaches h, λ input e. apply-Merged _ _ input (Kept-Reaches h).within e)
