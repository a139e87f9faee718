-- ===== src/Agent/Continue/Pieces.antt =====
-- The calls that generateResuming of internal/agent/continue.go makes, and the reply it joins from them.
use bepaylot.Prelude.{
  ℕ, zero, suc, ◌+◌, ◌≤◌, ◌≡◌, refl, sym, ◌∙◌, subst, Text, Bool, true, false, ◌&&◌, not, List, [],
  ◌∷◌, ◌++◌, append_assoc, append-nil, length, ◌⊎◌, inl, inr, if-intro, arith,
}
use bepaylot.GoLibrary.{Unicode}
use bepaylot.Agent.History.{Message}
use bepaylot.Llm.Retry.{Called, returned, call_failed}
use bepaylot.Agent.Continue.{
  Reply, Resumed, resume_transcript, is_cut_off, max_continuations, with_next, resume_from,
  after_first, generate_resuming,
}

-- The contents of replies, joined.
unfoldable pub contents : List Reply → Text
contents [] = []
contents (r ∷ rs) = r.message.content ++ contents rs

abbrev pub last_of : Reply → List Reply → Reply
last_of r [] = r
last_of r (s ∷ ss) = last_of s ss

last_of-finish :
    (a b : Reply) (rs : List Reply)
    → a.finish ≡ b.finish
    → (last_of a rs).finish ≡ (last_of b rs).finish
last_of-finish a b [] e = e
last_of-finish a b (r ∷ rs) e = refl

last_of-tool_calls :
    (a b : Reply) (rs : List Reply)
    → a.message.tool_calls ≡ b.message.tool_calls
    → (last_of a rs).message.tool_calls ≡ (last_of b rs).message.tool_calls
last_of-tool_calls a b [] e = e
last_of-tool_calls a b (r ∷ rs) e = refl

module _ {Float E : Type 0} (u : Unicode Float) (generate : ℕ → List Message → Called E Reply)
    (cancelled : ℕ → Bool) (input : List Message) where
  -- Replies to the calls after the one numbered `n`, each asked to carry on from all the text before it.
  abbrev pub Continues : ℕ → Text → List Reply → Type 0
  Continues n so_far [] = Unit
  Continues n so_far (r ∷ rs) =
      (generate (suc n) (resume_transcript input so_far) ≡ returned r)
      × Continues (suc n) (so_far ++ r.message.content) rs

  -- The reply is the text before, followed by the replies, with the finish and the tool calls of the last;
  -- and it is complete, or the context is done, or no continuation is left.
  abbrev pub Completed : ℕ → ℕ → Text → Reply → List Reply → Resumed E → Type 0
  Completed left n so_far msg rs r =
      (final : Reply) × (r.result ≡ returned final)
      × (r.last ≡ n + length rs)
      × (final.message.content ≡ so_far ++ contents rs)
      × (final.finish ≡ (last_of msg rs).finish)
      × (final.message.tool_calls ≡ (last_of msg rs).message.tool_calls)
      × ((is_cut_off u final ≡ false) ⊎ ((cancelled r.last ≡ true) ⊎ (r.last ≡ n + left)))

  -- The call after the replies failed.
  abbrev pub Broken : ℕ → Text → List Reply → Resumed E → Type 0
  Broken n so_far rs r =
      (e : E) × (r.result ≡ call_failed e)
      × (r.last ≡ suc (n + length rs))
      × (generate r.last (resume_transcript input (so_far ++ contents rs)) ≡ call_failed e)

  abbrev pub Resumes : ℕ → ℕ → Text → Reply → Resumed E → Type 0
  Resumes left n so_far msg r =
      (rs : List Reply) × Continues n so_far rs
      × (r.last ≤ n + left)
      × (Completed left n so_far msg rs r ⊎ Broken n so_far rs r)

  -- No further reply.
  stops :
      (left n : ℕ) (so_far : Text) (msg : Reply)
      → msg.message.content ≡ so_far
      → ((is_cut_off u msg ≡ false) ⊎ ((cancelled n ≡ true) ⊎ (n ≡ n + left)))
      → Resumes left n so_far msg (record { result = returned msg; last = n })
  unfolding contents
  stops left n so_far msg e h = (
    [],
    tt,
    omega arith,
    inl (msg, refl, omega arith, e ∙ sym (append-nil so_far), refl, refl, h),
  )

  -- The next reply, as the loop keeps it: with the joined text.
  abbrev merged : Text → Reply → Reply
  merged joined next = record next { message = record next.message { content = joined } }

  -- One more reply, and those after it.
  Resumes-step :
      (left n : ℕ) (so_far : Text) (msg next : Reply) (r : Resumed E)
      → generate (suc n) (resume_transcript input so_far) ≡ returned next
      → Resumes left
          (suc n)
          (so_far ++ next.message.content)
          (merged (so_far ++ next.message.content) next)
          r
      → Resumes (suc left) n so_far msg r
  unfolding contents
  Resumes-step left n so_far msg next r e (rs, asked, most, end) =
      let joined = append_assoc so_far next.message.content (contents rs) in
      (
        next ∷ rs,
        (e, asked),
        omega (arith, most),
        elim end [
          | inl c ↦ inl (
            c.0,
            c.1,
            omega (arith, c.2),
            c.3 ∙ joined,
            c.4 ∙ last_of-finish (merged _ next) next rs refl,
            c.5 ∙ last_of-tool_calls (merged _ next) next rs refl,
            elim c.6 [
              | inl whole ↦ inl whole
              | inr k ↦ elim k [ inl m ↦ inr (inl m) | inr m ↦ inr (inr (omega (arith, m))) ]
            ],
          )
          | inr b ↦ inr (
            b.0,
            b.1,
            omega (arith, b.2),
            subst (λ (t : Text). generate r.last (resume_transcript input t) ≡ call_failed b.0)
                joined b.3,
          )
        ],
      )

  -- The next call failed.
  Resumes-failed :
      (left n : ℕ) (so_far : Text) (msg : Reply) (x : E)
      → generate (suc n) (resume_transcript input so_far) ≡ call_failed x
      → Resumes (suc left) n so_far msg (record { result = call_failed x; last = suc n })
  unfolding contents
  Resumes-failed left n so_far msg x e = (
    [],
    tt,
    omega arith,
    inr (
      x,
      refl,
      omega arith,
      subst (λ (t : Text). generate (suc n) (resume_transcript input t) ≡ call_failed x)
          (sym (append-nil so_far)) e,
    ),
  )

  and_not : (a b : Bool) → (a && not b) ≡ false → (a ≡ false) ⊎ (b ≡ true)
  and_not true true h = inr refl
  and_not true false h = ground arith
  and_not false b h = inl refl

  with_next-Resumes :
      (left n : ℕ) (so_far : Text) (msg : Reply) (c : Called E Reply)
      → generate (suc n) (resume_transcript input so_far) ≡ c
      → (rest : Text → Reply → Resumed E)
      → ((joined : Text) (next : Reply)
          → next.message.content ≡ joined
          → Resumes left (suc n) joined next (rest joined next))
      → Resumes (suc left) n so_far msg (with_next u generate cancelled input n so_far c rest)
  with_next-Resumes left n so_far msg (call_failed x) e rest k =
      Resumes-failed left n so_far msg x e
  with_next-Resumes left n so_far msg (returned next) e rest k =
      let joined = so_far ++ next.message.content in
      Resumes-step left n so_far msg next (rest joined (merged joined next)) e
        (k joined (merged joined next) refl)

  -- The loop of generateResuming with `left` continuations to go makes at most so many calls, each asked
  -- to carry on from all the text so far, and joins what they answer.
  pub resume_from-Resumes :
      (left n : ℕ) (so_far : Text) (msg : Reply)
      → msg.message.content ≡ so_far
      → Resumes left n so_far msg (resume_from u generate cancelled input left n so_far msg)
  unfolding resume_from
  resume_from-Resumes zero n so_far msg e = stops zero n so_far msg e (inr (inr (omega arith)))
  resume_from-Resumes (suc left) n so_far msg e =
      let ih = resume_from-Resumes left (suc n) in
      if-intro (λ (r : Resumed E). Resumes (suc left) n so_far msg r)
        (is_cut_off u msg && not (cancelled n)) _ _
        (λ go. with_next-Resumes left n so_far msg _ refl _ ih)
        (λ stop.
          stops (suc left) n so_far msg e
            (elim (and_not _ _ stop) [ inl whole ↦ inl whole | inr done ↦ inr (inl done) ]))

  -- generateResuming fails when its first call does; else it makes at most four more, each asked to carry
  -- on from all the text so far, and returns the joined contents with the finish and the tool calls of
  -- the last one, unless one of them fails; a reply that is still cut off is returned only when no
  -- continuation is left or the context is done.
  pub generate_resuming-Resumes :
      ((e : E) × (generate 0 input ≡ call_failed e)
        × ((generate_resuming u generate cancelled input).result ≡ call_failed e))
      ⊎ ((first : Reply) × (generate 0 input ≡ returned first)
          × Resumes max_continuations 0 first.message.content first
              (generate_resuming u generate cancelled input))
  unfolding generate_resuming
  generate_resuming-Resumes = first_call (generate 0 input) refl
    where
      first_call :
          (c : Called E Reply)
          → generate 0 input ≡ c
          → ((e : E) × (generate 0 input ≡ call_failed e)
              × ((after_first u generate cancelled input c).result ≡ call_failed e))
            ⊎ ((first : Reply) × (generate 0 input ≡ returned first)
                × Resumes max_continuations 0 first.message.content first
                    (after_first u generate cancelled input c))
      first_call (call_failed x) e = inl (x, e, refl)
      first_call (returned first) e =
          inr (first, e, resume_from-Resumes max_continuations 0 first.message.content first refl)
