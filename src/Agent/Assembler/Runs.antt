-- ===== src/Agent/Assembler/Runs.antt =====
-- internal/agent/assembler.go: the events and the blocks over the sequences of calls that a run makes.
use bepaylot.Prelude.{
  ℕ, suc, ◌≡◌, refl, sym, ap, ◌∙◌, Text, Bool, true, ◌&&◌, Option, none, some, List, [], ◌∷◌, ◌==◌,
  if-intro, arith,
}
use bepaylot.Agent.History.{ToolCall}
use bepaylot.Agent.TextGuard.{feed}
use bepaylot.Agent.Assembler.{
  BlockKind, text_block, thinking_block, tool_use, tool_result, Event, tool_stopped, turn_ended,
  ToolRef, Chunk, Parts, OpenBlock, Assembler, new_assembler, emit, same_kind, is_call, or_else,
}
use bepaylot.Agent.Assembler.Steps.{
  close_block, close_locked, ensure_open, ensure_locked, tool_open, call_tool, tool_chunks,
  reasoning_chunk, content_chunk, model_chunk, message_start, count_usage, model_call_done,
  start_tool, tool_start, stop_tool, end_tool, tool_end, finish, interrupt, fail, emit_end,
  emit_stop,
}
use bepaylot.Agent.Assembler.Replay.{
  Seen, View, client_step, replay, replay_from, seen_block, seen_open, view_of, Agrees, AgreesWith,
  Agrees-emit, write_text-Agrees, think-Agrees, add_args-Agrees, start_block-AgreesWith,
  close_as-Agrees, Agrees-open, close_locked-Agrees, text-not_tool, thinking-not_tool, map-snoc,
}

same-not_tool : (k kind : BlockKind) → same_kind k kind ≡ true → k ≡ tool_use → ⊥
same-not_tool tool_use kind h e = cc
same-not_tool text_block kind h e = cc
same-not_tool thinking_block kind h e = cc
same-not_tool tool_result kind h e = cc

call_kind : (k : BlockKind) → is_call k ≡ true → k ≡ tool_use
call_kind tool_use h = refl
call_kind text_block h = cc
call_kind thinking_block h = cc
call_kind tool_result h = cc

module _ (space : ℕ → Bool) (lower : Text → Text) (repair : Text → Text × ℕ) {Cite Json : Type 0}
    (parts : Parts Cite Json) where
  close_block-Agrees :
      (ob : OpenBlock Cite) (a : Assembler Cite Json)
      → a.open_block ≡ some ob
      → Agrees space lower repair parts a
      → Agrees space lower repair parts (close_block space lower repair parts ob a)
  close_block-Agrees ob a e h =
      close_as-Agrees space lower repair parts ob.kind ob a refl
        (Agrees-open space lower repair parts (some ob) a e h)

  -- A block that takes text is open.
  abbrev Speaks : OpenBlock Cite × Assembler Cite Json → Type 0
  Speaks r = AgreesWith space lower repair parts r × (r.0.kind ≡ tool_use → ⊥)

  ensure_open-Speaks :
      (kind : BlockKind) (o : Option (OpenBlock Cite)) (a : Assembler Cite Json)
      → (kind ≡ tool_use → ⊥)
      → a.open_block ≡ o
      → Agrees space lower repair parts a
      → Speaks (ensure_open space lower repair parts kind o a)
  ensure_open-Speaks kind none a k e h =
      (start_block-AgreesWith space lower repair parts kind 0 [] [] a h, k)
  ensure_open-Speaks kind (some ob) a k e h =
      if-intro Speaks (same_kind ob.kind kind) _ _
        (λ s. (Agrees-open space lower repair parts (some ob) a e h, same-not_tool ob.kind kind s))
        (λ s. (
          start_block-AgreesWith space lower repair parts kind 0 [] []
              (close_block space lower repair parts ob a) (close_block-Agrees ob a e h),
          k,
        ))

  -- A block of a tool call is open.
  abbrev Calls : OpenBlock Cite × Assembler Cite Json → Type 0
  Calls r = AgreesWith space lower repair parts r × (r.0.kind ≡ tool_use)

  tool_open-Calls :
      (tc : ToolCall) (o : Option (OpenBlock Cite)) (a : Assembler Cite Json)
      → a.open_block ≡ o
      → Agrees space lower repair parts a
      → Calls (tool_open space lower repair parts tc o a)
  tool_open-Calls tc none a e h =
      (start_block-AgreesWith space lower repair parts tool_use tc.index tc.id tc.name a h, refl)
  tool_open-Calls tc (some ob) a e h =
      if-intro Calls (is_call ob.kind && ob.stream_idx == tc.index) _ _
        (λ s. (
          Agrees-open space lower repair parts (some ob) a e h,
          call_kind ob.kind (ground (arith, s)),
        ))
        (λ s. (
          start_block-AgreesWith space lower repair parts tool_use tc.index tc.id tc.name
              (close_block space lower repair parts ob a) (close_block-Agrees ob a e h),
          refl,
        ))

  call_tool-Agrees :
      (tc : ToolCall) (r : OpenBlock Cite × Assembler Cite Json)
      → Calls r
      → Agrees space lower repair parts (call_tool space lower repair parts tc r)
  call_tool-Agrees tc (ob, a) (h, k) =
      add_args-Agrees space lower repair parts tc.arguments
        (record ob { tool_id = or_else ob.tool_id tc.id; tool_name = or_else ob.tool_name tc.name })
        a k h

  tool_chunks-Agrees :
      (tcs : List ToolCall) (a : Assembler Cite Json)
      → Agrees space lower repair parts a
      → Agrees space lower repair parts (tool_chunks space lower repair parts tcs a)
  unfolding tool_chunks
  tool_chunks-Agrees [] a h = h
  tool_chunks-Agrees (tc ∷ tcs) a h =
      let r = tool_open space lower repair parts tc a.open_block a in
      tool_chunks-Agrees tcs (call_tool space lower repair parts tc r)
        (call_tool-Agrees tc r (tool_open-Calls tc a.open_block a refl h))

  reasoning_chunk-Agrees :
      (s : Text) (a : Assembler Cite Json)
      → Agrees space lower repair parts a
      → Agrees space lower repair parts (reasoning_chunk space lower repair parts s a)
  unfolding ensure_locked
  reasoning_chunk-Agrees [] a h = h
  reasoning_chunk-Agrees (c ∷ cs) a h =
      let r = ensure_open space lower repair parts thinking_block a.open_block a in
      let speaks =
        ensure_open-Speaks thinking_block a.open_block a
          (thinking-not_tool space lower repair parts thinking_block refl) refl h in
      think-Agrees space lower repair parts (c ∷ cs) r.0 r.1 speaks.1 speaks.0

  content_chunk-Agrees :
      (s : Text) (a : Assembler Cite Json)
      → Agrees space lower repair parts a
      → Agrees space lower repair parts (content_chunk space lower repair parts s a)
  unfolding ensure_locked
  content_chunk-Agrees [] a h = h
  content_chunk-Agrees (c ∷ cs) a h =
      let r = ensure_open space lower repair parts text_block a.open_block a in
      let speaks =
        ensure_open-Speaks text_block a.open_block a
          (text-not_tool space lower repair parts text_block refl) refl h in
      let (guard, out) = feed space lower repair (c ∷ cs) r.0.guard in
      let (cite, released) = parts.cite_feed out r.0.cite in
      write_text-Agrees space lower repair parts released
        (record r.0 { guard = guard; cite = cite }) r.1 speaks.1 speaks.0

  -- The calls of a run, in any order, and what it has come to.
  pub data Runs : Assembler Cite Json → Type 0 where
    begun : Runs new_assembler
    started :
        {a : Assembler Cite Json} (message_id model session_id : Text) (n : ℕ)
        → Runs a
        → Runs (message_start space lower repair parts message_id model session_id n a)
    chunked :
        {a : Assembler Cite Json} (m : Chunk)
        → Runs a
        → Runs (model_chunk space lower repair parts m a)
    called :
        {a : Assembler Cite Json} (reason : Text) (usage : Option (ℕ × ℕ))
        → Runs a
        → Runs (model_call_done space lower repair parts reason usage a)
    tool_begun :
        {a : Assembler Cite Json} (name args : Text)
        → Runs a
        → Runs (tool_start space lower repair parts name args a)
    tool_over :
        {a : Assembler Cite Json} (name response : Text) (is_error : Bool)
        → Runs a
        → Runs (tool_end space lower repair parts name response is_error a)
    finished :
        {a : Assembler Cite Json} (reason : Text)
        → Runs a
        → Runs (finish space lower repair parts reason a)
    interrupted : {a : Assembler Cite Json} → Runs a → Runs (interrupt space lower repair parts a)
    failed :
        {a : Assembler Cite Json} (kind message : Text)
        → Runs a
        → Runs (fail space lower repair parts kind message a)
    stopped : {a : Assembler Cite Json} → Runs a → Runs (emit_stop space lower repair parts a)

  -- An event that a client does not show, of a state with the same blocks.
  Agrees-hidden :
      (a b : Assembler Cite Json) (e : Event Json)
      → Agrees space lower repair parts a
      → b.events ≡ a.events
      → view_of b ≡ view_of a
      → ((v : View Json) → client_step parts.parse_args e v ≡ v)
      → Agrees space lower repair parts (emit e b)
  Agrees-hidden a b e h l v s =
      Agrees-emit space lower repair parts a b e h l (s (view_of a) ∙ sym v)

  count_usage-Agrees :
      (usage : Option (ℕ × ℕ)) (a : Assembler Cite Json)
      → Agrees space lower repair parts a
      → Agrees space lower repair parts (count_usage space lower repair parts usage a)
  count_usage-Agrees none a h = h
  count_usage-Agrees (some u) a h = h

  start_tool-Agrees :
      (name args : Text) (a : Assembler Cite Json) (o : Option (ToolRef Json × List (ToolRef Json)))
      → Agrees space lower repair parts a
      → Agrees space lower repair parts (start_tool space lower repair parts name args a o)
  unfolding client_step
  start_tool-Agrees name args a none h =
      Agrees-hidden a
        (record (start_tool space lower repair parts name args a none) { events = a.events }) _ h
        refl refl (λ v. refl)
  start_tool-Agrees name args a (some x) h =
      Agrees-hidden a
        (record (start_tool space lower repair parts name args a (some x)) { events = a.events }) _
        h refl refl (λ v. refl)

  stop_tool-Agrees :
      (name response : Text) (is_error : Bool) (id : Text) (refs : List (ToolRef Json))
      (a : Assembler Cite Json)
      → Agrees space lower repair parts a
      → Agrees space lower repair parts
          (stop_tool space lower repair parts name response is_error id refs a)
  unfolding client_step
  stop_tool-Agrees name response is_error id refs a h =
      Agrees-emit space lower repair parts a
        (record (stop_tool space lower repair parts name response is_error id refs a) {
          events = a.events;
        })
        (tool_stopped name id response is_error) h refl
        (ap (λ (l : List (Seen Json)). record { complete = l; current = seen_open a.open_block })
          (sym (map-snoc seen_block a.blocks _)))

  end_tool-Agrees :
      (name response : Text) (is_error : Bool) (a : Assembler Cite Json)
      (o : Option (ToolRef Json × List (ToolRef Json)))
      → Agrees space lower repair parts a
      → Agrees space lower repair parts
          (end_tool space lower repair parts name response is_error a o)
  end_tool-Agrees name response is_error a none h =
      stop_tool-Agrees name response is_error [] a.pending_tools a h
  end_tool-Agrees name response is_error a (some (r, refs)) h =
      stop_tool-Agrees name response is_error r.id refs a h

  emit_end-Agrees :
      (o : Option (Text × Text)) (a : Assembler Cite Json)
      → Agrees space lower repair parts a
      → Agrees space lower repair parts (emit_end space lower repair parts o a)
  unfolding client_step
  emit_end-Agrees (some (kind, message)) a h = Agrees-hidden a a _ h refl refl (λ v. refl)
  emit_end-Agrees none a h =
      Agrees-hidden (emit (turn_ended a.last_finish a.input_tokens a.output_tokens) a)
        (emit (turn_ended a.last_finish a.input_tokens a.output_tokens) a) _
        (Agrees-hidden a a _ h refl refl (λ v. refl)) refl refl (λ v. refl)

  -- Whatever the calls of a run and their order, a client that puts the emitted events together has
  -- exactly the blocks that are stored, in their order, with the texts and the inputs of tools, and the
  -- block that is open with its text so far.
  pub Runs-Agrees :
      (a : Assembler Cite Json) → Runs a → replay parts.parse_args a.events ≡ view_of a
  unfolding replay_from message_start model_chunk model_call_done tool_start tool_end finish
      interrupt fail emit_stop client_step
  Runs-Agrees a begun = refl
  Runs-Agrees a (started {a = b} message_id model session_id n r) =
      Agrees-hidden b (record b { input_tokens = n }) _ (Runs-Agrees b r) refl refl (λ v. refl)
  Runs-Agrees a (chunked {a = b} m r) =
      let thought = reasoning_chunk space lower repair parts m.reasoning b in
      tool_chunks-Agrees m.tool_calls (content_chunk space lower repair parts m.content thought) (
        content_chunk-Agrees m.content thought
          (reasoning_chunk-Agrees m.reasoning b (Runs-Agrees b r)))
  Runs-Agrees a (called {a = b} reason usage r) =
      let c = close_locked space lower repair parts (record b { steps = suc b.steps }) in
      count_usage-Agrees usage (record c { last_finish = or_else reason c.last_finish })
        (close_locked-Agrees space lower repair parts (record b { steps = suc b.steps })
          (Runs-Agrees b r))
  Runs-Agrees a (tool_begun {a = b} name args r) = start_tool-Agrees name args b _ (Runs-Agrees b r)
  Runs-Agrees a (tool_over {a = b} name response is_error r) =
      end_tool-Agrees name response is_error b _ (Runs-Agrees b r)
  Runs-Agrees a (finished {a = b} reason r) =
      close_locked-Agrees space lower repair parts b (Runs-Agrees b r)
  Runs-Agrees a (interrupted {a = b} r) =
      close_locked-Agrees space lower repair parts b (Runs-Agrees b r)
  Runs-Agrees a (failed {a = b} kind message r) =
      close_locked-Agrees space lower repair parts (record b { failure = some (kind, message) })
        (Runs-Agrees b r)
  Runs-Agrees a (stopped {a = b} r) = emit_end-Agrees b.failure b (Runs-Agrees b r)
