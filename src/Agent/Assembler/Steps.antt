-- ===== src/Agent/Assembler/Steps.antt =====
-- internal/agent/assembler.go: the methods of the assembler.
use bepaylot.Prelude.{
  ℕ, suc, ◌+◌, Text, text, text_eq, Bool, true, false, ◌&&◌, ◌||◌, not, Option, none, some, List,
  [], ◌∷◌, ◌++◌, ◌==◌, ltb, if◌then◌else◌,
}
use bepaylot.Agent.History.{ToolCall}
use bepaylot.Agent.TextGuard.{new_guard, feed, flush}
use bepaylot.Agent.Assembler.{
  BlockKind, text_block, thinking_block, tool_use, tool_result, message_started, block_started,
  thinking_delta, input_delta, block_stopped, tool_started, tool_stopped, turn_ended,
  message_stopped, turn_failed, Block, ToolRef, Chunk, Parts, OpenBlock, Assembler, same_kind,
  is_call, or_else, emit, write_text,
}

module _ (space : ℕ → Bool) (lower : Text → Text) (repair : Text → Text × ℕ) {Cite Json : Type 0}
    (parts : Parts Cite Json) where
  -- What the guard and the citations still hold of a text block.
  abbrev pub released_at_end : OpenBlock Cite → Text
  released_at_end ob =
      let (cite, released) = parts.cite_feed (flush space lower repair ob.guard).1 ob.cite in
      released ++ parts.cite_flush cite

  -- The block that is stored for an open one, by its kind.
  abbrev pub sealed_as : BlockKind → ℕ → OpenBlock Cite → Block Json
  sealed_as tool_use order ob = record {
    idx = order;
    kind = tool_use;
    body = [];
    tool_name = ob.tool_name;
    tool_use_id = ob.tool_id;
    tool_input = some (parts.parse_args ob.args);
    is_error = false;
  }
  sealed_as k order ob = record {
    idx = order;
    kind = k;
    body = ob.body;
    tool_name = [];
    tool_use_id = [];
    tool_input = none;
    is_error = false;
  }

  abbrev pub with_tool : OpenBlock Cite → List (ToolRef Json) → List (ToolRef Json)
  with_tool ob refs = elim ob.kind [
    | tool_use ↦
        refs
        ++ record {
          id = ob.tool_id;
          name = ob.tool_name;
          input = parts.marshalled (parts.parse_args ob.args);
          started = false;
          done = false;
        }
          ∷ []
    | _ ↦ refs
  ]

  -- The end of closeLocked, for the block that was open.
  abbrev pub seal : OpenBlock Cite → Assembler Cite Json → Assembler Cite Json
  seal ob a = emit (block_stopped ob.index) (record a {
    open_block = none;
    order = suc a.order;
    blocks = a.blocks ++ sealed_as ob.kind a.order ob ∷ [];
    pending_tools = with_tool ob a.pending_tools;
  })

  abbrev pub seal_open : Option (OpenBlock Cite) → Assembler Cite Json → Assembler Cite Json
  seal_open none a = a
  seal_open (some ob) a = seal ob a

  abbrev pub close_text : OpenBlock Cite → Assembler Cite Json → Assembler Cite Json
  close_text ob a =
      let a' = write_text (released_at_end ob) ob a in
      seal_open a'.open_block
        (record a' { json_fixes = a'.json_fixes + (flush space lower repair ob.guard).0.fixes })

  abbrev pub close_as : BlockKind → OpenBlock Cite → Assembler Cite Json → Assembler Cite Json
  close_as text_block ob a = close_text ob a
  close_as _ ob a = seal ob a

  abbrev pub close_block : OpenBlock Cite → Assembler Cite Json → Assembler Cite Json
  close_block ob a = close_as ob.kind ob a

  abbrev pub close_open : Option (OpenBlock Cite) → Assembler Cite Json → Assembler Cite Json
  close_open none a = a
  close_open (some ob) a = close_block ob a

  -- closeLocked
  unfoldable pub close_locked : Assembler Cite Json → Assembler Cite Json
  close_locked a = close_open a.open_block a

  -- A new open block, once none is open.
  abbrev pub start_block :
      BlockKind → ℕ → Text → Text → Assembler Cite Json → OpenBlock Cite × Assembler Cite Json
  start_block kind stream_idx id name a =
      let ob : OpenBlock Cite = record {
        index = a.sse_index;
        kind = kind;
        stream_idx = stream_idx;
        tool_id = id;
        tool_name = name;
        body = [];
        args = [];
        guard = new_guard;
        cite = parts.new_cite;
      } in
      (
        ob,
        emit (block_started ob.index kind id name)
            (record a { sse_index = suc a.sse_index; open_block = some ob }),
      )

  abbrev pub ensure_open :
      BlockKind
      → Option (OpenBlock Cite)
      → Assembler Cite Json
      → OpenBlock Cite × Assembler Cite Json
  ensure_open kind none a = start_block kind 0 [] [] a
  ensure_open kind (some ob) a =
      if same_kind ob.kind kind then (ob, a) else start_block kind 0 [] [] (close_block ob a)

  -- ensureLocked of a text or a thinking block, with the block that is open then
  unfoldable pub ensure_locked :
      BlockKind → Assembler Cite Json → OpenBlock Cite × Assembler Cite Json
  ensure_locked kind a = ensure_open kind a.open_block a

  abbrev pub think : Text → OpenBlock Cite × Assembler Cite Json → Assembler Cite Json
  think s (ob, a) =
      emit (thinking_delta ob.index s)
        (record a { open_block = some (record ob { body = ob.body ++ s }) })

  abbrev pub say : Text → OpenBlock Cite × Assembler Cite Json → Assembler Cite Json
  say s (ob, a) =
      let (guard, out) = feed space lower repair s ob.guard in
      let (cite, released) = parts.cite_feed out ob.cite in
      write_text released (record ob { guard = guard; cite = cite }) a

  -- The open block of a tool call, which an earlier chunk may have started.
  abbrev pub tool_open :
      ToolCall
      → Option (OpenBlock Cite)
      → Assembler Cite Json
      → OpenBlock Cite × Assembler Cite Json
  tool_open tc none a = start_block tool_use tc.index tc.id tc.name a
  tool_open tc (some ob) a =
      if is_call ob.kind && ob.stream_idx == tc.index
      then (ob, a)
      else start_block tool_use tc.index tc.id tc.name (close_block ob a)

  abbrev pub add_args : Text → OpenBlock Cite → Assembler Cite Json → Assembler Cite Json
  add_args [] ob a = record a { open_block = some ob }
  add_args (c ∷ cs) ob a =
      emit (input_delta ob.index (c ∷ cs))
        (record a { open_block = some (record ob { args = ob.args ++ (c ∷ cs) }) })

  abbrev pub call_tool : ToolCall → OpenBlock Cite × Assembler Cite Json → Assembler Cite Json
  call_tool tc (ob, a) =
      add_args tc.arguments
        (record ob { tool_id = or_else ob.tool_id tc.id; tool_name = or_else ob.tool_name tc.name })
        a

  unfoldable pub tool_chunks : List ToolCall → Assembler Cite Json → Assembler Cite Json
  tool_chunks [] a = a
  tool_chunks (tc ∷ tcs) a = tool_chunks tcs (call_tool tc (tool_open tc a.open_block a))

  abbrev pub reasoning_chunk : Text → Assembler Cite Json → Assembler Cite Json
  reasoning_chunk [] a = a
  reasoning_chunk (c ∷ cs) a = think (c ∷ cs) (ensure_locked thinking_block a)

  abbrev pub content_chunk : Text → Assembler Cite Json → Assembler Cite Json
  content_chunk [] a = a
  content_chunk (c ∷ cs) a = say (c ∷ cs) (ensure_locked text_block a)

  -- modelChunk, of a chunk that is not nil
  unfoldable pub model_chunk : Chunk → Assembler Cite Json → Assembler Cite Json
  model_chunk m a =
      tool_chunks m.tool_calls (content_chunk m.content (reasoning_chunk m.reasoning a))

  -- messageStart
  unfoldable pub message_start : Text → Text → Text → ℕ → Assembler Cite Json → Assembler Cite Json
  message_start message_id model session_id input_tokens a =
      emit (message_started message_id model session_id input_tokens)
        (record a { input_tokens = input_tokens })

  abbrev pub count_usage : Option (ℕ × ℕ) → Assembler Cite Json → Assembler Cite Json
  count_usage none a = a
  count_usage (some (prompt, completion)) a = record a {
    input_tokens = if ltb a.input_tokens prompt then prompt else a.input_tokens;
    output_tokens = a.output_tokens + completion;
  }

  -- modelCallDone; the usage is that of the prompt and of the completion.
  unfoldable pub model_call_done : Text → Option (ℕ × ℕ) → Assembler Cite Json → Assembler Cite Json
  model_call_done finish usage a =
      let a' = close_locked (record a { steps = suc a.steps }) in
      count_usage usage (record a' { last_finish = or_else finish a'.last_finish })

  -- The first of the tools that passes the test, and the tools with it changed.
  unfoldable pub first_ref :
      (ToolRef Json → Bool)
      → (ToolRef Json → ToolRef Json)
      → List (ToolRef Json)
      → Option (ToolRef Json × List (ToolRef Json))
  first_ref test change [] = none
  first_ref test change (r ∷ rs) =
      let rest = first_ref test change rs in
      if test r
      then some (r, change r ∷ rs)
      else elim rest [ none ↦ none | some x ↦ some (x.0, r ∷ x.1) ]

  abbrev pub matches_args : Text → Text → ToolRef Json → Bool
  matches_args name norm r =
      text_eq r.name name
      && (not r.started && (text_eq norm [] || text_eq (parts.normalized r.input) norm))

  abbrev pub begun : ToolRef Json → ToolRef Json
  begun r = record r { started = true }

  abbrev pub or_ref :
      Option (ToolRef Json × List (ToolRef Json))
      → Option (ToolRef Json × List (ToolRef Json))
      → Option (ToolRef Json × List (ToolRef Json))
  or_ref none o = o
  or_ref (some x) o = some x

  -- matchPending, with the tool marked as started
  unfoldable pub match_pending :
      Text → Text → List (ToolRef Json) → Option (ToolRef Json × List (ToolRef Json))
  match_pending name args refs =
      or_ref (first_ref (matches_args name (parts.normalized (parts.raw args))) begun refs)
        (first_ref (λ r. text_eq r.name name && not r.started) begun refs)

  abbrev pub start_tool :
      Text
      → Text
      → Assembler Cite Json
      → Option (ToolRef Json × List (ToolRef Json))
      → Assembler Cite Json
  start_tool name args a none = emit (tool_started name [] (parts.raw args)) (record a {
    pending_tools =
        a.pending_tools
        ++ record { id = []; name = name; input = parts.raw args; started = true; done = false }
          ∷ [];
  })
  start_tool name args a (some (r, refs)) =
      emit (tool_started r.name r.id r.input) (record a { pending_tools = refs })

  -- toolStart
  unfoldable pub tool_start : Text → Text → Assembler Cite Json → Assembler Cite Json
  tool_start name args a = start_tool name args a (match_pending name args a.pending_tools)

  -- matchStarted, with the tool marked as done
  unfoldable pub match_started :
      Text → List (ToolRef Json) → Option (ToolRef Json × List (ToolRef Json))
  match_started name refs =
      first_ref (λ r. text_eq r.name name && (r.started && not r.done))
        (λ r. record r { done = true }) refs

  abbrev pub stop_tool :
      Text → Text → Bool → Text → List (ToolRef Json) → Assembler Cite Json → Assembler Cite Json
  stop_tool name response is_error id refs a =
      emit (tool_stopped name id response is_error) (record a {
        order = suc a.order;
        pending_tools = refs;
        blocks =
            a.blocks
            ++ record {
              idx = a.order;
              kind = tool_result;
              body = response;
              tool_name = name;
              tool_use_id = id;
              tool_input = none;
              is_error = is_error;
            }
              ∷ [];
      })

  abbrev pub end_tool :
      Text
      → Text
      → Bool
      → Assembler Cite Json
      → Option (ToolRef Json × List (ToolRef Json))
      → Assembler Cite Json
  end_tool name response is_error a none = stop_tool name response is_error [] a.pending_tools a
  end_tool name response is_error a (some (r, refs)) = stop_tool name response is_error r.id refs a

  -- toolEnd
  unfoldable pub tool_end : Text → Text → Bool → Assembler Cite Json → Assembler Cite Json
  tool_end name response is_error a =
      end_tool name response is_error a (match_started name a.pending_tools)

  -- mapFinishReason
  unfoldable pub map_finish_reason : Text → Text
  map_finish_reason r =
      let l = lower r in
      if text_eq l (text "stop") || (text_eq l (text "end_turn") || text_eq l [])
      then (if text_eq r [] then [] else text "end_turn")
      else if text_eq l (text "length") || text_eq l (text "max_tokens")
      then text "max_tokens"
      else if text_eq l (text "tool_calls") || text_eq l (text "tool_use")
      then text "end_turn"
      else if text_eq l (text "content_filter")
      then text "stop_sequence"
      else r

  -- finish
  unfoldable pub finish : Text → Assembler Cite Json → Assembler Cite Json
  finish default_finish a =
      let a' = close_locked a in
      record a' { last_finish = or_else (map_finish_reason a'.last_finish) default_finish }

  -- interrupt
  unfoldable pub interrupt : Assembler Cite Json → Assembler Cite Json
  interrupt a = record (close_locked a) { failure = none; last_finish = text "interrupted" }

  -- fail
  unfoldable pub fail : Text → Text → Assembler Cite Json → Assembler Cite Json
  fail err_type message a = close_locked (record a { failure = some (err_type, message) })

  abbrev pub emit_end : Option (Text × Text) → Assembler Cite Json → Assembler Cite Json
  emit_end (some (err_type, message)) a = emit (turn_failed err_type message) a
  emit_end none a =
      emit message_stopped (emit (turn_ended a.last_finish a.input_tokens a.output_tokens) a)

  -- emitStop
  unfoldable pub emit_stop : Assembler Cite Json → Assembler Cite Json
  emit_stop a = emit_end a.failure a
