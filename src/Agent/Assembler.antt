-- ===== src/Agent/Assembler.antt =====
-- internal/agent/assembler.go: the signals of a run as events for the client and, in parallel, as the
-- blocks that are stored. Every method runs under a mutex from its first line to its last and is one step;
-- `events` is what was emitted, in order.
pub mod Steps
pub mod Replay
pub mod Runs
use bepaylot.Prelude.{
  ℕ, zero, suc, ◌+◌, Text, text, text_eq, trim, Bool, true, false, ◌&&◌, ◌||◌, not, Option, none,
  some, List, [], ◌∷◌, ◌++◌, ◌==◌, ltb, if◌then◌else◌,
}
use bepaylot.Agent.History.{ToolCall}
use bepaylot.Agent.TextGuard.{Guard, new_guard, feed, flush}

pub data BlockKind : Type 0 where
  text_block thinking_block tool_use tool_result : BlockKind

-- events.Event, the kinds that the assembler emits
pub data Event (Json : Type 0) : Type 0 where
  message_started : Text → Text → Text → ℕ → Event Json
  block_started : ℕ → BlockKind → Text → Text → Event Json
  text_delta : ℕ → Text → Event Json
  thinking_delta : ℕ → Text → Event Json
  input_delta : ℕ → Text → Event Json
  block_stopped : ℕ → Event Json
  tool_started : Text → Text → Json → Event Json
  tool_stopped : Text → Text → Text → Bool → Event Json
  turn_ended : Text → ℕ → ℕ → Event Json
  message_stopped : Event Json
  turn_failed : Text → Text → Event Json

-- types.ContentBlock, the fields that the assembler sets; Text and Thinking are `body`.
pub record Block (Json : Type 0) : Type 0 where
  pub idx : ℕ
  pub kind : BlockKind
  pub body : Text
  pub tool_name : Text
  pub tool_use_id : Text
  pub tool_input : Option Json
  pub is_error : Bool

-- toolRef
pub record ToolRef (Json : Type 0) : Type 0 where
  pub id : Text
  pub name : Text
  pub input : Json
  pub started : Bool
  pub done : Bool

-- What a chunk of a model's stream holds for the assembler.
pub record Chunk : Type 0 where
  pub reasoning : Text
  pub content : Text
  pub tool_calls : List ToolCall

-- citeRefs (internal/agent/citerefs.go), and what the code uses of encoding/json: parseToolArgs of a text,
-- a raw message of parsed arguments and of a text, and normalizeJSON of a raw message.
pub record Parts (Cite Json : Type 0) : Type 0 where
  pub new_cite : Cite
  pub cite_feed : Text → Cite → Cite × Text
  pub cite_flush : Cite → Text
  pub parse_args : Text → Json
  pub marshalled : Json → Json
  pub raw : Text → Json
  pub normalized : Json → Text

-- openBlock; a block of another kind than text has its guard unused.
pub record OpenBlock (Cite : Type 0) : Type 0 where
  pub index : ℕ
  pub kind : BlockKind
  pub stream_idx : ℕ
  pub tool_id : Text
  pub tool_name : Text
  pub body : Text
  pub args : Text
  pub guard : Guard
  pub cite : Cite

-- assembler
pub record Assembler (Cite Json : Type 0) : Type 0 where
  pub sse_index : ℕ
  pub order : ℕ
  pub open_block : Option (OpenBlock Cite)
  pub blocks : List (Block Json)
  pub pending_tools : List (ToolRef Json)
  pub output_tokens : ℕ
  pub input_tokens : ℕ
  pub last_finish : Text
  pub steps : ℕ
  pub json_fixes : ℕ
  pub failure : Option (Text × Text)
  pub events : List (Event Json)

-- newAssembler
abbrev pub new_assembler : {Cite Json : Type 0} → Assembler Cite Json
new_assembler = record {
  sse_index = 0;
  order = 0;
  open_block = none;
  blocks = [];
  pending_tools = [];
  output_tokens = 0;
  input_tokens = 0;
  last_finish = [];
  steps = 0;
  json_fixes = 0;
  failure = none;
  events = [];
}

abbrev pub is_nonempty : Text → Bool
is_nonempty [] = false
is_nonempty (_ ∷ _) = true

abbrev pub same_kind : BlockKind → BlockKind → Bool
same_kind text_block text_block = true
same_kind thinking_block thinking_block = true
same_kind _ _ = false

abbrev pub is_call : BlockKind → Bool
is_call tool_use = true
is_call _ = false

abbrev pub or_else : Text → Text → Text
or_else [] t = t
or_else (c ∷ s) t = c ∷ s

module _ {Cite Json : Type 0} where
  -- a.emit(e)
  abbrev pub emit : Event Json → Assembler Cite Json → Assembler Cite Json
  emit e a = record a { events = a.events ++ e ∷ [] }

  -- textLocked, on the open block
  abbrev pub write_text : Text → OpenBlock Cite → Assembler Cite Json → Assembler Cite Json
  write_text [] ob a = record a { open_block = some ob }
  write_text (c ∷ cs) ob a =
      emit (text_delta ob.index (c ∷ cs))
        (record a { open_block = some (record ob { body = ob.body ++ (c ∷ cs) }) })
