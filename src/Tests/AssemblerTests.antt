-- ===== src/Tests/AssemblerTests.antt =====
-- internal/agent/assembler.go on a chunk with a thought, a text and a tool call.
use bepaylot.Prelude.{
  ℕ, ◌≡◌, refl, Text, text, none, List, [], ◌∷◌, map, has_prefix, trim, trim_left, trim_right,
  contains_rune,
}
use bepaylot.Agent.Assembler.{
  BlockKind, text_block, thinking_block, tool_use, Block, Chunk, Parts, Assembler, new_assembler,
}
use bepaylot.Agent.Assembler.Steps.{
  model_chunk, model_call_done, tool_chunks, ensure_locked, close_locked,
}
use bepaylot.Agent.Assembler.Replay.{replay, view_of}
use bepaylot.Agent.Assembler.Runs.{Runs-Agrees, begun, chunked, called}
use bepaylot.Agent.TextGuard.{
  feed, feed_from, consume, consume_at, hold_or_release, might_start_region, might_start, flush,
  flush_at,
}
use bepaylot.Tests.Sample.{space, lower_rune}

-- Citations are left as they are, and JSON is its text.
abbrev parts : Parts (Unit {0}) Text
parts = record {
  new_cite = tt;
  cite_feed = λ s c. (tt, s);
  cite_flush = λ c. [];
  parse_args = λ s. s;
  marshalled = λ j. j;
  raw = λ s. s;
  normalized = λ j. j;
}

abbrev plain : Text → Text × ℕ
plain s = (s, 0)

abbrev chunk : Chunk
chunk = record {
  reasoning = text "hm";
  content = text "So";
  tool_calls =
      record { index = 0; id = text "a"; name = text "search"; arguments = text "{}" } ∷ [];
}

abbrev after_call : Assembler (Unit {0}) Text
after_call =
    model_call_done space (map lower_rune) plain parts [] none
      (model_chunk space (map lower_rune) plain parts chunk new_assembler)

Runs-Agrees_example : replay parts.parse_args after_call.events ≡ view_of after_call
Runs-Agrees_example =
    Runs-Agrees space (map lower_rune) plain parts after_call (called [] none (chunked chunk begun))

abbrev kinds : List (Block Text) → List BlockKind
kinds bs = map (λ (b : Block Text). b.kind) bs

three_blocks : kinds after_call.blocks ≡ thinking_block ∷ text_block ∷ tool_use ∷ []
unfolding model_chunk model_call_done tool_chunks ensure_locked close_locked feed feed_from consume
    consume_at hold_or_release might_start_region might_start flush flush_at has_prefix trim
    trim_left trim_right contains_rune
three_blocks = refl
