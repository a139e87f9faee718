-- ===== src/Tests/AgentTests.antt =====
-- internal/agent on concrete streams, inboxes, registries and histories.
use bepaylot.Prelude.{
  ℕ, ◌≡◌, ◌≤◌, length, inl, refl, Text, text, text_eq, contains_text, true, false, List, [], ◌∷◌,
  ◌++◌, map, All, arith, some, has_prefix, trim, trim_left, trim_right, contains_rune,
}
use bepaylot.GoLibrary.{pos}
use bepaylot.Agent.TextGuard.{
  new_guard, feed, feed_all, is_blank, feed_from, consume, consume_at, hold_or_release,
  might_start_region, might_start, start_or_pass, starts_raw_json, open_raw, after_scan, scan_raw,
  scan_rune, end_raw, flush, flush_at,
}
use bepaylot.Agent.TextGuard.Feed.{feed_all-joined, PlainText}
use bepaylot.Agent.TextGuard.Account.{Repaired}
use bepaylot.Agent.TextGuard.Lossless.{delivered, feed_all-flush}
use bepaylot.Agent.Steer.{
  SteerMsg, Steerer, push, apply, close, RunRegistry, new_registry, acquire, release, find_run,
  delete_run, is_stop_request, stop_words,
}
use bepaylot.Agent.Steer.Replay.{apply-append, Merged}
use bepaylot.Agent.Steer.Delivery.{Kept, Reaches-Kept, started, pushed, applied, closed_off}
use bepaylot.Agent.Steer.Registry.{
  acquire-acquire, release-acquire, Freed, at_once, acquires, releases,
}
use bepaylot.Agent.History.{
  Role, Message, ToolCall, approx_messages_tokens, message_tokens, approx_tokens, call_tokens,
  last_user, drop_over, skip_to_user, trim_history, pair_tool_calls, call_ids, result_ids,
  BlockType, ContentBlock, Stored, StoredRole, AnyResult, history_to_messages, blocks_to_text,
  kept_calls, kept_results, use_calls, result_messages,
}
use bepaylot.Agent.History.Transcript.{IsTranscript, history_to_messages-IsTranscript}
use bepaylot.Agent.History.Trim.{Trimmed, trim_history-Trimmed}
use bepaylot.Agent.History.Pairs.{pair_tool_calls_lem, pair_tool_calls-NumberedFrom, NumberedFrom}
use bepaylot.TextUtil.{fields_from}
use bepaylot.TextUtil.Numbers.{byte_len}
use bepaylot.Tests.Sample.{ascii, space, upper_rune, lower_rune}

-- A repair that one can see: it writes a region in capitals.
abbrev shouted : Text → Text × ℕ
shouted s = (map upper_rune s, 1)

abbrev chunks : List Text
chunks = text "{a" ∷ text " }\nb" ∷ []

blank_is_space : (r : ℕ) → is_blank r ≡ true → space r ≡ true
blank_is_space r h = ground arith

plain_chunks : All (PlainText space (map lower_rune) shouted blank_is_space) chunks
plain_chunks =
    ((λ a b. cc, (λ a b. cc, tt)), ((λ a b. refl, (λ a b. cc, (λ a b. cc, (λ a b. cc, tt)))), tt))

feed_all-joined_example :
    feed_all space (map lower_rune) shouted chunks new_guard
    ≡ feed space (map lower_rune) shouted (text "{a }\nb") new_guard
feed_all-joined_example =
    feed_all-joined space (map lower_rune) shouted blank_is_space chunks plain_chunks

-- A turn of two steps, which gets a note after them.
abbrev note : SteerMsg ℕ
note = record { body = text "wait"; row = 7 }

abbrev shown : Text → Text
shown s = s

abbrev steps : List Text
steps = text "plan" ∷ text "act" ∷ []

abbrev noted : Steerer ℕ Text
noted = record { closed = false; pending = note ∷ []; placed = []; taken = 1 }

apply-append_example :
    (apply shown (text "plan" ∷ text "act" ∷ text "end" ∷ []) (apply shown steps noted).0).1
    ≡ (apply shown steps noted).1 ++ text "end" ∷ []
apply-append_example = apply-append shown steps noted tt (text "end") []

abbrev ended : Steerer ℕ Text
ended = record { closed = true; pending = []; placed = []; taken = 1 }

Reaches-Kept_example :
    Kept shown 2 ended (note ∷ []) (note ∷ [])
    × ((input : List Text) → 2 ≤ length input → Merged input [] (apply shown input ended).1)
unfolding push close apply
Reaches-Kept_example =
    Reaches-Kept shown
      (closed_off (pushed note (applied 2 steps (omega arith) (omega arith) started)))

-- A session 4 whose first turn is running.
abbrev running : RunRegistry
running = record { runs = (4, 0) ∷ []; fresh = 1; done = [] }

-- Another session's turn is acquired and released in between.
acquire-acquire_example :
    acquire 4 (record { runs = (4, 0) ∷ []; fresh = 2; done = 1 ∷ [] })
    ≡ (record { runs = (4, 0) ∷ []; fresh = 2; done = 1 ∷ [] }, 0, false)
unfolding acquire release find_run delete_run contains_rune
acquire-acquire_example =
    acquire-acquire 4 new_registry (record { runs = (4, 0) ∷ []; fresh = 2; done = 1 ∷ [] })
      (releases 5 1 (inl (λ e. omega (arith, e))) refl (acquires 5 at_once))

release-acquire_example : Freed 5 4 running (acquire 5 running)
unfolding find_run
release-acquire_example = release-acquire 5 4 running tt refl (omega arith)

stop_asked : is_stop_request ascii (text "Stop, please!") ≡ true
unfolding is_stop_request fields_from contains_text text_eq stop_words
stop_asked = refl

abbrev said : Role → Text → Message
said r t = record { role = r; content = t; tool_calls = []; tool_call_id = []; tool_name = [] }

abbrev history : List Message
history =
    said Role.user (text "hello")
    ∷ said Role.assistant (text "hi")
    ∷ said Role.user (text "more")
    ∷ []

trim_history-Trimmed_example : Trimmed 2 2 history (trim_history history (pos 2))
unfolding last_user approx_messages_tokens message_tokens approx_tokens call_tokens byte_len
trim_history-Trimmed_example = trim_history-Trimmed history 1 2 refl (omega arith)

trimmed_history : trim_history history (pos 2) ≡ said Role.user (text "more") ∷ []
unfolding trim_history last_user approx_messages_tokens message_tokens approx_tokens call_tokens
    byte_len drop_over skip_to_user
trimmed_history = refl

-- A call with a result, and a call that was cut off.
abbrev calls : List ToolCall
calls =
    record { index = 0; id = text "a"; name = text "search"; arguments = [] }
    ∷ record { index = 1; id = text "b"; name = text "read"; arguments = [] }
    ∷ []

abbrev results : List Message
results =
    record {
      role = Role.tool;
      content = [];
      tool_calls = [];
      tool_call_id = text "b";
      tool_name = text "read";
    }
    ∷ []

pair_tool_calls_lem_example :
    (contains_text (call_ids (pair_tool_calls calls results).0) (text "a") ≡ false)
    × (contains_text (result_ids (pair_tool_calls calls results).1) (text "a") ≡ false)
unfolding contains_text text_eq
pair_tool_calls_lem_example = pair_tool_calls_lem calls results (text "a")

pair_tool_calls-NumberedFrom_example : NumberedFrom 0 (pair_tool_calls calls results).0
pair_tool_calls-NumberedFrom_example = pair_tool_calls-NumberedFrom calls results

-- A stored question, and an answer that searched and then lost its second call.
abbrev block : BlockType → Text → Text → ContentBlock Text
block t body id = record {
  block_type = t;
  body = body;
  tool_name = text "search";
  tool_use_id = id;
  tool_input = text "{}";
  result = AnyResult.string (text "found");
}

abbrev stored : List (Stored Text)
stored =
    record { role = StoredRole.user_role; blocks = block BlockType.text_block (text "why") [] ∷ [] }
    ∷ record {
      role = StoredRole.assistant_role;
      blocks =
          block BlockType.tool_use [] (text "a")
          ∷ block BlockType.tool_result [] (text "a")
          ∷ block BlockType.tool_use [] (text "b")
          ∷ [];
    }
    ∷ []

history_to_messages-IsTranscript_example :
    IsTranscript [] (trim_history (history_to_messages some stored) (pos 100))
history_to_messages-IsTranscript_example = history_to_messages-IsTranscript some stored (pos 100)

stored_history :
    history_to_messages some stored
    ≡ said Role.user (text "why")
      ∷ record {
        role = Role.assistant;
        content = [];
        tool_calls =
            record { index = 0; id = text "a"; name = text "search"; arguments = text "{}" } ∷ [];
        tool_call_id = [];
        tool_name = [];
      }
      ∷ record {
        role = Role.tool;
        content = text "found";
        tool_calls = [];
        tool_call_id = text "a";
        tool_name = text "search";
      }
      ∷ []
unfolding history_to_messages blocks_to_text pair_tool_calls kept_calls kept_results use_calls
    result_messages contains_text text_eq
stored_history = refl

feed_all-flush_example :
    Repaired space
      (map lower_rune)
      shouted
      (text "{a }\nb")
      (delivered space (map lower_rune) shouted chunks)
feed_all-flush_example = feed_all-flush space (map lower_rune) shouted chunks

-- The region is repaired, the line after it is not.
delivered-chunks : delivered space (map lower_rune) shouted chunks ≡ text "{A }\nb"
unfolding feed_all feed feed_from consume consume_at hold_or_release might_start_region might_start
    start_or_pass starts_raw_json open_raw after_scan scan_raw scan_rune end_raw flush flush_at
    has_prefix trim trim_left trim_right contains_rune
delivered-chunks = refl
