-- ===== src/Agent/History.antt =====
-- internal/agent/history.go: stored messages as a transcript for the model, trimmed to a token budget.
pub mod Pairs
pub mod Trim
pub mod Transcript
use bepaylot.Prelude.{
  ℕ, zero, suc, ◌+◌, ◌-◌, ◌/◌, Text, text, text_eq, contains_text, Bool, true, false, ◌&&◌, ◌||◌,
  Option, none, some, List, [], ◌∷◌, ◌++◌, map, ltb, leb, if◌then◌else◌,
}
use bepaylot.GoLibrary.{ℤ, pos, negsuc}
use bepaylot.TextUtil.Numbers.{byte_len}

-- schema.RoleType
pub data Role : Type 0 where
  user assistant tool system : Role

-- What the package uses of schema.ToolCall and schema.Message.
pub record ToolCall : Type 0 where
  pub index : ℕ
  pub id : Text
  pub name : Text
  pub arguments : Text

pub record Message : Type 0 where
  pub role : Role
  pub content : Text
  pub tool_calls : List ToolCall
  pub tool_call_id : Text
  pub tool_name : Text

-- A tool result of any type: nil, a string, or another value.
pub data AnyResult (Json : Type 0) : Type 0 where
  nil : AnyResult Json
  string : Text → AnyResult Json
  other : Json → AnyResult Json

pub data BlockType : Type 0 where
  text_block thinking_block tool_use tool_result : BlockType

-- types.ContentBlock
pub record ContentBlock (Json : Type 0) : Type 0 where
  pub block_type : BlockType
  pub body : Text
  pub tool_name : Text
  pub tool_use_id : Text
  pub tool_input : Json
  pub result : AnyResult Json

pub data StoredRole : Type 0 where
  user_role assistant_role other_role : StoredRole

-- types.Message
pub record Stored (Json : Type 0) : Type 0 where
  pub role : StoredRole
  pub blocks : List (ContentBlock Json)

-- approxTokens
unfoldable pub approx_tokens : Text → ℕ
unfolding byte_len
approx_tokens s = (byte_len s + 3) / 4

unfoldable pub call_tokens : List ToolCall → ℕ
unfolding approx_tokens
call_tokens [] = 0
call_tokens (c ∷ cs) = approx_tokens c.arguments + call_tokens cs

unfoldable pub message_tokens : Message → ℕ
unfolding approx_tokens call_tokens
message_tokens m = approx_tokens m.content + call_tokens m.tool_calls

-- approxMessagesTokens, of messages that are not nil
unfoldable pub approx_messages_tokens : List Message → ℕ
unfolding message_tokens
approx_messages_tokens [] = 0
approx_messages_tokens (m ∷ ms) = message_tokens m + approx_messages_tokens ms

abbrev pub result_ids : List Message → List Text
result_ids [] = []
result_ids (r ∷ rs) = r.tool_call_id ∷ result_ids rs

abbrev pub call_ids : List ToolCall → List Text
call_ids [] = []
call_ids (c ∷ cs) = c.id ∷ call_ids cs

-- The calls whose id is in `have`, numbered from `n`.
unfoldable pub kept_calls : List Text → ℕ → List ToolCall → List ToolCall
unfolding contains_text
kept_calls have n [] = []
kept_calls have n (c ∷ cs) =
    if contains_text have c.id
    then record c { index = n } ∷ kept_calls have (suc n) cs
    else kept_calls have n cs

unfoldable pub kept_results : List Text → List Message → List Message
unfolding contains_text
kept_results called [] = []
kept_results called (r ∷ rs) =
    let rest = kept_results called rs in
    if contains_text called r.tool_call_id then r ∷ rest else rest

-- pairToolCalls
unfoldable pub pair_tool_calls : List ToolCall → List Message → List ToolCall × List Message
unfolding kept_calls kept_results
pair_tool_calls calls results =
    let calls' = kept_calls (result_ids results) 0 calls in
    (calls', kept_results (call_ids calls') results)

-- The role is schema.User.
abbrev pub is_user : Message → Bool
is_user m = elim m.role [ Role.user ↦ true | _ ↦ false ]

-- The index of the last user message.
abbrev pub last_index : Option ℕ → Bool → Option ℕ
last_index (some i) u = some (suc i)
last_index none true = some 0
last_index none false = none

unfoldable pub last_user : List Message → Option ℕ
last_user [] = none
last_user (m ∷ ms) = last_index (last_user ms) (is_user m)

-- The first loop of trimHistory: with `n` messages before the last user message and `total` tokens, what
-- is left of both after the drops. An index at the end of the messages is not met, as `n` is below it.
unfoldable pub drop_over : ℕ → ℕ → ℕ → List Message → ℕ × List Message
unfolding message_tokens
drop_over budget zero total ms = (zero, ms)
drop_over budget (suc n) total [] = (suc n, [])
drop_over budget (suc n) total (m ∷ ms) =
    let rest = drop_over budget n (total - message_tokens m) ms in
    if ltb budget total then rest else (suc n, m ∷ ms)

-- The second loop: forward to a user message.
unfoldable pub skip_to_user : ℕ → List Message → List Message
skip_to_user zero ms = ms
skip_to_user (suc n) [] = []
skip_to_user (suc n) (m ∷ ms) = let rest = skip_to_user n ms in if is_user m then m ∷ ms else rest

abbrev pub trim_at : ℕ → List Message → Option ℕ → List Message
unfolding drop_over skip_to_user approx_messages_tokens
trim_at budget ms none = ms
trim_at budget ms (some n) =
    let left = drop_over budget n (approx_messages_tokens ms) ms in skip_to_user left.0 left.1

-- trimHistory
unfoldable pub trim_history : List Message → ℤ → List Message
unfolding approx_messages_tokens last_user drop_over skip_to_user
trim_history ms (negsuc b) = ms
trim_history ms (pos zero) = ms
trim_history ms (pos (suc b)) =
    if leb (approx_messages_tokens ms) (suc b) then ms else trim_at (suc b) ms (last_user ms)

-- blocksToText
unfoldable pub blocks_to_text : {Json : Type 0} → List (ContentBlock Json) → Text
blocks_to_text [] = []
blocks_to_text (b ∷ bs) =
    let rest = blocks_to_text bs in
    elim b.block_type [ BlockType.text_block ↦ b.body ++ rest | _ ↦ rest ]

-- The messages of an assistant's turn, none if it has no text, no call and no result.
abbrev pub assistant_messages : Text → List ToolCall → List Message → List Message
assistant_messages [] [] [] = []
assistant_messages content calls results =
    record {
      role = Role.assistant;
      content = content;
      tool_calls = calls;
      tool_call_id = [];
      tool_name = [];
    }
    ∷ results

-- `marshal` stands for json.Marshal, `none` on an error.
module _ {Json : Type 0} (marshal : Json → Option Text) where
  -- mustJSON; the tool input that the code passes is a map, so never the nil interface.
  abbrev pub must_json : Option Text → Text
  must_json none = text "{}"
  must_json (some s) = s

  abbrev pub marshalled : Option Text → Text
  marshalled none = []
  marshalled (some s) = s

  -- toolResultText
  abbrev pub tool_result_text : AnyResult Json → Text
  tool_result_text nil = []
  tool_result_text (string s) = s
  tool_result_text (other v) = marshalled (marshal v)

  -- The tool calls and the tool messages of an assistant message, in order; the calls from index `n` on.
  unfoldable pub use_calls : ℕ → List (ContentBlock Json) → List ToolCall
  use_calls n [] = []
  use_calls n (b ∷ bs) = elim b.block_type [
    | BlockType.tool_use ↦
        record {
          index = n;
          id = b.tool_use_id;
          name = b.tool_name;
          arguments = must_json (marshal b.tool_input);
        }
        ∷ use_calls (suc n) bs
    | _ ↦ use_calls n bs
  ]

  abbrev pub add_result : BlockType → ContentBlock Json → List Message → List Message
  add_result BlockType.tool_result b rest =
      record {
        role = Role.tool;
        content = tool_result_text b.result;
        tool_calls = [];
        tool_call_id = b.tool_use_id;
        tool_name = b.tool_name;
      }
      ∷ rest
  add_result _ b rest = rest

  unfoldable pub result_messages : List (ContentBlock Json) → List Message
  result_messages [] = []
  result_messages (b ∷ bs) = add_result b.block_type b (result_messages bs)

  abbrev pub stored_messages : StoredRole → List (ContentBlock Json) → List Message
  unfolding blocks_to_text pair_tool_calls use_calls result_messages
  stored_messages user_role bs =
      record {
        role = Role.user;
        content = blocks_to_text bs;
        tool_calls = [];
        tool_call_id = [];
        tool_name = [];
      }
      ∷ []
  stored_messages assistant_role bs =
      let paired = pair_tool_calls (use_calls 0 bs) (result_messages bs) in
      assistant_messages (blocks_to_text bs) paired.0 paired.1
  stored_messages other_role bs = []

  -- historyToMessages
  unfoldable pub history_to_messages : List (Stored Json) → List Message
  unfolding blocks_to_text pair_tool_calls use_calls result_messages
  history_to_messages [] = []
  history_to_messages (m ∷ ms) = stored_messages m.role m.blocks ++ history_to_messages ms

-- lastUserText
abbrev pub last_text : {Json : Type 0} → Option Text → Stored Json → Option Text
unfolding blocks_to_text
last_text (some t) m = some t
last_text none m = elim m.role [ StoredRole.user_role ↦ some (blocks_to_text m.blocks) | _ ↦ none ]

unfoldable pub last_user_text? : {Json : Type 0} → List (Stored Json) → Option Text
unfolding blocks_to_text
last_user_text? [] = none
last_user_text? (m ∷ ms) = last_text (last_user_text? ms) m

abbrev pub or_empty : Option Text → Text
or_empty none = []
or_empty (some t) = t

unfoldable pub last_user_text : {Json : Type 0} → List (Stored Json) → Text
unfolding last_user_text?
last_user_text ms = or_empty (last_user_text? ms)
