-- ===== src/Agent/Continue.antt =====
-- internal/agent/continue.go: a reply that hit the output limit is continued by further calls. The model
-- is a parameter that answers the call with a number, and so is `cancelled`, which says whether the
-- context is done (ctx.Err() != nil) after that call.
pub mod Pieces
pub mod Streamed
use bepaylot.Prelude.{
  ℕ, zero, suc, ◌+◌, Text, text, lit, text_eq, contains_text, Bool, true, false, ◌&&◌, ◌||◌, not,
  Option, none, some, List, [], ◌∷◌, ◌++◌, ltb, leb, if◌then◌else◌,
}
use bepaylot.GoLibrary.{Unicode}
use bepaylot.Agent.History.{Message, ToolCall, Role}
use bepaylot.Llm.Retry.{Called, returned, call_failed, Stream}

-- A schema.Message with the finish reason that finishOf reads, which is empty without ResponseMeta.
pub record Reply : Type 0 where
  pub message : Message
  pub finish : Text

-- continueNotice
unfoldable pub continue_notice : Text
unfolding lit
continue_notice =
    lit
      "[Notice from the system] Your previous reply was cut off by the output length limit. Continue it from the exact character where it stopped: no preamble, no apology, and do not repeat anything you already wrote. If you were inside a JSON document, a code block or a table, carry on inside it."

-- maxContinuations
abbrev pub max_continuations : ℕ
max_continuations = 4

-- schema.UserMessage(s), and schema.AssistantMessage(s, nil)
abbrev pub user_message : Text → Message
user_message s = record {
  role = Role.user;
  content = s;
  tool_calls = [];
  tool_call_id = [];
  tool_name = [];
}

abbrev pub assistant_message : Text → Message
assistant_message s = record {
  role = Role.assistant;
  content = s;
  tool_calls = [];
  tool_call_id = [];
  tool_name = [];
}

-- resumeTranscript
abbrev pub resume_transcript : List Message → Text → List Message
resume_transcript input partial =
    input ++ (assistant_message partial ∷ user_message continue_notice ∷ [])

-- `len(calls) > 0`
abbrev pub any_call : List ToolCall → Bool
any_call [] = false
any_call (c ∷ cs) = true

-- What generateResuming comes to, and the number of the last call made.
pub record Resumed (E : Type 0) : Type 0 where
  pub result : Called E Reply
  pub last : ℕ

-- What forward comes to: the chunks it sent, the collected text, the last finish reason, whether a chunk
-- called a tool, whether the consumer went away, and the error of the source.
pub record Forwarded (E : Type 0) : Type 0 where
  pub sent : List Reply
  pub text : Text
  pub finish : Text
  pub saw_tool : Bool
  pub closed : Bool
  pub error : Option E

-- What a streamed turn sent to its consumer, and the error that ended it.
pub record Piped (E : Type 0) : Type 0 where
  pub sent : List Reply
  pub error : Option E

module _ {Float : Type 0} (u : Unicode Float) where
  -- hitOutputLimit
  unfoldable pub hit_output_limit : Text → Bool → Bool
  unfolding contains_text text_eq
  hit_output_limit finish saw_tool_call =
      if saw_tool_call
      then false
      else contains_text (text "length" ∷ text "max_tokens" ∷ []) (u.to_lower finish)

  -- The condition of the loop of generateResuming, but for its count.
  abbrev pub is_cut_off : Reply → Bool
  is_cut_off r = hit_output_limit r.finish (any_call r.message.tool_calls)

  module _ {E : Type 0} (generate : ℕ → List Message → Called E Reply) (cancelled : ℕ → Bool)
      (input : List Message) where
    -- One turn of the loop after the call numbered `n`: `rest` is the loop after the next call.
    abbrev pub with_next : ℕ → Text → Called E Reply → (Text → Reply → Resumed E) → Resumed E
    with_next n so_far (call_failed e) rest = record { result = call_failed e; last = suc n }
    with_next n so_far (returned next) rest =
        let joined = so_far ++ next.message.content in
        rest joined (record next { message = record next.message { content = joined } })

    -- The loop of generateResuming with `left` continuations to go; `n` numbers the last call made.
    unfoldable pub resume_from : ℕ → ℕ → Text → Reply → Resumed E
    unfolding hit_output_limit
    resume_from zero n so_far msg = record { result = returned msg; last = n }
    resume_from (suc left) n so_far msg =
        if is_cut_off msg && not (cancelled n)
        then with_next n so_far (generate (suc n) (resume_transcript input so_far))
            (λ joined merged. resume_from left (suc n) joined merged)
        else record { result = returned msg; last = n }

    abbrev pub after_first : Called E Reply → Resumed E
    unfolding resume_from
    after_first (call_failed e) = record { result = call_failed e; last = 0 }
    after_first (returned msg) = resume_from max_continuations 0 msg.message.content msg

    -- generateResuming
    unfoldable pub generate_resuming : Resumed E
    unfolding resume_from
    generate_resuming = after_first (generate 0 input)

  -- The consumer of a stream is a parameter too: whether it has gone away when it is sent one more chunk
  -- after the given ones.
  module _ {E : Type 0} (gone : List Reply → Bool) where
    -- forward, on the chunks still in the source and how the source ends.
    unfoldable pub forward :
        List (Option Reply) → Option E → List Reply → Text → Text → Bool → Forwarded E
    forward [] ending sent so_far finish saw_tool = record {
      sent = sent;
      text = so_far;
      finish = finish;
      saw_tool = saw_tool;
      closed = false;
      error = ending;
    }
    forward (none ∷ cs) ending sent so_far finish saw_tool =
        forward cs ending sent so_far finish saw_tool
    forward (some c ∷ cs) ending sent so_far finish saw_tool =
        let now = so_far ++ c.message.content in
        let tool = any_call c.message.tool_calls || saw_tool in
        let reason = if text_eq c.finish [] then finish else c.finish in
        let rest = forward cs ending (sent ++ c ∷ []) now reason tool in
        if gone sent
        then record {
          sent = sent;
          text = now;
          finish = reason;
          saw_tool = tool;
          closed = true;
          error = none;
        }
        else rest

    module _ (open_stream : ℕ → List Message → Called E (Stream E (Option Reply)))
        (cancelled : ℕ → Bool) (input : List Message) where
      -- The end of a round, after the stream numbered `round` was forwarded.
      abbrev pub after_forward : ℕ → Forwarded E → (Text → List Reply → Piped E) → Piped E
      after_forward round f rest = elim f.error [
        | some e ↦ record { sent = f.sent; error = some e }
        | none ↦
            if f.closed || (not (hit_output_limit f.finish f.saw_tool) || cancelled round)
            then record { sent = f.sent; error = none }
            else rest f.text f.sent
      ]

      abbrev pub stopped : Forwarded E → Piped E
      stopped f = record { sent = f.sent; error = f.error }

      abbrev pub with_stream :
          List Reply
          → Called E (Stream E (Option Reply))
          → (Stream E (Option Reply) → Piped E)
          → Piped E
      with_stream sent (call_failed e) rest = record { sent = sent; error = some e }
      with_stream sent (returned s) rest = rest s

      -- The loop of the goroutine of streamResuming from round `round` on, with `left` continuations to go.
      unfoldable pub rounds : ℕ → ℕ → List Reply → Text → Stream E (Option Reply) → Piped E
      unfolding hit_output_limit forward text_eq
      rounds zero round sent so_far cur =
          stopped (forward cur.chunks cur.ending sent so_far [] false)
      rounds (suc left) round sent so_far cur =
          after_forward round (forward cur.chunks cur.ending sent so_far [] false) λ now sent'.
            with_stream sent' (open_stream (suc round) (resume_transcript input now))
              λ next. rounds left (suc round) sent' now next

      abbrev pub piped : Called E (Stream E (Option Reply)) → Called E (Piped E)
      unfolding rounds
      piped (call_failed e) = call_failed e
      piped (returned first) = returned (rounds max_continuations 0 [] [] first)

      -- streamResuming, with what its pipe carries
      unfoldable pub stream_resuming : Called E (Piped E)
      unfolding rounds
      stream_resuming = piped (open_stream 0 input)
