-- ===== src/Agent/Continue/Streamed.antt =====
-- streamResuming of internal/agent/continue.go next to a description of it that keeps no text of its own.
use bepaylot.Prelude.{
  ℕ, zero, suc, ◌≡◌, refl, sym, ap, ◌∙◌, Text, text_eq, Bool, true, false, ◌&&◌, ◌||◌, not, Option,
  none, some, List, [], ◌∷◌, ◌++◌, append_assoc, append-nil, if◌then◌else◌,
}
use bepaylot.GoLibrary.{Unicode}
use bepaylot.Agent.History.{Message}
use bepaylot.Llm.Retry.{Called, returned, call_failed, Stream}
use bepaylot.Agent.Continue.{
  Reply, Forwarded, Piped, resume_transcript, any_call, hit_output_limit, max_continuations,
  forward, after_forward, stopped, with_stream, rounds, piped, stream_resuming,
}
use bepaylot.Agent.Continue.Pieces.{contents}

-- The chunks of a stream that are not nil.
unfoldable pub present : List (Option Reply) → List Reply
present [] = []
present (none ∷ cs) = present cs
present (some c ∷ cs) = c ∷ present cs

-- The last finish reason of chunks, and whether one of them calls a tool.
abbrev pub finish_of : Text → List Reply → Text
unfolding text_eq
finish_of reason [] = reason
finish_of reason (c ∷ cs) = finish_of (if text_eq c.finish [] then reason else c.finish) cs

abbrev pub calls_tool : Bool → List Reply → Bool
calls_tool b [] = b
calls_tool b (c ∷ cs) = calls_tool (any_call c.message.tool_calls || b) cs

contents-append : (rs ss : List Reply) → contents (rs ++ ss) ≡ contents rs ++ contents ss
unfolding contents
contents-append [] ss = refl
contents-append (r ∷ rs) ss =
    ap (λ t. r.message.content ++ t) (contents-append rs ss)
    ∙ sym (append_assoc r.message.content (contents rs) (contents ss))

contents-snoc :
    (rs : List Reply) (c : Reply) → contents rs ++ c.message.content ≡ contents (rs ++ c ∷ [])
unfolding contents
contents-snoc rs c =
    ap (λ t. contents rs ++ t) (sym (append-nil c.message.content))
    ∙ sym (contents-append rs (c ∷ []))

-- The test of a loop that stops, against the test of one that goes on.
stop_or_go :
    {A : Type 0} (cut done : Bool) {go go' : A} (stop : A)
    → go ≡ go'
    → (if not cut || done then stop else go) ≡ (if cut && not done then go' else stop)
stop_or_go true true stop e = refl
stop_or_go true false stop e = e
stop_or_go false done stop e = refl

-- A consumer that stays to the end.
abbrev pub never : List Reply → Bool
never sent = false

module _ {Float E : Type 0} (u : Unicode Float) where
  -- What forward comes to for a consumer that stays.
  forwarded : List Reply → List Reply → Option E → Text → Bool → Forwarded E
  unfolding text_eq
  forwarded sent cs ending finish tool = record {
    sent = sent;
    text = contents sent;
    finish = finish_of finish cs;
    saw_tool = calls_tool tool cs;
    closed = false;
    error = ending;
  }

  forward_lem :
      (cs : List (Option Reply)) (ending : Option E) (sent : List Reply) (so_far finish : Text)
      (tool : Bool)
      → so_far ≡ contents sent
      → forward u never cs ending sent so_far finish tool
        ≡ forwarded (sent ++ present cs) (present cs) ending finish tool
  unfolding forward present forwarded
  forward_lem [] ending sent so_far finish tool e =
      ap
        (λ t. record {
          sent = sent;
          text = t;
          finish = finish;
          saw_tool = tool;
          closed = false;
          error = ending;
        })
        e
      ∙ ap (λ l. forwarded l [] ending finish tool) (sym (append-nil sent))
  forward_lem (none ∷ cs) ending sent so_far finish tool e =
      forward_lem cs ending sent so_far finish tool e
  forward_lem (some c ∷ cs) ending sent so_far finish tool e =
      let reason : Text = if text_eq c.finish [] then finish else c.finish in
      let called : Bool = any_call c.message.tool_calls || tool in
      forward_lem cs ending (sent ++ c ∷ []) (so_far ++ c.message.content) reason called
        (ap (λ t. t ++ c.message.content) e ∙ contents-snoc sent c)
      ∙ ap (λ l. forwarded l (present cs) ending reason called)
          (append_assoc sent (c ∷ []) (present cs))

  abbrev pub if_opened :
      List Reply
      → Called E (Stream E (Option Reply))
      → (Stream E (Option Reply) → Piped E)
      → Piped E
  if_opened sent (call_failed e) rest = record { sent = sent; error = some e }
  if_opened sent (returned s) rest = rest s

  module _ (open_stream : ℕ → List Message → Called E (Stream E (Option Reply)))
      (cancelled : ℕ → Bool) (input : List Message) where
    -- A stream that ended by io.EOF is followed by another one when its last finish reason is the output
    -- limit, none of its chunks calls a tool and the context is not done; that stream is asked to carry on
    -- from the contents of all the chunks sent.
    abbrev pub followed :
        ℕ
        → List Reply
        → List Reply
        → Option E
        → (List Reply → Stream E (Option Reply) → Piped E)
        → Piped E
    unfolding hit_output_limit
    followed round sent cs (some e) rest = record { sent = sent; error = some e }
    followed round sent cs none rest =
        if hit_output_limit u (finish_of [] cs) (calls_tool false cs) && not (cancelled round)
        then if_opened sent (open_stream (suc round) (resume_transcript input (contents sent)))
            (rest sent)
        else record { sent = sent; error = none }

    unfoldable pub follow : ℕ → ℕ → List Reply → Stream E (Option Reply) → Piped E
    unfolding present
    follow zero round sent cur = record { sent = sent ++ present cur.chunks; error = cur.ending }
    follow (suc left) round sent cur =
        followed round (sent ++ present cur.chunks) (present cur.chunks) cur.ending
          (λ sent' next. follow left (suc round) sent' next)

    abbrev told :
        ℕ → Forwarded E → (Text → List Reply → Stream E (Option Reply) → Piped E) → Piped E
    told round f rest = after_forward u never open_stream cancelled input round f λ now sent'.
        with_stream u never open_stream cancelled input sent'
          (open_stream (suc round) (resume_transcript input now)) (rest now sent')

    with_stream_lem :
        (sent : List Reply) (c : Called E (Stream E (Option Reply)))
        (f g : Stream E (Option Reply) → Piped E)
        → ((s : Stream E (Option Reply)) → f s ≡ g s)
        → with_stream u never open_stream cancelled input sent c f ≡ if_opened sent c g
    with_stream_lem sent (call_failed e) f g h = refl
    with_stream_lem sent (returned s) f g h = h s

    told_lem :
        (round : ℕ) (sent cs : List Reply) (ending : Option E)
        (rest : Text → List Reply → Stream E (Option Reply) → Piped E)
        (reference : List Reply → Stream E (Option Reply) → Piped E)
        → ((s : Stream E (Option Reply)) → rest (contents sent) sent s ≡ reference sent s)
        → told round (forwarded sent cs ending [] false) rest
          ≡ followed round sent cs ending reference
    unfolding forwarded followed
    told_lem round sent cs (some e) rest reference h = refl
    told_lem round sent cs none rest reference h =
        stop_or_go (hit_output_limit u (finish_of [] cs) (calls_tool false cs)) (cancelled round) _
          (with_stream_lem sent (open_stream (suc round) (resume_transcript input (contents sent)))
            (rest (contents sent) sent) (reference sent) h)

    rounds-follow :
        (left round : ℕ) (sent : List Reply) (so_far : Text) (cur : Stream E (Option Reply))
        → so_far ≡ contents sent
        → rounds u never open_stream cancelled input left round sent so_far cur
          ≡ follow left round sent cur
    unfolding rounds follow forwarded
    rounds-follow zero round sent so_far cur e =
        ap (λ f. stopped u never open_stream cancelled input f)
          (forward_lem cur.chunks cur.ending sent so_far [] false e)
    rounds-follow (suc left) round sent so_far cur e =
        ap
          (λ f. told round f (λ now sent' next.
            rounds u never open_stream cancelled input left (suc round) sent' now next))
          (forward_lem cur.chunks cur.ending sent so_far [] false e)
        ∙ told_lem round (sent ++ present cur.chunks) (present cur.chunks) cur.ending
            (λ now sent' next.
              rounds u never open_stream cancelled input left (suc round) sent' now next)
            _ (λ s. rounds-follow left (suc round) _ _ s refl)

    -- What the reference makes of the first stream.
    abbrev pub follow_first : Called E (Stream E (Option Reply)) → Called E (Piped E)
    unfolding follow
    follow_first (call_failed e) = call_failed e
    follow_first (returned first) = returned (follow max_continuations 0 [] first)

    -- For a consumer that stays, streamResuming sends every chunk of every stream once and in order, and
    -- asks for at most four further streams, each to carry on from the contents of what was sent.
    pub stream_resuming-follow :
        stream_resuming u never open_stream cancelled input ≡ follow_first (open_stream 0 input)
    unfolding stream_resuming follow_first contents
    stream_resuming-follow = first_stream (open_stream 0 input)
      where
        first_stream :
            (c : Called E (Stream E (Option Reply)))
            → piped u never open_stream cancelled input c ≡ follow_first c
        first_stream (call_failed e) = refl
        first_stream (returned first) =
            ap returned (rounds-follow max_continuations 0 [] [] first refl)
