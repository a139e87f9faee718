-- ===== src/Agent/History/Transcript.antt =====
-- The transcript that internal/agent/history.go makes of stored messages, against what a provider
-- accepts.
use bepaylot.Prelude.{
  ℕ, zero, suc, ◌≡◌, refl, sym, ap, ◌∙◌, subst, Text, text_eq_refl, contains_text, true, false,
  Option, List, [], ◌∷◌, ◌++◌, Bool-cases, Option-cases, inl, inr, All, leb, arith,
}
use bepaylot.GoLibrary.{ℤ, pos, negsuc}
use bepaylot.Agent.History.{
  Role, Message, ToolCall, Stored, StoredRole, ContentBlock, BlockType, user_role, assistant_role,
  other_role, call_ids, result_ids, kept_results, pair_tool_calls, use_calls, add_result,
  result_messages, assistant_messages, stored_messages, history_to_messages, blocks_to_text,
  last_user, trim_history, approx_messages_tokens,
}
use bepaylot.Agent.History.Pairs.{pair_tool_calls_lem}
use bepaylot.Agent.History.Trim.{UserAt, Trimmed, trim_history-Trimmed}

-- The results that directly follow a message.
abbrev leading_at : Role → Message → List Message → List Message
leading_at Role.tool m rest = m ∷ rest
leading_at _ m rest = []

abbrev pub leading_results : List Message → List Message
leading_results [] = []
leading_results (m ∷ ms) = leading_at m.role m (leading_results ms)

abbrev pub Answered : List Text → List Message → Type 0
Answered ids rs = All (λ id. contains_text (result_ids rs) id ≡ true) ids

-- A message of the role, after results that belong to the calls `called` only: a result answers one of
-- these, an assistant's calls are answered by the results that follow, `rest` and `rest_of` are what is
-- asked of the messages after it.
abbrev pub IsNext : List Text → Role → Message → List Message → (List Text → Type 0) → Type 0
IsNext called Role.tool m ms rest = (contains_text called m.tool_call_id ≡ true) × rest called
IsNext called Role.assistant m ms rest =
    Answered (call_ids m.tool_calls) (leading_results ms) × rest (call_ids m.tool_calls)
IsNext called _ m ms rest = rest []

abbrev pub IsTranscript : List Text → List Message → Type 0
IsTranscript called [] = Unit
IsTranscript called (m ∷ ms) = IsNext called m.role m ms (λ c. IsTranscript c ms)

abbrev IsTool : Message → Type 0
IsTool m = m.role ≡ Role.tool

All-contains :
    (P : Text → Type 0) (ids : List Text)
    → ((id : Text) → contains_text ids id ≡ true → P id)
    → All P ids
All-contains P [] k = tt
All-contains P (id ∷ ids) k = (
  k id (unfold contains_text in ground (arith, text_eq_refl id)),
  All-contains P ids (λ j h. k j (unfold contains_text in ground (arith, h))),
)

leading-append :
    (rs rest : List Message)
    → All IsTool rs
    → leading_results rest ≡ []
    → leading_results (rs ++ rest) ≡ rs
leading-append [] rest h e = e
leading-append (r ∷ rs) rest h e =
    ap (λ (o : Role). leading_at o r (leading_results (rs ++ rest))) h.0
    ∙ ap (λ t. r ∷ t) (leading-append rs rest h.1 e)

-- A run of results of the calls.
IsTranscript-results :
    (called : List Text) (rs rest : List Message)
    → All IsTool rs
    → All (λ id. contains_text called id ≡ true) (result_ids rs)
    → IsTranscript called rest
    → IsTranscript called (rs ++ rest)
IsTranscript-results called [] rest h k t = t
IsTranscript-results called (r ∷ rs) rest h k t =
    subst (λ (o : Role). IsNext called o r (rs ++ rest) (λ c. IsTranscript c (rs ++ rest)))
      (sym h.0) (k.0, IsTranscript-results called rs rest h.1 k.1 t)

kept_results-IsTool :
    (called : List Text) (rs : List Message) → All IsTool rs → All IsTool (kept_results called rs)
unfolding kept_results
kept_results-IsTool called [] h = tt
kept_results-IsTool called (r ∷ rs) h = elim (Bool-cases (contains_text called r.tool_call_id)) [
  | inl e ↦
      subst (All IsTool) {x = r ∷ kept_results called rs} (ground (arith, e))
        (h.0, kept_results-IsTool called rs h.1)
  | inr e ↦
      subst (All IsTool) {x = kept_results called rs} (ground (arith, e))
        (kept_results-IsTool called rs h.1)
]

-- Only an assistant's message without text, calls and results is left out.
assistant-IsTranscript :
    (called : List Text) (content : Text) (calls : List ToolCall) (results rest : List Message)
    → Answered (call_ids calls) results
    → All (λ id. contains_text (call_ids calls) id ≡ true) (result_ids results)
    → All IsTool results
    → leading_results rest ≡ []
    → ((c : List Text) → IsTranscript c rest)
    → IsTranscript called (assistant_messages content calls results ++ rest)
assistant-IsTranscript called content calls results rest answered known tools e t =
    cases content calls results message refl
  where
    message :
        Answered (call_ids calls) (leading_results (results ++ rest))
        × IsTranscript (call_ids calls) (results ++ rest)
    message = (
      subst (Answered (call_ids calls)) (sym (leading-append results rest tools e)) answered,
      IsTranscript-results (call_ids calls) results rest tools known (t (call_ids calls)),
    )

    cases :
        (s : Text) (cs : List ToolCall) (rs : List Message)
        → Answered (call_ids cs) (leading_results (rs ++ rest))
          × IsTranscript (call_ids cs) (rs ++ rest)
        → rs ≡ rs
        → IsTranscript called (assistant_messages s cs rs ++ rest)
    cases [] [] [] m f = t called
    cases [] [] (r ∷ rs) m f = m
    cases [] (c ∷ cs) rs m f = m
    cases (x ∷ s) cs rs m f = m

-- What pairToolCalls keeps are calls and results that answer one another.
paired-Answered :
    (calls : List ToolCall) (results : List Message)
    → Answered (call_ids (pair_tool_calls calls results).0) (pair_tool_calls calls results).1
paired-Answered calls results = All-contains _ _ λ id h.
    (pair_tool_calls_lem calls results id).1 ∙ sym (pair_tool_calls_lem calls results id).0 ∙ h

paired-known :
    (calls : List ToolCall) (results : List Message)
    → All
        (λ id. contains_text (call_ids (pair_tool_calls calls results).0) id ≡ true)
        (result_ids (pair_tool_calls calls results).1)
paired-known calls results = All-contains _ _ λ id h.
    (pair_tool_calls_lem calls results id).0 ∙ sym (pair_tool_calls_lem calls results id).1 ∙ h

rest-IsTranscript :
    (called : List Text) (o : Role) (m : Message) (ms : List Message)
    → IsNext called o m ms (λ c. IsTranscript c ms)
    → (c : List Text) × IsTranscript c ms
rest-IsTranscript called Role.tool m ms t = (called, t.1)
rest-IsTranscript called Role.assistant m ms t = (call_ids m.tool_calls, t.1)
rest-IsTranscript called _ m ms t = ([], t)

suffix-IsTranscript :
    (called : List Text) (before r : List Message)
    → IsTranscript called (before ++ r)
    → (c : List Text) × IsTranscript c r
suffix-IsTranscript called [] r t = (called, t)
suffix-IsTranscript called (m ∷ before) r t =
    let (c, t') = rest-IsTranscript called m.role m (before ++ r) t in
    suffix-IsTranscript c before r t'

user-IsNext :
    (called : List Text) (o : Role) (m : Message) (ms : List Message)
    → elim o [ Role.user ↦ true | _ ↦ false ] ≡ true
    → IsNext called o m ms (λ c. IsTranscript c ms)
    → IsNext [] o m ms (λ c. IsTranscript c ms)
user-IsNext called Role.user m ms u t = t
user-IsNext called Role.system m ms u t = t
user-IsNext called Role.tool m ms u t = cc
user-IsNext called Role.assistant m ms u t = cc

-- From a user message on, a transcript needs nothing of what was before.
user-IsTranscript :
    (called : List Text) (r : List Message) → UserAt 0 r → IsTranscript called r → IsTranscript [] r
user-IsTranscript called [] u t = tt
user-IsTranscript called (m ∷ ms) u t = user-IsNext called m.role m ms u t

Trimmed-IsTranscript :
    (budget k : ℕ) (ms r : List Message)
    → IsTranscript [] ms
    → Trimmed budget k ms r
    → IsTranscript [] r
Trimmed-IsTranscript budget k ms r t d =
    let (c, t') = suffix-IsTranscript [] d.before r (subst (IsTranscript []) d.cut t) in
    user-IsTranscript c r d.begins t'

trim_history-IsTranscript :
    (ms : List Message) (budget : ℤ) → IsTranscript [] ms → IsTranscript [] (trim_history ms budget)
unfolding trim_history
trim_history-IsTranscript ms (negsuc b) t = t
trim_history-IsTranscript ms (pos zero) t = t
trim_history-IsTranscript ms (pos (suc b)) t = elim (Option-cases (last_user ms)) [
  | inl e ↦
      subst (IsTranscript []) {x = ms} {y = trim_history ms (pos (suc b))} (ground (arith, e)) t
  | inr (k, e) ↦ elim (Bool-cases (leb (approx_messages_tokens ms) (suc b))) [
    | inl f ↦
        subst (IsTranscript []) {x = ms} {y = trim_history ms (pos (suc b))} (ground (arith, f)) t
    | inr f ↦
        Trimmed-IsTranscript (suc b) k ms (trim_history ms (pos (suc b))) t
          (trim_history-Trimmed ms b k e (ground (arith, f)))
  ]
]

module _ {Json : Type 0} (marshal : Json → Option Text) where
  add_result-IsTool :
      (t : BlockType) (b : ContentBlock Json) (rest : List Message)
      → All IsTool rest
      → All IsTool (add_result marshal t b rest)
  add_result-IsTool BlockType.tool_result b rest h = (refl, h)
  add_result-IsTool _ b rest h = h

  result_messages-IsTool : (bs : List (ContentBlock Json)) → All IsTool (result_messages marshal bs)
  unfolding result_messages
  result_messages-IsTool [] = tt
  result_messages-IsTool (b ∷ bs) = add_result-IsTool b.block_type b _ (result_messages-IsTool bs)

  assistant-leading :
      (content : Text) (calls : List ToolCall) (results rest : List Message)
      → leading_results rest ≡ []
      → leading_results (assistant_messages content calls results ++ rest) ≡ []
  assistant-leading [] [] [] rest e = e
  assistant-leading [] [] (r ∷ rs) rest e = refl
  assistant-leading [] (c ∷ cs) rs rest e = refl
  assistant-leading (x ∷ s) cs rs rest e = refl

  stored-leading :
      (r : StoredRole) (bs : List (ContentBlock Json)) (rest : List Message)
      → leading_results rest ≡ []
      → leading_results (stored_messages marshal r bs ++ rest) ≡ []
  unfolding stored_messages
  stored-leading user_role bs rest e = refl
  stored-leading assistant_role bs rest e = assistant-leading (blocks_to_text bs) _ _ rest e
  stored-leading other_role bs rest e = e

  history-leading :
      (ms : List (Stored Json)) → leading_results (history_to_messages marshal ms) ≡ []
  unfolding history_to_messages
  history-leading [] = refl
  history-leading (m ∷ ms) = stored-leading m.role m.blocks _ (history-leading ms)

  stored-IsTranscript :
      (called : List Text) (r : StoredRole) (bs : List (ContentBlock Json)) (rest : List Message)
      → leading_results rest ≡ []
      → ((c : List Text) → IsTranscript c rest)
      → IsTranscript called (stored_messages marshal r bs ++ rest)
  unfolding stored_messages
  stored-IsTranscript called user_role bs rest e t = t []
  stored-IsTranscript called assistant_role bs rest e t =
      assistant-IsTranscript called (blocks_to_text bs)
        (pair_tool_calls (use_calls marshal 0 bs) (result_messages marshal bs)).0
        (pair_tool_calls (use_calls marshal 0 bs) (result_messages marshal bs)).1 rest
        (paired-Answered (use_calls marshal 0 bs) (result_messages marshal bs))
        (paired-known (use_calls marshal 0 bs) (result_messages marshal bs))
        (unfold pair_tool_calls in kept_results-IsTool _ _ (result_messages-IsTool bs)) e t
  stored-IsTranscript called other_role bs rest e t = t called

  history-IsTranscript :
      (called : List Text) (ms : List (Stored Json))
      → IsTranscript called (history_to_messages marshal ms)
  unfolding history_to_messages
  history-IsTranscript called [] = tt
  history-IsTranscript called (m ∷ ms) =
      stored-IsTranscript called m.role m.blocks _ (history-leading ms)
        λ c. history-IsTranscript c ms

  -- Of whatever messages were stored and with whatever budget, the trimmed history is a transcript: each
  -- tool result answers a call of the assistant's message before it, with only other results between, and
  -- each call of an assistant's message is answered by the results that directly follow.
  pub history_to_messages-IsTranscript :
      (ms : List (Stored Json)) (budget : ℤ)
      → IsTranscript [] (trim_history (history_to_messages marshal ms) budget)
  history_to_messages-IsTranscript ms budget =
      trim_history-IsTranscript (history_to_messages marshal ms) budget (history-IsTranscript [] ms)
