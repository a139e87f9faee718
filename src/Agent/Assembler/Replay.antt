-- ===== src/Agent/Assembler/Replay.antt =====
-- internal/agent/assembler.go: what a client makes of the events, next to the blocks that are stored.
use bepaylot.Prelude.{
  ℕ, ◌≡◌, refl, sym, ap, ◌∙◌, Text, Bool, Option, none, some, List, [], ◌∷◌, ◌++◌, map,
}
use bepaylot.Agent.Assembler.{
  BlockKind, text_block, thinking_block, tool_use, tool_result, Event, block_started, text_delta,
  thinking_delta, input_delta, block_stopped, tool_stopped, Block, Parts, OpenBlock, Assembler,
  emit, write_text,
}
use bepaylot.Agent.Assembler.Steps.{
  released_at_end, sealed_as, close_as, seal, seal_open, close_open, close_locked, start_block,
  think, add_args,
}

-- A block as a client sees it: its text, or the input of a tool.
pub record Seen (Json : Type 0) : Type 0 where
  pub kind : BlockKind
  pub body : Text
  pub input : Option Json

pub record View (Json : Type 0) : Type 0 where
  pub complete : List (Seen Json)
  pub current : Option (BlockKind × Text)

-- The text that the deltas of a block carry.
abbrev pub streamed : BlockKind → Text → Text → Text
streamed tool_use body args = args
streamed _ body args = body

module _ {Json : Type 0} (parse_args : Text → Json) where
  abbrev pub seen_whole : BlockKind → Text → Seen Json
  seen_whole tool_use s = record { kind = tool_use; body = []; input = some (parse_args s) }
  seen_whole k s = record { kind = k; body = s; input = none }

  abbrev pub grown : Text → Option (BlockKind × Text) → Option (BlockKind × Text)
  grown s none = none
  grown s (some (k, t)) = some (k, t ++ s)

  abbrev pub with_current : Option (BlockKind × Text) → List (Seen Json) → List (Seen Json)
  with_current none seen = seen
  with_current (some (k, s)) seen = seen ++ seen_whole k s ∷ []

  -- A client that gets one more event.
  unfoldable pub client_step : Event Json → View Json → View Json
  client_step (block_started i k id name) v = record v { current = some (k, []) }
  client_step (text_delta i s) v = record v { current = grown s v.current }
  client_step (thinking_delta i s) v = record v { current = grown s v.current }
  client_step (input_delta i s) v = record v { current = grown s v.current }
  client_step (block_stopped i) v = record v {
    complete = with_current v.current v.complete;
    current = none;
  }
  client_step (tool_stopped name id response is_error) v = record v {
    complete = v.complete ++ record { kind = tool_result; body = response; input = none } ∷ [];
  }
  client_step _ v = v

  unfoldable pub replay_from : View Json → List (Event Json) → View Json
  unfolding client_step
  replay_from v [] = v
  replay_from v (e ∷ es) = replay_from (client_step e v) es

  abbrev pub replay : List (Event Json) → View Json
  replay es = replay_from (record { complete = []; current = none }) es

  replay_from-snoc :
      (v : View Json) (es : List (Event Json)) (e : Event Json)
      → replay_from v (es ++ e ∷ []) ≡ client_step e (replay_from v es)
  unfolding replay_from
  replay_from-snoc v [] e = refl
  replay_from-snoc v (x ∷ es) e = replay_from-snoc (client_step x v) es e

abbrev pub seen_block : {Json : Type 0} → Block Json → Seen Json
seen_block b = record { kind = b.kind; body = b.body; input = b.tool_input }

abbrev pub seen_open : {Cite : Type 0} → Option (OpenBlock Cite) → Option (BlockKind × Text)
seen_open none = none
seen_open (some ob) = some (ob.kind, streamed ob.kind ob.body ob.args)

-- What is stored, and what is open, as a client sees it.
abbrev pub view_of : {Cite Json : Type 0} → Assembler Cite Json → View Json
view_of a = record { complete = map seen_block a.blocks; current = seen_open a.open_block }

pub map-snoc :
    {A B : Type 0} (f : A → B) (xs : List A) (x : A) → map f (xs ++ x ∷ []) ≡ map f xs ++ f x ∷ []
map-snoc f [] x = refl
map-snoc f (y ∷ xs) x = ap (λ t. f y ∷ t) (map-snoc f xs x)

module _ (space : ℕ → Bool) (lower : Text → Text) (repair : Text → Text × ℕ) {Cite Json : Type 0}
    (parts : Parts Cite Json) where
  -- A client that replays the events has the stored blocks and the open one.
  abbrev pub Agrees : Assembler Cite Json → Type 0
  Agrees a = replay parts.parse_args a.events ≡ view_of a

  -- The same, where the open block is at hand.
  abbrev pub AgreesWith : OpenBlock Cite × Assembler Cite Json → Type 0
  AgreesWith (ob, a) = Agrees (record a { open_block = some ob })

  pub Agrees-emit :
      (a b : Assembler Cite Json) (e : Event Json)
      → Agrees a
      → b.events ≡ a.events
      → client_step parts.parse_args e (view_of a) ≡ view_of b
      → Agrees (emit e b)
  Agrees-emit a b e h l s =
      ap (λ es. replay parts.parse_args (es ++ e ∷ [])) l
      ∙ replay_from-snoc parts.parse_args (record { complete = []; current = none }) a.events e
      ∙ ap (client_step parts.parse_args e) h
      ∙ s

  streamed-body :
      (k : BlockKind) (body args s : Text)
      → (k ≡ tool_use → ⊥)
      → streamed k body args ++ s ≡ streamed k (body ++ s) args
  streamed-body tool_use body args s h = absurd (h refl)
  streamed-body text_block body args s h = refl
  streamed-body thinking_block body args s h = refl
  streamed-body tool_result body args s h = refl

  streamed-args :
      (k : BlockKind) (body args s : Text)
      → k ≡ tool_use
      → streamed k body args ++ s ≡ streamed k body (args ++ s)
  streamed-args tool_use body args s h = refl
  streamed-args text_block body args s h = cc
  streamed-args thinking_block body args s h = cc
  streamed-args tool_result body args s h = cc

  streamed-nil : (k : BlockKind) → [] ≡ streamed k [] []
  streamed-nil tool_use = refl
  streamed-nil text_block = refl
  streamed-nil thinking_block = refl
  streamed-nil tool_result = refl

  pub text-not_tool : (k : BlockKind) → k ≡ text_block → k ≡ tool_use → ⊥
  text-not_tool k h e = cc

  pub thinking-not_tool : (k : BlockKind) → k ≡ thinking_block → k ≡ tool_use → ⊥
  thinking-not_tool k h e = cc

  pub write_text-Agrees :
      (s : Text) (ob : OpenBlock Cite) (a : Assembler Cite Json)
      → (ob.kind ≡ tool_use → ⊥)
      → AgreesWith (ob, a)
      → Agrees (write_text s ob a)
  unfolding client_step
  write_text-Agrees [] ob a k h = h
  write_text-Agrees (c ∷ cs) ob a k h =
      Agrees-emit (record a { open_block = some ob })
        (record a { open_block = some (record ob { body = ob.body ++ (c ∷ cs) }) })
        (text_delta ob.index (c ∷ cs)) h refl
        (ap
          (λ (t : Text). record { complete = map seen_block a.blocks; current = some (ob.kind, t) })
          (streamed-body ob.kind ob.body ob.args (c ∷ cs) k))

  pub think-Agrees :
      (s : Text) (ob : OpenBlock Cite) (a : Assembler Cite Json)
      → (ob.kind ≡ tool_use → ⊥)
      → AgreesWith (ob, a)
      → Agrees (think space lower repair parts s (ob, a))
  unfolding client_step
  think-Agrees s ob a k h =
      Agrees-emit (record a { open_block = some ob })
        (record a { open_block = some (record ob { body = ob.body ++ s }) })
        (thinking_delta ob.index s) h refl
        (ap
          (λ (t : Text). record { complete = map seen_block a.blocks; current = some (ob.kind, t) })
          (streamed-body ob.kind ob.body ob.args s k))

  pub add_args-Agrees :
      (s : Text) (ob : OpenBlock Cite) (a : Assembler Cite Json)
      → ob.kind ≡ tool_use
      → AgreesWith (ob, a)
      → Agrees (add_args space lower repair parts s ob a)
  unfolding client_step
  add_args-Agrees [] ob a k h = h
  add_args-Agrees (c ∷ cs) ob a k h =
      Agrees-emit (record a { open_block = some ob })
        (record a { open_block = some (record ob { args = ob.args ++ (c ∷ cs) }) })
        (input_delta ob.index (c ∷ cs)) h refl
        (ap
          (λ (t : Text). record { complete = map seen_block a.blocks; current = some (ob.kind, t) })
          (streamed-args ob.kind ob.body ob.args (c ∷ cs) k))

  pub start_block-AgreesWith :
      (kind : BlockKind) (n : ℕ) (id name : Text) (a : Assembler Cite Json)
      → Agrees a
      → AgreesWith (start_block space lower repair parts kind n id name a)
  unfolding client_step
  start_block-AgreesWith kind n id name a h =
      Agrees-emit a
        (record (start_block space lower repair parts kind n id name a).1 { events = a.events })
        (block_started a.sse_index kind id name) h refl
        (ap (λ (t : Text). record { complete = map seen_block a.blocks; current = some (kind, t) })
          (streamed-nil kind))

  sealed_as-seen :
      (k : BlockKind) (n : ℕ) (ob : OpenBlock Cite)
      → seen_whole parts.parse_args k (streamed k ob.body ob.args)
        ≡ seen_block (sealed_as space lower repair parts k n ob)
  sealed_as-seen tool_use n ob = refl
  sealed_as-seen text_block n ob = refl
  sealed_as-seen thinking_block n ob = refl
  sealed_as-seen tool_result n ob = refl

  seal-Agrees :
      (ob : OpenBlock Cite) (a : Assembler Cite Json)
      → AgreesWith (ob, a)
      → Agrees (seal space lower repair parts ob a)
  unfolding client_step
  seal-Agrees ob a h =
      Agrees-emit (record a { open_block = some ob })
        (record (seal space lower repair parts ob a) { events = a.events }) (block_stopped ob.index)
        h refl
        (ap (λ (l : List (Seen Json)). record { complete = l; current = none })
          (ap (λ (x : Seen Json). map seen_block a.blocks ++ x ∷ [])
              (sealed_as-seen ob.kind a.order ob)
            ∙ sym (
                map-snoc seen_block a.blocks
                  (sealed_as space lower repair parts ob.kind a.order ob))))

  -- The end of a text block, with what is still released.
  close_text-Agrees :
      (s : Text) (n : ℕ) (ob : OpenBlock Cite) (a : Assembler Cite Json)
      → (ob.kind ≡ tool_use → ⊥)
      → AgreesWith (ob, a)
      → Agrees (
          seal_open space lower repair parts
            (write_text s ob a).open_block
            (record (write_text s ob a) { json_fixes = n }))
  close_text-Agrees [] n ob a k h = seal-Agrees ob (record a { json_fixes = n }) h
  close_text-Agrees (c ∷ cs) n ob a k h =
      seal-Agrees (record ob { body = ob.body ++ (c ∷ cs) })
        (record (write_text (c ∷ cs) ob a) { json_fixes = n }) (write_text-Agrees (c ∷ cs) ob a k h)

  pub close_as-Agrees :
      (k : BlockKind) (ob : OpenBlock Cite) (a : Assembler Cite Json)
      → ob.kind ≡ k
      → AgreesWith (ob, a)
      → Agrees (close_as space lower repair parts k ob a)
  close_as-Agrees text_block ob a e h =
      close_text-Agrees (released_at_end space lower repair parts ob) _ ob a
        (text-not_tool ob.kind e) h
  close_as-Agrees thinking_block ob a e h = seal-Agrees ob a h
  close_as-Agrees tool_use ob a e h = seal-Agrees ob a h
  close_as-Agrees tool_result ob a e h = seal-Agrees ob a h

  -- The open block, named.
  pub Agrees-open :
      (o : Option (OpenBlock Cite)) (a : Assembler Cite Json)
      → a.open_block ≡ o
      → Agrees a
      → Agrees (record a { open_block = o })
  Agrees-open o a e h =
      h
      ∙ ap
          (λ (x : Option (OpenBlock Cite)). record {
            complete = map seen_block a.blocks;
            current = seen_open x;
          })
          e

  pub close_locked-Agrees :
      (a : Assembler Cite Json) → Agrees a → Agrees (close_locked space lower repair parts a)
  unfolding close_locked
  close_locked-Agrees a h = closed a.open_block refl
    where
      closed :
          (o : Option (OpenBlock Cite))
          → a.open_block ≡ o
          → Agrees (close_open space lower repair parts o a)
      closed none e = h
      closed (some ob) e = close_as-Agrees ob.kind ob a refl (Agrees-open (some ob) a e h)
