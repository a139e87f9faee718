-- ===== src/Agent/Steer.antt =====
-- internal/agent/steer.go: the inbox of one running turn, and the registry of running turns. The fields
-- that a mutex guards are a state that each method takes and returns: a method runs under the lock from
-- its first line to its last.
pub mod Replay
pub mod Delivery
pub mod Registry
use bepaylot.Prelude.{
  ℕ, zero, suc, Text, text, Bool, true, false, ◌&&◌, ◌||◌, not, Option, none, some, List, [], ◌∷◌,
  ◌++◌, ◌==◌, ltb, leb, if◌then◌else◌, length, map, lit, contains_text, contains_rune,
}
use bepaylot.GoLibrary.{Unicode}
use bepaylot.TextUtil.{fields_from}

-- steerMsg; `Row` stands for the stored row.
pub record SteerMsg (Row : Type 0) : Type 0 where
  pub body : Text
  pub row : Row

-- placedMsg
pub record PlacedMsg (Message : Type 0) : Type 0 where
  pub at : ℕ
  pub message : Message

-- steerer
pub record Steerer (Row Message : Type 0) : Type 0 where
  pub closed : Bool
  pub pending : List (SteerMsg Row)
  pub placed : List (PlacedMsg Message)
  pub taken : ℕ

abbrev pub new_steerer : {Row Message : Type 0} → Steerer Row Message
new_steerer = record { closed = false; pending = []; placed = []; taken = 0 }

-- steerNotice
unfoldable pub steer_notice : Text
unfolding lit
steer_notice =
    lit
      "[New message from the user, sent while you were still working on the previous request. Take it into account from now on: if it changes or narrows the task, adapt and carry on; if it is a question, answer it briefly in your next reply and then continue the task. Do not start over.]\n"

-- The inner loop of `apply`: the messages placed at `i` or before it, and the placed messages after them.
unfoldable pub due :
    {Message : Type 0} → ℕ → List (PlacedMsg Message) → List Message × List (PlacedMsg Message)
due i [] = ([], [])
due i (p ∷ ps) =
    let rest = due i ps in if leb p.at i then (p.message ∷ rest.0, rest.1) else ([], p ∷ ps)

-- The loop of `apply` from index `i` on, over the messages from there and what is still to be placed.
unfoldable pub splice :
    {Message : Type 0} → ℕ → List Message → List (PlacedMsg Message) → List Message
splice i [] ps = (due i ps).0
splice i (m ∷ ms) ps = (due i ps).0 ++ (m ∷ splice (suc i) ms (due i ps).1)

-- `if len(s.placed) == 0 { return in }`, and the loop.
abbrev pub spliced : {Message : Type 0} → List Message → List (PlacedMsg Message) → List Message
unfolding splice
spliced input [] = input
spliced input (p ∷ ps) = splice 0 input (p ∷ ps)

-- `user_message` stands for schema.UserMessage.
module _ {Row Message : Type 0} (user_message : Text → Message) where
  abbrev pub framed : SteerMsg Row → Message
  framed m = user_message (steer_notice ++ m.body)

  -- push
  unfoldable pub push : SteerMsg Row → Steerer Row Message → Steerer Row Message × Bool
  push m s =
      if s.closed
      then (s, false)
      else (record s { pending = s.pending ++ m ∷ []; taken = suc s.taken }, true)

  -- close
  unfoldable pub close : Steerer Row Message → Steerer Row Message × List (SteerMsg Row)
  close s = (record s { closed = true; pending = [] }, s.pending)

  -- The pending messages, placed at the end of a transcript of `n` messages.
  abbrev pub place : ℕ → List (SteerMsg Row) → List (PlacedMsg Message)
  place n [] = []
  place n (m ∷ ms) = record { at = n; message = framed m } ∷ place n ms

  -- apply
  unfoldable pub apply : List Message → Steerer Row Message → Steerer Row Message × List Message
  unfolding splice
  apply input s =
      let placed = s.placed ++ place (length input) s.pending in
      (record s { placed = placed; pending = [] }, spliced input placed)

-- accepted
abbrev pub accepted : {Row Message : Type 0} → Steerer Row Message → ℕ
accepted s = s.taken

-- activeRun is a heap object that the registry and the goroutine of its turn share: the registry holds
-- its address, and `done` is the state of its channel.
pub record RunRegistry : Type 0 where
  -- the map from sessions to the addresses of their runs
  pub runs : List (ℕ × ℕ)
  -- the address of the next run
  pub fresh : ℕ
  -- the addresses of the runs whose `done` is closed
  pub done : List ℕ

abbrev pub new_registry : RunRegistry
new_registry = record { runs = []; fresh = 0; done = [] }

-- `g.runs[id]`
unfoldable pub find_run : ℕ → List (ℕ × ℕ) → Option ℕ
find_run id [] = none
find_run id (e ∷ es) = let rest = find_run id es in if e.0 == id then some e.1 else rest

-- `delete(g.runs, id)`
unfoldable pub delete_run : ℕ → List (ℕ × ℕ) → List (ℕ × ℕ)
delete_run id [] = []
delete_run id (e ∷ es) = let rest = delete_run id es in if e.0 == id then rest else e ∷ rest

abbrev pub acquired : ℕ → RunRegistry → Option ℕ → RunRegistry × ℕ × Bool
acquired id g (some cur) = (g, cur, false)
acquired id g none =
    (record g { runs = (id, g.fresh) ∷ g.runs; fresh = suc g.fresh }, g.fresh, true)

-- acquire
unfoldable pub acquire : ℕ → RunRegistry → RunRegistry × ℕ × Bool
unfolding find_run
acquire id g = acquired id g (find_run id g.runs)

-- The removal that `release` makes under the lock.
abbrev pub is_run : Option ℕ → ℕ → Bool
is_run none r = false
is_run (some cur) r = cur == r

-- release; `none` is the panic of closing a channel that is closed.
unfoldable pub release : ℕ → ℕ → RunRegistry → Option RunRegistry
unfolding find_run delete_run contains_rune
release id r g =
    if contains_rune g.done r
    then none
    else some (record g {
      runs = if is_run (find_run id g.runs) r then delete_run id g.runs else g.runs;
      done = r ∷ g.done;
    })

-- stopWords and maxStopWords
unfoldable pub stop_words : List Text
stop_words =
    text "stop"
    ∷ text "cancel"
    ∷ text "abort"
    ∷ text "halt"
    ∷ text "dừng"
    ∷ text "dung"
    ∷ text "hủy"
    ∷ text "huỷ"
    ∷ text "huy"
    ∷ []

abbrev pub max_stop_words : ℕ
max_stop_words = 3

abbrev pub first_is_stop : List Text → Bool
unfolding contains_text stop_words
first_is_stop [] = false
first_is_stop (w ∷ ws) =
    if ltb max_stop_words (suc (length ws)) then false else contains_text stop_words w

-- isStopRequest; strings.FieldsFunc is `fields_from` with another test for what separates words.
unfoldable pub is_stop_request : {Float : Type 0} → Unicode Float → Text → Bool
unfolding fields_from contains_text stop_words
is_stop_request u s = first_is_stop (
    fields_from (record u { is_space = λ r. not (u.is_letter r) && not (u.is_digit r) }) []
      (u.to_lower s))
