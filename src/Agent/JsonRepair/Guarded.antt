-- ===== src/Agent/JsonRepair/Guarded.antt =====
-- The guard of internal/agent/textguard.go with the repair of internal/agent/jsonrepair.go: what a client
-- gets of a streamed reply.
use bepaylot.Prelude.{ℕ, subst, sym, Text, Bool, Option, none, some, List, [], ◌++◌}
use bepaylot.Agent.TextGuard.Account.{Repaired, kept, fixed, both}
use bepaylot.Agent.TextGuard.Lossless.{delivered, feed_all-flush}
use bepaylot.Agent.TextGuard.Feed.{joined}
use bepaylot.Agent.JsonRepair.{repair_json_expressions}
use bepaylot.Agent.JsonRepair.Values.{outside}
use bepaylot.Agent.JsonRepair.Rewrites.{Rewritten}
use bepaylot.Agent.JsonRepair.Repaired.{repair_json_expressions-Rewritten}

-- The result of the repair, which has one for every text.
abbrev pub result_or : Text → Option (Text × ℕ) → Text × ℕ
result_or s none = (s, 0)
result_or s (some r) = r

-- repairJSONExpressions, as the guard calls it
unfoldable pub guard_repair : (Text → Option Text) → Text → Text × ℕ
unfolding repair_json_expressions
guard_repair eval s = result_or s (repair_json_expressions eval s)

module _ (space : ℕ → Bool) (lower : Text → Text) (eval : Text → Option Text) where
  -- A text and what the client gets of it: parts of it as they are, and parts that are read as JSON, with
  -- expressions at places of values computed.
  pub data Computed : Text → Text → Type 0 where
    untouched : (s : Text) → Computed s s
    json : {s t : Text} (n : ℕ) → Rewritten eval (outside [] 0) s t n → Computed s t
    next : {s t s' t' : Text} → Computed s s' → Computed t t' → Computed (s ++ t) (s' ++ t')

  guard_repair-Computed : (s : Text) → Computed s (guard_repair eval s).0
  unfolding guard_repair
  guard_repair-Computed s =
      let (t, n, e, w) = repair_json_expressions-Rewritten eval s in
      subst (λ (o : Option (Text × ℕ)). Computed s (result_or s o).0) (sym e) (json n w)

  Repaired-Computed : {s t : Text} → Repaired space lower (guard_repair eval) s t → Computed s t
  Repaired-Computed (kept s) = untouched s
  Repaired-Computed (fixed s) = guard_repair-Computed s
  Repaired-Computed (both r q) = next (Repaired-Computed r) (Repaired-Computed q)

  -- What the client gets of a stream, in any chunks, is its text in order, in which nothing but values of
  -- parts read as JSON has been replaced: expressions that begin outside strings where a JSON value can
  -- stand, are no JSON numbers, and stand as the number that their evaluation gives.
  pub delivered-Computed :
      (chunks : List Text)
      → Computed (joined chunks) (delivered space lower (guard_repair eval) chunks)
  delivered-Computed chunks =
      Repaired-Computed (feed_all-flush space lower (guard_repair eval) chunks)
