-- ===== src/Agent/TextGuard.antt =====
-- internal/agent/textguard.go: the guard between the model's streamed text and the client. Texts are
-- lists of code points; the bytes that the source looks at are ASCII, which UTF-8 keeps apart. The
-- repair of a JSON region (`repairJSONExpressions`), `unicode.IsSpace` and `strings.ToLower` are
-- parameters.
pub mod Chunks
pub mod Feed
pub mod Account
pub mod Lossless
use bepaylot.Prelude.{
  ℕ, zero, suc, ◌+◌, Text, text, text_eq, has_prefix, contains_rune, trim, trim_left, Bool, true,
  false, ◌&&◌, ◌||◌, not, List, [], ◌∷◌, ◌++◌, ◌==◌, if◌then◌else◌,
}
use bepaylot.GoLibrary.{ℤ, pos, negsuc}

pub data GuardMode : Type 0 where
  pass fenced raw : GuardMode

-- `textGuard`
pub record Guard : Type 0 where
  pub mode : GuardMode
  pub line : Text
  pub partial : Bool
  pub in_fence : Bool
  pub region_open : Text
  pub region : Text
  pub depth : ℤ
  pub in_str : Bool
  pub esc : Bool
  pub fixes : ℕ

abbrev pub new_guard : Guard
new_guard = record {
  mode = pass;
  line = [];
  partial = false;
  in_fence = false;
  region_open = [];
  region = [];
  depth = pos 0;
  in_str = false;
  esc = false;
  fixes = 0;
}

abbrev pub increment : ℤ → ℤ
increment (pos n) = pos (suc n)
increment (negsuc zero) = pos 0
increment (negsuc (suc n)) = negsuc n

abbrev pub decrement : ℤ → ℤ
decrement (pos zero) = negsuc 0
decrement (pos (suc n)) = pos n
decrement (negsuc n) = negsuc (suc n)

-- `depth <= 0`
abbrev pub is_closed : ℤ → Bool
is_closed (pos zero) = true
is_closed (pos (suc n)) = false
is_closed (negsuc n) = true

-- `scanRaw`, a rune at a time.
unfoldable pub scan_rune : ℕ → Guard → Guard
scan_rune c g =
    if g.in_str
    then (if g.esc
        then record g { esc = false }
        else if c == 0x5c
        then record g { esc = true }
        else if c == b'"'
        then record g { in_str = false }
        else g)
    else if c == b'"'
    then record g { in_str = true }
    else if c == b'{' || c == b'['
    then record g { depth = increment g.depth }
    else if c == b'}' || c == b']'
    then record g { depth = decrement g.depth }
    else g

unfoldable pub scan_raw : Text → Guard → Guard
unfolding scan_rune
scan_raw [] g = g
scan_raw (c ∷ cs) g = scan_raw cs (scan_rune c g)

abbrev pub fence : Text
fence = text "```"

abbrev pub is_blank : ℕ → Bool
is_blank r = r == b' ' || r == 0x09

abbrev pub opens : Text → Bool
opens [] = false
opens (r ∷ rs) = r == b'{' || r == b'['

-- `mightStartRegion`, of the line without its leading blanks.
unfoldable pub might_start : Bool → Text → Bool
might_start in_fence [] = true
might_start in_fence (r ∷ rs) =
    has_prefix fence (r ∷ rs) || has_prefix (r ∷ rs) fence || (not in_fence && opens (r ∷ rs))

unfoldable pub might_start_region : Bool → Text → Bool
unfolding might_start
might_start_region in_fence line = might_start in_fence (trim_left is_blank line)

abbrev pub drop_three : Text → Text
drop_three (a ∷ b ∷ c ∷ rest) = rest
drop_three _ = []

module _ (space : ℕ → Bool) (lower : Text → Text) (repair : Text → Text × ℕ) where
  abbrev pub may_follow : Text → Bool
  may_follow [] = true
  may_follow (r ∷ rs) = contains_rune (text "{[\"") r

  -- `startsRawJSON`
  unfoldable pub starts_raw_json : Text → Bool
  starts_raw_json [] = false
  starts_raw_json (r ∷ rs) =
      if r == b'{' then true else if r == b'[' then may_follow (trim space rs) else false

  -- `endRaw`
  unfoldable pub end_raw : Guard → Guard × Text
  end_raw g =
      let (fixed, n) = repair g.region in
      (record g { fixes = g.fixes + n; region = []; mode = pass }, fixed)

  -- `endFenced`
  unfoldable pub end_fenced : Text → Guard → Guard × Text
  end_fenced close_line g =
      let (fixed, n) = repair g.region in
      if opens (trim space g.region)
      then (
        record g { fixes = g.fixes + n; region = []; region_open = []; mode = pass },
        g.region_open ++ (fixed ++ close_line),
      )
      else (
        record g { region = []; region_open = []; mode = pass },
        g.region_open ++ (g.region ++ close_line),
      )

  unfoldable pub is_json_tag : Text → Bool
  is_json_tag tag =
      text_eq tag []
      || text_eq tag (text "json")
      || text_eq tag (text "jsonc")
      || text_eq tag (text "json5")

  -- A line that starts with a fence, outside a region.
  unfoldable pub fence_line : Text → Guard → Guard × Text
  fence_line line g =
      if g.in_fence
      then (record g { in_fence = false }, line)
      else if is_json_tag (lower (trim space (drop_three (trim space line))))
      then (record g { mode = fenced; region_open = line; region = [] }, [])
      else (record g { in_fence = true }, line)

  -- After a line of a raw region has been scanned.
  unfoldable pub after_scan : Guard → Guard × Text
  unfolding end_raw
  after_scan g = if is_closed g.depth then end_raw g else (g, [])

  unfoldable pub open_raw : Text → Guard → Guard × Text
  unfolding after_scan scan_raw
  open_raw line g = after_scan (
      scan_raw line
        (record g { mode = raw; region = line; depth = pos 0; in_str = false; esc = false }))

  -- `startOrPass`
  unfoldable pub start_or_pass : Text → Guard → Guard × Text
  start_or_pass line g =
      if has_prefix (trim space line) fence
      then fence_line line g
      else if not g.in_fence && starts_raw_json (trim space line)
      then open_raw line g
      else (g, line)

  -- A complete line of a fenced or raw region.
  unfoldable pub fenced_line : Text → Guard → Guard × Text
  fenced_line line g =
      if text_eq (trim space line) fence
      then end_fenced line g
      else (record g { region = g.region ++ line }, [])

  unfoldable pub raw_line : Text → Guard → Guard × Text
  raw_line line g = after_scan (scan_raw line (record g { region = g.region ++ line }))

  -- An incomplete line outside a region: it is held while it may still open one.
  unfoldable pub hold_or_release : Guard → Guard × Text
  hold_or_release g =
      if might_start_region g.in_fence g.line
      then (g, [])
      else (record g { line = []; partial = true }, g.line)

  -- `consume`, by the mode; `held` is the line with the segment appended.
  unfoldable pub consume_at : GuardMode → Text → Bool → Guard → Guard × Text
  consume_at fenced seg complete g =
      if complete
      then fenced_line (g.line ++ seg) (record g { line = [] })
      else (record g { line = g.line ++ seg }, [])
  consume_at raw seg complete g =
      if complete
      then raw_line (g.line ++ seg) (record g { line = [] })
      else (record g { line = g.line ++ seg }, [])
  consume_at pass seg complete g =
      if g.partial
      then (record g { partial = not complete }, seg)
      else if complete
      then start_or_pass (g.line ++ seg) (record g { line = [] })
      else hold_or_release (record g { line = g.line ++ seg })

  unfoldable pub consume : Text → Bool → Guard → Guard × Text
  consume seg complete g = consume_at g.mode seg complete g

  -- First one output, then what the rest gives.
  abbrev pub then_output : Guard × Text → (Guard → Guard × Text) → Guard × Text
  then_output (g, out) k = let (g', out') = k g in (g', out ++ out')

  abbrev pub is_nonempty : Text → Bool
  is_nonempty [] = false
  is_nonempty (_ ∷ _) = true

  -- The loop of `feed`: `seg` is the part of a line that has been scanned for the newline.
  unfoldable pub feed_from : Text → Text → Guard → Guard × Text
  feed_from seg [] g = if is_nonempty seg then consume seg false g else (g, [])
  feed_from seg (r ∷ rs) g = elim (r == 0x0a) [
    | true ↦ then_output (consume (seg ++ r ∷ []) true g) (λ g'. feed_from [] rs g')
    | false ↦ feed_from (seg ++ r ∷ []) rs g
  ]

  -- `feed`
  unfoldable pub feed : Text → Guard → Guard × Text
  unfolding feed_from
  feed chunk g = feed_from [] chunk g

  -- `flush`
  unfoldable pub flush_at : GuardMode → Guard → Guard × Text
  flush_at pass g = (record g { line = []; partial = false }, g.line)
  flush_at fenced g =
      let (g', out) = end_fenced [] (record g { region = g.region ++ g.line }) in
      (record g' { line = []; partial = false }, out)
  flush_at raw g =
      let (g', out) = end_raw (record g { region = g.region ++ g.line }) in
      (record g' { line = []; partial = false }, out)

  unfoldable pub flush : Guard → Guard × Text
  unfolding flush_at
  flush g = flush_at g.mode g

  -- A stream of chunks, one after another.
  unfoldable pub feed_all : List Text → Guard → Guard × Text
  feed_all [] g = (g, [])
  feed_all (c ∷ cs) g = then_output (feed c g) (λ g'. feed_all cs g')
