-- ===== src/Docpipe/Decision.antt =====
-- docpipe/decision/decision.go: how ClassifyPage asks the Decision API. The image, the request's JSON and
-- HTTP are left to the parameters: `server` answers the post with a number, as a data URL or not, of some
-- questions, and `decode` reads a body. Another client's posts are no part of the state.
pub mod Posts
use bepaylot.Prelude.{
  ℕ, zero, suc, ◌+◌, Text, text_eq, contains_text, lit, trim, Bool, true, false, ◌&&◌, ◌||◌, not,
  Option, none, some, List, [], ◌∷◌, ◌++◌, ◌==◌, ltb, if◌then◌else◌, length,
}
use bepaylot.TextUtil.{take_runes}

-- maxText
abbrev pub max_text : ℕ
max_text = 1500

abbrev pub is_nonempty {ℓ} : {A : Type ℓ} → List A → Bool
is_nonempty [] = false
is_nonempty (_ ∷ _) = true

-- state; `space` is unicode.IsSpace
unfoldable pub state : (ℕ → Bool) → Text → Text
unfolding trim lit
state space s =
    let t = trim space s in
    if not (is_nonempty t)
    then lit "Ảnh chứng từ:"
    else lit
        "Ảnh chứng từ, kèm văn bản OCR của trang. Đọc đúng từng chữ của tiêu đề trong văn bản: hai loại giấy tờ có thể chỉ khác nhau một từ.\n\nVăn bản OCR:\n"
      ++ (if ltb max_text (length t) then take_runes max_text t else t)

pub data Question : Type 0 where
  document_type is_first_page : Question

-- The answer to a question
pub record Answer (Float : Type 0) : Type 0 where
  pub choice : Text
  pub confidence : Float

-- A post fails, or gives a status and a body.
pub data Reply : Type 0 where
  not_sent : Reply
  replied : ℕ → Text → Reply

pub data DecisionError : Type 0 where
  not_reached : DecisionError
  http_status : ℕ → DecisionError
  not_decoded : DecisionError
  no_valid_choice : Text → DecisionError

-- Client, and the number of the posts it has made
pub record Client : Type 0 where
  pub data_url : Bool
  pub split : Bool
  pub posts : ℕ

abbrev pub has_status : ℕ → Reply → Bool
has_status n not_sent = false
has_status n (replied m body) = m == n

pub data Asked (Float : Type 0) : Type 0 where
  answered : List (Question × Answer Float) → Asked Float
  refused : DecisionError → Asked Float

abbrev pub is_question : Question → Question → Bool
is_question document_type document_type = true
is_question is_first_page is_first_page = true
is_question _ _ = false

abbrev pub find_answer :
    {Float : Type 0} → Question → List (Question × Answer Float) → Option (Answer Float)
find_answer q [] = none
find_answer q (a ∷ others) =
    let rest = find_answer q others in if is_question a.0 q then some a.1 else rest

-- What a call of ClassifyPage comes to: the choice, its confidence, and whether it is a first page.
pub data Classified (Float : Type 0) : Type 0 where
  classified : Text → Float → Bool → Classified Float
  not_classified : DecisionError → Classified Float

module _ {Float : Type 0} (server : ℕ → Bool → List Question → Reply)
    (decode : Text → Option (List (Question × Answer Float))) where
  -- post
  unfoldable pub post : Bool → List Question → Client → Client × Reply
  post as_data_url qs c = (record c { posts = suc c.posts }, server c.posts as_data_url qs)

  -- The second post, after a status 400 to the raw image.
  unfoldable pub post_again : List Question → Client → Client × Reply
  unfolding post
  post_again qs c =
      let (c', r) = post true qs c in (record c' { data_url = has_status 200 r || c'.data_url }, r)

  unfoldable pub post_image : List Question → Client → Client × Reply
  unfolding post post_again
  post_image qs c =
      let (c', r) = post c.data_url qs c in
      if has_status 400 r && not c.data_url then post_again qs c' else (c', r)

  -- New answers replace older ones to the same question.
  abbrev pub decoded :
      List (Question × Answer Float) → Option (List (Question × Answer Float)) → Asked Float
  decoded out none = refused not_decoded
  decoded out (some got) = answered (got ++ out)

  abbrev pub read_reply : List (Question × Answer Float) → Reply → Asked Float
  read_reply out not_sent = refused not_reached
  read_reply out (replied n body) =
      if n == 200 then decoded out (decode body) else refused (http_status n)

  -- ask, with the answers so far
  unfoldable pub ask :
      List Question → List (Question × Answer Float) → Client → Client × Asked Float
  unfolding post_image
  ask qs out c = let (c', r) = post_image qs c in (c', read_reply out r)

  abbrev pub after_document : Client × Asked Float → Client × Asked Float
  unfolding ask
  after_document (c, refused e) = (c, refused e)
  after_document (c, answered out) = ask (is_first_page ∷ []) out c

  abbrev pub note_split : Client × Asked Float → Client × Asked Float
  note_split (c, refused e) = (c, refused e)
  note_split (c, answered out) = (record c { split = true }, answered out)

  -- The two questions one by one.
  unfoldable pub ask_apart : Client → Client × Asked Float
  unfolding ask
  ask_apart c = note_split (after_document (ask (document_type ∷ []) [] c))

  abbrev pub or_apart : Client × Asked Float → Client × Asked Float
  unfolding ask_apart
  or_apart (c, refused e) = ask_apart c
  or_apart (c, answered out) = (c, answered out)

  unfoldable pub ask_both : Client → Client × Asked Float
  unfolding ask ask_apart
  ask_both c =
      if c.split then ask_apart c else or_apart (ask (document_type ∷ is_first_page ∷ []) [] c)

  abbrev pub says_yes : Option (Answer Float) → Bool
  unfolding text_eq
  says_yes none = false
  says_yes (some a) = text_eq a.choice (lit "YES")

  abbrev pub choose :
      List Text → List (Question × Answer Float) → Option (Answer Float) → Classified Float
  unfolding contains_text
  choose labels out none = not_classified (no_valid_choice [])
  choose labels out (some a) =
      if contains_text labels a.choice
      then classified a.choice a.confidence (says_yes (find_answer is_first_page out))
      else not_classified (no_valid_choice a.choice)

  abbrev pub conclude : List Text → Asked Float → Classified Float
  conclude labels (refused e) = not_classified e
  conclude labels (answered out) = choose labels out (find_answer document_type out)

  -- ClassifyPage, with the names of the labels
  unfoldable pub classify_page : List Text → Client → Client × Classified Float
  unfolding ask_both
  classify_page labels c = let (c', a) = ask_both c in (c', conclude labels a)
