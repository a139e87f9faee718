-- ===== src/Docpipe/Decision/Posts.antt =====
-- ClassifyPage of docpipe/decision/decision.go: how often it posts, and what it can answer.
use bepaylot.Prelude.{
  ℕ, suc, ◌+◌, ◌≤◌, ◌≡◌, refl, Text, contains_text, Bool, true, Option, none, some, List, ◌==◌, [],
  ◌∷◌, inl, inr, if◌then◌else◌, if-intro, Bool-cases, arith,
}
use bepaylot.Docpipe.Decision.{
  Question, Answer, Reply, not_sent, replied, has_status, decoded, read_reply, Client, Asked,
  answered, refused, Classified, classified, not_classified, find_answer, is_first_page,
  document_type, post, post_again, post_image, ask, after_document, note_split, ask_apart, or_apart,
  ask_both, choose, conclude, classify_page,
}

module _ {Float : Type 0} (server : ℕ → Bool → List Question → Reply)
    (decode : Text → Option (List (Question × Answer Float))) where
  -- The post that a client may lose on a raw image.
  abbrev spare : Client → ℕ
  spare c = if c.data_url then 0 else 1

  -- When an ask is answered, the posts it has made leave at most `n` with the one that may still be lost.
  abbrev Paid : ℕ → Client × Asked Float → Type 0
  Paid n (c, answered out) = c.posts + spare c ≤ n
  Paid n (c, refused e) = Unit

  decoded-Paid :
      (n : ℕ) (c : Client) (out : List (Question × Answer Float))
      (got : Option (List (Question × Answer Float)))
      → c.posts + spare c ≤ n
      → Paid n (c, decoded server decode out got)
  decoded-Paid n c out none h = tt
  decoded-Paid n c out (some as_list) h = h

  reply-Paid :
      (n : ℕ) (c : Client) (out : List (Question × Answer Float)) (r : Reply)
      → (has_status 200 r ≡ true → c.posts + spare c ≤ n)
      → Paid n (c, read_reply server decode out r)
  reply-Paid n c out not_sent h = tt
  reply-Paid n c out (replied m body) h =
      if-intro (λ a. Paid n (c, a)) (m == 200) _ _ (λ e. decoded-Paid n c out (decode body) (h e))
        (λ e. tt)

  post_image_paid :
      (qs : List Question) (c : Client)
      → has_status 200 (post_image server decode qs c).1 ≡ true
      → (post_image server decode qs c).0.posts + spare (post_image server decode qs c).0
        ≤ c.posts + 1 + spare c
  unfolding post_image post_again post
  post_image_paid qs c h = ground (arith, h)

  ask-Paid :
      (qs : List Question) (out : List (Question × Answer Float)) (c : Client)
      → Paid (c.posts + 1 + spare c) (ask server decode qs out c)
  unfolding ask
  ask-Paid qs out c =
      reply-Paid (c.posts + 1 + spare c) (post_image server decode qs c).0 out
        (post_image server decode qs c).1 (post_image_paid qs c)

  ask_bounds :
      (qs : List Question) (out : List (Question × Answer Float)) (c : Client)
      → (suc c.posts ≤ (ask server decode qs out c).0.posts)
        × ((ask server decode qs out c).0.posts ≤ c.posts + 1 + spare c)
        × (spare (ask server decode qs out c).0 ≤ spare c)
  unfolding ask post_image post_again post
  ask_bounds qs out c = ground arith

  after_document_bounds :
      (n : ℕ) (x : Client × Asked Float)
      → x.0.posts ≤ n
      → Paid n x
      → (x.0.posts ≤ (after_document server decode x).0.posts)
        × ((after_document server decode x).0.posts ≤ n + 1)
  unfolding after_document
  after_document_bounds n (c, refused e) h k = (omega arith, omega (arith, h))
  after_document_bounds n (c, answered out) h k =
      omega (arith, k, ask_bounds (is_first_page ∷ []) out c)

  note_split-posts : (x : Client × Asked Float) → (note_split server decode x).0.posts ≡ x.0.posts
  note_split-posts (c, refused e) = refl
  note_split-posts (c, answered out) = refl

  ask_apart_bounds :
      (c : Client)
      → (suc c.posts ≤ (ask_apart server decode c).0.posts)
        × ((ask_apart server decode c).0.posts ≤ c.posts + 2 + spare c)
  unfolding ask_apart
  ask_apart_bounds c =
      let asked : Client × Asked Float = ask server decode (document_type ∷ []) [] c in
      let bounds = ask_bounds (document_type ∷ []) [] c in
      omega (
        arith,
        bounds,
        after_document_bounds (c.posts + 1 + spare c) asked bounds.1
            (ask-Paid (document_type ∷ []) [] c),
        note_split-posts (after_document server decode asked),
      )

  or_apart_bounds :
      (x : Client × Asked Float)
      → (x.0.posts ≤ (or_apart server decode x).0.posts)
        × ((or_apart server decode x).0.posts ≤ x.0.posts + 2 + spare x.0)
  unfolding or_apart
  or_apart_bounds (c, refused e) = omega (arith, ask_apart_bounds c)
  or_apart_bounds (c, answered out) = (omega arith, omega arith)

  -- The most posts of a call of ClassifyPage: asked apart, two, and one more when raw images may be
  -- refused; else one for both questions first, and again one more for it.
  abbrev pub most_posts : Client → ℕ
  most_posts c = if c.split then (if c.data_url then 2 else 3) else (if c.data_url then 3 else 5)

  -- A call of ClassifyPage makes at least one post. It makes at most five; at most three once the server
  -- is known to refuse the two questions together, or raw images; and at most two once both are known.
  pub classify_page_bounds :
      (labels : List Text) (c : Client)
      → (suc c.posts ≤ (classify_page server decode labels c).0.posts)
        × ((classify_page server decode labels c).0.posts ≤ c.posts + most_posts c)
  unfolding classify_page ask_both
  classify_page_bounds labels c = elim (Bool-cases c.split) [
    | inl e ↦ ground (arith, e, ask_apart_bounds c)
    | inr e ↦ ground (
      arith,
      e,
      or_apart_bounds (ask server decode (document_type ∷ is_first_page ∷ []) [] c),
      ask_bounds (document_type ∷ is_first_page ∷ []) [] c,
    )
  ]

  -- What ClassifyPage answers is a choice among the labels.
  abbrev pub AmongLabels : List Text → Classified Float → Type 0
  AmongLabels labels (classified choice confidence first) = contains_text labels choice ≡ true
  AmongLabels labels (not_classified e) = Unit

  choose-AmongLabels :
      (labels : List Text) (out : List (Question × Answer Float)) (a : Option (Answer Float))
      → AmongLabels labels (choose server decode labels out a)
  unfolding choose
  choose-AmongLabels labels out none = tt
  choose-AmongLabels labels out (some a) =
      if-intro (AmongLabels labels) (contains_text labels a.choice) _ _ (λ e. e) (λ e. tt)

  conclude-AmongLabels :
      (labels : List Text) (a : Asked Float) → AmongLabels labels (conclude server decode labels a)
  conclude-AmongLabels labels (refused e) = tt
  conclude-AmongLabels labels (answered out) =
      choose-AmongLabels labels out (find_answer document_type out)

  -- Whatever the server answers, a page that ClassifyPage classifies gets one of the labels it was given.
  pub classify_page-AmongLabels :
      (labels : List Text) (c : Client)
      → AmongLabels labels (classify_page server decode labels c).1
  unfolding classify_page
  classify_page-AmongLabels labels c = conclude-AmongLabels labels (ask_both server decode c).1
