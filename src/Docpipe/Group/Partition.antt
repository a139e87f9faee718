-- ===== src/Docpipe/Group/Partition.antt =====
-- GroupByFirstPage of docpipe/group.go against what a document is: a first page and those after it up to
-- the next first page.
use bepaylot.Prelude.{
  ℕ, ◌≡◌, ◌⊎◌, Text, text, not, ◌||◌, if-intro, refl, sym, ap, ◌∙◌, subst, Bool, true, false, List,
  [], ◌∷◌, ◌++◌, append_assoc, Bool-cases, inl, inr, All, arith,
}
use bepaylot.Docpipe.Group.{
  PageDocType, Document, is_nonempty, any_classified, extend_last, new_document, add_page,
  group_from, group_by_first_page,
}

module _ {Float : Type 0} where
  -- The number of the last page of a run.
  abbrev pub last_no : ℕ → List (PageDocType Float) → ℕ
  last_no n [] = n
  last_no n (p ∷ ps) = last_no p.page_no ps

  abbrev pub Continues : PageDocType Float → Type 0
  Continues p = p.first_page ≡ false

  abbrev pub StartsAnew : List (PageDocType Float) → Type 0
  StartsAnew [] = Unit
  StartsAnew (p ∷ ps) = p.first_page ≡ true

  last_no-snoc :
      (n : ℕ) (ps : List (PageDocType Float)) (p : PageDocType Float)
      → last_no n (ps ++ p ∷ []) ≡ p.page_no
  last_no-snoc n [] p = refl
  last_no-snoc n (q ∷ ps) p = last_no-snoc q.page_no ps p

  extend_last-snoc :
      (n : ℕ) (ds : List (Document Float)) (d : Document Float)
      → extend_last n (ds ++ d ∷ []) ≡ ds ++ record d { page_end = n } ∷ []
  extend_last-snoc n [] d = refl
  extend_last-snoc n (e ∷ []) d = refl
  extend_last-snoc n (e ∷ f ∷ ds) d = ap (λ t. e ∷ t) (extend_last-snoc n (f ∷ ds) d)

  nonempty-snoc :
      (ds : List (Document Float)) (d : Document Float) → is_nonempty (ds ++ d ∷ []) ≡ true
  nonempty-snoc [] d = refl
  nonempty-snoc (e ∷ ds) d = refl

module _ {Float : Type 0} (lt : Float → Float → Bool) (min_confidence : Float) where
  -- A document has the type that its first page was given with a confidence of at least the minimum ...
  abbrev pub Sure : PageDocType Float → Type 0
  Sure p = (is_nonempty p.label ≡ true) × (lt p.confidence min_confidence ≡ false)

  -- ... and else is unknown, and has what the page was given as a proposal.
  abbrev pub Unsure : PageDocType Float → Type 0
  Unsure p = (p.label ≡ []) ⊎ (lt p.confidence min_confidence ≡ true)

  -- `d` is the document of the page `p` that starts it and the pages that continue it.
  pub record Covers (p : PageDocType Float) (conts : List (PageDocType Float)) (d : Document Float)
      : Type 0 where
    pub from_first : d.page_start ≡ p.page_no
    pub to_last : d.page_end ≡ last_no p.page_no conts
    pub of_first : d.confidence ≡ p.confidence
    pub type_of_first :
        (Sure p × (d.label ≡ p.label) × (d.proposed_label ≡ []))
        ⊎ (Unsure p × (d.label ≡ text "unknown") × (d.proposed_label ≡ p.label))

  -- What the code makes of a page and those that continue it.
  abbrev document_of : PageDocType Float → List (PageDocType Float) → Document Float
  document_of p conts = record (new_document lt min_confidence p) {
    page_end = last_no p.page_no conts;
  }

  Covers-page_end :
      (p : PageDocType Float) (conts : List (PageDocType Float)) (d : Document Float)
      → Covers p [] d
      → Covers p conts (record d { page_end = last_no p.page_no conts })
  Covers-page_end p conts d c = record {
    from_first = c.from_first;
    to_last = refl;
    of_first = c.of_first;
    type_of_first = c.type_of_first;
  }

  unsure :
      (p : PageDocType Float)
      → (not (is_nonempty p.label) || lt p.confidence min_confidence) ≡ true
      → (label : Text) → p.label ≡ label
      → Unsure p
  unsure p h [] e = inl e
  unsure p h (r ∷ rs) e = inr (ground (arith, h, e))

  sure :
      (p : PageDocType Float)
      → (not (is_nonempty p.label) || lt p.confidence min_confidence) ≡ false
      → Sure p
  sure p h = ground (arith, h)

  new_document-Covers : (p : PageDocType Float) → Covers p [] (new_document lt min_confidence p)
  unfolding new_document
  new_document-Covers p =
      if-intro (Covers p []) (not (is_nonempty p.label) || lt p.confidence min_confidence) _ _
        (λ e. record {
          from_first = refl;
          to_last = refl;
          of_first = refl;
          type_of_first = inr (unsure p e p.label refl, refl, refl);
        })
        (λ e. record {
          from_first = refl;
          to_last = refl;
          of_first = refl;
          type_of_first = inl (sure p e, refl, refl);
        })

  document_of-Covers :
      (p : PageDocType Float) (conts : List (PageDocType Float))
      → Covers p conts (document_of p conts)
  document_of-Covers p conts = Covers-page_end p conts _ (new_document-Covers p)

  -- The pages, cut into runs of a page and those that continue it, and the documents of the runs.
  pub data Groups : List (PageDocType Float) → List (Document Float) → Type 0 where
    no_pages : Groups [] []
    run :
        {pages : List (PageDocType Float)} {ds : List (Document Float)} {d : Document Float}
        (p : PageDocType Float) (conts rest : List (PageDocType Float))
        → All Continues conts
        → StartsAnew rest
        → pages ≡ p ∷ (conts ++ rest)
        → Covers p conts d
        → Groups rest ds
        → Groups pages (d ∷ ds)

  document_of_alone : (p : PageDocType Float) → new_document lt min_confidence p ≡ document_of p []
  unfolding new_document
  document_of_alone p = ground arith

  -- The next page starts a document.
  add_page-new :
      (ds : List (Document Float)) (q : PageDocType Float)
      → q.first_page ≡ true
      → add_page lt min_confidence q ds ≡ ds ++ document_of q [] ∷ []
  add_page-new ds q e = ground (arith, e) ∙ ap (λ d. ds ++ d ∷ []) (document_of_alone q)

  -- The next page continues the last document.
  add_page-more :
      (ds : List (Document Float)) (p q : PageDocType Float) (conts : List (PageDocType Float))
      → q.first_page ≡ false
      → add_page lt min_confidence q (ds ++ document_of p conts ∷ [])
        ≡ ds ++ document_of p (conts ++ q ∷ []) ∷ []
  add_page-more ds p q conts e =
      ground (arith, e, nonempty-snoc ds (document_of p conts))
      ∙ extend_last-snoc q.page_no ds (document_of p conts)
      ∙ ap (λ n. ds ++ record (new_document lt min_confidence p) { page_end = n } ∷ [])
          (sym (last_no-snoc p.page_no conts q))

  All-snoc :
      (ps : List (PageDocType Float)) (p : PageDocType Float)
      → All Continues ps
      → Continues p
      → All Continues (ps ++ p ∷ [])
  All-snoc [] p h k = (k, tt)
  All-snoc (q ∷ ps) p h k = (h.0, All-snoc ps p h.1 k)

  group_from-Groups :
      (ds : List (Document Float)) (p : PageDocType Float) (conts ps : List (PageDocType Float))
      → All Continues conts
      → (es : List (Document Float)) × Groups (p ∷ (conts ++ ps)) es
        × (group_from lt min_confidence (ds ++ document_of p conts ∷ []) ps ≡ ds ++ es)
  unfolding group_from
  group_from-Groups ds p conts [] h = (
    document_of p conts ∷ [],
    run p conts [] h tt refl (document_of-Covers p conts) no_pages,
    refl,
  )
  group_from-Groups ds p conts (q ∷ ps) h = elim (Bool-cases q.first_page) [
    | inl e ↦
        let (es, g, eq) = group_from-Groups (ds ++ document_of p conts ∷ []) q [] ps tt in
        (
          document_of p conts ∷ es,
          run p conts (q ∷ ps) h e refl (document_of-Covers p conts) g,
          ap (λ out. group_from lt min_confidence out ps)
                (add_page-new (ds ++ document_of p conts ∷ []) q e)
              ∙ eq
              ∙ append_assoc ds (document_of p conts ∷ []) es,
        )
    | inr e ↦
        let (es, g, eq) = group_from-Groups ds p (conts ++ q ∷ []) ps (All-snoc conts q h e) in
        (
          es,
          subst (λ ts. Groups (p ∷ ts) es) (append_assoc conts (q ∷ []) ps) g,
          ap (λ out. group_from lt min_confidence out ps) (add_page-more ds p q conts e) ∙ eq,
        )
  ]

  first_page-Groups :
      (p : PageDocType Float) (ps : List (PageDocType Float))
      → Groups (p ∷ ps) (group_from lt min_confidence [] (p ∷ ps))
  unfolding group_from
  first_page-Groups p ps =
      let (es, g, eq) = group_from-Groups [] p [] ps tt in
      subst (Groups (p ∷ ps))
        (sym (ap (λ d. group_from lt min_confidence (d ∷ []) ps) (document_of_alone p) ∙ eq)) g

  -- Of a file with a classified page, GroupByFirstPage gives one document for each run of a page and the
  -- pages after it that are no first pages: it goes from the page that starts the run to its last page
  -- and has the confidence of the page that starts it, and its type when that page has one and is not
  -- below the minimum; else it is unknown, and keeps the type as a proposal. Every page is in one run, in
  -- order.
  pub group_by_first_page-Groups :
      (ps : List (PageDocType Float))
      → any_classified ps ≡ true
      → Groups ps (group_by_first_page lt min_confidence ps)
  unfolding group_by_first_page
  group_by_first_page-Groups [] h = cc
  group_by_first_page-Groups (p ∷ ps) h =
      subst (Groups (p ∷ ps)) {x = group_from lt min_confidence [] (p ∷ ps)} (ground (arith, h))
        (first_page-Groups p ps)
