-- ===== src/Tests/DocpipeTests.antt =====
-- docpipe/group.go on three pages, and docpipe/decision on a server that refuses raw images.
use bepaylot.Prelude.{
  ℕ, ◌≤◌, ◌≡◌, refl, Text, text, contains_text, text_eq, lit, Bool, true, false, Option, some, List,
  [], ◌∷◌, ltb, if◌then◌else◌,
}
use bepaylot.Docpipe.Group.{PageDocType, Document, group_by_first_page, group_from, new_document}
use bepaylot.Docpipe.Group.Partition.{Groups, group_by_first_page-Groups}
use bepaylot.Docpipe.Decision.{
  Question, document_type, is_first_page, Answer, Reply, replied, Client, classified, classify_page,
  ask_both, ask_apart, ask, post_image, post_again, post,
}
use bepaylot.Docpipe.Decision.Posts.{AmongLabels, classify_page_bounds, classify_page-AmongLabels}

abbrev page : ℕ → Text → Bool → PageDocType ℕ
page n label first = record { page_no = n; label = label; confidence = 9; first_page = first }

-- A contract of two pages and an invoice.
abbrev pages : List (PageDocType ℕ)
pages =
    page 1 (text "contract") true
    ∷ page 2 (text "contract") false
    ∷ page 3 (text "invoice") true
    ∷ []

group_by_first_page-Groups_example : Groups ltb 5 pages (group_by_first_page ltb 5 pages)
group_by_first_page-Groups_example = group_by_first_page-Groups ltb 5 pages refl

abbrev document : ℕ → ℕ → Text → Document ℕ
document start end label = record {
  page_start = start;
  page_end = end;
  label = label;
  proposed_label = [];
  confidence = 9;
}

two_documents :
    group_by_first_page ltb 5 pages
    ≡ document 1 2 (text "contract") ∷ document 3 3 (text "invoice") ∷ []
unfolding group_by_first_page group_from new_document
two_documents = refl

-- It takes data URLs only, and one question at a time.
abbrev server : ℕ → Bool → List Question → Reply
server n false qs = replied 400 []
server n true [] = replied 400 []
server n true (document_type ∷ []) = replied 200 (text "d")
server n true (is_first_page ∷ []) = replied 200 (text "f")
server n true (q ∷ r ∷ rs) = replied 422 []

abbrev decode : Text → Option (List (Question × Answer ℕ))
unfolding text_eq
decode body =
    if text_eq body (text "d")
    then some ((document_type, record { choice = text "invoice"; confidence = 9 }) ∷ [])
    else some ((is_first_page, record { choice = text "YES"; confidence = 8 }) ∷ [])

abbrev client : Client
client = record { data_url = false; split = false; posts = 0 }

abbrev labels : List Text
labels = text "contract" ∷ text "invoice" ∷ []

classify_page_bounds_example :
    (1 ≤ (classify_page server decode labels client).0.posts)
    × ((classify_page server decode labels client).0.posts ≤ 5)
classify_page_bounds_example = classify_page_bounds server decode labels client

classify_page-AmongLabels_example :
    AmongLabels server decode labels (classify_page server decode labels client).1
classify_page-AmongLabels_example = classify_page-AmongLabels server decode labels client

classified_page :
    classify_page server decode labels client
    ≡ (record { data_url = true; split = true; posts = 5 }, classified (text "invoice") 9 true)
unfolding classify_page ask_both ask_apart ask post_image post_again post decode text_eq
    contains_text lit
classified_page = refl
