-- ===== src/Queue/Duplicates.antt =====
-- Enqueue of internal/queue/inline.go on a task id that is known.
use bepaylot.Prelude.{
  ℕ, ◌≡◌, sym, ap, ◌∙◌, subst, Text, contains_text, text_eq_refl, true, Option, none, some, List,
  [], ◌∷◌, arith,
}
use bepaylot.Queue.{Request, Inline, is_nonempty, enqueue, enqueue_marshalled, enqueue_all}

seen-marshalled :
    (id : Text) (now : ℕ) (r : Request) (q : Inline) (payload : Option Text)
    → contains_text q.seen id ≡ true
    → contains_text (enqueue_marshalled now r q payload).0.seen id ≡ true
unfolding contains_text
seen-marshalled id now r q none h = h
seen-marshalled id now r q (some p) h = ground (arith, h)

seen-enqueue_all :
    (id : Text) (now : ℕ) (rs : List Request) (q : Inline)
    → contains_text q.seen id ≡ true
    → contains_text (enqueue_all now rs q).seen id ≡ true
unfolding enqueue_all enqueue
seen-enqueue_all id now [] q h = h
seen-enqueue_all id now (r ∷ rs) q h =
    seen-enqueue_all id now rs _ (seen-marshalled id now r q r.payload h)

seen-enqueue :
    (now : ℕ) (r : Request) (payload : Text) (q : Inline)
    → is_nonempty r.id ≡ true
    → r.payload ≡ some payload
    → contains_text (enqueue now r q).0.seen r.id ≡ true
unfolding enqueue contains_text
seen-enqueue now r payload q e p =
    subst (λ o. contains_text (enqueue_marshalled now r q o).0.seen r.id ≡ true) (sym p)
      (ground (arith, e, text_eq_refl r.id))

known :
    (n : ℕ) (s : Request) (payload : Text) (q : Inline)
    → is_nonempty s.id ≡ true
    → contains_text q.seen s.id ≡ true
    → s.payload ≡ some payload
    → enqueue n s q ≡ (q, true)
unfolding enqueue
known n s payload q a b c = ap (enqueue_marshalled n s q) c ∙ ground (arith, a, b)

-- After a request with an id that is not empty, and after whatever other requests, a request with the same
-- id changes nothing and gives no error, where the payloads of both can be marshalled.
pub enqueue-enqueue_all :
    (now later last : ℕ) (r again : Request) (rs : List Request) (payload payload' : Text)
    (q : Inline)
    → is_nonempty r.id ≡ true
    → again.id ≡ r.id
    → r.payload ≡ some payload
    → again.payload ≡ some payload'
    → enqueue last again (enqueue_all later rs (enqueue now r q).0)
      ≡ (enqueue_all later rs (enqueue now r q).0, true)
enqueue-enqueue_all now later last r again rs payload payload' q e same p p' =
    known last again payload' _ (ap is_nonempty same ∙ e)
      (ap (contains_text (enqueue_all later rs (enqueue now r q).0).seen) same
        ∙ seen-enqueue_all r.id later rs (enqueue now r q).0 (seen-enqueue now r payload q e p))
      p'
