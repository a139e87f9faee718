-- ===== src/Agent/TextGuard/Lossless.antt =====
-- `feed` and `flush` of internal/agent/textguard.go over a whole stream: what the client gets of it.
use bepaylot.Prelude.{
  ℕ, ◌≡◌, refl, sym, ap, ◌∙◌, subst, Text, Bool, true, false, List, [], ◌∷◌, ◌++◌, append_assoc,
  append-nil, ◌==◌, if◌then◌else◌, Bool-cases, inl, inr, trim,
}
use bepaylot.Agent.TextGuard.{
  Guard, GuardMode, pass, fenced, raw, new_guard, opens, end_raw, end_fenced, consume, then_output,
  feed_from, feed, feed_all, flush_at, flush,
}
use bepaylot.Agent.TextGuard.Account.{
  held_of, held, Tidy, Repaired, Accounted, Accounted-same, Accounted-consume_at, kept, fixed, both,
}
use bepaylot.Agent.TextGuard.Feed.{joined}

module _ (space : ℕ → Bool) (lower : Text → Text) (repair : Text → Text × ℕ) where
  Accounted-then :
      {i : Text} (j : Text) {x : Guard × Text} {k : Guard → Guard × Text}
      → Accounted space lower repair i x
      → ((g : Guard) → Tidy g → Accounted space lower repair (held g ++ j) (k g))
      → Accounted space lower repair (i ++ j) (then_output space lower repair x k)
  Accounted-then j {x} a f =
      let b = f x.0 a.tidy in
      record {
        released = a.released ++ b.released;
        split =
            ap (λ s. s ++ j) a.split
            ∙ append_assoc a.released (held x.0) j
            ∙ ap (λ s. a.released ++ s) b.split
            ∙ sym (append_assoc a.released b.released _);
        repaired = both a.repaired b.repaired;
        tidy = b.tidy;
      }

  Accounted-consume :
      (seg : Text) (complete : Bool) (g : Guard)
      → Tidy g
      → Accounted space lower repair (held g ++ seg) (consume space lower repair seg complete g)
  unfolding consume
  Accounted-consume seg complete g t =
      Accounted-consume_at space lower repair g.mode seg complete g refl t

  feed_from-newline :
      (seg chunk : Text) (r : ℕ) (g : Guard)
      → (r == 0x0a) ≡ true
      → feed_from space lower repair seg (r ∷ chunk) g
        ≡ then_output space lower repair
            (consume space lower repair (seg ++ r ∷ []) true g)
            (λ g'. feed_from space lower repair [] chunk g')
  unfolding feed_from
  feed_from-newline seg chunk r g e = rw (e, feed_from)

  feed_from-rune :
      (seg chunk : Text) (r : ℕ) (g : Guard)
      → (r == 0x0a) ≡ false
      → feed_from space lower repair seg (r ∷ chunk) g
        ≡ feed_from space lower repair (seg ++ r ∷ []) chunk g
  unfolding feed_from
  feed_from-rune seg chunk r g e = rw (e, feed_from)

  Accounted-idle : (g : Guard) → Tidy g → Accounted space lower repair (held g ++ []) (g, [])
  Accounted-idle g t = record {
    released = [];
    split = append-nil (held g);
    repaired = kept [];
    tidy = t;
  }

  Accounted-feed_from :
      (seg chunk : Text) (g : Guard)
      → Tidy g
      → Accounted space lower repair
          (held g ++ (seg ++ chunk))
          (feed_from space lower repair seg chunk g)
  Accounted-feed_from [] [] g t = unfold feed_from in Accounted-idle g t
  Accounted-feed_from (q ∷ seg) [] g t =
      unfold feed_from in
      Accounted-same space lower repair _ (ap (λ s. held g ++ s) (append-nil (q ∷ seg)))
        (Accounted-consume (q ∷ seg) false g t)
  Accounted-feed_from seg (r ∷ chunk) g t = elim (Bool-cases (r == 0x0a)) [
    | inl e ↦
        subst (Accounted space lower repair (held g ++ (seg ++ r ∷ chunk)))
          (sym (feed_from-newline seg chunk r g e))
          (Accounted-same space lower repair _
            (onward ∙ sym (append_assoc (held g) (seg ++ r ∷ []) chunk))
            (Accounted-then chunk (Accounted-consume (seg ++ r ∷ []) true g t)
              λ g' t'. Accounted-feed_from [] chunk g' t'))
    | inr e ↦
        subst (Accounted space lower repair (held g ++ (seg ++ r ∷ chunk)))
          (sym (feed_from-rune seg chunk r g e))
          (Accounted-same space lower repair _ onward
            (Accounted-feed_from (seg ++ r ∷ []) chunk g t))
  ]
    where
      onward : held g ++ (seg ++ r ∷ chunk) ≡ held g ++ ((seg ++ r ∷ []) ++ chunk)
      onward = ap (λ s. held g ++ s) (sym (append_assoc seg (r ∷ []) chunk))

  Accounted-feed_all :
      (chunks : List Text) (g : Guard)
      → Tidy g
      → Accounted space lower repair
          (held g ++ joined chunks)
          (feed_all space lower repair chunks g)
  unfolding feed_all feed
  Accounted-feed_all [] g t = Accounted-idle g t
  Accounted-feed_all (c ∷ cs) g t =
      Accounted-same space lower repair _ (sym (append_assoc (held g) c (joined cs))) (
        Accounted-then (joined cs) (Accounted-feed_from [] c g t)
          λ g' t'. Accounted-feed_all cs g' t')

  Repaired-if :
      (b : Bool) {s : Text} (x y : Guard × Text)
      → Repaired space lower repair s x.1
      → Repaired space lower repair s y.1
      → Repaired space lower repair s (if b then x else y).1
  Repaired-if true x y rx ry = rx
  Repaired-if false x y rx ry = ry

  Repaired-end_fenced :
      (g : Guard)
      → Repaired space lower repair
          (g.region_open ++ g.region)
          (end_fenced space lower repair [] g).1
  unfolding end_fenced
  Repaired-end_fenced g =
      subst (λ s. Repaired space lower repair s (end_fenced space lower repair [] g).1)
        (ap (λ s. g.region_open ++ s) (append-nil g.region))
        (Repaired-if (opens (trim space g.region)) _ _
          (both (kept g.region_open) (both (fixed g.region) (kept [])))
          (kept (g.region_open ++ (g.region ++ []))))

  Repaired-flush_at :
      (m : GuardMode) (g : Guard)
      → Repaired space lower repair
          (held_of m g.line g.region_open g.region)
          (flush_at space lower repair m g).1
  unfolding flush_at end_raw
  Repaired-flush_at pass g = kept g.line
  Repaired-flush_at fenced g = Repaired-end_fenced (record g { region = g.region ++ g.line })
  Repaired-flush_at raw g = fixed (g.region ++ g.line)

  -- The whole output for a stream: of its chunks, and of the end of the text.
  abbrev pub delivered : List Text → Text
  delivered chunks =
      let (g, out) = feed_all space lower repair chunks new_guard in
      out ++ (flush space lower repair g).1

  -- What the client gets of a stream, in any chunks, is the text of the stream in its order, in which some
  -- parts that do not overlap have been repaired: nothing is lost, doubled or moved.
  pub feed_all-flush :
      (chunks : List Text) → Repaired space lower repair (joined chunks) (delivered chunks)
  unfolding flush
  feed_all-flush chunks =
      let a = Accounted-feed_all chunks new_guard (inl refl) in
      subst (λ s. Repaired space lower repair s (delivered chunks)) (sym a.split)
        (both a.repaired
          (Repaired-flush_at (feed_all space lower repair chunks new_guard).0.mode _))
