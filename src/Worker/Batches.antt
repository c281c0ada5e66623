-- ===== src/Worker/Batches.antt =====
-- What a batch of the outbox leaves behind.
use bash_builder.Prelude.{
  ℕ, ◌≡◌, refl, ap, inl, inr, Bool, true, false, ◌==◌, ==_iff, List, [], ◌∷◌, ◌++◌, all, Bool-cases,
  arith,
}
use bash_builder.Worker.Retry.{retry_delay_seconds}
use bash_builder.Worker.Outbox.{
  Claimed, Effect, sent, published, publish_one, dispatch, answers, delivered, is_setback,
}

==_refl : (n : ℕ) → (n == n) ≡ true
==_refl n = (==_iff n n).1 refl

module _ (sends marks fails : Claimed → Bool) (max_attempts : ℕ) where
  -- The events from the first on that does not go through, and what that one leaves.
  abbrev pub Stopped : List Claimed → List Effect → Type 0
  Stopped [] effects = effects ≡ []
  Stopped (e ∷ es) effects =
      (answers sends marks fails max_attempts e ≡ false) × (all (is_setback e) effects ≡ true)

  abbrev pub Splits : List Claimed → Type 0
  Splits es =
      (done : List Claimed) × (rest : List Claimed) × (last : List Effect) × (es ≡ done ++ rest)
      × (all (answers sends marks fails max_attempts) done ≡ true)
      × (dispatch sends marks fails max_attempts es ≡ delivered done ++ last)
      × Stopped rest last

  publish_one-answered :
      (e : Claimed)
      → answers sends marks fails max_attempts e ≡ true
      → publish_one sends marks fails max_attempts e ≡ (sent e.id ∷ published e.id ∷ [], true)
  unfolding publish_one
  publish_one-answered e h = ground (arith, h)

  publish_one-setback :
      (e : Claimed)
      → answers sends marks fails max_attempts e ≡ false
      → ((publish_one sends marks fails max_attempts e).1 ≡ false)
        × (all (is_setback e) (publish_one sends marks fails max_attempts e).0 ≡ true)
  unfolding publish_one
  publish_one-setback e h =
      ground (arith, h, ==_refl e.id, ==_refl (retry_delay_seconds e.attempt_count))

  -- A run over a batch sends and then marks as published, one after the other and in order, the
  -- events before the first that the schema, the broker or the database does not let through. That
  -- one is never marked as published: at most its message has been sent and its failure marked with
  -- the delay of its attempt. No event behind it is touched.
  pub dispatch-Splits : (es : List Claimed) → Splits es
  unfolding dispatch
  dispatch-Splits [] = ([], [], [], refl, refl, refl, refl)
  dispatch-Splits (e ∷ es) = elim (Bool-cases (answers sends marks fails max_attempts e)) [
    | inl through ↦
        let (done, rest, last, split, passed, trace, stop) = dispatch-Splits es in
        (
          e ∷ done,
          rest,
          last,
          ap (λ (l : List Claimed). e ∷ l) split,
          rw (through, passed) refl,
          rw (publish_one-answered e through, trace) refl,
          stop,
        )
    | inr stuck ↦
        let (ends, marked) = publish_one-setback e stuck in
        (
          [],
          e ∷ es,
          (publish_one sends marks fails max_attempts e).0,
          refl,
          refl,
          rw ends refl,
          (stuck, marked),
        )
  ]
