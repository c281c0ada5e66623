-- ===== src/Hht/Published.antt =====
-- The public snapshot of a period and the tables it was taken from.
use bash_builder.Prelude.{
  ℕ, ◌≡◌, ap, sym, ◌∙◌, subst, inl, inr, true, not, ◌&&◌, Option, some, none, List, [], ◌∷◌, All,
  All-mono, is_none, Bool-cases, Result-cases, of_some-eq, ok, ◌>>=◌, >>=-eq-ok, throw_if-eq-ok,
  or_throw, ok-injective, after, arith, Identity, write, bad_request, if◌then◌else◌,
}
use bash_builder.Prelude.Select.{find_first, update_first, update_first-All}
use bash_builder.Hht.Types.{Period, same_period, Window, is_open, Snapshot, Publication, Tables}
use bash_builder.Hht.Schema.{PublicationInput, parse_publication, parse_period}
use bash_builder.Hht.Service.{
  window_of, create_company, upsert_report, set_report_status, upsert_window, grant_exception,
  revoke_exception,
}
use bash_builder.Hht.Closing.{
  close_window, publish_period, store_publication, publishable, publication_made,
  publication_revoked, new_publication,
}
use bash_builder.Hht.Requests.{
  Call, add_company, put_report, set_status, put_window, grant, revoke, close, publish, handle,
  serve,
}
use bash_builder.Hht.Periods.{Same, same_period-eq, IsClosed}
use bash_builder.Hht.Frozen.{handle-Same}

-- The snapshot, where there is one, is what publishing the period now would take.
abbrev pub IsCurrent : Tables → Publication → Type 0
IsCurrent t x = (s : Snapshot) → x.snapshot ≡ some s → publishable x.period t ≡ ok s

abbrev pub AllCurrent : Tables → Type 0
AllCurrent t = All (IsCurrent t) t.publications

publishable-IsClosed :
    (p : Period) (t : Tables) (s : Snapshot)
    → publishable p t ≡ ok s
    → (w : Window) × IsClosed p w t
unfolding publishable
publishable-IsClosed p t s e =
    let (w, f, e₁) = >>=-eq-ok (or_throw (window_of p t.windows) bad_request) _ e in
    let (shut, _) = throw_if-eq-ok (is_open w.status) bad_request _ e₁ in
    (w, (ground (arith, f), ground (arith, shut)))

publishable-Same : (p : Period) (t u : Tables) → Same p t u → publishable p u ≡ publishable p t
unfolding publishable
publishable-Same p t u s = rw (s.0, s.1)

-- A request that keeps the publications keeps them current.
others_kept :
    (who : Identity) (now : ℕ) (call : Call) (t u : Tables)
    → AllCurrent t
    → handle who now call t ≡ ok u
    → u.publications ≡ t.publications
    → AllCurrent u
others_kept who now call t u v e same =
    subst (All (IsCurrent u)) (sym same)
      (All-mono (IsCurrent t) (IsCurrent u) still t.publications v)
  where
    still : (x : Publication) → IsCurrent t x → IsCurrent u x
    still x h s f =
        let (w, c) = publishable-IsClosed x.period t s (h s f) in
        publishable-Same x.period t u (handle-Same who now call x.period w t u c e) ∙ h s f

revoked-IsCurrent :
    (t : Tables) (now : ℕ) (expected : Option ℕ) (a b : Publication)
    → publication_revoked now expected a ≡ ok b
    → IsCurrent t b
unfolding publication_revoked
revoked-IsCurrent t now expected a b e s f =
    let gone : b.snapshot ≡ none = ground (arith, e) in ground (arith, gone, f)

made-IsCurrent :
    (t : Tables) (p : Period) (now token : ℕ) (snapshot : Snapshot) (input : PublicationInput)
    → publishable p t ≡ ok snapshot
    → (a b : Publication) → same_period a.period p ≡ true
    → publication_made now token snapshot input a ≡ ok b
    → IsCurrent t b
unfolding publication_made
made-IsCurrent t p now token snapshot input now_is a b hit e s f =
    let here : b.snapshot ≡ some snapshot = ground (arith, e) in
    let kept : b.period ≡ a.period = ground (arith, e) in
    subst (λ x. publishable x t ≡ ok s) (sym (kept ∙ same_period-eq a.period p hit))
      (now_is ∙ ap ok (of_some-eq (sym here ∙ f)))

store_publication-AllCurrent :
    (who : Identity) (now id token : ℕ) (p : Period) (input : PublicationInput) (t u : Tables)
    → AllCurrent t
    → store_publication who now id token p input t ≡ ok u
    → All (IsCurrent t) u.publications
unfolding store_publication
store_publication-AllCurrent who now id token p input t u v e = elim (Bool-cases input.published) [
  | inr off ↦ revoked (rw off at e)
  | inl on ↦
      let (snapshot, taken, e₁) = >>=-eq-ok (publishable p t) _ (rw on at e) in
      let (xs, r, done) =
        >>=-eq-ok
          (if is_none (find_first (λ x. same_period x.period p) t.publications)
            then ok (new_publication id p now token snapshot input ∷ t.publications)
            else update_first (λ x. same_period x.period p)
                (publication_made now token snapshot input) t.publications)
          _ e₁ in
      subst (All (IsCurrent t)) (ap (λ (x : Tables). x.publications) (ok-injective done))
        (made snapshot taken xs r)
]
  where
    revoked :
        (update_first
              (λ x. same_period x.period p)
              (publication_revoked now input.expected_version)
              t.publications
            >>= λ publications. ok (record t {
              publications = publications;
              journal =
                  write who "hht_period.publication_revoked" "hht_period_publication" id t.journal;
            }))
          ≡ ok u
        → All (IsCurrent t) u.publications
    revoked h =
        let body = publication_revoked now input.expected_version in
        let (xs, r, done) =
          >>=-eq-ok (update_first (λ x. same_period x.period p) body t.publications) _ h in
        subst (All (IsCurrent t)) (ap (λ (x : Tables). x.publications) (ok-injective done)) (
          update_first-All (IsCurrent t) (λ x. same_period x.period p) body
            (λ a b hit c r. revoked-IsCurrent t now input.expected_version a b r) t.publications xs
            v r)

    made :
        (snapshot : Snapshot)
        → publishable p t ≡ ok snapshot
        → (xs : List Publication)
        → (if is_none (find_first (λ x. same_period x.period p) t.publications)
            then ok (new_publication id p now token snapshot input ∷ t.publications)
            else update_first
                (λ x. same_period x.period p)
                (publication_made now token snapshot input)
                t.publications)
          ≡ ok xs
        → All (IsCurrent t) xs
    made snapshot taken xs h =
        elim (Bool-cases (is_none (find_first (λ x. same_period x.period p) t.publications))) [
          | inl first ↦
              subst (All (IsCurrent t)) (ok-injective (rw first at h))
                ((λ s f. taken ∙ ap ok (of_some-eq f)), v)
          | inr again ↦
              update_first-All (IsCurrent t) (λ x. same_period x.period p)
                (publication_made now token snapshot input)
                (λ a b hit c r. made-IsCurrent t p now token snapshot input taken a b hit r)
                t.publications xs v (rw again at h)
        ]

publish_period-AllCurrent :
    (who : Identity) (now id token : ℕ) (period : Period) (raw : PublicationInput) (t u : Tables)
    → AllCurrent t
    → publish_period who now id token period raw t ≡ ok u
    → All (IsCurrent t) u.publications
unfolding publish_period
publish_period-AllCurrent who now id token period raw t u v e =
    let (input, _, e₁) = >>=-eq-ok (parse_publication now raw) _ e in
    let (p, _, e₂) = >>=-eq-ok (parse_period period) _ e₁ in
    let (_, e₃) =
      throw_if-eq-ok
        (not (is_none (find_first (λ x. same_period x.period p) t.publications))
          && is_none input.expected_version)
        bad_request _ e₂ in
    store_publication-AllCurrent who now id token p input t u v e₃

handle-AllCurrent :
    (who : Identity) (now : ℕ) (call : Call) (t u : Tables)
    → AllCurrent t
    → handle who now call t ≡ ok u
    → AllCurrent u
unfolding handle create_company upsert_report set_report_status upsert_window grant_exception
    revoke_exception close_window
handle-AllCurrent who now (add_company id input) t u v e =
    others_kept who now (add_company id input) t u v e (ground arith)
handle-AllCurrent who now (put_report id input) t u v e =
    others_kept who now (put_report id input) t u v e (ground arith)
handle-AllCurrent who now (set_status id target expected) t u v e =
    others_kept who now (set_status id target expected) t u v e (ground arith)
handle-AllCurrent who now (put_window id input) t u v e =
    others_kept who now (put_window id input) t u v e (ground arith)
handle-AllCurrent who now (grant id input) t u v e =
    others_kept who now (grant id input) t u v e (ground arith)
handle-AllCurrent who now (revoke id expected) t u v e =
    others_kept who now (revoke id expected) t u v e (ground arith)
handle-AllCurrent who now (close id q expected) t u v e =
    others_kept who now (close id q expected) t u v e (ground arith)
handle-AllCurrent who now (publish id token q input) t u v e =
    published (publish_period-AllCurrent who now id token q input t u v e)
  where
    still : (x : Publication) → IsCurrent t x → IsCurrent u x
    still x h s f =
        let (w, c) = publishable-IsClosed x.period t s (h s f) in
        publishable-Same x.period t u
          (handle-Same who now (publish id token q input) x.period w t u c e)
        ∙ h s f

    published : All (IsCurrent t) u.publications → AllCurrent u
    published = All-mono (IsCurrent t) (IsCurrent u) still u.publications

after-AllCurrent :
    (who : Identity) (now : ℕ) (call : Call) (t : Tables)
    → AllCurrent t
    → AllCurrent (after t (handle who now call t))
after-AllCurrent who now call t v = elim (Result-cases (handle who now call t)) [
  | inl (x, e) ↦ rw e v
  | inr (u, e) ↦ rw e (handle-AllCurrent who now call t u v e)
]

-- If every stored snapshot is what its period's closed window and locked reports give, this holds
-- after any history of requests: no published figure ever differs from the reports it sums up.
pub serve-AllCurrent :
    (t : Tables) (calls : List (Identity × ℕ × Call)) → AllCurrent t → AllCurrent (serve t calls)
unfolding serve
serve-AllCurrent t [] v = v
serve-AllCurrent t ((who, now, call) ∷ calls) v =
    serve-AllCurrent (after t (handle who now call t)) calls (after-AllCurrent who now call t v)
