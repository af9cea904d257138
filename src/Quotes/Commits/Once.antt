-- ===== src/Quotes/Commits/Once.antt =====
-- One submission of each identity is committed, and every later one is answered from it.
use interiors_api_client.Common.{
  ◌≡◌, ◌≢◌, refl, ap, sym, subst, ◌∙◌, Option, none, some, List, [], ◌∷◌, ◌++◌, All, inl, inr,
  if◌then◌else◌, arith, Bool-cases,
}
use interiors_api_client.Common.Text.{Text, text_eq, trim, to_lower_case}
use interiors_api_client.Common.Decimal.{Decimal}
use interiors_api_client.Common.Exception.{Exception, driver}
use interiors_api_client.Common.Exec.{ok, err, Result-cases, continue-ran}
use interiors_api_client.Quotes.Request.{Request, calculator_type}
use interiors_api_client.Quotes.Pricing.Resolver.{Strategy}
use interiors_api_client.Quotes.Desk.{
  Identity, Record, Response, Saved, Desk, Services, quotes_save,
}
use interiors_api_client.Quotes.Idempotency.{
  IdempotencyContext, identity, fingerprint, mismatch, new_record, claim, on_create_failure,
  save_result, get_saved_result, assert_same_payload,
}
use interiors_api_client.Quotes.Customers.{find_or_create_customer}
use interiors_api_client.Quotes.RoundTrip.{completed_record, matched_one}
use interiors_api_client.Quotes.Service.{transaction, generated, to_persistence, pricing_version}
use interiors_api_client.Quotes.Commits.{
  IsRecordStore, IsSettled, IsOnce, Ledger, Commit, commits, aborts, meanwhile, expires, Commits,
  none_yet, after, Without, no_more, dropped, kept, IsOnceEach,
}

module _ {W : Type 0} (services : Services W) (stored : W → Identity → Option Record)
    (laws : IsRecordStore services stored) where
  create_failure-throws : (x : Exception) (s : Desk W) → (on_create_failure services x s).0 ≢ ok tt
  create_failure-throws (driver code keys) s h = ground arith
  create_failure-throws _ s h = cc

  -- A claim that returns has created the record, where there was none.
  claim-created :
      (c : IdempotencyContext) (s : Desk W)
      → (claim services c s).0 ≡ ok tt
      → (stored s.outside (identity services c) ≡ none)
        × ((j : Identity)
            → j ≢ identity services c
            → stored (claim services c s).1.outside j ≡ stored s.outside j)
  unfolding claim
  claim-created c s h =
      elim (Result-cases (services.record_create (new_record services c) s.outside).0) [
        | inl (u, e) ↦ rw e (unfold new_record in laws.creates (new_record services c) s.outside e)
        | inr (x, e) ↦ absurd (create_failure-throws x _ (rw e at h))
      ]

  customer-keeps :
      (email name phone : Text) (s : Desk W) (j : Identity)
      → stored (find_or_create_customer services email name phone s).1.outside j
        ≡ stored s.outside j
  unfolding find_or_create_customer
  customer-keeps email name phone s j =
      let a = to_lower_case (trim email) in
      elim (Result-cases (services.customer_find a s.outside).0) [
        | inl (some c, e) ↦ rw e (laws.customer_find_keeps a s.outside j)
        | inl (none, e) ↦
            rw e (
              laws.customer_insert_keeps _ a name phone _ j
              ∙ laws.customer_find_keeps a s.outside j)
        | inr (x, e) ↦ rw e (laws.customer_find_keeps a s.outside j)
      ]

  -- A result that is saved completes its record, and no other.
  save-completes :
      (c : IdempotencyContext) (r : Response) (s : Desk W)
      → (save_result services c r s).0 ≡ ok tt
      → let w = (save_result services c r s).1.outside in
        (stored w (identity services c)
          ≡ some (completed_record (identity services c) (fingerprint services c.request) r))
        × ((j : Identity) → j ≢ identity services c → stored w j ≡ stored s.outside j)
  save-completes c r s h =
      let (one, out) = matched_one services c r s h in
      rw out (laws.updates (identity services c) (fingerprint services c.request) r s.outside one)

  -- A transaction that returns found no record of its identity, leaves the completed one, and no
  -- other record is touched.
  transaction-commits :
      (q : Request) (c : IdempotencyContext) (fp : Text) (strategy : Strategy) (price : Decimal)
      (s : Desk W) (saved : Saved)
      → (transaction services q c fp strategy price s).0 ≡ ok saved
      → let t = (transaction services q c fp strategy price s).1.outside in
        (stored s.outside (identity services c) ≡ none)
        × (stored t (identity services c)
            ≡ some (
                completed_record
                  (identity services c)
                  (fingerprint services c.request)
                  (generated services saved.quote_id price)))
        × ((j : Identity) → j ≢ identity services c → stored t j ≡ stored s.outside j)
  unfolding transaction
  transaction-commits q c fp strategy price s saved h =
      let (u, e1, k1) = continue-ran (claim services c s).0 _ (claim services c s).1 saved h in
      let s1 = (claim services c s).1 in
      let (customer, e2, k2) =
        continue-ran (find_or_create_customer services q.email q.name q.phone s1).0 _
          (find_or_create_customer services q.email q.name q.phone s1).1 saved
          (ap (λ p. p.0) (sym k1) ∙ h) in
      let s2 = (find_or_create_customer services q.email q.name q.phone s1).1 in
      let kind = calculator_type q.configuration in
      let document =
        to_persistence q price (pricing_version services.config strategy) customer fp in
      let s3 : Desk W = record {
        calls = quotes_save document ∷ s2.calls;
        outside = (services.quote_insert kind document s2.outside).1;
      } in
      let (id, e3, k3) =
        continue-ran (services.quote_insert kind document s2.outside).0 _ s3 saved
          (ap (λ p. p.0) (sym (k1 ∙ k2)) ∙ h) in
      let r = generated services id price in
      let s4 = (save_result services c r s3).1 in
      let (done, e4, k4) =
        continue-ran (save_result services c r s3).0 _ s4 saved
          (ap (λ p. p.0) (sym (k1 ∙ k2 ∙ k3)) ∙ h) in
      let end = k1 ∙ k2 ∙ k3 ∙ k4 in
      let out = ap (λ p. p.1.outside) end in
      let answer = ap (λ p. p.0) (sym end) ∙ h in
      let named : id ≡ saved.quote_id = cc answer in
      let (free, others) = claim-created c s e1 in
      let (now, rest) = save-completes c r s3 e4 in
      (
        free,
        ap (λ w. stored w (identity services c)) out
            ∙ now
            ∙ ap
                (λ n. some (
                  completed_record (identity services c) (fingerprint services c.request)
                    (generated services n price)))
                named,
        λ j ne.
            ap (λ w. stored w j) out
            ∙ rest j ne
            ∙ laws.quote_insert_keeps kind document s2.outside j
            ∙ customer-keeps q.email q.name q.phone s1 j
            ∙ others j ne,
      )

  All-weaken :
      {A : Type 0} (P Q : A → Type 0) (xs : List A) → ((x : A) → P x → Q x) → All P xs → All Q xs
  All-weaken P Q [] w h = tt
  All-weaken P Q (x ∷ xs) w h = (w x h.0, All-weaken P Q xs w h.1)

  -- A settled submission has another identity than one that finds no record.
  settled-ne :
      (w : W) (c : IdempotencyContext) (e : IdempotencyContext × Response)
      → stored w (identity services c) ≡ none
      → IsSettled services stored w e
      → identity services e.0 ≢ identity services c
  settled-ne w c (d, r) free done same = let there = ap (stored w) (sym same) ∙ done in cc

  commits-IsOnce :
      (q : Request) (c : IdempotencyContext) (fp : Text) (strategy : Strategy) (price : Decimal)
      (desk : Desk W) (saved : Saved) (log : List (IdempotencyContext × Response))
      → (transaction services q c fp strategy price desk).0 ≡ ok saved
      → IsOnce services stored (record { outside = desk.outside; committed = log })
      → IsOnce services stored (record {
        outside = (transaction services q c fp strategy price desk).1.outside;
        committed = (c, generated services saved.quote_id price) ∷ log;
      })
  commits-IsOnce q c fp strategy price desk saved log h x =
      let (free, now, others) = transaction-commits q c fp strategy price desk saved h in
      let apart =
        All-weaken (IsSettled services stored desk.outside) _ log
          (λ e. settled-ne desk.outside c e free) x.settled in
      record {
        settled = (
          now,
          All-weaken (IsSettled services stored desk.outside) _ log
              (λ (d, r) done.
                others (identity services d) (settled-ne desk.outside c (d, r) free done) ∙ done)
              x.settled,
        );
        once = (apart, x.once);
      }

  Without-All :
      {i : Identity} {xs ys : List (IdempotencyContext × Response)}
      (P Q : IdempotencyContext × Response → Type 0)
      → ((e : IdempotencyContext × Response) → identity services e.0 ≢ i → P e → Q e)
      → Without services stored i xs ys
      → All P xs
      → All Q ys
  Without-All P Q weaken no_more h = tt
  Without-All P Q weaken (dropped c r same rest) h = Without-All P Q weaken rest h.1
  Without-All P Q weaken (kept c r other rest) h =
      (weaken (c, r) other h.0, Without-All P Q weaken rest h.1)

  Without-IsOnceEach :
      {i : Identity} {xs ys : List (IdempotencyContext × Response)}
      → Without services stored i xs ys
      → IsOnceEach services stored xs
      → IsOnceEach services stored ys
  Without-IsOnceEach no_more h = tt
  Without-IsOnceEach (dropped c r same rest) h = Without-IsOnceEach rest h.1
  Without-IsOnceEach (kept c r other rest) h =
      (Without-All _ _ (λ e away apart. apart) rest h.0, Without-IsOnceEach rest h.1)

  Commit-IsOnce :
      {s t : Ledger W}
      → Commit services stored s t
      → IsOnce services stored s
      → IsOnce services stored t
  Commit-IsOnce (commits {s} q c fp strategy price desk saved at h e) x =
      subst (IsOnce services stored) (sym e) (
        commits-IsOnce q c fp strategy price desk saved s.committed h (
          subst (λ w. IsOnce services stored (record { outside = w; committed = s.committed }))
            (sym at) x))
  Commit-IsOnce (aborts q c fp strategy price desk y at h e) x =
      subst (IsOnce services stored) (sym e) x
  Commit-IsOnce (meanwhile {s} w keep e) x = subst (IsOnce services stored) (sym e) (record {
    settled =
        All-weaken (IsSettled services stored s.outside) _ s.committed
          (λ (d, r) done. keep (identity services d) ∙ done) x.settled;
    once = x.once;
  })
  Commit-IsOnce (expires {s} i w log gone keep left e) x =
      subst (IsOnce services stored) (sym e) (record {
        settled =
            Without-All (IsSettled services stored s.outside) _
              (λ (d, r) away done. keep (identity services d) away ∙ done) left x.settled;
        once = Without-IsOnceEach left x.once;
      })

  -- However many submissions run their transactions over the collections, in whatever order,
  -- whichever fail and whichever records expire in between: of each identity at most one submission
  -- is committed as long as its record has not expired, and the record of each such submission is
  -- the completed one with its payload's fingerprint and its result. After the expiry of a record
  -- another submission of its identity can be committed.
  pub Commits-IsOnce :
      {s t : Ledger W} → s.committed ≡ [] → Commits services stored s t → IsOnce services stored t
  Commits-IsOnce {s} e none_yet = record { settled = rw e tt; once = rw e tt }
  Commits-IsOnce e (after before step) = Commit-IsOnce step (Commits-IsOnce e before)

  IsSettled-in :
      (w : W) (xs ys : List (IdempotencyContext × Response)) (c : IdempotencyContext) (r : Response)
      → All (IsSettled services stored w) (xs ++ (c, r) ∷ ys)
      → IsSettled services stored w (c, r)
  IsSettled-in w [] ys c r h = h.0
  IsSettled-in w (x ∷ xs) ys c r h = IsSettled-in w xs ys c r h.1

  -- Once a submission is committed, and as long as its record has not expired, every later request
  -- with its identity gets its result if the payload has the same fingerprint, and is refused with
  -- a conflict if not, whatever other submissions did before and after and whichever other records
  -- expired.
  pub get_saved_result-committed :
      {s t : Ledger W} (xs ys : List (IdempotencyContext × Response)) (c d : IdempotencyContext)
      (r : Response) (desk : Desk W)
      → s.committed ≡ []
      → Commits services stored s t
      → t.committed ≡ xs ++ (c, r) ∷ ys
      → identity services d ≡ identity services c
      → desk.outside ≡ t.outside
      → (get_saved_result services d desk).0 ≡ (
          if text_eq (fingerprint services c.request) (fingerprint services d.request)
          then ok (some r)
          else err (mismatch services))
  unfolding get_saved_result assert_same_payload
  get_saved_result-committed {t} xs ys c d r desk e run logged same at =
      let done =
        IsSettled-in t.outside xs ys c r (
          subst (All (IsSettled services stored t.outside)) logged
            (Commits-IsOnce e run).settled) in
      let found : services.record_find (identity services d) desk.outside ≡ (
        ok (some (completed_record (identity services c) (fingerprint services c.request) r)),
        desk.outside,
      ) =
        laws.finds (identity services d) desk.outside
        ∙ ap (λ o. (ok o, desk.outside)) (rw (at, same) done) in
      elim (Bool-cases
        (text_eq (fingerprint services c.request) (fingerprint services d.request))) [
          | inl agree ↦ rw (found, agree) refl
          | inr differ ↦ rw (found, differ) refl
        ]
