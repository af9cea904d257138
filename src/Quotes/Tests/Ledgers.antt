-- ===== src/Quotes/Tests/Ledgers.antt =====
-- A collection with room for one record, and a submission that is committed to it.
use interiors_api_client.Common.{
  ℕ, ◌≡◌, ◌≢◌, refl, sym, ◌∙◌, true, Option, none, some, if◌then◌else◌, [], ◌∷◌, arith, inl, inr,
  Bool-cases,
}
use interiors_api_client.Common.Text.{Text, text, text_eq, to_lower_case, trim}
use interiors_api_client.Common.Text.Laws.{text_eq_refl, text_eq_iff}
use interiors_api_client.Common.Decimal.{whole}
use interiors_api_client.Common.Exception.{driver}
use interiors_api_client.Common.Exec.{Exec, ok, err}
use interiors_api_client.Quotes.Pricing.Resolver.{Strategy}
use interiors_api_client.Quotes.Desk.{Identity, Record, Response, Desk, Services}
use interiors_api_client.Quotes.Idempotency.{
  identity, claim, save_result, fingerprint, mismatch, get_saved_result,
}
use interiors_api_client.Quotes.Customers.{find_or_create_customer}
use interiors_api_client.Quotes.RoundTrip.{completed_record}
use interiors_api_client.Quotes.Service.{transaction, generated}
use interiors_api_client.Quotes.Commits.{
  IsRecordStore, IsOnce, Ledger, Commits, commits, none_yet, after, expires, dropped, no_more,
}
use interiors_api_client.Quotes.Commits.Once.{Commits-IsOnce, get_saved_result-committed}
use interiors_api_client.Quotes.Tests.{answering, same_identity, held, request, payload, keyed, ann}

same_identity_self : (i : Identity) → same_identity i i ≡ true
same_identity_self i = rw (text_eq_refl i.scope, text_eq_refl i.operation, text_eq_refl i.key) refl

eq_of_same_identity : (i j : Identity) → same_identity i j ≡ true → i ≡ j
eq_of_same_identity i j h = ground (
  arith,
  text_eq_iff i.scope j.scope,
  text_eq_iff i.operation j.operation,
  text_eq_iff i.key j.key,
)

held-ne : (i : Identity) (r : Record) → i ≢ r.identity → held i (some r) ≡ none
held-ne i r ne = elim (Bool-cases (same_identity i r.identity)) [
  | inl e ↦ absurd (ne (eq_of_same_identity i r.identity e))
  | inr e ↦ rw e refl
]

abbrev create_held : Record → Exec (Option Record) (Unit {0})
create_held r none = (ok tt, some r)
create_held r (some old) = (err (driver 11000 []), some old)

abbrev update_held : Identity → Text → Response → Exec (Option Record) ℕ
update_held i f r none = (ok 0, none)
update_held i f r (some old) =
    if same_identity i old.identity then (ok 1, some (completed_record i f r)) else (ok 0, some old)

abbrev one_record : Services (Option Record)
one_record = record (answering (λ i w. (ok (held i w), w)) update_held) {
  record_create = create_held;
}

creates-held :
    (r : Record) (w : Option Record)
    → (create_held r w).0 ≡ ok tt
    → (held r.identity w ≡ none)
      × ((j : Identity) → j ≢ r.identity → held j (create_held r w).1 ≡ held j w)
creates-held r none h = (refl, λ j ne. held-ne j r ne)
creates-held r (some old) h = absurd (cc)

updates-held :
    (i : Identity) (f : Text) (r : Response) (w : Option Record)
    → (update_held i f r w).0 ≡ ok 1
    → (held i (update_held i f r w).1 ≡ some (completed_record i f r))
      × ((j : Identity) → j ≢ i → held j (update_held i f r w).1 ≡ held j w)
updates-held i f r none h = absurd (ground arith)
updates-held i f r (some old) h = elim (Bool-cases (same_identity i old.identity)) [
  | inr e ↦ absurd (let k = rw e at h in ground arith)
  | inl e ↦
      let same = eq_of_same_identity i old.identity e in
      rw e (
        rw (same_identity_self i) refl,
        λ j ne.
            held-ne j (completed_record i f r) ne ∙ sym (held-ne j old (λ k. ne (k ∙ sym same))),
      )
]

one_record-IsRecordStore : IsRecordStore one_record (λ w i. held i w)
one_record-IsRecordStore = record {
  finds = λ i w. refl;
  creates = creates-held;
  updates = updates-held;
  customer_find_keeps = λ a w j. refl;
  customer_insert_keeps = λ key email name phone w j. refl;
  quote_insert_keeps = λ t d w j. refl;
}

abbrev empty : Ledger (Option Record)
empty = record { outside = none; committed = [] }

abbrev desk : Desk (Option Record)
desk = record { calls = []; outside = none }

abbrev full : Ledger (Option Record)
full = record {
  outside =
      (transaction one_record request keyed (text "f") Strategy.full_home (whole 5) desk).1.outside;
  committed = (keyed, generated one_record (text "q1") (whole 5)) ∷ [];
}

one_committed : Commits one_record (λ w i. held i w) empty full
unfolding transaction claim find_or_create_customer save_result text_eq to_lower_case trim
one_committed = after none_yet (
    commits request keyed (text "f") Strategy.full_home (whole 5) desk
      (record { quote_id = text "q1"; customer = ann }) refl refl refl)

-- The record expires, and the same submission is committed again.
committed_again : Commits one_record (λ w i. held i w) empty full
unfolding transaction claim find_or_create_customer save_result text_eq to_lower_case trim
committed_again =
    after
      (after one_committed (
        expires (identity one_record keyed) none [] refl
          (λ j other. sym (
            held-ne j
              (completed_record (identity one_record keyed) (fingerprint one_record payload)
                (generated one_record (text "q1") (whole 5)))
              other))
          (dropped keyed (generated one_record (text "q1") (whole 5)) refl no_more) refl))
      (commits request keyed (text "f") Strategy.full_home (whole 5) desk
        (record { quote_id = text "q1"; customer = ann }) refl refl refl)

Commits-IsOnce_example : IsOnce one_record (λ w i. held i w) full
Commits-IsOnce_example =
    Commits-IsOnce one_record (λ w i. held i w) one_record-IsRecordStore refl committed_again

get_saved_result-committed_example :
    (get_saved_result one_record keyed (record { calls = []; outside = full.outside })).0 ≡ (
      if text_eq (fingerprint one_record payload) (fingerprint one_record payload)
      then ok (some (generated one_record (text "q1") (whole 5)))
      else err (mismatch one_record))
get_saved_result-committed_example =
    get_saved_result-committed one_record (λ w i. held i w) one_record-IsRecordStore [] [] keyed
      keyed (generated one_record (text "q1") (whole 5))
      (record { calls = []; outside = full.outside }) refl one_committed refl refl refl
