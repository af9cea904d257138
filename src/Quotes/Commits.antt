-- ===== src/Quotes/Commits.antt =====
-- The transactions of several submissions (application/services/quote.service.ts) over one
-- collection of idempotency records, one after the other: a transaction that returns is committed,
-- one that throws leaves nothing behind. A record is removed when it expires (idempotency.schema.ts,
-- by default 24 hours after it was made). The collections are parameters.
pub mod Once
use interiors_api_client.Common.{◌≡◌, ◌≢◌, Option, none, some, List, [], ◌∷◌, All}
use interiors_api_client.Common.Text.{Text}
use interiors_api_client.Common.Decimal.{Decimal}
use interiors_api_client.Common.Exception.{Exception}
use interiors_api_client.Common.Exec.{ok, err}
use interiors_api_client.Quotes.Request.{Request, CalculatorType}
use interiors_api_client.Quotes.Pricing.Resolver.{Strategy}
use interiors_api_client.Quotes.Desk.{Identity, Record, Response, QuoteData, Saved, Desk, Services}
use interiors_api_client.Quotes.Idempotency.{IdempotencyContext, identity, fingerprint}
use interiors_api_client.Quotes.RoundTrip.{completed_record}
use interiors_api_client.Quotes.Service.{transaction, generated}

-- What is relied on of the collections inside a transaction: `stored` is the records with their
-- unique index. A record is created only where there is none, an update that matches one record
-- completes it, and the other collections leave the records alone.
pub record IsRecordStore {W : Type 0} (services : Services W)
    (stored : W → Identity → Option Record) : Type 0 where
  pub finds : (i : Identity) (w : W) → services.record_find i w ≡ (ok (stored w i), w)
  pub creates :
      (r : Record) (w : W)
      → (services.record_create r w).0 ≡ ok tt
      → (stored w r.identity ≡ none)
        × ((j : Identity) → j ≢ r.identity → stored (services.record_create r w).1 j ≡ stored w j)
  pub updates :
      (i : Identity) (f : Text) (r : Response) (w : W)
      → (services.record_update i f r w).0 ≡ ok 1
      → (stored (services.record_update i f r w).1 i ≡ some (completed_record i f r))
        × ((j : Identity) → j ≢ i → stored (services.record_update i f r w).1 j ≡ stored w j)
  pub customer_find_keeps :
      (a : Text) (w : W) (j : Identity) → stored (services.customer_find a w).1 j ≡ stored w j
  pub customer_insert_keeps :
      (key email name phone : Text) (w : W) (j : Identity)
      → stored (services.customer_insert key email name phone w).1 j ≡ stored w j
  pub quote_insert_keeps :
      (t : CalculatorType) (d : QuoteData) (w : W) (j : Identity)
      → stored (services.quote_insert t d w).1 j ≡ stored w j

-- The shared collections, and what was committed, newest first, without the submissions whose record
-- has expired.
pub record Ledger (W : Type 0) : Type 0 where
  pub outside : W
  pub committed : List (IdempotencyContext × Response)

module _ {W : Type 0} (services : Services W) (stored : W → Identity → Option Record) where
  -- The log without the submissions of an identity.
  pub data Without (i : Identity)
      : List (IdempotencyContext × Response) → List (IdempotencyContext × Response) → Type 0 where
    no_more : Without i [] []
    dropped :
        {xs ys : List (IdempotencyContext × Response)} (c : IdempotencyContext) (r : Response)
        → identity services c ≡ i
        → Without i xs ys
        → Without i ((c, r) ∷ xs) ys
    kept :
        {xs ys : List (IdempotencyContext × Response)} (c : IdempotencyContext) (r : Response)
        → identity services c ≢ i
        → Without i xs ys
        → Without i ((c, r) ∷ xs) ((c, r) ∷ ys)

  -- The transaction of one submission, from whatever calls it has made before, the expiry of
  -- a record, or anything else that leaves the records alone.
  pub data Commit : Ledger W → Ledger W → Type 0 where
    commits :
        {s t : Ledger W} (q : Request) (c : IdempotencyContext) (fingerprint : Text)
        (strategy : Strategy) (price : Decimal) (desk : Desk W) (saved : Saved)
        → desk.outside ≡ s.outside
        → (transaction services q c fingerprint strategy price desk).0 ≡ ok saved
        → t ≡ record {
          outside = (transaction services q c fingerprint strategy price desk).1.outside;
          committed = (c, generated services saved.quote_id price) ∷ s.committed;
        }
        → Commit s t
    aborts :
        {s t : Ledger W} (q : Request) (c : IdempotencyContext) (fingerprint : Text)
        (strategy : Strategy) (price : Decimal) (desk : Desk W) (e : Exception)
        → desk.outside ≡ s.outside
        → (transaction services q c fingerprint strategy price desk).0 ≡ err e
        → t ≡ s
        → Commit s t
    meanwhile :
        {s t : Ledger W} (w : W)
        → ((j : Identity) → stored w j ≡ stored s.outside j)
        → t ≡ record s { outside = w }
        → Commit s t
    expires :
        {s t : Ledger W} (i : Identity) (w : W) (log : List (IdempotencyContext × Response))
        → stored w i ≡ none
        → ((j : Identity) → j ≢ i → stored w j ≡ stored s.outside j)
        → Without i s.committed log
        → t ≡ record { outside = w; committed = log }
        → Commit s t

  pub data Commits (s : Ledger W) : Ledger W → Type 0 where
    none_yet : Commits s s
    after : {t u : Ledger W} → Commits s t → Commit t u → Commits s u

  -- The record of a committed submission, as its later requests are to find it.
  abbrev pub IsSettled : W → IdempotencyContext × Response → Type 0
  IsSettled w (c, r) =
      stored w (identity services c)
      ≡ some (completed_record (identity services c) (fingerprint services c.request) r)

  -- No two of the submissions have the same identity.
  abbrev pub IsOnceEach : List (IdempotencyContext × Response) → Type 0
  IsOnceEach [] = Unit
  IsOnceEach ((c, r) ∷ rest) =
      All (λ (e : IdempotencyContext × Response). identity services e.0 ≢ identity services c) rest
      × IsOnceEach rest

  pub record IsOnce (s : Ledger W) : Type 0 where
    pub settled : All (IsSettled s.outside) s.committed
    pub once : IsOnceEach s.committed
