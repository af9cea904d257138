-- ===== src/Lib.antt =====
-- A model of the interiors API: quote requests, notifications, users and sign-in, uploads, and the
-- services that these share, with what they guarantee.
--
-- The program answers a quote request of a customer (src/modules/quotes) and sends notifications
-- through a pipeline of seven stages (src/infrastructure/notifications). A request passes the rate
-- limits (src/infrastructure/cache/rate-limiters), reCAPTCHA and the lookup of its idempotency key
-- (src/infrastructure/idempotency), is normalized and fingerprinted, takes a lock, and is then
-- answered from a stored quote or priced and stored in a transaction. The answer dispatches a
-- notification, which the pipeline validates, enriches, deduplicates, limits, compiles, tracks and
-- delivers.
--
-- Beside this, users register and sign in with a Firebase token (src/modules/auth and
-- src/modules/user), admins upload media to a storage (src/modules/uploads), and the circuit
-- breakers and the cache (src/infrastructure) serve the rate limits and the locks.
--
-- The parts, with the code that they model:
--   Common/Text, Common/Decimal, Common/Json   strings as code units, numbers with decimals, JSON
--   Common/Exception        src/common/exceptions, src/common/constants/error-codes.generated.ts
--                           and the response of src/common/filters/global-exception.filter.ts
--   Common/Exec             methods that change a state and may throw; the state outlives a throw
--   Notifications/Context   core/types and core/interfaces of src/infrastructure/notifications
--   Notifications/Stages    ValidateStage, EnricherStage, DeduplicationStage, RateLimiterStage,
--                           TemplateCompilerStage, TrackerStage, and TransportStage with
--                           NotificationFactory: `validate`, `enrich`, `deduplicate`,
--                           `limit_rate`, `compile`, `track`, `transport`, each given the rest of
--                           the pipeline as the argument `next`
--   Notifications/Pipeline  NotificationPipeline: `execute` runs `runner` on the seven stages
--   Quotes/Request, Desk    the DTOs, the documents, and the calls of one submission
--   Quotes/Pricing          the three strategies of src/modules/quotes/domain/pricing and
--                           PricingStrategyResolver
--   Quotes/Normalize        normalizeQuoteData, and the fingerprint of
--                           QuoteSubmissionGuardService
--   Quotes/Limits           QuoteRequestRateLimiter: `check`
--   Quotes/Idempotency      IdempotencyService
--   Quotes/Customers, Guard CustomerService, and the lock of QuoteSubmissionGuardService
--   Quotes/Service          QuoteService.createQuoteRequest: `create_quote_request`, with
--                           `answer_existing` (Path A), `create_new` (Path B), `transaction`,
--                           `recover` (the catch block) and `conclude`; its child
--                           Documents has QuoteMapper and the notification of a quote
--   Quotes/Interleaving     several submissions that pass the duplicate guard side by side
--   Users/Account           User, UserId and Username
--   Users/Documents         UserMapper, and the setters of user.schema.ts
--   Users/Profiles          UserMongoRepository, UserService, DeleteUserService
--   Users/SignIn            AuthService and AuthController: `register_user`, `get_current_user`,
--                           `extract_bearer_token`, `register`, `me`
--   Infrastructure/Breakers CircuitBreakerFactory
--   Infrastructure/Cache    CacheFactory, RedisStrategy and UpstashStrategy; Clients: RedisService and
--     UpstashService, which make the clients; Values: how RedisStrategy writes and reads values
--   Infrastructure/Recaptcha   RecaptchaService.verify; Setup: the constructor
--   Infrastructure/Sessions    CacheSessionStore
--   Notifications/Dispatch, Webhook      NotificationDispatcher, NotificationWebhookController
--   Notifications/DeliveryLog            NotificationDbService
--   Notifications/Providers GmailAdapter and ResendAdapter; its child Routed puts both under the
--                           transport stage
--   Quotes/Route            QuoteController and QuoteValidationPipe, with the response of
--                           GlobalExceptionFilter (Common/Exception/Filter)
--   Quotes/Commits          the transactions of several submissions over one collection of records
--   Uploads/Storage         CloudflareR2Adapter, GcpStorageAdapter and MediaService
--   Users/Roles             RolesGuard
--   Uploads/Route           UploadsController behind RolesGuard
--   Uploads                 MediaAsset, its mapper and repository, UploadsService, StorageFactory
--   Common/Recorded         methods that write their calls down, and what they can add to them
-- The other modules hold proofs, each named for what it shows.
--
-- The code outside (caches, the circuit breaker, collections and transactions, reCAPTCHA, providers,
-- templates, the file system, hashes, configuration, the clock) is a record of parameters,
-- `Services`, over a state of its own. Each call may fail and is written down, so that a statement
-- can speak of what was called and in which order.
--
-- Bounds. `toLowerCase` and `toUpperCase` map the ASCII letters only. Products and sums of prices
-- are exact where the source has doubles, and room counts are whole numbers. A table of prices is
-- looked up by its own keys only. The keys of JSON objects are not array indices, and payloads are
-- trees; a lone surrogate in a JSON text is written as it is, where `JSON.stringify` escapes it. A
-- printed number is read off with one more unit of fuel than its value, which exceeds the
-- number of its digits. `Promise.all` is modelled by an order in which the four checks settle; each
-- check is one step, and the four are taken one after the other, as far as the outside is
-- concerned. A dispatch that is not awaited is taken at the point where it is started. A
-- transaction is a parameter that is given its callback. Times at which a record, a lock or a
-- window expires belong to the outside; in Quotes/Commits the expiry of a record is a step of its
-- own, which may come at any point. In Quotes/Interleaving a step is a whole call of the guard,
-- and no lock expires. Limits of rate limiters are whole numbers. A limiter that is kept by its key
-- is a value that its parameters determine; its counts belong to the outside. A
-- score of reCAPTCHA is an exact decimal, negative, or not finite; the keys of its answer differ.
-- Rooms, dimensions, materials, locations and configurations that a body leaves out are `none` or
-- `absent`, and reading them throws. The age of a cookie is a whole number of milliseconds.
--
-- Not modelled: logs, metrics other than the counter of quotes, dated price snapshots, and the
-- fields of a notification that no stage reads; the headers of a task; the disconnecting of Redis;
-- the ThrottlerGuard, which may answer 429 before a route of Quotes/Route or Uploads/Route is
-- reached; catalog and reviews; interceptors, configuration and
-- schemas, which are declarations for the framework; seed-admin.ts, whose imports do not exist.
pub mod Common
pub mod Notifications
pub mod Quotes
pub mod Users
pub mod Infrastructure
pub mod Uploads
