-- ===== src/Lib.antt =====
-- GarudaPanel: a shop for proxy services, with its orders, wallets, vendors, panels and pages.
--
-- A request goes through a rate limiter and a mux (internal/http/server.go) to a handler, behind a
-- token and a role where the route asks for them (internal/middleware). A customer buys a catalog
-- item of a vendor (internal/order): one serializable transaction reserves the idempotency key,
-- charges the wallet, inserts the order and queues a job. A worker (internal/provisioning) claims
-- one job per tick, asks the vendor's panel for a client (internal/xui) and stores the proxy
-- service. Vendors suspend and resume services, and a timer expires them (internal/proxy). The store
-- and the dashboard show what the rows say (internal/storefront, internal/dashboard), and notices go
-- to the subscribers of a bus and to event streams (internal/eventbus, internal/notification).
--
-- Where each part is:
--   - Prelude: shared names; Boolean tests, lists as rows, int64 arithmetic with its wrap-around
--   (`Int`), decimal digits (`Decimal`), the functions of strings and strconv that are used (`Text`).
--   - Db: tables as records of lists (`Rows`, after migrations/*.sql and internal/models), statements
--   and transactions of database/sql as functions on a `World` (`Session`), and proof rules
--   (`Hoare`, `Rules`, `Moves`, `Success`, `Frame`).
--   - Repository: internal/repository, one function for each method, with the rows that its SQL
--   statement reads and writes and the constraints of the schema that can refuse it. `Wallets` also
--   has internal/wallet and internal/payment, `Users` internal/vendor; `Older` is
--   provisioning_repository.go.
--   - Order: `create` is Service.Create and `renew` is Service.Renew of internal/order/service.go;
--   `place`, `renew_body` and `renew_steps` are the bodies of their transactions.
--   - Ledger: what the wallets and their entries add up to, and the book of sales that the orders
--   implement.
--   - Provisioning: `create_client` (internal/xui/client.go), `provision` (internal/xui/adapter.go),
--   `handle_job` and `tick` (internal/provisioning/worker_v2.go); `Older` is worker.go with
--   engine.go.
--   - Proxy: `suspend`, `resume`, `run_expiry_job` and (in `Provision`) `provision_service`, which is
--   Service.Provision, of internal/proxy/service.go; `Uuid` is its generateUUID.
--   - Store: internal/store/store.go, users, vendors and wallets in memory.
--   - Security: tokens and passwords of internal/security; `Cipher` is its crypto.go. Auth:
--   internal/auth/service.go.
--   - Middleware: `RateLimit` is internal/middleware/ratelimit.go, `Jwt` has jwt.go and rbac.go with
--   internal/rbac.
--   - Http: requests and answers; the handlers of internal/http/api (`Api`), internal/order (`Orders`),
--   internal/proxy (`Proxies`) and of server.go itself (`Management`), the audit log (`Audit`), and
--   the mux with what stands before it (`Server`).
--   - Storefront and Dashboard: internal/storefront and internal/dashboard.
--   - Receipt: internal/receipt. Notification: internal/eventbus and internal/notification.
--   - Start: internal/config, internal/db and internal/app, up to the call of srv.Start.
--   - System: the server with its worker and timers, any order of their steps.
--   - Tests: a concrete shop and examples of the theorems in it.
--
-- How state and failure are modelled. A `World` holds the rows, the sequences, the rows that a
-- rollback brings back while a transaction is open, the clock, the notices sent, the requests to
-- panels and their answers, random bytes and the entries of the audit log. `faults` says for each
-- statement in turn whether it is carried out, refused by the connection, or carried out with its
-- answer lost. Go errors are values of `Error` with the texts of the source. Transactions are
-- serializable in the source, so calls stand one after the other here, and so do the requests and
-- ticks of System. Amounts are int64 as integers with the wrap-around of negation and the range checks
-- of BIGINT and INT; ids are natural numbers. An answer of HTTP has its status, headers and what is encoded
-- or rendered into its body; a body that arrives is a decoded JSON object or none.
--
-- Fuel. The retry loop of the adapter counts its three attempts. The loop that waits for the database
-- (`knock` of Start) has 16 where the source makes 15 attempts, and a theorem shows that it never
-- runs out. The printer of decimal numbers takes the number itself, plus one, which is more than the
-- number of its digits. All else is structural.
--
-- Parameters: HMAC, SHA-256, base64 and JSON (`Crypto`, with laws where a theorem needs them), AES-GCM
-- (`Gcm` and `Aes`), what sql.Open, the environment and the files of the migrations give, what a
-- migration does to the rows, what net/http does with an upload, and the handlers of static files
-- and of the event stream. Panel answers, random bytes and the clock are part of the world.
--
-- Not modelled: the templates of the pages beyond the rows they are given, the pages of
-- internal/frontend, which nothing registers, and internal/servicecatalog, which only forwards to a
-- repository. Timestamps of creation and update, the table rate_limit_buckets, which no code touches,
-- the waits between attempts, panics of handlers, the settings of the connection pool and log lines
-- are left out. A panel whose URL does not parse makes CreateClient (internal/xui/client.go) panic,
-- since it drops the error of NewRequestWithContext: `create_client` has panels with proper URLs.
pub mod Prelude
pub mod Db
pub mod Repository
pub mod Order
pub mod Ledger
pub mod Provisioning
pub mod Proxy
pub mod Middleware
pub mod Store
pub mod Receipt
pub mod Security
pub mod Auth
pub mod Notification
pub mod Http
pub mod Storefront
pub mod Dashboard
pub mod Start
pub mod System
pub mod Tests
