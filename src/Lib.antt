-- ===== src/Lib.antt =====
-- The Moeen API: the life of a service request and its notifications, as a library of definitions
-- and theorems on the code of apps/api/src.
--
-- The program. Customers ask for home services; verified providers are invited and make offers, or
-- the staff assign one of them; the provider is tracked on the way, does the work, and collects the
-- cash. Every change is a transaction of apps/api/src/service-request.repository.ts on PostgreSQL.
-- A transaction also appends events, audit rows and notification rows; the worker of
-- apps/api/src/fcm-dispatch.worker.ts sends the notifications later.
--
-- The files.
--   Base        tests on numbers, lists, and the SQL statements on lists of rows, with their laws
--   Store       statuses (app.service.ts), rows, and the state Db: the tables that decisions rest
--               on, and the journal that is only appended to
--   Outbox      Writer: notification-outbox.writer.ts. Worker and Process: fcm-dispatch.worker.ts
--               and the constants of fcm.config.ts. Attempts, Claims, Ladder: theorems
--   Requests    create, insertEligibleOpportunities, assignProvider, updateStatus,
--               updateStatusForProvider, rateRequest
--   Market      proposeQuote, submitProviderQuote, decideQuote, inviteProvidersToRequest,
--               withdrawProviderQuote, closeProviderOpportunity
--   Payments    collectCashPayment, refundCashPayment
--   Providers   createPilotProvider, updatePilotProviderVerification, updateProviderAvailability
--   Devices     fcm-device.repository.ts: registerDevice, revokeDevice
--   Otp         reserveOtpRequest and the challenges of one-time passwords; Service is
--               customer-auth.service.ts with the customers and their sessions
--   Support     createSupportTicket, updateSupportTicketStatus
--   Auth        staff-auth.service.ts, staff-auth.repository.ts, staff-bootstrap.service.ts (Staff),
--               provider-auth.service.ts and provider-access-code.ts (Providers, ProviderLogin,
--               Credentials), login-attempt-limiter.service.ts (Failures) and
--               public-auth-rate-limiter.service.ts (RateLimits)
--   Service     app.service.ts: the checks in front of the store, and what a provider sees (Views)
--   Settings    fcm.config.ts, request-image.config.ts, twilio-verify.config.ts,
--               otp-provider.factory.ts, trusted-proxy.ts: the environment
--   Ids         the public identifiers: toRequestDatabaseId and its siblings
--   Json        the values that a request body or a jsonb column holds
--   Push        notification-templates.ts (Payload, Message) and fcm.sender.ts (Sender)
--   Location    service-location.contracts.ts, service-location.config.ts (Service),
--               provider-tracking.config.ts and the validation of samples in provider-tracking.ts
--               (Tracking), location-privacy.ts (Privacy)
--   Tracking    sessions, samples, positions and retention, with provider-tracking.ts and
--               provider-tracking-retention.ts
--   Deals       the invariant of quotes and payments
--   System      the transactions as commands on one database, histories of them, and the theorems
--               on all histories; Moves is the life of a request as a state machine
--
-- How the code is read. A transaction is a function from the database to the new database and a
-- result, or to the error thrown; on an error the database stays as it was, which is the rollback.
-- Each transaction locks the row of its request first (SELECT … FOR UPDATE), so transactions on a
-- request do not interleave, and a history is a list of commands with the time of each. Services
-- that run several statements without a lock (the logins, the one-time passwords) are given as the
-- run of one call alone; Auth/Interleaving has the login of the staff statement by statement, with
-- others between its statements. A module
-- Inversion states what a committed transaction found and the tables it left. An UPDATE by a
-- primary key changes the first row with that key; ON CONFLICT DO NOTHING is a test for the key.
--
-- Numbers. Identifiers and text keys are numbers, since the code only compares them; a time is in
-- milliseconds, a coordinate in millionths of a degree, an accuracy in millimeters. A difference of
-- times is written as a sum, so that no subtraction is cut off. The great-circle distance is
-- floating-point code: it is a parameter, in whole meters rounded up, which the comparison with a
-- whole number of meters does not see. All recursion is on lists or on the limit of a statement.
-- Where the code looks inside a text (Auth, Ids, Push, Location) a text is the list of its UTF-16
-- code units. A JavaScript number in Json and Location is its 64-bit pattern, and its comparison,
-- rounding and printing are a parameter with documented laws. The digits of a number are printed on
-- fuel; `suc n` is enough for n. Parameters are also scrypt, SHA-256 and the lower case of a text,
-- the parsing of keys, URLs and numbers from the environment, and the answers of the text-message
-- provider and of Firebase.
--
-- Not modelled: the columns of a request that no decision reads (addresses, details, images,
-- timing), the order of rows that PostgreSQL leaves open, foreign keys except that of the staff
-- user, failing statements and lost connections, the list queries, the images
-- of requests, the controllers, the list of audit events, the HTTP calls of the text-message
-- provider and of Firebase, and the user interfaces. Of app.service.ts the creation of requests
-- and the tracking of a provider are left out.
pub mod Auth
pub mod Base
pub mod Deals
pub mod Devices
pub mod Ids
pub mod Json
pub mod Location
pub mod Market
pub mod Otp
pub mod Outbox
pub mod Payments
pub mod Providers
pub mod Push
pub mod Requests
pub mod Service
pub mod Settings
pub mod Store
pub mod Support
pub mod System
pub mod Tracking
