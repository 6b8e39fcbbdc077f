-- ===== src/Lib.antt =====
-- The egogero condominium gate: a model of the server's core, with proofs.
--
-- The server is TypeScript on PostgreSQL. A resident issues invitations to guests, each with a
-- token of six digits; a device or a person at the gatehouse validates a token once; the resident
-- may revoke it; an outbox worker delivers the tokens by email and SMS. Access to the server is
-- checked by roles and scopes, and human login is rolled out by policies.
--
-- The parts and their files, with the source from the repository's root:
--
--   Common/Tests, Common/Tables: Boolean tests on numbers, and tables as lists of rows. `select`,
--   `update` and `count` stand for statements with a WHERE clause, `first` for the one row of a
--   unique key. Common/Members: the rows before and after them. Common/Text: texts as codes of
--   characters, with split, trim and startsWith.
--
--   Auth (src/auth.ts): Role, Permission and ROLE_PERMISSIONS, AuthenticatedIdentity,
--   createCompositeAuthenticator (composite) and authorizationHook (authorize, which also returns
--   the cross-tenant alerts). Auth/Access has its theorems.
--
--   Invitation/Schema (prisma/schema.prisma): the tables that the invitation store uses, errors,
--   and `Result`, in which an error rolls a transaction back. Invitation/Sample has test data.
--   Invitation/Token (src/convites.ts): generateSixDigitToken, TOKEN_PATTERN, invitationStatus.
--   Invitation/Issue: persistBatch (persist_batch), statement by statement. Invitation/Create:
--   inTransaction (create_batch_active) and createInvitations. Invitation/Access: validateAccess
--   (validate_access), with the audit rows and, from src/notificacoes.ts, insertEntryNotification.
--   Invitation/Revoke: revokeActive (revoke_active). They share the tables: what one issues the
--   other validates and the last one revokes.
--
--   Session (src/sessions.ts; the acceptance of evidence from src/human-administration.ts):
--   Session/Schema has the tables and the configuration, with SHA-256 and the cipher of CSRF
--   tokens as its functions. Session/Load: loadSession, sessionDenialReason, touchSession,
--   identityFor. Session/Membership: chooseMembership, loadTargetMembership,
--   lockLiveMembershipScope. Session/Lookup: authenticate, isRevoked, inspect. Session/Insert:
--   insertSession. Session/Rotate: rotate. Session/Issue: issueFromHandoff, with a login or a
--   recovery in Session/Issue/Login and a reauthentication in Session/Issue/Renew. Session/Revoke:
--   revoke, revokeAll. Session/Intents: the intents that start a reauthentication. Session/Cookie:
--   the session cookie. Session/Browser: createBrowserSessionAuthenticator and
--   createCredentialRouter. Session/Routes (src/browser-auth.ts): /auth/session and /auth/tenant,
--   and in Session/Routes/Logout the logouts and the start of a reauthentication. A transaction
--   gives an answer and the tables, or crashes and leaves them; two reads of one row in a
--   transaction see one table. The limit on the creation of sessions is check of AuthLimits; the
--   rollout's gate of a membership and the answer of the limiter of failed authentications are
--   arguments. Left out are a request's correlation, address and agent in audits, metrics, alerts,
--   and display names. Session/Family is about all of these together.
--
--   Recovery (src/jobs/process-recovery-revocations.ts): claimRecoveryRevocations, the adapter on
--   the database, processRecoveryClaim and, in Recovery/Alerts, alertOverdueRecoveryRevocations.
--   The events stand beside the tables of Session, which the adapter changes. A timeout or a
--   failure of the run is an argument, and rolls its transaction back.
--
--   Retention (src/jobs/anonymize-old-guests.ts): anonymizeOldGuestData, countEligibleGuests and
--   runAnonymizationJob, with what other transactions lock at each batch as an argument.
--
--   AuthLimits (src/auth-rate-limits.ts): AUTH_RATE_LIMIT_POLICIES and check, with `consume`
--   (check_consume) and without (check_peek), on the row of one action and subject.
--   AuthLimits/Reserve: reserve, finalize and cleanup, on that row and its reservations.
--
--   Device/RateLimit (src/dispositivos.ts): rateLimitDecision and the limiters in memory and on a
--   table, which every validation by a device passes first. The table has its constraints from the
--   migrations: the foreign key on the device and the two CHECKs.
--
--   Delivery (src/jobs/deliver-invitations.ts): claimDeliveries, renewDeliveryLease,
--   completeDelivery and failDelivery on the outbox. Delivery/Lifecycle: the states that any
--   interleaving of those statements reaches. Delivery/Worker: decryptPayload, classifyFailure,
--   retryDelayMs and one turn of runDeliveryBatch, with statements that fail after or before their
--   commit; Delivery/Worker/Config: deliveryWorkerConfig. Delivery/Batch: verifyDeliverySecret,
--   verifyDeliveryPolicy and the claim of runDeliveryBatch.
--
--   Rollout (src/human-auth-rollout.ts): policyAllows, effectiveDecision, lockedPolicies, evaluate
--   and the gates. Rollout/Route: PUT /admin/human-auth/rollout.
--
-- How the source is read. A transaction is a function from the tables to a result with the tables
-- it leaves; row locks make a statement atomic, so an interleaving is a sequence of statements.
-- Identifiers, UUIDs, digests and fingerprints are compared for equality only and stand as
-- numbers; instants are milliseconds; a nullable column is an Option. Readings of a clock are
-- arguments, one for each statement where the code reads it again. Subtraction stops at zero, and
-- is written only where the source keeps the difference from being negative.
--
-- Parameters. HMAC and SHA-256 (TokenSecret, TenantDigest), the cipher of payloads (Cipher), the
-- session store's digests, cipher and gate (StoreConfig), the URL parser and base64url codec
-- (BrowserConfig), time zones (TimeZones), the clock (Clock, Readings, ClaimReadings), random
-- tokens (Draw) and the rounding of the jitter (Jitter) are arguments. What the theorems ask of
-- them is stated with them: a random UUID is not one drawn before (IsFresh), the jitter is a
-- factor between 0.8 and 1.2 (IsJitter). Unique keys of the tables are hypotheses on the count of
-- rows.
--
-- Bounds and fuel. createInvitations retries up to a number of attempts, by recursion on that
-- number, with 32 as its default; the theorem on it says what any number gives. The digits of a
-- token are printed on fuel of one step for each digit, with a lemma that it is enough. The loop
-- of the anonymization is on fuel of one step for a batch; more than the guests that are not
-- anonymized are enough, as a batch that is full takes one at least.
--
-- Not modelled: OIDC login, human administration, the cleanup of idempotency records, the loop of
-- the recovery worker, the idempotent issue, the remaining routes, text formats (headers of other
-- routes, message texts, JSON), the parsing of the session store's settings, metrics, wiring and
-- the web client. The function of the database that stores a policy is a parameter of the route
-- that calls it.
pub mod Auth
pub mod AuthLimits
pub mod Common
pub mod Delivery
pub mod Device
pub mod Invitation
pub mod Recovery
pub mod Retention
pub mod Rollout
pub mod Session
