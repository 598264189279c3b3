-- ===== src/Lib.antt =====
-- The control plane of Outpost, a self-hosted panel for proxy servers: the life of a connection and of
-- its credentials, the outbox that brings the proxy engines in line with them, the reader of the
-- geosite database that routing rules are taken from, the accounts of traffic, the owner's access to the
-- panel, the monitoring of services, the draft and the history of the routing rules, and the order of
-- versions.
--
-- A connection has generations; each has a subscription token and a credential for each engine. A
-- request changes the tables at once and leaves a job in the outbox; a task claims the job, waits for
-- the lock of the engines, calls the engine and then completes the change in the tables. Requests go on
-- being served while a task waits.
--
-- The files and what they model:
-- - Prelude: names of the library, Boolean tests, lists on native numbers, and SQL statements on tables
--   kept as lists of rows in the order of insertion.
-- - Db: the tables `connections`, `credentials`, `connection_sync_jobs`, `connection_presence` (only
--   which connection a row belongs to), `audit_log` and `events` (src/server/db/schema.ts, `audit` and
--   `event` of src/server/db/database.ts), with their unique indices: an INSERT that breaks one throws.
-- - Connections: `ConnectionService` of src/server/services/connections.ts. A method is a function of
--   the same name in snake case (`prepareArchive` is `prepare_archive`). It takes the tables and returns
--   the new ones or the exception; a transaction that throws leaves none, so its changes are undone.
-- - Sync and Sync.Requests: `ConnectionSyncService` of src/server/services/connection-sync.ts. `System`
--   holds the tables, the tasks that wait for the lock `engine-snapshot`, the one that holds it, and the
--   engine calls made so far. What runs between two `await`s is one step: a request up to its first
--   `await` (`activate_request` and so on), `begin` (a task gets the lock and makes its engine call),
--   `settle` (the call returns or fails, and the task ends), `recover_interrupted` (a restart). `steps`
--   runs any list of them, each at any time; a request that is refused changes nothing.
-- - Geosite: `ProtoReader`, the parsers of messages (`parseSite` and so on), `convertDomain`, `unique` and
--   `compile` of src/server/adapters/geosite.ts. A reader is the list of the bytes that are left. A loop
--   over a message runs on fuel, as many rounds as there are bytes, which is enough as each round reads
--   at least one; its result tells running out of fuel from an exception.
-- - Traffic: `recordCumulative`, `compact`, `rollup` and `floorDate` of src/server/services/traffic.ts over
--   `traffic_cursors` and `traffic_samples`. An upsert changes the first row with the key, as keys are
--   unique.
-- - Auth: `AuthService` of src/server/auth/webauthn.ts over `owners`, `passkeys`, `sessions`,
--   `api_tokens`, `webauthn_challenges`, `owner_invitations` and three settings. Auth has grants and
--   sessions, Auth.Registration the invitations, challenges and the registration of a passkey,
--   Auth.Login the login and `authenticate`, Auth.Access what the owner gives and takes back. What
--   waits is cut at its wait: `finishRegistration` and `finishAuthentication` at that for the verifier
--   (`begin_registration`, `finish_registration`, `begin_login`, `finish_login`), `registrationOptions`
--   and `authenticationOptions` at that for the library's options, after which the challenge is stored;
--   Auth.Steps runs them with any requests in between. Auth.Moves describes abstractly what may happen
--   to the tables; Auth.Refinement, Auth.Requests, Auth.AccessRequests, Auth.Responses and Auth.Runs
--   relate the requests to it.
-- - Monitoring: `MonitoringService` of src/server/services/monitoring.ts: `observeService`,
--   `observeThreshold` and `save`, and in Monitoring.Collect the observations of `collect` and
--   `refreshServices`. Monitoring.Verdicts describes what a probe tells of a service without them. A
--   percentage is counted in hundredths.
-- - Routes: `RouteService` of src/server/services/routes.ts over `route_drafts` and `route_revisions`:
--   Routes.Values has the checks of values, Routes.Revisions `publish`, `rollback` and `discard`,
--   Routes.Editing `add`, `remove`, `reorder` and `updateLocal`, whose UPDATEs run row by row under the
--   unique index on positions. `toLowerCase`, the letters of Unicode and `isIP` are `TextTools`; the
--   catalogue of rule sets is `RulesetCatalog`.
-- - Releases: `compareVersions` and `isPrerelease` of src/server/releases.ts, on versions as
--   `parseVersion` returns them.
--
-- Choices: ids, tokens and digests are natural numbers, and times are milliseconds. A method that reads
-- the clock several times without waiting reads it once here. Random values (UUIDs, passwords, nonces)
-- are arguments (`Fresh`), as are the operations of src/server/security.ts (`Crypto`: sealing, opening,
-- deriving and hashing) and the text decoder (`decode`); nothing is assumed of them but what a theorem
-- names. Of an exception only the HTTP status is kept, and of a log row the action, actor and resource.
-- The schemas of zod have run: `CreateData` and `UpdateData` are what they let through. JavaScript
-- numbers are natural numbers, as none of them is negative or leaves the safe integers, but for the
-- days that a certificate is valid, which are integers. What the WebAuthn library answers is an
-- argument of the second half of a call: a key, a counter, options with a challenge, or nothing. An
-- empty token counts as none. A call that throws after it has pruned the challenges keeps them here, as
-- one that has expired is not found either way.
--
-- The ids of jobs and of credentials are random UUIDs, and their primary keys are not modelled: a UUID
-- that is drawn twice is not refused here.
--
-- Not modelled: the options that registration and login pass to the WebAuthn library, the lists of
-- `security` and `apiTokens`, the setting `monitor_snapshot`, `prepareSetupMonitoring` and the probes,
-- `update` and `state` of the routing rules, the presence that `get` and `list` attach to a
-- connection, the loop of `drain` around `run`, `parseVersion`, `reconcile` (other holders of the same
-- lock), migrations, settings, the loop over the sites and the codes of categories in geosite.ts, the
-- presence and the reports of traffic.ts, the other services, the web interface, the agent and the
-- deployment files.
mod Prelude
pub mod Db
pub mod Connections
pub mod Sync
pub mod Geosite
pub mod Traffic
pub mod Releases
pub mod Auth
pub mod Monitoring
pub mod Routes
