-- ===== src/Lib.antt =====
-- Bantam Bank: a model of the bank's core and what is proved of it.
--
-- The program is a Python service over PostgreSQL. Its modules under bantam/ hold the rules; a
-- database transaction is the unit of change. A table is the list of its rows, newest first, an
-- UPDATE maps over the rows that its WHERE clause selects. Of the constraints and triggers that guard
-- the tables of money (migrations/001_initial_schema.sql, 002_security_hardening.sql), the unique
-- keys, the CHECKs on amounts, directions, accounts and balances, the range of BIGINT and the
-- triggers on balances, entries and the history of transactions are part of the writes; foreign
-- keys are not. A call is a function from the tables to an outcome and the new tables; an
-- error inside a database transaction gives the old tables back. Draws of uuid4 and readings of
-- clocks are arguments.
--
--   Domain, Errors, Db  bantam/domain.py, bantam/errors.py and the tables of money movement
--   Audit, Money        bantam/audit.py (record), bantam/money.py (balanced)
--   Sca                 bantam/sca.py: SCAService.create and validate_and_consume. HMAC-SHA256 is a
--                       field of the service. Approval follows a challenge from its creation to
--                       its use.
--   Ledger              bantam/ledger.py. Checks: _normalise, find_by_idempotency, _lock_accounts,
--                       the authorisation of a customer and _validate_reversal. Posting: the writes
--                       of create_transfer. Transfer: create_transfer and reconcile. A call takes
--                       three states of the database, since others may commit between its first
--                       look-up, its transaction and the look-up after a unique violation.
--                       Answers and Reported relate what a call answers to what it stores, and
--                       Report the rows of reconcile to the entries.
--   Bank                bantam/api.py: the handlers that change customers, accounts, money and
--                       alerts. Reply: request_audit and how a handler ends. Customers: submit_kyc,
--                       admin_decide_kyc, open_account. Accounts: operator_set_account_status.
--                       Payments: create_transfer, admin_demo_deposit, admin_reverse_transaction,
--                       create_sca_challenge, run_reconciliation. Alerts: create_manual_risk_alert,
--                       review_risk_alert. Server takes requests of all of them in turn, Turns says
--                       what one does to the books, and Book is the abstract specification. Decided
--                       says what a decision of an identity is. The
--                       guards of a handler (its scope, key and rate limit) are results that it is
--                       given.
--   Mfa                 bantam/mfa.py: Login, Totp, Passkey and Factors hold the operations of
--                       MfaService over the tables of Store. WebAuthn, pyotp and Fernet are fields.
--   Auth, Session       bantam/auth.py: the claims of AuthService.issue and parse_with_claims and
--                       the revocation of a token; bantam/api.py: finish_mfa_session, which turns
--                       the completion of a ceremony into the claims of a session.
--   Outbox              bantam/events.py: OutboxPublisher, and its run, with one publisher at a time; the backend
--                       is a function. The events that Ledger stores are what it publishes.
--   Workers             bantam/workers.py: create_risk_alert, which consumes those events, and
--                       Notifications: create_notifications, PubSubPullWorker.process_batch and
--                       format_minor (bantam/money.py)
--   Proxy               bantam/security.py: client_ip. Python's ipaddress is a parameter; the header
--                       is the list of its trimmed, non-empty items.
--   Limits              bantam/security.py: DatabaseRateLimiter, whose windows Window speaks of, and
--                       Body: RequestBodyLimitMiddleware. SHA-256 and Python's `int` are parameters.
--   Passwords           bantam/security.py: password_problem. What Python and bcrypt do to texts are the
--                       fields of a record.
--   Users               the tables of accounts, applications and permissions. Access: csrf_problem
--                       (bantam/security.py), authenticated_principal, require_roles,
--                       require_recent_mfa and require_admin_scope (bantam/api.py). Registration:
--                       register, register_aspis_auditor. Administration: admin_create_user,
--                       decide_aspis_auditor_request. Calls takes requests of all four in turn.
--                       PasswordLogin: login, up to the cookies, over these tables and those of Mfa.
--   AttackTree          bantam/repository_graph.py: attack_tree_structure_is_valid. Walks and Visits
--                       have the lemmas, Accepted the specification.
--   Simulation          bantam/attack_simulation.py: _attempt, over an accepted tree. The sampler and
--                       its probabilities are parameters.
--   Config              bantam/config.py: the settings of a process. Reading: _duration,
--                       parse_duration, _integer, _boolean, _csv, _optional and _proxy_networks.
--                       Environment: Settings.from_env. Validation, Secrets and Hosts:
--                       Settings.validate and uvicorn_address, test by test. Policy says what a
--                       process in production has to be. What Python's libraries do to texts and
--                       addresses is a record of functions.
--   Prelude             shared names, native integers, list functions, texts, decimal and UUID text
--
-- Integers are Python's, and a BIGINT column admits what lies within 63 bits and the sign. A UUID is
-- the number of its 128 bits, a time a number of microseconds, a text the list of its code points;
-- upper-casing is that of ASCII. The loop of publish_batch has the 50 turns of the source, and
-- the recursion over an attack tree the depths that the source allows; no other definition needs
-- fuel.
--
-- Not modelled: the handlers that only read, the cookies of a session,
-- validation by the schemas, response headers, account-status assertions,
-- connections, migrations and seeds, and, of the security-evidence tools, what collects, draws and
-- formats graphs and reports.
pub mod Prelude
pub mod Domain
pub mod Errors
pub mod Db
pub mod Audit
pub mod Money
pub mod Sca
pub mod Ledger
pub mod Bank
pub mod Config
pub mod Mfa
pub mod Auth
pub mod Session
pub mod Outbox
pub mod Proxy
pub mod Limits
pub mod Workers
pub mod AttackTree
pub mod Passwords
pub mod Users
pub mod Simulation
