-- ===== src/Lib.antt =====
-- The server side of LOXTU: sign-in by one-time password, passkey or an external provider, access
-- and refresh tokens, and the middleware in front of the handlers.
--
-- Base holds what the other modules share: strings as lists of bytes (Text), lists over the native
-- numbers (Lists), Go maps as association lists (Map), Go's strings and hex packages on ASCII
-- (Strings), results that may also be a panic (Result), and instants as nanoseconds (Clock).
--
-- Identity is internal/core/identity.
--   Otp is otp_service.go: GenerateCode, Send, Verify, over the OTPStore of store.go.
--   Session is session.go: IssueAccessToken, ValidateAccessToken, IssueRefreshToken, IssueTokens.
--   Token is token_service.go: Issue, IssueSession, Rotate, RevokeAllForUser.
--   Oauth is oauth_service.go: BeginAuth, CompleteAuth and the states between them.
--   OauthManager is oauth_manager.go: LinkAndIssue, MapEntraGroups.
--   Passkey is passkey_service.go: its parent holds the entities, Passkey.Ceremony the
--     registrations and the beginnings of logins, Passkey.Login is FinishLogin.
--   User is user.go: the entities, handles and masked addresses. Hash is the hashes of user.go,
--     session.go and otp_service.go. RateLimit is rate_limit.go, Ports is store.go.
-- Adapters.RateLimit is internal/adapters/ratelimit/memory.go, the limiter that the handlers use,
--   Adapters.Audit the queue of internal/adapters/persistence/surrealdb/audit_repo.go
--   (Audit.Service is internal/core/audit/service.go), and
--   Adapters.Pool the connections of pool.go there: its parent holds the operations on the
--   channel, Pool.Query is Query and CreateRecord, Pool.Steps the callers side by side,
--   Pool.Records the identifiers of records. OtpRepo, OauthRepo, UserRepo, SessionRepo, CredRepo
--   and TenantRepo beside it are otp_repo.go, oauth_repo.go, user_repo.go, session_repo.go,
--   cred_repo.go and ResolveByDomain of tenant_repo.go, each over a table whose statements are a
--   parameter (IsTable says what a database makes of them), and Rows is the values in the rows.
-- Middleware is internal/interfaces/http/middleware: RateLimit is ratelimit.go, Csrf is csrf.go,
--   RequestId is request_id.go, SecurityHeaders is security_headers.go; Request is what they read
--   of an http.Request.
-- Handlers is internal/interfaces/http/handlers: Guard is auth_guard.go,
--   Tenant is tenant_resolver.go, and Auth is auth_handler.go: Auth.Send is SendOTP, Auth.Verify
--   is VerifyOTP, Auth.Consent is ConsentPage and ConsentAccept, Auth.Session is Refresh and
--   Logout. Passkey is passkey_handler.go and Oauth is oauth_handler.go.
-- Security is internal/security: Crypto is crypto.go, and KeyManager is keymanager.go with
--   internal/config/security.go. Shared.Http is internal/shared/httputil/http.go.
--
-- A method is a function from the service's state and its arguments to the new state and a result.
-- The pool of connections is shared by callers that do not wait for each other: its runs are the
-- sequences of steps of Pool.Steps, in any order.
-- The services write through ports: a port is a record of functions on a world of stored data, and
-- what their calls do to the data is a hypothesis (IsReliable); OtpRepo.Reliable and
-- SessionRepo.Reliable relate it to the tables of the database. The clock's
-- reading and the random draws are arguments, one reading for a call. A mutex makes each call of a
-- limiter, and each access to a map of states or challenges, atomic; so a concurrent run is a
-- sequence of calls, and the theorems on states and challenges are about any sequence.
--
-- Parameters, since their code is not in the repository: SHA-256, AES-GCM, base64, the JWT library
-- (Jwt, with IsJwt for what it documents), go-webauthn (Webauthn), the external providers, and
-- what the database makes of a statement.
--
-- Numbers are unbounded where the source has counters and times; only the counter of a passkey is
-- cut to 32 bits. The loops of itoa, itohex and of the code's digits run on fuel, and the lemmas
-- about them show that what is given is enough.
--
-- Not modelled: the handler of the dashboard, which renders pages; GetByTenantID; mail, chat and
-- provider requests, which are input and output; the templates and static files, which are
-- generated or data; the rest of the configuration and the wiring.
pub mod Base
pub mod Identity
pub mod Adapters
pub mod Middleware
pub mod Handlers
pub mod Security
pub mod Shared
