-- ===== src/Users/Access.antt =====
-- bantam/api.py and bantam/security.py: who a request is from, and what that user may do.
use bantam_bank.Prelude.{
  ℕ, ◌+◌, ltb, ◌==◌, not, ◌&&◌, ◌||◌, any, all, find?, select, map, length, Bool, true, false,
  Option, none, some, List, [], ◌∷◌, if◌then◌else◌,
}
use bantam_bank.Prelude.Text.{Text, ◌==ₜ◌, codes, upper}
use bantam_bank.Domain.{Uuid, Time, Role, Principal}
use bantam_bank.Errors.{Error, Outcome, Result, ok, err, ◌>>=◌, ◌>>◌, raise_if, or_raise}
use bantam_bank.Auth.{Claims, Revoked, ParsedAccessToken, parse_with_claims}
use bantam_bank.Bank.Reply.{http_error}
use Prim.Native.String.{String}
use bantam_bank.Passwords.{Python, is_prefix}
use bantam_bank.Users.{
  UserDb, UserAccount, Permission, is_user, is_active_user, is_bank_admin, permission_scopes,
  mentions,
}

-- What these functions read of a request; an absent header or cookie is the empty text.
pub record Credentials : Type 0 where
  pub method : Text
  pub authorization : Text
  pub session_cookie : Text
  pub csrf_cookie : Text
  pub csrf_header : Text
  pub fetch_site : Text

abbrev pub is_blank : Text → Bool
is_blank [] = true
is_blank (c ∷ text) = false

abbrev is_ascii : ℕ → Bool
is_ascii c = ltb c 128

abbrev safe_methods : List Text
safe_methods = codes "GET" ∷ codes "HEAD" ∷ codes "OPTIONS" ∷ codes "TRACE" ∷ []

-- `csrf_problem`: whether a cookie's request lacks the proof. `hmac.compare_digest` refuses texts
-- that are not ASCII.
unfoldable pub csrf_problem : Python → Credentials → Result Bool
csrf_problem python r =
    let absent =
      is_blank r.csrf_cookie
      || is_blank r.csrf_header
      || ltb 128 (length r.csrf_cookie)
      || ltb 128 (length r.csrf_header) in
    if mentions (upper r.method) safe_methods
    then ok false
    else if python.lower r.fetch_site ==ₜ codes "cross-site"
    then ok true
    else if absent
    then ok true
    else if not (all is_ascii r.csrf_cookie && all is_ascii r.csrf_header)
    then err Error.type_error
    else ok (not (r.csrf_cookie ==ₜ r.csrf_header))

abbrev bearer : Text
bearer = codes "Bearer "

-- `text.removeprefix(word)`, where `word` is a prefix.
abbrev pub drop_prefix : Text → Text → Text
drop_prefix [] text = text
drop_prefix (c ∷ word) [] = []
drop_prefix (c ∷ word) (d ∷ text) = drop_prefix word text

-- The token, and the check of a cookie's request.
unfoldable pub raw_token : Python → Credentials → Result Text
unfolding csrf_problem
raw_token python r =
    let by_cookie = not (is_prefix bearer r.authorization) in
    let raw = if by_cookie then r.session_cookie else drop_prefix bearer r.authorization in
    do
      raise_if (is_blank raw) (http_error "UNAUTHENTICATED" 401)
      lacking ← if by_cookie then csrf_problem python r else ok false
      raise_if lacking (http_error "CSRF_FAILED" 403)
      ok raw

abbrev pub same_role : Role → Role → Bool
same_role Role.customer Role.customer = true
same_role Role.bank_admin Role.bank_admin = true
same_role Role.risk_analyst Role.risk_analyst = true
same_role Role.compliance_auditor Role.compliance_auditor = true
same_role Role.aspis_auditor Role.aspis_auditor = true
same_role Role.aspis_admin Role.aspis_admin = true
same_role Role.pending_approval Role.pending_approval = true
same_role Role.service_account Role.service_account = true
same_role _ _ = false

abbrev pub same_customer : Option Uuid → Option Uuid → Bool
same_customer none none = true
same_customer (some a) (some b) = a == b
same_customer _ _ = false

-- The row's test: active, and of the token's role and customer.
abbrev pub is_current : Principal → UserAccount → Bool
is_current p u =
    is_active_user u.status && same_role u.role p.role && same_customer u.customer_id p.customer_id

abbrev as_unauthenticated {ℓ} : {A : Type ℓ} → Outcome String A → Result A
as_unauthenticated (ok a) = ok a
as_unauthenticated (err message) = err (http_error "UNAUTHENTICATED" 401)

-- `authenticated_principal`: the parsed token, whose principal is the caller.
unfoldable pub authenticated_principal :
    Python
    → (decode : Text → Option Claims) → (now : ℕ) → List Revoked
    → Credentials
    → UserDb
    → Result ParsedAccessToken
unfolding raw_token
authenticated_principal python decode now revocations r db = do
  raw ← raw_token python r
  token ← as_unauthenticated (parse_with_claims decode now revocations raw)
  current ←
      or_raise (find? (is_user token.principal.user_id) db.users) (http_error "UNAUTHENTICATED" 401)
  raise_if (not (is_current token.principal current)) (http_error "UNAUTHENTICATED" 401)
  ok token

-- `require_roles`
unfoldable pub require_roles : List Role → Principal → Result (Unit {0})
require_roles roles p = raise_if (not (any (same_role p.role) roles)) (http_error "FORBIDDEN" 403)

-- `require_recent_mfa`
unfoldable pub require_recent_mfa :
    (mfa_step_up_ttl now : Time) → (mfa_at : Option Time) → Result (Unit {0})
require_recent_mfa ttl now none = err (http_error "MFA_STEP_UP_REQUIRED" 403)
require_recent_mfa ttl now (some mfa_at) =
    raise_if (ltb (mfa_at + ttl) now) (http_error "MFA_STEP_UP_REQUIRED" 403)

-- The super administrator's row: the user's, of an active administrator, with the configured address.
abbrev pub is_super : Python → (super_admin_email : Text) → Uuid → UserAccount → Bool
is_super python email id u =
    is_user id u
    && is_bank_admin u.role
    && is_active_user u.status
    && (python.casefold u.email ==ₜ python.casefold email)

-- `describe_admin_access`
unfoldable pub describe_admin_access :
    Python → (super_admin_email : Text) → Principal → UserDb → Bool × List Text
describe_admin_access python email p db =
    if not (is_bank_admin p.role)
    then (false, [])
    else if not (is_blank email) && any (is_super python email p.user_id) db.users
    then (true, permission_scopes)
    else (
      false,
      map (λ (g : Permission). g.scope)
          (select (λ (g : Permission). g.user_id == p.user_id) db.permissions),
    )

-- `require_admin_scope`
unfoldable pub require_admin_scope :
    Python → (super_admin_email : Text) → Principal → (scope : Text) → UserDb → Result (Unit {0})
unfolding describe_admin_access
require_admin_scope python email p scope db =
    let (is_super_admin, scopes) = describe_admin_access python email p db in
    if not (is_bank_admin p.role)
    then ok tt
    else if not (mentions scope permission_scopes)
    then err Error.runtime_error
    else if is_super_admin || mentions scope scopes
    then ok tt
    else err (http_error "FORBIDDEN" 403)
