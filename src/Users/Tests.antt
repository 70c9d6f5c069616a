-- ===== src/Users/Tests.antt =====
-- An applicant who is approved, and an administrator who asks for permissions.
use bantam_bank.Prelude.{
  ℕ, ◌≡◌, refl, sym, ap, subst, true, none, some, List, [], ◌∷◌, inl, inr, arith, map, select,
  if◌then◌else◌,
}
use Prim.Native.String.{String, ◌++◌}
use bantam_bank.Prelude.Text.{Text, codes, strip, ◌==ₜ◌}
use bantam_bank.Domain.{Role}
use bantam_bank.Errors.{Result, ok, err}
use bantam_bank.Auth
use bantam_bank.Auth.{Claims, ParsedAccessToken}
use bantam_bank.Bank.Reply.{Http, Stamp, http_error}
use bantam_bank.Ledger.Tests.{bank}
use bantam_bank.Ledger.Posting
use bantam_bank.Audit.{audit_row}
use bantam_bank.Passwords
use bantam_bank.Passwords.{Python}
use bantam_bank.Users.{UserDb, UserAccount, UserStatus, Permission, role_matches}
use bantam_bank.Users.Access
use bantam_bank.Users.Access.{Credentials}
use bantam_bank.Users.Registration.{validation_error}
use bantam_bank.Users.Administration
use bantam_bank.Users.Administration.{Decision}
use bantam_bank.Users.Calls
use bantam_bank.Users.Calls.{Setup, Visitor, Call, applying, creating, deciding}
use bantam_bank.Users.Vetted.{IsVetted}
use bantam_bank.Users.Served.{IsApproved, run-IsVetted}
use bantam_bank.Users.Guarded.{IsGuarded, serve-IsGuarded}

abbrev pub python : Python
python = record {
  lower = λ text. text;
  casefold = λ text. text;
  encoded_length = λ text. 20;
  is_decimal = λ c. Passwords.is_ascii_digit c;
  hashpw = λ text. codes "hash";
}

abbrev claims : ℕ → Role → Claims
claims id role = record {
  sub = id;
  iat = 800;
  nbf = 800;
  exp = 1700;
  jti = 1;
  role = role;
  amr = codes "pwd" ∷ codes "otp" ∷ [];
  mfa_at = some 800;
  customer_id = none;
}

abbrev setup : Setup
setup = record {
  python = python;
  decode = λ raw.
      if raw ==ₜ codes "root"
      then some (claims 20 Role.bank_admin)
      else some (claims 31 Role.aspis_auditor);
  fromisoformat = λ text. none;
  super_admin_email = [];
  mfa_step_up_ttl = 300000000;
}

abbrev pub http : Http
http = record { request_id = 60; ip_address = codes "203.0.113.9"; user_agent = codes "curl" }

abbrev pub stamp : ℕ → Stamp
stamp n = record { new_id = n; outbox_event_id = n; audit_event_id = n; now = 900000000 }

abbrev visitor : String → ℕ → Visitor
visitor token n = record {
  credentials = record {
    method = codes "POST";
    authorization = codes ("Bearer " ++ token);
    session_cookie = [];
    csrf_cookie = [];
    csrf_header = [];
    fetch_site = [];
  };
  revocations = [];
  http = http;
  stamp = stamp n;
}

abbrev root : UserAccount
root = record {
  user_id = 20;
  email = codes "root@bantam.test";
  password_hash = codes "hash";
  role = Role.bank_admin;
  customer_id = none;
  status = UserStatus.active;
  mfa_enabled = true;
}

abbrev permission : Text → Permission
permission scope = record { user_id = 20; scope = scope; granted_by = some 20 }

abbrev pub start : UserDb
start = record {
  bank = bank;
  profiles = [];
  users = root ∷ [];
  requests = [];
  permissions = permission (codes "admin_users") ∷ permission (codes "aspis_auditors") ∷ [];
}

start-IsVetted : IsVetted start
start-IsVetted = record {
  vetted = λ u i role. elim i [
    | inl e ↦ absurd (ground (arith, ap (λ (x : UserAccount). x.role) e, role))
    | inr none_left ↦ absurd none_left
  ];
  scoped = λ u i role. elim i [
    | inl e ↦
        (permission (codes "admin_users"), inl refl, ap (λ (x : UserAccount). x.user_id) (sym e))
    | inr none_left ↦ absurd none_left
  ];
  matching = λ u i. elim i [
    | inl e ↦ subst (λ (x : UserAccount). role_matches x ≡ true) (sym e) refl
    | inr none_left ↦ absurd none_left
  ];
  one_request = λ id. omega arith;
}

abbrev apply : Call
apply =
    applying (ok tt) http (codes "eve@aspis.test") (codes "Correct-horse-42")
      (record { subject_id = 30; user_id = 31 }) (stamp 40)

abbrev approve : Call
approve = deciding (visitor "root" 41) 30 Decision.approve (codes "Known to us")

abbrev day : UserDb
day = Calls.run setup (apply ∷ approve ∷ []) start

run-IsVetted_example :
    IsVetted day × IsApproved (Calls.authenticated setup (visitor "eve" 50) day) day
run-IsVetted_example =
    run-IsVetted setup (apply ∷ approve ∷ []) start (visitor "eve" 50) start-IsVetted

serve-IsGuarded_example :
    IsGuarded setup approve
      (Calls.run setup (apply ∷ []) start)
      (Calls.serve setup approve (Calls.run setup (apply ∷ []) start))
serve-IsGuarded_example = serve-IsGuarded setup approve (Calls.run setup (apply ∷ []) start)

-- The decision needed the scope, which the administrator has.
approve_passes : (Calls.serve setup approve (Calls.run setup (apply ∷ []) start)).0 ≡ ok tt
unfolding Calls.run Calls.admitted Access.authenticated_principal Auth.parse_with_claims
    Auth.is_allowed_role Auth.are_methods Auth.has_second_factor Access.require_roles strip
    Administration.check_permissions Passwords.password_problem Passwords.explanation
    Posting.insert_audit audit_row
approve_passes = refl

abbrev auditors : UserDb → List ℕ
auditors db =
    map (λ (u : UserAccount). u.user_id)
      (select (λ (u : UserAccount). Access.same_role u.role Role.aspis_auditor) db.users)

day_auditors : auditors day ≡ 31 ∷ []
unfolding Calls.run Calls.admitted Access.authenticated_principal Auth.parse_with_claims
    Auth.is_allowed_role Auth.are_methods Auth.has_second_factor Access.require_roles strip
    Administration.check_permissions Passwords.password_problem Passwords.explanation
    Posting.insert_audit audit_row
day_auditors = refl

abbrev entrance : Result ParsedAccessToken → Result (Unit {0})
entrance (ok token) = ok tt
entrance (err e) = err e

auditor_enters : entrance (Calls.authenticated setup (visitor "eve" 50) day) ≡ ok tt
unfolding Calls.run Calls.admitted Access.authenticated_principal Auth.parse_with_claims
    Auth.is_allowed_role Auth.are_methods Auth.has_second_factor Access.require_roles strip
    Administration.check_permissions Passwords.password_problem Passwords.explanation
    Posting.insert_audit audit_row
auditor_enters = refl

-- Nobody is decided on twice.
decided_once : (Calls.serve setup approve day).0 ≡ err (http_error "INVALID_APPROVAL_STATE" 409)
unfolding Calls.run Calls.admitted Access.authenticated_principal Auth.parse_with_claims
    Auth.is_allowed_role Auth.are_methods Auth.has_second_factor Access.require_roles strip
    Administration.check_permissions Passwords.password_problem Passwords.explanation
    Posting.insert_audit audit_row
decided_once = refl

-- A password without a symbol is not stored.
weak :
    (Calls.serve setup
      (creating
        (visitor "root" 42)
        (codes "ann@bantam.test")
        (codes "Correcthorse42")
        (codes "risk" ∷ [])
        21)
      start).0
    ≡ err (validation_error "password must include a symbol")
unfolding Calls.run Calls.admitted Access.authenticated_principal Auth.parse_with_claims
    Auth.is_allowed_role Auth.are_methods Auth.has_second_factor Access.require_roles strip
    Administration.check_permissions Passwords.password_problem Passwords.explanation
    Posting.insert_audit audit_row
weak = refl

-- A scope that is not one of the list is refused.
unknown_scope :
    (Calls.serve setup
      (creating
        (visitor "root" 42)
        (codes "ann@bantam.test")
        (codes "Correct-horse-42")
        (codes "root" ∷ [])
        21)
      start).0
    ≡ err (validation_error "permissions include an unsupported scope")
unfolding Calls.run Calls.admitted Access.authenticated_principal Auth.parse_with_claims
    Auth.is_allowed_role Auth.are_methods Auth.has_second_factor Access.require_roles strip
    Administration.check_permissions Passwords.password_problem Passwords.explanation
    Posting.insert_audit audit_row
unknown_scope = refl
