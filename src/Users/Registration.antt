-- ===== src/Users/Registration.antt =====
-- bantam/api.py: `register` and `register_aspis_auditor`. The rate limit is a result that a handler
-- is given. A time is the time at which the database transaction began. No text holds the
-- character NUL, which PostgreSQL refuses.
use bantam_bank.Prelude.{
  ℕ, ◌-◌, ◌%◌, ltb, ◌==◌, not, ◌&&◌, ◌||◌, any, length, Bool, false, Option, none, some, List, [],
  ◌∷◌, if◌then◌else◌,
}
use bantam_bank.Prelude.Text.{Text, codes, strip, is_space}
use bantam_bank.Domain.{Uuid, Role, KycStatus}
use bantam_bank.Errors.{
  BantamError, Error, bantam, Result, ok, err, ◌>>=◌, ◌>>◌, raise_if, or_raise,
}
use bantam_bank.Db.{Payload, Resource, MetaValue}
use bantam_bank.Ledger.Posting.{insert_outbox, insert_audit}
use bantam_bank.Bank.Reply.{Http, Stamp, request_audit}
use bantam_bank.Bank.Customers.{event_row}
use bantam_bank.Passwords.{Python, password_problem, explanation, before_at}
use Prim.Native.String.{String}
use bantam_bank.Users.{
  UserDb, UserAccount, UserStatus, Profile, Date, AuditorRequest, RequestStatus, insert_customer,
  insert_user, insert_request, in_bank,
}

abbrev pub Answer : Type 0
Answer = Result (Unit {0}) × UserDb

-- The rest of a handler, where its tests have passed.
abbrev pub on_ok : {A : Type 0} → UserDb → Result A → (A → Answer) → Answer
on_ok db (err e) rest = (err e, db)
on_ok db (ok a) rest = rest a

-- A dot with a character before it and behind it; the first character has been passed.
abbrev pub dot_inside : Text → Bool
dot_inside [] = false
dot_inside (c ∷ []) = false
dot_inside (c ∷ d ∷ text) = (c == b'.') || dot_inside (d ∷ text)

abbrev pub is_domain : Text → Bool
is_domain [] = false
is_domain (c ∷ text) = dot_inside text

-- What follows the first `@`.
abbrev pub after_at : Text → Text
after_at [] = []
after_at (c ∷ text) = let rest = after_at text in if c == b'@' then text else rest

-- EMAIL_PATTERN: no white space, one `@`, something before it, and a domain behind it.
unfoldable pub is_email : Text → Bool
is_email text =
    not (any is_space text)
    && not (length (before_at text) == 0)
    && not (any (λ c. c == b'@') (after_at text))
    && is_domain (after_at text)

abbrev pub validation_error : String → Error
validation_error message = bantam (BantamError.validation message)

-- `hash_password`, with the error that a handler makes of its `ValueError`.
unfoldable pub hash_password :
    Python → (password : Text) → (disallowed_values : List Text) → Result Text
hash_password python password disallowed_values =
    elim (password_problem python password disallowed_values) [
      | some problem ↦ err (validation_error (explanation problem))
      | none ↦ ok (python.hashpw password)
    ]

abbrev pub is_leap : ℕ → Bool
is_leap year = (year % 4 == 0) && (not (year % 100 == 0) || (year % 400 == 0))

-- `today.replace(year=today.year - 18)`, or the 28th where that day does not exist.
abbrev pub adult_cutoff : Date → Date
adult_cutoff today =
    let year = today.year - 18 in
    if (today.month == 2) && (today.day == 29) && not (is_leap year)
    then record { year = year; month = 2; day = 28 }
    else record today { year = year }

-- `a > b` of dates.
abbrev pub is_later : Date → Date → Bool
is_later a b =
    ltb b.year a.year
    || ((a.year == b.year) && (ltb b.month a.month || ((a.month == b.month) && ltb b.day a.day)))

pub record RegisterInput : Type 0 where
  pub legal_name : Text
  pub date_of_birth : Text
  pub email : Text
  pub phone : Text
  pub password : Text

-- The identifiers that a registration draws: of the customer or of the request, and of the user.
pub record Drawn : Type 0 where
  pub subject_id : Uuid
  pub user_id : Uuid

abbrev too_young : Error
too_young = validation_error "customer must be at least 18 years old"

-- The tests of `register`, with `date.fromisoformat`: the date of birth and the hash.
unfoldable pub register_checks :
    Python
    → (fromisoformat : Text → Option Date) → (today : Date) → RegisterInput
    → (legal_name email : Text) → Result (Date × Text)
unfolding is_email hash_password
register_checks python fromisoformat today input legal_name email = do
  raise_if (ltb (length legal_name) 2) (validation_error "legal_name is required")
  raise_if (not (is_email email)) (validation_error "email is invalid")
  date_of_birth ← or_raise (fromisoformat input.date_of_birth) too_young
  raise_if (is_later date_of_birth (adult_cutoff today)) too_young
  password_hash ← hash_password python input.password (email ∷ legal_name ∷ [])
  ok (date_of_birth, password_hash)

abbrev pub new_user : Uuid → (email password_hash : Text) → Role → Option Uuid → UserAccount
new_user id email password_hash role customer_id = record {
  user_id = id;
  email = email;
  password_hash = password_hash;
  role = role;
  customer_id = customer_id;
  status = UserStatus.active;
  mfa_enabled = false;
}

abbrev pub new_profile : Drawn → (legal_name : Text) → Date → (email phone : Text) → Profile
new_profile d legal_name date_of_birth email phone = record {
  customer_id = d.subject_id;
  legal_name = legal_name;
  date_of_birth = date_of_birth;
  email = email;
  phone = phone;
}

-- The database transaction of `register`.
unfoldable pub store_customer :
    Http → Profile → (password_hash : Text) → Drawn → Stamp → UserDb → Result UserDb
unfolding insert_customer insert_user
store_customer http p password_hash d s db = do
  a ← insert_customer p db
  b ← insert_user (new_user d.user_id p.email password_hash Role.customer (some p.customer_id)) a
  c ←
      in_bank
        (insert_outbox
          (event_row s "customer" p.customer_id "customer.created.v1"
            (Payload.customer_kyc p.customer_id KycStatus.pending_kyc))
          b.bank)
        b
  in_bank
      (insert_audit
        (request_audit http d.user_id "CUSTOMER_REGISTERED" "customer" (Resource.row p.customer_id)
          [])
        s.audit_event_id s.now c.bank)
      c

-- A known address gets the answer of a new one.
abbrev pub accepted : UserDb → Result UserDb → Answer
accepted before (ok after) = (ok tt, after)
accepted before (err Error.unique_violation) = (ok tt, before)
accepted before (err e) = (err e, before)

-- `register`
unfoldable pub register :
    Python
    → (fromisoformat : Text → Option Date) → (limited : Result (Unit {0})) → (today : Date) → Http
    → RegisterInput
    → Drawn
    → Stamp
    → UserDb
    → Answer
unfolding register_checks store_customer
register python fromisoformat limited today http input d s db =
    let legal_name = strip input.legal_name in
    let email = python.lower (strip input.email) in
    on_ok db (limited >> register_checks python fromisoformat today input legal_name email)
      (λ checked. accepted db (
        store_customer http (new_profile d legal_name checked.0 email (strip input.phone)) checked.1
          d s db))

-- The tests of `register_aspis_auditor`.
unfoldable pub auditor_checks : Python → (email password : Text) → Result Text
unfolding is_email hash_password
auditor_checks python email password = do
  raise_if (not (is_email email)) (validation_error "email is invalid")
  hash_password python password (email ∷ codes "aspis auditor" ∷ [])

abbrev pub new_request : Drawn → AuditorRequest
new_request d = record {
  request_id = d.subject_id;
  user_id = d.user_id;
  status = RequestStatus.pending;
  decided_by = none;
  decision_reason = none;
  decided_at = none;
}

-- The database transaction of `register_aspis_auditor`.
unfoldable pub store_auditor :
    Http → (email password_hash : Text) → Drawn → Stamp → UserDb → Result UserDb
unfolding insert_user insert_request
store_auditor http email password_hash d s db = do
  a ← insert_user (new_user d.user_id email password_hash Role.pending_approval none) db
  b ← insert_request (new_request d) a
  in_bank
      (insert_audit
        (request_audit http d.user_id "ASPIS_AUDITOR_REQUESTED" "aspis_auditor_request"
          (Resource.row d.subject_id) (("requested_role", MetaValue.literal "ASPIS_AUDITOR") ∷ []))
        s.audit_event_id s.now b.bank)
      b

-- `register_aspis_auditor`
unfoldable pub register_aspis_auditor :
    Python
    → (limited : Result (Unit {0})) → Http
    → (email password : Text) → Drawn
    → Stamp
    → UserDb
    → Answer
unfolding auditor_checks store_auditor
register_aspis_auditor python limited http raw_email password d s db =
    let email = python.lower (strip raw_email) in
    on_ok db (limited >> auditor_checks python email password)
      (λ password_hash. accepted db (store_auditor http email password_hash d s db))
