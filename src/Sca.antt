-- ===== src/Sca.antt =====
-- bantam/sca.py: one-time challenges that bind a transfer to the code that approves it.
-- `hmac_hex secret message` stands for `hmac.new(secret, message, sha256).hexdigest()`.
use bantam_bank.Prelude.{
  ℕ, ◌+◌, ℤ, pos, leb_ℤ, ltb, ◌==◌, ◌==ℤ◌, length, any, all, find?, update, Bool, true, false, not,
  ◌&&◌, Option, none, some, ◌∷◌, ◌++◌, if◌then◌else◌,
}
use bantam_bank.Prelude.Text.{Text, ◌==ₜ◌, is_digit}
use bantam_bank.Prelude.Decimal.{int_text, dec}
use bantam_bank.Prelude.UuidText.{uuid_text}
use bantam_bank.Domain.{Uuid, Time, Principal, is_active}
use bantam_bank.Errors.{BantamError, Error, bantam, Result, ok, ◌>>=◌, ◌>>◌, raise_if, or_raise}
use bantam_bank.Db.{Db, Account, Challenge, ChallengeStatus, fits_bigint, sql_eq}
pub mod Codes
pub mod Approval
pub mod Tests

pub record ScaService : Type 0 where
  pub hmac_hex : Text → Text → Text
  pub secret : Text
  pub ttl : Time
  pub threshold : ℤ
  pub demo_mode : Bool

-- `required`
unfoldable pub required : ScaService → ℤ → Bool
required sca amount_minor = leb_ℤ sca.threshold amount_minor

-- The message of `_hash`.
unfoldable pub bound_value : (challenge_id user_id source destination : Uuid) → ℤ → Text → Text
bound_value challenge_id user_id source destination amount_minor code =
    uuid_text challenge_id
    ++ (b':'
        ∷ (uuid_text user_id
            ++ (b':'
                ∷ (uuid_text source
                    ++ (b':'
                        ∷ (uuid_text destination
                            ++ (b':' ∷ (int_text amount_minor ++ (b':' ∷ code)))))))))

-- `_hash`
unfoldable pub hash :
    ScaService → (challenge_id user_id source destination : Uuid) → ℤ → Text → Text
unfolding bound_value
hash sca challenge_id user_id source destination amount_minor code =
    sca.hmac_hex sca.secret (bound_value challenge_id user_id source destination amount_minor code)

-- What `create` returns: the zero identifier and no code where no challenge is required.
pub record Issued : Type 0 where
  pub challenge_id : Uuid
  pub expires_at : Option Time
  pub required : Bool
  pub demo_code : Option Text

abbrev has_active_account : (Account → Bool) → Db → Bool
has_active_account test db = any (λ a. test a && is_active a.status) db.accounts

-- `f"{draw:06d}"`: six digits, with zeros in front.
unfoldable pub six_digits : ℕ → Text
six_digits draw =
    let pad = λ (s : Text). if ltb (length s) 6 then b'0' ∷ s else s in
    pad (pad (pad (pad (pad (dec draw)))))

abbrev not_required : Issued
not_required = record { challenge_id = 0; expires_at = none; required = false; demo_code = none }

-- The second half of `create`: the challenge is stored, and its code is shown in demo mode only.
unfoldable pub issue :
    ScaService
    → (challenge_id draw : ℕ) → Time
    → (user_id source destination : Uuid) → ℤ
    → Db
    → Result (Issued × Db)
issue sca challenge_id draw now user_id source destination amount_minor db = do
  let code = six_digits draw
  let expires_at = now + sca.ttl
  let row : Challenge = record {
    challenge_id = challenge_id;
    user_id = user_id;
    source_account_id = source;
    destination_account_id = destination;
    amount_minor = amount_minor;
    code_hash = hash sca challenge_id user_id source destination amount_minor code;
    status = ChallengeStatus.pending;
    expires_at = expires_at;
    consumed_at = none;
  }
  let issued : Issued = record {
    challenge_id = challenge_id;
    expires_at = some expires_at;
    required = true;
    demo_code = if sca.demo_mode then some code else none;
  }
  raise_if (any (λ c. c.challenge_id == challenge_id) db.challenges) Error.unique_violation
  raise_if (not (fits_bigint amount_minor)) Error.out_of_range
  ok (issued, record db { challenges = row ∷ db.challenges })

-- `create`, with the draws of `uuid4` and `secrets.randbelow(1_000_000)` and the time.
unfoldable pub create :
    ScaService
    → (challenge_id draw : ℕ) → Time
    → Principal
    → (source destination : Uuid) → ℤ
    → Db
    → Result (Issued × Db)
unfolding issue required
create sca challenge_id draw now principal source destination amount_minor db = do
  customer ← or_raise principal.customer_id (bantam BantamError.forbidden)
  raise_if (leb_ℤ amount_minor (pos 0)) (bantam (BantamError.validation "amount must be positive"))
  raise_if (source == destination)
      (bantam (BantamError.validation "source and destination must differ"))
  raise_if
      (not (
        has_active_account (λ a. (a.account_id == source) && sql_eq a.customer_id (some customer))
          db))
      (bantam BantamError.forbidden)
  raise_if (not (has_active_account (λ a. a.account_id == destination) db))
      (bantam BantamError.not_found)
  let issued = issue sca challenge_id draw now principal.user_id source destination amount_minor db
  if required sca amount_minor then issued else ok (not_required, db)

abbrev pub is_pending : ChallengeStatus → Bool
is_pending ChallengeStatus.pending = true
is_pending _ = false

-- `len(code) == 6 and code.isascii() and code.isdigit()`
unfoldable pub is_code : Text → Bool
unfolding is_digit
is_code code = (length code == 6) && all is_digit code

-- The tests of a stored challenge against the transfer at hand.
unfoldable pub is_usable : Time → Uuid → (source destination : Uuid) → ℤ → Challenge → Bool
is_usable now user_id source destination amount_minor c =
    is_pending c.status
    && not (ltb c.expires_at now)
    && (c.user_id == user_id)
    && (c.source_account_id == source)
    && (c.destination_account_id == destination)
    && (c.amount_minor ==ℤ amount_minor)

-- The row that the UPDATE leaves. Its `consumed_at` is the call's reading of the clock, where the
-- statement takes now() of the database.
abbrev pub consume : Time → Challenge → Challenge
consume now c = record c { status = ChallengeStatus.consumed; consumed_at = some now }

-- `validate_and_consume` where a challenge is required: the row lock makes the conditional update
-- hit the row that was read.
unfoldable pub consume_challenge :
    ScaService
    → Time
    → (user_id source destination : Uuid) → ℤ
    → Option Uuid
    → Text
    → Db
    → Result Db
consume_challenge sca now user_id source destination amount_minor challenge code db = do
  id ← or_raise challenge (bantam BantamError.sca_required)
  raise_if (not (is_code code)) (bantam BantamError.sca_required)
  c ← or_raise (find? (λ c. c.challenge_id == id) db.challenges) (bantam BantamError.sca_failed)
  raise_if (not (is_usable now user_id source destination amount_minor c))
      (bantam BantamError.sca_failed)
  raise_if (not (hash sca id user_id source destination amount_minor code ==ₜ c.code_hash))
      (bantam BantamError.sca_failed)
  let open_row = λ (c : Challenge). (c.challenge_id == id) && is_pending c.status
  raise_if (not (any open_row db.challenges)) (bantam BantamError.sca_failed)
  ok (record db { challenges = update open_row (consume now) db.challenges })

-- `validate_and_consume`
unfoldable pub validate_and_consume :
    ScaService
    → Time
    → (user_id source destination : Uuid) → ℤ
    → Option Uuid
    → Text
    → Db
    → Result Db
validate_and_consume sca now user_id source destination amount_minor challenge code db =
    if required sca amount_minor
    then consume_challenge sca now user_id source destination amount_minor challenge code db
    else ok db
