-- ===== src/Ledger/Tests.antt =====
-- The service on a small bank: a payment that needs a challenge, its repetition and its reversal.
use bantam_bank.Prelude.{
  if◌then◌else◌, ℕ, ◌+◌, ◌≡◌, inr, refl, ℤ, pos, negsuc, Bool, true, false, Option, none, some, [],
  ◌∷◌, ◌++◌, find?, map, arith, int_laws,
}
use bantam_bank.Prelude.Int.{◌+ℤ◌, ◌-ℤ◌}
use bantam_bank.Prelude.Text.{codes, strip, upper}
use bantam_bank.Prelude.Decimal.{int_text}
use bantam_bank.Prelude.UuidText.{uuid_text}
use bantam_bank.Money.{balanced}
use bantam_bank.Audit.{audit_row}
use bantam_bank.Domain.{
  CustomerStatus, AccountType, Role, KycStatus, AccountStatus, TransactionType, Principal,
  TransferCommand,
}
use bantam_bank.Db.{
  Db, Account, Balance, Transaction, TransactionStatus, Entry, Direction, Challenge,
  ChallengeStatus,
}
use bantam_bank.Sca
use bantam_bank.Sca.{ScaService}
use bantam_bank.Ledger.Checks
use bantam_bank.Ledger.Checks.{Draws, Normalised, is_transaction}
use bantam_bank.Ledger.Posting
use bantam_bank.Ledger.Transfer
use bantam_bank.Ledger.Transfer.{TransactionPayload, new_payload}
use bantam_bank.Ledger.Outcomes.{Posts}
use bantam_bank.Ledger.Answers.{IsReported}
use bantam_bank.Ledger.Reported.{create_transfer-IsReported}
use bantam_bank.Ledger.Keys.{HasKeys, total}
use bantam_bank.Ledger.Reconciliation.{IsReconciled, create_transfer-IsReconciled}
use bantam_bank.Ledger.Conservation.{IsBalanced, create_transfer_conserves}
use bantam_bank.Ledger.Overdraft.{IsSound, create_transfer-IsAllowed, create_transfer-IsSound}
use bantam_bank.Ledger.Rules.{IsAllowed}
use bantam_bank.Ledger.Idempotency.{
  HasUniqueKeys, Replays, create_transfer-HasUniqueKeys, create_transfer-Replays,
}
use bantam_bank.Ledger.Authorisation.{Involves, MayMove, create_transfer-authorised}
use bantam_bank.Ledger.Spent.{spent_calls-no_posting}
use bantam_bank.Ledger.Challenges.{IsSpent, Binds, has_id, create_transfer-consumes}
use bantam_bank.Ledger.Reversal.{
  Mirrors, figures, undone, create_transfer-reversal, reversed-no_posting,
}

-- A stand-in for the digest that keeps its two inputs apart.
abbrev pub sca : ScaService
sca = record {
  hmac_hex = λ secret message. secret ++ (b'|' ∷ message);
  secret = codes "k";
  ttl = 300;
  threshold = pos 20000;
  demo_mode = true;
}

abbrev pub alice : Principal
alice = record { user_id = 11; role = Role.customer; customer_id = some 101 }

abbrev pub admin : Principal
admin = record { user_id = 15; role = Role.bank_admin; customer_id = none }

abbrev account : ℕ → Option ℕ → Bool → Account
account id owner negative = record {
  account_id = id;
  customer_id = owner;
  account_reference = codes "XB-";
  account_type = if negative then AccountType.system else AccountType.current;
  currency = codes "GBP";
  status = AccountStatus.active;
  allow_negative = negative;
}

abbrev balance : ℕ → ℤ → Balance
balance id amount = record {
  account_id = id;
  available_balance_minor = amount;
  current_balance_minor = amount;
  last_ledger_entry_id = none;
  updated_at = 0;
}

abbrev entry : ℕ → ℕ → ℤ → Direction → Entry
entry id owner amount direction = record {
  ledger_entry_id = id;
  transaction_id = 700;
  account_id = owner;
  amount_minor = amount;
  currency = codes "GBP";
  direction = direction;
  entry_type = TransactionType.demo_deposit;
}

abbrev challenge : Challenge
challenge = record {
  challenge_id = 40;
  user_id = 11;
  source_account_id = 1;
  destination_account_id = 2;
  amount_minor = pos 30000;
  code_hash = Sca.hash sca 40 11 1 2 (pos 30000) (codes "123456");
  status = ChallengeStatus.pending;
  expires_at = 1000;
  consumed_at = none;
}

abbrev deposit : Transaction
deposit = record {
  transaction_id = 700;
  idempotency_key = codes "opening";
  request_id = 59;
  initiated_by_user_id = 15;
  source_account_id = 9;
  destination_account_id = 1;
  amount_minor = pos 50000;
  currency = codes "GBP";
  description = [];
  transaction_type = TransactionType.demo_deposit;
  reverses_transaction_id = none;
  status = TransactionStatus.posted;
  created_at = 0;
  posted_at = some 0;
}

-- Alice holds 500 pounds, which came from the bank's own account.
abbrev pub bank : Db
bank = record {
  customers =
      record {
        customer_id = 101;
        kyc_status = KycStatus.kyc_verified;
        status = CustomerStatus.active;
      }
      ∷ record {
        customer_id = 102;
        kyc_status = KycStatus.kyc_verified;
        status = CustomerStatus.active;
      }
      ∷ [];
  accounts = account 1 (some 101) false ∷ account 2 (some 102) false ∷ account 9 none true ∷ [];
  balances = balance 1 (pos 50000) ∷ balance 2 (pos 0) ∷ balance 9 (negsuc 49999) ∷ [];
  transactions = deposit ∷ [];
  entries =
      entry 71 9 (negsuc 49999) Direction.debit ∷ entry 72 1 (pos 50000) Direction.credit ∷ [];
  challenges = challenge ∷ [];
  outbox = [];
  audit = [];
  alerts = [];
  notifications = [];
}

abbrev payment : TransferCommand
payment = record {
  request_id = 60;
  idempotency_key = codes " rent-may ";
  actor = alice;
  source_account_id = 1;
  destination_account_id = 2;
  amount_minor = pos 30000;
  currency = codes "gbp";
  description = codes "Rent";
  sca_challenge_id = some 40;
  sca_code = codes "123456";
  operator_override = false;
  transaction_type = none;
  reverses_transaction_id = none;
}

abbrev undo : TransferCommand
undo = record {
  request_id = 61;
  idempotency_key = codes "undo-rent";
  actor = admin;
  source_account_id = 2;
  destination_account_id = 1;
  amount_minor = pos 30000;
  currency = codes "GBP";
  description = codes "";
  sca_challenge_id = none;
  sca_code = [];
  operator_override = true;
  transaction_type = some TransactionType.reversal;
  reverses_transaction_id = some 300;
}

abbrev pub draws : ℕ → Draws
draws n = record {
  transaction_id = n;
  debit_entry_id = n + 1;
  credit_entry_id = n + 2;
  outbox_event_id = n + 3;
  audit_event_id = n + 4;
  checked_at = 900;
  now = 901;
  started_at = 899;
}

-- The two commands as `_normalise` gives them.
abbrev normal_payment : Normalised
normal_payment = record {
  command = Checks.trimmed payment;
  transaction_type = TransactionType.transfer;
}

abbrev normal_undo : Normalised
normal_undo = record { command = Checks.trimmed undo; transaction_type = TransactionType.reversal }

-- The bank after the payment, and after the payment and its reversal.
abbrev paid : Db
paid = (Transfer.create_transfer sca (draws 300) payment bank bank bank).1

abbrev undone_bank : Db
undone_bank = (Transfer.create_transfer sca (draws 400) undo paid paid paid).1

payment_posts : Posts sca (draws 300) payment bank bank paid
unfolding Transfer.create_transfer Transfer.execute Checks.normalise Checks.find_by_idempotency
    Checks.lock_accounts Checks.authorise Checks.validate_reversal Posting.post
    Sca.validate_and_consume Sca.consume_challenge Sca.required Sca.hash Sca.is_code Sca.is_usable
    strip upper uuid_text int_text balanced audit_row ◌+ℤ◌ ◌-ℤ◌
payment_posts = record {
  normalised = normal_payment;
  normalises = refl;
  new_before = refl;
  new_now = refl;
  executes = refl;
}

undo_posts : Posts sca (draws 400) undo paid paid undone_bank
unfolding Transfer.create_transfer Transfer.execute Checks.normalise Checks.find_by_idempotency
    Checks.lock_accounts Checks.authorise Checks.validate_reversal Posting.post
    Sca.validate_and_consume Sca.consume_challenge Sca.required Sca.hash Sca.is_code Sca.is_usable
    strip upper uuid_text int_text balanced audit_row ◌+ℤ◌ ◌-ℤ◌
undo_posts = record {
  normalised = normal_undo;
  normalises = refl;
  new_before = refl;
  new_now = refl;
  executes = refl;
}

-- Commands of other keys that name the same challenge, and the same transaction to reverse.
abbrev payment_again : TransferCommand
payment_again = record payment { idempotency_key = codes "rent-june" }

abbrev undo_again : TransferCommand
undo_again = record undo { idempotency_key = codes "undo-rent-2" }

payment_moves :
    map figures paid.balances
    ≡ (1, pos 20000, pos 20000) ∷ (2, pos 30000, pos 30000) ∷ (9, negsuc 49999, negsuc 49999) ∷ []
unfolding Transfer.create_transfer Transfer.execute Checks.normalise Checks.find_by_idempotency
    Checks.lock_accounts Checks.authorise Checks.validate_reversal Posting.post
    Sca.validate_and_consume Sca.consume_challenge Sca.required Sca.hash Sca.is_code Sca.is_usable
    strip upper uuid_text int_text balanced audit_row ◌+ℤ◌ ◌-ℤ◌
payment_moves = refl

pub bank-IsReconciled : IsReconciled bank
unfolding Transfer.create_transfer Transfer.execute Checks.normalise Checks.find_by_idempotency
    Checks.lock_accounts Checks.authorise Checks.validate_reversal Posting.post
    Sca.validate_and_consume Sca.consume_challenge Sca.required Sca.hash Sca.is_code Sca.is_usable
    strip upper uuid_text int_text balanced audit_row ◌+ℤ◌ ◌-ℤ◌
bank-IsReconciled = (refl, (refl, (refl, tt)))

create_transfer-IsReconciled_example : IsReconciled paid
create_transfer-IsReconciled_example =
    create_transfer-IsReconciled sca (draws 300) payment bank bank bank bank-IsReconciled

bank-HasKeys : HasKeys bank.balances
bank-HasKeys = ground arith

pub bank-IsBalanced : IsBalanced bank.entries
bank-IsBalanced id = grind int_laws

create_transfer_conserves_example :
    HasKeys paid.balances × (total paid.balances ≡ total bank.balances) × IsBalanced paid.entries
create_transfer_conserves_example =
    create_transfer_conserves sca (draws 300) payment bank bank bank bank-HasKeys bank-IsBalanced

pub bank-IsSound : IsSound bank
bank-IsSound = ground arith

create_transfer-IsAllowed_example :
    IsAllowed (Transfer.create_transfer sca (draws 300) payment bank bank bank).0
create_transfer-IsAllowed_example =
    create_transfer-IsAllowed sca (draws 300) payment bank bank bank bank-IsSound

create_transfer-IsSound_example : IsSound paid
create_transfer-IsSound_example =
    create_transfer-IsSound sca (draws 300) payment bank bank bank bank-IsSound

bank-HasUniqueKeys : HasUniqueKeys bank
bank-HasUniqueKeys user_id key = ground arith

create_transfer-HasUniqueKeys_example : HasUniqueKeys paid
create_transfer-HasUniqueKeys_example =
    create_transfer-HasUniqueKeys sca (draws 300) payment bank bank bank bank-HasUniqueKeys

create_transfer-Replays_example :
    Replays
      (new_payload (draws 300) normal_payment)
      paid
      (Transfer.create_transfer sca (draws 500) payment paid paid paid)
unfolding payment_posts
create_transfer-Replays_example =
    create_transfer-Replays sca sca (draws 300) (draws 500) payment payment normal_payment bank bank
      bank paid paid paid payment_posts payment_posts.normalises refl refl (inr refl)

create_transfer-authorised_example :
    (s t : Account) × Involves (Checks.trimmed payment) bank s t
    × MayMove (Checks.trimmed payment) bank s
create_transfer-authorised_example =
    create_transfer-authorised sca (draws 300) payment bank bank paid payment_posts

create_transfer-consumes_example :
    (id : ℕ) × (ch : Challenge) × (payment.sca_challenge_id ≡ some id)
    × (find? (has_id id) bank.challenges ≡ some ch)
    × Binds sca 900 (Checks.trimmed payment) ch
    × IsSpent id paid
unfolding Sca.required
create_transfer-consumes_example =
    create_transfer-consumes sca (draws 300) payment bank bank paid payment_posts refl refl

paid-IsSpent : IsSpent 40 paid
unfolding Transfer.create_transfer Transfer.execute Checks.normalise Checks.find_by_idempotency
    Checks.lock_accounts Checks.authorise Checks.validate_reversal Posting.post
    Sca.validate_and_consume Sca.consume_challenge Sca.required Sca.hash Sca.is_code Sca.is_usable
    strip upper uuid_text int_text balanced audit_row ◌+ℤ◌ ◌-ℤ◌
paid-IsSpent = ((λ same is_open. ground arith), tt)

spent_calls-no_posting_example : ¬ Posts sca (draws 500) payment_again paid undone_bank undone_bank
unfolding Sca.required
spent_calls-no_posting_example =
    spent_calls-no_posting sca
      (record { draws = draws 400; command = undo; before = paid; after = paid } ∷ []) (draws 500)
      payment_again paid paid undone_bank 40 paid-IsSpent refl refl refl

create_transfer-reversal_example :
    (t : Transaction) × (find? (is_transaction 300) paid.transactions ≡ some t)
    × Mirrors (Checks.trimmed undo) t
    × (map figures undone_bank.balances ≡ map (undone t) paid.balances)
create_transfer-reversal_example =
    create_transfer-reversal sca (draws 400) undo paid paid undone_bank 300 undo_posts refl

reversed-no_posting_example : ¬ Posts sca (draws 500) undo_again undone_bank undone_bank bank
reversed-no_posting_example =
    reversed-no_posting sca sca (draws 400) (draws 500) undo undo_again paid paid undone_bank
      undone_bank bank 300 undo_posts refl refl

create_transfer-IsReported_example :
    IsReported payment bank bank bank
      (Transfer.create_transfer sca (draws 300) payment bank bank bank)
create_transfer-IsReported_example =
    create_transfer-IsReported sca (draws 300) payment bank bank bank
