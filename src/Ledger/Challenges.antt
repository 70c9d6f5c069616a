-- ===== src/Ledger/Challenges.antt =====
-- A posted transfer and the challenge that it names.
use bantam_bank.Prelude.{
  ◌≤◌, ◌≡◌, ◌≢◌, ◌∙◌, ap, sym, ℤ, ◌==◌, ==ℤ_iff, Bool, true, false, ◌&&◌, find?, update, All,
  find?-passes, ==_iff, none, some, List, [], ◌∷◌, arith, Option-cases, inl, inr,
}
use bantam_bank.Prelude.Text.{Text, ==ₜ_iff}
use bantam_bank.Domain.{Uuid, Time, TransferCommand}
use bantam_bank.Errors.{ok}
use bantam_bank.Db.{Db, Account, Challenge, ChallengeStatus}
use bantam_bank.Sca
use bantam_bank.Sca.{ScaService}
use bantam_bank.Ledger.Checks
use bantam_bank.Ledger.Checks.{Draws, Normalised}
use bantam_bank.Ledger.Transfer
use bantam_bank.Ledger.Executed.{execute-Executed, Executed-written}
use bantam_bank.Ledger.Authorisation.{normalise-roles}
use bantam_bank.Ledger.Outcomes.{Posts}

abbrev pub has_id : Uuid → Challenge → Bool
has_id id ch = ch.challenge_id == id

-- The stored challenge fits the command: it is open at the time of the check, names the user, the
-- accounts and the amount, and holds the code's hash.
pub record Binds (sca : ScaService) (now : Time) (c : TransferCommand) (ch : Challenge)
    : Type 0 where
  pub open_now : ch.status ≡ ChallengeStatus.pending
  pub unexpired : now ≤ ch.expires_at
  pub user : ch.user_id ≡ c.actor.user_id
  pub source : ch.source_account_id ≡ c.source_account_id
  pub destination : ch.destination_account_id ≡ c.destination_account_id
  pub amount : ch.amount_minor ≡ c.amount_minor
  pub code :
      ch.code_hash
      ≡ Sca.hash sca ch.challenge_id c.actor.user_id c.source_account_id c.destination_account_id
          c.amount_minor c.sca_code

-- No row of the challenge is open.
abbrev pub IsSpent : Uuid → Db → Type 0
IsSpent id db = All (λ ch. has_id id ch ≡ true → ch.status ≢ ChallengeStatus.pending) db.challenges

consumed-IsSpent :
    (id : Uuid) (now : Time) (chs : List Challenge)
    → All
        (λ ch. has_id id ch ≡ true → ch.status ≢ ChallengeStatus.pending)
        (update (λ ch. has_id id ch && Sca.is_pending ch.status) (Sca.consume now) chs)
consumed-IsSpent id now [] = tt
consumed-IsSpent id now (ch ∷ chs) = ((λ same is_open. ground arith), consumed-IsSpent id now chs)

-- The tests of a challenge that `consume_challenge` let through.
consume_challenge-Binds :
    (sca : ScaService) (now : Time) (c : TransferCommand) (id : Uuid) (ch : Challenge) (db db' : Db)
    → find? (has_id id) db.challenges ≡ some ch
    → Sca.consume_challenge sca now c.actor.user_id c.source_account_id c.destination_account_id
        c.amount_minor
        (some id)
        c.sca_code
        db
      ≡ ok db'
    → Binds sca now c ch
      × (db'.challenges
          ≡ update (λ ch. has_id id ch && Sca.is_pending ch.status) (Sca.consume now) db.challenges)
unfolding Sca.consume_challenge Sca.is_usable
consume_challenge-Binds sca now c id ch db db' found e =
    let is : ch.challenge_id ≡ id =
      (==_iff ch.challenge_id id).0 (find?-passes (has_id id) db.challenges ch found) in
    let expected =
      Sca.hash sca id c.actor.user_id c.source_account_id c.destination_account_id c.amount_minor
        c.sca_code in
    ground (arith, ==ₜ_iff expected ch.code_hash, ==ℤ_iff ch.amount_minor c.amount_minor)

consume_challenge-missing :
    (sca : ScaService) (now : Time) (c : TransferCommand) (id : Uuid) (db db' : Db)
    → find? (has_id id) db.challenges ≡ none
    → Sca.consume_challenge sca now c.actor.user_id c.source_account_id c.destination_account_id
        c.amount_minor
        (some id)
        c.sca_code
        db
      ≢ ok db'
unfolding Sca.consume_challenge
consume_challenge-missing sca now c id db db' missing = ground arith

consume_challenge-unnamed :
    (sca : ScaService) (now : Time) (u s t : Uuid) (x : ℤ) (code : Text) (db db' : Db)
    → Sca.consume_challenge sca now u s t x none code db ≢ ok db'
unfolding Sca.consume_challenge
consume_challenge-unnamed sca now u s t x code db db' = ground arith

-- `authorise_customer` of a customer, where a challenge is required.
authorise-Binds :
    (sca : ScaService) (now : Time) (c : TransferCommand) (s : Account) (db db' : Db)
    → c.operator_override ≡ false
    → Sca.required sca c.amount_minor ≡ true
    → Transfer.authorise_customer sca now c s db ≡ ok db'
    → (id : Uuid) × (ch : Challenge) × (c.sca_challenge_id ≡ some id)
      × (find? (has_id id) db.challenges ≡ some ch)
      × Binds sca now c ch
      × (db'.challenges
          ≡ update (λ ch. has_id id ch && Sca.is_pending ch.status) (Sca.consume now) db.challenges)
unfolding Transfer.authorise_customer Checks.authorise Sca.validate_and_consume
authorise-Binds sca now c s db db' own needed e = elim (Option-cases c.sca_challenge_id) [
  | inl unnamed ↦ absurd (
      ground (
        arith,
        consume_challenge-unnamed sca now c.actor.user_id c.source_account_id
            c.destination_account_id c.amount_minor c.sca_code db db',
      ))
  | inr (id, named) ↦ elim (Option-cases (find? (has_id id) db.challenges)) [
    | inl missing ↦ absurd (ground (arith, consume_challenge-missing sca now c id db db' missing))
    | inr (ch, found) ↦
        let run = consume_challenge-Binds sca now c id ch db db' found (ground arith) in
        (id, ch, named, found, run.0, run.1)
  ]
]

-- Whether a row is spent does not change by consuming another.
pub update-IsSpent :
    (id other : Uuid) (now : Time) (chs : List Challenge)
    → All (λ ch. has_id id ch ≡ true → ch.status ≢ ChallengeStatus.pending) chs
    → All
        (λ ch. has_id id ch ≡ true → ch.status ≢ ChallengeStatus.pending)
        (update (λ ch. has_id other ch && Sca.is_pending ch.status) (Sca.consume now) chs)
update-IsSpent id other now [] h = tt
update-IsSpent id other now (ch ∷ chs) h =
    ((λ same is_open. ground (arith, h.0)), update-IsSpent id other now chs h.1)

-- A posted transfer without operator override whose amount requires a challenge names a stored
-- challenge that was pending, unexpired and bound to the user, the accounts, the amount and the
-- hash of the code, and no pending row of that challenge is left.
pub create_transfer-consumes :
    (sca : ScaService) (d : Draws) (c : TransferCommand) (before db db' : Db)
    → Posts sca d c before db db'
    → c.operator_override ≡ false
    → Sca.required sca c.amount_minor ≡ true
    → (id : Uuid) × (ch : Challenge) × (c.sca_challenge_id ≡ some id)
      × (find? (has_id id) db.challenges ≡ some ch)
      × Binds sca d.checked_at (Checks.trimmed c) ch
      × IsSpent id db'
create_transfer-consumes sca d c before db db' p own needed =
    let n = p.normalised in
    let x = execute-Executed sca d n db db' p.executes in
    let command : n.command ≡ Checks.trimmed c = (normalise-roles c n p.normalises).0 in
    let s : Account = x.source.account in
    let run : Transfer.authorise_customer sca d.checked_at (Checks.trimmed c) s db ≡ ok x.consumed =
      ap (λ k. Transfer.authorise_customer sca d.checked_at k s db) (sym command) ∙ x.authorised in
    let (id, ch, named, found, binds, written_challenges) =
      authorise-Binds sca d.checked_at (Checks.trimmed c) s db x.consumed own needed run in
    (
      id,
      ch,
      named,
      found,
      binds,
      rw (Executed-written x, written_challenges) (consumed-IsSpent id d.checked_at db.challenges),
    )
