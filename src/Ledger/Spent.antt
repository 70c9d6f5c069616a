-- ===== src/Ledger/Spent.antt =====
-- bantam/service.py and bantam/sca.py: a challenge that is spent stays so, over any calls.
use bantam_bank.Prelude.{
  ◌≡◌, ◌≢◌, ◌⊎◌, true, false, ◌&&◌, find?, update, All-find?, find?-passes, some, List, [], ◌∷◌,
  arith, Bool-cases, Option-cases, inl, inr,
}
use bantam_bank.Domain.{Uuid, Time, TransferCommand}
use bantam_bank.Errors.{ok}
use bantam_bank.Db.{Db, Account, ChallengeStatus}
use bantam_bank.Sca
use bantam_bank.Sca.{ScaService}
use bantam_bank.Ledger.Checks
use bantam_bank.Ledger.Checks.{Draws, Normalised}
use bantam_bank.Ledger.Transfer
use bantam_bank.Ledger.Executed.{execute-Executed, Executed-written}
use bantam_bank.Ledger.Outcomes.{Posts, create_transfer_ind}
use bantam_bank.Ledger.Challenges.{has_id, IsSpent, update-IsSpent, create_transfer-consumes}

-- A spent challenge lets no transfer through that needs one.
spent-no_posting :
    (sca : ScaService) (d : Draws) (c : TransferCommand) (before db db' : Db) (id : Uuid)
    → IsSpent id db
    → c.operator_override ≡ false
    → Sca.required sca c.amount_minor ≡ true
    → c.sca_challenge_id ≡ some id
    → ¬ Posts sca d c before db db'
spent-no_posting sca d c before db db' id spent own needed named p =
    let (id', ch, named', found, binds, _) =
      create_transfer-consumes sca d c before db db' p own needed in
    let same : id' ≡ id = ground arith in
    let row : find? (has_id id) db.challenges ≡ some ch = rw same at found in
    All-find? (λ ch. has_id id ch ≡ true → ch.status ≢ ChallengeStatus.pending) (has_id id)
      db.challenges ch spent row (find?-passes (has_id id) db.challenges ch row) binds.open_now

-- Authorising consumes at most the rows of the challenge that the command names.
authorise_customer-challenges :
    (sca : ScaService) (now : Time) (c : TransferCommand) (s : Account) (db db' : Db)
    → Transfer.authorise_customer sca now c s db ≡ ok db'
    → (db'.challenges ≡ db.challenges)
      ⊎ ((id : Uuid) × (db'.challenges
            ≡ update
                (λ ch. has_id id ch && Sca.is_pending ch.status)
                (Sca.consume now)
                db.challenges))
unfolding Transfer.authorise_customer Checks.authorise Sca.validate_and_consume
    Sca.consume_challenge
authorise_customer-challenges sca now c s db db' e =
    elim (Bool-cases (Sca.required sca c.amount_minor)) [
      | inr small ↦ inl (ground arith)
      | inl needed ↦ elim (Bool-cases c.operator_override) [
        | inl override ↦ inl (ground arith)
        | inr own ↦ elim (Option-cases c.sca_challenge_id) [
          | inl unnamed ↦ absurd (ground arith)
          | inr (id, named) ↦ inr (id, ground arith)
        ]
      ]
    ]

authorise_customer-IsSpent :
    (sca : ScaService) (now : Time) (c : TransferCommand) (s : Account) (db db' : Db) (id : Uuid)
    → Transfer.authorise_customer sca now c s db ≡ ok db'
    → IsSpent id db
    → IsSpent id db'
authorise_customer-IsSpent sca now c s db db' id e spent =
    elim (authorise_customer-challenges sca now c s db db' e) [
      | inl same ↦ rw same spent
      | inr (other, changed) ↦ rw changed (update-IsSpent id other now db.challenges spent)
    ]

-- It stays spent.
create_transfer-IsSpent :
    (sca : ScaService) (d : Draws) (c : TransferCommand) (before db after : Db) (id : Uuid)
    → IsSpent id db
    → IsSpent id (Transfer.create_transfer sca d c before db after).1
create_transfer-IsSpent sca d c before db after id spent =
    create_transfer_ind sca d c before db after (IsSpent id) spent (λ db' p.
      let x = execute-Executed sca d p.normalised db db' p.executes in
      rw (Executed-written x) (
        authorise_customer-IsSpent sca d.checked_at p.normalised.command x.source.account db
          x.consumed id x.authorised spent))

-- A call of create_transfer, with what it draws and the snapshots that it compares with.
pub record Call : Type 0 where
  pub draws : Draws
  pub command : TransferCommand
  pub before : Db
  pub after : Db

-- Calls, one after the other.
abbrev pub calls : ScaService → List Call → Db → Db
calls sca [] db = db
calls sca (k ∷ ks) db =
    calls sca ks (Transfer.create_transfer sca k.draws k.command k.before db k.after).1

calls-IsSpent :
    (sca : ScaService) (ks : List Call) (db : Db) (id : Uuid)
    → IsSpent id db
    → IsSpent id (calls sca ks db)
calls-IsSpent sca [] db id spent = spent
calls-IsSpent sca (k ∷ ks) db id spent =
    calls-IsSpent sca ks (Transfer.create_transfer sca k.draws k.command k.before db k.after).1 id
      (create_transfer-IsSpent sca k.draws k.command k.before db k.after id spent)

-- Once no row of a challenge is pending, then after any number of further calls of create_transfer,
-- of which some may fail, no transfer without operator override whose amount requires a challenge
-- posts with it.
pub spent_calls-no_posting :
    (sca : ScaService) (ks : List Call) (d : Draws) (c : TransferCommand) (before db db' : Db)
    (id : Uuid)
    → IsSpent id db
    → c.operator_override ≡ false
    → Sca.required sca c.amount_minor ≡ true
    → c.sca_challenge_id ≡ some id
    → ¬ Posts sca d c before (calls sca ks db) db'
spent_calls-no_posting sca ks d c before db db' id spent =
    spent-no_posting sca d c before (calls sca ks db) db' id (calls-IsSpent sca ks db id spent)
