-- ===== src/Ledger/Outcomes.antt =====
-- The ways in which a call of `create_transfer` ends.
use bantam_bank.Prelude.{◌≡◌, ◌⊎◌, inl, inr, refl, false, Option, none, Option-cases}
use bantam_bank.Domain.{TransferCommand}
use bantam_bank.Errors.{Error, Result, ok, err}
use bantam_bank.Db.{Db, Transaction}
use bantam_bank.Sca.{ScaService}
use bantam_bank.Ledger.Checks
use bantam_bank.Ledger.Checks.{Draws, Normalised}
use bantam_bank.Ledger.Transfer
use bantam_bank.Ledger.Transfer.{TransactionPayload, new_payload, transaction_payload}

pub Result-cases {ℓ} :
    {A : Type ℓ} (r : Result A) → ((a : A) × (r ≡ ok a)) ⊎ ((e : Error) × (r ≡ err e))
Result-cases (ok a) = inl (a, refl)
Result-cases (err e) = inr (e, refl)

-- The row that a normalised command's key finds.
abbrev pub known : Normalised → Db → Option Transaction
known n db = Checks.find_by_idempotency n.command.actor.user_id n.command.idempotency_key db

-- The call has posted: nobody had used the key, and the transaction went through.
pub record Posts (sca : ScaService) (d : Draws) (c : TransferCommand) (before db db' : Db)
    : Type 0 where
  pub normalised : Normalised
  pub normalises : Checks.normalise c ≡ ok normalised
  pub new_before : known normalised before ≡ none
  pub new_now : known normalised db ≡ none
  pub executes : Transfer.execute sca d normalised db ≡ ok db'

module _ (sca : ScaService) (d : Draws) (c : TransferCommand) (before db after : Db) where
  -- The call has posted, or has left the database as it was.
  create_transfer-outcome :
      let (result, db') = Transfer.create_transfer sca d c before db after in
      ((p : Posts sca d c before db db') × (result ≡ ok (new_payload d p.normalised, false)))
      ⊎ (db' ≡ db)
  unfolding Transfer.create_transfer
  create_transfer-outcome = elim (Result-cases (Checks.normalise c)) [
    | inr (e, refused) ↦ rw (refused, Transfer.create_transfer) (inr refl)
    | inl (n, ok_n) ↦ elim (Option-cases (known n before)) [
      | inr (t, seen) ↦
          rw (ok_n, Transfer.create_transfer, seen, Transfer.create_normalised) (inr refl)
      | inl unseen ↦ elim (Option-cases (known n db)) [
        | inr (t, seen) ↦
            rw
              (
                ok_n, Transfer.create_transfer, unseen, Transfer.create_normalised, seen,
                Transfer.in_transaction,
              )
              (inr refl)
        | inl new ↦ elim (Result-cases (Transfer.execute sca d n db)) [
          | inr (e, failed) ↦
              rw
                (
                  ok_n, Transfer.create_transfer, unseen, Transfer.create_normalised, new,
                  Transfer.in_transaction, failed,
                )
                (inr refl)
          | inl (db', ran) ↦
              rw
                (
                  ok_n, Transfer.create_transfer, unseen, Transfer.create_normalised, new,
                  Transfer.in_transaction, ran,
                )
                (inl (
                  record {
                    normalised = n;
                    normalises = ok_n;
                    new_before = unseen;
                    new_now = new;
                    executes = ran;
                  },
                  refl,
                ))
        ]
      ]
    ]
  ]

  -- To keep a property of the database it is enough to keep it where the call posts.
  pub create_transfer_ind :
      (P : Db → Type 0)
      → P db
      → ((db' : Db) → Posts sca d c before db db' → P db')
      → P (Transfer.create_transfer sca d c before db after).1
  create_transfer_ind P here posts = elim create_transfer-outcome [
    | inl (p, _) ↦ posts _ p
    | inr same ↦ rw same here
  ]
