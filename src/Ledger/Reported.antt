-- ===== src/Ledger/Reported.antt =====
-- bantam/ledger.py: what the answer of `create_transfer` says of the database.
use bantam_bank.Prelude.{
  ◌≡◌, refl, ap, subst, -ℤ◌, Bool-cases, Option-cases, inl, inr, false, any, Option, none, some,
  List, ◌∷◌, arith,
}
use bantam_bank.Prelude.Members.{In}
use bantam_bank.Domain.{Uuid, TransferCommand}
use bantam_bank.Errors.{ok}
use bantam_bank.Db.{Db, Transaction, TransactionStatus}
use bantam_bank.Sca.{ScaService}
use bantam_bank.Ledger.Checks
use bantam_bank.Ledger.Checks.{Draws, Normalised, is_transaction, has_key}
use bantam_bank.Ledger.Posting
use bantam_bank.Ledger.Transfer
use bantam_bank.Ledger.Transfer.{TransactionPayload}
use bantam_bank.Ledger.Executed.{execute-Executed, Executed-written, authorise_customer-frame}
use bantam_bank.Ledger.Written.{written}
use bantam_bank.Ledger.Rules.{any-clashes}
use bantam_bank.Ledger.Outcomes.{Result-cases, known}
use bantam_bank.Ledger.Answers.{
  IsNew, IsReported, normalise-error, normalise-trimmed, own_user, own_key, found-IsOf, unknown,
  repeated, failed-IsReported,
}

post-fresh :
    (d : Draws) (n : Normalised) (db db' : Db)
    → Posting.post d n db ≡ ok db'
    → any (is_transaction d.transaction_id) db.transactions ≡ false
unfolding Posting.post
post-fresh d n db db' e =
    elim (Bool-cases (any (Posting.clashes (Posting.transaction_row d n)) db.transactions)) [
      | inl taken ↦ absurd (ground (arith, taken, e))
      | inr new ↦ any-clashes (Posting.transaction_row d n) db.transactions new
    ]

-- The new row, which an UPDATE of the status may have touched.
abbrev IsKept : Transaction → List Transaction → Type 0
IsKept t ts = (s : TransactionStatus) × In (record t { status = s }) ts

mark_reversed-IsKept :
    (r : Option Uuid) (t : Transaction) (ts : List Transaction)
    → IsKept t (Posting.mark_reversed r (t ∷ ts))
mark_reversed-IsKept none t ts = (t.status, inl refl)
mark_reversed-IsKept (some id) t ts = elim (Bool-cases (is_transaction id t)) [
  | inl hit ↦ rw hit (TransactionStatus.reversed, inl refl)
  | inr other ↦ rw other (t.status, inl refl)
]

module _ (sca : ScaService) (d : Draws) (c : TransferCommand) (n : Normalised)
    (same : n.command ≡ Checks.trimmed c) where
  written-IsNew :
      (db db0 : Db)
      → any (is_transaction d.transaction_id) db.transactions ≡ false
      → IsNew c (Transfer.new_payload d n) db (written d n db0)
  written-IsNew db db0 fresh =
      let row = Posting.transaction_row d n in
      let (s, kept) = mark_reversed-IsKept n.command.reverses_transaction_id row db0.transactions in
      let from = ap (λ (x : TransferCommand). x.source_account_id) same in
      let to = ap (λ (x : TransferCommand). x.destination_account_id) same in
      let sum = ap (λ (x : TransferCommand). x.amount_minor) same in
      record {
        row = record row { status = s };
        stored = kept;
        own = (own_user c n same, own_key c n same);
        shown = record {
          transaction_id = refl;
          idempotency_key = refl;
          source = refl;
          destination = refl;
          amount = refl;
          currency = refl;
          kind = refl;
          posted = refl;
        };
        source = from;
        destination = to;
        amount = sum;
        fresh = fresh;
        debit = (Posting.debit_row d n, inl refl, refl, from, ap (λ x. -ℤ x) sum);
        credit = (Posting.credit_row d n, inr (inl refl), refl, to, sum);
      }

  executed-IsNew :
      (db db' : Db)
      → Transfer.execute sca d n db ≡ ok db'
      → IsNew c (Transfer.new_payload d n) db db'
  executed-IsNew db db' ran =
      let x = execute-Executed sca d n db db' ran in
      let frame =
        authorise_customer-frame sca d.checked_at n.command x.source.account db x.consumed
          x.authorised in
      let fresh = post-fresh d n x.consumed db' x.posted in
      let fresh' : any (is_transaction d.transaction_id) db.transactions ≡ false =
        subst (λ (m : Db). any (is_transaction d.transaction_id) m.transactions ≡ false) frame
          fresh in
      rw (Executed-written x)
        (written-IsNew db (record db { challenges = x.consumed.challenges }) fresh')

-- What create_transfer answers is what the database holds. A new transaction was not stored
-- before; afterwards it is, under the command's user and trimmed key, with the identifier,
-- accounts and amount of the answer and the command, and with an entry of minus the amount on the
-- source and one of the amount on the destination. A repetition leaves the database as it was, and
-- shows a transaction of that user and key from one of the three states that the call reads. An
-- error leaves the database as it was, is never the bare unique violation, and is raised only
-- where normalising refuses the command with it, or the key is unknown in the first two of those
-- states.
pub create_transfer-IsReported :
    (sca : ScaService) (d : Draws) (c : TransferCommand) (before db after : Db)
    → IsReported c before db after (Transfer.create_transfer sca d c before db after)
unfolding Transfer.create_transfer
create_transfer-IsReported sca d c before db after = elim (Result-cases (Checks.normalise c)) [
  | inr (e, refused) ↦
      rw (refused, Transfer.create_transfer) (refl, normalise-error c e refused, inl refused)
  | inl (n, ok_n) ↦
      let same = normalise-trimmed c n ok_n in
      elim (Option-cases (known n before)) [
        | inr (t, seen) ↦
            let (i, own) = found-IsOf c n same before t seen in
            rw (ok_n, Transfer.create_transfer, seen, Transfer.create_normalised)
              (refl, repeated c n same before db after t own (inl i))
        | inl unseen ↦ elim (Option-cases (known n db)) [
          | inr (t, seen) ↦
              let (i, own) = found-IsOf c n same db t seen in
              rw
                (
                  ok_n, Transfer.create_transfer, unseen, Transfer.create_normalised, seen,
                  Transfer.in_transaction,
                )
                (refl, repeated c n same before db after t own (inr (inl i)))
          | inl new ↦ elim (Result-cases (Transfer.execute sca d n db)) [
            | inr (e, failed) ↦
                rw
                  (
                    ok_n, Transfer.create_transfer, unseen, Transfer.create_normalised, new,
                    Transfer.in_transaction, failed,
                  )
                  (failed-IsReported c n same before db after e (unknown c n same before unseen)
                    (unknown c n same db new))
            | inl (db', ran) ↦
                rw
                  (
                    ok_n, Transfer.create_transfer, unseen, Transfer.create_normalised, new,
                    Transfer.in_transaction, ran,
                  )
                  (executed-IsNew sca d c n same db db' ran)
          ]
        ]
      ]
]
