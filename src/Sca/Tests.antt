-- ===== src/Sca/Tests.antt =====
-- A challenge that is issued and entered.
use bantam_bank.Prelude.{◌≤◌, ◌≡◌, ◌↔◌, refl, pos, true, some, ◌∷◌, arith}
use bantam_bank.Prelude.Text.{codes}
use bantam_bank.Prelude.Decimal.{dec}
use bantam_bank.Errors.{ok}
use bantam_bank.Db.{Db}
use bantam_bank.Sca
use bantam_bank.Sca.{Issued}
use bantam_bank.Sca.Approval
use bantam_bank.Sca.Approval.{Order, Accepts, create-Accepts}
use bantam_bank.Sca.Codes.{append-cancel}
use bantam_bank.Ledger.Tests.{sca, alice, bank}

abbrev issued : Issued
issued = record {
  challenge_id = 41;
  expires_at = some 1100;
  required = true;
  demo_code = some (codes "000042");
}

abbrev issued_bank : Db
issued_bank = record bank {
  challenges = Approval.issued_row sca 41 42 800 11 1 2 (pos 25000) ∷ bank.challenges;
}

issues : Sca.create sca 41 42 800 alice 1 2 (pos 25000) bank ≡ ok (issued, issued_bank)
unfolding Sca.create Sca.issue Sca.six_digits dec
issues = refl

abbrev entered : Order
entered = record {
  user = 11;
  source = 1;
  destination = 2;
  amount = pos 25000;
  code = codes "000042";
}

create-Accepts_example :
    Accepts sca 1000 41 entered issued_bank
    ↔ ((entered ≡ record entered { code = Sca.six_digits 42 }) × (1000 ≤ 1100))
unfolding Sca.required
create-Accepts_example =
    create-Accepts sca 41 42 800 1000 alice 1 2 (pos 25000) entered bank issued_bank issued issues
      (omega arith) refl refl
      (append-cancel (codes "k|") (Approval.message 41 entered)
        (Approval.message 41 (record entered { code = Sca.six_digits 42 })))
