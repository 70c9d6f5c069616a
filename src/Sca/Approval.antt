-- ===== src/Sca/Approval.antt =====
-- bantam/sca.py: a challenge from its creation to its use.
use bantam_bank.Prelude.{
  ℕ, ◌+◌, ◌≤◌, ◌<◌, ℤ, ◌≡◌, ◌↔◌, refl, ap, sym, ◌∙◌, any, find?, update, ◌==◌, ==ℤ_iff, ==_iff,
  true, ◌&&◌, none, some, List, ◌∷◌, arith,
}
use bantam_bank.Prelude.Text.{Text, ◌==ₜ◌, ==ₜ_iff}
use bantam_bank.Domain.{Uuid, Time, Principal}
use bantam_bank.Errors.{ok}
use bantam_bank.Db.{Db, Challenge, ChallengeStatus}
use bantam_bank.Sca
use bantam_bank.Sca.{ScaService, Issued}
use bantam_bank.Sca.Codes.{six_digits-code, bound_value-code}

-- The row that `create` stores.
abbrev pub issued_row :
    ScaService → (id draw : ℕ) → Time → (user source destination : Uuid) → ℤ → Challenge
issued_row sca id draw now user source destination amount = record {
  challenge_id = id;
  user_id = user;
  source_account_id = source;
  destination_account_id = destination;
  amount_minor = amount;
  code_hash = Sca.hash sca id user source destination amount (Sca.six_digits draw);
  status = ChallengeStatus.pending;
  expires_at = now + sca.ttl;
  consumed_at = none;
}

create-row :
    (sca : ScaService) (id draw : ℕ) (now : Time) (p : Principal) (source destination : Uuid)
    (amount : ℤ) (db db' : Db) (issued : Issued)
    → Sca.required sca amount ≡ true
    → Sca.create sca id draw now p source destination amount db ≡ ok (issued, db')
    → db'.challenges
      ≡ issued_row sca id draw now p.user_id source destination amount ∷ db.challenges
unfolding Sca.create Sca.issue
create-row sca id draw now p source destination amount db db' issued needed e =
    ground (arith, needed, e)

-- What a transfer asks for, and the code that is entered for it.
pub record Order : Type 0 where
  pub user : Uuid
  pub source : Uuid
  pub destination : Uuid
  pub amount : ℤ
  pub code : Text

abbrev pub message : Uuid → Order → Text
message id o = Sca.bound_value id o.user o.source o.destination o.amount o.code

-- The challenge lets the order through at the time.
abbrev pub Accepts : ScaService → Time → (id : Uuid) → Order → Db → Type 0
Accepts sca now id o db =
    (db' : Db) × (Sca.validate_and_consume sca now o.user o.source o.destination o.amount (some id)
        o.code db
      ≡ ok db')

orders_equal :
    (a b : Order)
    → a.user ≡ b.user
    → a.source ≡ b.source
    → a.destination ≡ b.destination
    → a.amount ≡ b.amount
    → a.code ≡ b.code
    → a ≡ b
orders_equal a b u so de am co = ground (arith, u, so, de, am, co)

module _ (sca : ScaService) (id draw : ℕ) (now now' : Time)
    (user source destination user' source' destination' : Uuid) (amount amount' : ℤ) (code : Text)
    (db : Db) (rows : List Challenge)
    (stored : db.challenges ≡ issued_row sca id draw now user source destination amount ∷ rows)
    (needed : Sca.required sca amount' ≡ true) where
  own : (id == id) ≡ true
  own = (==_iff id id).1 refl

  found_row :
      find? (λ (c : Challenge). c.challenge_id == id) db.challenges
      ≡ some (issued_row sca id draw now user source destination amount)
  found_row = rw stored (rw own refl)

  usable_again :
      user' ≡ user
      → source' ≡ source
      → destination' ≡ destination
      → amount' ≡ amount
      → now' ≤ now + sca.ttl
      → Sca.is_usable now' user' source' destination' amount'
          (issued_row sca id draw now user source destination amount)
        ≡ true
  unfolding Sca.is_usable
  usable_again u so de am early = ground (arith, u, so, de, ==ℤ_iff amount amount', am, early)

  accepts_back :
      draw < 1000000
      → user' ≡ user
      → source' ≡ source
      → destination' ≡ destination
      → amount' ≡ amount
      → code ≡ Sca.six_digits draw
      → now' ≤ now + sca.ttl
      → (db' : Db) × (Sca.validate_and_consume sca now' user' source' destination' amount'
            (some id)
            code
            db
          ≡ ok db')
  unfolding Sca.validate_and_consume Sca.consume_challenge
  accepts_back below u so de am co early =
      let row = issued_row sca id draw now user source destination amount in
      let formed : Sca.is_code code ≡ true = rw co (six_digits-code draw below) in
      let same : (Sca.hash sca id user' source' destination' amount' code ==ₜ row.code_hash)
          ≡ true =
        (==ₜ_iff (Sca.hash sca id user' source' destination' amount' code) row.code_hash).1
          (rw (u, so, de, am, co) refl) in
      let usable = usable_again u so de am early in
      let open_there : any (λ c. (c.challenge_id == id) && Sca.is_pending c.status) db.challenges
          ≡ true =
        rw stored (rw own refl) in
      let open_row = λ (c : Challenge). (c.challenge_id == id) && Sca.is_pending c.status in
      (
        record db { challenges = update open_row (Sca.consume now') db.challenges },
        rw (needed, formed, found_row, usable, same, open_there) refl,
      )

  accepts_there :
      (db' : Db)
      → Sca.validate_and_consume sca now' user' source' destination' amount' (some id) code db
        ≡ ok db'
      → (user' ≡ user)
        × (source' ≡ source)
        × (destination' ≡ destination)
        × (amount' ≡ amount)
        × (now' ≤ now + sca.ttl)
        × (Sca.hash sca id user' source' destination' amount' code
            ≡ Sca.hash sca id user source destination amount (Sca.six_digits draw))
  unfolding Sca.validate_and_consume Sca.consume_challenge Sca.is_usable
  accepts_there db' e =
      let row = issued_row sca id draw now user source destination amount in
      let found = found_row in
      let expected = Sca.hash sca id user' source' destination' amount' code in
      ground (arith, found, needed, e, ==ₜ_iff expected row.code_hash, ==ℤ_iff amount amount')

-- Where create issues a challenge for an amount that needs one, with a code below 1000000, and the
-- HMAC tells its message from that of the order that is entered, then validate_and_consume, for an
-- amount that needs a challenge, accepts on the resulting tables exactly the order of the same user,
-- accounts and amount with the code of create, no later than the expiry.
pub create-Accepts :
    (sca : ScaService) (id draw : ℕ) (now now' : Time) (p : Principal) (source destination : Uuid)
    (amount : ℤ) (entered : Order) (db db' : Db) (issued : Issued)
    → let bound : Order = record {
      user = p.user_id;
      source = source;
      destination = destination;
      amount = amount;
      code = Sca.six_digits draw;
    } in
      Sca.create sca id draw now p source destination amount db ≡ ok (issued, db')
      → draw < 1000000
      → Sca.required sca amount ≡ true
      → Sca.required sca entered.amount ≡ true
      → (sca.hmac_hex sca.secret (message id entered) ≡ sca.hmac_hex sca.secret (message id bound)
          → message id entered ≡ message id bound)
      → Accepts sca now' id entered db' ↔ ((entered ≡ bound) × (now' ≤ now + sca.ttl))
unfolding Sca.hash
create-Accepts sca id draw now now' p source destination amount o db db' issued e below needed
      needed' tells =
    let stored = create-row sca id draw now p source destination amount db db' issued needed e in
    let code = Sca.six_digits draw in
    let bound : Order = record {
      user = p.user_id;
      source = source;
      destination = destination;
      amount = amount;
      code = code;
    } in
    (
      (λ (db'', accepted).
          let (u, so, de, am, early, same) =
            accepts_there sca id draw now now' p.user_id source destination o.user o.source
              o.destination amount o.amount o.code db' db.challenges stored needed' db'' accepted in
          let moved : message id o ≡ Sca.bound_value id p.user_id source destination amount o.code =
            rw (u, so, de, am) refl in
          let co =
            bound_value-code id p.user_id source destination amount o.code code
              (sym moved ∙ tells same) in
          (orders_equal o bound u so de am co, early)),
      (λ (same, early).
          accepts_back sca id draw now now' p.user_id source destination o.user o.source
            o.destination amount o.amount o.code db' db.challenges stored needed' below
            (ap (λ (a : Order). a.user) same) (ap (λ (a : Order). a.source) same)
            (ap (λ (a : Order). a.destination) same) (ap (λ (a : Order). a.amount) same)
            (ap (λ (a : Order). a.code) same) early),
    )
