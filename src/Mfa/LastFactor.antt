-- ===== src/Mfa/LastFactor.antt =====
-- Removing a factor: an administrator keeps one, and the flag of the user tells whether any is left.
use bantam_bank.Prelude.{
  ◌+◌, ◌≡◌, refl, Bool, true, false, not, ◌&&◌, ◌==◌, any, update, count, All, Option, none, some,
  List, [], ◌∷◌, arith,
}
use bantam_bank.Domain.{Uuid, Time, Role}
use bantam_bank.Errors.{Outcome, ok}
use bantam_bank.Mfa.Store
use bantam_bank.Mfa.Store.{MfaDb, MfaError, PasskeyRow, TotpRow, User, is_passkey_of, is_totp_of}
use bantam_bank.Mfa.Factors
use bantam_bank.Mfa.Factors.{
  has_factor, stays, is_passkey_row, flagged, revoked_passkey, revoked_totp,
}

-- The flag of every row of the user says whether a factor is there.
abbrev pub IsSynced : Uuid → MfaDb → Type 0
IsSynced user db =
    All (λ u. (u.user_id == user) ≡ true → u.mfa_enabled ≡ has_factor user db) db.users

flagged-each :
    (user : Uuid) (flag : Bool) (us : List User)
    → All
        (λ u. (u.user_id == user) ≡ true → u.mfa_enabled ≡ flag)
        (update (λ u. u.user_id == user) (flagged flag) us)
flagged-each user flag [] = tt
flagged-each user flag (u ∷ us) = ((λ same. ground arith), flagged-each user flag us)

passkeys-left :
    (user id : Uuid) (now : Time) (ps : List PasskeyRow)
    → any
        (is_passkey_of user)
        (update (λ p. is_passkey_row id p && (p.user_id == user)) (revoked_passkey now) ps)
      ≡ not (count (stays user (some id)) ps == 0)
passkeys-left user id now [] = refl
passkeys-left user id now (p ∷ ps) = ground (arith, passkeys-left user id now ps)

any-count {ℓ} : {A : Type ℓ} (p : A → Bool) (xs : List A) → any p xs ≡ not (count p xs == 0)
any-count p [] = refl
any-count p (x ∷ xs) = ground (arith, any-count p xs)

count-all {ℓ} : {A : Type ℓ} (p : A → Bool) (xs : List A) → count (λ x. p x && true) xs ≡ count p xs
count-all p [] = refl
count-all p (x ∷ xs) = ground (arith, count-all p xs)

count-none {ℓ} : {A : Type ℓ} (p : A → Bool) (xs : List A) → count (λ x. p x && false) xs ≡ 0
count-none p [] = refl
count-none p (x ∷ xs) = ground (arith, count-none p xs)

-- What `_guard_last_factor` lets through.
guarded :
    (user : Uuid) (role : Role) (removing : Option Uuid) (totp : Bool) (db : MfaDb)
    → Factors.guard_last_factor user role removing totp db ≡ ok tt
    → Store.role_requires_mfa role ≡ true
    → (count (stays user removing) db.passkeys + count (λ t. is_totp_of user t && not totp) db.totps
        == 0)
      ≡ false
unfolding Factors.guard_last_factor
guarded user role removing totp db e required = ground arith

-- Where remove_passkey succeeds, the flag of every row of the user says whether a factor is left,
-- and a user of a role that requires a second factor has one left.
remove_passkey-has_factor :
    (now : Time) (user : Uuid) (role : Role) (id : Uuid) (db db' : MfaDb)
    → Factors.remove_passkey now user role id db ≡ ok db'
    → IsSynced user db' × (Store.role_requires_mfa role ≡ true → has_factor user db' ≡ true)
unfolding Factors.remove_passkey
remove_passkey-has_factor now user role id db db' e =
    let mine = λ (p : PasskeyRow). is_passkey_row id p && (p.user_id == user) in
    let left : MfaDb = record db { passkeys = update mine (revoked_passkey now) db.passkeys } in
    let same : db' ≡ Factors.sync_enabled user left = ground arith in
    let guard : Factors.guard_last_factor user role (some id) false db ≡ ok tt = ground arith in
    rw same (
      flagged-each user (has_factor user left) db.users,
      (λ required. ground (
        arith,
        guarded user role (some id) false db guard required,
        passkeys-left user id now db.passkeys,
        any-count (is_totp_of user) db.totps,
        count-all (is_totp_of user) db.totps,
      )),
    )

-- Where remove_totp succeeds, the flag of every row of the user says whether a factor is left,
-- and a user of a role that requires a second factor has one left.
remove_totp-has_factor :
    (now : Time) (user : Uuid) (role : Role) (db db' : MfaDb)
    → Factors.remove_totp now user role db ≡ ok db'
    → IsSynced user db' × (Store.role_requires_mfa role ≡ true → has_factor user db' ≡ true)
unfolding Factors.remove_totp
remove_totp-has_factor now user role db db' e =
    let left : MfaDb = record db { totps = update (is_totp_of user) (revoked_totp now) db.totps } in
    let same : db' ≡ Factors.sync_enabled user left = ground arith in
    let guard : Factors.guard_last_factor user role none true db ≡ ok tt = ground arith in
    rw same (
      flagged-each user (has_factor user left) db.users,
      (λ required. ground (
        arith,
        guarded user role none true db guard required,
        any-count (is_passkey_of user) db.passkeys,
        count-none (is_totp_of user) db.totps,
      )),
    )

-- The removal of a passkey, by its identifier, or of the authenticator app.
abbrev pub removal : Option Uuid → Time → Uuid → Role → MfaDb → Outcome MfaError MfaDb
removal (some id) now user role db = Factors.remove_passkey now user role id db
removal none now user role db = Factors.remove_totp now user role db

-- Where remove_passkey or remove_totp succeeds, the flag of every row of the user says whether a
-- factor is left, and a user of a role that requires a second factor has one left.
pub removal-has_factor :
    (which : Option Uuid) (now : Time) (user : Uuid) (role : Role) (db db' : MfaDb)
    → removal which now user role db ≡ ok db'
    → IsSynced user db' × (Store.role_requires_mfa role ≡ true → has_factor user db' ≡ true)
removal-has_factor (some id) now user role db db' e =
    remove_passkey-has_factor now user role id db db' e
removal-has_factor none now user role db db' e = remove_totp-has_factor now user role db db' e
