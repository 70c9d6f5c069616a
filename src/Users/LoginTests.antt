-- ===== src/Users/LoginTests.antt =====
-- The administrator logs in, with and without the password.
use bantam_bank.Prelude.{◌&&◌, Bool, true, false, ◌≡◌, refl, [], ◌∷◌}
use bantam_bank.Prelude.Text.{Text, codes, strip, ◌==ₜ◌}
use bantam_bank.Errors.{ok, err}
use bantam_bank.Ledger.Posting
use bantam_bank.Bank.Reply.{http_error}
use bantam_bank.Mfa.Login
use bantam_bank.Mfa.Tests.{mfa, tables, app}
use bantam_bank.Users.PasswordLogin
use bantam_bank.Users.PasswordLogin.{PasswordCheck, LoginDb, LoginReply, LoginAnswer, LoginError}
use bantam_bank.Users.Careful.{IsCareful}
use bantam_bank.Users.Verified.{login-IsCareful}
use bantam_bank.Users.Tests.{python, http, stamp, start}

abbrev passwords : PasswordCheck
passwords = record {
  checkpw = λ hash password. (hash ==ₜ codes "hash") && (password ==ₜ codes "Correct-horse-42");
  dummy_hash = codes "dummy";
}

-- The tables of the second factors, with an authenticator app of the administrator's.
abbrev doors : LoginDb
doors = record {
  tables = start;
  factors = record tables { totps = record app { user_id = 20 } ∷ [] };
}

abbrev attempt : Text → LoginReply
attempt password =
    PasswordLogin.login python passwords mfa 900000000 (ok tt) http (codes " root@bantam.test")
      password 5 (codes "ch") (stamp 70) doors

login-IsCareful_example :
    IsCareful passwords mfa
      (ok tt)
      (codes "root@bantam.test")
      (codes "Correct-horse-42")
      (stamp 70)
      doors
      (attempt (codes "Correct-horse-42"))
unfolding strip
login-IsCareful_example =
    login-IsCareful python passwords mfa 900000000 (ok tt) http (codes " root@bantam.test")
      (codes "Correct-horse-42") 5 (codes "ch") (stamp 70) doors

abbrev asks_factor : LoginReply → Bool
asks_factor (ok (LoginAnswer.next_step step), after) = true
asks_factor _ = false

right_password : asks_factor (attempt (codes "Correct-horse-42")) ≡ true
unfolding PasswordLogin.login strip Login.begin_login Posting.insert_audit
right_password = refl

wrong_password :
    (attempt (codes "guess")).0 ≡ err (LoginError.raised (http_error "INVALID_CREDENTIALS" 401))
unfolding PasswordLogin.login strip Posting.insert_audit
wrong_password = refl
