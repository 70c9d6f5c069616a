-- ===== src/Proxy/Tests.antt =====
-- Addresses as numbers; those below 10 are proxies.
use bantam_bank.Prelude.{ℕ, ◌≡◌, refl, Option, none, some, [], ◌∷◌, ◌++◌, ltb, arith}
use bantam_bank.Prelude.Text.{Text}
use bantam_bank.Proxy
use bantam_bank.Proxy.Spoofing.{forwarded_ip-append}

abbrev first_code : Text → Option ℕ
first_code [] = none
first_code (c ∷ text) = some c

-- The client 99 forges the hop 50 in front of its own.
forwarded_ip-append_example :
    Proxy.forwarded_ip first_code (λ a. ltb a 10) 3 (((50 ∷ []) ∷ []) ++ ((99 ∷ []) ∷ []))
    ≡ Proxy.forwarded_ip first_code (λ a. ltb a 10) 3 ((99 ∷ []) ∷ [])
forwarded_ip-append_example =
    forwarded_ip-append (λ a. ltb a 10) first_code 3 99 ((50 ∷ []) ∷ []) ((99 ∷ []) ∷ []) (50 ∷ [])
      [] refl refl (omega arith) refl
