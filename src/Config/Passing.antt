-- ===== src/Config/Passing.antt =====
-- bantam/config.py: `Settings.validate` and `uvicorn_address`, when they return.
use bantam_bank.Prelude.{
  ℕ, ◌≤◌, ℤ, pos, negsuc, ◌≤ℤ◌, ◌≡◌, inl, inr, refl, Option-cases, arith, subst,
}
use bantam_bank.Prelude.Text.{Text}
use bantam_bank.Errors.{ok, err, ◌>>=◌, ◌>>◌}
use bantam_bank.Ledger.Written.{then_pass}
use bantam_bank.Config.{Config, Platform, Settings}
use bantam_bank.Config.Secrets
use bantam_bank.Config.Secrets.{is_known}
use bantam_bank.Config.Hosts
use bantam_bank.Config.Hosts.{is_host, is_host_name, is_loopback, only_is}
use bantam_bank.Config.Validation
use bantam_bank.Config.Validation.{minutes}

-- Each part of `validate` has passed.
pub record Passes {N : Type 0} (platform : Platform N) (s : Settings N) : Type 0 where
  pub services : Validation.check_services s ≡ ok tt
  pub secrets : Secrets.check_secrets platform s ≡ ok tt
  pub key : Secrets.check_key platform s s.mfa_encryption_key ≡ ok tt
  pub webauthn : Hosts.check_webauthn platform s ≡ ok tt
  pub demo : Validation.check_demo s ≡ ok tt
  pub deployment : Validation.check_deployment platform s ≡ ok tt
  pub limits : Validation.check_limits s ≡ ok tt
  pub address : (a : Text × ℤ) × (Hosts.uvicorn_address platform s.http_addr ≡ ok a)

-- Tests, one after the other, that all pass.
pub passes_4 :
    (a b c d : Config (Unit {0}))
    → (a >> (b >> (c >> d))) ≡ ok tt
    → (a ≡ ok tt) × (b ≡ ok tt) × (c ≡ ok tt) × (d ≡ ok tt)
passes_4 a b c d e = ground (arith, e)

passes_7 :
    (a b c d f g h : Config (Unit {0}))
    → (a >> (b >> (c >> (d >> (f >> (g >> h)))))) ≡ ok tt
    → (a ≡ ok tt)
      × (b ≡ ok tt)
      × (c ≡ ok tt)
      × (d ≡ ok tt)
      × (f ≡ ok tt)
      × (g ≡ ok tt)
      × (h ≡ ok tt)
passes_7 a b c d f g h e = ground (arith, e)

listens :
    (m : Config (Text × ℤ))
    → let done : Config (Unit {0}) = m >>= λ a. ok tt in done ≡ ok tt → (a : Text × ℤ) × (m ≡ ok a)
listens (err x) e = absurd (ground (arith, e))
listens (ok a) e = (a, refl)

pub check_pool_bounds :
    (min_size max_size : ℤ)
    → Validation.check_pool min_size max_size ≡ ok tt
    → (pos 0 ≤ℤ min_size) × (min_size ≤ℤ max_size) × (pos 1 ≤ℤ max_size) × (max_size ≤ℤ pos 20)
unfolding Validation.check_pool
check_pool_bounds min_size max_size e = ground (arith, e)

pub validate-Passes :
    {N : Type 0} (platform : Platform N) (s : Settings N)
    → Validation.validate platform s ≡ ok tt
    → Passes platform s
unfolding Validation.validate
validate-Passes platform s e =
    let address = Hosts.uvicorn_address platform s.http_addr in
    let limits = Validation.check_limits s in
    let listen : Config (Unit {0}) = address >>= λ a. ok tt in
    let (services, secrets, key, webauthn, demo, tools, rest) =
      passes_7 (Validation.check_services s) (Secrets.check_secrets platform s)
        (Secrets.check_key platform s s.mfa_encryption_key) (Hosts.check_webauthn platform s)
        (Validation.check_demo s) (Validation.check_tools platform s)
        (Validation.check_deployment platform s >> (limits >> listen)) e in
    let (deployment, rest') =
      then_pass (Validation.check_deployment platform s) (limits >> listen) tt rest in
    let (bounded, rest'') = then_pass limits listen tt rest' in
    record {
      services = services;
      secrets = secrets;
      key = key;
      webauthn = webauthn;
      demo = demo;
      deployment = deployment;
      limits = bounded;
      address = listens address rest'';
    }

port_bounds :
    {N : Type 0} (platform : Platform N) (address : Text × Text) (host : Text) (port : ℤ)
    → Hosts.listen_on platform address ≡ ok (host, port)
    → (n : ℕ) × (port ≡ pos n) × (1 ≤ n) × (n ≤ 65535)
unfolding Hosts.listen_on
port_bounds platform address host (pos n) e = elim (Option-cases (platform.int address.1)) [
  | inl none_there ↦ absurd (ground (arith, none_there, e))
  | inr (p, read) ↦ (n, refl, ground (arith, read, e), ground (arith, read, e))
]
port_bounds platform address host (negsuc n) e = elim (Option-cases (platform.int address.1)) [
  | inl none_there ↦ absurd (ground (arith, none_there, e))
  | inr (p, read) ↦ absurd (ground (arith, read, e))
]

pub uvicorn_address-port :
    {N : Type 0} (platform : Platform N) (http_addr : Text) (a : Text × ℤ)
    → Hosts.uvicorn_address platform http_addr ≡ ok a
    → (host : Text) × (n : ℕ) × (Hosts.uvicorn_address platform http_addr ≡ ok (host, pos n))
      × (1 ≤ n)
      × (n ≤ 65535)
unfolding Hosts.uvicorn_address
uvicorn_address-port platform http_addr (host, port) e =
    let (n, same, low, high) = port_bounds platform (Hosts.listen_address http_addr) host port e in
    (
      host,
      n,
      subst (λ p. Hosts.uvicorn_address platform http_addr ≡ ok (host, p)) same e,
      low,
      high,
    )
