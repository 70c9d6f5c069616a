-- ===== src/Config/Checked.antt =====
-- bantam/config.py: what the tests of `Settings.validate` leave when they pass in production.
use bantam_bank.Prelude.{
  ◌≡◌, inl, inr, refl, All, Bool-cases, Option-cases, true, false, Option, none, some, List, [],
  ◌∷◌, arith,
}
use bantam_bank.Prelude.Text.{Text, codes, ==ₜ_iff}
use bantam_bank.Errors.{ok}
use Prim.Native.String.{String}
use bantam_bank.Config.{Url, Platform, Settings, is_text, is_empty, production, development}
use bantam_bank.Config.Secrets
use bantam_bank.Config.Secrets.{is_known}
use bantam_bank.Config.Hosts
use bantam_bank.Config.Hosts.{is_host, is_host_name, is_loopback, only_is}
use bantam_bank.Config.Validation
use bantam_bank.Config.Validation.{minutes}
use bantam_bank.Config.Policy.{IsSecret, IsKey, IsOriginOf, HasOrigins, IsPrivate, HasBus}

-- Production is not development.
pub production-not_development :
    {N : Type 0} (s : Settings N) → production s ≡ true → development s ≡ false
unfolding is_text
production-not_development s e =
    let same = (==ₜ_iff s.environment (codes "production")).0 e in rw same refl

pub check_secret-IsSecret :
    {N : Type 0} (platform : Platform N) (s : Settings N) (name : String) (secret : Text)
    → production s ≡ true
    → Secrets.check_secret platform s name secret ≡ ok tt
    → IsSecret platform secret
unfolding Secrets.check_secret
check_secret-IsSecret platform s name secret e passes =
    ground (arith, production-not_development s e, passes)

module _ {N : Type 0} (platform : Platform N) (s : Settings N) (e : production s ≡ true) where
  pub check_key-IsKey :
      (key : Option Text) → Secrets.check_key platform s key ≡ ok tt → IsKey platform s key
  unfolding Secrets.check_key
  check_key-IsKey none passes = tt
  check_key-IsKey (some key) passes = elim (Option-cases (platform.b64decode key)) [
    | inl none_there ↦ absurd (ground (arith, none_there, passes))
    | inr (bytes, decoded) ↦
        let plain = production-not_development s e in
        (
          (bytes, decoded, ground (arith, decoded, passes), ground (arith, decoded, passes)),
          ground (arith, decoded, passes, plain),
          ground (arith, decoded, passes),
          ground (arith, decoded, passes),
          ground (arith, decoded, passes),
        )
  ]

  check_origins-All :
      (rp_id : Text) (origins : List Text)
      → Hosts.check_origins platform s rp_id origins ≡ ok tt
      → All (IsOriginOf platform rp_id) origins
  unfolding Hosts.check_origins Hosts.check_origin
  check_origins-All rp_id [] passes = tt
  check_origins-All rp_id (origin ∷ origins) passes =
      elim (Option-cases (platform.urlsplit origin)) [
        | inl none_there ↦ absurd (ground (arith, none_there, passes))
        | inr (url, split) ↦ (
          (
            url,
            split,
            ground (arith, split, passes, e),
            ground (arith, split, passes),
            ground (arith, split, passes),
          ),
          check_origins-All rp_id origins (ground (arith, split, passes)),
        )
      ]

  no_origins : (origins : List Text) → is_empty origins ≡ true → origins ≡ []
  no_origins [] e = refl
  no_origins (origin ∷ origins) e = absurd (ground (arith, e))

  pub check_rp_id-HasOrigins :
      Hosts.check_webauthn platform s ≡ ok tt → HasOrigins platform s s.webauthn_rp_id
  unfolding Hosts.check_webauthn
  check_rp_id-HasOrigins passes = elim (Option-cases s.webauthn_rp_id) [
    | inl absent ↦
        rw absent (no_origins s.webauthn_allowed_origins (ground (arith, absent, passes)))
    | inr (rp_id, given) ↦ rw given (
      ground (arith, given, passes),
      λ empty. ground (arith, given, empty, passes),
      check_origins-All rp_id s.webauthn_allowed_origins (ground (arith, given, passes)),
    )
  ]

  pub check_transport-IsPrivate :
      Hosts.check_transport platform s ≡ ok tt
      → (url : Url) × (platform.urlsplit s.database_url ≡ some url) × IsPrivate platform url
  unfolding Hosts.check_transport
  check_transport-IsPrivate passes = elim (Option-cases (platform.urlsplit s.database_url)) [
    | inl none_there ↦ absurd (ground (arith, none_there, passes))
    | inr (url, split) ↦ elim (Bool-cases (is_text s.database_connection_mode "direct")) [
      | inl direct ↦ (url, split, inl (ground (arith, split, direct, passes)))
      | inr proxied ↦ (
        url,
        split,
        inr (ground (arith, split, proxied, passes), ground (arith, split, proxied, passes)),
      )
    ]
  ]

  pub check_transport-HasBus :
      Validation.check_services s ≡ ok tt
      → Hosts.check_transport platform s ≡ ok tt
      → HasBus platform s
  unfolding Validation.check_services Validation.check_names Hosts.check_transport Hosts.check_nats
  check_transport-HasBus served passes = elim (Bool-cases (is_text s.event_bus "nats")) [
    | inl nats ↦ elim (Option-cases (platform.urlsplit s.nats_url)) [
      | inl none_there ↦ absurd (ground (arith, none_there, nats, passes))
      | inr (url, split) ↦ inr (url, split, ground (arith, split, nats, passes))
    ]
    | inr other ↦ inl (ground (arith, other, served), ground (arith, other, served))
  ]
