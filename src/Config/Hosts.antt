-- ===== src/Config/Hosts.antt =====
-- bantam/config.py: the tests of hosts, origins and addresses in `Settings.validate`, and
-- `uvicorn_address`.
use bantam_bank.Prelude.{
  ℕ, ℤ, pos, ltb_ℤ, leb, ltb, ◌==◌, not, ◌&&◌, ◌||◌, all, length, Bool, false, Option, none, some,
  List, [], ◌∷◌, if◌then◌else◌,
}
use bantam_bank.Prelude.Text.{Text, codes}
use bantam_bank.Errors.{ok, ◌>>=◌, ◌>>◌, or_raise}
use bantam_bank.Config.{
  ConfigError, Config, is_none, is_empty, same_text, refuse_if, Platform, Settings, is_text, one_of,
  production,
}
use Prim.Native.String.{String}

-- The labels of a host name.
abbrev pub push : ℕ → List Text → List Text
push c [] = (c ∷ []) ∷ []
push c (label ∷ labels) = (c ∷ label) ∷ labels

abbrev pub split_dots : Text → List Text
split_dots [] = [] ∷ []
split_dots (c ∷ text) = let rest = split_dots text in if c == b'.' then [] ∷ rest else push c rest

abbrev pub is_name_character : ℕ → Bool
is_name_character c = (leb b'a' c && leb c b'z') || (leb b'0' c && leb c b'9')

abbrev pub ends_well : Text → Bool
ends_well [] = false
ends_well (c ∷ []) = is_name_character c
ends_well (c ∷ d ∷ text) = ends_well (d ∷ text)

abbrev pub starts_well : Text → Bool
starts_well [] = false
starts_well (c ∷ text) = is_name_character c

abbrev pub is_label : Text → Bool
is_label label =
    starts_well label
    && ends_well label
    && all (λ c. is_name_character c || (c == b'-')) label
    && leb (length label) 63

-- _RP_ID
unfoldable pub is_host_name : Text → Bool
unfolding is_text
is_host_name text =
    let labels = split_dots text in
    is_text text "localhost" || (leb 2 (length labels) && all is_label labels)

abbrev pub is_host : Text → Option Text → Bool
is_host name none = false
is_host name (some host) = not (is_empty host) && same_text host name

-- The tests of one allowed origin.
unfoldable pub check_origin :
    {N : Type 0} → Platform N → Settings N → (rp_id origin : Text) → Config (Unit {0})
check_origin platform s rp_id origin = do
  url ← or_raise (platform.urlsplit origin) (ConfigError.value_error "WEBAUTHN_ALLOWED_ORIGINS")
  refuse_if
      (url.has_userinfo
        || not (is_empty url.query)
        || not (is_empty url.fragment)
        || not (is_empty url.path || is_text url.path "/")
        || not (is_host rp_id url.hostname)
        || not (is_text url.scheme "https" || (not (production s) && is_text url.scheme "http")))
      "WEBAUTHN_ALLOWED_ORIGINS"
  refuse_if (is_text url.scheme "http" && not (is_host (codes "localhost") url.hostname))
      "WEBAUTHN_ALLOWED_ORIGINS"

unfoldable pub check_origins :
    {N : Type 0} → Platform N → Settings N → (rp_id : Text) → List Text → Config (Unit {0})
unfolding check_origin
check_origins platform s rp_id [] = ok tt
check_origins platform s rp_id (origin ∷ origins) =
    check_origin platform s rp_id origin >> check_origins platform s rp_id origins

abbrev pub check_rp_id : {N : Type 0} → Platform N → Settings N → Option Text → Config (Unit {0})
check_rp_id platform s none = ok tt
check_rp_id platform s (some rp_id) = do
  refuse_if
      (ltb 253 (length rp_id)
        || not (same_text rp_id (platform.lower rp_id))
        || not (is_host_name rp_id))
      "WEBAUTHN_RP_ID"
  check_origins platform s rp_id s.webauthn_allowed_origins

unfoldable pub check_webauthn : {N : Type 0} → Platform N → Settings N → Config (Unit {0})
unfolding check_origins
check_webauthn platform s = do
  refuse_if
      ((is_none s.webauthn_rp_id && not (is_empty s.webauthn_allowed_origins))
        || (not (is_none s.webauthn_rp_id) && is_empty s.webauthn_allowed_origins))
      "WEBAUTHN_RP_ID"
  check_rp_id platform s s.webauthn_rp_id
  refuse_if (is_empty s.webauthn_rp_name || ltb 80 (length s.webauthn_rp_name)) "WEBAUTHN_RP_NAME"

-- `sslmode == [word]`
abbrev pub only_is : String → List Text → Bool
only_is word [] = false
only_is word (mode ∷ []) = is_text mode word
only_is word (mode ∷ other ∷ modes) = false

abbrev pub is_loopback : Option Text → Bool
is_loopback none = false
is_loopback (some host) = one_of host ("localhost" ∷ "127.0.0.1" ∷ "::1" ∷ [])

unfoldable pub check_nats : {N : Type 0} → Platform N → Settings N → Config (Unit {0})
check_nats platform s = do
  nats ← or_raise (platform.urlsplit s.nats_url) (ConfigError.value_error "NATS_URL")
  refuse_if (not (is_text nats.scheme "tls")) "NATS_URL"

-- The tests of the database and of NATS in production.
unfoldable pub check_transport : {N : Type 0} → Platform N → Settings N → Config (Unit {0})
unfolding check_nats
check_transport platform s = do
  database ← or_raise (platform.urlsplit s.database_url) (ConfigError.value_error "DATABASE_URL")
  let sslmode = platform.sslmode database.query
  refuse_if (not (one_of database.scheme ("postgres" ∷ "postgresql" ∷ []))) "DATABASE_URL"
  refuse_if
      (if is_text s.database_connection_mode "direct"
        then not (only_is "verify-full" sslmode)
        else not (is_loopback database.hostname) || not (only_is "disable" sslmode))
      "DATABASE_URL"
  if is_text s.event_bus "nats" then check_nats platform s else ok tt

-- `text.rpartition(":")`; none where there is no separator.
abbrev pub rpartition : Text → Option (Text × Text)
rpartition [] = none
rpartition (c ∷ text) = elim (rpartition text) [
  | some (before, after) ↦ some (c ∷ before, after)
  | none ↦ if c == b':' then some ([], text) else none
]

abbrev pub host_or_all : Text → Text
host_or_all [] = codes "0.0.0.0"
host_or_all (c ∷ host) = c ∷ host

-- The host and the text of the port.
abbrev pub host_and_port : Text → Text × Text
host_and_port address = elim (rpartition address) [
  | none ↦ (host_or_all address, codes "8080")
  | some (host, port) ↦ (host_or_all host, port)
]

-- An address that starts with a colon has the rest as its port.
abbrev pub listen_address : Text → Text × Text
listen_address [] = host_and_port []
listen_address (c ∷ text) = if c == b':' then (codes "0.0.0.0", text) else host_and_port (c ∷ text)

-- The port is a number in its range.
unfoldable pub listen_on : {N : Type 0} → Platform N → Text × Text → Config (Text × ℤ)
listen_on platform (host, raw_port) = do
  port ← or_raise (platform.int raw_port) (ConfigError.value_error "HTTP_ADDR")
  refuse_if (ltb_ℤ port (pos 1) || ltb_ℤ (pos 65535) port) "HTTP_ADDR"
  ok (host, port)

-- `uvicorn_address`
unfoldable pub uvicorn_address : {N : Type 0} → Platform N → Text → Config (Text × ℤ)
unfolding listen_on
uvicorn_address platform http_addr = listen_on platform (listen_address http_addr)
