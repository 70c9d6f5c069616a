-- ===== src/Config/Reading.antt =====
-- bantam/config.py: how one variable of the environment is read.
use bantam_bank.Prelude.{
  ℕ, ℤ, pos, ◌*◌, ◌==◌, leb, map, Bool, true, false, Option, none, some, List, [], ◌∷◌,
  if◌then◌else◌,
}
use bantam_bank.Prelude.Text.{Text, ◌==ₜ◌, codes, strip}
use bantam_bank.Domain.{Time}
use bantam_bank.Errors.{ok, err, ◌>>=◌, ◌>>◌, or_raise}
use bantam_bank.Config.{ConfigError, Config, refuse_if, Platform, one_of}
use Prim.Native.String.{String}

-- `os.getenv`
abbrev pub Env : Type 0
Env = String → Option Text

-- `os.getenv(name, default)`
abbrev pub getenv : Env → String → (default : String) → Text
getenv env name default = elim (env name) [ some text ↦ text | none ↦ codes default ]

-- The digits at the front of a text, and the rest.
abbrev pub span : (ℕ → Bool) → Text → Text × Text
span p [] = ([], [])
span p (c ∷ text) =
    let (front, rest) = span p text in if p c then (c ∷ front, rest) else ([], c ∷ text)

-- The microseconds of a unit.
abbrev pub unit_of : Text → Option ℕ
unit_of text =
    if text ==ₜ codes "ms"
    then some 1000
    else if text ==ₜ codes "s"
    then some 1000000
    else if text ==ₜ codes "m"
    then some 60000000
    else if text ==ₜ codes "h"
    then some 3600000000
    else none

-- A `timedelta` has 999999999 days at most.
abbrev pub overflows : Time → Bool
overflows t = leb 86400000000000000000 t

-- The time of the digits and the unit; none where the pattern does not match.
unfoldable pub time_of : {N : Type 0} → Platform N → (digits unit : Text) → Config (Option Time)
time_of platform [] unit = ok none
time_of platform (d ∷ more) unit = elim (unit_of unit) [
  | none ↦ ok none
  | some micros ↦ do
    amount ← or_raise (platform.decimal (d ∷ more)) (ConfigError.value_error "duration")
    if overflows (amount * micros)
        then err ConfigError.overflow_error
        else ok (some (amount * micros))
]

-- `parse_duration`; none stands for the fallback.
unfoldable pub parse_duration : {N : Type 0} → Platform N → Text → Config (Option Time)
unfolding time_of
parse_duration platform value =
    let (digits, unit) = span platform.is_decimal (strip value) in time_of platform digits unit

-- `_duration`
unfoldable pub duration :
    {N : Type 0} → Platform N → Env → String → (default : String) → Config Time
unfolding parse_duration
duration platform env name default = do
  parsed ← parse_duration platform (strip (getenv env name default))
  time ← or_raise parsed (ConfigError.value_error name)
  refuse_if (time == 0) name
  ok time

-- `_integer`
unfoldable pub integer : {N : Type 0} → Platform N → Env → String → (fallback : ℕ) → Config ℤ
integer platform env name fallback = elim (env name) [
  | none ↦ ok (pos fallback)
  | some raw ↦ or_raise (platform.int raw) (ConfigError.value_error name)
]

-- `_boolean`
unfoldable pub boolean : {N : Type 0} → Platform N → Env → String → (fallback : Bool) → Config Bool
boolean platform env name fallback = elim (env name) [
  | none ↦ ok fallback
  | some value ↦
      let normalised = platform.lower (strip value) in
      if one_of normalised ("1" ∷ "true" ∷ "yes" ∷ "on" ∷ [])
      then ok true
      else if one_of normalised ("0" ∷ "false" ∷ "no" ∷ "off" ∷ [])
      then ok false
      else err (ConfigError.value_error name)
]

-- `text.split(",")`
abbrev pub push : ℕ → List Text → List Text
push c [] = (c ∷ []) ∷ []
push c (item ∷ items) = (c ∷ item) ∷ items

abbrev pub split_commas : Text → List Text
split_commas [] = [] ∷ []
split_commas (c ∷ text) =
    let rest = split_commas text in if c == b',' then [] ∷ rest else push c rest

abbrev pub given : List Text → List Text
given [] = []
given ([] ∷ items) = given items
given ((c ∷ item) ∷ items) = (c ∷ item) ∷ given items

-- `_csv`
unfoldable pub csv : Env → String → List Text
csv env name = given (map strip (split_commas (getenv env name "")))

abbrev pub or_none : Text → Option Text
or_none [] = none
or_none (c ∷ text) = some (c ∷ text)

-- `_optional`, where a missing value is the empty text
abbrev pub optional : Text → Option Text
optional text = or_none (strip text)

-- `text or other`
abbrev pub or_text : Text → Text → Text
or_text [] other = other
or_text (c ∷ text) other = c ∷ text

abbrev pub networks : {N : Type 0} → Platform N → List Text → Config (List N)
networks platform [] = ok []
networks platform (value ∷ values) = do
  network ← or_raise (platform.ip_network value) (ConfigError.value_error "TRUSTED_PROXY_CIDRS")
  rest ← networks platform values
  ok (network ∷ rest)
