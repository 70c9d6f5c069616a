-- ===== src/Config/Given.antt =====
-- bantam/config.py: what the text of a variable and the value that is read have in common.
use bantam_bank.Prelude.{
  ℕ, ℤ, pos, ◌*◌, ◌≡◌, ◌≢◌, ◌⊎◌, inl, inr, refl, Bool, Bool-cases, Option-cases, true, false,
  Option, none, some, [], ◌∷◌, ◌++◌, all, arith, subst,
}
use bantam_bank.Prelude.Text.{Text, strip}
use bantam_bank.Domain.{Time}
use bantam_bank.Errors.{Outcome-cases, ok}
use bantam_bank.Config.{Platform, one_of}
use bantam_bank.Config.Reading
use bantam_bank.Config.Reading.{Env, getenv, span, unit_of, overflows}
use Prim.Native.String.{String}

-- A switch that is not given has its default; one that is given is one of eight words.
abbrev pub IsSwitch :
    {N : Type 0} → Platform N → (given : Option Text) → (fallback switch : Bool) → Type 0
IsSwitch platform none fallback switch = switch ≡ fallback
IsSwitch platform (some text) fallback switch =
    let word = platform.lower (strip text) in
    ((switch ≡ true) × (one_of word ("1" ∷ "true" ∷ "yes" ∷ "on" ∷ []) ≡ true))
    ⊎ ((switch ≡ false) × (one_of word ("0" ∷ "false" ∷ "no" ∷ "off" ∷ []) ≡ true))

-- The text is digits and a unit, and the time their product, at least a microsecond.
pub record IsDuration {N : Type 0} (platform : Platform N) (text : Text) (t : Time) : Type 0 where
  pub digits : Text
  pub unit : Text
  pub amount : ℕ
  pub micros : ℕ
  pub written : digits ++ unit ≡ text
  pub decimal : all platform.is_decimal digits ≡ true
  pub number : platform.decimal digits ≡ some amount
  pub known : unit_of unit ≡ some micros
  pub product : t ≡ amount * micros
  pub positive : t ≢ 0

-- A number that is not given has its default; one that is given is what `int` makes of its text.
abbrev pub IsNumber :
    {N : Type 0} → Platform N → (given : Option Text) → (fallback : ℕ) → ℤ → Type 0
IsNumber platform none fallback n = n ≡ pos fallback
IsNumber platform (some text) fallback n = platform.int text ≡ some n

pub integer-IsNumber :
    {N : Type 0} (platform : Platform N) (env : Env) (name : String) (fallback : ℕ) (n : ℤ)
    → Reading.integer platform env name fallback ≡ ok n
    → IsNumber platform (env name) fallback n
unfolding Reading.integer
integer-IsNumber platform env name fallback n e = elim (Option-cases (env name)) [
  | inl absent ↦ rw absent (ground (arith, absent, e))
  | inr (text, given) ↦ elim (Option-cases (platform.int text)) [
    | inl none_there ↦ absurd (ground (arith, given, none_there, e))
    | inr (m, read) ↦ rw (given, read) (ground (arith, given, read, e))
  ]
]

pub boolean-IsSwitch :
    {N : Type 0} (platform : Platform N) (env : Env) (name : String) (fallback switch : Bool)
    → Reading.boolean platform env name fallback ≡ ok switch
    → IsSwitch platform (env name) fallback switch
unfolding Reading.boolean
boolean-IsSwitch platform env name fallback switch e = elim (Option-cases (env name)) [
  | inl absent ↦ rw absent (ground (arith, absent, e))
  | inr (text, given) ↦
      let word = platform.lower (strip text) in
      rw given (elim (Bool-cases (one_of word ("1" ∷ "true" ∷ "yes" ∷ "on" ∷ []))) [
        | inl holds ↦ inl (ground (arith, given, holds, e), holds)
        | inr fails ↦ inr (ground (arith, given, fails, e), ground (arith, given, fails, e))
      ])
]

span-append : (p : ℕ → Bool) (text : Text) → (span p text).0 ++ (span p text).1 ≡ text
span-append p [] = refl
span-append p (c ∷ text) = elim (Bool-cases (p c)) [
  | inl holds ↦ rw (holds, span-append p text) refl
  | inr fails ↦ rw fails refl
]

span-all : (p : ℕ → Bool) (text : Text) → all p (span p text).0 ≡ true
span-all p [] = refl
span-all p (c ∷ text) = elim (Bool-cases (p c)) [
  | inl holds ↦ rw (holds, span-all p text) (rw holds refl)
  | inr fails ↦ rw fails refl
]

digits-product :
    {N : Type 0} (platform : Platform N) (digits unit : Text) (t : Time)
    → Reading.time_of platform digits unit ≡ ok (some t)
    → (amount micros : ℕ) × (platform.decimal digits ≡ some amount)
      × (unit_of unit ≡ some micros)
      × (t ≡ amount * micros)
unfolding Reading.time_of
digits-product platform [] unit t e = absurd (ground (arith, e))
digits-product platform (d ∷ more) unit t e = elim (Option-cases (unit_of unit)) [
  | inl absent ↦ absurd (ground (arith, absent, e))
  | inr (micros, known) ↦ elim (Option-cases (platform.decimal (d ∷ more))) [
    | inl absent ↦ absurd (ground (arith, known, absent, e))
    | inr (amount, number) ↦ (amount, micros, number, known, ground (arith, known, number, e))
  ]
]

parse_duration-IsDuration :
    {N : Type 0} (platform : Platform N) (text : Text) (t : Time)
    → Reading.parse_duration platform text ≡ ok (some t)
    → t ≢ 0
    → IsDuration platform (strip text) t
unfolding Reading.parse_duration
parse_duration-IsDuration platform text t e positive =
    let (digits, unit) = span platform.is_decimal (strip text) in
    let (amount, micros, number, known, product) = digits-product platform digits unit t e in
    record {
      digits = digits;
      unit = unit;
      amount = amount;
      micros = micros;
      written = span-append platform.is_decimal (strip text);
      decimal = span-all platform.is_decimal (strip text);
      number = number;
      known = known;
      product = product;
      positive = positive;
    }

pub duration-IsDuration :
    {N : Type 0} (platform : Platform N) (env : Env) (name default : String) (t : Time)
    → Reading.duration platform env name default ≡ ok t
    → IsDuration platform (strip (strip (getenv env name default))) t
unfolding Reading.duration
duration-IsDuration platform env name default t e =
    elim (Outcome-cases (Reading.parse_duration platform (strip (getenv env name default)))) [
      | inr (raised, failed) ↦ absurd (ground (arith, failed, e))
      | inl (none, parsed) ↦ absurd (ground (arith, parsed, e))
      | inl (some time, parsed) ↦
          let same : time ≡ t = ground (arith, parsed, e) in
          subst (IsDuration platform (strip (strip (getenv env name default)))) same (
            parse_duration-IsDuration platform (strip (getenv env name default)) time parsed
              (λ zero. ground (arith, parsed, zero, e)))
    ]
