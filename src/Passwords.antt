-- ===== src/Passwords.antt =====
-- bantam/security.py: password_problem, with what Python and bcrypt do to texts as parameters.
use bantam_bank.Prelude.{
  ℕ, leb, ltb, ◌==◌, not, ◌&&◌, ◌||◌, any, select, length, Bool, true, false, Option, none, some,
  List, [], ◌∷◌, if◌then◌else◌,
}
use bantam_bank.Prelude.Text.{Text, strip}
use Prim.Native.String.{String, ◌++◌}

-- `str.lower`, `str.casefold`, `len(text.encode())`, the characters that `\d` matches, and
-- `bcrypt.hashpw` with a new salt.
pub record Python : Type 0 where
  pub lower : Text → Text
  pub casefold : Text → Text
  pub encoded_length : Text → ℕ
  pub is_decimal : ℕ → Bool
  pub hashpw : Text → Text

abbrev pub is_lower_letter : ℕ → Bool
is_lower_letter c = leb b'a' c && leb c b'z'

abbrev pub is_upper_letter : ℕ → Bool
is_upper_letter c = leb b'A' c && leb c b'Z'

abbrev pub is_ascii_digit : ℕ → Bool
is_ascii_digit c = leb b'0' c && leb c b'9'

-- `[^A-Za-z0-9]`
abbrev pub is_symbol : ℕ → Bool
is_symbol c = not (is_lower_letter c || is_upper_letter c || is_ascii_digit c)

-- The kinds of character that a password has to have.
pub data Needed : Type 0 where
  lowercase_letter uppercase_letter number symbol : Needed

abbrev pub occurs : Python → Needed → Text → Bool
occurs python Needed.lowercase_letter password = any is_lower_letter password
occurs python Needed.uppercase_letter password = any is_upper_letter password
occurs python Needed.number password = any python.is_decimal password
occurs python Needed.symbol password = any is_symbol password

abbrev pub all_needed : List Needed
all_needed = Needed.lowercase_letter ∷ Needed.uppercase_letter ∷ Needed.number ∷ Needed.symbol ∷ []

-- The explanations.
pub data PasswordProblem : Type 0 where
  too_short too_long personal_details : PasswordProblem
  missing : List Needed → PasswordProblem

abbrev label : Needed → String
label Needed.lowercase_letter = "a lowercase letter"
label Needed.uppercase_letter = "an uppercase letter"
label Needed.number = "a number"
label Needed.symbol = "a symbol"

-- `", ".join(missing)`
abbrev labels : List Needed → String
labels [] = ""
labels (needed ∷ []) = label needed
labels (needed ∷ next ∷ more) = label needed ++ ", " ++ labels (next ∷ more)

unfoldable pub explanation : PasswordProblem → String
explanation PasswordProblem.too_short = "password must be at least 14 characters"
explanation PasswordProblem.too_long = "password must be 72 bytes or fewer"
explanation PasswordProblem.personal_details = "password must not contain personal details"
explanation (PasswordProblem.missing needed) = "password must include " ++ labels needed

abbrev pub is_prefix : Text → Text → Bool
is_prefix [] text = true
is_prefix (c ∷ word) [] = false
is_prefix (c ∷ word) (d ∷ text) = (c == d) && is_prefix word text

-- `word in text`
abbrev pub is_inside : Text → Text → Bool
is_inside word [] = is_prefix word []
is_inside word (d ∷ text) = is_prefix word (d ∷ text) || is_inside word text

-- `text.split("@", 1)[0]`
abbrev pub before_at : Text → Text
before_at [] = []
before_at (c ∷ text) = let rest = before_at text in if c == b'@' then [] else c ∷ rest

-- The loop's body: a value of four characters or more, or its part before the `@`, is in the password.
unfoldable pub reveals : Python → (folded : Text) → (value : Text) → Bool
reveals python folded value =
    let cleaned = python.casefold (strip value) in
    (leb 4 (length cleaned) && is_inside cleaned folded)
    || (leb 4 (length (before_at cleaned)) && is_inside (before_at cleaned) folded)

unfoldable pub password_problem :
    Python → (password : Text) → (disallowed_values : List Text) → Option PasswordProblem
unfolding reveals
password_problem python password disallowed_values =
    let absent = select (λ needed. not (occurs python needed password)) all_needed in
    if ltb (length password) 14
    then some PasswordProblem.too_short
    else if ltb 72 (python.encoded_length password)
    then some PasswordProblem.too_long
    else if not (length absent == 0)
    then some (PasswordProblem.missing absent)
    else if any (reveals python (python.casefold password)) disallowed_values
    then some PasswordProblem.personal_details
    else none
