-- ===== src/Proxy.antt =====
-- bantam/security.py: `client_ip`. Python's `ipaddress` is a parameter: `parse` reads an address,
-- none where it raises, `contains` is membership in a network, with the comparison of versions.
use bantam_bank.Prelude.{
  ℕ, Bool, true, false, not, ◌||◌, ◌==◌, ltb, length, any, Option, none, some, List, [], ◌∷◌, ◌++◌,
  if◌then◌else◌,
}
use bantam_bank.Prelude.Text.{Text, strip, codes}
pub mod Spoofing
pub mod Tests

-- MAX_FORWARDED_HOPS
abbrev pub max_hops : ℕ
max_hops = 10

-- `_is_trusted`
abbrev pub is_trusted :
    {Address Network : Type 0} (contains : Network → Address → Bool) → List Network → Address → Bool
is_trusted contains networks address = any (λ network. contains network address) networks

module _ {Address : Type 0} where
  -- `reversed`
  abbrev pub reversed : List Address → List Address
  reversed [] = []
  reversed (a ∷ hops) = reversed hops ++ (a ∷ [])

  -- The loop: the first hop that is not trusted, or the address at its end.
  abbrev pub first_untrusted :
      (trusted : Address → Bool) → (fallback : Address) → List Address → Address
  first_untrusted trusted fallback [] = fallback
  first_untrusted trusted fallback (a ∷ hops) =
      let rest = first_untrusted trusted fallback hops in if trusted a then rest else a

  -- All values as addresses, none where one does not parse.
  abbrev pub parse_all : (parse : Text → Option Address) → List Text → Option (List Address)
  parse_all parse [] = some []
  parse_all parse (value ∷ values) =
      let rest = parse_all parse values in
      elim (parse value) [
        | none ↦ none
        | some a ↦ elim rest [ none ↦ none | some hops ↦ some (a ∷ hops) ]
      ]

  -- The walk over a chain that has parsed; an empty one is the peer's.
  abbrev pub walk : (trusted : Address → Bool) → (peer : Address) → List Address → Address
  walk trusted peer [] = peer
  walk trusted peer (a ∷ chain) = first_untrusted trusted a (reversed ((a ∷ chain) ++ (peer ∷ [])))

  -- `client_ip` once the peer has parsed; `values` are the trimmed, non-empty items of the header.
  unfoldable pub forwarded_ip :
      (parse : Text → Option Address) (trusted : Address → Bool) (peer : Address)
      (values : List Text)
      → Address
  forwarded_ip parse trusted peer values =
      if not (trusted peer) || (length values == 0) || ltb max_hops (length values)
      then peer
      else elim (parse_all parse values) [ none ↦ peer | some chain ↦ walk trusted peer chain ]

  -- `client_ip`: none stands for `"unknown"`.
  unfoldable pub client_ip :
      (parse : Text → Option Address) (trusted : Address → Bool) (raw_peer : Text)
      (values : List Text)
      → Option Address
  unfolding forwarded_ip
  client_ip parse trusted raw_peer values = elim (parse raw_peer) [
    | none ↦ none
    | some peer ↦ some (forwarded_ip parse trusted peer values)
  ]
