-- ===== src/Proxy/Spoofing.antt =====
-- What a client writes in front of the forwarded chain has no effect.
use bantam_bank.Prelude.{
  ◌≤◌, ◌≡◌, ◌∙◌, ap, refl, sym, Bool, false, ◌&&◌, length, length-append, all, Option, some,
  Option-cases, Bool-cases, inl, inr, List, [], ◌∷◌, ◌++◌, arith,
}
use bantam_bank.Prelude.Text.{Text}
use bantam_bank.Proxy
use bantam_bank.Proxy.{first_untrusted, reversed, parse_all, walk, max_hops}

append_assoc {ℓ} : {A : Type ℓ} (xs ys zs : List A) → (xs ++ ys) ++ zs ≡ xs ++ (ys ++ zs)
append_assoc [] ys zs = refl
append_assoc (x ∷ xs) ys zs = ap (λ rest. x ∷ rest) (append_assoc xs ys zs)

append_nil {ℓ} : {A : Type ℓ} (xs : List A) → xs ++ [] ≡ xs
append_nil [] = refl
append_nil (x ∷ xs) = ap (λ rest. x ∷ rest) (append_nil xs)

reversed-append : {A : Type 0} (xs ys : List A) → reversed (xs ++ ys) ≡ reversed ys ++ reversed xs
reversed-append [] ys = sym (append_nil (reversed ys))
reversed-append (x ∷ xs) ys =
    ap (λ rest. rest ++ (x ∷ [])) (reversed-append xs ys)
    ∙ append_assoc (reversed ys) (reversed xs) (x ∷ [])

all-append {ℓ} :
    {A : Type ℓ} (p : A → Bool) (xs ys : List A) → all p (xs ++ ys) ≡ (all p xs && all p ys)
all-append p [] ys = refl
all-append p (x ∷ xs) ys = ground (arith, all-append p xs ys)

all-reversed : {A : Type 0} (p : A → Bool) (xs : List A) → all p (reversed xs) ≡ all p xs
all-reversed p [] = refl
all-reversed p (x ∷ xs) = ground (arith, all-append p (reversed xs) (x ∷ []), all-reversed p xs)

module _ {Address : Type 0} (trusted : Address → Bool) where
  first_untrusted-append :
      (f g : Address) (hops more : List Address)
      → all trusted hops ≡ false
      → first_untrusted trusted f (hops ++ more) ≡ first_untrusted trusted g hops
  first_untrusted-append f g [] more h = absurd (ground arith)
  first_untrusted-append f g (a ∷ hops) more h = elim (Bool-cases (trusted a)) [
    | inl passes ↦ ground (arith, first_untrusted-append f g hops more (ground arith))
    | inr stops ↦ ground arith
  ]

  walk-append :
      (peer b : Address) (forged chain : List Address)
      → all trusted ((b ∷ chain) ++ (peer ∷ [])) ≡ false
      → walk trusted peer (forged ++ (b ∷ chain)) ≡ walk trusted peer (b ∷ chain)
  walk-append peer b [] chain h = refl
  walk-append peer b (a ∷ forged) chain h =
      let real : List Address = (b ∷ chain) ++ (peer ∷ []) in
      ap (λ l. first_untrusted trusted a (reversed l))
        (append_assoc (a ∷ forged) (b ∷ chain) (peer ∷ []))
      ∙ ap (first_untrusted trusted a) (reversed-append (a ∷ forged) real)
      ∙ first_untrusted-append a b (reversed real) (reversed (a ∷ forged))
          (all-reversed trusted real ∙ h)

  parse_all-append :
      (parse : Text → Option Address) (xs ys : List Text) (fakes bs : List Address)
      → parse_all parse xs ≡ some fakes
      → parse_all parse ys ≡ some bs
      → parse_all parse (xs ++ ys) ≡ some (fakes ++ bs)
  parse_all-append parse [] ys fakes bs ea eb = let same : fakes ≡ [] = ground arith in rw same eb
  parse_all-append parse (x ∷ xs) ys fakes bs ea eb = elim (Option-cases (parse x)) [
    | inl bad ↦ absurd (ground arith)
    | inr (a, good) ↦ elim (Option-cases (parse_all parse xs)) [
      | inl bad ↦ absurd (ground arith)
      | inr (rest, parsed) ↦ ground (arith, parse_all-append parse xs ys rest bs parsed eb)
    ]
  ]

  -- If all values of the header parse, there are at most ten, and the real chain is not empty and
  -- some hop of it or the peer is not trusted, then values in front of the real chain do not
  -- change the address that client_ip gives for a parsed peer.
  pub forwarded_ip-append :
      (parse : Text → Option Address) (peer b : Address) (forged values : List Text)
      (fakes chain : List Address)
      → parse_all parse forged ≡ some fakes
      → parse_all parse values ≡ some (b ∷ chain)
      → length (forged ++ values) ≤ max_hops
      → all trusted ((b ∷ chain) ++ (peer ∷ [])) ≡ false
      → Proxy.forwarded_ip parse trusted peer (forged ++ values)
        ≡ Proxy.forwarded_ip parse trusted peer values
  unfolding Proxy.forwarded_ip
  forwarded_ip-append parse peer b forged [] fakes chain ef ev bound h = absurd (ground arith)
  forwarded_ip-append parse peer b forged (v ∷ values) fakes chain ef ev bound h =
      let both = parse_all-append parse forged (v ∷ values) fakes (b ∷ chain) ef ev in
      let size = length-append forged (v ∷ values) in
      let same = walk-append peer b fakes chain h in ground (arith, both, size, same)
