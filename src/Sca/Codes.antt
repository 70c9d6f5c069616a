-- ===== src/Sca/Codes.antt =====
-- bantam/sca.py: the codes that are drawn, and the message of the HMAC.
use bantam_bank.Prelude.{
  ℕ, suc, ◌≤◌, ◌<◌, ℤ, ◌≡◌, ◌⊎◌, refl, length, all, ltb, true, if◌then◌else◌, [], ◌∷◌, ◌++◌, arith,
}
use bantam_bank.Prelude.Text.{Text, is_digit}
use bantam_bank.Prelude.Decimal.{dec, int_text, length-dec, all-dec, dec-some}
use bantam_bank.Prelude.UuidText.{uuid_text}
use bantam_bank.Domain.{Uuid}
use bantam_bank.Sca
use bantam_bank.Sca.{ScaService, Issued}

-- A further zero in front of a short text.
abbrev pad : Text → Text
pad s = if ltb (length s) 6 then b'0' ∷ s else s

pad-all : (s : Text) → all is_digit s ≡ true → all is_digit (pad s) ≡ true
unfolding is_digit
pad-all s h = ground (arith, h)

pad-length :
    (s : Text)
    → ((length s < 6) × (length (pad s) ≡ suc (length s)))
      ⊎ ((6 ≤ length s) × (length (pad s) ≡ length s))
pad-length s = ground arith

-- The code that is drawn is one that may be entered.
pub six_digits-code : (draw : ℕ) → draw < 1000000 → Sca.is_code (Sca.six_digits draw) ≡ true
unfolding Sca.is_code Sca.six_digits
six_digits-code draw below =
    let digits = pad-all (pad (pad (pad (pad (dec draw))))) (
      pad-all (pad (pad (pad (dec draw)))) (
        pad-all (pad (pad (dec draw)))
          (pad-all (pad (dec draw)) (pad-all (dec draw) (all-dec draw))))) in
    let six : length (pad (pad (pad (pad (pad (dec draw)))))) ≡ 6 = omega (
      arith,
      length-dec draw 5 below,
      dec-some draw,
      pad-length (dec draw),
      pad-length (pad (dec draw)),
      pad-length (pad (pad (dec draw))),
      pad-length (pad (pad (pad (dec draw)))),
      pad-length (pad (pad (pad (pad (dec draw))))),
    ) in
    rw (six, digits) refl

pub append-cancel : (s t u : Text) → s ++ t ≡ s ++ u → t ≡ u
append-cancel [] t u e = e
append-cancel (c ∷ s) t u e = append-cancel s t u (ground (arith, e))

-- Of one challenge and transfer, the message determines the code.
pub bound_value-code :
    (id user source destination : Uuid) (amount : ℤ) (code code' : Text)
    → Sca.bound_value id user source destination amount code
      ≡ Sca.bound_value id user source destination amount code'
    → code ≡ code'
unfolding Sca.bound_value
bound_value-code id user source destination amount code code' e =
    let colon = b':' ∷ [] in
    append-cancel colon code code' (
      append-cancel (int_text amount) _ _ (
        append-cancel colon _ _ (
          append-cancel (uuid_text destination) _ _ (
            append-cancel colon _ _ (
              append-cancel (uuid_text source) _ _ (
                append-cancel colon _ _ (
                  append-cancel (uuid_text user) _ _
                    (append-cancel colon _ _ (append-cancel (uuid_text id) _ _ e)))))))))
