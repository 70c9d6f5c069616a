-- ===== src/Bank/Waiting.antt =====
-- bantam/api.py: the customers whom the UPDATE of `admin_decide_kyc` hits, and the words of a
-- decision.
use bantam_bank.Prelude.{
  ◌≡◌, refl, ==_iff, Bool-cases, true, false, ◌&&◌, any, update, none, some, List, [], ◌∷◌, arith,
  subst, inl, inr,
}
use bantam_bank.Prelude.Members.{In, any-In}
use bantam_bank.Prelude.Text.{Text, ==ₜ_iff, codes, strip, upper}
use bantam_bank.Domain.{Uuid, KycStatus}
use bantam_bank.Db.{Customer}
use bantam_bank.Bank.Customers
use bantam_bank.Bank.Customers.{is_customer_row, in_review}
use bantam_bank.Bank.Decided.{IsDecision, IsWaiting, Settles}

in_review-pending :
    (status : KycStatus) → in_review status ≡ true → status ≡ KycStatus.pending_review
in_review-pending status e = ground (arith, e)

hit-IsWaiting :
    (id : Uuid) (c : Customer)
    → (is_customer_row id c && in_review c.kyc_status) ≡ true
    → IsWaiting id c
hit-IsWaiting id c e =
    (ground (arith, e, ==_iff c.customer_id id), in_review-pending c.kyc_status (ground (arith, e)))

waiting-hit :
    (id : Uuid) (c : Customer)
    → IsWaiting id c
    → (is_customer_row id c && in_review c.kyc_status) ≡ true
waiting-hit id c (own, pending) = rw (pending, (==_iff c.customer_id id).1 own) refl

pub update-Settles :
    (id : Uuid) (status : KycStatus) (cs : List Customer)
    → Settles id status cs (
        update
          (λ c. is_customer_row id c && in_review c.kyc_status)
          (λ c. record c { kyc_status = status })
          cs)
update-Settles id status [] = tt
update-Settles id status (c ∷ cs) = (
  elim (Bool-cases (is_customer_row id c && in_review c.kyc_status)) [
    | inl hit ↦ rw hit (inl (hit-IsWaiting id c hit, refl))
    | inr miss ↦ rw miss (inr ((λ w. ground (arith, miss, waiting-hit id c w)), refl))
  ],
  update-Settles id status cs,
)

pub none-waits :
    (id : Uuid) (cs : List Customer)
    → any (λ c. is_customer_row id c && in_review c.kyc_status) cs ≡ false
    → (c : Customer) → In c cs
    → ¬ IsWaiting id c
none-waits id [] e c i w = absurd i
none-waits id (d ∷ ds) e c (inl same) w =
    ground (arith, e, waiting-hit id d (subst (IsWaiting id) same w))
none-waits id (d ∷ ds) e c (inr i) w = none-waits id ds (ground (arith, e)) c i w

pub kyc_decision-some :
    (text : Text) (status : KycStatus)
    → Customers.kyc_decision text ≡ some status
    → IsDecision text status
unfolding Customers.kyc_decision
kyc_decision-some text status e =
    let word = upper (strip text) in
    ground (
      arith,
      e,
      ==ₜ_iff word (codes "APPROVE"),
      ==ₜ_iff word (codes "KYC_VERIFIED"),
      ==ₜ_iff word (codes "REJECT"),
      ==ₜ_iff word (codes "KYC_REJECTED"),
    )

pub kyc_decision-none :
    (text : Text)
    → Customers.kyc_decision text ≡ none
    → (status : KycStatus) → ¬ IsDecision text status
unfolding Customers.kyc_decision
kyc_decision-none text e status d =
    let word = upper (strip text) in
    ground (
      arith,
      e,
      d,
      ==ₜ_iff word (codes "APPROVE"),
      ==ₜ_iff word (codes "KYC_VERIFIED"),
      ==ₜ_iff word (codes "REJECT"),
      ==ₜ_iff word (codes "KYC_REJECTED"),
    )

pub any-hit-waits :
    (id : Uuid) (cs : List Customer)
    → any (λ c. is_customer_row id c && in_review c.kyc_status) cs ≡ true
    → (c : Customer) × In c cs × IsWaiting id c
any-hit-waits id cs e =
    let (c, i, hit) = any-In (λ c. is_customer_row id c && in_review c.kyc_status) cs e in
    (c, i, hit-IsWaiting id c hit)
