-- ===== src/Users/Vetted.antt =====
-- Roles are vetted: an Aspis auditor has an approved request, and an administrator a permission.
use bantam_bank.Prelude.{
  ◌≤◌, ◌≡◌, ◌≢◌, ◌⊎◌, refl, ◌==◌, ◌||◌, any, count, ==_iff, true, false, none, List, [], ◌∷◌, arith,
  Bool-cases, inl, inr, ap, sym, subst, ◌∙◌,
}
use bantam_bank.Prelude.Members.{
  In, one_of_count, find?-In, In-update, update-hit, update-other, count-update, count-of_none,
}
use bantam_bank.Prelude.Text.{Text}
use bantam_bank.Domain.{Uuid, Time, Role}
use bantam_bank.Users.{
  UserDb, UserAccount, AuditorRequest, RequestStatus, Permission, is_request, role_matches,
}
use bantam_bank.Users.Registration.{Drawn, new_request, new_user}
use bantam_bank.Users.Administration.{Decision, decided_account, decided_request, is_applicant}
use bantam_bank.Users.Tables.{AddsUser, AddsApplicant, AddsAdmin, Decides}

-- An approved request of the user.
abbrev pub HasApproval : Uuid → List AuditorRequest → Type 0
HasApproval id requests =
    (r : AuditorRequest) × In r requests × (r.user_id ≡ id) × (r.status ≡ RequestStatus.approved)

pub record IsVetted (db : UserDb) : Type 0 where
  pub vetted :
      (u : UserAccount)
      → In u db.users
      → u.role ≡ Role.aspis_auditor
      → HasApproval u.user_id db.requests
  pub scoped :
      (u : UserAccount)
      → In u db.users
      → u.role ≡ Role.bank_admin
      → (p : Permission) × In p db.permissions × (p.user_id ≡ u.user_id)
  pub matching : (u : UserAccount) → In u db.users → role_matches u ≡ true
  pub one_request : (id : Uuid) → count (is_request id) db.requests ≤ 1

-- The first request that is added with a new identifier is the only one with it.
one_request-cons :
    (d : Drawn) (requests : List AuditorRequest)
    → any
        (λ (old : AuditorRequest). (old.request_id == d.subject_id) || (old.user_id == d.user_id))
        requests
      ≡ false
    → ((id : Uuid) → count (is_request id) requests ≤ 1)
    → (id : Uuid) → count (is_request id) (new_request d ∷ requests) ≤ 1
one_request-cons d requests fresh one id = elim (Bool-cases (d.subject_id == id)) [
  | inr other ↦ rw other (omega (arith, one id))
  | inl same ↦
      let none_there =
        count-of_none
          (λ (old : AuditorRequest). (old.request_id == d.subject_id) || (old.user_id == d.user_id))
          (is_request d.subject_id) requests (λ x e. ground (arith, e)) fresh in
      let id_same : d.subject_id ≡ id = (==_iff d.subject_id id).0 same in
      rw same (omega (arith, subst (λ k. count (is_request k) requests ≡ 0) id_same none_there))
]

is_applicant-role :
    (id : Uuid) (u : UserAccount)
    → is_applicant id u ≡ true
    → (u.role ≡ Role.pending_approval) × (u.user_id ≡ id)
is_applicant-role id u e = ground (arith, e, ==_iff u.user_id id)

decided-role :
    (decision : Decision) (u : UserAccount)
    → u.role ≡ Role.pending_approval
    → (decided_account decision u).role ≡ Role.aspis_auditor
    → decision ≡ Decision.approve
decided-role Decision.approve u waits e = refl
decided-role Decision.reject u waits e = absurd (ground (arith, waits, e))

decided-user_id :
    (decision : Decision) (u : UserAccount) → (decided_account decision u).user_id ≡ u.user_id
decided-user_id Decision.approve u = refl
decided-user_id Decision.reject u = refl

decided-ne_admin :
    (decision : Decision) (u : UserAccount)
    → u.role ≡ Role.pending_approval
    → (decided_account decision u).role ≢ Role.bank_admin
decided-ne_admin Decision.approve u waits e = ground (arith, e)
decided-ne_admin Decision.reject u waits e = ground (arith, waits, e)

decided-matches :
    (decision : Decision) (u : UserAccount)
    → u.role ≡ Role.pending_approval
    → role_matches u ≡ true
    → role_matches (decided_account decision u) ≡ true
decided-matches Decision.approve u waits e = ground (arith, waits, e)
decided-matches Decision.reject u waits e = e

module _ (db db' : UserDb) (h : IsVetted db) where
  -- An account that is no auditor's and no administrator's.
  pub AddsUser-IsVetted :
      (u : UserAccount)
      → u.role ≢ Role.aspis_auditor
      → u.role ≢ Role.bank_admin
      → AddsUser u db db'
      → IsVetted db'
  AddsUser-IsVetted u no_auditor no_admin a = record {
    vetted = λ v i role. rw a.requests (elim (rw a.users at i) [
      | inl new ↦ absurd (no_auditor (ap (λ (x : UserAccount). x.role) (sym new) ∙ role))
      | inr old ↦ h.vetted v old role
    ]);
    scoped = λ v i role. rw a.permissions (elim (rw a.users at i) [
      | inl new ↦ absurd (no_admin (ap (λ (x : UserAccount). x.role) (sym new) ∙ role))
      | inr old ↦ h.scoped v old role
    ]);
    matching = λ v i. elim (rw a.users at i) [
      | inl new ↦ subst (λ (x : UserAccount). role_matches x ≡ true) (sym new) a.matching
      | inr old ↦ h.matching v old
    ];
    one_request = λ id. rw a.requests (h.one_request id);
  }

  pub AddsApplicant-IsVetted :
      (d : Drawn) (email hash : Text)
      → AddsApplicant d (new_user d.user_id email hash Role.pending_approval none) db db'
      → IsVetted db'
  AddsApplicant-IsVetted d email hash a = record {
    vetted = λ v i role. rw a.requests (elim (rw a.users at i) [
      | inl new ↦ absurd (ground (arith, ap (λ (x : UserAccount). x.role) new, role))
      | inr old ↦ let (r, j, own, approved) = h.vetted v old role in (r, inr j, own, approved)
    ]);
    scoped = λ v i role. rw a.permissions (elim (rw a.users at i) [
      | inl new ↦ absurd (ground (arith, ap (λ (x : UserAccount). x.role) new, role))
      | inr old ↦ h.scoped v old role
    ]);
    matching = λ v i. elim (rw a.users at i) [
      | inl new ↦ subst (λ (x : UserAccount). role_matches x ≡ true) (sym new) refl
      | inr old ↦ h.matching v old
    ];
    one_request = λ id. rw a.requests (one_request-cons d db.requests a.fresh h.one_request id);
  }

  pub AddsAdmin-IsVetted :
      (id : Uuid) (email hash : Text) (scopes : List Text)
      → scopes ≢ []
      → AddsAdmin (new_user id email hash Role.bank_admin none) scopes db db'
      → IsVetted db'
  AddsAdmin-IsVetted id email hash scopes some_scope a = record {
    vetted = λ v i role. rw a.requests (elim (rw a.users at i) [
      | inl new ↦ absurd (ground (arith, ap (λ (x : UserAccount). x.role) new, role))
      | inr old ↦ h.vetted v old role
    ]);
    scoped = λ v i role. elim (rw a.users at i) [
      | inr old ↦ let (p, j, own) = h.scoped v old role in (p, a.kept p j, own)
      | inl new ↦
          let (p, j, own) = a.granted some_scope in
          (p, j, own ∙ ap (λ (x : UserAccount). x.user_id) (sym new))
    ];
    matching = λ v i. elim (rw a.users at i) [
      | inl new ↦ subst (λ (x : UserAccount). role_matches x ≡ true) (sym new) refl
      | inr old ↦ h.matching v old
    ];
    one_request = λ k. rw a.requests (h.one_request k);
  }

  module _ (id by : Uuid) (decision : Decision) (reason : Text) (now : Time) (r : AuditorRequest)
      (d : Decides id decision by reason now r db db') where
    -- An approval of another request stays.
    approval_stays : (user : Uuid) → HasApproval user db.requests → HasApproval user db'.requests
    approval_stays user (q, i, own, approved) = elim (Bool-cases (is_request id q)) [
      | inr other ↦
          (q, rw d.requests (update-other (is_request id) _ db.requests q i other), own, approved)
      | inl same ↦
          let (j, hit) = find?-In (is_request id) db.requests r d.found in
          let one = one_of_count (is_request id) db.requests q r (h.one_request id) i j same hit in
          absurd (ground (arith, d.waiting, approved, ap (λ (x : AuditorRequest). x.status) one))
    ]

    -- What the decision makes of an account.
    decided_user :
        (v : UserAccount)
        → In v db'.users
        → (u : UserAccount) × In u db.users
          × (((is_applicant r.user_id u ≡ true) × (v ≡ decided_account decision u)) ⊎ (v ≡ u))
    decided_user v i =
        let (u, j, how) =
          In-update (is_applicant r.user_id) (decided_account decision) db.users v
            (rw d.users at i) in
        (u, j, elim how [ inl changed ↦ inl changed | inr (other, same) ↦ inr same ])

    -- The request of an approved applicant.
    approved_now : decision ≡ Decision.approve → HasApproval r.user_id db'.requests
    approved_now e =
        let (i, hit) = find?-In (is_request id) db.requests r d.found in
        (
          decided_request decision by reason now r,
          rw d.requests (
              update-hit (is_request id) (decided_request decision by reason now) db.requests r i
                hit),
          refl,
          rw e refl,
        )

    pub Decides-IsVetted : IsVetted db'
    Decides-IsVetted = record {
      vetted = λ v i role.
          let (u, j, how) = decided_user v i in
          elim how [
            | inr same ↦
                subst (λ (x : UserAccount). HasApproval x.user_id db'.requests) (sym same)
                  (approval_stays u.user_id
                    (h.vetted u j (ap (λ (x : UserAccount). x.role) (sym same) ∙ role)))
            | inl (hit, changed) ↦
                let (waits, own) = is_applicant-role r.user_id u hit in
                let role' = ap (λ (x : UserAccount). x.role) (sym changed) ∙ role in
                let id_kept =
                  ap (λ (x : UserAccount). x.user_id) changed ∙ decided-user_id decision u in
                subst (λ k. HasApproval k db'.requests) (sym (id_kept ∙ own))
                  (approved_now (decided-role decision u waits role'))
          ];
      scoped = λ v i role.
          let (u, j, how) = decided_user v i in
          rw d.permissions (elim how [
            | inr same ↦
                let (p, k, own) =
                  h.scoped u j (ap (λ (x : UserAccount). x.role) (sym same) ∙ role) in
                (p, k, own ∙ ap (λ (x : UserAccount). x.user_id) (sym same))
            | inl (hit, changed) ↦ absurd (
                decided-ne_admin decision u (is_applicant-role r.user_id u hit).0
                  (ap (λ (x : UserAccount). x.role) (sym changed) ∙ role))
          ]);
      matching = λ v i.
          let (u, j, how) = decided_user v i in
          elim how [
            | inr same ↦
                subst (λ (x : UserAccount). role_matches x ≡ true) (sym same) (h.matching u j)
            | inl (hit, changed) ↦
                subst (λ (x : UserAccount). role_matches x ≡ true) (sym changed)
                  (decided-matches decision u (is_applicant-role r.user_id u hit).0
                    (h.matching u j))
          ];
      one_request = λ k. rw d.requests (
          rw
            (count-update (is_request id) (decided_request decision by reason now) (is_request k)
              db.requests (λ x. refl))
            (h.one_request k));
    }
