-- ===== src/Validation/Identity/Exact.antt =====
-- internal/validation/environment.go: what a process identity that is accepted says.
use ezdbbackup.Common.{
  ℕ, ◌≡◌, ◌↔◌, ◌>>◌, refl, Bool, true, false, not, ◌||◌, ◌==◌, ==_iff, Result, ok, arith,
  Bool-cases, inl, inr,
}
use ezdbbackup.Validation.Identity.{
  UserIdentity, CredentialState, refuse_if, validate_user_state, validate_run_identity_state,
}
use ezdbbackup.Validation.Identity.Groups.{
  IsDistinct, SameGroups, same_group_set-SameGroups, SameGroups-same_group_set,
}

-- The whole identity of a process, for a user that is not root: every user and group is that of the
-- account, so is the set of groups, and there is no capability.
pub record IsExact (u : UserIdentity) (s : CredentialState) : Type 0 where
  pub real_user_same : s.ruid ≡ u.uid
  pub saved_user_same : s.suid ≡ u.uid
  pub filesystem_user_same : s.fsuid ≡ u.uid
  pub effective_group_same : s.egid ≡ u.gid
  pub real_group_same : s.rgid ≡ u.gid
  pub saved_group_same : s.sgid ≡ u.gid
  pub filesystem_group_same : s.fsgid ≡ u.gid
  pub groups_same : SameGroups s.state_groups u.groups
  pub no_effective : s.cap_effective ≡ 0
  pub no_permitted : s.cap_permitted ≡ 0
  pub no_inheritable : s.cap_inheritable ≡ 0

pub refuse-ok :
    {X : Type 0} (b : Bool) (e : X) (rest : Result X (Unit {0}))
    → (refuse_if b e >> rest) ≡ ok tt
    → (b ≡ false) × (rest ≡ ok tt)
refuse-ok true e rest h = cc
refuse-ok false e rest h = (refl, h)

pub last-ok : {X : Type 0} (b : Bool) (e : X) → refuse_if b e ≡ ok tt → b ≡ false
last-ok true e h = cc
last-ok false e h = refl

pub differs-not : (a b : ℕ) → not (a == b) ≡ false → a ≡ b
differs-not a b h = ground arith

no_caps :
    (a b c : ℕ)
    → (not (a == 0) || not (b == 0) || not (c == 0)) ≡ false
    → (a ≡ 0) × (b ≡ 0) × (c ≡ 0)
no_caps a b c h = ground arith

is_true : (b : Bool) → not b ≡ false → b ≡ true
is_true b h = ground arith

validate_user_state-IsExact :
    (u : UserIdentity) (s : CredentialState)
    → IsDistinct s.state_groups
    → validate_user_state u s ≡ ok tt
    → IsExact u s
unfolding validate_user_state
validate_user_state-IsExact u s d h =
    let (a, h1) = refuse-ok _ _ _ h in
    let (b, h2) = refuse-ok _ _ _ h1 in
    let (c, h3) = refuse-ok _ _ _ h2 in
    let (e, h4) = refuse-ok _ _ _ h3 in
    let (f, h5) = refuse-ok _ _ _ h4 in
    let (g, h6) = refuse-ok _ _ _ h5 in
    let (i, h7) = refuse-ok _ _ _ h6 in
    let (j, h8) = refuse-ok _ _ _ h7 in
    let (x, y, z) = no_caps s.cap_effective s.cap_permitted s.cap_inheritable (last-ok _ _ h8) in
    record {
      real_user_same = differs-not _ _ a;
      saved_user_same = differs-not _ _ b;
      filesystem_user_same = differs-not _ _ c;
      effective_group_same = differs-not _ _ e;
      real_group_same = differs-not _ _ f;
      saved_group_same = differs-not _ _ g;
      filesystem_group_same = differs-not _ _ i;
      groups_same = same_group_set-SameGroups s.state_groups u.groups d (is_true _ j);
      no_effective = x;
      no_permitted = y;
      no_inheritable = z;
    }

same_not : (a b : ℕ) → a ≡ b → not (a == b) ≡ false
same_not a b h = ground arith

user-accepted :
    (u : UserIdentity) (s : CredentialState)
    → IsDistinct s.state_groups
    → IsDistinct u.groups
    → IsExact u s
    → validate_user_state u s ≡ ok tt
unfolding validate_user_state
user-accepted u s d e x =
    rw
      (
        same_not _ _ x.real_user_same,
        same_not _ _ x.saved_user_same,
        same_not _ _ x.filesystem_user_same,
        same_not _ _ x.effective_group_same,
        same_not _ _ x.real_group_same,
        same_not _ _ x.saved_group_same,
        same_not _ _ x.filesystem_group_same,
        SameGroups-same_group_set s.state_groups u.groups d e x.groups_same,
        same_not _ _ x.no_effective,
        same_not _ _ x.no_permitted,
        same_not _ _ x.no_inheritable,
      )
      refl

-- Where both sets of groups have no element twice, as the keys of a map, the process is accepted for an
-- account exactly if its effective user is that of the account and, unless that is root, its real,
-- saved and filesystem users, all its groups and its set of groups are the account's and its three
-- capability sets are empty.
pub validate_run_identity_state_iff :
    (u : UserIdentity) (s : CredentialState)
    → IsDistinct s.state_groups
    → IsDistinct u.groups
    → (validate_run_identity_state u s ≡ ok tt)
      ↔ ((s.euid ≡ u.uid) × ((u.uid == 0) ≡ false → IsExact u s))
unfolding validate_run_identity_state
validate_run_identity_state_iff u s d e = elim (Bool-cases (s.euid == u.uid)) [
  | inl f ↦ elim (Bool-cases (u.uid == 0)) [
    | inl z ↦ rw (f, z) ((λ _. ((==_iff _ _).0 f, λ h. absurd (true_false h))), λ _. refl)
    | inr z ↦
        rw (f, z)
          (
            (λ h. ((==_iff _ _).0 f, λ _. validate_user_state-IsExact u s d h)),
            λ h. user-accepted u s d e (h.1 refl),
          )
  ]
  | inr f ↦ rw f ((λ h. cc), λ h. absurd (apart_eq f h.0))
]
  where
    true_false : true ≡ false → ⊥
    true_false h = ground arith

    apart_eq : (s.euid == u.uid) ≡ false → s.euid ≡ u.uid → ⊥
    apart_eq f h = ground arith
