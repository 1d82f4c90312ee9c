-- ===== src/Validation/Identity.antt =====
-- internal/validation/environment.go: identities of users and of the process, and what a mode allows.
-- A set of groups is the list of its members.
pub mod Groups
pub mod Exact
use ezdbbackup.Common.{
  ℕ, ◌+◌, ◌/◌, ◌%◌, ◌^◌, Bool, true, false, not, ◌&&◌, ◌||◌, Option, none, some, List, [], ◌∷◌, any,
  all, leb, ◌==◌, length, if◌then◌else◌, Result, ok, err, ◌>>=◌, ◌>>◌,
}

-- `userIdentity`
pub record UserIdentity : Type 0 where
  pub uid : ℕ
  pub gid : ℕ
  pub groups : List ℕ

-- `processCredentialState`
pub record CredentialState : Type 0 where
  pub ruid : ℕ
  pub euid : ℕ
  pub suid : ℕ
  pub fsuid : ℕ
  pub rgid : ℕ
  pub egid : ℕ
  pub sgid : ℕ
  pub fsgid : ℕ
  pub state_groups : List ℕ
  pub cap_effective : ℕ
  pub cap_permitted : ℕ
  pub cap_inheritable : ℕ

pub data IdentityError : Type 0 where
  effective_user real_user saved_user filesystem_user : IdentityError
  effective_group real_group saved_group filesystem_group : IdentityError
  group_set capabilities : IdentityError

abbrev pub in_group : List ℕ → ℕ → Bool
in_group groups g = any (λ h. h == g) groups

-- `sameGroupSet`
unfoldable pub same_group_set : List ℕ → List ℕ → Bool
same_group_set left right =
    if not (length left == length right) then false else all (in_group right) left

abbrev pub refuse_if {ℓ} : {X : Type ℓ} → Bool → X → Result X (Unit {0})
refuse_if true e = err e
refuse_if false e = ok tt

-- behind the test of the effective user
unfoldable pub validate_user_state :
    UserIdentity → CredentialState → Result IdentityError (Unit {0})
unfolding same_group_set
validate_user_state u s = do
  refuse_if (not (s.ruid == u.uid)) real_user
  refuse_if (not (s.suid == u.uid)) saved_user
  refuse_if (not (s.fsuid == u.uid)) filesystem_user
  refuse_if (not (s.egid == u.gid)) effective_group
  refuse_if (not (s.rgid == u.gid)) real_group
  refuse_if (not (s.sgid == u.gid)) saved_group
  refuse_if (not (s.fsgid == u.gid)) filesystem_group
  refuse_if (not (same_group_set s.state_groups u.groups)) group_set
  refuse_if
      (not (s.cap_effective == 0) || not (s.cap_permitted == 0) || not (s.cap_inheritable == 0))
      capabilities

-- `validateRunIdentityState`
unfoldable pub validate_run_identity_state :
    UserIdentity → CredentialState → Result IdentityError (Unit {0})
unfolding validate_user_state
validate_run_identity_state u s =
    if not (s.euid == u.uid)
    then err effective_user
    else if u.uid == 0
    then ok tt
    else validate_user_state u s

-- `permission`
pub data Permission : Type 0 where
  execute_permission write_permission read_permission : Permission

abbrev pub permission_bit : Permission → ℕ
permission_bit execute_permission = 0
permission_bit write_permission = 1
permission_bit read_permission = 2

-- `mode & (1 << n) != 0`
unfoldable pub bit : ℕ → ℕ → Bool
bit n mode = mode / 2 ^ n % 2 == 1

abbrev pub needs_no_bit : Permission → Bool → Bool
needs_no_bit execute_permission directory = directory
needs_no_bit write_permission directory = true
needs_no_bit read_permission directory = true

-- the bits of the owner start at 6, those of the group at 3, and those of others at 0
abbrev pub class_shift : UserIdentity → ℕ → ℕ → ℕ
class_shift u owner group = if u.uid == owner then 6 else if in_group u.groups group then 3 else 0

-- `allowsStat`
unfoldable pub allows_stat : UserIdentity → ℕ → ℕ → ℕ → Bool → Permission → Bool
unfolding bit
allows_stat u mode owner group directory requested =
    if u.uid == 0
    then (if needs_no_bit requested directory then true else bit 0 mode || bit 3 mode || bit 6 mode)
    else bit (class_shift u owner group + permission_bit requested) mode
