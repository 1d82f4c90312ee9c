-- ===== src/Validation/LogTarget/Usable.antt =====
-- internal/validation/environment.go: an accepted log directory can be used.
use ezdbbackup.Common.{
  ℕ, ◌+◌, ◌≡◌, refl, Bool, true, false, not, ◌&&◌, ◌||◌, List, [], ◌∷◌, All, ltb, ◌==◌,
  if◌then◌else◌, Result, ok, err, ◌>>◌, arith, Bool-cases, inl, inr,
}
use ezdbbackup.Validation.Identity.{
  UserIdentity, Permission, execute_permission, write_permission, read_permission, permission_bit,
  in_group, refuse_if, bit, allows_stat, needs_no_bit,
}
use ezdbbackup.Validation.Identity.Exact.{refuse-ok, differs-not}
use ezdbbackup.Validation.LogTarget.{
  DirectoryStat, LogTargetError, sticky_shared, not_root_owned, unrelated_owner, group_unsafe,
  group_full, distinct_uid_count, check_members, allows_all, check_usable, owner_allowed,
  check_shared, check_single, validate_target, validate_log_target_directory,
}

abbrev pub CanUse : DirectoryStat → UserIdentity → Type 0
CanUse s i = (p : Permission) → allows_stat i s.stat_mode s.stat_uid s.stat_gid true p ≡ true

abbrev IsMember : ℕ → UserIdentity → Type 0
IsMember group i = (i.uid == 0) ≡ false → in_group i.groups group ≡ true

member_or_root : (a b : Bool) → (not a && not b) ≡ false → a ≡ false → b ≡ true
member_or_root a b h k = ground arith

is_true : (b : Bool) → not b ≡ false → b ≡ true
is_true b h = ground arith

three_parts : (a b c : Bool) → (a && b && c) ≡ true → (a ≡ true) × (b ≡ true) × (c ≡ true)
three_parts a b c h = ground arith

check_members-All :
    (group : ℕ) (identities : List UserIdentity)
    → check_members group identities ≡ ok tt
    → All (IsMember group) identities
unfolding check_members
check_members-All group [] h = tt
check_members-All group (i ∷ identities) h =
    let (a, rest) = refuse-ok _ _ (check_members group identities) h in
    (
      (λ k. member_or_root (i.uid == 0) (in_group i.groups group) a k),
      check_members-All group identities rest,
    )

allows_all-CanUse : (s : DirectoryStat) (i : UserIdentity) → allows_all i s ≡ true → CanUse s i
allows_all-CanUse s i h p =
    let allowed = λ (q : Permission). allows_stat i s.stat_mode s.stat_uid s.stat_gid true q in
    let (r, w, x) =
      three_parts (allowed read_permission) (allowed write_permission) (allowed execute_permission)
        h in
    each p r w x
  where
    each :
        (q : Permission)
        → allows_stat i s.stat_mode s.stat_uid s.stat_gid true read_permission ≡ true
        → allows_stat i s.stat_mode s.stat_uid s.stat_gid true write_permission ≡ true
        → allows_stat i s.stat_mode s.stat_uid s.stat_gid true execute_permission ≡ true
        → allows_stat i s.stat_mode s.stat_uid s.stat_gid true q ≡ true
    each execute_permission r w x = x
    each write_permission r w x = w
    each read_permission r w x = r

pub seq-ok : {X : Type 0} (m k : Result X (Unit {0})) → (m >> k) ≡ ok tt → (m ≡ ok tt) × (k ≡ ok tt)
seq-ok (ok tt) k h = (refl, h)
seq-ok (err e) k h = cc

check_usable-All :
    (s : DirectoryStat) (identities : List UserIdentity)
    → check_usable s identities ≡ ok tt
    → All (CanUse s) identities
unfolding check_usable
check_usable-All s [] h = tt
check_usable-All s (i ∷ identities) h =
    let (a, rest) = refuse-ok _ _ (check_usable s identities) h in
    (allows_all-CanUse s i (is_true _ a), check_usable-All s identities rest)

by_root : (q : Permission) (r : Bool) → (if needs_no_bit q true then true else r) ≡ true
by_root execute_permission r = refl
by_root write_permission r = refl
by_root read_permission r = refl

by_group :
    (mode : ℕ) → group_full mode ≡ true → (q : Permission) → bit (3 + permission_bit q) mode ≡ true
by_group mode full q =
    let (x, w, r) = three_parts (bit 3 mode) (bit 4 mode) (bit 5 mode) full in each q x w r
  where
    each :
        (q : Permission)
        → bit 3 mode ≡ true
        → bit 4 mode ≡ true
        → bit 5 mode ≡ true
        → bit (3 + permission_bit q) mode ≡ true
    each execute_permission x w r = x
    each write_permission x w r = w
    each read_permission x w r = r

-- A member of the group of a directory of root, or root itself, uses a directory with all group bits.
member-CanUse :
    (s : DirectoryStat) (i : UserIdentity)
    → s.stat_uid ≡ 0
    → group_full s.stat_mode ≡ true
    → IsMember s.stat_gid i
    → CanUse s i
unfolding allows_stat
member-CanUse s i root full member p = elim (Bool-cases (i.uid == 0)) [
  | inl e ↦ rw e (by_root p _)
  | inr e ↦ rw (e, root, e, member e) (by_group s.stat_mode full p)
]

all_members-CanUse :
    (s : DirectoryStat) (identities : List UserIdentity)
    → s.stat_uid ≡ 0
    → group_full s.stat_mode ≡ true
    → All (IsMember s.stat_gid) identities
    → All (CanUse s) identities
all_members-CanUse s [] root full h = tt
all_members-CanUse s (i ∷ identities) root full h =
    (member-CanUse s i root full h.0, all_members-CanUse s identities root full h.1)

shared_guard : (a b : Bool) → (not a || not b) ≡ false → b ≡ true
shared_guard a b h = ground arith

-- behind the loop over the identities that use the directory
abbrev at_last : DirectoryStat → List UserIdentity → Result LogTargetError (Unit {0})
at_last s identities =
    refuse_if (bit 4 s.stat_mode && (not (bit 10 s.stat_mode) || not (group_full s.stat_mode)))
      group_unsafe
    >> (if bit 3 s.stat_mode || bit 4 s.stat_mode || bit 5 s.stat_mode
        then check_members s.stat_gid identities
        else ok tt)

target-CanUse :
    (multiple : Bool) (s : DirectoryStat) (identities : List UserIdentity)
    → validate_target multiple s identities ≡ ok tt
    → (bit 1 s.stat_mode ≡ false) × All (CanUse s) identities
unfolding validate_target check_shared check_single
target-CanUse true s identities h =
    let (_, h1) = refuse-ok _ _ _ h in
    let (others, h2) = refuse-ok _ _ _ h1 in
    let (_, h3) = refuse-ok _ _ _ h2 in
    let (root, h4) = refuse-ok _ _ _ h3 in
    let (_, h5) = refuse-ok _ _ _ h4 in
    let (group, h6) = refuse-ok _ _ _ h5 in
    (
      others,
      all_members-CanUse s identities (differs-not _ _ root) (shared_guard _ _ group)
          (check_members-All s.stat_gid identities h6),
    )
target-CanUse false s identities h =
    let (_, h1) = refuse-ok _ _ _ h in
    let (others, h2) = refuse-ok _ _ _ h1 in
    let (_, h3) =
      refuse-ok (bit 9 s.stat_mode && (false || bit 4 s.stat_mode)) sticky_shared _ h2 in
    let (_, h4) = refuse-ok (false && not (s.stat_uid == 0)) not_root_owned _ h3 in
    let (_, h5) = refuse-ok (not (owner_allowed s identities)) unrelated_owner _ h4 in
    let (usable, _) = seq-ok (check_usable s identities) (at_last s identities) h5 in
    (others, check_usable-All s identities usable)

-- If the directory of the logs is accepted for a list of accounts, the others may not write to it, and
-- each of the accounts may read, write and search it.
pub validate_log_target_directory-CanUse :
    (s : DirectoryStat) (identities : List UserIdentity)
    → validate_log_target_directory s identities ≡ ok tt
    → (bit 1 s.stat_mode ≡ false) × All (CanUse s) identities
unfolding validate_log_target_directory
validate_log_target_directory-CanUse s identities h =
    target-CanUse (ltb 1 (distinct_uid_count identities)) s identities h
