-- ===== src/Validation/LogTarget.antt =====
-- internal/validation/environment.go: the rules on a log directory that several accounts share.
pub mod Usable
use ezdbbackup.Common.{
  ℕ, ◌/◌, ◌%◌, Bool, true, false, not, ◌&&◌, ◌||◌, List, [], ◌∷◌, any, all, ltb, ◌==◌, length,
  if◌then◌else◌, Result, ok, err, ◌>>◌, ◌>>=◌,
}
use ezdbbackup.Validation.Identity.{
  UserIdentity, Permission, execute_permission, write_permission, read_permission, in_group,
  refuse_if, bit, allows_stat,
}

-- `syscall.Stat_t`, as far as it is looked at
pub record DirectoryStat : Type 0 where
  pub stat_mode : ℕ
  pub stat_uid : ℕ
  pub stat_gid : ℕ

pub data LogTargetError : Type 0 where
  not_directory others_write sticky_shared not_root_owned unrelated_owner not_shared group_unsafe :
      LogTargetError
  not_member not_usable : ℕ → LogTargetError

-- `mode & S_IFMT == S_IFDIR`
abbrev pub is_directory : ℕ → Bool
is_directory mode = mode / 4096 % 16 == 4

-- `mode & 0o070 == 0o070`, with read, write and search for the group
abbrev pub group_full : ℕ → Bool
group_full mode = bit 3 mode && bit 4 mode && bit 5 mode

-- the keys of the map `seen` of `distinctUIDCount`
unfoldable pub distinct_uids : List ℕ → List UserIdentity → List ℕ
distinct_uids seen [] = seen
distinct_uids seen (i ∷ identities) =
    distinct_uids (if in_group seen i.uid then seen else i.uid ∷ seen) identities

-- `distinctUIDCount`
unfoldable pub distinct_uid_count : List UserIdentity → ℕ
unfolding distinct_uids
distinct_uid_count identities = length (distinct_uids [] identities)

-- the loop over the members of the directory's group
unfoldable pub check_members : ℕ → List UserIdentity → Result LogTargetError (Unit {0})
check_members group [] = ok tt
check_members group (i ∷ identities) = do
  refuse_if (not (i.uid == 0) && not (in_group i.groups group)) (not_member i.uid)
  check_members group identities

abbrev pub allows_all : UserIdentity → DirectoryStat → Bool
allows_all i s =
    allows_stat i s.stat_mode s.stat_uid s.stat_gid true read_permission
    && allows_stat i s.stat_mode s.stat_uid s.stat_gid true write_permission
    && allows_stat i s.stat_mode s.stat_uid s.stat_gid true execute_permission

-- the loop over the identities that use the directory
unfoldable pub check_usable : DirectoryStat → List UserIdentity → Result LogTargetError (Unit {0})
unfolding allows_stat
check_usable s [] = ok tt
check_usable s (i ∷ identities) = do
  refuse_if (not (allows_all i s)) (not_usable i.uid)
  check_usable s identities

abbrev pub owner_allowed : DirectoryStat → List UserIdentity → Bool
owner_allowed s identities = s.stat_uid == 0 || any (λ i. i.uid == s.stat_uid) identities

-- more than one user
unfoldable pub check_shared : DirectoryStat → List UserIdentity → Result LogTargetError (Unit {0})
unfolding check_members
check_shared s identities = do
  refuse_if (not (bit 10 s.stat_mode) || not (group_full s.stat_mode)) not_shared
  check_members s.stat_gid identities

-- one user
unfoldable pub check_single : DirectoryStat → List UserIdentity → Result LogTargetError (Unit {0})
unfolding check_usable check_members
check_single s identities = do
  check_usable s identities
  refuse_if (bit 4 s.stat_mode && (not (bit 10 s.stat_mode) || not (group_full s.stat_mode)))
      group_unsafe
  (if bit 3 s.stat_mode || bit 4 s.stat_mode || bit 5 s.stat_mode
      then check_members s.stat_gid identities
      else ok tt)

-- `validateLogTargetDirectory`, given whether there is more than one user
unfoldable pub validate_target :
    Bool → DirectoryStat → List UserIdentity → Result LogTargetError (Unit {0})
unfolding check_shared check_single
validate_target multiple s identities = do
  refuse_if (not (is_directory s.stat_mode)) not_directory
  refuse_if (bit 1 s.stat_mode) others_write
  refuse_if (bit 9 s.stat_mode && (multiple || bit 4 s.stat_mode)) sticky_shared
  refuse_if (multiple && not (s.stat_uid == 0)) not_root_owned
  refuse_if (not (owner_allowed s identities)) unrelated_owner
  (if multiple then check_shared s identities else check_single s identities)

-- `validateLogTargetDirectory`
unfoldable pub validate_log_target_directory :
    DirectoryStat → List UserIdentity → Result LogTargetError (Unit {0})
unfolding validate_target distinct_uid_count
validate_log_target_directory s identities =
    validate_target (ltb 1 (distinct_uid_count identities)) s identities
