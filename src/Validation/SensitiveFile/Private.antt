-- ===== src/Validation/SensitiveFile/Private.antt =====
-- internal/validation/environment.go: who can read and write a sensitive file that is accepted.
use ezdbbackup.Common.{
  ℕ, ◌≡◌, Bool, true, false, not, ◌&&◌, ◌||◌, ◌⊎◌, inl, inr, ◌==◌, ==_iff, ok, arith, Bool-cases,
}
use ezdbbackup.Common.Bytes.{Bytes}
use ezdbbackup.Validation.Identity.{
  UserIdentity, Permission, read_permission, write_permission, in_group, bit, allows_stat,
}
use ezdbbackup.Validation.Identity.Exact.{refuse-ok, last-ok}
use ezdbbackup.Validation.LogTarget.Usable.{seq-ok}
use ezdbbackup.Validation.SensitiveFile.{
  FileStat, Machine, others_allowed, others_can_write, check_file_stat, check_file_user,
  check_inspected, check_sensitive_file, traversed,
}

abbrev pub allowed : FileStat → UserIdentity → Permission → Bool
allowed s j p = allows_stat j s.file_mode s.file_uid s.file_gid false p

-- The account of the job reads the file, which is root's or its own; of the others but root, only the
-- members of the group read it, and nobody writes it.
pub record IsPrivate (s : FileStat) (u : UserIdentity) : Type 0 where
  pub one_link : s.file_links ≡ 1
  pub readable : allowed s u read_permission ≡ true
  pub owner_known : (s.file_uid ≡ 0) ⊎ (s.file_uid ≡ u.uid)
  pub readers :
      (j : UserIdentity)
      → (j.uid == 0) ≡ false
      → allowed s j read_permission ≡ true
      → ((j.uid == s.file_uid) ≡ true) ⊎ (in_group j.groups s.file_gid ≡ true)
  pub writers :
      (j : UserIdentity)
      → (j.uid == 0) ≡ false
      → allowed s j write_permission ≡ true
      → (j.uid == s.file_uid) ≡ true

link_count : (n : ℕ) → not (n == 1) ≡ false → n ≡ 1
link_count n h = ground arith

is_true : (b : Bool) → not b ≡ false → b ≡ true
is_true b h = ground arith

last_part : (a b c : Bool) → (a || b || c) ≡ false → c ≡ false
last_part a b c h = ground arith

both_parts : (a b : Bool) → (a || b) ≡ false → (a ≡ false) × (b ≡ false)
both_parts a b h = ground arith

known_owner : (n k : ℕ) → (not (n == 0) && not (n == k)) ≡ false → (n ≡ 0) ⊎ (n ≡ k)
known_owner n k h = elim (Bool-cases (n == 0)) [
  | inl e ↦ inl ((==_iff n 0).0 e)
  | inr e ↦ inr ((==_iff n k).0 (ground arith))
]

readers_of :
    (s : FileStat)
    → bit 2 s.file_mode ≡ false
    → (j : UserIdentity) → (j.uid == 0) ≡ false
    → allowed s j read_permission ≡ true
    → ((j.uid == s.file_uid) ≡ true) ⊎ (in_group j.groups s.file_gid ≡ true)
unfolding allows_stat
readers_of s closed j user h = elim (Bool-cases (j.uid == s.file_uid)) [
  | inl e ↦ inl e
  | inr e ↦ elim (Bool-cases (in_group j.groups s.file_gid)) [
    | inl g ↦ inr g
    | inr g ↦ absurd (not_both _ closed (rw (user, e, g) at h))
  ]
]
  where
    not_both : (b : Bool) → b ≡ false → b ≡ true → ⊥
    not_both b h k = ground arith

writers_of :
    (s : FileStat)
    → bit 1 s.file_mode ≡ false
    → bit 4 s.file_mode ≡ false
    → (j : UserIdentity) → (j.uid == 0) ≡ false
    → allowed s j write_permission ≡ true
    → (j.uid == s.file_uid) ≡ true
unfolding allows_stat
writers_of s others group j user h = elim (Bool-cases (j.uid == s.file_uid)) [
  | inl e ↦ e
  | inr e ↦ elim (Bool-cases (in_group j.groups s.file_gid)) [
    | inl g ↦ absurd (not_both _ group (rw (user, e, g) at h))
    | inr g ↦ absurd (not_both _ others (rw (user, e, g) at h))
  ]
]
  where
    not_both : (b : Bool) → b ≡ false → b ≡ true → ⊥
    not_both b h k = ground arith

user-IsPrivate :
    (m : Machine) (path resolved : Bytes) (s : FileStat) (u : UserIdentity)
    → check_file_stat s ≡ ok tt
    → check_file_user m path resolved s (ok u) ≡ ok tt
    → IsPrivate s u
unfolding check_file_stat check_file_user
user-IsPrivate m path resolved s u h k =
    let (_, h1) = refuse-ok _ _ _ h in
    let (links, h2) = refuse-ok _ _ _ h1 in
    let (closed, h3) =
      refuse-ok (bit 0 s.file_mode || bit 1 s.file_mode || bit 2 s.file_mode) others_allowed _ h2 in
    let (others, group) =
      both_parts (bit 1 s.file_mode) (bit 4 s.file_mode) (last-ok _ others_can_write h3) in
    let (reads, k1) = refuse-ok _ _ _ k in
    let (_, k2) = seq-ok (traversed (m.traverse u path resolved)) _ k1 in
    record {
      one_link = link_count _ links;
      readable = is_true _ reads;
      owner_known = known_owner s.file_uid u.uid (last-ok _ _ k2);
      readers =
          readers_of s
            (last_part (bit 0 s.file_mode) (bit 1 s.file_mode) (bit 2 s.file_mode) closed);
      writers = writers_of s others group;
    }

-- If a sensitive file is accepted for the account of a job, and these are the file and the account that
-- the machine finds, then the file has one link, is root's or the account's, and the account reads it;
-- an account that is not root reads it only as its owner or as a member of its group, and writes it
-- only as its owner.
pub check_sensitive_file-IsPrivate :
    (m : Machine) (path run_as resolved : Bytes) (s : FileStat) (u : UserIdentity)
    → m.inspect path ≡ ok (resolved, s)
    → m.lookup run_as ≡ ok u
    → check_sensitive_file m path run_as ≡ ok tt
    → IsPrivate s u
unfolding check_sensitive_file check_inspected
check_sensitive_file-IsPrivate m path run_as resolved s u found known h =
    let (a, b) = seq-ok (check_file_stat s) _ (rw (found, known) at h) in
    user-IsPrivate m path resolved s u a b
