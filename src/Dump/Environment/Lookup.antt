-- ===== src/Dump/Environment/Lookup.antt =====
-- internal/dump/runner.go: what the child process finds in its environment.
use mathlib.Core.Path.{subst}
use ezdbbackup.Common.{
  ◌≡◌, refl, sym, ap, arith, ◌∙◌, Bool, true, false, Option, none, some, List, [], ◌∷◌, ◌++◌,
  if◌then◌else◌, Bool-cases, inl, inr,
}
use ezdbbackup.Common.Bytes.{Bytes, codes, is_empty, equal, equal_iff, member}
use ezdbbackup.Dump.Environment.{
  entry_name, password_name, cloud_credential_environment, dropped, kept_entries, password_entry,
  child_env,
}

-- the first entry of a name
unfoldable pub lookup_entry : Bytes → List Bytes → Option Bytes
lookup_entry name [] = none
lookup_entry name (entry ∷ entries) =
    let rest = lookup_entry name entries in
    if equal (entry_name entry) name then some entry else rest

abbrev or_later : Option Bytes → Option Bytes → Option Bytes
or_later (some entry) later = some entry
or_later none later = later

abbrev pub hidden_or : Bytes → Option Bytes → Option Bytes → Option Bytes
hidden_or name mine theirs = if dropped name then mine else or_later theirs mine

same_branch : {A : Type 0} (b : Bool) (x : A) → (if b then x else x) ≡ x
same_branch true x = refl
same_branch false x = refl

lookup-kept :
    (name : Bytes) (entries tail : List Bytes)
    → lookup_entry name (kept_entries entries ++ tail)
      ≡ hidden_or name (lookup_entry name tail) (lookup_entry name entries)
unfolding lookup_entry kept_entries
lookup-kept name [] tail = sym (same_branch (dropped name) (lookup_entry name tail))
lookup-kept name (entry ∷ entries) tail = elim (Bool-cases (equal (entry_name entry) name)) [
  | inl e ↦ elim (Bool-cases (dropped (entry_name entry))) [
    | inl d ↦
        rw (d, e)
          (lookup-kept name entries tail
            ∙ hides (subst (λ n. dropped n ≡ true) ((equal_iff (entry_name entry) name).0 e) d))
    | inr d ↦
        rw (d, e, subst (λ n. dropped n ≡ false) ((equal_iff (entry_name entry) name).0 e) d) refl
  ]
  | inr e ↦ elim (Bool-cases (dropped (entry_name entry))) [
    | inl d ↦ rw (d, e) (lookup-kept name entries tail)
    | inr d ↦ rw (d, e) (lookup-kept name entries tail)
  ]
]
  where
    hides :
        dropped name ≡ true
        → hidden_or name (lookup_entry name tail) (lookup_entry name entries)
          ≡ hidden_or name (lookup_entry name tail) (some entry)
    hides d = rw d refl

-- What the child of a password finds by a name.
abbrev pub found_in_child : Bytes → Bytes → List Bytes → Option Bytes
found_in_child name password environ =
    if equal name password_name
    then (if is_empty password then none else some (password_name ++ (codes "=" ++ password)))
    else if member name cloud_credential_environment
    then none
    else lookup_entry name environ

name_of_password :
    (password : Bytes) → entry_name (password_name ++ (codes "=" ++ password)) ≡ password_name
unfolding entry_name
name_of_password password = refl

equal_sym : (a b : Bytes) → equal a b ≡ equal b a
equal_sym [] [] = refl
equal_sym [] (d ∷ b) = refl
equal_sym (c ∷ a) [] = refl
equal_sym (c ∷ a) (d ∷ b) = ground (arith, equal_sym a b)

later_none : (o : Option Bytes) → or_later o none ≡ o
later_none none = refl
later_none (some entry) = refl

-- Choosing by the two tests, with what the password's entry and the others give.
choose :
    (is_password is_cloud : Bool) (x theirs : Option Bytes)
    → (if (if is_password then true else is_cloud)
        then (if is_password then x else none)
        else or_later theirs (if is_password then x else none))
      ≡ (if is_password then x else if is_cloud then none else theirs)
choose true is_cloud x theirs = refl
choose false true x theirs = refl
choose false false x theirs = later_none theirs

lookup-password :
    (name password : Bytes)
    → lookup_entry name (password_entry password) ≡ (
        if equal name password_name
        then (if is_empty password then none else some (password_name ++ (codes "=" ++ password)))
        else none)
unfolding lookup_entry
lookup-password name [] = sym (same_branch (equal name password_name) none)
lookup-password name (c ∷ password) =
    rw (name_of_password (c ∷ password), equal_sym password_name name) refl

-- The child process finds `MYSQL_PWD` only with the password of the request, if there is one, and
-- no variable of the table of cloud credentials; it finds every other variable as the program does.
pub child_env-lookup :
    (name password : Bytes) (environ : List Bytes)
    → lookup_entry name (child_env environ password) ≡ found_in_child name password environ
unfolding child_env dropped
child_env-lookup name password environ =
    lookup-kept name environ (password_entry password)
    ∙ ap (λ mine. hidden_or name mine (lookup_entry name environ)) (lookup-password name password)
    ∙ choose (equal name password_name) (member name cloud_credential_environment) _
        (lookup_entry name environ)
