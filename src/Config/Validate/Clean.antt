-- ===== src/Config/Validate/Clean.antt =====
-- internal/config/validate.go: what single checks that append no error say.
use ezdbbackup.Common.{
  ℕ, suc, ◌≡◌, refl, ◌⊎◌, inl, inr, Bool, true, false, not, ◌&&◌, ◌||◌, Option, none, some, List,
  [], ◌∷◌, ◌++◌, String, arith, any, All, if◌then◌else◌,
}
use ezdbbackup.Common.Bytes.{Bytes, is_empty}
use ezdbbackup.Config.Types.{DatabaseSelection}
use ezdbbackup.Config.Secrets.{SecretRef}
use ezdbbackup.Config.Findings.{Finding, has_errors, job_error}
use ezdbbackup.Config.DumpOptions.{conflicting_dump_argument}
use ezdbbackup.Config.Checks.{
  is_abs, unless, database_error, indexed_error, validate_absolute_path, validate_secret_ref,
  validate_database_names, validate_databases, validate_extra_args,
}

unfoldable pub IsClean : List Finding → Type 0
IsClean fs = has_errors fs ≡ false

no_left : (a b : Bool) → (a || b) ≡ false → (a ≡ false) × (b ≡ false)
no_left a b h = ground arith

pub IsClean-parts : (xs ys : List Finding) → IsClean (xs ++ ys) → IsClean xs × IsClean ys
unfolding IsClean
IsClean-parts [] ys h = (refl, h)
IsClean-parts (f ∷ xs) ys h =
    let (a, b) = no_left (not f.warning) (any (λ f. not f.warning) (xs ++ ys)) h in
    let (c, d) = IsClean-parts xs ys b in (rw a c, d)

pub unless-IsClean :
    (b : Bool) (job path message : Bytes)
    → IsClean (unless b (job_error job path message))
    → b ≡ true
unfolding IsClean
unless-IsClean true job path message h = refl
unless-IsClean false job path message h = cc

pub is_false : (b : Bool) → not b ≡ true → b ≡ false
is_false b h = ground arith

abbrev pub IsAbsolute : Bytes → Type 0
IsAbsolute path = (not (is_empty path) && is_abs path) ≡ true

-- at most one of the two sources, and an absolute path of the file
pub record IsSecretRef (secret : SecretRef) : Type 0 where
  pub one_source : (is_empty secret.literal || is_empty secret.file) ≡ true
  pub file_absolute : (is_empty secret.file || is_abs secret.file) ≡ true

pub secret_ref :
    (job path : Bytes) (secret : SecretRef)
    → IsClean (validate_secret_ref job path secret)
    → IsSecretRef secret
unfolding validate_secret_ref
secret_ref job path secret h =
    let (a, b) = IsClean-parts _ _ h in
    record { one_source = unless-IsClean _ _ _ _ a; file_absolute = unless-IsClean _ _ _ _ b }

pub absolute :
    (job path value : Bytes) → IsClean (validate_absolute_path job path value) → IsAbsolute value
unfolding validate_absolute_path
absolute job path value h = unless-IsClean _ _ _ _ h

pub extra_args :
    (job base : Bytes) (index : ℕ) (args : List Bytes)
    → IsClean (validate_extra_args job base index args)
    → All (λ arg. conflicting_dump_argument arg ≡ false) args
unfolding validate_extra_args
extra_args job base index [] h = tt
extra_args job base index (arg ∷ args) h =
    let (a, b) = IsClean-parts _ _ h in
    (is_false _ (unless-IsClean _ _ _ _ a), extra_args job base (suc index) args b)

clean_database :
    (job path : Bytes) (problem : Option String)
    → IsClean (indexed_error job path problem)
    → problem ≡ none
unfolding IsClean
clean_database job path none h = refl
clean_database job path (some message) h = cc

database_names :
    (job base : Bytes) (index : ℕ) (names : List Bytes)
    → IsClean (validate_database_names job base index names)
    → All (λ name. database_error name ≡ none) names
unfolding validate_database_names
database_names job base index [] h = tt
database_names job base index (name ∷ names) h =
    let (a, b) = IsClean-parts _ _ h in
    (clean_database _ _ (database_error name) a, database_names job base (suc index) names b)

-- all databases and no names, or names and each of them fit for an argument
abbrev pub IsSelection : DatabaseSelection → Type 0
IsSelection d =
    ((d.every ≡ true) × (is_empty d.names ≡ true))
    ⊎ ((d.every ≡ false)
        × (is_empty d.names ≡ false)
        × All (λ name. database_error name ≡ none) d.names)

pub selection :
    (job base : Bytes) (every : Bool) (names : List Bytes)
    → IsClean (validate_databases job base (record { every = every; names = names }))
    → IsSelection (record { every = every; names = names })
unfolding validate_databases IsClean
selection job base true [] h = inl (refl, refl)
selection job base true (name ∷ names) h = cc
selection job base false [] h = cc
selection job base false (name ∷ names) h =
    inr (refl, refl, database_names job base 0 (name ∷ names) h)

pub IsClean-if :
    (b : Bool) (job path message : Bytes) (fs : List Finding)
    → IsClean (if b then job_error job path message else fs)
    → (b ≡ false) × IsClean fs
unfolding IsClean
IsClean-if true job path message fs h = cc
IsClean-if false job path message fs h = (refl, h)
