-- ===== src/Config/DumpOptions.antt =====
-- internal/config/validate.go: the extra arguments of mysqldump that conflict with managed settings.
pub mod Conflicts
use ezdbbackup.Common.{
  ℕ, zero, suc, Bool, true, false, not, ◌&&◌, ◌||◌, Option, none, some, List, [], ◌∷◌, any, length,
  ◌==◌, if◌then◌else◌,
}
use ezdbbackup.Common.Bytes.{Bytes, codes, equal, has_prefix, member}
use ezdbbackup.Common.Utf8.{has_control}
use ezdbbackup.Dump.LongName.{long_name}

-- `strings.TrimPrefix`, as an option: none where the prefix is not there
unfoldable pub without_prefix : Bytes → Bytes → Option Bytes
without_prefix s [] = some s
without_prefix [] (_ ∷ _) = none
without_prefix (c ∷ s) (p ∷ ps) = let rest = without_prefix s ps in if c == p then rest else none

-- What one round of the loop finds: the prefix `loose-`, another one with what is behind it, or none.
pub data Found : Type 0 where
  loose nothing : Found
  stripped : Bytes → Found

abbrev or_else : Option Bytes → Found → Found
or_else (some rest) next = stripped rest
or_else none next = next

abbrev is_loose : Option Bytes → Found
is_loose (some rest) = loose
is_loose none = nothing

unfoldable pub find_prefix : Bytes → Found
find_prefix base = or_else (without_prefix base (codes "enable-")) (
    or_else (without_prefix base (codes "disable-")) (
      or_else (without_prefix base (codes "skip-")) (
        or_else (without_prefix base (codes "maximum-"))
          (is_loose (without_prefix base (codes "loose-"))))))

-- The loop over the prefixes, where each round but the last makes the name shorter: the name's length
-- is enough fuel. `none` is the return at `loose-`.
abbrev strip_found : (Bytes → Option Bytes) → Bytes → Found → Option Bytes
strip_found again base nothing = some base
strip_found again base loose = none
strip_found again base (stripped rest) = again rest

unfoldable pub strip_prefixes : ℕ → Bytes → Option Bytes
unfolding find_prefix without_prefix
strip_prefixes zero base = some base
strip_prefixes (suc fuel) base = strip_found (strip_prefixes fuel) base (find_prefix base)

pub forbidden_dump_options : List Bytes
forbidden_dump_options =
    codes "all-databases"
    ∷ codes "databases"
    ∷ codes "debug"
    ∷ codes "debug-check"
    ∷ codes "debug-info"
    ∷ codes "defaults-extra-file"
    ∷ codes "defaults-file"
    ∷ codes "defaults-group-suffix"
    ∷ codes "delete-master-logs"
    ∷ codes "delete-source-logs"
    ∷ codes "dir"
    ∷ codes "dump-replica"
    ∷ codes "dump-slave"
    ∷ codes "fields-enclosed-by"
    ∷ codes "fields-escaped-by"
    ∷ codes "fields-optionally-enclosed-by"
    ∷ codes "fields-terminated-by"
    ∷ codes "flush-logs"
    ∷ codes "flush-privileges"
    ∷ codes "help"
    ∷ codes "host"
    ∷ codes "ignore-database"
    ∷ codes "ignore-table"
    ∷ codes "ignore-table-data"
    ∷ codes "init-command"
    ∷ codes "lines-terminated-by"
    ∷ codes "log-error"
    ∷ codes "login-path"
    ∷ codes "no-defaults"
    ∷ codes "no-login-paths"
    ∷ codes "output"
    ∷ codes "password"
    ∷ codes "password1"
    ∷ codes "password2"
    ∷ codes "password3"
    ∷ codes "port"
    ∷ codes "print-defaults"
    ∷ codes "result-file"
    ∷ codes "system"
    ∷ codes "tab"
    ∷ codes "tables"
    ∷ codes "tee"
    ∷ codes "user"
    ∷ codes "users"
    ∷ codes "version"
    ∷ codes "wildcards"
    ∷ []

-- `forbiddenDumpOptionOrAbbreviation`
unfoldable pub forbidden_or_abbreviation : Bytes → Bool
unfolding forbidden_dump_options
forbidden_or_abbreviation name =
    any (λ forbidden. equal name forbidden || has_prefix forbidden name) forbidden_dump_options

-- behind the loop; the only option of `safeExactDumpOptions` is `all`
unfoldable pub conflicting_base : Bytes → Option Bytes → Bool
unfolding forbidden_or_abbreviation
conflicting_base name none = true
conflicting_base name (some base) =
    if equal name (codes "all")
    then false
    else member base forbidden_dump_options
      || has_prefix base (codes "password")
      || forbidden_or_abbreviation base
      || has_prefix base (codes "init-command-")

abbrev conflicting_name : Option Bytes → Bool
conflicting_name none = true
conflicting_name (some name) = conflicting_base name (strip_prefixes (length name) name)

-- `conflictingDumpArgument`
unfoldable pub conflicting_dump_argument : Bytes → Bool
unfolding conflicting_base strip_prefixes
conflicting_dump_argument arg = if has_control arg then true else conflicting_name (long_name arg)
