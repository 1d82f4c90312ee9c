-- ===== src/Storage/Key.antt =====
-- internal/storage/key.go. The two formats of the time, which package `time` writes, are parameters.
use ezdbbackup.Common.{List, [], ◌∷◌, ◌++◌, ◌==◌, if◌then◌else◌}
use ezdbbackup.Common.Bytes.{Bytes, codes, is_empty, join, fields_func}

-- A time in UTC, in the formats `2006/01/02` and `20060102T150405.000000000Z`.
pub record Stamp : Type 0 where
  pub date_path : Bytes
  pub timestamp : Bytes

-- the prefix without empty segments
unfoldable pub clean_prefix : Bytes → Bytes
clean_prefix prefix = join (codes "/") (fields_func (λ r. r == b'/') prefix)

unfoldable pub key_parts : Bytes → Stamp → List Bytes
key_parts job started =
    job ∷ started.date_path ∷ (job ++ (codes "-" ++ (started.timestamp ++ codes ".sql.gz"))) ∷ []

unfoldable pub object_key : Bytes → Bytes → Stamp → Bytes
unfolding clean_prefix key_parts
object_key prefix job started =
    let parts = key_parts job started in
    join (codes "/") (if is_empty (clean_prefix prefix) then parts else clean_prefix prefix ∷ parts)
