-- ===== src/Cron/Marker.antt =====
-- `hasOwnershipMarker` of internal/cron/manager.go.
use ezdbbackup.Common.{Bool, true, false, not, List, [], ◌∷◌, if◌then◌else◌}
use ezdbbackup.Common.Bytes.{Bytes, codes, equal, has_prefix, split}

-- `OwnershipMarker` of render.go
abbrev pub ownership_marker : Bytes
ownership_marker = codes "# ezdbbackup-managed: v1"

-- the loop, over the lines
unfoldable pub marker_in : List Bytes → Bool
marker_in [] = false
marker_in (line ∷ lines) =
    if equal line ownership_marker
    then true
    else if not (has_prefix line (codes "#"))
    then false
    else marker_in lines

-- A line feed at the end leaves one more piece, which is empty; it ends the loop with `false`, as
-- the end of the content does.
unfoldable pub has_ownership_marker : Bytes → Bool
unfolding marker_in
has_ownership_marker content = marker_in (split b'\n' content)
