-- ===== src/Report/Targets.antt =====
-- resource/amend.go: `RegisteredWatchTargets`, what a merged reload is ordered behind.
pub mod Exact
use gonf.Base.{
  Bool, true, false, not, ◌&&◌, List, [], ◌∷◌, ◌++◌, Bytes, bytes_eq, member, Option, none, some,
  if◌then◌else◌,
}
use gonf.Report.{is_some, directory_note_path, watch_covers}

-- `add`; an id is seen if it is in `out`.
unfoldable pub add_target : Bytes → List Bytes → List Bytes
add_target id out = if member id out then out else out ++ (id ∷ [])

-- The inner loop, over the registered ids in their order.
unfoldable pub add_covered : Bytes → List Bytes → List Bytes → List Bytes
add_covered w [] out = out
add_covered w (id ∷ ids) out =
    add_covered w ids (if not (bytes_eq id w) && watch_covers w id then add_target id out else out)

-- The outer loop, over the watches.
unfoldable pub targets_from : List Bytes → List Bytes → List Bytes → List Bytes
targets_from ids [] out = out
targets_from ids (w ∷ watch) out =
    let found = if member w ids then add_target w out else out in
    targets_from ids watch
      (if is_some (directory_note_path w) then add_covered w ids found else found)

-- `RegisteredWatchTargets`; `ids` are the registered ids in ascending order.
unfoldable pub registered_watch_targets : List Bytes → List Bytes → List Bytes
registered_watch_targets ids watch = targets_from ids watch []
