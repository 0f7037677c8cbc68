-- ===== src/Workspace/Tests.antt =====
-- A history of a workspace, and the theorems at it.
use myadmin.Common.{
  String, ◌≡◌, refl, Bool, true, none, some, [], ◌∷◌, ◌==◌, nat_eq, string_eq, text_eq, All,
}
use myadmin.Common.Dict.{lookup}
use myadmin.Workspace.State.{Tab, text, data_browser, WorkspaceState, default_state}
use myadmin.Workspace.Refs.{Host}
use myadmin.Workspace.Store.{open_tab, close_tab}
use myadmin.Workspace.Persistence.{
  is_retained, persistence_snapshot, restore, sanitize_workspace_state,
}
use myadmin.Workspace.Active.{IsConsistent}
use myadmin.Workspace.Steps.{opens, closes, start, next, reachable-restore}
use myadmin.Workspace.Sanitizing.{sanitize_workspace_state-IsConsistent}

abbrev silent : Host
silent = record {
  parse = λ s. none;
  stringify = λ r. "{}";
  search_ref = λ s. none;
  with_ref = λ r s. none;
}

abbrev rows : Tab
rows = record { id = "rows"; type = data_browser; title = "Rows"; context = [] }

abbrev closed : WorkspaceState
closed = (close_tab "workspace" (open_tab rows default_state)).0

reachable-restore_example :
    IsConsistent closed
    × (true ≡ true
        → restore (λ s. true) (some (persistence_snapshot closed))
          ≡ (persistence_snapshot closed, none))
reachable-restore_example =
    reachable-restore silent (λ s. true) closed
      (next (next start (opens rows)) (closes "workspace"))

-- The state of a client whose connection was deleted.
abbrev orphaned : WorkspaceState
orphaned = record default_state {
  tabs = record rows { context = ("connectionId", text "old") ∷ [] } ∷ rows ∷ [];
  active_tab_id = "rows";
  active_connection_id = some "old";
}

abbrev is_new : String → Bool
is_new id = id == "new"

sanitize_workspace_state-IsConsistent_example :
    All (λ t. is_retained is_new t ≡ true) (sanitize_workspace_state is_new orphaned).state.tabs
    × IsConsistent (sanitize_workspace_state is_new orphaned).state
sanitize_workspace_state-IsConsistent_example =
    sanitize_workspace_state-IsConsistent is_new orphaned

-- Where a tab remains, the active connection stays though it is not valid.
dead_connection_kept :
    (sanitize_workspace_state is_new orphaned).state.active_connection_id ≡ some "old"
unfolding sanitize_workspace_state lookup
dead_connection_kept = refl
