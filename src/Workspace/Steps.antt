-- ===== src/Workspace/Steps.antt =====
-- apps/web/src/app/core/state/workspace.store.ts: what can happen to the workspace of a client, and
-- what it stores.
use myadmin.Common.{String, ◌≡◌, refl, Bool, true, none, some, arith, nat_eq, string_eq}
use myadmin.Workspace.State.{Context, Tab, WorkspaceState, default_state}
use myadmin.Workspace.Refs.{WorkspaceTableRef, Host}
use myadmin.Workspace.Store.{
  open_tab, activate_tab, update_tab_context, mark_table_tabs_stale, update_table_references,
  close_table_tabs, close_tab, patched, marked, moved, Tenths, set_sidebar_width, set_bottom_height,
  toggle_sidebar, toggle_bottom_panel,
}
use myadmin.Workspace.Persistence.{
  Candidate, is_consistent, inspect_workspace_state, migrate_workspace_state, restore,
  persistence_snapshot,
}
use myadmin.Workspace.Active.{
  IsConsistent, mapped-IsConsistent, default-IsConsistent, open_tab-IsConsistent,
  activate_tab-IsConsistent, close_tab-IsConsistent, close_table_tabs-IsConsistent,
}

module _ (host : Host) (check : WorkspaceState → Bool) where
  pub data Step (s : WorkspaceState) : WorkspaceState → Type 0 where
    opens : (tab : Tab) → Step s (open_tab tab s)
    activates : (id : String) → Step s (activate_tab id s).0
    updates : (id : String) (patch : Context) → Step s (update_tab_context id patch s)
    marks : (ref : WorkspaceTableRef) → Step s (mark_table_tabs_stale host ref s)
    renames : (old new : WorkspaceTableRef) → Step s (update_table_references host old new s)
    closes : (id : String) → Step s (close_tab id s).0
    drops : (ref : WorkspaceTableRef) → Step s (close_table_tabs host ref s).0
    widens : (width : Tenths) → Step s (set_sidebar_width width s)
    heightens : (height : Tenths) → Step s (set_bottom_height height s)
    folds_sidebar : Step s (toggle_sidebar s)
    folds_bottom : Step s (toggle_bottom_panel s)
    restores : (value : Candidate) → Step s (restore check value).0

  pub data Reach : WorkspaceState → Type 0 where
    start : Reach default_state
    next : {s t : WorkspaceState} → Reach s → Step s t → Reach t

  restore-IsConsistent : (value : Candidate) → IsConsistent (restore check value).0
  unfolding restore migrate_workspace_state inspect_workspace_state
  restore-IsConsistent none = default-IsConsistent
  restore-IsConsistent (some s) = ground (arith, default-IsConsistent)

  Step-IsConsistent : {s t : WorkspaceState} → Step s t → IsConsistent s → IsConsistent t
  unfolding update_tab_context mark_table_tabs_stale update_table_references set_sidebar_width
      set_bottom_height toggle_sidebar toggle_bottom_panel is_consistent
  Step-IsConsistent {s} (opens tab) c = open_tab-IsConsistent tab _
  Step-IsConsistent {s} (activates id) c = activate_tab-IsConsistent id _ c
  Step-IsConsistent {s} (updates id patch) c =
      mapped-IsConsistent (patched id patch) s (λ x. ground arith) c
  Step-IsConsistent {s} (marks ref) c =
      mapped-IsConsistent (marked host ref) s (λ x. ground arith) c
  Step-IsConsistent {s} (renames old new) c =
      mapped-IsConsistent (moved host old new) s (λ x. ground arith) c
  Step-IsConsistent {s} (closes id) c = close_tab-IsConsistent id _ c
  Step-IsConsistent {s} (drops ref) c = close_table_tabs-IsConsistent host ref _ c
  Step-IsConsistent {s} (widens width) c = c
  Step-IsConsistent {s} (heightens height) c = c
  Step-IsConsistent {s} folds_sidebar c = c
  Step-IsConsistent {s} folds_bottom c = c
  Step-IsConsistent {s} (restores value) c = restore-IsConsistent value

  Reach-IsConsistent : {s : WorkspaceState} → Reach s → IsConsistent s
  Reach-IsConsistent start = default-IsConsistent
  Reach-IsConsistent (next r s) = Step-IsConsistent s (Reach-IsConsistent r)

  snapshot-IsConsistent :
      (s : WorkspaceState) → IsConsistent s → IsConsistent (persistence_snapshot s)
  unfolding persistence_snapshot
  snapshot-IsConsistent s c = mapped-IsConsistent _ s (λ x. refl) c

  -- Whatever happens to the workspace, from the default state on, its active tab is one of its tabs
  -- (or there is no tab and no active one), and a snapshot that conforms to the schema is restored
  -- as it was stored.
  pub reachable-restore :
      (s : WorkspaceState)
      → Reach s
      → IsConsistent s
        × (check (persistence_snapshot s) ≡ true
            → restore check (some (persistence_snapshot s)) ≡ (persistence_snapshot s, none))
  unfolding restore migrate_workspace_state inspect_workspace_state
  reachable-restore s r = (
    Reach-IsConsistent r,
    λ valid. ground (arith, snapshot-IsConsistent s (Reach-IsConsistent r)),
  )
