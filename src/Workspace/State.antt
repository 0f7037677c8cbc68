-- ===== src/Workspace/State.antt =====
-- The state that apps/web/src/app/core/state/workspace.store.ts and packages/workspace/src/index.ts
-- share. The size of a panel is in tenths, as the store rounds it. A context is a record with any
-- keys; of its values only texts and Booleans matter.
use myadmin.Common.{
  ℕ, String, Bool, false, Option, none, List, [], ◌∷◌, ◌==◌, nat_eq, string_eq, find?,
}

pub data Value : Type 0 where
  text : String → Value
  flag : Bool → Value
  other_value : Value

abbrev pub Context : Type 0
Context = List (String × Value)

pub data TabType : Type 0 where
  workspace table_designer data_browser : TabType
  other_type : String → TabType

pub record Tab : Type 0 where
  pub id : String
  pub type : TabType
  pub title : String
  pub context : Context

pub record Panels : Type 0 where
  pub sidebar_width : ℕ
  pub bottom_height : ℕ
  pub sidebar_collapsed : Bool
  pub bottom_collapsed : Bool

pub record WorkspaceState : Type 0 where
  pub tabs : List Tab
  pub active_tab_id : String
  pub panels : Panels
  pub active_connection_id : Option String

-- `DEFAULT_WORKSPACE_STATE`
abbrev pub default_state : WorkspaceState
default_state = record {
  tabs =
      record {
        id = "workspace";
        type = workspace;
        title = "Workspace";
        context = ("route", text "/workspace") ∷ [];
      }
      ∷ [];
  active_tab_id = "workspace";
  panels = record {
    sidebar_width = 220;
    bottom_height = 220;
    sidebar_collapsed = false;
    bottom_collapsed = false;
  };
  active_connection_id = none;
}

abbrev pub has_id : String → Tab → Bool
has_id id tab = tab.id == id

unfoldable pub find_tab : String → WorkspaceState → Option Tab
find_tab id s = find? (has_id id) s.tabs
