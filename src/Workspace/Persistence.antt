-- ===== src/Workspace/Persistence.antt =====
-- packages/workspace/src/index.ts, and what apps/web/src/app/core/state/workspace.store.ts stores and
-- restores. The TypeBox schema is a parameter.
use myadmin.Common.{
  ℕ, ◌-◌, String, Bool, true, false, ◌&&◌, Option, none, some, List, [], ◌∷◌, ◌++◌, map,
  if◌then◌else◌, ◌==◌, nat_eq, string_eq, text_eq, Result, ok, err, length, any, filter,
}
use myadmin.Common.Dict.{lookup}
use myadmin.Workspace.State.{text, flag, Context, Tab, WorkspaceState, default_state, has_id}

pub data InvalidReason : Type 0 where
  unknown_version invalid_state : InvalidReason

-- A value that is handed in: a state of the current version, or something else. `none` stands for
-- what is no record of version 1; the schema decides on the rest.
abbrev pub Candidate : Type 0
Candidate = Option WorkspaceState

pub record SanitizedWorkspaceState : Type 0 where
  pub state : WorkspaceState
  pub skipped_tabs : ℕ

unfoldable pub is_consistent : WorkspaceState → Bool
is_consistent s =
    if length s.tabs == 0 then s.active_tab_id == "" else any (has_id s.active_tab_id) s.tabs

module _ (check : WorkspaceState → Bool) where
  unfoldable pub inspect_workspace_state : Candidate → Result InvalidReason WorkspaceState
  inspect_workspace_state none = err unknown_version
  inspect_workspace_state (some s) = if check s && is_consistent s then ok s else err invalid_state

  unfoldable pub migrate_workspace_state : Candidate → WorkspaceState × Option InvalidReason
  unfolding inspect_workspace_state
  migrate_workspace_state value = elim (inspect_workspace_state value) [
    | ok s ↦ (s, none)
    | err reason ↦ (default_state, some reason)
  ]

  -- `restore` of the store.
  unfoldable pub restore : Candidate → WorkspaceState × Option InvalidReason
  restore value = migrate_workspace_state value

module _ (valid_connection : String → Bool) where
  abbrev pub is_retained : Tab → Bool
  is_retained tab = elim (lookup "connectionId" tab.context) [
    | none ↦ true
    | some (text id) ↦ valid_connection id
    | some _ ↦ false
  ]

  -- The connection that stays active, if it is valid.
  abbrev pub valid_active : Option String → Option String
  valid_active none = none
  valid_active (some id) = if valid_connection id then some id else none

  -- The result starts as a copy of the state: a property that is not set anew is kept.
  unfoldable pub sanitize_workspace_state : WorkspaceState → SanitizedWorkspaceState
  sanitize_workspace_state s =
      let retained = filter is_retained s.tabs in
      let skipped = length s.tabs - length retained in
      elim retained [
        | [] ↦ record { state = default_state; skipped_tabs = skipped }
        | first ∷ others ↦ record {
          state = record s {
            tabs = first ∷ others;
            active_tab_id =
                if any (has_id s.active_tab_id) (first ∷ others) then s.active_tab_id else first.id;
            active_connection_id = elim (valid_active s.active_connection_id) [
              | none ↦ s.active_connection_id
              | some id ↦ some id
            ];
          };
          skipped_tabs = skipped;
        }
      ]

-- `persistableContext`: the keys that it copies, in its order.
abbrev persisted_keys : List String
persisted_keys =
    "route" ∷ "connectionId" ∷ "database" ∷ "schema" ∷ "draftSql" ∷ "connectionMissing"
    ∷ "savedQueryName" ∷ []

unfoldable pub copy_keys : List String → Context → Context
copy_keys [] context = []
copy_keys (key ∷ keys) context =
    let rest = copy_keys keys context in
    elim (lookup key context) [
      | some (text s) ↦ (key, text s) ∷ rest
      | some (flag b) ↦ (key, flag b) ∷ rest
      | _ ↦ rest
    ]

unfoldable pub persistable_context : Context → Context
persistable_context context =
    copy_keys persisted_keys context
    ++ elim (lookup "stale" context) [ some (flag b) ↦ ("stale", flag b) ∷ [] | _ ↦ [] ]

unfoldable pub persistence_snapshot : WorkspaceState → WorkspaceState
persistence_snapshot s = record s {
  tabs = map (λ (tab : Tab). record tab { context = persistable_context tab.context }) s.tabs;
}
