-- ===== src/Workspace/Sanitizing.antt =====
-- packages/workspace/src/index.ts: which tabs remain of a stored state.
use myadmin.Common.{
  String, ◌≡◌, refl, subst, Bool, true, false, List, [], ◌∷◌, arith, eq_iff, if◌then◌else◌, nat_eq,
  string_eq, text_eq, any, filter, All, All-filter,
}
use myadmin.Common.Dict.{lookup}
use myadmin.Workspace.State.{Tab, WorkspaceState, has_id}
use myadmin.Workspace.Persistence.{is_retained, sanitize_workspace_state}
use myadmin.Workspace.Active.{IsConsistent, active-IsConsistent, default-IsConsistent}

picked :
    (b : Bool) (active first : String) (xs : List Tab)
    → (b ≡ true → any (has_id active) xs ≡ true)
    → any (has_id first) xs ≡ true
    → any (has_id (if b then active else first)) xs ≡ true
picked true active first xs h g = h refl
picked false active first xs h g = g

module _ (valid_connection : String → Bool) where
  retained_cases :
      (s : WorkspaceState) (kept : List Tab)
      → filter (is_retained valid_connection) s.tabs ≡ kept
      → All
          (λ t. is_retained valid_connection t ≡ true)
          (sanitize_workspace_state valid_connection s).state.tabs
        × IsConsistent (sanitize_workspace_state valid_connection s).state
  unfolding lookup sanitize_workspace_state
  retained_cases s [] e = rw (e, sanitize_workspace_state) ((refl, tt), default-IsConsistent)
  retained_cases s (first ∷ others) e =
      rw (e, sanitize_workspace_state)
        (
          subst (All (λ t. is_retained valid_connection t ≡ true)) e
              (All-filter (is_retained valid_connection) s.tabs),
          active-IsConsistent _ (
              picked (any (has_id s.active_tab_id) (first ∷ others)) s.active_tab_id first.id
                (first ∷ others) (λ e. e) (ground (arith, eq_iff first.id first.id))),
        )

  -- What sanitizing leaves is usable: no tab refers to a connection that is not valid, and the active
  -- tab is one of the tabs.
  pub sanitize_workspace_state-IsConsistent :
      (s : WorkspaceState)
      → All
          (λ t. is_retained valid_connection t ≡ true)
          (sanitize_workspace_state valid_connection s).state.tabs
        × IsConsistent (sanitize_workspace_state valid_connection s).state
  sanitize_workspace_state-IsConsistent s =
      retained_cases s (filter (is_retained valid_connection) s.tabs) refl
