-- ===== src/Workspace/Store.antt =====
-- apps/web/src/app/core/state/workspace.store.ts: the operations on tabs and panels.
use myadmin.Common.{
  ℕ, zero, suc, ◌-◌, min, max, String, Bool, true, false, not, Option, none, some, List, [], ◌∷◌,
  ◌++◌, map, if◌then◌else◌, ◌==◌, nat_eq, string_eq, Result, ok, err, length, get_elem?, any,
  filter, find?, map_option,
}
use myadmin.Common.Dict.{lookup, insert}
use myadmin.Workspace.State.{text, flag, Context, Tab, WorkspaceState, has_id, find_tab}
use myadmin.Workspace.Refs.{WorkspaceTableRef, Host, route_with_table_ref, shows_table}

unfoldable pub active_tab : WorkspaceState → Option Tab
active_tab s = find_tab s.active_tab_id s

unfoldable pub open_tab : Tab → WorkspaceState → WorkspaceState
open_tab tab s = record s {
  tabs = if any (has_id tab.id) s.tabs then s.tabs else s.tabs ++ tab ∷ [];
  active_tab_id = tab.id;
}

unfoldable pub activate_tab : String → WorkspaceState → WorkspaceState × Option Tab
unfolding find_tab
activate_tab id s = elim (find_tab id s) [
  | none ↦ (s, none)
  | some tab ↦ (record s { active_tab_id = id }, some tab)
]

-- `{ ...context, ...patch }`
unfoldable pub merge : Context → Context → Context
merge context [] = context
merge context ((key, value) ∷ patch) = merge (insert key value context) patch

abbrev pub patched : String → Context → Tab → Tab
patched id patch tab =
    if has_id id tab then record tab { context = merge tab.context patch } else tab

unfoldable pub update_tab_context : String → Context → WorkspaceState → WorkspaceState
update_tab_context id patch s = record s { tabs = map (patched id patch) s.tabs }

-- `findIndex`; `none` is -1.
unfoldable pub find_index : (Tab → Bool) → List Tab → Option ℕ
find_index p [] = none
find_index p (tab ∷ tabs) = if p tab then some 0 else map_option suc (find_index p tabs)

abbrev tab_at : List Tab → Option ℕ → Option Tab
tab_at tabs none = none
tab_at tabs (some i) = get_elem? tabs i

-- `(tabs[at] ?? tabs[0]!).id`
abbrev pub first_id : List Tab → Option String
first_id [] = none
first_id (tab ∷ tabs) = some tab.id

abbrev pub id_at : List Tab → Option ℕ → Option String
id_at tabs at = elim (tab_at tabs at) [ some tab ↦ some tab.id | none ↦ first_id tabs ]

-- A method that returns a tab or null, or throws when it reads a property of `undefined`.
pub data Thrown : Type 0 where
  type_error : Thrown

abbrev pub Outcome : Type 0
Outcome = Result Thrown (Option Tab)

-- The state with these tabs, and what the method returns for it.
unfoldable pub show_tabs : List Tab → Option String → WorkspaceState → WorkspaceState × Outcome
show_tabs tabs none s = (s, err type_error)
show_tabs tabs (some next) s =
    (record s { tabs = tabs; active_tab_id = next }, ok (find? (has_id next) tabs))

abbrev before : ℕ → Option ℕ
before zero = none
before (suc i) = some i

unfoldable pub close_tab : String → WorkspaceState → WorkspaceState × Outcome
close_tab id s = elim (find_index (has_id id) s.tabs) [
  | none ↦ (s, ok none)
  | some index ↦
      if length s.tabs == 1
      then (s, ok none)
      else let tabs = filter (λ tab. not (has_id id tab)) s.tabs in
        show_tabs tabs
          (if s.active_tab_id == id then id_at tabs (before index) else some s.active_tab_id) s
]

module _ (host : Host) where
  abbrev pub marked : WorkspaceTableRef → Tab → Tab
  marked ref tab =
      if shows_table host ref tab
      then record tab { context = insert "stale" (flag true) tab.context }
      else tab

  unfoldable pub mark_table_tabs_stale : WorkspaceTableRef → WorkspaceState → WorkspaceState
  mark_table_tabs_stale ref s = record s { tabs = map (marked ref) s.tabs }

  abbrev renamed : WorkspaceTableRef → Tab → Tab
  renamed ref tab = record tab {
    title = ref.name;
    context =
        insert "stale" (flag false)
          (elim (route_with_table_ref host (lookup "route" tab.context) ref) [
            | none ↦ insert "ref" (text (host.stringify ref)) tab.context
            | some route ↦
                insert "route" (text route) (insert "ref" (text (host.stringify ref)) tab.context)
          ]);
  }

  abbrev pub moved : WorkspaceTableRef → WorkspaceTableRef → Tab → Tab
  moved old_ref new_ref tab = if shows_table host old_ref tab then renamed new_ref tab else tab

  unfoldable pub update_table_references :
      WorkspaceTableRef → WorkspaceTableRef → WorkspaceState → WorkspaceState
  update_table_references old_ref new_ref s = record s { tabs = map (moved old_ref new_ref) s.tabs }

  -- The tabs of a table are closed, unless no tab would remain.
  unfoldable pub close_table_tabs : WorkspaceTableRef → WorkspaceState → WorkspaceState × Outcome
  close_table_tabs ref s = elim (find_index (shows_table host ref) s.tabs) [
    | none ↦ (s, ok (active_tab s))
    | some first ↦
        let matching = filter (shows_table host ref) s.tabs in
        let remaining = filter (λ tab. not (shows_table host ref tab)) s.tabs in
        if length remaining == 0
        then (s, ok (active_tab s))
        else show_tabs remaining
            (if any (has_id s.active_tab_id) matching
              then id_at remaining (some (first - 1))
              else some s.active_tab_id)
            s
  ]

-- `Math.round(value * 10)` of the size that is asked for.
pub data Tenths : Type 0 where
  from_zero : ℕ → Tenths
  below_zero : Tenths

unfoldable pub clamp : Tenths → ℕ → ℕ → ℕ
clamp (from_zero n) minimum maximum = min maximum (max minimum n)
clamp below_zero minimum maximum = min maximum minimum

unfoldable pub set_sidebar_width : Tenths → WorkspaceState → WorkspaceState
set_sidebar_width width s = record s {
  panels = record (s.panels) { sidebar_width = clamp width 160 320 };
}

unfoldable pub set_bottom_height : Tenths → WorkspaceState → WorkspaceState
set_bottom_height height s = record s {
  panels = record (s.panels) { bottom_height = clamp height 120 480 };
}

unfoldable pub toggle_sidebar : WorkspaceState → WorkspaceState
toggle_sidebar s = record s {
  panels = record (s.panels) { sidebar_collapsed = not s.panels.sidebar_collapsed };
}

unfoldable pub toggle_bottom_panel : WorkspaceState → WorkspaceState
toggle_bottom_panel s = record s {
  panels = record (s.panels) { bottom_collapsed = not s.panels.bottom_collapsed };
}
