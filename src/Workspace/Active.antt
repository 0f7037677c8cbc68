-- ===== src/Workspace/Active.antt =====
-- apps/web/src/app/core/state/workspace.store.ts: the active tab, whatever is done with the tabs.
use myadmin.Common.{
  ℕ, zero, suc, ◌-◌, String, ◌≡◌, refl, ap, subst, ◌≢◌, inl, inr, Bool, true, false, not, ◌||◌,
  Option, none, some, List, [], ◌∷◌, ◌++◌, map, arith, eq_iff, if◌then◌else◌, ◌==◌, nat_eq,
  string_eq, Bool-cases, Option-cases, length, get_elem?, any, filter, find?, length-map, if_both,
  some-injective,
}
use myadmin.Workspace.State.{default_state, Tab, WorkspaceState, has_id, find_tab}
use myadmin.Workspace.Refs.{WorkspaceTableRef, Host, shows_table}
use myadmin.Workspace.Store.{
  open_tab, activate_tab, close_table_tabs, close_tab, first_id, id_at, Outcome, show_tabs,
  find_index,
}
use myadmin.Workspace.Persistence.{is_consistent}

abbrev pub IsConsistent : WorkspaceState → Type 0
IsConsistent s = is_consistent s ≡ true

module _ (p : Tab → Bool) where
  any-append : (xs ys : List Tab) → any p (xs ++ ys) ≡ (any p xs || any p ys)
  any-append [] ys = refl
  any-append (x ∷ xs) ys = ground (arith, any-append xs ys)

  any-map :
      (f : Tab → Tab) (xs : List Tab) → ((x : Tab) → p (f x) ≡ p x) → any p (map f xs) ≡ any p xs
  any-map f [] h = refl
  any-map f (x ∷ xs) h = ground (arith, h x, any-map f xs h)

  any-filter :
      (q : Tab → Bool) (xs : List Tab)
      → any p xs ≡ true
      → any p (filter q xs) ≡ false
      → any p (filter (λ x. not (q x)) xs) ≡ true
  any-filter q [] h n = cc
  any-filter q (x ∷ xs) h n = ground (arith, any-filter q xs)

any-get : (xs : List Tab) (i : ℕ) (t : Tab) → get_elem? xs i ≡ some t → any (has_id t.id) xs ≡ true
any-get [] i t h = cc
any-get (x ∷ xs) zero t h = ground (arith, eq_iff x.id t.id)
any-get (x ∷ xs) (suc i) t h = ground (arith, any-get xs i t)

any-keep :
    (id gone : String) (xs : List Tab)
    → any (has_id id) xs ≡ true
    → id ≢ gone
    → any (has_id id) (filter (λ x. not (has_id gone x)) xs) ≡ true
any-keep id gone [] h n = cc
any-keep id gone (x ∷ xs) h n =
    ground (arith, any-keep id gone xs, eq_iff x.id id, eq_iff x.id gone)

any-length : (p : Tab → Bool) (xs : List Tab) → any p xs ≡ true → (length xs == 0) ≡ false
any-length p [] h = cc
any-length p (x ∷ xs) h = ground arith

pub active-IsConsistent :
    (s : WorkspaceState) → any (has_id s.active_tab_id) s.tabs ≡ true → IsConsistent s
unfolding is_consistent
active-IsConsistent s h = rw (any-length (has_id s.active_tab_id) s.tabs h) h

first_id-any :
    (tabs : List Tab) (id : String) → first_id tabs ≡ some id → any (has_id id) tabs ≡ true
first_id-any [] id h = cc
first_id-any (x ∷ xs) id h = ground (arith, eq_iff x.id id)

id_at-any :
    (tabs : List Tab) (at : Option ℕ) (id : String)
    → id_at tabs at ≡ some id
    → any (has_id id) tabs ≡ true
id_at-any tabs none id h = first_id-any tabs id h
id_at-any tabs (some i) id h = elim (Option-cases (get_elem? tabs i)) [
  | inl gone ↦ first_id-any tabs id (ground arith)
  | inr (t, e) ↦
      let same : t.id ≡ id = ground arith in
      subst (λ j. any (has_id j) tabs ≡ true) same (any-get tabs i t e)
]

show_tabs-IsConsistent :
    (tabs : List Tab) (next : Option String) (s : WorkspaceState)
    → IsConsistent s
    → ((id : String) → next ≡ some id → any (has_id id) tabs ≡ true)
    → IsConsistent (show_tabs tabs next s).0
unfolding show_tabs
show_tabs-IsConsistent tabs none s c h = c
show_tabs-IsConsistent tabs (some id) s c h = active-IsConsistent _ (h id refl)

-- The operations that change no id.
pub mapped-IsConsistent :
    (f : Tab → Tab) (s : WorkspaceState)
    → ((x : Tab) → (f x).id ≡ x.id)
    → IsConsistent s
    → IsConsistent (record s { tabs = map f s.tabs })
unfolding is_consistent
mapped-IsConsistent f s same c =
    rw
      (
        length-map s.tabs f,
        any-map (has_id s.active_tab_id) f s.tabs (λ x. ap (λ i. i == s.active_tab_id) (same x)),
      )
      c

pub open_tab-IsConsistent : (tab : Tab) (s : WorkspaceState) → IsConsistent (open_tab tab s)
unfolding open_tab
open_tab-IsConsistent tab s = elim (Bool-cases (any (has_id tab.id) s.tabs)) [
  | inl there ↦ rw there (active-IsConsistent _ there)
  | inr new ↦ rw new (
      active-IsConsistent _
        (ground (arith, any-append (has_id tab.id) s.tabs (tab ∷ []), eq_iff tab.id tab.id)))
]

find?-any : (p : Tab → Bool) (xs : List Tab) (t : Tab) → find? p xs ≡ some t → any p xs ≡ true
find?-any p [] t h = cc
find?-any p (x ∷ xs) t h = ground (arith, find?-any p xs t)

pub activate_tab-IsConsistent :
    (id : String) (s : WorkspaceState) → IsConsistent s → IsConsistent (activate_tab id s).0
unfolding activate_tab find_tab
activate_tab-IsConsistent id s c = elim (Option-cases (find? (has_id id) s.tabs)) [
  | inl none_there ↦ rw (none_there, activate_tab) c
  | inr (t, e) ↦ rw (e, activate_tab) (active-IsConsistent _ (find?-any (has_id id) s.tabs t e))
]

-- Where there are tabs, one of them is active.
consistent_active :
    (p : Tab → Bool) (s : WorkspaceState)
    → IsConsistent s
    → any p s.tabs ≡ true
    → any (has_id s.active_tab_id) s.tabs ≡ true
unfolding is_consistent
consistent_active p s c h = ground (arith, any-length p s.tabs h)

find_index-any :
    (p : Tab → Bool) (xs : List Tab) (i : ℕ) → find_index p xs ≡ some i → any p xs ≡ true
unfolding find_index
find_index-any p [] i h = cc
find_index-any p (x ∷ xs) i h = elim (Bool-cases (p x)) [
  | inl here ↦ ground arith
  | inr later ↦ elim (Option-cases (find_index p xs)) [
    | inl gone ↦ ground arith
    | inr (j, e) ↦ ground (arith, find_index-any p xs j e)
  ]
]

next_tab :
    (b : Bool) (tabs : List Tab) (at : Option ℕ) (active id : String)
    → (b ≡ false → any (has_id active) tabs ≡ true)
    → (if b then id_at tabs at else some active) ≡ some id
    → any (has_id id) tabs ≡ true
next_tab true tabs at active id stays h = id_at-any tabs at id h
next_tab false tabs at active id stays h =
    subst (λ j. any (has_id j) tabs ≡ true) (some-injective active id h) (stays refl)

pub close_tab-IsConsistent :
    (id : String) (s : WorkspaceState) → IsConsistent s → IsConsistent (close_tab id s).0
unfolding close_tab
close_tab-IsConsistent id s c = elim (Option-cases (find_index (has_id id) s.tabs)) [
  | inl gone ↦ rw (gone, close_tab) c
  | inr (i, e) ↦
      rw (e, close_tab)
        (if_both (λ (r : WorkspaceState × Outcome). IsConsistent r.0) _ c
          (show_tabs-IsConsistent _ _ s c (λ next.
            next_tab (s.active_tab_id == id) _ _ s.active_tab_id next (λ differs.
              any-keep s.active_tab_id id s.tabs
                (consistent_active (has_id id) s c (find_index-any (has_id id) s.tabs i e))
                (λ same. ground (arith, eq_iff s.active_tab_id id))))))
]

pub close_table_tabs-IsConsistent :
    (host : Host) (ref : WorkspaceTableRef) (s : WorkspaceState)
    → IsConsistent s
    → IsConsistent (close_table_tabs host ref s).0
unfolding close_table_tabs
close_table_tabs-IsConsistent host ref s c =
    elim (Option-cases (find_index (shows_table host ref) s.tabs)) [
      | inl gone ↦ rw (gone, close_table_tabs) c
      | inr (i, e) ↦
          rw (e, close_table_tabs)
            (if_both (λ (r : WorkspaceState × Outcome). IsConsistent r.0) _ c
              (show_tabs-IsConsistent _ _ s c (λ next.
                next_tab (any (has_id s.active_tab_id) (filter (shows_table host ref) s.tabs)) _
                  (some (i - 1)) s.active_tab_id next
                  (any-filter (has_id s.active_tab_id) (shows_table host ref) s.tabs (
                    consistent_active (shows_table host ref) s c
                      (find_index-any (shows_table host ref) s.tabs i e))))))
    ]

pub default-IsConsistent : IsConsistent default_state
unfolding is_consistent
default-IsConsistent = refl
