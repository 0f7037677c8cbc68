-- ===== src/Workspace/Refs.antt =====
-- apps/web/src/app/core/state/workspace.store.ts: the tables that tabs show.
use myadmin.Common.{
  String, Bool, true, false, not, ◌&&◌, Option, none, some, List, ◌==◌, nat_eq, string_eq, is_some,
  or_default,
}
use myadmin.Common.Dict.{lookup}
use myadmin.Workspace.State.{Value, text, Context, table_designer, data_browser, Tab}

pub record WorkspaceTableRef : Type 0 where
  pub database : String
  pub schema : Option String
  pub name : String

-- A parsed JSON value; of the properties of an object, those that are texts have a value here.
pub data Json : Type 0 where
  json_text : String → Json
  json_object : List (String × Option String) → Json
  json_other : Json

-- The built-in operations on JSON and on URLs; `none` is what they throw. `search_ref` is
-- `new URL(route, …).searchParams.get('ref')`, and `with_ref` sets that parameter and gives the
-- path and the search part.
pub record Host : Type 0 where
  pub parse : String → Option Json
  pub stringify : WorkspaceTableRef → String
  pub search_ref : String → Option (Option String)
  pub with_ref : String → String → Option String

unfoldable pub is_table_tab : Tab → Bool
is_table_tab tab = elim tab.type [ table_designer ↦ true | data_browser ↦ true | _ ↦ false ]

abbrev text_field : String → List (String × Option String) → Option String
text_field key fields = or_default (lookup key fields) none

-- The second half of `parseTableRef`, on a parsed value.
unfoldable pub ref_of_json : Json → Option WorkspaceTableRef
ref_of_json (json_text s) = none
ref_of_json json_other = none
ref_of_json (json_object fields) = elim (text_field "database" fields) [
  | none ↦ none
  | some database ↦ elim (text_field "name" fields) [
    | none ↦ none
    | some name ↦
        some (record { database = database; schema = text_field "schema" fields; name = name })
  ]
]

unfoldable pub same_table_ref : Option WorkspaceTableRef → WorkspaceTableRef → Bool
same_table_ref none right = false
same_table_ref (some left) right =
    (left.database == right.database)
    && (elim left.schema [
      | none ↦ not (is_some right.schema)
      | some s ↦ elim right.schema [ none ↦ false | some t ↦ s == t ]
    ]
        && (left.name == right.name))

module _ (host : Host) where
  -- `parseTableRef`: a text is parsed once more. What throws counts as no reference, as all callers
  -- catch it.
  unfoldable pub parse_table_ref : Json → Option WorkspaceTableRef
  parse_table_ref (json_text s) = elim (host.parse s) [ none ↦ none | some v ↦ ref_of_json v ]
  parse_table_ref (json_object fields) = ref_of_json (json_object fields)
  parse_table_ref json_other = none

  abbrev ref_of_route : Option Value → Option WorkspaceTableRef
  ref_of_route (some (text route)) = elim (host.search_ref route) [
    | none ↦ none
    | some none ↦ none
    | some (some encoded) ↦ parse_table_ref (json_text encoded)
  ]
  ref_of_route _ = none

  unfoldable pub table_ref_from_context : Context → Option WorkspaceTableRef
  table_ref_from_context context = elim (lookup "ref" context) [
    | some (text candidate) ↦ elim (host.parse candidate) [
      | none ↦ none
      | some v ↦ parse_table_ref v
    ]
    | _ ↦ ref_of_route (lookup "route" context)
  ]

  unfoldable pub route_with_table_ref : Option Value → WorkspaceTableRef → Option String
  route_with_table_ref (some (text route)) ref = host.with_ref route (host.stringify ref)
  route_with_table_ref _ ref = none

  unfoldable pub shows_table : WorkspaceTableRef → Tab → Bool
  shows_table expected tab =
      is_table_tab tab && same_table_ref (table_ref_from_context tab.context) expected
