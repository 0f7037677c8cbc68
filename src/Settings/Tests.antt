-- ===== src/Settings/Tests.antt =====
-- The theorem on settings at concrete calls.
use myadmin.Common.{
  ℕ, ◌≡◌, refl, Bool, true, false, ◌&&◌, List, [], ◌∷◌, leb, ◌==◌, nat_eq, string_eq, text_eq,
  codes, any,
}
use myadmin.Common.Dict.{lookup, insert, delete}
use myadmin.Settings.{
  JsonValue, json_number, json_text, json_boolean, other_json, Schema, literals, integer, boolean,
  SettingsStore, unknown_key, setting_key_required, Call, get_preference, set_preference,
  get_setting, value_is, done, refused, call, calls, get_registry_entry, entry_for, stored, write,
  read_slot, valid_value, get_slot, store_preference,
}
use myadmin.Settings.Coherence.{plain_calls, calls-plain_calls}

abbrev check : Schema → JsonValue → Bool
check (integer low high) (json_number n) = leb low n && leb n high
check (integer low high) (json_text s) = false
check (integer low high) (json_boolean b) = false
check (integer low high) other_json = false
check (literals names) (json_text s) = any (λ x. x == s) names
check (literals names) (json_number n) = false
check (literals names) (json_boolean b) = false
check (literals names) other_json = false
check boolean (json_boolean b) = true
check boolean (json_text s) = false
check boolean (json_number n) = false
check boolean other_json = false

abbrev no_rows : SettingsStore
no_rows = record { preferences = []; settings = []; changes = [] }

abbrev size : List ℕ
size = codes "ui.pageSize"

abbrev some_calls : List Call
some_calls =
    get_preference (codes "u1") size
    ∷ set_preference (codes "u1") size (json_number 20)
    ∷ get_preference (codes "u1") size
    ∷ get_preference (codes "u2") size
    ∷ get_setting size
    ∷ get_setting (codes "ui.size")
    ∷ []

answered :
    (calls check some_calls (record { store = no_rows; cache = [] })).0
    ≡ value_is (json_number 50)
      ∷ done
      ∷ value_is (json_number 20)
      ∷ value_is (json_number 50)
      ∷ refused setting_key_required
      ∷ refused unknown_key
      ∷ []
unfolding calls call entry_for get_registry_entry get_slot read_slot stored write valid_value
    store_preference lookup insert delete
answered = refl

calls-plain_calls_example :
    ((calls check some_calls (record { store = no_rows; cache = [] })).0
      ≡ (plain_calls check some_calls no_rows).0)
    × ((calls check some_calls (record { store = no_rows; cache = [] })).1.store
        ≡ (plain_calls check some_calls no_rows).1)
calls-plain_calls_example = calls-plain_calls check some_calls no_rows
