-- ===== src/Settings.antt =====
-- packages/settings/src/index.ts: the registry of settings, and the service with its cache.
pub mod Keys
pub mod Coherence
mod Tests
use myadmin.Common.{
  ℕ, zero, suc, ◌+◌, ◌-◌, ◌*◌, ◌/◌, ◌%◌, ◌^◌, ◌≤◌, ◌<◌, min, max, String, ◌≡◌, refl, sym, ap, subst,
  ◌∙◌, ◌≢◌, ◌↔◌, ◌⊎◌, inl, inr, Bool, true, false, not, ◌&&◌, ◌||◌, Option, none, some, List, [],
  ◌∷◌, ◌++◌, map, append_assoc, append-nil, arith, eq_iff, ltb, leb, if◌then◌else◌, ltb→lt, lt→ltb,
  leb→le, le→leb, Eq, ◌==◌, nat_eq, string_eq, text_eq, Bool-cases, Option-cases, is_some,
  or_default, Result, ok, err, ◌>>=◌, ◌>>◌, guard, Number, nat, neg, not_whole, max_safe_integer,
  codes, is_space, all_space, is_blank, units, utf16_length, length, get_elem?, set, any, all,
  filter, find?, bit, count_if, All, length-append, length-map, get_elem?-set_self,
  get_elem?-set_ne, count_if-set, set-set, set_self, count_if-append, All-append, All-get, All-set,
  All-imp, if_both, all_iff, find?-map, find?-sound, find?-map-none, All-filter, find?-append_none,
  any-eq-false, bit_le, pow-suc, mul_comm, mul_assoc, some-injective, Result-cases, map_option,
}
use myadmin.Common.Dict.{lookup, insert, delete}

pub data SettingsScope : Type 0 where
  user_scope app_scope : SettingsScope

pub data JsonValue : Type 0 where
  json_text : String → JsonValue
  json_number : ℕ → JsonValue
  json_boolean : Bool → JsonValue
  other_json : JsonValue

-- The schemas that the registry builds with TypeBox.
pub data Schema : Type 0 where
  literals : List String → Schema
  integer : ℕ → ℕ → Schema
  boolean : Schema

pub record RegistryEntry : Type 0 where
  pub key : List ℕ
  pub scope : SettingsScope
  pub schema : Schema
  pub default_value : JsonValue
  pub sensitive : Bool

abbrev pub registry : List RegistryEntry
registry =
    record {
      key = codes "ui.theme";
      scope = user_scope;
      schema = literals ("system" ∷ "light" ∷ "dark" ∷ []);
      default_value = json_text "system";
      sensitive = false;
    }
    ∷ record {
      key = codes "ui.pageSize";
      scope = user_scope;
      schema = integer 1 100;
      default_value = json_number 50;
      sensitive = false;
    }
    ∷ record {
      key = codes "editor.fontSize";
      scope = user_scope;
      schema = integer 8 32;
      default_value = json_number 14;
      sensitive = false;
    }
    ∷ record {
      key = codes "editor.wordWrap";
      scope = user_scope;
      schema = boolean;
      default_value = json_boolean false;
      sensitive = false;
    }
    ∷ record {
      key = codes "history.maxEntriesPerUser";
      scope = app_scope;
      schema = integer 1 100000;
      default_value = json_number 1000;
      sensitive = false;
    }
    ∷ []

pub data SettingsError : Type 0 where
  unknown_key invalid_value preference_key_required setting_key_required : SettingsError

-- A preference of a user, or a setting of the application.
pub data Slot : Type 0 where
  preference : List ℕ → List ℕ → Slot
  setting : List ℕ → Slot

abbrev pub slot_key : Slot → List ℕ
slot_key (preference user key) = key
slot_key (setting key) = key

abbrev pub slot_scope : Slot → SettingsScope
slot_scope (preference user key) = user_scope
slot_scope (setting key) = app_scope

-- `user:${userId}:${key}` and `app:${key}`
abbrev pub cache_key : Slot → List ℕ
cache_key (preference user key) = codes "user:" ++ (user ++ b':' ∷ key)
cache_key (setting key) = codes "app:" ++ key

-- What a name gives in the object of the registry: an entry, or something that every object inherits.
pub data RegistryValue : Type 0 where
  registered : RegistryEntry → RegistryValue
  inherited : RegistryValue

abbrev pub inherited_names : List (List ℕ)
inherited_names =
    codes "constructor"
    ∷ codes "hasOwnProperty"
    ∷ codes "isPrototypeOf"
    ∷ codes "propertyIsEnumerable"
    ∷ codes "toLocaleString"
    ∷ codes "toString"
    ∷ codes "valueOf"
    ∷ codes "__proto__"
    ∷ codes "__defineGetter__"
    ∷ codes "__defineSetter__"
    ∷ codes "__lookupGetter__"
    ∷ codes "__lookupSetter__"
    ∷ []

abbrev pub own_or_inherited : Bool → Option RegistryEntry → Option RegistryValue
own_or_inherited b (some e) = some (registered e)
own_or_inherited true none = some inherited
own_or_inherited false none = none

unfoldable pub get_registry_entry : List ℕ → Option RegistryValue
get_registry_entry key =
    own_or_inherited (any (λ name. name == key) inherited_names)
      (find? (λ e. e.key == key) registry)

abbrev pub in_scope :
    SettingsScope → RegistryEntry → SettingsScope → Result SettingsError RegistryEntry
in_scope user_scope e user_scope = ok e
in_scope user_scope e app_scope = err preference_key_required
in_scope app_scope e app_scope = ok e
in_scope app_scope e user_scope = err setting_key_required

-- What is inherited has no scope.
abbrev pub known_entry : SettingsScope → Option RegistryValue → Result SettingsError RegistryEntry
known_entry scope none = err unknown_key
known_entry user_scope (some inherited) = err preference_key_required
known_entry app_scope (some inherited) = err setting_key_required
known_entry scope (some (registered e)) = in_scope scope e e.scope

unfoldable pub entry_for : List ℕ → SettingsScope → Result SettingsError RegistryEntry
entry_for key scope = known_entry scope (get_registry_entry key)

-- A row of the audit log for a changed setting: the values are left out of a sensitive one.
pub record Change : Type 0 where
  pub actor : List ℕ
  pub key : List ℕ
  pub details : Option (JsonValue × JsonValue)

-- The two tables, and the log.
pub record SettingsStore : Type 0 where
  pub preferences : List (List ℕ × List (List ℕ × JsonValue))
  pub settings : List (List ℕ × JsonValue)
  pub changes : List Change

pub record SettingsService : Type 0 where
  pub store : SettingsStore
  pub cache : List (List ℕ × JsonValue)

-- `preferences.get` and `settings.get`: the rows of a user are a table of their own.
unfoldable pub stored : Slot → SettingsStore → Option JsonValue
stored (preference user key) s = lookup key (or_default (lookup user s.preferences) [])
stored (setting key) s = lookup key s.settings

-- `preferences.set` and `settings.set`
unfoldable pub write : Slot → JsonValue → SettingsStore → SettingsStore
write (preference user key) value s = record s {
  preferences =
      insert user (insert key value (or_default (lookup user s.preferences) [])) s.preferences;
}
write (setting key) value s = record s { settings = insert key value s.settings }

abbrev pub forget : Slot → SettingsService → SettingsService
forget slot s = record s { cache = delete (cache_key slot) s.cache }

abbrev pub change_of : RegistryEntry → List ℕ → List ℕ → JsonValue → JsonValue → Change
change_of e actor key old new = record {
  actor = actor;
  key = key;
  details = if e.sensitive then none else some (old, new);
}

abbrev pub log : Change → SettingsStore → SettingsStore
log change s = record s { changes = s.changes ++ change ∷ [] }

unfoldable pub store_preference : Slot → JsonValue → SettingsService → SettingsService
store_preference slot value s = forget slot (record s { store = write slot value s.store })

module _ (check : Schema → JsonValue → Bool) where
  abbrev pub value_or_default : RegistryEntry → Option JsonValue → JsonValue
  value_or_default e none = e.default_value
  value_or_default e (some v) = if check e.schema v then v else e.default_value

  unfoldable pub read_slot : RegistryEntry → Slot → SettingsStore → JsonValue
  read_slot e slot s = value_or_default e (stored slot s)

  unfoldable pub valid_value : RegistryEntry → JsonValue → Result SettingsError JsonValue
  valid_value e value = if check e.schema value then ok value else err invalid_value

  abbrev pub from_cache :
      RegistryEntry → Slot → Option JsonValue → SettingsService → JsonValue × SettingsService
  from_cache e slot (some v) s = (v, s)
  from_cache e slot none s =
      let value = read_slot e slot s.store in
      (value, record s { cache = insert (cache_key slot) value s.cache })

  -- `getPreference` and `getSetting`, once the entry is known.
  unfoldable pub get_slot : RegistryEntry → Slot → SettingsService → JsonValue × SettingsService
  get_slot e slot s = from_cache e slot (lookup (cache_key slot) s.cache) s

  unfoldable pub store_setting :
      RegistryEntry → List ℕ → Slot → JsonValue → SettingsService → SettingsService
  store_setting e actor slot value s =
      let (previous, s') = get_slot e slot s in
      forget slot (record s' {
        store = log (change_of e actor (slot_key slot) previous value) (write slot value s'.store);
      })

-- Calls of the service, and its answers.
pub data Call : Type 0 where
  get_preference : List ℕ → List ℕ → Call
  set_preference : List ℕ → List ℕ → JsonValue → Call
  get_setting : List ℕ → Call
  set_setting : List ℕ → List ℕ → JsonValue → Call

pub data Answer : Type 0 where
  value_is : JsonValue → Answer
  done : Answer
  refused : SettingsError → Answer

module _ (check : Schema → JsonValue → Bool) where
  abbrev pub answer_get :
      Result SettingsError RegistryEntry → Slot → SettingsService → Answer × SettingsService
  answer_get (err e) slot s = (refused e, s)
  answer_get (ok e) slot s = let (value, s') = get_slot check e slot s in (value_is value, s')

  abbrev pub answer_write :
      Result SettingsError JsonValue
      → (JsonValue → SettingsService)
      → SettingsService
      → Answer × SettingsService
  answer_write (err e) next s = (refused e, s)
  answer_write (ok value) next s = (done, next value)

  abbrev pub answer_set :
      Result SettingsError RegistryEntry
      → Option (List ℕ)
      → Slot
      → JsonValue
      → SettingsService
      → Answer × SettingsService
  answer_set (err e) actor slot value s = (refused e, s)
  answer_set (ok e) none slot value s =
      answer_write (valid_value check e value) (λ v. store_preference slot v s) s
  answer_set (ok e) (some actor) slot value s =
      answer_write (valid_value check e value) (λ v. store_setting check e actor slot v s) s

  -- `getPreference`, `setPreference`, `getSetting` and `setSetting`
  unfoldable pub call : Call → SettingsService → Answer × SettingsService
  call (get_preference user key) s = answer_get (entry_for key user_scope) (preference user key) s
  call (set_preference user key value) s =
      answer_set (entry_for key user_scope) none (preference user key) value s
  call (get_setting key) s = answer_get (entry_for key app_scope) (setting key) s
  call (set_setting actor key value) s =
      answer_set (entry_for key app_scope) (some actor) (setting key) value s

  unfoldable pub calls : List Call → SettingsService → List Answer × SettingsService
  calls [] s = ([], s)
  calls (c ∷ rest) s =
      let (answer, s') = call c s in let (answers, end) = calls rest s' in (answer ∷ answers, end)
