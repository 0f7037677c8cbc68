-- ===== src/Settings/Coherence.antt =====
-- The cache of the settings never shows: the service answers like one without it.
use myadmin.Common.{
  ℕ, ◌≡◌, refl, sym, ap, ◌∙◌, ◌≢◌, inl, inr, Bool, Option, none, some, List, [], ◌∷◌, if◌then◌else◌,
  ◌==◌, nat_eq, string_eq, text_eq, Bool-cases, Option-cases, Result, ok, err, some-injective,
}
use myadmin.Common.Dict.{lookup, insert, lookup-delete, lookup-insert}
use myadmin.Settings.{
  user_scope, app_scope, JsonValue, Schema, RegistryEntry, SettingsError, Slot, preference, setting,
  slot_key, slot_scope, cache_key, entry_for, SettingsStore, SettingsService, stored, write,
  value_or_default, read_slot, valid_value, get_slot, forget, change_of, log, store_preference,
  store_setting, Call, get_preference, set_preference, get_setting, set_setting, Answer, value_is,
  done, refused, answer_get, answer_write, answer_set, call, calls,
}
use myadmin.Settings.Keys.{
  Registered, cache_key-injective, stored-write_other, stored-log, ok-injective,
}

module _ (check : Schema → JsonValue → Bool) where
  -- What the cache holds for a registered key is what the tables hold.
  abbrev pub Coherent : SettingsService → Type 0
  Coherent s =
      (slot : Slot) (e : RegistryEntry) (v : JsonValue)
      → Registered slot e
      → lookup (cache_key slot) s.cache ≡ some v
      → v ≡ read_slot check e slot s.store

  -- A service without a cache.
  abbrev pub plain_get :
      Result SettingsError RegistryEntry → Slot → SettingsStore → Answer × SettingsStore
  plain_get (err e) slot s = (refused e, s)
  plain_get (ok e) slot s = (value_is (read_slot check e slot s), s)

  abbrev plain_write :
      Result SettingsError JsonValue
      → (JsonValue → SettingsStore)
      → SettingsStore
      → Answer × SettingsStore
  plain_write (err e) next s = (refused e, s)
  plain_write (ok value) next s = (done, next value)

  abbrev plain_set :
      Result SettingsError RegistryEntry
      → Option (List ℕ)
      → Slot
      → JsonValue
      → SettingsStore
      → Answer × SettingsStore
  plain_set (err e) actor slot value s = (refused e, s)
  plain_set (ok e) none slot value s =
      plain_write (valid_value check e value) (λ v. write slot v s) s
  plain_set (ok e) (some actor) slot value s =
      plain_write (valid_value check e value)
        (λ v. log (change_of e actor (slot_key slot) (read_slot check e slot s) v) (write slot v s))
        s

  abbrev pub plain_call : Call → SettingsStore → Answer × SettingsStore
  plain_call (get_preference user key) s =
      plain_get (entry_for key user_scope) (preference user key) s
  plain_call (set_preference user key value) s =
      plain_set (entry_for key user_scope) none (preference user key) value s
  plain_call (get_setting key) s = plain_get (entry_for key app_scope) (setting key) s
  plain_call (set_setting actor key value) s =
      plain_set (entry_for key app_scope) (some actor) (setting key) value s

  abbrev pub plain_calls : List Call → SettingsStore → List Answer × SettingsStore
  plain_calls [] s = ([], s)
  plain_calls (c ∷ rest) s = (
    (plain_call c s).0 ∷ (plain_calls rest (plain_call c s).1).0,
    (plain_calls rest (plain_call c s).1).1,
  )

  -- The same answer and the same tables, and a cache that fits them.
  abbrev Agrees : Answer × SettingsService → Answer × SettingsStore → Type 0
  Agrees cached plain = (cached.0 ≡ plain.0) × (cached.1.store ≡ plain.1) × Coherent cached.1

  insert_fits :
      (e : RegistryEntry) (slot : Slot) (s : SettingsService)
      → Registered slot e
      → Coherent s
      → Coherent
          (record s { cache = insert (cache_key slot) (read_slot check e slot s.store) s.cache })
  insert_fits e slot s known h b eb v known_b hit =
      let seen =
        sym (lookup-insert (cache_key slot) (cache_key b) (read_slot check e slot s.store) s.cache)
        ∙ hit in
      elim (Bool-cases (cache_key slot == cache_key b)) [
        | inl same ↦
            let slots : slot ≡ b =
              cache_key-injective slot b e eb known known_b
                ((text_eq.same_iff (cache_key slot) (cache_key b)).0 same) in
            let entries : e ≡ eb =
              ok-injective
                (sym known ∙ ap (λ x. entry_for (slot_key x) (slot_scope x)) slots ∙ known_b) in
            sym (
              some-injective (read_slot check e slot s.store) v (
                sym (
                  ap
                    (λ t.
                      if t
                      then some (read_slot check e slot s.store)
                      else lookup (cache_key b) s.cache)
                    same)
                ∙ seen))
            ∙ ap (λ (x : RegistryEntry × Slot). read_slot check x.0 x.1 s.store)
                (rw (entries, slots) refl)
        | inr other ↦ h b eb v known_b (
            sym (
              ap
                (λ t.
                  if t then some (read_slot check e slot s.store) else lookup (cache_key b) s.cache)
                other)
            ∙ seen)
      ]

  get_slot-Coherent :
      (e : RegistryEntry) (slot : Slot) (s : SettingsService)
      → Registered slot e
      → Coherent s
      → ((get_slot check e slot s).0 ≡ read_slot check e slot s.store)
        × ((get_slot check e slot s).1.store ≡ s.store)
        × Coherent (get_slot check e slot s).1
  unfolding get_slot
  get_slot-Coherent e slot s known h = elim (Option-cases (lookup (cache_key slot) s.cache)) [
    | inl absent ↦ rw absent (refl, refl, insert_fits e slot s known h)
    | inr (v, hit) ↦ rw hit (h slot e v known hit, refl, h)
  ]

  forget-Coherent :
      (slot : Slot) (s : SettingsService) (after : SettingsStore)
      → ((b : Slot) → slot ≢ b → stored b after ≡ stored b s.store)
      → Coherent s
      → Coherent (forget slot (record s { store = after }))
  unfolding read_slot
  forget-Coherent slot s after kept h b e v known hit =
      elim (Bool-cases (cache_key slot == cache_key b)) [
        | inl same ↦ cc (
          hit,
          lookup-delete (cache_key slot) (cache_key b) s.cache
              ∙ ap (λ t. if t then none else lookup (cache_key b) s.cache) same,
        )
        | inr other ↦
            let differ : slot ≢ b = λ e.
              cc (other, (text_eq.same_iff (cache_key slot) (cache_key b)).1 (ap cache_key e)) in
            let old : lookup (cache_key b) s.cache ≡ some v =
              sym (
                lookup-delete (cache_key slot) (cache_key b) s.cache
                ∙ ap (λ t. if t then none else lookup (cache_key b) s.cache) other)
              ∙ hit in
            h b e v known old ∙ ap (value_or_default check e) (sym (kept b differ))
      ]

  get-Agrees :
      (entry : Result SettingsError RegistryEntry) (slot : Slot) (s : SettingsService)
      → entry_for (slot_key slot) (slot_scope slot) ≡ entry
      → Coherent s
      → Agrees (answer_get check entry slot s) (plain_get entry slot s.store)
  get-Agrees (err e) slot s known h = (refl, refl, h)
  get-Agrees (ok e) slot s known h =
      let (same, kept, fits) = get_slot-Coherent e slot s known h in (ap value_is same, kept, fits)

  preference-Agrees :
      (valid : Result SettingsError JsonValue) (slot : Slot) (s : SettingsService)
      → Coherent s
      → Agrees
          (answer_write check valid (λ v. store_preference slot v s) s)
          (plain_write valid (λ v. write slot v s.store) s.store)
  unfolding store_preference
  preference-Agrees (err e) slot s h = (refl, refl, h)
  preference-Agrees (ok v) slot s h = (
    refl,
    refl,
    forget-Coherent slot s (write slot v s.store)
        (λ b differ. stored-write_other slot b v s.store differ) h,
  )

  setting-Agrees :
      (valid : Result SettingsError JsonValue) (e : RegistryEntry) (actor : List ℕ) (slot : Slot)
      (s : SettingsService)
      → Registered slot e
      → Coherent s
      → Agrees (answer_write check valid (λ v. store_setting check e actor slot v s) s) (
          plain_write valid
            (λ v.
              log
                (change_of e actor (slot_key slot) (read_slot check e slot s.store) v)
                (write slot v s.store))
            s.store)
  unfolding store_setting
  setting-Agrees (err x) e actor slot s known h = (refl, refl, h)
  setting-Agrees (ok v) e actor slot s known h =
      let (same, kept, fits) = get_slot-Coherent e slot s known h in
      let s' = (get_slot check e slot s).1 in
      (
        refl,
        ap (λ x. log (change_of e actor (slot_key slot) x v) (write slot v s'.store)) same
            ∙ ap
                (λ x.
                  log (change_of e actor (slot_key slot) (read_slot check e slot s.store) v)
                    (write slot v x))
                kept,
        forget-Coherent slot s'
            (log (change_of e actor (slot_key slot) (get_slot check e slot s).0 v)
              (write slot v s'.store))
            (λ b differ.
              stored-log b (change_of e actor (slot_key slot) (get_slot check e slot s).0 v)
                (write slot v s'.store)
              ∙ stored-write_other slot b v s'.store differ)
            fits,
      )

  set-Agrees :
      (entry : Result SettingsError RegistryEntry) (actor : Option (List ℕ)) (slot : Slot)
      (value : JsonValue) (s : SettingsService)
      → entry_for (slot_key slot) (slot_scope slot) ≡ entry
      → Coherent s
      → Agrees
          (answer_set check entry actor slot value s)
          (plain_set entry actor slot value s.store)
  set-Agrees (err e) actor slot value s known h = (refl, refl, h)
  set-Agrees (ok e) none slot value s known h =
      preference-Agrees (valid_value check e value) slot s h
  set-Agrees (ok e) (some actor) slot value s known h =
      setting-Agrees (valid_value check e value) e actor slot s known h

  call-Agrees :
      (c : Call) (s : SettingsService) → Coherent s → Agrees (call check c s) (plain_call c s.store)
  unfolding call
  call-Agrees (get_preference user key) s h =
      get-Agrees (entry_for key user_scope) (preference user key) s refl h
  call-Agrees (get_setting key) s h = get-Agrees (entry_for key app_scope) (setting key) s refl h
  call-Agrees (set_preference user key value) s h =
      set-Agrees (entry_for key user_scope) none (preference user key) value s refl h
  call-Agrees (set_setting actor key value) s h =
      set-Agrees (entry_for key app_scope) (some actor) (setting key) value s refl h

  no_cache-Coherent : (store : SettingsStore) → Coherent (record { store = store; cache = [] })
  unfolding lookup
  no_cache-Coherent store slot e v known hit = cc hit

  calls-Coherent :
      (cs : List Call) (s : SettingsService)
      → Coherent s
      → ((calls check cs s).0 ≡ (plain_calls cs s.store).0)
        × ((calls check cs s).1.store ≡ (plain_calls cs s.store).1)
  unfolding calls
  calls-Coherent [] s h = (refl, refl)
  calls-Coherent (c ∷ rest) s h =
      let (answer, kept, fits) = call-Agrees c s h in
      let (answers, end) = calls-Coherent rest (call check c s).1 fits in
      (
        ap (λ x. x ∷ (calls check rest (call check c s).1).0) answer
            ∙ ap (λ l. (plain_call c s.store).0 ∷ l)
                (answers ∙ ap (λ st. (plain_calls rest st).0) kept),
        end ∙ ap (λ st. (plain_calls rest st).1) kept,
      )

  -- From an empty cache, the answers to any calls, and the tables and the log behind them, are those of a
  -- service that reads the tables each time.
  pub calls-plain_calls :
      (cs : List Call) (store : SettingsStore)
      → ((calls check cs (record { store = store; cache = [] })).0 ≡ (plain_calls cs store).0)
        × ((calls check cs (record { store = store; cache = [] })).1.store
            ≡ (plain_calls cs store).1)
  calls-plain_calls cs store =
      calls-Coherent cs (record { store = store; cache = [] }) (no_cache-Coherent store)
