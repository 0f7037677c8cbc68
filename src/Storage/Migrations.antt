-- ===== src/Storage/Migrations.antt =====
-- packages/internal-sqlite/src/migrations/migration-runner.ts. The tables that migrations create are a
-- schema `S`; `up` of a migration changes it or throws an `E`.
pub mod Sequences
pub mod Accepted
pub mod Running
use myadmin.Common.{
  ℕ, zero, suc, ◌+◌, ◌-◌, ◌*◌, ◌/◌, ◌%◌, ◌^◌, ◌≤◌, ◌<◌, min, max, String, ◌≡◌, refl, sym, ap, subst,
  ◌∙◌, ◌≢◌, ◌↔◌, ◌⊎◌, inl, inr, Bool, true, false, not, ◌&&◌, ◌||◌, Option, none, some, List, [],
  ◌∷◌, ◌++◌, map, append_assoc, append-nil, arith, eq_iff, ltb, leb, if◌then◌else◌, ltb→lt, lt→ltb,
  leb→le, le→leb, Eq, ◌==◌, nat_eq, string_eq, text_eq, Bool-cases, Option-cases, is_some,
  or_default, Result, ok, err, ◌>>=◌, ◌>>◌, guard, Number, nat, neg, not_whole, max_safe_integer,
  codes, is_space, all_space, is_blank, units, utf16_length, length, get_elem?, set, any, all,
  filter, find?, bit, count_if, All, length-append, length-map, get_elem?-set_self,
  get_elem?-set_ne, count_if-set, set-set, set_self, count_if-append, All-append, All-get, All-set,
  All-imp, if_both, all_iff, find?-map, find?-sound, find?-map-none, All-filter, find?-append_none,
  any-eq-false, bit_le, pow-suc, mul_comm, mul_assoc, some-injective, Result-cases, map_option,
}

-- Versions are whole numbers that are not negative.
pub record SqliteMigration (S E : Type 0) : Type 0 where
  pub version : ℕ
  pub name : String
  -- `migration.checksumSource ?? migration.up.toString()`
  pub source : String
  pub up : S → Result E S

pub record AppliedMigration : Type 0 where
  pub version : ℕ
  pub name : String
  pub applied_at : String
  pub checksum : String

-- The table of migrations, if it exists, in the order of its primary key.
pub record Database (S : Type 0) : Type 0 where
  pub schema : S
  pub history : Option (List AppliedMigration)

pub data MigrationError (E : Type 0) : Type 0 where
  not_positive not_sequential history_not_sequential : MigrationError E
  invalid duplicated no_longer_available checksum_mismatch : ℕ → MigrationError E
  migration_failed : ℕ → String → E → MigrationError E
  -- The primary key of the history is taken.
  constraint_failed : ℕ → String → MigrationError E

pub record MigrationStatus (S E : Type 0) : Type 0 where
  pub current_version : ℕ
  pub applied : List AppliedMigration
  pub pending : List (SqliteMigration S E)

pub record MigrationRunResult : Type 0 where
  pub initial_version : ℕ
  pub final_version : ℕ
  pub applied : List AppliedMigration

-- The clock, and SHA-256 over version, name and source.
pub record Runner : Type 0 where
  pub now : ℕ → String
  pub hash : ℕ → String → String → String

-- `applied.at(-1)?.version ?? start`
abbrev pub last_version : List AppliedMigration → ℕ → ℕ
last_version [] start = start
last_version (r ∷ rest) start = last_version rest r.version

unfoldable pub read_applied_migrations : {S : Type 0} → Database S → List AppliedMigration
read_applied_migrations db = or_default db.history []

unfoldable pub ensure_migration_table : {S : Type 0} → Database S → Database S
ensure_migration_table db = record db { history = some (or_default db.history []) }

abbrev pub has_version : ℕ → List AppliedMigration → Bool
has_version version applied = any (λ r. r.version == version) applied

-- `INSERT INTO migrations`: none if the version is there already.
unfoldable pub insert_applied :
    AppliedMigration → List AppliedMigration → Option (List AppliedMigration)
insert_applied r [] = some (r ∷ [])
insert_applied r (x ∷ xs) =
    let rest = insert_applied r xs in
    if r.version == x.version
    then none
    else if ltb r.version x.version
    then some (r ∷ (x ∷ xs))
    else map_option (λ l. x ∷ l) rest

module _ {S E : Type 0} where
  -- A stable sort by version.
  unfoldable pub insert_migration :
      SqliteMigration S E → List (SqliteMigration S E) → List (SqliteMigration S E)
  insert_migration m [] = m ∷ []
  insert_migration m (x ∷ xs) =
      let rest = insert_migration m xs in if leb m.version x.version then m ∷ (x ∷ xs) else x ∷ rest

  unfoldable pub sort_migrations : List (SqliteMigration S E) → List (SqliteMigration S E)
  sort_migrations [] = []
  sort_migrations (m ∷ ms) = insert_migration m (sort_migrations ms)

  unfoldable pub check_migrations :
      List ℕ → List (SqliteMigration S E) → Result (MigrationError E) (Unit {0})
  check_migrations versions [] = ok tt
  check_migrations versions (m ∷ ms) =
      let rest = check_migrations (m.version ∷ versions) ms in
      guard (leb 1 m.version) not_positive
      >> guard (not (is_blank m.name)) (invalid m.version)
      >> guard (not (any (λ v. v == m.version) versions)) (duplicated m.version)
      >> rest

  -- The versions are `index`, `index + 1`, …
  unfoldable pub check_sequence :
      ℕ → List (SqliteMigration S E) → Result (MigrationError E) (Unit {0})
  check_sequence index [] = ok tt
  check_sequence index (m ∷ ms) =
      let rest = check_sequence (suc index) ms in guard (m.version == index) not_sequential >> rest

  unfoldable pub normalized_migrations :
      List (SqliteMigration S E) → Result (MigrationError E) (List (SqliteMigration S E))
  normalized_migrations input =
      let ordered = sort_migrations input in
      check_migrations [] ordered >> check_sequence 1 ordered >> ok ordered

  module _ (runner : Runner) where
    abbrev pub migration_checksum : SqliteMigration S E → String
    migration_checksum m = runner.hash m.version m.name m.source

    unfoldable pub is_unchanged : AppliedMigration → SqliteMigration S E → Bool
    is_unchanged r m = (r.name == m.name) && (r.checksum == migration_checksum m)

    -- One record against what is available under its version.
    abbrev pub check_record :
        AppliedMigration → Option (SqliteMigration S E) → Result (MigrationError E) (Unit {0})
    check_record r none = err (no_longer_available r.version)
    check_record r (some m) = guard (is_unchanged r m) (checksum_mismatch r.version)

    unfoldable pub check_records :
        List AppliedMigration → List (SqliteMigration S E) → Result (MigrationError E) (Unit {0})
    check_records [] available = ok tt
    check_records (r ∷ applied) available =
        let rest = check_records applied available in
        check_record r (find? (λ m. m.version == r.version) available) >> rest

    unfoldable pub check_order :
        List AppliedMigration → List (SqliteMigration S E) → Result (MigrationError E) (Unit {0})
    check_order [] available = ok tt
    check_order (r ∷ applied) [] = err history_not_sequential
    check_order (r ∷ applied) (m ∷ available) =
        let rest = check_order applied available in
        guard (r.version == m.version) history_not_sequential >> rest

    unfoldable pub validate_applied_migrations :
        List AppliedMigration → List (SqliteMigration S E) → Result (MigrationError E) (Unit {0})
    validate_applied_migrations applied available =
        check_records applied available >> check_order applied available

    unfoldable pub get_migration_status :
        List (SqliteMigration S E) → Database S → Result (MigrationError E) (MigrationStatus S E)
    get_migration_status input db =
        let applied = read_applied_migrations db in
        normalized_migrations input >>= λ ms.
        validate_applied_migrations applied ms
        >> ok (record {
          current_version = last_version applied 0;
          applied = applied;
          pending = filter (λ m. not (has_version m.version applied)) ms;
        })

    abbrev pub applied_record : SqliteMigration S E → AppliedMigration
    applied_record m = record {
      version = m.version;
      name = m.name;
      applied_at = runner.now m.version;
      checksum = migration_checksum m;
    }

    -- The end of the transaction around a migration: its commit, or the rollback.
    abbrev pub write_history :
        SqliteMigration S E
        → S
        → Option (List AppliedMigration)
        → Result (MigrationError E) (Database S)
    write_history m schema none = err (constraint_failed m.version m.name)
    write_history m schema (some history) = ok (record { schema = schema; history = some history })

    abbrev pub after_up :
        SqliteMigration S E → Result E S → Database S → Result (MigrationError E) (Database S)
    after_up m (err reason) db = err (migration_failed m.version m.name reason)
    after_up m (ok schema) db =
        write_history m schema (insert_applied (applied_record m) (or_default db.history []))

    unfoldable pub apply_migration :
        SqliteMigration S E → Database S → Result (MigrationError E) (Database S)
    apply_migration m db = after_up m (m.up db.schema) db

    -- The loop: the database is the one behind the last migration that succeeded.
    abbrev pub continue_with :
        Database S
        → Result (MigrationError E) (Database S)
        → (Database S → Database S × Result (MigrationError E) (List AppliedMigration))
        → Database S × Result (MigrationError E) (List AppliedMigration)
    continue_with db (err e) next = (db, err e)
    continue_with db (ok db') next = next db'

    unfoldable pub run_pending :
        List AppliedMigration
        → List (SqliteMigration S E)
        → List AppliedMigration
        → Database S
        → Database S × Result (MigrationError E) (List AppliedMigration)
    run_pending applied [] applied_now db = (db, ok applied_now)
    run_pending applied (m ∷ ms) applied_now db =
        if has_version m.version applied
        then run_pending applied ms applied_now db
        else continue_with db (apply_migration m db)
            (run_pending applied ms (applied_now ++ applied_record m ∷ []))

    abbrev pub run_result :
        ℕ
        → Database S × Result (MigrationError E) (List AppliedMigration)
        → Database S × Result (MigrationError E) MigrationRunResult
    run_result initial (db, err e) = (db, err e)
    run_result initial (db, ok applied_now) = (
      db,
      ok (record {
        initial_version = initial;
        final_version = last_version applied_now initial;
        applied = applied_now;
      }),
    )

    abbrev pub run_valid :
        List (SqliteMigration S E)
        → Database S
        → Result (MigrationError E) (Unit {0})
        → Database S × Result (MigrationError E) MigrationRunResult
    run_valid ms db (err e) = (db, err e)
    run_valid ms db (ok u) =
        run_result (last_version (read_applied_migrations db) 0)
          (run_pending (read_applied_migrations db) ms [] db)

    abbrev pub run_normalized :
        Result (MigrationError E) (List (SqliteMigration S E))
        → Database S
        → Database S × Result (MigrationError E) MigrationRunResult
    run_normalized (err e) db = (db, err e)
    run_normalized (ok ms) db =
        let db' = ensure_migration_table db in
        run_valid ms db' (validate_applied_migrations (read_applied_migrations db') ms)

    unfoldable pub run_migrations :
        List (SqliteMigration S E)
        → Database S
        → Database S × Result (MigrationError E) MigrationRunResult
    run_migrations input db = run_normalized (normalized_migrations input) db
