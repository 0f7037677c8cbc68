-- ===== src/Storage/Migrations/Running.antt =====
-- Which migrations a run applies, and what it leaves behind.
use myadmin.Common.{
  ℕ, ◌<◌, ◌≡◌, refl, sym, ap, subst, ◌∙◌, true, false, some, List, [], ◌∷◌, ◌++◌, append-nil, arith,
  nat_eq, string_eq, text_eq, or_default, Result, ok, err, ◌>>=◌, length, all, All, length-append,
}
use myadmin.Storage.Migrations.{
  SqliteMigration, AppliedMigration, Database, MigrationError, MigrationRunResult, Runner,
  migration_failed, normalized_migrations, has_version, insert_applied, applied_record,
  read_applied_migrations, ensure_migration_table, apply_migration, after_up, continue_with,
  run_pending, run_result, run_migrations,
}
use myadmin.Storage.Migrations.Sequences.{
  Sequential, Sequential-later, Sequential-front, normalized_migrations-Sequential,
  applied_record-unchanged, shift, Matches, Matches-append, has_version-later, insert_applied-last,
  validate-Matches, last_version-Matches, has_version-Matches,
}

module _ {S E : Type 0} where
  -- Migrations run on a schema, one behind the other.
  abbrev pub ups : List (SqliteMigration S E) → S → Result E S
  ups [] s = ok s
  ups (m ∷ ms) s = m.up s >>= ups ms

  module _ (runner : Runner) where
    -- What the loop leaves behind, where the history is that of `done` and `todo` is left: all of `todo`
    -- has run and is recorded, or what comes before a migration that fails.
    abbrev pub Outcome :
        {A : Type 0}
        → List (SqliteMigration S E)
        → List (SqliteMigration S E)
        → S
        → Database S × Result (MigrationError E) A
        → Type 0
    Outcome done todo s (db, ok a) =
        (history : List AppliedMigration) × (db.history ≡ some history)
        × Matches runner history (done ++ todo)
        × (ups todo s ≡ ok db.schema)
    Outcome done todo s (db, err e) =
        (ran : List (SqliteMigration S E)) × (m : SqliteMigration S E) × (rest : List
          (SqliteMigration S E))
        × (history : List AppliedMigration) × (reason : E) × (todo ≡ ran ++ m ∷ rest)
        × (db.history ≡ some history)
        × Matches runner history (done ++ ran)
        × (ups ran s ≡ ok db.schema)
        × (m.up db.schema ≡ err reason)
        × (e ≡ migration_failed m.version m.name reason)

    Outcome-cons :
        {A : Type 0} (done todo : List (SqliteMigration S E)) (m : SqliteMigration S E) (s s' : S)
        (end : Database S × Result (MigrationError E) A)
        → m.up s ≡ ok s'
        → Outcome (done ++ m ∷ []) todo s' end
        → Outcome done (m ∷ todo) s end
    Outcome-cons done todo m s s' (db, ok a) up (history, kept, h, rest) =
        (history, kept, subst (Matches runner history) (sym (shift done m todo)) h, rw up rest)
    Outcome-cons done todo m s s' (db, err e) up
          (ran, failing, rest, history, reason, split, kept, h, before, fails, cause) =
        (
          m ∷ ran,
          failing,
          rest,
          history,
          reason,
          ap (λ l. m ∷ l) split,
          kept,
          subst (Matches runner history) (sym (shift done m ran)) h,
          rw up before,
          fails,
          cause,
        )

    apply_one :
        (done todo : List (SqliteMigration S E)) (m : SqliteMigration S E) (db : Database S)
        (history : List AppliedMigration) (result : Result E S)
        (next : Database S → Database S × Result (MigrationError E) (List AppliedMigration))
        → m.up db.schema ≡ result
        → db.history ≡ some history
        → Matches runner history done
        → Sequential 1 (done ++ m ∷ todo)
        → ((db' : Database S) (history' : List AppliedMigration)
            → db'.history ≡ some history'
            → Matches runner history' (done ++ m ∷ [])
            → Outcome (done ++ m ∷ []) todo db'.schema (next db'))
        → Outcome done
            (m ∷ todo)
            db.schema
            (continue_with runner db (after_up runner m result db) next)
    apply_one done todo m db history (err reason) next up kept h s rest = (
      [],
      m,
      todo,
      history,
      reason,
      refl,
      kept,
      subst (Matches runner history) (sym (append-nil done)) h,
      refl,
      up,
      refl,
    )
    apply_one done todo m db history (ok schema) next up kept h s rest =
        let inserted : insert_applied (applied_record runner m) (or_default db.history [])
            ≡ some (history ++ applied_record runner m ∷ []) =
          rw kept (
            insert_applied-last runner 1 history done (applied_record runner m)
              (Sequential-front 1 done (m ∷ todo) s) h
              (omega (arith, Sequential-later 1 done m todo s))) in
        rw inserted (
          Outcome-cons done todo m db.schema schema
            (next (record {
              schema = schema;
              history = some (history ++ applied_record runner m ∷ []);
            }))
            up
            (rest
              (record { schema = schema; history = some (history ++ applied_record runner m ∷ []) })
              (history ++ applied_record runner m ∷ []) refl
              (Matches-append runner history done (applied_record runner m) m h refl
                (applied_record-unchanged runner m))))

    later_version :
        (done : List (SqliteMigration S E)) (m : SqliteMigration S E) (version : ℕ)
        → length (done ++ m ∷ []) < version
        → length done < version
    later_version done m version h = omega (arith, length-append done (m ∷ []))

    run_pending-Outcome :
        (done todo : List (SqliteMigration S E)) (applied applied_now : List AppliedMigration)
        (db : Database S) (history : List AppliedMigration)
        → Sequential 1 (done ++ todo)
        → db.history ≡ some history
        → Matches runner history done
        → ((version : ℕ) → length done < version → has_version version applied ≡ false)
        → Outcome done todo db.schema (run_pending runner applied todo applied_now db)
    unfolding run_pending apply_migration
    run_pending-Outcome done [] applied applied_now db history s kept h new =
        (history, kept, subst (Matches runner history) (sym (append-nil done)) h, refl)
    run_pending-Outcome done (m ∷ todo) applied applied_now db history s kept h new =
        rw (new m.version (omega (arith, Sequential-later 1 done m todo s))) (
          apply_one done todo m db history (m.up db.schema)
            (run_pending runner applied todo (applied_now ++ applied_record runner m ∷ [])) refl
            kept h s
            (λ db' history' kept' h'.
              run_pending-Outcome (done ++ m ∷ []) todo applied
                (applied_now ++ applied_record runner m ∷ []) db' history'
                (subst (Sequential 1) (shift done m todo) s) kept' h'
                (λ version bigger. new version (later_version done m version bigger))))

    run_pending_skip :
        (done todo : List (SqliteMigration S E)) (applied applied_now : List AppliedMigration)
        (db : Database S)
        → All (λ m. has_version m.version applied ≡ true) done
        → run_pending runner applied (done ++ todo) applied_now db
          ≡ run_pending runner applied todo applied_now db
    unfolding run_pending
    run_pending_skip [] todo applied applied_now db h = refl
    run_pending_skip (m ∷ done) todo applied applied_now db h =
        rw (h.0) (run_pending_skip done todo applied applied_now db h.1)

    run_result-Outcome :
        (done todo : List (SqliteMigration S E)) (s : S) (n : ℕ)
        (end : Database S × Result (MigrationError E) (List AppliedMigration))
        → Outcome done todo s end
        → Outcome done todo s (run_result runner n end)
    run_result-Outcome done todo s n (db, ok a) h = h
    run_result-Outcome done todo s n (db, err e) h = h

    run_checked :
        (input done todo : List (SqliteMigration S E)) (db : Database S)
        → normalized_migrations input ≡ ok (done ++ todo)
        → Matches runner (read_applied_migrations db) done
        → run_migrations runner input db
          ≡ run_result runner
              (length done)
              (run_pending runner (read_applied_migrations db) todo [] (ensure_migration_table db))
    unfolding run_migrations read_applied_migrations ensure_migration_table
    run_checked input done todo db e h =
        let s = normalized_migrations-Sequential input (done ++ todo) e in
        rw
          (
            e,
            validate-Matches runner (or_default db.history []) done todo s h,
            run_pending_skip done todo (or_default db.history []) [] (ensure_migration_table db)
                (has_version-Matches runner (or_default db.history []) done h),
          )
          (ap
            (λ n.
              run_result runner n
                (run_pending runner (or_default db.history []) todo [] (ensure_migration_table db)))
            (last_version-Matches runner 0 (or_default db.history []) done
                (Sequential-front 1 done todo s) h
              ∙ omega arith))

    -- A run, on a history that matches the first migrations, applies the others in the order of their
    -- versions, each once, and records them; or it stops at the first one that throws, reports that one, and
    -- leaves the schema and the history of those before it.
    pub run_migrations-Outcome :
        (input done todo : List (SqliteMigration S E)) (db : Database S)
        → normalized_migrations input ≡ ok (done ++ todo)
        → Matches runner (read_applied_migrations db) done
        → Outcome done todo db.schema (run_migrations runner input db)
    unfolding read_applied_migrations ensure_migration_table
    run_migrations-Outcome input done todo db e h =
        subst (Outcome done todo db.schema) (sym (run_checked input done todo db e h)) (
          run_result-Outcome done todo db.schema (length done)
            (run_pending runner (read_applied_migrations db) todo [] (ensure_migration_table db))
            (run_pending-Outcome done todo (read_applied_migrations db) []
              (ensure_migration_table db) (read_applied_migrations db)
              (normalized_migrations-Sequential input (done ++ todo) e) refl h
              (λ version bigger.
                has_version-later runner 1 (read_applied_migrations db) done version
                  (Sequential-front 1 done todo
                    (normalized_migrations-Sequential input (done ++ todo) e))
                  h (omega arith))))

    run_complete :
        (input ms : List (SqliteMigration S E)) (db : Database S) (history : List AppliedMigration)
        → normalized_migrations input ≡ ok ms
        → db.history ≡ some history
        → Matches runner history ms
        → run_migrations runner input db ≡ (
          db,
          ok (record { initial_version = length ms; final_version = length ms; applied = [] }),
        )
    unfolding run_pending read_applied_migrations ensure_migration_table
    run_complete input ms db history e kept h =
        let matched : Matches runner (or_default db.history []) ms = rw kept h in
        let same : ensure_migration_table db ≡ db =
          ap (λ l. record db { history = l }) (rw kept refl) in
        run_checked input ms [] db (e ∙ ap ok (sym (append-nil ms))) matched
        ∙ ap
            (λ (d : Database S). (
              d,
              ok (record { initial_version = length ms; final_version = length ms; applied = [] }),
            ))
            same

    -- Once a run has succeeded, the next one applies nothing and leaves the database as it is; the version
    -- before and behind it is the number of the migrations.
    pub run_migrations_again :
        (input done todo : List (SqliteMigration S E)) (db db' : Database S)
        (r : MigrationRunResult)
        → normalized_migrations input ≡ ok (done ++ todo)
        → Matches runner (read_applied_migrations db) done
        → run_migrations runner input db ≡ (db', ok r)
        → run_migrations runner input db' ≡ (
          db',
          ok (record {
            initial_version = length (done ++ todo);
            final_version = length (done ++ todo);
            applied = [];
          }),
        )
    run_migrations_again input done todo db db' r e h run =
        let (history, kept, all, rest) =
          subst (Outcome done todo db.schema) run (run_migrations-Outcome input done todo db e h) in
        run_complete input (done ++ todo) db' history e kept all
