-- ===== src/Storage/Tests.antt =====
-- The theorems on migrations at a concrete database, with two migrations.
use myadmin.Common.{
  String, ◌≡◌, refl, some, List, [], ◌∷◌, ◌++◌, nat_eq, string_eq, text_eq, Result, ok, err,
  is_space, all_space, is_blank,
}
use myadmin.Storage.Migrations.{
  SqliteMigration, Database, Runner, normalized_migrations, insert_applied, applied_record,
  validate_applied_migrations, sort_migrations, insert_migration, check_migrations, check_sequence,
  read_applied_migrations, ensure_migration_table, apply_migration, run_pending, run_migrations,
  is_unchanged, check_records, check_order,
}
use myadmin.Storage.Migrations.Sequences.{Matches}
use myadmin.Storage.Migrations.Accepted.{validate_applied_migrations-Matches}
use myadmin.Storage.Migrations.Running.{Outcome, run_migrations-Outcome, run_migrations_again}

-- A schema is the list of its tables.
abbrev create : String → List String → Result String (List String)
create name tables = ok (tables ++ name ∷ [])

abbrev initial : SqliteMigration (List String) String
initial = record { version = 1; name = "initial"; source = "a"; up = create "users" }

abbrev tags : SqliteMigration (List String) String
tags = record { version = 2; name = "tags"; source = "b"; up = create "tags" }

abbrev broken : SqliteMigration (List String) String
broken = record { version = 2; name = "tags"; source = "b"; up = λ tables. err "no such table" }

abbrev plain : Runner
plain = record { now = λ version. "now"; hash = λ version name source. source }

abbrev old : Database (List String)
old = record { schema = "users" ∷ []; history = some (applied_record plain initial ∷ []) }

sorted : normalized_migrations (tags ∷ initial ∷ []) ≡ ok (initial ∷ tags ∷ [])
unfolding normalized_migrations sort_migrations insert_migration check_migrations check_sequence
    is_blank all_space is_space
sorted = refl

sorted_broken : normalized_migrations (broken ∷ initial ∷ []) ≡ ok (initial ∷ broken ∷ [])
unfolding normalized_migrations sort_migrations insert_migration check_migrations check_sequence
    is_blank all_space is_space
sorted_broken = refl

matches : Matches plain (read_applied_migrations old) (initial ∷ [])
unfolding read_applied_migrations is_unchanged
matches = (refl, refl, tt)

run_migrations-Outcome_example :
    Outcome plain
      (initial ∷ [])
      (broken ∷ [])
      ("users" ∷ [])
      (run_migrations plain (broken ∷ initial ∷ []) old)
run_migrations-Outcome_example =
    run_migrations-Outcome plain (broken ∷ initial ∷ []) (initial ∷ []) (broken ∷ []) old
      sorted_broken matches

abbrev new : Database (List String)
new = record {
  schema = "users" ∷ "tags" ∷ [];
  history = some (applied_record plain initial ∷ applied_record plain tags ∷ []);
}

first_run : run_migrations plain (tags ∷ initial ∷ []) old ≡ (
  new,
  ok (record { initial_version = 1; final_version = 2; applied = applied_record plain tags ∷ [] }),
)
unfolding run_migrations normalized_migrations sort_migrations insert_migration check_migrations
    check_sequence is_blank all_space is_space read_applied_migrations ensure_migration_table
    validate_applied_migrations check_records check_order is_unchanged run_pending apply_migration
    insert_applied
first_run = refl

run_migrations_again_example :
    run_migrations plain (tags ∷ initial ∷ []) new
    ≡ (new, ok (record { initial_version = 2; final_version = 2; applied = [] }))
run_migrations_again_example =
    run_migrations_again plain (tags ∷ initial ∷ []) (initial ∷ []) (tags ∷ []) old new
      (record { initial_version = 1; final_version = 2; applied = applied_record plain tags ∷ [] })
      sorted matches first_run

accepted :
    validate_applied_migrations plain (applied_record plain initial ∷ []) (initial ∷ tags ∷ [])
    ≡ ok tt
unfolding validate_applied_migrations check_records check_order is_unchanged
accepted = refl

validate_applied_migrations-Matches_example :
    (done : List (SqliteMigration (List String) String)) × (todo : List
      (SqliteMigration (List String) String))
    × (initial ∷ tags ∷ [] ≡ done ++ todo)
    × Matches plain (applied_record plain initial ∷ []) done
validate_applied_migrations-Matches_example =
    validate_applied_migrations-Matches plain (tags ∷ initial ∷ []) (initial ∷ tags ∷ [])
      (applied_record plain initial ∷ []) sorted accepted
