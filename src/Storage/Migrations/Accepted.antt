-- ===== src/Storage/Migrations/Accepted.antt =====
-- What it means that a history is accepted.
use myadmin.Common.{
  ◌≡◌, refl, sym, ap, subst, some, List, [], ◌∷◌, ◌++◌, ◌==◌, nat_eq, string_eq, text_eq, Result,
  ok, err, ◌>>◌, find?,
}
use myadmin.Storage.Migrations.{
  SqliteMigration, AppliedMigration, Runner, history_not_sequential, checksum_mismatch,
  normalized_migrations, is_unchanged, check_record, check_records, check_order,
  validate_applied_migrations,
}
use myadmin.Storage.Migrations.Sequences.{
  guard_ok, Sequential, normalized_migrations-Sequential, find_version, shift, Matches,
}

then_ok :
    {Z : Type 0} (first second : Result Z (Unit {0}))
    → (first >> second) ≡ ok tt
    → (first ≡ ok tt) × (second ≡ ok tt)
then_ok (ok u) second h = (refl, h)
then_ok (err e) second h = cc h

module _ {S E : Type 0} (runner : Runner) where
  split_history :
      (before : List (SqliteMigration S E)) (applied : List AppliedMigration)
      (ms : List (SqliteMigration S E))
      → Sequential 1 (before ++ ms)
      → check_records runner applied (before ++ ms) ≡ ok tt
      → check_order runner applied ms ≡ ok tt
      → (done : List (SqliteMigration S E)) × (todo : List (SqliteMigration S E)) × (ms
          ≡ done ++ todo)
        × Matches runner applied done
  unfolding check_records check_order
  split_history before [] ms s records order = ([], ms, refl, tt)
  split_history before (x ∷ applied) [] s records order = cc order
  split_history before (x ∷ applied) (y ∷ ms) s records order =
      let (version, later_order) =
        guard_ok history_not_sequential (x.version == y.version) (check_order runner applied ms)
          order in
      let same : x.version ≡ y.version = (nat_eq.same_iff x.version y.version).0 version in
      let found : find? (λ m. m.version == x.version) (before ++ y ∷ ms) ≡ some y =
        subst (λ v. find? (λ m. m.version == v) (before ++ y ∷ ms) ≡ some y) (sym same)
          (find_version 1 before y ms s) in
      let (unchanged, later_records) =
        guard_ok (checksum_mismatch x.version) (is_unchanged runner x y)
          (check_records runner applied (before ++ y ∷ ms))
          (subst
            (λ o.
              (check_record runner x o >> check_records runner applied (before ++ y ∷ ms)) ≡ ok tt)
            found records) in
      let (done, todo, split, h) =
        split_history (before ++ y ∷ []) applied ms (subst (Sequential 1) (shift before y ms) s)
          (subst (λ all. check_records runner applied all ≡ ok tt) (shift before y ms)
            later_records)
          later_order in
      (y ∷ done, todo, ap (λ l. y ∷ l) split, (same, unchanged, h))

  -- A history that is accepted is that of the first migrations, whatever they are: none is missing between
  -- them, and none has changed since.
  pub validate_applied_migrations-Matches :
      (input ms : List (SqliteMigration S E)) (applied : List AppliedMigration)
      → normalized_migrations input ≡ ok ms
      → validate_applied_migrations runner applied ms ≡ ok tt
      → (done : List (SqliteMigration S E)) × (todo : List (SqliteMigration S E)) × (ms
          ≡ done ++ todo)
        × Matches runner applied done
  unfolding validate_applied_migrations
  validate_applied_migrations-Matches input ms applied e h =
      let (records, order) =
        then_ok (check_records runner applied ms) (check_order runner applied ms) h in
      split_history [] applied ms (normalized_migrations-Sequential input ms e) records order
