-- ===== src/Storage/Migrations/Sequences.antt =====
-- Histories that match migrations, record by record.
use myadmin.Common.{
  ℕ, suc, ◌+◌, ◌≤◌, ◌≡◌, refl, sym, ap, subst, ◌∙◌, Bool, true, false, some, List, [], ◌∷◌, ◌++◌,
  append_assoc, arith, ltb, ◌==◌, nat_eq, string_eq, text_eq, Result, ok, err, ◌>>◌, guard, length,
  find?, All, All-imp,
}
use myadmin.Storage.Migrations.{
  validate_applied_migrations, applied_record, normalized_migrations, migration_checksum,
  last_version, check_migrations, sort_migrations, SqliteMigration, AppliedMigration,
  not_sequential, Runner, check_sequence, has_version, is_unchanged, check_records, check_order,
  insert_applied,
}

pub guard_ok :
    {Z : Type 0} (e : Z) (b : Bool) (rest : Result Z (Unit {0}))
    → (guard b e >> rest) ≡ ok tt
    → (b ≡ true) × (rest ≡ ok tt)
guard_ok e true rest h = (refl, h)
guard_ok e false rest h = cc h

both_ok :
    {A Z : Type 0} (first second : Result Z (Unit {0})) (x y : A)
    → (first >> second >> ok x) ≡ ok y
    → (second ≡ ok tt) × (x ≡ y)
both_ok (ok u) (ok v) x y h = (refl, cc h)
both_ok (ok u) (err e) x y h = cc h
both_ok (err e) second x y h = cc h

module _ {S E : Type 0} where
  -- The versions are `k`, `k + 1`, …
  abbrev pub Sequential : ℕ → List (SqliteMigration S E) → Type 0
  Sequential k [] = Unit
  Sequential k (m ∷ ms) = (m.version ≡ k) × Sequential (suc k) ms

  pub check_sequence-Sequential :
      (k : ℕ) (ms : List (SqliteMigration S E)) → check_sequence k ms ≡ ok tt → Sequential k ms
  unfolding check_sequence
  check_sequence-Sequential k [] h = tt
  check_sequence-Sequential k (m ∷ ms) h =
      let (here, later) = guard_ok not_sequential (m.version == k) (check_sequence (suc k) ms) h in
      ((nat_eq.same_iff m.version k).0 here, check_sequence-Sequential (suc k) ms later)

  -- Migrations that pass the checks are numbered from 1 on.
  pub normalized_migrations-Sequential :
      (input ms : List (SqliteMigration S E))
      → normalized_migrations input ≡ ok ms
      → Sequential 1 ms
  unfolding normalized_migrations
  normalized_migrations-Sequential input ms h =
      let (sequence, same) =
        both_ok (check_migrations [] (sort_migrations input))
          (check_sequence 1 (sort_migrations input)) (sort_migrations input) ms h in
      subst (Sequential 1) same (check_sequence-Sequential 1 (sort_migrations input) sequence)

  pub Sequential-later :
      (k : ℕ) (before : List (SqliteMigration S E)) (m : SqliteMigration S E)
      (after : List (SqliteMigration S E))
      → Sequential k (before ++ m ∷ after)
      → m.version ≡ k + length before
  Sequential-later k [] m after h = h.0 ∙ omega arith
  Sequential-later k (x ∷ before) m after h =
      Sequential-later (suc k) before m after h.1 ∙ omega arith

  pub find_version :
      (k : ℕ) (before : List (SqliteMigration S E)) (m : SqliteMigration S E)
      (after : List (SqliteMigration S E))
      → Sequential k (before ++ m ∷ after)
      → find? (λ x. x.version == m.version) (before ++ m ∷ after) ≡ some m
  find_version k [] m after h = rw ((nat_eq.same_iff m.version m.version).1 refl) refl
  find_version k (x ∷ before) m after h =
      let earlier : (x.version == m.version) ≡ false =
        ground (arith, h.0, Sequential-later (suc k) before m after h.1) in
      rw earlier (find_version (suc k) before m after h.1)

  pub Sequential-front :
      (k : ℕ) (before after : List (SqliteMigration S E))
      → Sequential k (before ++ after)
      → Sequential k before
  Sequential-front k [] after h = tt
  Sequential-front k (x ∷ before) after h = (h.0, Sequential-front (suc k) before after h.1)

  pub shift :
      (before : List (SqliteMigration S E)) (m : SqliteMigration S E)
      (after : List (SqliteMigration S E))
      → before ++ m ∷ after ≡ (before ++ m ∷ []) ++ after
  shift before m after = rw append_assoc refl

  module _ (runner : Runner) where
    -- The history is that of these migrations.
    abbrev pub Matches : List AppliedMigration → List (SqliteMigration S E) → Type 0
    Matches [] [] = Unit
    Matches [] (m ∷ ms) = ⊥
    Matches (r ∷ applied) [] = ⊥
    Matches (r ∷ applied) (m ∷ ms) =
        (r.version ≡ m.version) × (is_unchanged runner r m ≡ true) × Matches applied ms

    pub Matches-append :
        (applied : List AppliedMigration) (ms : List (SqliteMigration S E)) (r : AppliedMigration)
        (m : SqliteMigration S E)
        → Matches applied ms
        → r.version ≡ m.version
        → is_unchanged runner r m ≡ true
        → Matches (applied ++ r ∷ []) (ms ++ m ∷ [])
    Matches-append [] [] r m h v u = (v, u, tt)
    Matches-append [] (y ∷ ms) r m h v u = elim h [ ]
    Matches-append (x ∷ applied) [] r m h v u = elim h [ ]
    Matches-append (x ∷ applied) (y ∷ ms) r m h v u =
        (h.0, h.1, Matches-append applied ms r m h.2 v u)

    pub check_order-Matches :
        (applied : List AppliedMigration) (ms more : List (SqliteMigration S E))
        → Matches applied ms
        → check_order runner applied (ms ++ more) ≡ ok tt
    unfolding check_order
    check_order-Matches [] [] more h = refl
    check_order-Matches [] (y ∷ ms) more h = elim h [ ]
    check_order-Matches (x ∷ applied) [] more h = elim h [ ]
    check_order-Matches (x ∷ applied) (y ∷ ms) more h =
        rw (h.0, (nat_eq.same_iff y.version y.version).1 refl)
          (check_order-Matches applied ms more h.2)

    pub check_records-Matches :
        (before : List (SqliteMigration S E)) (applied : List AppliedMigration)
        (ms more : List (SqliteMigration S E))
        → Sequential 1 (before ++ (ms ++ more))
        → Matches applied ms
        → check_records runner applied (before ++ (ms ++ more)) ≡ ok tt
    unfolding check_records
    check_records-Matches before [] [] more s h = refl
    check_records-Matches before [] (y ∷ ms) more s h = elim h [ ]
    check_records-Matches before (x ∷ applied) [] more s h = elim h [ ]
    check_records-Matches before (x ∷ applied) (y ∷ ms) more s h =
        let found : find? (λ m. m.version == x.version) (before ++ y ∷ (ms ++ more)) ≡ some y =
          subst (λ v. find? (λ m. m.version == v) (before ++ y ∷ (ms ++ more)) ≡ some y) (sym h.0)
            (find_version 1 before y (ms ++ more) s) in
        rw (found, h.1)
          (subst (λ all. check_records runner applied all ≡ ok tt)
            (sym (shift before y (ms ++ more)))
            (check_records-Matches (before ++ y ∷ []) applied ms more
              (subst (Sequential 1) (shift before y (ms ++ more)) s) h.2))

    pub applied_record-unchanged :
        (m : SqliteMigration S E) → is_unchanged runner (applied_record runner m) m ≡ true
    unfolding is_unchanged
    applied_record-unchanged m =
        rw
          (
            (string_eq.same_iff m.name m.name).1 refl,
            (string_eq.same_iff (migration_checksum runner m) (migration_checksum runner m)).1 refl,
          )
          refl

    -- Versions that come later are in no matching history.
    pub has_version-later :
        (k : ℕ) (applied : List AppliedMigration) (ms : List (SqliteMigration S E)) (version : ℕ)
        → Sequential k ms
        → Matches applied ms
        → k + length ms ≤ version
        → has_version version applied ≡ false
    has_version-later k [] [] version s h le = refl
    has_version-later k [] (y ∷ ms) version s h le = elim h [ ]
    has_version-later k (x ∷ applied) [] version s h le = elim h [ ]
    has_version-later k (x ∷ applied) (y ∷ ms) version s h le =
        let different : (x.version == version) ≡ false = ground (arith, h.0, s.0) in
        rw different (has_version-later (suc k) applied ms version s.1 h.2 (omega arith))

    pub insert_applied-last :
        (k : ℕ) (applied : List AppliedMigration) (ms : List (SqliteMigration S E))
        (r : AppliedMigration)
        → Sequential k ms
        → Matches applied ms
        → k + length ms ≤ r.version
        → insert_applied r applied ≡ some (applied ++ r ∷ [])
    unfolding insert_applied
    insert_applied-last k [] [] r s h le = refl
    insert_applied-last k [] (y ∷ ms) r s h le = elim h [ ]
    insert_applied-last k (x ∷ applied) [] r s h le = elim h [ ]
    insert_applied-last k (x ∷ applied) (y ∷ ms) r s h le =
        let different : (r.version == x.version) ≡ false = ground (arith, h.0, s.0) in
        let bigger : ltb r.version x.version ≡ false = ground (arith, h.0, s.0) in
        rw (different, bigger, insert_applied-last (suc k) applied ms r s.1 h.2 (omega arith)) refl

    pub validate-Matches :
        (applied : List AppliedMigration) (ms more : List (SqliteMigration S E))
        → Sequential 1 (ms ++ more)
        → Matches applied ms
        → validate_applied_migrations runner applied (ms ++ more) ≡ ok tt
    unfolding validate_applied_migrations
    validate-Matches applied ms more s h =
        rw (check_records-Matches [] applied ms more s h, check_order-Matches applied ms more h)
          refl

    -- The last version is the number of the migrations.
    pub last_version-Matches :
        (k : ℕ) (applied : List AppliedMigration) (ms : List (SqliteMigration S E))
        → Sequential (suc k) ms
        → Matches applied ms
        → last_version applied k ≡ k + length ms
    last_version-Matches k [] [] s h = omega arith
    last_version-Matches k [] (y ∷ ms) s h = elim h [ ]
    last_version-Matches k (x ∷ applied) [] s h = elim h [ ]
    last_version-Matches k (x ∷ applied) (y ∷ ms) s h =
        ap (last_version applied) (h.0 ∙ s.0)
        ∙ last_version-Matches (suc k) applied ms s.1 h.2
        ∙ omega arith

    pub has_version-Matches :
        (applied : List AppliedMigration) (ms : List (SqliteMigration S E))
        → Matches applied ms
        → All (λ m. has_version m.version applied ≡ true) ms
    has_version-Matches [] [] h = tt
    has_version-Matches [] (y ∷ ms) h = elim h [ ]
    has_version-Matches (x ∷ applied) [] h = elim h [ ]
    has_version-Matches (x ∷ applied) (y ∷ ms) h = (
      ground (arith, h.0),
      All-imp (λ m. has_version m.version applied ≡ true)
          (λ m. has_version m.version (x ∷ applied) ≡ true) (λ m there. ground (arith, there)) ms
          (has_version-Matches applied ms h.2),
    )
