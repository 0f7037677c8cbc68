-- ===== src/Sql/Coverage.antt =====
-- packages/database-postgresql/src/query/split-statements.ts: no part of a text is lost.
use myadmin.Common.{
  ℕ, zero, suc, ◌+◌, ◌≤◌, ◌≡◌, refl, sym, ap, ◌∙◌, ◌⊎◌, inl, inr, true, some, List, [], ◌∷◌, arith,
  nat_eq, string_eq, is_space, length, get_elem?,
}
use myadmin.Sql.Slices.{push_trimmed}
use myadmin.Sql.Trimming.{is_gap}
use myadmin.Sql.Pieces.{Covers, push_trimmed-Covers, Covers-semicolon}
use myadmin.Sql.Postgres.{Scan, step_normal, step, scan, start_scan, split_postgresql_statements}

module _ (sql : List ℕ) where
  -- What a round does to the statements: nothing, or it pushes one at a semicolon.
  abbrev Effect : ℕ → ℕ → Scan → Scan → Type 0
  Effect index c s t =
      ((t.start ≡ s.start) × (t.statements ≡ s.statements))
      ⊎ ((c ≡ b';')
          × (t.start ≡ index + 1)
          × (t.statements ≡ push_trimmed sql s.start index s.statements))

  step_normal-Effect :
      (index c : ℕ) (rest : List ℕ) (s : Scan) → Effect index c s (step_normal sql index c rest s).0
  unfolding step_normal
  step_normal-Effect index c rest s = ground arith

  step-Effect :
      (index c : ℕ) (rest : List ℕ) (s : Scan) → Effect index c s (step sql index c rest s).0
  unfolding step
  step-Effect index c rest s = ground (arith, step_normal-Effect index c rest s)

  -- What holds before each round of the loop.
  record IsKept (index : ℕ) (rest : List ℕ) (s : Scan) : Type 0 where
    covered : Covers sql 0 s.start s.statements
    early : s.start ≤ index
    total : index + length rest ≡ length sql
    suffix : (k : ℕ) → get_elem? rest k ≡ get_elem? sql (k + index)

  semicolon_there :
      (index c : ℕ) (rest : List ℕ) (s : Scan)
      → IsKept index (c ∷ rest) s
      → c ≡ b';'
      → is_gap (get_elem? sql index) ≡ true
  unfolding is_space
  semicolon_there index c rest s k e =
      let found : get_elem? sql index ≡ some c =
        ap (get_elem? sql) (omega arith) ∙ sym (k.suffix 0) in
      rw found (rw e refl)

  pushed-Covers :
      (index c : ℕ) (rest : List ℕ) (s t : Scan)
      → IsKept index (c ∷ rest) s
      → Effect index c s t
      → Covers sql 0 t.start t.statements × (t.start ≤ index + 1)
  pushed-Covers index c rest s t k (inl (same_start, same)) =
      rw (same_start, same) (k.covered, omega (arith, k.early))
  pushed-Covers index c rest s t k (inr (semicolon, moved, pushed)) =
      rw (moved, pushed)
        (
          Covers-semicolon sql index (push_trimmed sql s.start index s.statements)
              (push_trimmed-Covers sql s.start index s.statements k.early (omega (arith, k.total))
                k.covered)
              (semicolon_there index c rest s k semicolon),
          omega arith,
        )

  next-IsKept :
      (index c : ℕ) (rest : List ℕ) (s t : Scan)
      → IsKept index (c ∷ rest) s
      → Effect index c s t
      → IsKept (index + 1) rest t
  next-IsKept index c rest s t k effect =
      let (covered, early) = pushed-Covers index c rest s t k effect in
      record {
        covered = covered;
        early = early;
        total = omega (arith, k.total);
        suffix = λ n. k.suffix (suc n) ∙ ap (get_elem? sql) (omega arith);
      }

  scan-Covers :
      (index skip : ℕ) (rest : List ℕ) (s : Scan)
      → IsKept index rest s
      → Covers sql 0 (scan sql index skip rest s).start (scan sql index skip rest s).statements
        × ((scan sql index skip rest s).start ≤ length sql)
  unfolding scan
  scan-Covers index skip [] s k = (k.covered, omega (arith, k.early, k.total))
  scan-Covers index (suc skip) (c ∷ rest) s k =
      scan-Covers (index + 1) skip rest s (next-IsKept index c rest s s k (inl (refl, refl)))
  scan-Covers index zero (c ∷ rest) s k =
      scan-Covers (index + 1) (step sql index c rest s).1 rest (step sql index c rest s).0
        (next-IsKept index c rest s (step sql index c rest s).0 k (step-Effect index c rest s))

  start_scan-IsKept : IsKept 0 sql (start_scan sql)
  unfolding start_scan
  start_scan-IsKept = record {
    covered = (omega arith, λ i above below. absurd (omega (arith, below)));
    early = omega arith;
    total = omega arith;
    suffix = λ k. ap (get_elem? sql) (omega arith);
  }

  -- No part of a text is lost or changed: the statements stand in the text in their order and do not
  -- overlap, each is the piece of the text between its offsets, is not empty and neither begins nor
  -- ends with white space, and all that is left out is white space and semicolons.
  pub split_postgresql_statements-Covers :
      Covers sql 0 (length sql) (split_postgresql_statements sql)
  unfolding split_postgresql_statements
  split_postgresql_statements-Covers =
      let (covered, early) = scan-Covers 0 0 sql (start_scan sql) start_scan-IsKept in
      push_trimmed-Covers sql (scan sql 0 0 sql (start_scan sql)).start (length sql)
        (scan sql 0 0 sql (start_scan sql)).statements early (omega arith) covered
