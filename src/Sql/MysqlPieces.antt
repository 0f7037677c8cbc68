-- ===== src/Sql/MysqlPieces.antt =====
-- packages/database-mysql/src/query/split-statements.ts: where the statements stand in the text.
use myadmin.Common.{
  ℕ, zero, suc, ◌+◌, ◌-◌, ◌≤◌, ◌≡◌, refl, sym, subst, ◌⊎◌, inl, inr, ◌&&◌, Option, none, some, List,
  [], ◌∷◌, arith, ltb, nat_eq, string_eq, text_eq, Bool-cases, length, if_both,
}
use myadmin.Sql.Slices.{push_trimmed, starts_with}
use myadmin.Sql.Ordering.{Ordered, Ordered-extend, push_trimmed-Ordered}
use myadmin.Sql.Directives.{starts_with-length, directive_at-length}
use myadmin.Sql.Mysql.{
  Mode, normal, single, double, backtick, line_comment, block_comment, Scan, directive_at,
  step_normal, step_line, step_directive, step_mode, step_plain, step_comment, step_quoted, step,
  scan, start_scan, split_mysql_statements,
}

-- A round that leaves the statements as they are.
record IsUnchanged (s : Scan) (r : Scan × ℕ) : Type 0 where
  start : r.0.start ≡ s.start
  statements : r.0.statements ≡ s.statements

unchanged :
    (s : Scan) (r : Scan × ℕ)
    → r.0.start ≡ s.start
    → r.0.statements ≡ s.statements
    → IsUnchanged s r
unchanged s r p q = record { start = p; statements = q }

module _ (sql : List ℕ) where
  -- What a round does to the statements: nothing, or it moves behind a delimiter or a directive of `n` units,
  -- which it passes.
  abbrev Effect : ℕ → ℕ → List ℕ → Scan → Scan × ℕ → Type 0
  Effect index c rest s r =
      IsUnchanged s r
      ⊎ ((n : ℕ) × (1 ≤ n)
          × (n ≤ length (c ∷ rest))
          × (r.0.start ≡ index + n)
          × (r.1 ≡ n - 1)
          × ((r.0.statements ≡ push_trimmed sql s.start index s.statements)
              ⊎ (r.0.statements ≡ s.statements)))

  step_plain-IsUnchanged :
      (c : ℕ) (rest : List ℕ) (s : Scan) → IsUnchanged s (step_plain sql c rest s)
  unfolding step_plain
  step_plain-IsUnchanged c rest s = record { start = ground arith; statements = ground arith }

  step_normal-Effect :
      (index c : ℕ) (rest : List ℕ) (s : Scan)
      → Effect index c rest s (step_normal sql index c rest s)
  unfolding step_normal
  step_normal-Effect index c rest s =
      elim (Bool-cases (ltb 0 (length s.delimiter) && starts_with s.delimiter (c ∷ rest))) [
        | inl there ↦ rw there (
            inr (
              length s.delimiter,
              ground (arith, there),
              starts_with-length s.delimiter (c ∷ rest) (ground (arith, there)),
              refl,
              refl,
              inl refl,
            ))
        | inr elsewhere ↦ rw elsewhere (inl (step_plain-IsUnchanged c rest s))
      ]

  step_directive-Effect :
      (index c : ℕ) (rest : List ℕ) (s : Scan) (o : Option (List ℕ × ℕ))
      → directive_at (c ∷ rest) ≡ o
      → Effect index c rest s (step_directive sql index c rest s o)
  step_directive-Effect index c rest s none e = step_normal-Effect index c rest s
  step_directive-Effect index c rest s (some (word, n)) e =
      let (low, high) = directive_at-length (c ∷ rest) word n e in
      inr (n, low, high, refl, refl, inr refl)

  step_line-Effect :
      (index c : ℕ) (rest : List ℕ) (s : Scan)
      → Effect index c rest s (step_line sql index c rest s)
  unfolding step_line
  step_line-Effect index c rest s =
      if_both (Effect index c rest s) s.line_start
        (step_directive-Effect index c rest s (directive_at (c ∷ rest)) refl)
        (step_normal-Effect index c rest s)

  step_quoted-IsUnchanged :
      (c : ℕ) (rest : List ℕ) (s : Scan) → IsUnchanged s (step_quoted sql c rest s)
  unfolding step_quoted
  step_quoted-IsUnchanged c rest s = record { start = ground arith; statements = ground arith }

  step_comment-IsUnchanged :
      (c : ℕ) (rest : List ℕ) (s : Scan) → IsUnchanged s (step_comment sql c rest s)
  unfolding step_comment
  step_comment-IsUnchanged c rest s = record { start = ground arith; statements = ground arith }

  step_mode-Effect :
      (m : Mode) (index c : ℕ) (rest : List ℕ) (s : Scan)
      → Effect index c rest s (step_mode sql m index c rest s)
  step_mode-Effect normal index c rest s = step_line-Effect index c rest s
  step_mode-Effect single index c rest s = inl (step_quoted-IsUnchanged c rest s)
  step_mode-Effect double index c rest s = inl (step_quoted-IsUnchanged c rest s)
  step_mode-Effect backtick index c rest s = inl (step_quoted-IsUnchanged c rest s)
  step_mode-Effect line_comment index c rest s =
      inl (record { start = ground arith; statements = ground arith })
  step_mode-Effect block_comment index c rest s = inl (step_comment-IsUnchanged c rest s)

  step-Effect :
      (index c : ℕ) (rest : List ℕ) (s : Scan) → Effect index c rest s (step sql index c rest s)
  unfolding step
  step-Effect index c rest s = step_mode-Effect s.mode index c rest s

  -- What holds before each round.
  record IsKept (index skip : ℕ) (rest : List ℕ) (s : Scan) : Type 0 where
    kept : Ordered sql 0 s.start s.statements
    early : s.start ≤ index + skip
    inside : s.start ≤ length sql
    total : index + length rest ≡ length sql

  IsKept-next :
      (index c : ℕ) (rest : List ℕ) (s : Scan) (r : Scan × ℕ)
      → IsKept index 0 (c ∷ rest) s
      → Effect index c rest s r
      → IsKept (index + 1) r.1 rest r.0
  IsKept-next index c rest s r k (inl same) = record {
    kept =
        subst (λ n. Ordered sql 0 n r.0.statements) (sym same.start)
          (subst (Ordered sql 0 s.start) (sym same.statements) k.kept);
    early = omega (arith, same.start, k.early);
    inside = omega (arith, same.start, k.inside);
    total = omega (arith, k.total);
  }
  IsKept-next index c rest s r k (inr (n, low, high, start, skip, inl pushed)) = record {
    kept =
        subst (λ m. Ordered sql 0 m r.0.statements) (sym start)
          (subst (Ordered sql 0 (index + n)) (sym pushed) (
            Ordered-extend sql 0 index (index + n) (push_trimmed sql s.start index s.statements)
              (push_trimmed-Ordered sql s.start index s.statements (omega (arith, k.early))
                (omega (arith, k.total)) k.kept)
              (omega arith)));
    early = omega arith;
    inside = omega (arith, k.total);
    total = omega (arith, k.total);
  }
  IsKept-next index c rest s r k (inr (n, low, high, start, skip, inr same)) = record {
    kept =
        subst (λ m. Ordered sql 0 m r.0.statements) (sym start)
          (subst (Ordered sql 0 (index + n)) (sym same) (
            Ordered-extend sql 0 s.start (index + n) s.statements k.kept (omega (arith, k.early))));
    early = omega arith;
    inside = omega (arith, k.total);
    total = omega (arith, k.total);
  }

  scan-Ordered :
      (index skip : ℕ) (rest : List ℕ) (s : Scan)
      → IsKept index skip rest s
      → Ordered sql 0 (length sql) (
          push_trimmed sql
            (scan sql index skip rest s).start
            (length sql)
            (scan sql index skip rest s).statements)
  unfolding scan
  scan-Ordered index skip [] s k =
      push_trimmed-Ordered sql s.start (length sql) s.statements k.inside (omega arith) k.kept
  scan-Ordered index (suc skip) (c ∷ rest) s k = scan-Ordered (index + 1) skip rest s (record {
    kept = k.kept;
    early = omega (arith, k.early);
    inside = k.inside;
    total = omega (arith, k.total);
  })
  scan-Ordered index zero (c ∷ rest) s k =
      scan-Ordered (index + 1) (step sql index c rest s).1 rest (step sql index c rest s).0
        (IsKept-next index c rest s (step sql index c rest s) k (step-Effect index c rest s))

  -- For every text, `splitMysqlStatements` returns its statements in the order of the text, none overlapping
  -- another: each is the piece of the text between its offsets, and that piece is not empty and neither starts
  -- nor ends with white space.
  pub split_mysql_statements-Ordered : Ordered sql 0 (length sql) (split_mysql_statements sql)
  unfolding split_mysql_statements start_scan
  split_mysql_statements-Ordered = scan-Ordered 0 0 sql (start_scan sql) (record {
    kept = omega arith;
    early = omega arith;
    inside = omega arith;
    total = omega arith;
  })
