-- ===== src/Sql/Quoting.antt =====
-- packages/database-postgresql/src/query/split-statements.ts: literals are passed over as a whole.
use myadmin.Common.{
  ℕ, ◌+◌, ◌≡◌, sym, ap, ◌∙◌, Bool, true, false, not, ◌&&◌, none, List, [], ◌∷◌, ◌++◌, arith, ◌==◌,
  nat_eq, string_eq, length, All,
}
use myadmin.Sql.Slices.{next_is}
use myadmin.Sql.Postgres.{Scan, normal, single, step_normal, step, scan}

-- A unit that means nothing to the scanner within a literal.
abbrev pub is_plain : ℕ → Bool
is_plain c = not (c == b'\'') && not (c == b'\\')

module _ (sql : List ℕ) where
  step_plain :
      (index c : ℕ) (rest : List ℕ) (s : Scan)
      → is_plain c ≡ true
      → step sql index c rest (record s { mode = single }) ≡ (record s { mode = single }, 0)
  unfolding step
  step_plain index c rest s h = ground arith

  scan_plain :
      (index : ℕ) (body rest : List ℕ) (s : Scan)
      → All (λ c. is_plain c ≡ true) body
      → scan sql index 0 (body ++ rest) (record s { mode = single })
        ≡ scan sql (index + length body) 0 rest (record s { mode = single })
  unfolding scan
  scan_plain index [] rest s h =
      ap (λ i. scan sql i 0 rest (record s { mode = single })) (omega arith)
  scan_plain index (c ∷ body) rest s (h, hs) =
      rw (step_plain index c (body ++ rest) s h, scan)
        (scan_plain (index + 1) body rest s hs
          ∙ ap (λ i. scan sql i 0 rest (record s { mode = single })) (omega arith))

  opened :
      (index : ℕ) (rest : List ℕ) (s : Scan)
      → s.mode ≡ normal
      → s.dollar_tag ≡ none
      → step sql index b'\'' rest s ≡ (record s { mode = single }, 0)
  unfolding step step_normal
  opened index rest s m d = ground arith

  closed :
      (index : ℕ) (rest : List ℕ) (s : Scan)
      → next_is b'\'' rest ≡ false
      → step sql index b'\'' rest (record s { mode = single }) ≡ (record s { mode = normal }, 0)
  unfolding step
  closed index rest s h = ground arith

  -- Outside of quotes, comments and dollar quotes, a whole literal in single quotes changes nothing:
  -- whatever it holds, semicolons included, other than quotes and backslashes, the scanner goes on
  -- behind it as it stood before, as long as no further quote follows at once.
  pub scan-literal :
      (index : ℕ) (body rest : List ℕ) (s : Scan)
      → s.mode ≡ normal
      → s.dollar_tag ≡ none
      → All (λ c. is_plain c ≡ true) body
      → next_is b'\'' rest ≡ false
      → scan sql index 0 (b'\'' ∷ (body ++ b'\'' ∷ rest)) s
        ≡ scan sql (index + length body + 2) 0 rest s
  unfolding scan
  scan-literal index body rest s m d plain free =
      let back : record s { mode = normal } ≡ s = ap (λ m. record s { mode = m }) (sym m) in
      rw (opened index (body ++ b'\'' ∷ rest) s m d, scan)
        (scan_plain (index + 1) body (b'\'' ∷ rest) s plain
          ∙ rw (closed (index + 1 + length body) rest s free, scan)
              (rw back (ap (λ i. scan sql i 0 rest s) (omega arith))))
