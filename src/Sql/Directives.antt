-- ===== src/Sql/Directives.antt =====
-- packages/database-mysql/src/query/split-statements.ts: how far a directive reaches.
use myadmin.Common.{
  ℕ, ◌+◌, ◌≤◌, ◌≡◌, refl, sym, ap, ◌∙◌, inl, inr, true, ◌||◌, Option, none, some, List, [], ◌∷◌,
  arith, if◌then◌else◌, ◌==◌, nat_eq, string_eq, text_eq, Bool-cases, codes, length,
}
use myadmin.Sql.Slices.{starts_with}
use myadmin.Sql.Mysql.{
  blank_run, word_run, line_end, drop_keyword, directive_end, directive_word, directive_rest,
  directive_at,
}

pub starts_with-length : (ds cs : List ℕ) → starts_with ds cs ≡ true → length ds ≤ length cs
unfolding starts_with
starts_with-length [] cs h = omega arith
starts_with-length (d ∷ ds) [] h = cc h
starts_with-length (d ∷ ds) (c ∷ cs) h = ground (arith, starts_with-length ds cs)

pub blank_run-length : (cs : List ℕ) → (blank_run cs).0 + length (blank_run cs).1 ≡ length cs
unfolding blank_run
blank_run-length [] = omega arith
blank_run-length (c ∷ cs) = ground (arith, blank_run-length cs)

pub word_run-length : (cs : List ℕ) → length (word_run cs).0 + length (word_run cs).1 ≡ length cs
unfolding word_run
word_run-length [] = omega arith
word_run-length (c ∷ cs) = ground (arith, word_run-length cs)

pub line_end-length : (cs : List ℕ) (n : ℕ) → line_end cs ≡ some n → n ≤ length cs
unfolding line_end
line_end-length [] n h = ground arith
line_end-length (c ∷ []) n h = ground arith
line_end-length (c ∷ (d ∷ cs)) n h = ground arith

pub drop_keyword-length :
    (ks cs rest : List ℕ) → drop_keyword ks cs ≡ some rest → length ks + length rest ≡ length cs
unfolding drop_keyword
drop_keyword-length [] cs rest h = ground arith
drop_keyword-length (k ∷ ks) [] rest h = cc h
drop_keyword-length (k ∷ ks) (c ∷ cs) rest h = ground (arith, drop_keyword-length ks cs rest)

pub directive_end-length :
    (word found : List ℕ) (k n : ℕ) (o : Option ℕ)
    → directive_end found k o ≡ some (word, n)
    → (m : ℕ) × (o ≡ some m) × (n ≡ k + m)
directive_end-length word found k n none h = cc h
directive_end-length word found k n (some m) h = (m, refl, ground arith)

pub directive_word-length :
    (k n : ℕ) (cs word : List ℕ)
    → directive_word k cs ≡ some (word, n)
    → (k ≤ n) × (n ≤ k + length cs)
unfolding directive_word
directive_word-length k n cs word h =
    elim (Bool-cases (((blank_run cs).0 == 0) || (length (word_run (blank_run cs).1).0 == 0))) [
      | inl empty ↦ cc (
        h,
        ap
            (λ b.
              if b
              then none
              else directive_end (word_run (blank_run cs).1).0
                  (k
                    + (blank_run cs).0
                    + length (word_run (blank_run cs).1).0
                    + (blank_run (word_run (blank_run cs).1).1).0)
                  (line_end (blank_run (word_run (blank_run cs).1).1).1))
            empty,
      )
      | inr full ↦
          let (m, ends, sum) =
            directive_end-length word (word_run (blank_run cs).1).0
              (k
                + (blank_run cs).0
                + length (word_run (blank_run cs).1).0
                + (blank_run (word_run (blank_run cs).1).1).0)
              n (line_end (blank_run (word_run (blank_run cs).1).1).1)
              (sym (
                  ap
                    (λ b.
                      if b
                      then none
                      else directive_end (word_run (blank_run cs).1).0
                          (k
                            + (blank_run cs).0
                            + length (word_run (blank_run cs).1).0
                            + (blank_run (word_run (blank_run cs).1).1).0)
                          (line_end (blank_run (word_run (blank_run cs).1).1).1))
                    full)
                ∙ h) in
          (
            omega (arith, sum),
            omega (
              arith,
              sum,
              line_end-length (blank_run (word_run (blank_run cs).1).1).1 m ends,
              blank_run-length cs,
              word_run-length (blank_run cs).1,
              blank_run-length (word_run (blank_run cs).1).1,
            ),
          )
    ]

pub directive_rest-length :
    (k n : ℕ) (o : Option (List ℕ)) (word : List ℕ)
    → directive_rest k o ≡ some (word, n)
    → (rest : List ℕ) × (o ≡ some rest) × (k ≤ n) × (n ≤ k + length rest)
directive_rest-length k n none word h = cc h
directive_rest-length k n (some rest) word h = (
  rest,
  refl,
  (directive_word-length k n rest word h).0,
  (directive_word-length k n rest word h).1,
)

pub directive_at-length :
    (cs word : List ℕ) (n : ℕ) → directive_at cs ≡ some (word, n) → (1 ≤ n) × (n ≤ length cs)
unfolding directive_at
directive_at-length cs word n h =
    let (rest, found, low, high) =
      directive_rest-length ((blank_run cs).0 + 9) n
        (drop_keyword (codes "delimiter") (blank_run cs).1) word h in
    let size = drop_keyword-length (codes "delimiter") (blank_run cs).1 rest found in
    (omega arith, omega (arith, size, blank_run-length cs))
