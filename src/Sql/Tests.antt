-- ===== src/Sql/Tests.antt =====
-- Runs of the two splitters, and the theorems at them.
use myadmin.Common.{
  ℕ, ◌≡◌, refl, List, [], ◌∷◌, ◌++◌, map, nat_eq, string_eq, text_eq, codes, is_space, length,
}
use myadmin.Sql.Slices.{
  QueryStatement, take, drop, slice, first_non_space, trim_end, trim_statement, push_trimmed,
  starts_with,
}
use myadmin.Sql.Pieces.{Covers}
use myadmin.Sql.Postgres.{
  is_tag_start, is_tag_char, tag_rest, dollar_tag_at, step_normal, step, scan, start_scan,
  split_postgresql_statements,
}
use myadmin.Sql.Mysql.{
  scan as my_scan, start_scan as my_start, step as my_step, step_normal as my_normal,
  split_mysql_statements, directive_at, blank_run, word_run, line_end, drop_keyword, step_line,
  directive_word, step_plain as my_plain,
}
use myadmin.Sql.Ordering.{Ordered}
use myadmin.Sql.MysqlPieces.{split_mysql_statements-Ordered}
use myadmin.Sql.Quoting.{scan-literal}
use myadmin.Sql.Coverage.{split_postgresql_statements-Covers}

abbrev script : List ℕ
script = codes "a ';' ; $x$;$x$ --;"

split_script :
    map (λ (x : QueryStatement). x.sql) (split_postgresql_statements script)
    ≡ codes "a ';'" ∷ codes "$x$;$x$ --;" ∷ []
unfolding split_postgresql_statements scan start_scan step step_normal dollar_tag_at tag_rest
    is_tag_start is_tag_char starts_with push_trimmed trim_statement trim_end first_non_space slice
    take drop is_space
split_script = refl

split_postgresql_statements-Covers_example :
    Covers script 0 (length script) (split_postgresql_statements script)
split_postgresql_statements-Covers_example = split_postgresql_statements-Covers script

abbrev mysql_script : List ℕ
mysql_script = codes "delimiter //\nx; y//"

split_mysql_script :
    map (λ (x : QueryStatement). x.sql) (split_mysql_statements mysql_script) ≡ codes "x; y" ∷ []
unfolding split_mysql_statements my_scan my_start my_step my_normal my_plain step_line directive_at
    directive_word blank_run word_run line_end drop_keyword starts_with push_trimmed trim_statement
    trim_end first_non_space slice take drop is_space
split_mysql_script = refl

split_mysql_statements-Ordered_example :
    Ordered mysql_script 0 (length mysql_script) (split_mysql_statements mysql_script)
split_mysql_statements-Ordered_example = split_mysql_statements-Ordered mysql_script

-- The scanner before the literal of `select 'a;b' x`.
abbrev inner : List ℕ
inner = codes "a;b"

abbrev tail_text : List ℕ
tail_text = codes " x"

scan-literal_example :
    scan script 0 0 (b'\'' ∷ (inner ++ b'\'' ∷ tail_text)) (start_scan script)
    ≡ scan script 5 0 tail_text (start_scan script)
scan-literal_example =
    scan-literal script 0 inner tail_text (start_scan script) (unfold start_scan in refl)
      (unfold start_scan in refl) (refl, (refl, (refl, tt))) refl
