-- ===== src/Tests/GetOpts.antt =====
-- Command lines of an object with one option `o`/`out` that takes an argument, and of one that has
-- a long name only.
use my_orm.Prelude.{◌≡◌, ◌≢◌, All, arith, refl, true, [], ◌∷◌, codes, ok}
use my_orm.Common.GetOpts.{
  Opt, GetOpts, empty, add_option, register_option, parse_words, parse, set_present, set_value,
  classify, process_short_option, index_name, check_arguments, validate_option,
}
use my_orm.Prelude.Map
use my_orm.Common.GetOpts.Index.{IsConsistent, IsConsistent-empty, add_option-IsConsistent}
use my_orm.Common.GetOpts.Reading.{parse_long_only_fails}

abbrev out : Opt
out = record {
  short_name = 111;
  long_name = codes "out";
  description = [];
  requires_argument = true;
}

abbrev with_out : GetOpts
with_out = register_option empty out

abbrev long_only : Opt
long_only = record {
  short_name = 0;
  long_name = codes "dir";
  description = [];
  requires_argument = true;
}

abbrev with_long_only : GetOpts
with_long_only = register_option empty long_only

parse_out :
    (parse with_out (codes "-o" ∷ codes "x" ∷ [])
      ≡ ok (set_value (set_present with_out 0) 0 (codes "x")))
unfolding parse parse_words classify process_short_option Map.lookup register_option index_name
    Map.insert check_arguments
parse_out = refl

add_option-IsConsistent_example : IsConsistent with_out
add_option-IsConsistent_example =
    add_option-IsConsistent empty with_out 111 (codes "out") [] true IsConsistent-empty
      (unfold add_option validate_option Map.contains in refl)

with_long_only-IsConsistent : IsConsistent with_long_only
with_long_only-IsConsistent =
    add_option-IsConsistent empty with_long_only 0 (codes "dir") [] true IsConsistent-empty
      (unfold add_option validate_option Map.contains in refl)

parse_long_only_fails_example : parse with_long_only [] ≢ ok with_long_only
parse_long_only_fails_example =
    parse_long_only_fails with_long_only 0 long_only with_long_only-IsConsistent
      (unfold register_option in refl) refl refl [] with_long_only

name_free : All (λ c. c ≢ b'=') (codes "out")
name_free =
    (λ e. absurd (omega arith), (λ e. absurd (omega arith), (λ e. absurd (omega arith), tt)))
