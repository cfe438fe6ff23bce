-- ===== src/Tests/Format.antt =====
-- Split, Trim, options and Format of lib/common/format.h, format.cpp.
use my_orm.Prelude.{
  ℕ, ◌+◌, ◌-◌, ◌*◌, ◌≤◌, ◌<◌, ◌≡◌, ◌⊎◌, refl, true, Option, none, some, List, [], ◌∷◌, ◌++◌, Bytes,
  codes, All, length, ok, arith,
}
use my_orm.Prelude.Int.{ℤ}
use my_orm.Common.Text.Split.{trim, split}
use my_orm.Common.Text.Split.Pieces.{join, Lacks, split_pieces}
use my_orm.Common.Text.Options.{FormatOptions, entry, empty, string, bool, options}
use my_orm.Common.Text.Options.Parse.{parse_from_string}
use my_orm.Common.Text.Options.Laws.{parse_from_string_total}
use my_orm.Common.Format.{Argument, format}
use my_orm.Common.Format.Handlers.{handle_string, handle_sequence}
use my_orm.Common.Format.Contract.{template, filled, format-template}

split_test :
    split (codes "a, b,, c") (codes ",") 3 ≡ some (codes "a" ∷ codes " b" ∷ codes ", c" ∷ [])
unfolding split
split_test = refl

trim_test : trim (codes "  a b ") ≡ codes "a b"
unfolding trim
trim_test = refl

options_test :
    parse_from_string (codes "upper, fill='\\'', element={width=3},n=true")
    ≡ some (
        entry (codes "upper") (bool true) (
          entry (codes "fill") (string (codes "'")) (
            entry
              (codes "element")
              (options (entry (codes "width") (string (codes "3")) empty))
              (entry (codes "n") (bool true) empty))))
unfolding parse_from_string
options_test = refl

abbrev number : Bytes → Option ℤ
number [] = none
number (c ∷ s) = some (ℤ.pos (c - b'0'))

abbrev arguments : List Argument
arguments =
    handle_string number (codes "MyORM")
    ∷ handle_sequence number
        (handle_string number (codes "x") ∷ handle_string number (codes "y") ∷ [])
    ∷ []

format_tests :
    (format (codes "$2{}: $1{maxlength=2}, $2{element={width=2}}") arguments
      ≡ ok (codes "[x, y]: My, [ x,  y]"))
    × (format (codes "{upper} has {} and {}") arguments ≡ ok (codes "MYORM has [x, y] and {}"))
unfolding format handle_string handle_sequence my_orm.Prelude.Map.lookup my_orm.Prelude.Map.insert
format_tests = (refl, refl)

split_pieces_example :
    (pieces : List Bytes) × (split (codes "a,b,") (codes ",") 0 ≡ some pieces)
    × ((join (codes ",") pieces ≡ codes "a,b,")
        ⊎ (join (codes ",") pieces ++ codes "," ≡ codes "a,b,"))
    × (0 < 0 → length pieces ≤ 0)
    × (◌≡◌ {A = ℕ} 0 0 → All (Lacks (codes ",")) pieces)
split_pieces_example = split_pieces (codes "a,b,") (codes ",") 0 (omega arith)

parse_from_string_total_example : (o : FormatOptions) × (parse_from_string (codes "a={b") ≡ some o)
parse_from_string_total_example = parse_from_string_total (codes "a={b")

abbrev places : List (Bytes × Bytes)
places = (codes "upper", codes " has ") ∷ ([], []) ∷ []

format-template_example :
    format (template (codes "Is ") places) arguments ≡ ok (filled arguments 0 (codes "Is ") places)
format-template_example =
    format-template (codes "Is ") places arguments (ground arith) (ground arith)
