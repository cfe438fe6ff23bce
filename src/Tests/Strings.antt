-- ===== src/Tests/Strings.antt =====
-- Plain strings and statements of lib/requests/query.cpp.
use my_orm.Prelude.{◌≡◌, refl, true, none, some, List, [], ◌∷◌, Bytes, codes, ok, err}
use my_orm.Prelude.Int.{pos}
use my_orm.Requests.Clause.{null, integer, bool, all, select, delete, nil, cons}
use my_orm.Requests.Strings.{
  lower_text, upper_text, substr_text, replace_text, trim_text, right_text, pos_text,
  split_part_text,
}
use my_orm.Requests.Strings.Replaced.{ArePartsOf, replace_parts}
use my_orm.Requests.Statements.{
  val_int, val_bool, select_at, select_where, limit, delete_at, truncate_at, empty_path,
}

case_test : (lower_text (codes "aBC1") ≡ codes "abc1") × (upper_text (codes "aBC1") ≡ codes "ABC1")
unfolding lower_text upper_text
case_test = (refl, refl)

substr_test :
    (substr_text (codes "abc") 1 9 ≡ some (codes "bc")) × (substr_text (codes "abc") 4 1 ≡ none)
unfolding substr_text
substr_test = (refl, refl)

replace_test : replace_text (codes "a-b--c") (codes "-") (codes "+-") ≡ some (codes "a+-b+-+-c")
unfolding replace_text
replace_test = refl

trim_test : (trim_text (codes " a b ") ≡ codes "a b") × (right_text (codes "abc") 2 ≡ codes "bc")
unfolding trim_text right_text
trim_test = (refl, refl)

-- SPLIT_PART of the database counts from 1, and gives a here, as POSITION gives 2.
part_test :
    (split_part_text (codes "a,b") (codes ",") 1 ≡ some (codes "b"))
    × (pos_text (codes ",") (codes "a,b") ≡ some 1)
unfolding split_part_text pos_text
part_test = (refl, refl)

select_test :
    select_at (λ path. path) (7 ∷ []) (all ∷ val_int (pos 1) ∷ [])
    ≡ ok (select 7 (cons all (cons (integer (pos 1)) nil)) null null null null null)
unfolding select_at val_int
select_test = refl

where_test :
    limit (val_int (pos 5)) (select_where (val_bool true) (select 7 nil null null null null null))
    ≡ select 7 nil (bool true) null null null (integer (pos 5))
unfolding limit select_where val_int val_bool
where_test = refl

delete_test : (delete_at (3 ∷ 7 ∷ []) ≡ ok (delete 7 null)) × (truncate_at [] ≡ err empty_path)
unfolding delete_at truncate_at
delete_test = (refl, refl)

replace_parts_example : (parts : List Bytes) × ArePartsOf (codes "-") (codes "a-b--c") parts
replace_parts_example = replace_parts (codes "a-b--c") b'-' []
