-- ===== src/Tests/Path.antt =====
-- Paths as in tests/relation/path_test.cpp.
use my_orm.Prelude.{◌≡◌, refl, true, false, [], ◌∷◌}
use my_orm.Relation.Path.{MessagePath, is_parent_of, is_ancestor_of}

abbrev root : MessagePath
root = 1 ∷ []

abbrev child : MessagePath
child = 1 ∷ 2 ∷ []

abbrev grandchild : MessagePath
grandchild = 1 ∷ 2 ∷ 3 ∷ []

child_tests :
    (is_parent_of root child ≡ true)
    × (is_parent_of root grandchild ≡ false)
    × (is_ancestor_of root grandchild ≡ true)
    × (is_ancestor_of child root ≡ false)
unfolding is_parent_of is_ancestor_of
child_tests = (refl, refl, refl, refl)
