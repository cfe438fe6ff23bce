-- ===== src/Relation/Manager/Subtree.antt =====
-- GetMessagesFromSubtree of lib/relation/relation_manager.cpp.
use my_orm.Prelude.{
  ℕ, ◌≡◌, ◌⊎◌, ◌↔◌, inl, inr, refl, ap, sym, ◌∙◌, Bool, true, false, ◌||◌, none, some, List, [],
  ◌∷◌, ◌++◌, nat_eq, bytes_eq, ◌==◌, if◌then◌else◌, arith, Bool-cases, All, append-nil,
}
use mathlib.Core.Path.{subst}
use my_orm.Prelude.Map
use my_orm.Prelude.Map.{Map, Entries}
use my_orm.Relation.Path.{MessagePath, eq, is_ancestor_of}
use my_orm.Relation.Path.Order.{eq_iff}
use my_orm.Relation.Path.Ancestry.{is_ancestor_of_iff}
use my_orm.Relation.Manager.{MessageBase, get_path, RelationManager}
use my_orm.Relation.Manager.Lookup.{put, subtree_from, subtree, get_messages_from_subtree}

lookup-put :
    (path asked : MessagePath) (value : MessageBase) (m : Map MessagePath MessageBase)
    → Map.lookup asked (put path value m)
      ≡ (if path == asked then some value else Map.lookup asked m)
unfolding put Map.lookup
lookup-put path asked value [] = refl
lookup-put path asked value (entry ∷ m) =
    let later = lookup-put path asked value m in
    let decided = eq_iff path entry.0 in
    ground (arith, later, decided, bytes_eq.same_iff path asked, bytes_eq.same_iff entry.0 asked)

-- A path in the subtree of another: it starts with it.
abbrev pub IsWithin : MessagePath → MessagePath → Type 0
IsWithin root_path path = (rest : List ℕ) × (path ≡ root_path ++ rest)

IsWithin-iff :
    (root_path path : MessagePath)
    → ((is_ancestor_of root_path path || eq root_path path) ≡ true) ↔ IsWithin root_path path
IsWithin-iff root_path path = (sound, complete)
  where
    sound : (is_ancestor_of root_path path || eq root_path path) ≡ true → IsWithin root_path path
    sound h = elim (Bool-cases (is_ancestor_of root_path path)) [
      | inl above ↦
          let (e, rest, same) = (is_ancestor_of_iff root_path path).0 above in (e ∷ rest, same)
      | inr below ↦
          let same = (eq_iff root_path path).0.0 (ground (arith, below, h)) in
          ([], sym same ∙ sym (append-nil root_path))
    ]

    complete : IsWithin root_path path → (is_ancestor_of root_path path || eq root_path path) ≡ true
    complete ([], same) =
        let equal = (eq_iff root_path path).0.1 (sym (append-nil root_path) ∙ sym same) in
        ground (arith, equal)
    complete (e ∷ rest, same) =
        let above = (is_ancestor_of_iff root_path path).1 (e, rest, same) in ground (arith, above)

put_there :
    (path : MessagePath) (value : MessageBase) (result : Map MessagePath MessageBase) (b : Bool)
    → b ≡ true
    → Map.contains path (if b then put path value result else result) ≡ true
unfolding Map.contains
put_there path value result true h =
    ground (arith, lookup-put path path value result, bytes_eq.same_iff path path)
put_there path value result false h = cc

-- A message that is registered at some hash.
abbrev pub Holds : MessageBase → Map ℕ MessageBase → Type 0
Holds e [] = ⊥
Holds e (entry ∷ m) = (entry.1 ≡ e) ⊎ Holds e m

module _ (root_path : MessagePath) (all : Map ℕ MessageBase) where
  -- What an entry of the result may be.
  abbrev pub IsFound : MessagePath → MessageBase → Type 0
  IsFound path e = (get_path e ≡ path) × IsWithin root_path path × Holds e all

  subtree_from-IsFound :
      (left : Map ℕ MessageBase) (result : Map MessagePath MessageBase)
      → ((e : MessageBase) → Holds e left → Holds e all)
      → Entries IsFound result
      → Entries IsFound (subtree_from root_path left result)
  unfolding subtree_from
  subtree_from-IsFound [] result known found = found
  subtree_from-IsFound (entry ∷ left) result known found =
      let path = get_path entry.1 in
      subtree_from-IsFound left _ (λ e h. known e (inr h))
        (by_test (is_ancestor_of root_path path || eq root_path path) refl)
    where
      by_test :
          (b : Bool)
          → (is_ancestor_of root_path (get_path entry.1) || eq root_path (get_path entry.1)) ≡ b
          → Entries IsFound (if b then put (get_path entry.1) entry.1 result else result)
      by_test false h asked e q = found asked e q
      by_test true h asked e q = elim (Bool-cases (get_path entry.1 == asked)) [
        | inl same ↦
            let key = (bytes_eq.same_iff (get_path entry.1) asked).0 same in
            let value : entry.1 ≡ e =
              ground (arith, same, q, lookup-put (get_path entry.1) asked entry.1 result) in
            (
              ap get_path (sym value) ∙ key,
              subst (IsWithin root_path) key ((IsWithin-iff root_path (get_path entry.1)).0 h),
              known e (inl value),
            )
        | inr other ↦
            found asked e
              (ground (arith, other, q, lookup-put (get_path entry.1) asked entry.1 result))
      ]

  -- A path that is in the result stays there.
  subtree_from-keeps :
      (left : Map ℕ MessageBase) (result : Map MessagePath MessageBase) (asked : MessagePath)
      → Map.contains asked result ≡ true
      → Map.contains asked (subtree_from root_path left result) ≡ true
  unfolding subtree_from Map.contains
  subtree_from-keeps [] result asked h = h
  subtree_from-keeps (entry ∷ left) result asked h =
      let path = get_path entry.1 in
      subtree_from-keeps left _ asked (ground (arith, h, lookup-put path asked entry.1 result))

  subtree_from-All :
      (left : Map ℕ MessageBase) (result : Map MessagePath MessageBase)
      → All
          (λ entry.
            IsWithin root_path (get_path entry.1)
            → Map.contains (get_path entry.1) (subtree_from root_path left result) ≡ true)
          left
  unfolding subtree_from
  subtree_from-All [] result = tt
  subtree_from-All (entry ∷ left) result = (
    λ within.
        subtree_from-keeps left _ (get_path entry.1)
          (put_there (get_path entry.1) entry.1 result _ ((IsWithin-iff root_path _).1 within)),
    subtree_from-All left _,
  )

-- GetMessagesFromSubtree of a path that is not empty, when its result is not in the cache: each entry
-- of the result is a registered message under its own path, which starts with the path, and every
-- registered message with such a path has an entry.
pub subtree_exact :
    (number : ℕ) (path : MessagePath) (m : RelationManager)
    → Map.lookup (number ∷ path) m.messages_from_subtree_cache ≡ none
    → (result : Map MessagePath MessageBase) × ((get_messages_from_subtree (number ∷ path) m).0
        ≡ result)
      × Entries (IsFound (number ∷ path) m.messages_by_path) result
      × All
          (λ entry.
            IsWithin (number ∷ path) (get_path entry.1)
            → Map.contains (get_path entry.1) result ≡ true)
          m.messages_by_path
unfolding get_messages_from_subtree subtree Map.lookup
subtree_exact number path m fresh = (
  subtree_from (number ∷ path) m.messages_by_path [],
  ground (arith, fresh),
  subtree_from-IsFound (number ∷ path) m.messages_by_path m.messages_by_path [] (λ e h. h)
      (λ k e. cc),
  subtree_from-All (number ∷ path) m.messages_by_path m.messages_by_path [],
)
