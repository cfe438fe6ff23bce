-- ===== src/Relation/Path.antt =====
-- lib/relation/path.h, path.cpp: the class TMessagePath, a vector of field numbers, with its
-- comparisons, its tests of ancestry and its hash. What reads the relation manager (names, tables)
-- is left out. `std::hash<size_t>` is the parameter `std_hash`.
pub mod Order
pub mod Ancestry
use Prim.Native.Nat.{bit_xor}
use my_orm.Prelude.{
  ℕ, zero, suc, ◌+◌, ◌*◌, ◌/◌, ◌%◌, ◌^◌, Bool, true, false, not, ◌||◌, Option, none, some, List, [],
  ◌∷◌, ◌++◌, length, get_elem?, drop_last, ltb, ◌==◌, nat_eq, if◌then◌else◌,
}

-- The vector `Path_`; an entry is a `uint32_t`.
abbrev pub MessagePath : Type 0
MessagePath = List ℕ

-- The index that `at` takes is an `int`.
pub data Index : Type 0 where
  pos : ℕ → Index
  negsuc : ℕ → Index

-- `none` is std::out_of_range.
unfoldable pub at : MessagePath → Index → Option ℕ
at p (negsuc n) = none
at p (pos i) = if ltb i (length p) then get_elem? p i else none

-- operator/=(uint32_t), AppendEntry(uint32_t), operator/(uint32_t)
infixl 66 ◌/=◌
unfoldable pub ◌/=◌ : MessagePath → ℕ → MessagePath
p /= entry = p ++ entry ∷ []

unfoldable pub is_empty : MessagePath → Bool
is_empty [] = true
is_empty (x ∷ p) = false

unfoldable pub pop_entry : MessagePath → MessagePath
pop_entry p = drop_last p

unfoldable pub parent : MessagePath → MessagePath
unfolding is_empty pop_entry
parent p = if is_empty p then [] else pop_entry p

-- front() and back(); `none` is the exception of the ASSERT.
unfoldable pub front : MessagePath → Option ℕ
front [] = none
front (x ∷ p) = some x

unfoldable pub back : MessagePath → Option ℕ
back [] = none
back (x ∷ []) = some x
back (x ∷ y ∷ p) = back (y ∷ p)

-- The loop of `operator==`, behind the test that the sizes agree.
unfoldable pub same_entries : MessagePath → MessagePath → Bool
same_entries [] q = true
same_entries (x ∷ p) [] = false
same_entries (x ∷ p) (y ∷ q) = let rest = same_entries p q in if x == y then rest else false

unfoldable pub eq : MessagePath → MessagePath → Bool
unfolding same_entries
eq p q = if not (length p == length q) then false else same_entries p q

unfoldable pub ne : MessagePath → MessagePath → Bool
ne p q = not (eq p q)

-- The loop of `operator<` over the common length; what follows it returns `shorter`.
unfoldable pub less_entries : Bool → MessagePath → MessagePath → Bool
less_entries shorter [] q = shorter
less_entries shorter (x ∷ p) [] = shorter
less_entries shorter (x ∷ p) (y ∷ q) =
    let rest = less_entries shorter p q in if ltb x y then true else if ltb y x then false else rest

unfoldable pub lt : MessagePath → MessagePath → Bool
unfolding less_entries
lt p q = less_entries (ltb (length p) (length q)) p q

unfoldable pub le : MessagePath → MessagePath → Bool
le p q = lt p q || eq p q

unfoldable pub gt : MessagePath → MessagePath → Bool
gt p q = not (le p q)

unfoldable pub ge : MessagePath → MessagePath → Bool
ge p q = not (lt p q)

unfoldable pub is_parent_of : MessagePath → MessagePath → Bool
unfolding same_entries
is_parent_of p q = if not (length p + 1 == length q) then false else same_entries p q

unfoldable pub is_ancestor_of : MessagePath → MessagePath → Bool
unfolding same_entries
is_ancestor_of p q = if not (ltb (length p) (length q)) then false else same_entries p q

unfoldable pub is_child_of : MessagePath → MessagePath → Bool
is_child_of p q = is_parent_of q p

unfoldable pub is_descendant_of : MessagePath → MessagePath → Bool
is_descendant_of p q = is_ancestor_of q p

abbrev pub size_mod : ℕ
size_mod = 2 ^ 64

module _ (std_hash : ℕ → ℕ) where
  -- GetNextPathEntryHash, on size_t of 64 bits.
  unfoldable pub get_next_path_entry_hash : ℕ → ℕ → ℕ
  get_next_path_entry_hash parent entry =
      bit_xor parent ((std_hash entry + 0x9e3779b9 + parent * 2 ^ 6 + parent / 2 ^ 2) % size_mod)

  unfoldable pub hash_from : ℕ → MessagePath → ℕ
  unfolding get_next_path_entry_hash
  hash_from hash_value [] = hash_value
  hash_from hash_value (entry ∷ p) = hash_from (get_next_path_entry_hash hash_value entry) p

  -- GetHash
  unfoldable pub get_hash : MessagePath → ℕ
  unfolding hash_from
  get_hash p = hash_from 0 p
