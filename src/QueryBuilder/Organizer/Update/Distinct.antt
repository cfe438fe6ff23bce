-- ===== src/QueryBuilder/Organizer/Update/Distinct.antt =====
-- About sets of keys in OrganizeUpdate (lib/query_builder/organizers/sql_organizer.cpp).
use my_orm.Prelude.{
  ℕ, suc, ◌≤◌, ◌≡◌, ◌≢◌, refl, true, false, Bool-cases, ◌⊎◌, inl, inr, List, [], ◌∷◌, length, ◌==◌,
  nat_eq, nat_beq_iff, if◌then◌else◌, arith,
}
use my_orm.QueryBuilder.Organizer.Update.{contains_key, insert_key}

-- No key stands twice.
abbrev pub IsDistinct : List ℕ → Type 0
IsDistinct [] = Unit
IsDistinct (k ∷ ks) = (contains_key k ks ≡ false) × IsDistinct ks

remove : ℕ → List ℕ → List ℕ
remove key [] = []
remove key (k ∷ ks) = let rest = remove key ks in if k == key then ks else k ∷ rest

length-remove :
    (key : ℕ) (ks : List ℕ) → contains_key key ks ≡ true → length ks ≡ suc (length (remove key ks))
unfolding remove
length-remove key [] h = cc
length-remove key (k ∷ ks) h = ground (arith, length-remove key ks)

contains_key-remove :
    (z key : ℕ) (ks : List ℕ)
    → z ≢ key
    → contains_key z ks ≡ true
    → contains_key z (remove key ks) ≡ true
unfolding remove
contains_key-remove z key [] n h = cc
contains_key-remove z key (k ∷ ks) n h = ground (arith, contains_key-remove z key ks n)

-- Distinct keys among no more keys are all of them.
pub all_found :
    (xs ys : List ℕ)
    → IsDistinct xs
    → ((z : ℕ) → contains_key z xs ≡ true → contains_key z ys ≡ true)
    → length ys ≤ length xs
    → (z : ℕ) → contains_key z ys ≡ true
    → contains_key z xs ≡ true
all_found [] [] d s n z h = h
all_found [] (y ∷ ys) d s n z h = absurd (omega arith)
all_found (x ∷ xs) ys (fresh, d) s n z h = elim (Bool-cases (x == z)) [
  | inl same ↦ rw same refl
  | inr other ↦ rw other (
      all_found xs (remove x ys) d inside fits z (contains_key-remove z x ys (λ e. ground arith) h))
]
  where
    there : contains_key x ys ≡ true
    there = s x (ground arith)

    inside : (w : ℕ) → contains_key w xs ≡ true → contains_key w (remove x ys) ≡ true
    inside w k = contains_key-remove w x ys (λ e. cc (k, fresh, e)) (s w (ground (arith, k)))

    fits : length (remove x ys) ≤ length xs
    fits = omega (arith, length-remove x ys there)

pub insert_key-IsDistinct : (key : ℕ) (ks : List ℕ) → IsDistinct ks → IsDistinct (insert_key key ks)
unfolding insert_key
insert_key-IsDistinct key ks d = elim (Bool-cases (contains_key key ks)) [
  | inl old ↦ rw old d
  | inr new ↦ rw new (new, d)
]

pub contains_key-insert_key :
    (z key : ℕ) (ks : List ℕ)
    → contains_key z (insert_key key ks) ≡ true
    → (key ≡ z) ⊎ (contains_key z ks ≡ true)
unfolding insert_key
contains_key-insert_key z key ks h = ground (arith, nat_beq_iff key z)
