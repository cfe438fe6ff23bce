-- ===== src/Relation/Path/Ancestry.antt =====
-- About the ancestry of paths (isParentOf, isAncestorOf of lib/relation/path.cpp).
use my_orm.Prelude.{
  ℕ, ◌+◌, ◌<◌, ◌≡◌, refl, ap, ◌↔◌, true, nat_eq, nat_beq_iff, [], ◌∷◌, ◌++◌, length, length-append,
  lt→ltb, append-nil, sym, ◌∙◌, arith,
}
use my_orm.Relation.Path.{MessagePath, ◌/=◌, same_entries, is_parent_of, is_ancestor_of}

-- `q` is `p` with more entries behind it.
abbrev IsPrefix : MessagePath → MessagePath → Type 0
IsPrefix p q = (r : MessagePath) × (q ≡ p ++ r)

same_entries_sound : (p q : MessagePath) → same_entries p q ≡ true → IsPrefix p q
unfolding same_entries
same_entries_sound [] q h = (q, refl)
same_entries_sound (x ∷ p) [] h = cc
same_entries_sound (x ∷ p) (y ∷ q) h =
    let (r, e) = same_entries_sound p q (ground arith) in (r, ground arith)

same_entries_complete : (p r : MessagePath) → same_entries p (p ++ r) ≡ true
unfolding same_entries
same_entries_complete [] r = refl
same_entries_complete (x ∷ p) r = ground (arith, same_entries_complete p r)

-- A path that is longer than its prefix `p` goes on by an entry.
longer :
    (p q : MessagePath)
    → length p < length q
    → same_entries p q ≡ true
    → (e : ℕ) × (r : MessagePath) × (q ≡ p ++ e ∷ r)
longer p q h k = go (same_entries_sound p q k)
  where
    go : IsPrefix p q → (e : ℕ) × (r : MessagePath) × (q ≡ p ++ e ∷ r)
    go ([], e) = absurd (omega (arith, ap length e, ap length (append-nil p)))
    go (x ∷ r, e) = (x, r, e)

shorter : (p : MessagePath) (e : ℕ) (r : MessagePath) → length p < length (p ++ e ∷ r)
shorter p e r = omega (arith, length-append p (e ∷ r))

-- isAncestorOf holds exactly of a path that goes on by at least one entry.
pub is_ancestor_of_iff :
    (p q : MessagePath)
    → (is_ancestor_of p q ≡ true) ↔ ((e : ℕ) × (r : MessagePath) × (q ≡ p ++ e ∷ r))
unfolding is_ancestor_of
is_ancestor_of_iff p q = (sound, complete)
  where
    sound : is_ancestor_of p q ≡ true → (e : ℕ) × (r : MessagePath) × (q ≡ p ++ e ∷ r)
    sound h = longer p q (ground arith) (ground arith)

    complete : (e : ℕ) × (r : MessagePath) × (q ≡ p ++ e ∷ r) → is_ancestor_of p q ≡ true
    complete (e, r, h) = rw h (rw (lt→ltb _ _ (shorter p e r), same_entries_complete p (e ∷ r)))

no_rest : (p : MessagePath) (e : ℕ) (r : MessagePath) → length (p ++ e ∷ r) ≡ length p + 1 → r ≡ []
no_rest p e [] h = refl
no_rest p e (f ∷ r) h = absurd (omega (arith, length-append p (e ∷ f ∷ r)))

-- isParentOf holds exactly of a path that goes on by one entry.
pub is_parent_of_iff : (p q : MessagePath) → (is_parent_of p q ≡ true) ↔ ((e : ℕ) × (q ≡ p /= e))
unfolding is_parent_of ◌/=◌
is_parent_of_iff p q = (sound, complete)
  where
    split :
        length p + 1 ≡ length q
        → (e : ℕ) × (r : MessagePath) × (q ≡ p ++ e ∷ r)
        → (e : ℕ) × (q ≡ p ++ e ∷ [])
    split n (e, r, h) = (e, ground (arith, no_rest p e r (sym (ap length h) ∙ sym n)))

    sound : is_parent_of p q ≡ true → (e : ℕ) × (q ≡ p ++ e ∷ [])
    sound h =
        let n : length p + 1 ≡ length q = ground arith in
        split n (longer p q (omega arith) (ground arith))

    complete : (e : ℕ) × (q ≡ p ++ e ∷ []) → is_parent_of p q ≡ true
    complete (e, h) = rw h (
        rw ((nat_beq_iff _ _).1 (sym (length-append p (e ∷ []))), same_entries_complete p (e ∷ [])))
