-- ===== src/Relation/Path/Order.antt =====
-- About the comparisons of TMessagePath (lib/relation/path.cpp), by which std::map orders its keys.
use my_orm.Prelude.{
  ◌≢◌, ◌∙◌, ℕ, suc, ◌<◌, ◌≡◌, refl, ap, ◌↔◌, ◌⊎◌, inl, inr, Bool, true, false, Bool-cases, ◌==◌,
  nat_eq, nat_beq_iff, [], ◌∷◌, length, ltb, arith,
}
use my_orm.Relation.Path.{MessagePath, same_entries, eq, ne, less_entries, lt, le, gt, ge}

ltb-suc : (m n : ℕ) → ltb (suc m) (suc n) ≡ ltb m n
ltb-suc m n = ground arith

-- The order that the loop decides, read off the entries one by one.
abbrev Lex : MessagePath → MessagePath → Type 0
Lex [] [] = ⊥
Lex [] (y ∷ q) = Unit
Lex (x ∷ p) [] = ⊥
Lex (x ∷ p) (y ∷ q) = (x < y) ⊎ ((x ≡ y) × Lex p q)

less_entries-Lex :
    (b : Bool) (p q : MessagePath)
    → b ≡ ltb (length p) (length q)
    → (less_entries b p q ≡ true) ↔ Lex p q
unfolding less_entries
less_entries-Lex b [] [] h = ground arith
less_entries-Lex b [] (y ∷ q) h = ground arith
less_entries-Lex b (x ∷ p) [] h = ground arith
less_entries-Lex b (x ∷ p) (y ∷ q) h =
    ground (arith, less_entries-Lex b p q (h ∙ ltb-suc (length p) (length q)))

lt-Lex : (p q : MessagePath) → (lt p q ≡ true) ↔ Lex p q
unfolding lt
lt-Lex p q = less_entries-Lex _ p q refl

Lex-trans : (p q r : MessagePath) → Lex p q → Lex q r → Lex p r
Lex-trans [] [] r h k = absurd h
Lex-trans [] (y ∷ q) [] h k = k
Lex-trans [] (y ∷ q) (z ∷ r) h k = tt
Lex-trans (x ∷ p) [] r h k = absurd h
Lex-trans (x ∷ p) (y ∷ q) [] h k = k
Lex-trans (x ∷ p) (y ∷ q) (z ∷ r) h k = ground (arith, Lex-trans p q r)

Lex-irrefl : (p : MessagePath) → ¬ (Lex p p)
Lex-irrefl [] h = h
Lex-irrefl (x ∷ p) h = ground (arith, Lex-irrefl p)

Lex-compare : (p q : MessagePath) → Lex p q ⊎ (p ≡ q) ⊎ Lex q p
Lex-compare [] [] = inr (inl refl)
Lex-compare [] (y ∷ q) = inl tt
Lex-compare (x ∷ p) [] = inr (inr tt)
Lex-compare (x ∷ p) (y ∷ q) = ground (arith, Lex-compare p q)

same_entries_iff : (p q : MessagePath) → length p ≡ length q → (same_entries p q ≡ true) ↔ (p ≡ q)
unfolding same_entries
same_entries_iff [] [] h = ground arith
same_entries_iff [] (y ∷ q) h = absurd (omega arith)
same_entries_iff (x ∷ p) [] h = absurd (omega arith)
same_entries_iff (x ∷ p) (y ∷ q) h = ground (arith, same_entries_iff p q (omega arith))

-- operator== decides equality of paths, and operator!= its negation.
pub eq_iff : (p q : MessagePath) → ((eq p q ≡ true) ↔ (p ≡ q)) × ((ne p q ≡ true) ↔ (p ≢ q))
unfolding eq ne
eq_iff p q = elim (Bool-cases (length p == length q)) [
  | inl e ↦ ground (arith, same_entries_iff p q ((nat_beq_iff _ _).0 e))
  | inr e ↦ ground (arith, λ (h : p ≡ q). ap length h)
]

-- operator< is transitive.
pub lt_trans : (p q r : MessagePath) → lt p q ≡ true → lt q r ≡ true → lt p r ≡ true
lt_trans p q r h k = (lt-Lex p r).1 (Lex-trans p q r ((lt-Lex p q).0 h) ((lt-Lex q r).0 k))

-- Of any two paths exactly one comparison holds.
pub lt_trichotomy :
    (p q : MessagePath)
    → ((lt p q ≡ true) × (p ≢ q) × (lt q p ≡ false))
      ⊎ ((lt p q ≡ false) × (p ≡ q) × (lt q p ≡ false))
      ⊎ ((lt p q ≡ false) × (p ≢ q) × (lt q p ≡ true))
lt_trichotomy p q =
    ground (arith, Lex-compare p q, lt-Lex p q, lt-Lex q p, Lex-irrefl p, Lex-trans p q p)

le-gt-ge :
    (p q : MessagePath)
    → ((le p q ≡ true) ↔ ((lt p q ≡ true) ⊎ (p ≡ q))) × (gt p q ≡ lt q p) × (ge p q ≡ le q p)
unfolding le gt ge
le-gt-ge p q = ground (arith, lt_trichotomy p q, eq_iff p q, eq_iff q p)
