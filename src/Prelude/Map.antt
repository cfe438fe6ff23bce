-- ===== src/Prelude/Map.antt =====
-- `std::map` and `std::unordered_map` as association lists. The program reads maps by key, and
-- where it goes through one in order, the module at hand keeps its keys sorted itself.
use mathlib.Core.Path.{◌≡◌, refl, subst}
use mathlib.Core.Bool.{Bool, true, false}
use mathlib.Core.List.{List, [], ◌∷◌}
use mathlib.Core.Option.{Option, none, some}
use native.Mathlib.Omega.{arith}
use my_orm.Prelude.Tests.{if◌then◌else◌, Bool-cases}
use mathlib.Core.Logic.{inl, inr}
use my_orm.Prelude.Lists.{All}
use my_orm.Prelude.Equality.{Eq, ◌==◌}

abbrev pub Map {ℓ κ} : Type ℓ → Type κ → Type (ℓ ⊔ κ)
Map K V = List (K × V)

module _ {ℓ κ} {K : Type ℓ} {V : Type κ} ⦃e : Eq K⦄ where
  -- m.find(k)
  unfoldable pub lookup : K → Map K V → Option V
  lookup k [] = none
  lookup k (entry ∷ m) = if entry.0 == k then some entry.1 else lookup k m

  -- m.contains(k), m.count(k)
  unfoldable pub contains : K → Map K V → Bool
  unfolding lookup
  contains k m = elim (lookup k m) [ none ↦ false | some _ ↦ true ]

  -- m[k] = v
  unfoldable pub insert : K → V → Map K V → Map K V
  insert k v [] = (k, v) ∷ []
  insert k v (entry ∷ m) =
      let rest = insert k v m in if entry.0 == k then (k, v) ∷ m else entry ∷ rest

  -- m.emplace(k, v), m.insert({k, v}): an entry that is there stays.
  unfoldable pub emplace : K → V → Map K V → Map K V
  unfolding contains
  emplace k v m = if contains k m then m else (k, v) ∷ m

  pub lookup-insert :
      (new asked : K) (v : V) (m : Map K V)
      → lookup asked (insert new v m) ≡ (if new == asked then some v else lookup asked m)
  unfolding lookup insert
  lookup-insert new asked v [] = refl
  lookup-insert new asked v (entry ∷ m) =
      let ih = lookup-insert new asked v m in
      ground (arith, ih, e.same_iff new asked, e.same_iff entry.0 new, e.same_iff entry.0 asked)

  pub lookup-insert_self : (k : K) (v : V) (m : Map K V) → lookup k (insert k v m) ≡ some v
  lookup-insert_self k v m = ground (arith, lookup-insert k k v m, e.same_iff k k)

  pub contains-none : (k : K) (m : Map K V) → contains k m ≡ false → lookup k m ≡ none
  unfolding contains
  contains-none k m h = ground arith

  pub contains-some : (k : K) (m : Map K V) (v : V) → lookup k m ≡ some v → contains k m ≡ true
  unfolding contains
  contains-some k m v h = ground arith

  pub contains_value : (k : K) (m : Map K V) → contains k m ≡ true → (v : V) × (lookup k m ≡ some v)
  unfolding contains
  contains_value k m h = ground arith

  -- What holds of the values that are looked up.
  abbrev pub Entries {π} : (K → V → Type π) → Map K V → Type (ℓ ⊔ κ ⊔ π)
  Entries P m = (k : K) (v : V) → lookup k m ≡ some v → P k v

  module _ {π} {P : K → V → Type π} where
    pub insert-Entries :
        (k : K) (v : V) (m : Map K V) → P k v → Entries P m → Entries P (insert k v m)
    insert-Entries new v m here rest asked found h = elim (Bool-cases (new == asked)) [
      | inl same ↦
          let key : new ≡ asked = (e.same_iff new asked).0 same in
          let value : v ≡ found = ground (arith, h, same, lookup-insert new asked v m) in
          subst (λ k. P k found) key (subst (P new) value here)
      | inr other ↦ rest asked found (ground (arith, h, other, lookup-insert new asked v m))
    ]

    pub emplace-Entries :
        (k : K) (v : V) (m : Map K V) → P k v → Entries P m → Entries P (emplace k v m)
    unfolding emplace lookup
    emplace-Entries new v m here rest asked found h = elim (Bool-cases (contains new m)) [
      | inl there ↦ rest asked found (ground (arith, h, there))
      | inr missing ↦ elim (Bool-cases (new == asked)) [
        | inl same ↦
            let key : new ≡ asked = (e.same_iff new asked).0 same in
            let value : v ≡ found = ground (arith, h, same, missing) in
            subst (λ k. P k found) key (subst (P new) value here)
        | inr other ↦ rest asked found (ground (arith, h, other, missing))
      ]
    ]

  pub insert-All {π} :
      (P : K × V → Type π) (k : K) (v : V) (m : Map K V) → P (k, v) → All P m → All P (insert k v m)
  unfolding insert
  insert-All P k v [] here rest = (here, tt)
  insert-All P k v (entry ∷ m) here (first, rest) =
      by_test (entry.0 == k) (insert-All P k v m here rest)
    where
      by_test :
          (b : Bool) → All P (insert k v m) → All P (if b then (k, v) ∷ m else entry ∷ insert k v m)
      by_test true later = (here, rest)
      by_test false later = (first, later)

  pub contains-insert :
      (new asked : K) (v : V) (m : Map K V)
      → contains asked m ≡ true
      → contains asked (insert new v m) ≡ true
  unfolding contains
  contains-insert new asked v m h = ground (arith, h, lookup-insert new asked v m)

  pub contains-insert_self : (k : K) (v : V) (m : Map K V) → contains k (insert k v m) ≡ true
  unfolding contains
  contains-insert_self k v m = ground (arith, lookup-insert_self k v m)

  pub contains-emplace :
      (new asked : K) (v : V) (m : Map K V)
      → contains asked m ≡ true
      → contains asked (emplace new v m) ≡ true
  unfolding contains emplace lookup
  contains-emplace new asked v m h = ground (arith, h, e.same_iff new asked)

  pub contains-emplace_self : (k : K) (v : V) (m : Map K V) → contains k (emplace k v m) ≡ true
  unfolding contains emplace lookup
  contains-emplace_self k v m = ground (arith, e.same_iff k k)
