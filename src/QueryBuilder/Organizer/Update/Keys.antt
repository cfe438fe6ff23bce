-- ===== src/QueryBuilder/Organizer/Update/Keys.antt =====
-- About the primary keys in OrganizeUpdate (lib/query_builder/organizers/sql_organizer.cpp).
use mathlib.Core.Path.{subst}
use my_orm.Prelude.{
  ℕ, ◌≡◌, ◌≢◌, refl, true, false, Bool-cases, ◌⊎◌, inl, inr, List, [], ◌∷◌, length, ◌==◌, nat_eq,
  some, ap, ◌++◌, ok, err, ◌>>=◌, ensure, >>=-eq-ok, ok-injective, All, arith,
}
use my_orm.Relation.Path.{MessagePath}
use my_orm.Requests.Attribute.{Attribute}
use my_orm.Requests.ExpressionType.{and_}
use my_orm.QueryBuilder.Clause.{Clause, expression, update, nil, cons, Updates, no_updates, assign}
use my_orm.QueryBuilder.Organizer.{Environment, Rejection, missing_primary_keys, column_of}
use my_orm.QueryBuilder.Organizer.Update.{
  Tables, contains_key, insert_key, found_keys, with_columns, condition_of, where_conditions,
  conjunction, where_clause, update_of, update_with, organize_attributes, organize_set,
  organize_sets, organize_update,
}
use my_orm.QueryBuilder.Organizer.Update.Distinct.{
  IsDistinct, all_found, insert_key-IsDistinct, contains_key-insert_key,
}

-- `c` is one of the conditions.
abbrev Listed : Clause → List Clause → Type 0
Listed c [] = ⊥
Listed c (d ∷ ds) = (c ≡ d) ⊎ Listed c ds

-- `c` is a conjunct of a condition.
pub data HasConjunct (c : Clause) : Clause → Type 0 where
  whole : HasConjunct c c
  first : (a b : Clause) → HasConjunct c a → HasConjunct c (expression and_ (cons a (cons b nil)))
  second : (a b : Clause) → HasConjunct c b → HasConjunct c (expression and_ (cons a (cons b nil)))

kept-HasConjunct :
    (c w : Clause) (cs : List Clause) → HasConjunct c w → HasConjunct c (conjunction w cs)
unfolding conjunction
kept-HasConjunct c w [] h = h
kept-HasConjunct c w (d ∷ ds) h = kept-HasConjunct c _ ds (HasConjunct.first w d h)

Listed-HasConjunct :
    (c w : Clause) (cs : List Clause) → Listed c cs → HasConjunct c (conjunction w cs)
unfolding conjunction
Listed-HasConjunct c w [] h = elim h [ ]
Listed-HasConjunct c w (d ∷ ds) (inl e) =
    kept-HasConjunct c _ ds (HasConjunct.second w d (subst (HasConjunct c) e HasConjunct.whole))
Listed-HasConjunct c w (d ∷ ds) (inr h) = Listed-HasConjunct c _ ds h

where-HasConjunct : (c : Clause) (cs : List Clause) → Listed c cs → HasConjunct c (where_clause cs)
unfolding where_clause
where-HasConjunct c [] h = elim h [ ]
where-HasConjunct c (d ∷ ds) (inl e) =
    kept-HasConjunct c d ds (subst (HasConjunct c) e HasConjunct.whole)
where-HasConjunct c (d ∷ ds) (inr h) = Listed-HasConjunct c d ds h

module _ (env : Environment) (tables : Tables) (keys : List ℕ) where
  found-IsDistinct : (attributes : List Attribute) → IsDistinct (found_keys tables keys attributes)
  unfolding found_keys
  found-IsDistinct [] = tt
  found-IsDistinct (a ∷ as') = elim (Bool-cases (contains_key (tables.get_hash a.path) keys)) [
    | inl key ↦ rw key (insert_key-IsDistinct _ _ (found-IsDistinct as'))
    | inr other ↦ rw other (found-IsDistinct as')
  ]

  found_inside :
      (attributes : List Attribute) (z : ℕ)
      → contains_key z (found_keys tables keys attributes) ≡ true
      → contains_key z keys ≡ true
  unfolding found_keys
  found_inside [] z h = cc
  found_inside (a ∷ as') z h = elim (Bool-cases (contains_key (tables.get_hash a.path) keys)) [
    | inl key ↦ elim (contains_key-insert_key z (tables.get_hash a.path) _ (rw key at h)) [
      | inl same ↦ rw (← same) key
      | inr old ↦ found_inside as' z old
    ]
    | inr other ↦ found_inside as' z (rw other at h)
  ]

  -- A condition for a key, and the attribute and the column that it is made of.
  abbrev HasCondition : ℕ → List (Attribute × Clause) → Type 0
  HasCondition z parts =
      (a : Attribute) × (target : Clause) × (tables.get_hash a.path ≡ z)
      × (column_of env a.path ≡ ok target)
      × Listed (condition_of env a target) (where_conditions env tables keys parts)

  found_condition :
      (attributes : List Attribute) (parts : List (Attribute × Clause)) (z : ℕ)
      → with_columns env attributes ≡ ok parts
      → contains_key z (found_keys tables keys attributes) ≡ true
      → HasCondition z parts
  unfolding with_columns found_keys where_conditions
  found_condition [] parts z e h = cc
  found_condition (a ∷ as') parts z e h =
      let (c, made, e1) = >>=-eq-ok (column_of env a.path) _ e in
      let (rest, others, e2) = >>=-eq-ok (with_columns env as') _ e1 in
      let later = λ (old : contains_key z (found_keys tables keys as') ≡ true).
        found_condition as' rest z others old in
      subst (HasCondition z) (ok-injective _ _ e2)
        (elim (Bool-cases (contains_key (tables.get_hash a.path) keys)) [
          | inl key ↦ elim (contains_key-insert_key z (tables.get_hash a.path) _ (rw key at h)) [
            | inl same ↦ (a, c, same, made, rw key (inl refl))
            | inr old ↦
                let (b, d, is, there, listed) = later old in (b, d, is, there, rw key (inr listed))
          ]
          | inr other ↦
              let (b, d, is, there, listed) = later (rw other at h) in
              (b, d, is, there, rw other listed)
        ])

  update_shape :
      (path : MessagePath) (us : Updates) (w c : Clause) (cs : List Clause)
      → update_of path us w ≡ c ∷ cs
      → (vs : Updates) × (c ≡ update path vs w)
  unfolding update_of
  update_shape path no_updates w c cs h = cc
  update_shape path (assign t v us) w c cs h = (assign t v us, cc)

  -- An UPDATE that OrganizeUpdate makes of a set of attributes, for a table whose primary keys are
  -- distinct, has for every primary key a conjunct in its WHERE that compares the column of an
  -- attribute of that key with the attribute's value.
  pub organize_attributes-HasConjunct :
      (path : MessagePath) (attributes : List Attribute) (c : Clause) (cs : List Clause) (key : ℕ)
      → IsDistinct keys
      → organize_attributes env tables path keys attributes ≡ ok (c ∷ cs)
      → contains_key key keys ≡ true
      → (a : Attribute) × (target : Clause) × (vs : Updates) × (w : Clause) × (tables.get_hash
            a.path
          ≡ key)
        × (column_of env a.path ≡ ok target)
        × (c ≡ update path vs w)
        × HasConjunct (condition_of env a target) w
  unfolding organize_attributes update_with
  organize_attributes-HasConjunct path attributes c cs key d h k =
      let (u, counted, more) =
        >>=-eq-ok (ensure (length found == length keys) missing_primary_keys) _ h in
      let (parts, columns, made) = >>=-eq-ok (with_columns env attributes) _ more in
      let (vs, shape) = update_shape path _ _ c cs (ok-injective _ _ made) in
      let (a, target, is, there, listed) =
        found_condition attributes parts key columns (complete counted) in
      (a, target, vs, _, is, there, shape, where-HasConjunct _ _ listed)
    where
      found : List ℕ
      found = found_keys tables keys attributes

      complete :
          {u : Unit {0}}
          → ensure (length found == length keys) missing_primary_keys ≡ ok u
          → contains_key key found ≡ true
      complete e =
          all_found found keys (found-IsDistinct attributes) (found_inside attributes)
            (ground arith) key k

  absent_key :
      (attributes : List Attribute) (key : ℕ)
      → All (λ a. tables.get_hash a.path ≢ key) attributes
      → contains_key key (found_keys tables keys attributes) ≡ false
  unfolding found_keys
  absent_key [] key h = refl
  absent_key (a ∷ as') key (n, h) = elim (Bool-cases (contains_key (tables.get_hash a.path) keys)) [
    | inl primary ↦
        rw primary
          (elim (Bool-cases
            (contains_key key (insert_key (tables.get_hash a.path) (found_keys tables keys as')))) [
              | inr fresh ↦ fresh
              | inl there ↦ elim (contains_key-insert_key key (tables.get_hash a.path) _ there) [
                | inl same ↦ absurd (n same)
                | inr old ↦ cc (old, absent_key as' key h)
              ]
            ])
    | inr other ↦ rw other (absent_key as' key h)
  ]

  organize_attributes_missing :
      (path : MessagePath) (attributes : List Attribute) (key : ℕ)
      → IsDistinct keys
      → contains_key key keys ≡ true
      → All (λ a. tables.get_hash a.path ≢ key) attributes
      → organize_attributes env tables path keys attributes ≡ err missing_primary_keys
  unfolding organize_attributes
  organize_attributes_missing path attributes key d k h =
      elim (Bool-cases (length (found_keys tables keys attributes) == length keys)) [
        | inr short ↦ rw short refl
        | inl counted ↦
            let there =
              all_found (found_keys tables keys attributes) keys (found-IsDistinct attributes)
                (found_inside attributes) (ground arith) key k in
            cc (there, absent_key attributes key h)
      ]

  set_missing :
      (path : MessagePath) (given : Attribute) (others : List Attribute)
      → tables.get_primary_fields path ≡ some keys
      → organize_attributes env tables path keys (given ∷ others) ≡ err missing_primary_keys
      → organize_set env tables path (given ∷ others) ≡ err missing_primary_keys
  unfolding organize_set
  set_missing path given others there short = ground (arith, there, short)

  -- OrganizeUpdate throws if the primary keys of the table, which is known, are distinct, and one of its
  -- sets of attributes is not empty and has no attribute for some primary key.
  pub organize_update_missing :
      (table_num key : ℕ) (before after : List (List Attribute)) (given : Attribute)
      (others : List Attribute)
      → tables.get_primary_fields (table_num ∷ []) ≡ some keys
      → IsDistinct keys
      → contains_key key keys ≡ true
      → All (λ a. tables.get_hash a.path ≢ key) (given ∷ others)
      → (thrown : Rejection) × (organize_update env tables table_num
            (before ++ (given ∷ others) ∷ after)
          ≡ err thrown)
  unfolding organize_update organize_sets organize_set
  organize_update_missing table_num key [] after given others known d k h =
      let short = organize_attributes_missing (table_num ∷ []) (given ∷ others) key d k h in
      (
        missing_primary_keys,
        ap
            (λ r. r >>= λ done.
              organize_sets env tables (table_num ∷ []) after >>= λ more. ok (done ++ more))
            (set_missing (table_num ∷ []) given others known short),
      )
  organize_update_missing table_num key (set ∷ before) after given others known d k h =
      let (thrown, e) =
        organize_update_missing table_num key before after given others known d k h in
      elim (organize_set env tables (table_num ∷ []) set)
        as (λ r.
          (t : Rejection) × ((r >>= λ done.
          organize_sets env tables (table_num ∷ []) (before ++ (given ∷ others) ∷ after) >>= λ more.
          ok (done ++ more))
            ≡ err t)) [
              | err thrown' ↦ (thrown', refl)
              | ok done ↦ (thrown, ap (λ r. r >>= λ more. ok (done ++ more)) e)
            ]
