-- ===== src/QueryBuilder/Organizer/Alignment/Known.antt =====
-- The tables of the columns in OrganizeInsert (lib/query_builder/organizers/sql_organizer.cpp).
use my_orm.Prelude.{
  ◌≡◌, refl, inl, inr, none, some, Option-cases, List, [], ◌∷◌, ◌++◌, bytes_eq, length, replicate,
  arith, All, ◌≢◌, set, drop, ok,
}
use my_orm.Prelude.Map
use my_orm.Relation.Path.{MessagePath}
use my_orm.Requests.Attribute.{Attribute}
use my_orm.QueryBuilder.Clause.{Clauses, default, column, cons, simple}
use my_orm.QueryBuilder.Organizer.{
  Environment, value_of, Row, State, extend, add_selector, add_selectors, place, place_all,
  organize_subrequest, organize_subrequests, column_of, columns_of,
}

-- The paths of all selectors have a table.
abbrev pub Known : Environment → State → Type 0
Known env s = All (λ p. env.get_table p ≢ none) s.selectors

append-All {ℓ κ} :
    {A : Type ℓ} (P : A → Type κ) (xs : List A) (x : A) → All P xs → P x → All P (xs ++ x ∷ [])
append-All P [] x h p = (p, tt)
append-All P (y ∷ xs) x (q, h) p = (q, append-All P xs x h p)

pub add_selectors-Known :
    (env : Environment) (s : State) (attributes : List Attribute)
    → All (λ a. env.get_table a.path ≢ none) attributes
    → Known env s
    → Known env (add_selectors s attributes)
unfolding add_selectors add_selector
add_selectors-Known env s [] h k = k
add_selectors-Known env s (a ∷ as') (p, h) k =
    add_selectors-Known env (add_selector s a.path) as' h (append-All _ s.selectors a.path k p)

place_all-Known :
    (env : Environment) (s : State) (r : Row) (attributes : List Attribute)
    → All (λ a. env.get_table a.path ≢ none) attributes
    → Known env s
    → Known env (place_all env s r attributes).0
unfolding place_all place add_selector
place_all-Known env s r [] h k = k
place_all-Known env s r (a ∷ as') (p, h) k =
    place_all-Known env (place env s r a).0 (place env s r a).1 as' h
      (elim (Map.lookup a.path s.index)
        as (λ found.
          All (λ q. env.get_table q ≢ none)
            (elim found as (λ x. State × Row) [
              | some i ↦ (s, set r i (value_of env a.value))
              | none ↦ (
                record (add_selector s a.path) { rows = extend s.rows },
                set (r ++ default ∷ []) (length s.selectors) (value_of env a.value),
              )
            ]).0.selectors) [ some i ↦ k | none ↦ append-All _ s.selectors a.path k p ])

pub organize_subrequests-Known :
    (env : Environment) (s : State) (subrequests : List (List Attribute))
    → All (All (λ a. env.get_table a.path ≢ none)) subrequests
    → Known env s
    → Known env (organize_subrequests env s subrequests)
unfolding organize_subrequests organize_subrequest
organize_subrequests-Known env s [] h k = k
organize_subrequests-Known env s (a ∷ rest) (p, h) k =
    organize_subrequests-Known env (organize_subrequest env s a) rest h
      (place_all-Known env s (replicate (length s.selectors) default) a p k)

pub columns_of_ok :
    (env : Environment) (paths : List MessagePath)
    → All (λ p. env.get_table p ≢ none) paths
    → (columns : Clauses) × (columns_of env paths ≡ ok columns)
unfolding columns_of column_of
columns_of_ok env [] h = (_, refl)
columns_of_ok env (p ∷ ps) (known, h) =
    let (columns, done) = columns_of_ok env ps h in
    elim (Option-cases (env.get_table p)) [
      | inl missing ↦ absurd (known missing)
      | inr (table, there) ↦ (
        cons (column table (drop (length table) p) simple env.uninitialised) columns,
        ground (arith, there, done),
      )
    ]
