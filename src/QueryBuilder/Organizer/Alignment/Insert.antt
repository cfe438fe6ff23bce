-- ===== src/QueryBuilder/Organizer/Alignment/Insert.antt =====
-- OrganizeInsert (lib/query_builder/organizers/sql_organizer.cpp), from its first subrequest to the
-- statement.
use mathlib.Core.Path.{subst}
use my_orm.Prelude.{
  ℕ, zero, suc, ◌<◌, ◌≡◌, refl, sym, Bool, inl, inr, none, append_assoc, append-nil, some,
  Option-cases, List, [], ◌∷◌, ◌++◌, bytes_eq, length, length-replicate, get_elem?, get_elem?_lt,
  replicate, arith, All, ◌≢◌, ok,
}
use my_orm.Prelude.Map
use my_orm.Relation.Path.{MessagePath}
use my_orm.Requests.Attribute.{Attribute}
use my_orm.QueryBuilder.Clause.{Clause, Clauses, default}
use my_orm.QueryBuilder.Organizer.{
  Environment, value_of, Row, State, extend, add_selector, add_selectors, place, place_all,
  organize_subrequest, organize_subrequests, no_state, organize_insert, columns_of, insert_of,
}
use my_orm.QueryBuilder.Organizer.Alignment.{
  update, values, IsIndexed, Fits, add_selector-IsIndexed, extended-Fits, written-Fits,
}
use my_orm.QueryBuilder.Organizer.Alignment.Known.{
  add_selectors-Known, organize_subrequests-Known, columns_of_ok,
}

same_columns :
    (s : State) (rows : List Row) (r : Row) (f : MessagePath → Clause)
    → Fits s r f
    → Fits (record s { rows = rows }) r f
same_columns s rows r f h = record { size = h.size; cells = h.cells; blank = h.blank }

get_elem?-replicate : (n i : ℕ) (c : Clause) → i < n → get_elem? (replicate n c) i ≡ some c
get_elem?-replicate zero i c h = elim h [ ]
get_elem?-replicate (suc n) zero c h = refl
get_elem?-replicate (suc n) (suc i) c h = get_elem?-replicate n i c (omega arith)

abbrev blank_row : MessagePath → Clause
blank_row p = default

fresh-Fits : (s : State) → IsIndexed s → Fits s (replicate (length s.selectors) default) blank_row
fresh-Fits s ix = record {
  size = length-replicate (length s.selectors) default;
  cells = λ p i e.
      get_elem?-replicate (length s.selectors) i default (get_elem?_lt s.selectors i p (ix p i e));
  blank = λ p e. refl;
}

-- The rows fit the columns, and each holds what the subrequest at its position says.
abbrev pub AllFit : Environment → State → List Row → List (List Attribute) → Type 0
AllFit env s [] [] = Unit
AllFit env s (r ∷ rs) (a ∷ as') = Fits s r (values env (λ p. default) a) × AllFit env s rs as'
AllFit env s [] (a ∷ as') = ⊥
AllFit env s (r ∷ rs) [] = ⊥

extended-AllFit :
    (env : Environment) (s : State) (p : MessagePath) (rows : List Row) (rs : List Row)
    (subrequests : List (List Attribute))
    → IsIndexed s
    → Map.lookup p s.index ≡ none
    → AllFit env s rs subrequests
    → AllFit env (record (add_selector s p) { rows = rows }) (extend rs) subrequests
unfolding extend
extended-AllFit env s p rows [] [] ix new h = tt
extended-AllFit env s p rows (r ∷ rs) (a ∷ as') ix new (q, h) =
    (extended-Fits s r _ p rows ix new q, extended-AllFit env s p rows rs as' ix new h)
extended-AllFit env s p rows [] (a ∷ as') ix new h = elim h [ ]
extended-AllFit env s p rows (r ∷ rs) [] ix new h = elim h [ ]

appended-AllFit :
    (env : Environment) (s : State) (rows : List Row) (rs : List Row) (r : Row)
    (subrequests : List (List Attribute)) (a : List Attribute)
    → AllFit env s rs subrequests
    → Fits s r (values env (λ p. default) a)
    → AllFit env (record s { rows = rows }) (rs ++ r ∷ []) (subrequests ++ a ∷ [])
appended-AllFit env s rows [] r [] a h k = (same_columns s rows r _ k, tt)
appended-AllFit env s rows (x ∷ rs) r (b ∷ bs) a (q, h) k =
    (same_columns s rows x _ q, appended-AllFit env s rows rs r bs a h k)
appended-AllFit env s rows [] r (b ∷ bs) a h k = elim h [ ]
appended-AllFit env s rows (x ∷ rs) r [] a h k = elim h [ ]

-- The state while the row `r` is filled, and what the attributes so far say of it.
abbrev Filling : Environment → List (List Attribute) → State → Row → (MessagePath → Clause) → Type 0
Filling env subrequests s r f = IsIndexed s × AllFit env s s.rows subrequests × Fits s r f

place-Filling :
    (env : Environment) (subrequests : List (List Attribute)) (s : State) (r : Row)
    (f : MessagePath → Clause) (a : Attribute)
    → Filling env subrequests s r f
    → Filling env subrequests
        (place env s r a).0
        (place env s r a).1
        (update f a.path (value_of env a.value))
unfolding place
place-Filling env subrequests s r f a (ix, all, fits) =
    elim (Option-cases (Map.lookup a.path s.index)) [
      | inl new ↦
          rw (new, place)
            (
              ix' new,
              extended-AllFit env s a.path (extend s.rows) s.rows subrequests ix new all,
              written-Fits (s' new) (r ++ default ∷ []) f a.path (length s.selectors) _ (ix' new)
                  (unfold add_selector in
                    Map.lookup-insert_self a.path (length s.selectors) s.index)
                  (extended-Fits s r f a.path (extend s.rows) ix new fits),
            )
      | inr (i, at) ↦ rw (at, place) (ix, all, written-Fits s r f a.path i _ ix at fits)
    ]
  where
    s' : Map.lookup a.path s.index ≡ none → State
    s' new = record (add_selector s a.path) { rows = extend s.rows }

    ix' : (new : Map.lookup a.path s.index ≡ none) → IsIndexed (s' new)
    ix' new = add_selector-IsIndexed s a.path ix

place_all-Filling :
    (env : Environment) (subrequests : List (List Attribute)) (s : State) (r : Row)
    (f : MessagePath → Clause) (attributes : List Attribute)
    → Filling env subrequests s r f
    → Filling env subrequests
        (place_all env s r attributes).0
        (place_all env s r attributes).1
        (values env f attributes)
unfolding place_all
place_all-Filling env subrequests s r f [] h = h
place_all-Filling env subrequests s r f (a ∷ as') h =
    place_all-Filling env subrequests (place env s r a).0 (place env s r a).1
      (update f a.path (value_of env a.value)) as' (place-Filling env subrequests s r f a h)

-- What holds between the subrequests.
abbrev Aligned : Environment → List (List Attribute) → State → Type 0
Aligned env subrequests s = IsIndexed s × AllFit env s s.rows subrequests

organize_subrequest-Aligned :
    (env : Environment) (subrequests : List (List Attribute)) (s : State) (a : List Attribute)
    → Aligned env subrequests s
    → Aligned env (subrequests ++ a ∷ []) (organize_subrequest env s a)
unfolding organize_subrequest
organize_subrequest-Aligned env subrequests s a (ix, all) =
    let (ix', all', fits) =
      place_all-Filling env subrequests s _ (λ p. default) a (ix, all, fresh-Fits s ix) in
    (ix', appended-AllFit env _ _ _ _ subrequests a all' fits)

organize_subrequests-Aligned :
    (env : Environment) (subrequests rest : List (List Attribute)) (s : State)
    → Aligned env subrequests s
    → Aligned env (subrequests ++ rest) (organize_subrequests env s rest)
unfolding organize_subrequests
organize_subrequests-Aligned env subrequests [] s h =
    subst (λ l. Aligned env l s) (sym (append-nil subrequests)) h
organize_subrequests-Aligned env subrequests (a ∷ rest) s h =
    subst (λ l. Aligned env l (organize_subrequests env (organize_subrequest env s a) rest))
      (append_assoc subrequests (a ∷ []) rest)
      (organize_subrequests-Aligned env (subrequests ++ a ∷ []) rest (organize_subrequest env s a)
        (organize_subrequest-Aligned env subrequests s a h))

add_selectors-Aligned :
    (env : Environment) (s : State) (attributes : List Attribute)
    → Aligned env [] s
    → Aligned env [] (add_selectors s attributes)
unfolding add_selectors
add_selectors-Aligned env s [] h = h
add_selectors-Aligned env s (a ∷ as') (ix, all) =
    add_selectors-Aligned env (add_selector s a.path) as'
      (add_selector-IsIndexed s a.path ix, (unfold add_selector in no_rows_left s.rows all))
  where
    no_rows_left : (rs : List Row) → AllFit env s rs [] → AllFit env (add_selector s a.path) rs []
    no_rows_left [] h = tt
    no_rows_left (r ∷ rs) h = elim h [ ]

no_state-Aligned : (env : Environment) → Aligned env [] no_state
unfolding Map.lookup
no_state-Aligned env = (λ p i e. cc, tt)

-- OrganizeInsert, where the relation manager knows a table for the path of every attribute, gives a
-- statement whose columns and rows come from one state. The index of a path is that of its column.
-- Each row has a cell for every column and holds, for every path that has an index, the value of the
-- last attribute with that path in the subrequest at the row's position, and DEFAULT where there is
-- none. A path without an index has no other value than DEFAULT in any of the subrequests.
pub organize_insert-AllFit :
    (env : Environment) (table_num : ℕ) (update_if_exists : Bool) (first : List Attribute)
    (rest : List (List Attribute))
    → All (All (λ a. env.get_table a.path ≢ none)) (first ∷ rest)
    → (s : State) × (columns : Clauses) × (organize_insert env table_num update_if_exists
          (first ∷ rest)
        ≡ ok (insert_of table_num update_if_exists s.rows columns))
      × (columns_of env s.selectors ≡ ok columns)
      × IsIndexed s
      × AllFit env s s.rows (first ∷ rest)
unfolding organize_insert
organize_insert-AllFit env table_num update_if_exists first rest known =
    let start = add_selectors no_state first in
    let s = organize_subrequests env start (first ∷ rest) in
    let (ix, all) =
      organize_subrequests-Aligned env [] (first ∷ rest) start
        (add_selectors-Aligned env no_state first (no_state-Aligned env)) in
    let (columns, done) = columns_of_ok env s.selectors (
      organize_subrequests-Known env start (first ∷ rest) known
        (add_selectors-Known env no_state first known.0 tt)) in
    (s, columns, rw done refl, done, ix, all)
