-- ===== src/QueryBuilder/Organizer/Alignment.antt =====
-- About rows and columns in OrganizeInsert (lib/query_builder/organizers/sql_organizer.cpp).
pub mod Insert
mod Known
use mathlib.Core.Path.{subst}
use mathlib.Core.Option.{some-injective}
use my_orm.Prelude.{
  ℕ, zero, suc, ◌+◌, ◌<◌, ◌≡◌, ◌≢◌, refl, sym, ap, ◌∙◌, Bool, true, false, Bool-cases, inl, inr,
  Option, none, append_assoc, append-nil, some, Option-cases, List, [], ◌∷◌, ◌++◌, ◌==◌, bytes_eq,
  bytes_beq_iff, length, length-append, length-set, length-replicate, get_elem?,
  get_elem?-append_left, get_elem?-append_last, get_elem?-set_self, get_elem?-set_ne, get_elem?_lt,
  set, replicate, if◌then◌else◌, arith,
}
use my_orm.Prelude.Map
use my_orm.Relation.Path.{MessagePath}
use my_orm.Requests.Attribute.{Attribute}
use my_orm.QueryBuilder.Clause.{Clause, default, insert, no_updates}
use my_orm.QueryBuilder.Organizer.{
  Environment, value_of, Row, State, extend, add_selector, add_selectors, place, place_all,
  organize_subrequest, organize_subrequests, no_state, organize_insert, columns_of, rows_of,
}

-- What a subrequest says of each path: the value of its last attribute with that path, else DEFAULT.
abbrev pub update : (MessagePath → Clause) → MessagePath → Clause → MessagePath → Clause
update f p v q = if p == q then v else f q

abbrev pub values : Environment → (MessagePath → Clause) → List Attribute → MessagePath → Clause
values env f [] = f
values env f (a ∷ as') = values env (update f a.path (value_of env a.value)) as'

-- Every index leads to the selector of its path.
abbrev pub IsIndexed : State → Type 0
IsIndexed s =
    (p : MessagePath) (i : ℕ) → Map.lookup p s.index ≡ some i → get_elem? s.selectors i ≡ some p

-- A row has a cell for every selector, and holds at the index of a path what `f` says of it.
pub record Fits (s : State) (r : Row) (f : MessagePath → Clause) : Type 0 where
  pub size : length r ≡ length s.selectors
  pub cells : (p : MessagePath) (i : ℕ) → Map.lookup p s.index ≡ some i → get_elem? r i ≡ some (f p)
  pub blank : (p : MessagePath) → Map.lookup p s.index ≡ none → f p ≡ default

pub add_selector-IsIndexed :
    (s : State) (p : MessagePath) → IsIndexed s → IsIndexed (add_selector s p)
unfolding add_selector
add_selector-IsIndexed s p h q i e = elim (Bool-cases (p == q)) [
  | inl same ↦
      let here : length s.selectors ≡ i = some-injective _ _ (rw (Map.lookup-insert, same) at e) in
      rw (← here, ← (bytes_beq_iff p q).0 same) (get_elem?-append_last s.selectors p)
  | inr other ↦
      let at = h q i (rw (Map.lookup-insert, other) at e) in
      get_elem?-append_left s.selectors (p ∷ []) i (get_elem?_lt s.selectors i q at) ∙ at
]

pub extended-Fits :
    (s : State) (r : Row) (f : MessagePath → Clause) (p : MessagePath) (rows : List Row)
    → IsIndexed s
    → Map.lookup p s.index ≡ none
    → Fits s r f
    → Fits (record (add_selector s p) { rows = rows }) (r ++ default ∷ []) f
unfolding add_selector
extended-Fits s r f p rows ix new h = record {
  size =
      length-append r (default ∷ [])
      ∙ ap (λ n. n + 1) h.size
      ∙ sym (length-append s.selectors (p ∷ []));
  cells = λ q i e. elim (Bool-cases (p == q)) [
    | inl same ↦
        let here : length s.selectors ≡ i =
          some-injective _ _ (rw (Map.lookup-insert, same) at e) in
        rw (← here, ← h.size, ← (bytes_beq_iff p q).0 same, h.blank p new)
          (get_elem?-append_last r default)
    | inr other ↦
        let at = h.cells q i (rw (Map.lookup-insert, other) at e) in
        get_elem?-append_left r (default ∷ []) i (get_elem?_lt r i (f q) at) ∙ at
  ];
  blank = λ q e. elim (Bool-cases (p == q)) [
    | inl same ↦ absurd (none_some (rw (Map.lookup-insert, same) at e))
    | inr other ↦ h.blank q (rw (Map.lookup-insert, other) at e)
  ];
}
  where
    none_some : {n : ℕ} → some n ≢ none
    none_some e = cc

pub written-Fits :
    (s : State) (r : Row) (f : MessagePath → Clause) (p : MessagePath) (i : ℕ) (v : Clause)
    → IsIndexed s
    → Map.lookup p s.index ≡ some i
    → Fits s r f
    → Fits s (set r i v) (update f p v)
written-Fits s r f p i v ix at h = record {
  size = length-set r i v ∙ h.size;
  cells = λ q j e. elim (Bool-cases (p == q)) [
    | inl same ↦
        let here : i ≡ j = some-injective _ _ (sym at ∙ rw (← (bytes_beq_iff p q).0 same) at e) in
        rw (same, ← here) (get_elem?-set_self r i v (get_elem?_lt r i (f p) (h.cells p i at)))
    | inr other ↦ rw other (get_elem?-set_ne r i j v (apart q j e other) ∙ h.cells q j e)
  ];
  blank = λ q e. elim (Bool-cases (p == q)) [
    | inl same ↦ cc (at, e, (bytes_beq_iff p q).0 same)
    | inr other ↦ rw other (h.blank q e)
  ];
}
  where
    apart : (q : MessagePath) (j : ℕ) → Map.lookup q s.index ≡ some j → (p == q) ≡ false → i ≢ j
    apart q j e other same = ground (
      arith,
      bytes_beq_iff p q,
      some-injective p q (sym (ix p i at) ∙ ap (get_elem? s.selectors) same ∙ ix q j e),
    )
