-- ===== src/Common/GetOpts/Index.antt =====
-- About the indices of GetOpts (lib/common/getopts.cpp) and its list of options.
use mathlib.Core.Path.{subst}
use mathlib.Core.Option.{some-injective}
use my_orm.Prelude.{
  ℕ, zero, suc, ◌<◌, ◌≡◌, ◌≢◌, ◌∙◌, ◌⊎◌, inl, inr, Bool, Bool-cases, Eq, none, some, List, [], ◌∷◌,
  ◌++◌, Bytes, bytes_eq, bytes_beq_iff, nat_eq, nat_beq_iff, ◌==◌, length, length-append, get_elem?,
  get_elem?-append_left, get_elem?-append_last, get_elem?_lt, ok, >>=-eq-ok, ok-injective, arith,
}
use my_orm.Prelude.Map
use my_orm.Prelude.Map.{Map}
use my_orm.Common.GetOpts.{
  index_name, Opt, OptionValue, GetOpts, empty, absent, validate_option, register_option,
  add_option,
}

-- An index by one kind of name leads to the options of that name, and has all that are named.
pub record IsIndexed {ℓ} {K : Type ℓ} ⦃e : Eq K⦄ (unnamed : K) (name : Opt → K) (options : List Opt)
    (index : Map K ℕ) : Type ℓ where
  pub found :
      (k : K) (idx : ℕ)
      → Map.lookup k index ≡ some idx
      → (opt : Opt) × (get_elem? options idx ≡ some opt) × (name opt ≡ k) × (k ≢ unnamed)
  pub indexed :
      (idx : ℕ) (opt : Opt)
      → get_elem? options idx ≡ some opt
      → name opt ≢ unnamed
      → Map.lookup (name opt) index ≡ some idx

-- An element of a list with one more is an old one or the last.
get_elem?-snoc :
    (xs : List Opt) (y : Opt) (i : ℕ) (v : Opt)
    → get_elem? (xs ++ y ∷ []) i ≡ some v
    → (get_elem? xs i ≡ some v) ⊎ ((i ≡ length xs) × (v ≡ y))
get_elem?-snoc [] y zero v h = ground arith
get_elem?-snoc [] y (suc i) v h = cc
get_elem?-snoc (x ∷ xs) y zero v h = inl h
get_elem?-snoc (x ∷ xs) y (suc i) v h = ground (arith, get_elem?-snoc xs y i v h)

get_elem?-snoc_old :
    (xs : List Opt) (y : Opt) (i : ℕ) (v : Opt)
    → get_elem? xs i ≡ some v
    → get_elem? (xs ++ y ∷ []) i ≡ some v
get_elem?-snoc_old xs y i v h = get_elem?-append_left xs (y ∷ []) i (get_elem?_lt xs i v h) ∙ h

module _ {ℓ} {K : Type ℓ} ⦃e : Eq K⦄ (unnamed : K) (name : Opt → K) (options : List Opt)
    (index : Map K ℕ) (c : IsIndexed unnamed name options index) (opt : Opt)
    (new : name opt ≢ unnamed → Map.lookup (name opt) index ≡ none) where
  abbrev after : Map K ℕ
  after = index_name unnamed (name opt) (length options) index

  found_after :
      (k : K) (idx : ℕ)
      → Map.lookup k after ≡ some idx
      → (o : Opt) × (get_elem? (options ++ opt ∷ []) idx ≡ some o) × (name o ≡ k) × (k ≢ unnamed)
  unfolding index_name
  found_after k idx h = elim (Bool-cases (name opt == unnamed)) [
    | inl u ↦
        let (o, at, is, n) = c.found k idx (rw u at h) in
        (o, get_elem?-snoc_old options opt idx o at, is, n)
    | inr u ↦ elim (Bool-cases (name opt == k)) [
      | inl same ↦
          let here : length options ≡ idx =
            some-injective _ _ (rw (u, Map.lookup-insert, same) at h) in
          (
            opt,
            rw (← here) (get_elem?-append_last options opt),
            (e.same_iff _ _).0 same,
            λ z. ground (arith, e.same_iff (name opt) unnamed, e.same_iff (name opt) k),
          )
      | inr other ↦
          let (o, at, is, n) = c.found k idx (rw (u, Map.lookup-insert, other) at h) in
          (o, get_elem?-snoc_old options opt idx o at, is, n)
    ]
  ]

  kept :
      (idx : ℕ) (o : Opt)
      → Map.lookup (name o) index ≡ some idx
      → Map.lookup (name o) after ≡ some idx
  unfolding index_name
  kept idx o old = elim (Bool-cases (name opt == unnamed)) [
    | inl u ↦ rw u old
    | inr u ↦ elim (Bool-cases (name opt == name o)) [
      | inl same ↦
          let none_old = new (λ z. ground (arith, e.same_iff (name opt) unnamed)) in
          ground (arith, none_old, old, e.same_iff (name opt) (name o))
      | inr other ↦ rw (u, Map.lookup-insert, other) old
    ]
  ]

  indexed_after :
      (idx : ℕ) (o : Opt)
      → get_elem? (options ++ opt ∷ []) idx ≡ some o
      → name o ≢ unnamed
      → Map.lookup (name o) after ≡ some idx
  unfolding index_name
  indexed_after idx o h n = elim (get_elem?-snoc options opt idx o h) [
    | inl old ↦ kept idx o (c.indexed idx o old n)
    | inr (i, same) ↦ ground (
      arith,
      e.same_iff (name opt) unnamed,
      e.same_iff (name opt) (name o),
      Map.lookup-insert (name opt) (name o) (length options) index,
    )
  ]

  pub IsIndexed-after : IsIndexed unnamed name (options ++ opt ∷ []) after
  IsIndexed-after = record { found = found_after; indexed = indexed_after }

-- The options and their indices agree, and every option has a name and a value.
pub record IsConsistent (g : GetOpts) : Type 0 where
  pub short : IsIndexed 0 (λ o. o.short_name) g.options g.short_index
  pub long : IsIndexed [] (λ o. o.long_name) g.options g.long_index
  pub valued :
      (idx : ℕ) → idx < length g.options → (v : OptionValue) × (Map.lookup idx g.values ≡ some v)

pub IsConsistent-empty : IsConsistent empty
unfolding Map.lookup
IsConsistent-empty = record {
  short = record { found = λ k idx h. cc; indexed = λ idx opt h n. cc };
  long = record { found = λ k idx h. cc; indexed = λ idx opt h n. cc };
  valued = λ idx h. elim h [ ];
}

new_short :
    (g : GetOpts) (short : ℕ) (long : Bytes)
    → validate_option g short long ≡ ok tt
    → short ≢ 0
    → Map.lookup short g.short_index ≡ none
unfolding validate_option
new_short g short long h n =
    Map.contains-none short g.short_index (ground (arith, nat_beq_iff short 0))

new_long :
    (g : GetOpts) (short : ℕ) (long : Bytes)
    → validate_option g short long ≡ ok tt
    → long ≢ []
    → Map.lookup long g.long_index ≡ none
unfolding validate_option
new_long g short long h n =
    Map.contains-none long g.long_index (ground (arith, bytes_beq_iff long []))

valued_after :
    (g : GetOpts) (opt : Opt)
    → IsConsistent g
    → (idx : ℕ) → idx < length (register_option g opt).options
    → (v : OptionValue) × (Map.lookup idx (register_option g opt).values ≡ some v)
unfolding register_option
valued_after g opt c idx h = elim (Bool-cases (length g.options == idx)) [
  | inl here ↦ (absent, rw (Map.lookup-insert, here))
  | inr there ↦
      let (v, at) =
        c.valued idx (
          ground (arith, length-append g.options (opt ∷ []), nat_beq_iff (length g.options) idx)) in
      (v, rw (Map.lookup-insert, there) at)
]

register_option-IsConsistent :
    (g : GetOpts) (opt : Opt)
    → IsConsistent g
    → validate_option g opt.short_name opt.long_name ≡ ok tt
    → IsConsistent (register_option g opt)
register_option-IsConsistent g opt c v = record {
  short =
      unfold register_option in
      IsIndexed-after 0 (λ o. o.short_name) g.options g.short_index c.short opt
        (new_short g opt.short_name opt.long_name v);
  long =
      unfold register_option in
      IsIndexed-after [] (λ o. o.long_name) g.options g.long_index c.long opt
        (new_long g opt.short_name opt.long_name v);
  valued = valued_after g opt c;
}

-- AddOption, where it does not throw, keeps the indices and the values in agreement with the list
-- of options.
pub add_option-IsConsistent :
    (g g' : GetOpts) (short : ℕ) (long text : Bytes) (requires : Bool)
    → IsConsistent g
    → add_option g short long text requires ≡ ok g'
    → IsConsistent g'
unfolding add_option
add_option-IsConsistent g g' short long text requires c h =
    let (u, v, e) = >>=-eq-ok (validate_option g short long) _ h in
    subst IsConsistent (ok-injective _ _ e) (
      register_option-IsConsistent g
        (record {
          short_name = short;
          long_name = long;
          description = text;
          requires_argument = requires;
        })
        c v)
