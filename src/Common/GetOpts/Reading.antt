-- ===== src/Common/GetOpts/Reading.antt =====
-- About what Parse of lib/common/getopts.cpp leaves to be read by Get and GetPositional.
use my_orm.Prelude.{
  ℕ, ◌≡◌, ◌≢◌, refl, ap, ◌∙◌, sym, inl, inr, true, Option, none, some, Option-cases, List, [], ◌∷◌,
  ◌++◌, append-nil, append_assoc, Bytes, codes, bytes_eq, nat_eq, All, get_elem?, Outcome, ok,
  ◌>>=◌, >>=-eq-ok, ok-injective, arith,
}
use my_orm.Prelude.Map
use my_orm.Common.GetOpts.{
  Error, Opt, GetOpts, value_at, set_present, set_value, split_equals, set_long, process_named,
  process_long_option, process_positional, classify, positional, parse_words, check_arguments,
  parse, value_of, get, get_short, get_long,
}
use my_orm.Common.GetOpts.Index.{IsConsistent}
use my_orm.Common.GetOpts.Parsing.{parse_words-Keeps, all_positional_lem, check_arguments_fails}

-- An option with a long name only that takes an argument makes every call of Parse throw, also on
-- a command line that does not use it.
pub parse_long_only_fails :
    (g : GetOpts) (i : ℕ) (opt : Opt)
    → IsConsistent g
    → get_elem? g.options i ≡ some opt
    → opt.short_name ≡ 0
    → opt.requires_argument ≡ true
    → (args : List Bytes) (g' : GetOpts) → parse g args ≢ ok g'
unfolding parse
parse_long_only_fails g i opt c at unnamed requires args g' h =
    let (k, p, q) = >>=-eq-ok (parse_words g args) _ h in
    let (u, r, s) = >>=-eq-ok (check_arguments k k.options) _ q in
    let (options, short_index, long_index) = parse_words-Keeps g args k p in
    check_arguments_fails k k.options i opt (rw options at_here) requires (rw short_index no_short)
      r
  where
    at_here : get_elem? g.options i ≡ some opt
    at_here = at

    no_short : Map.lookup opt.short_name g.short_index ≡ none
    no_short = elim (Option-cases (Map.lookup opt.short_name g.short_index)) [
      | inl e ↦ e
      | inr (idx, e) ↦ absurd ((c.short.found opt.short_name idx e).3 unnamed)
    ]

abbrev pub IsPositional : Bytes → Type 0
IsPositional arg = classify arg ≡ positional

regroup :
    (g : GetOpts) (w : Bytes) (words rest : List Bytes)
    → ◌≡◌ {A = Outcome Error GetOpts}
        (ok (record g { positional = (g.positional ++ w ∷ []) ++ (words ++ rest) }))
        (ok (record g { positional = g.positional ++ ((w ∷ words) ++ rest) }))
regroup g w words rest =
    ap (λ (l : List Bytes). ok (record g { positional = l }))
      (append_assoc g.positional (w ∷ []) (words ++ rest))

split_equals_at :
    (name text : Bytes)
    → All (λ c. c ≢ b'=') name
    → split_equals (name ++ b'=' ∷ text) ≡ (name, some text)
unfolding split_equals
split_equals_at [] text h = refl
split_equals_at (c ∷ name) text (p, h) = ground (arith, split_equals_at name text h)

-- Words that are no options, and all words behind `--`, are collected in their order, and change
-- nothing else.
pub parse_words_positional :
    (g : GetOpts) (words rest : List Bytes)
    → All IsPositional words
    → parse_words g (words ++ codes "--" ∷ rest)
      ≡ ok (record g { positional = g.positional ++ (words ++ rest) })
unfolding parse_words classify process_positional
parse_words_positional g [] [] h = rw append-nil
parse_words_positional g [] (r ∷ rest) h = rw (all_positional_lem g (r ∷ rest))
parse_words_positional g (w ∷ []) rest (p, h) =
    rw (p, parse_words)
      (parse_words_positional (process_positional g w) [] rest tt ∙ regroup g w [] rest)
parse_words_positional g (w ∷ v ∷ words) rest (p, h) =
    rw (p, parse_words)
      (parse_words_positional (process_positional g w) (v ∷ words) rest h
        ∙ regroup g w (v ∷ words) rest)

present_set : (g : GetOpts) (idx : ℕ) → (value_at (set_present g idx) idx).present ≡ true
unfolding set_present
present_set g idx = rw (Map.lookup-insert_self, value_at)

value_set :
    (g : GetOpts) (idx : ℕ) (text : Bytes)
    → Map.lookup idx (set_value (set_present g idx) idx text).values
      ≡ some (record { value = text; present = true })
unfolding set_value
value_set g idx text = simp (Map.lookup-insert_self, present_set)

reads :
    (g : GetOpts) (index : Option ℕ) (idx : ℕ) (text : Bytes)
    → index ≡ some idx
    → Map.lookup idx g.values ≡ some (record { value = text; present = true })
    → (value_of g index >>= λ v. get v) ≡ ok text
unfolding value_of get
reads g index idx text h k = rw h (rw (k, value_of))

processed :
    (g : GetOpts) (name text : Bytes) (idx : ℕ) (opt : Opt)
    → All (λ c. c ≢ b'=') name
    → Map.lookup name g.long_index ≡ some idx
    → get_elem? g.options idx ≡ some opt
    → opt.requires_argument ≡ true
    → process_long_option g (name ++ b'=' ∷ text) ≡ ok (set_value (set_present g idx) idx text)
unfolding process_long_option set_long
processed g name text idx opt free by_long at requires =
    rw (split_equals_at name text free)
      (rw (by_long, process_named) (rw at (rw (requires, set_long))))

-- A long word `--name=text`, where the name holds no `=`, sets the value of the option that both indices
-- lead to and that takes an argument, and Get gives the text under the long name and under the short
-- name of that option.
pub get-process_long_option :
    (g g' : GetOpts) (name text : Bytes) (idx : ℕ) (opt : Opt)
    → All (λ c. c ≢ b'=') name
    → Map.lookup name g.long_index ≡ some idx
    → Map.lookup opt.short_name g.short_index ≡ some idx
    → get_elem? g.options idx ≡ some opt
    → opt.requires_argument ≡ true
    → process_long_option g (name ++ b'=' ∷ text) ≡ ok g'
    → (get_long g' name ≡ ok text) × (get_short g' opt.short_name ≡ ok text)
unfolding get_long get_short
get-process_long_option g g' name text idx opt free by_long by_short at requires h =
    rw (← ok-injective _ g' (sym (processed g name text idx opt free by_long at requires) ∙ h)) (
      reads after _ idx text (same_long ∙ by_long) (value_set g idx text),
      reads after _ idx text (same_short ∙ by_short) (value_set g idx text),
    )
  where
    after : GetOpts
    after = set_value (set_present g idx) idx text

    same_long : Map.lookup name after.long_index ≡ Map.lookup name g.long_index
    same_long = unfold set_value set_present in refl

    same_short :
        Map.lookup opt.short_name after.short_index ≡ Map.lookup opt.short_name g.short_index
    same_short = unfold set_value set_present in refl
