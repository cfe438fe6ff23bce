-- ===== src/Common/GetOpts/Parsing.antt =====
-- About what GetOpts::Parse (lib/common/getopts.cpp) does to an object.
use mathlib.Core.Path.{subst}
use my_orm.Prelude.{
  ℕ, zero, suc, ◌≡◌, ◌≢◌, refl, ap, ◌∙◌, ◌⊎◌, inl, inr, true, Bool-cases, Option, none, some,
  Option-cases, List, [], ◌∷◌, ◌++◌, append-nil, append_assoc, Bytes, bytes_eq, nat_eq, get_elem?,
  Outcome, ok, err, ◌>>=◌, >>=-eq-ok, ok-injective, arith,
}
use my_orm.Prelude.Map
use my_orm.Prelude.Map.{Map}
use my_orm.Common.GetOpts.{
  Error, missing_argument, Opt, GetOpts, set_present, set_value, process_short_option,
  process_long_option, set_long, process_positional, Word, classify, end_of_options, positional,
  long, short, all_positional, parse_words, check_arguments, parse,
}

-- `h` has the options of `g`, under the same names.
abbrev pub SameOptions : GetOpts → GetOpts → Type 0
SameOptions g h =
    (h.options ≡ g.options) × (h.short_index ≡ g.short_index) × (h.long_index ≡ g.long_index)

SameOptions-trans : (g h k : GetOpts) → SameOptions g h → SameOptions h k → SameOptions g k
SameOptions-trans g h k (a, b, c) (d, e, f) = (d ∙ a, e ∙ b, f ∙ c)

set_present-SameOptions : (g : GetOpts) (idx : ℕ) → SameOptions g (set_present g idx)
unfolding set_present
set_present-SameOptions g idx = (refl, refl, refl)

set_value-SameOptions :
    (g : GetOpts) (idx : ℕ) (text : Bytes) → SameOptions g (set_value g idx text)
unfolding set_value
set_value-SameOptions g idx text = (refl, refl, refl)

-- What a successful step gives has the options of `g`.
abbrev pub Keeps : GetOpts → Outcome Error GetOpts → Type 0
Keeps g r = (g' : GetOpts) → r ≡ ok g' → SameOptions g g'

absurd_err {ℓ} :
    {A : Type 0} {P : Type ℓ} {e : Error} {a : A} → ◌≡◌ {A = Outcome Error A} (err e) (ok a) → P
absurd_err h = cc

process_short_option-Keeps :
    (g : GetOpts) (body : Bytes) (g' : GetOpts) (wants : Option ℕ)
    → process_short_option g body ≡ ok (g', wants)
    → SameOptions g g'
unfolding process_short_option
process_short_option-Keeps g [] g' wants h = ground arith
process_short_option-Keeps g (c ∷ []) g' wants h = ground arith
process_short_option-Keeps g (c ∷ d ∷ cs) g' wants h =
    elim (Option-cases (Map.lookup c g.short_index)) [
      | inl e ↦ absurd_err (rw (e, process_short_option) at h)
      | inr (idx, e) ↦ elim (Option-cases (get_elem? g.options idx)) [
        | inl f ↦ absurd_err (rw (f) at (rw (e, process_short_option) at h))
        | inr (opt, f) ↦ elim (Bool-cases opt.requires_argument) [
          | inl r ↦ ground arith
          | inr r ↦
              process_short_option-Keeps (set_present g idx) (d ∷ cs) g' wants
                (rw r at (rw f at (rw (e, process_short_option) at h)))
        ]
      ]
    ]

process_long_option-Keeps : (g : GetOpts) (body : Bytes) → Keeps g (process_long_option g body)
unfolding process_long_option set_long set_present set_value
process_long_option-Keeps g body g' h = ground arith

process_positional-Keeps : (g : GetOpts) (arg : Bytes) → SameOptions g (process_positional g arg)
unfolding process_positional
process_positional-Keeps g arg = (refl, refl, refl)

pub all_positional_lem :
    (g : GetOpts) (args : List Bytes)
    → all_positional g args ≡ record g { positional = g.positional ++ args }
unfolding all_positional
all_positional_lem g [] = rw append-nil
all_positional_lem g (arg ∷ args) =
    all_positional_lem (process_positional g arg) args
    ∙ ap (λ (l : List Bytes). record g { positional = l })
        (append_assoc g.positional (arg ∷ []) args)

Word-cases :
    (w : Word)
    → (w ≡ end_of_options)
      ⊎ (w ≡ positional)
      ⊎ ((b : Bytes) × (w ≡ long b))
      ⊎ ((b : Bytes) × (w ≡ short b))
Word-cases end_of_options = inl refl
Word-cases positional = inr (inl refl)
Word-cases (long b) = inr (inr (inl (b, refl)))
Word-cases (short b) = inr (inr (inr (b, refl)))

all_positional-SameOptions :
    (g : GetOpts) (args : List Bytes) → SameOptions g (all_positional g args)
all_positional-SameOptions g args = rw (all_positional_lem g args) (refl, refl, refl)

ok-Keeps : (g h : GetOpts) → SameOptions g h → Keeps g (ok h)
ok-Keeps g h s g' e = subst (SameOptions g) (ok-injective h g' e) s

err-Keeps : (g : GetOpts) (e : Error) → Keeps g (err e)
err-Keeps g e g' h = absurd_err h

then-Keeps :
    (g : GetOpts) (m : Outcome Error GetOpts) (f : GetOpts → Outcome Error GetOpts)
    → Keeps g m
    → ((k : GetOpts) → Keeps k (f k))
    → Keeps g (m >>= f)
then-Keeps g (ok a) f h k g' e = SameOptions-trans g a g' (h a refl) (k a g' e)
then-Keeps g (err e) f h k g' p = absurd_err p

-- The words after a cluster of short options.
cluster-Keeps :
    (g : GetOpts) (body : Bytes) (f : GetOpts → Option ℕ → Outcome Error GetOpts)
    → ((k : GetOpts) (wants : Option ℕ) → Keeps k (f k wants))
    → Keeps g (process_short_option g body >>= λ r. f r.0 r.1)
cluster-Keeps g body f h g' e =
    let ((k, wants), p, q) = >>=-eq-ok (process_short_option g body) _ e in
    SameOptions-trans g k g' (process_short_option-Keeps g body k wants p) (h k wants g' q)

pub parse_words-Keeps : (g : GetOpts) (args : List Bytes) → Keeps g (parse_words g args)
unfolding parse_words
parse_words-Keeps g [] = ok-Keeps g g (refl, refl, refl)
parse_words-Keeps g (arg ∷ []) = elim (Word-cases (classify arg)) [
  | inl e ↦ rw (e, parse_words) (ok-Keeps g g (refl, refl, refl))
  | inr (inl e) ↦ rw (e, parse_words) (ok-Keeps g _ (process_positional-Keeps g arg))
  | inr (inr (inl (b, e))) ↦ rw (e, parse_words) (process_long_option-Keeps g b)
  | inr (inr (inr (b, e))) ↦
      rw (e, parse_words)
        (cluster-Keeps g b _ (λ k wants.
          elim wants as (λ w. Keeps k (elim w [ none ↦ ok k | some idx ↦ err missing_argument ])) [
            | none ↦ ok-Keeps k k (refl, refl, refl)
            | some idx ↦ err-Keeps k missing_argument
          ]))
]
parse_words-Keeps g (arg ∷ next ∷ args) = elim (Word-cases (classify arg)) [
  | inl e ↦ rw (e, parse_words) (ok-Keeps g _ (all_positional-SameOptions g (next ∷ args)))
  | inr (inl e) ↦
      rw (e, parse_words)
        (λ g' h.
          SameOptions-trans g (process_positional g arg) g' (process_positional-Keeps g arg)
            (parse_words-Keeps (process_positional g arg) (next ∷ args) g' h))
  | inr (inr (inl (b, e))) ↦
      rw (e, parse_words)
        (then-Keeps g _ _ (process_long_option-Keeps g b) (λ k. parse_words-Keeps k (next ∷ args)))
  | inr (inr (inr (b, e))) ↦
      rw (e, parse_words)
        (cluster-Keeps g b _ (λ k wants.
          elim wants
            as (λ w. Keeps k (elim w [
              | none ↦ parse_words k (next ∷ args)
              | some idx ↦ parse_words (set_value k idx next) args
            ])) [
              | none ↦ parse_words-Keeps k (next ∷ args)
              | some idx ↦ λ g' h.
                  SameOptions-trans k (set_value k idx next) g' (set_value-SameOptions k idx next)
                    (parse_words-Keeps (set_value k idx next) args g' h)
            ]))
]

-- Parse, where it does not throw, leaves the options and their names as they were.
pub parse-SameOptions :
    (g g' : GetOpts) (args : List Bytes) → parse g args ≡ ok g' → SameOptions g g'
unfolding parse
parse-SameOptions g g' args h =
    let (k, p, q) = >>=-eq-ok (parse_words g args) _ h in
    let (u, r, s) = >>=-eq-ok (check_arguments k k.options) _ q in
    subst (SameOptions g) (ok-injective k g' s) (parse_words-Keeps g args k p)

-- The last loop of Parse throws on an option that takes an argument and has no entry in the index
-- of short names.
pub check_arguments_fails :
    (g : GetOpts) (opts : List Opt) (i : ℕ) (opt : Opt)
    → get_elem? opts i ≡ some opt
    → opt.requires_argument ≡ true
    → Map.lookup opt.short_name g.short_index ≡ none
    → check_arguments g opts ≢ ok tt
unfolding check_arguments
check_arguments_fails g [] i opt at r none_there = cc
check_arguments_fails g (o ∷ opts) zero opt at r none_there = ground arith
check_arguments_fails g (o ∷ opts) (suc i) opt at r none_there =
    ground (arith, check_arguments_fails g opts i opt at r none_there)
