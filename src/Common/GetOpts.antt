-- ===== src/Common/GetOpts.antt =====
-- lib/common/getopts.h, getopts.cpp: the class GetOpts, which registers options by a short and a
-- long name and parses a command line. A char is its number, and 0 stands for no short name. An
-- object whose method threw is not looked at again, so the error carries no state.
pub mod Index
pub mod Parsing
pub mod Reading
use my_orm.Prelude.{
  ℕ, zero, suc, ◌+◌, Bool, true, false, not, ◌&&◌, ◌||◌, Option, none, some, List, [], ◌∷◌, ◌++◌,
  Bytes, Eq, bytes_eq, codes, length, get_elem?, ltb, ◌==◌, nat_eq, if◌then◌else◌, Outcome, ok, err,
  ensure, ◌>>=◌, ◌>>◌,
}
use my_orm.Prelude.Map
use my_orm.Prelude.Map.{Map}

-- The exceptions: those of the ASSERTs, and std::out_of_range of `at`.
pub data Error : Type 0 where
  no_name duplicate_short duplicate_long unknown_option missing_argument : Error
  unexpected_argument empty_argument not_present out_of_range : Error

pub record Opt : Type 0 where
  pub short_name : ℕ
  pub long_name : Bytes
  pub description : Bytes
  pub requires_argument : Bool

pub record OptionValue : Type 0 where
  pub value : Bytes
  pub present : Bool

pub record GetOpts : Type 0 where
  pub options : List Opt
  pub short_index : Map ℕ ℕ
  pub long_index : Map Bytes ℕ
  pub values : Map ℕ OptionValue
  pub positional : List Bytes

abbrev pub empty : GetOpts
empty = record { options = []; short_index = []; long_index = []; values = []; positional = [] }

abbrev pub absent : OptionValue
absent = record { value = []; present = false }

unfoldable pub validate_option : GetOpts → ℕ → Bytes → Outcome Error (Unit {0})
validate_option g short long = do
  ensure (not (short == 0) || not (long == [])) no_name
  ensure (short == 0 || not (Map.contains short g.short_index)) duplicate_short
  ensure (long == [] || not (Map.contains long g.long_index)) duplicate_long

-- `if (the option has the name) index[name] = idx;`, where `unnamed` stands for no name.
unfoldable pub index_name {ℓ} : {K : Type ℓ} ⦃e : Eq K⦄ (unnamed name : K) → ℕ → Map K ℕ → Map K ℕ
index_name unnamed name idx index =
    if not (name == unnamed) then Map.insert name idx index else index

unfoldable pub register_option : GetOpts → Opt → GetOpts
register_option g opt =
    let idx = length g.options in
    record {
      options = g.options ++ opt ∷ [];
      short_index = index_name 0 opt.short_name idx g.short_index;
      long_index = index_name [] opt.long_name idx g.long_index;
      values = Map.insert idx absent g.values;
      positional = g.positional;
    }

unfoldable pub add_option : GetOpts → ℕ → Bytes → Bytes → Bool → Outcome Error GetOpts
add_option g short long text requires = do
  validate_option g short long
  ok (
      register_option g (record {
        short_name = short;
        long_name = long;
        description = text;
        requires_argument = requires;
      }))

-- `Values_[idx]`, which makes an absent value where there is none.
unfoldable pub value_at : GetOpts → ℕ → OptionValue
value_at g idx = elim (Map.lookup idx g.values) [ none ↦ absent | some v ↦ v ]

unfoldable pub set_present : GetOpts → ℕ → GetOpts
unfolding value_at
set_present g idx =
    let v = value_at g idx in
    record g { values = Map.insert idx (record v { present = true }) g.values }

unfoldable pub set_value : GetOpts → ℕ → Bytes → GetOpts
unfolding value_at
set_value g idx text =
    let v = value_at g idx in
    record g { values = Map.insert idx (record v { value = text }) g.values }

-- ProcessShortOption from the characters behind the dash; an index in the result is an option that
-- takes its argument from the next word.
unfoldable pub process_short_option : GetOpts → Bytes → Outcome Error (GetOpts × Option ℕ)
unfolding set_present set_value
process_short_option g [] = ok (g, none)
process_short_option g (c ∷ cs) = elim (Map.lookup c g.short_index) [
  | none ↦ err unknown_option
  | some idx ↦ elim (get_elem? g.options idx) [
    | none ↦ err out_of_range
    | some opt ↦ elim opt.requires_argument [
      | true ↦ elim cs [
        | [] ↦ ok (set_present g idx, some idx)
        | d ∷ ds ↦ ok (set_value (set_present g idx) idx (d ∷ ds), none)
      ]
      | false ↦ process_short_option (set_present g idx) cs
    ]
  ]
]

-- strchr(arg, '='): what stands before the first sign, and what stands behind it if there is one.
unfoldable pub split_equals : Bytes → Bytes × Option Bytes
split_equals [] = ([], none)
split_equals (c ∷ s) =
    let (name, value) = split_equals s in if c == b'=' then ([], some s) else (c ∷ name, value)

unfoldable pub set_long : GetOpts → ℕ → Opt → Option Bytes → Outcome Error GetOpts
unfolding set_present set_value
set_long g idx opt none =
    if opt.requires_argument then err missing_argument else ok (set_present g idx)
set_long g idx opt (some text) =
    if opt.requires_argument
    then ok (set_value (set_present g idx) idx text)
    else err unexpected_argument

unfoldable pub process_named : GetOpts → Bytes × Option Bytes → Outcome Error GetOpts
process_named g (name, text) = elim (Map.lookup name g.long_index) [
  | none ↦ err unknown_option
  | some idx ↦ elim (get_elem? g.options idx) [
    | none ↦ err out_of_range
    | some opt ↦ set_long g idx opt text
  ]
]

unfoldable pub process_long_option : GetOpts → Bytes → Outcome Error GetOpts
unfolding process_named
process_long_option g arg = process_named g (split_equals arg)

unfoldable pub process_positional : GetOpts → Bytes → GetOpts
process_positional g arg = record g { positional = g.positional ++ arg ∷ [] }

-- What Parse makes of a word while it parses options.
pub data Word : Type 0 where
  end_of_options positional : Word
  long short : Bytes → Word

unfoldable pub classify : Bytes → Word
classify (a ∷ []) = positional
classify (a ∷ b ∷ []) =
    if a == b'-' && b == b'-'
    then end_of_options
    else if a == b'-'
    then short (b ∷ [])
    else positional
classify (a ∷ b ∷ c ∷ s) =
    if a == b'-' then (if b == b'-' then long (c ∷ s) else short (b ∷ c ∷ s)) else positional
classify [] = positional

-- The rest of the words once `--` was seen.
unfoldable pub all_positional : GetOpts → List Bytes → GetOpts
unfolding process_positional
all_positional g [] = g
all_positional g (arg ∷ args) = all_positional (process_positional g arg) args

-- The loop of Parse over the words behind the program's name, while it parses options.
unfoldable pub parse_words : GetOpts → List Bytes → Outcome Error GetOpts
parse_words g [] = ok g
parse_words g (arg ∷ []) = elim (classify arg) [
  | end_of_options ↦ ok g
  | positional ↦ ok (process_positional g arg)
  | long body ↦ process_long_option g body
  | short body ↦ do
    (g', wants) ← process_short_option g body
    elim wants [ none ↦ ok g' | some idx ↦ err missing_argument ]
]
parse_words g (arg ∷ next ∷ args) = elim (classify arg) [
  | end_of_options ↦ ok (all_positional g (next ∷ args))
  | positional ↦ parse_words (process_positional g arg) (next ∷ args)
  | long body ↦ process_long_option g body >>= λ g'. parse_words g' (next ∷ args)
  | short body ↦ do
    (g', wants) ← process_short_option g body
    elim wants [
      | none ↦ parse_words g' (next ∷ args)
      | some idx ↦ parse_words (set_value g' idx next) args
    ]
]

-- The last loop of Parse; `ShortIndex_.at` is asked also for an option with no short name.
unfoldable pub check_arguments : GetOpts → List Opt → Outcome Error (Unit {0})
unfolding value_at
check_arguments g [] = ok tt
check_arguments g (opt ∷ opts) = elim opt.requires_argument [
  | false ↦ check_arguments g opts
  | true ↦ elim (Map.lookup opt.short_name g.short_index) [
    | none ↦ err out_of_range
    | some idx ↦
        ensure (not (value_at g idx).present || not ((value_at g idx).value == [])) empty_argument
        >>= λ _. check_arguments g opts
  ]
]

unfoldable pub parse : GetOpts → List Bytes → Outcome Error GetOpts
parse g args = do g' ← parse_words g args; check_arguments g' g'.options; ok g'

-- `Values_.at(index.at(name))`, behind the test that the index has the name.
unfoldable pub value_of : GetOpts → Option ℕ → Outcome Error (Option OptionValue)
value_of g none = ok none
value_of g (some idx) = elim (Map.lookup idx g.values) [
  | none ↦ err out_of_range
  | some v ↦ ok (some v)
]

unfoldable pub has : Option OptionValue → Bool
has none = false
has (some v) = v.present

unfoldable pub has_short : GetOpts → ℕ → Outcome Error Bool
has_short g c = do v ← value_of g (Map.lookup c g.short_index); ok (has v)

unfoldable pub has_long : GetOpts → Bytes → Outcome Error Bool
has_long g name = do v ← value_of g (Map.lookup name g.long_index); ok (has v)

unfoldable pub get : Option OptionValue → Outcome Error Bytes
get none = err not_present
get (some v) = if v.present then ok v.value else err not_present

unfoldable pub get_short : GetOpts → ℕ → Outcome Error Bytes
get_short g c = do v ← value_of g (Map.lookup c g.short_index); get v

unfoldable pub get_long : GetOpts → Bytes → Outcome Error Bytes
get_long g name = do v ← value_of g (Map.lookup name g.long_index); get v
