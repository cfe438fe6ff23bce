-- ===== src/Common/Text/Options.antt =====
-- FormatValue and FormatOptions of lib/common/format.h, format.cpp, without ParseFromString. A
-- number in a value is its text, as in the source; std::stoi is a parameter, none where it throws.
pub mod Parse
pub mod Laws
use my_orm.Prelude.{
  ℕ, ◌+◌, Bool, true, false, not, ◌&&◌, ◌||◌, Option, none, some, List, [], ◌∷◌, ◌++◌, Bytes, codes,
  bytes_eq, length, drop, ◌==◌, if◌then◌else◌,
}
use my_orm.Prelude.Int.{ℤ}
use my_orm.Common.Text.Split.{starts_with}

-- FormatOptions is a std::map from keys to values: here its entries, one behind the other.
mutual
  pub data FormatValue : Type 0 where
    bool : Bool → FormatValue
    string : Bytes → FormatValue
    options : FormatOptions → FormatValue
    nothing : FormatValue

  pub data FormatOptions : Type 0 where
    empty : FormatOptions
    entry : (key : Bytes) (value : FormatValue) (rest : FormatOptions) → FormatOptions

-- options_.find(key)
unfoldable pub find_option : Bytes → FormatOptions → Option FormatValue
find_option key empty = none
find_option key (entry k value rest) =
    let later = find_option key rest in if k == key then some value else later

-- options_[key] = value
unfoldable pub set_option : Bytes → FormatValue → FormatOptions → FormatOptions
set_option key value empty = entry key value empty
set_option key value (entry k old rest) =
    let later = set_option key value rest in
    if k == key then entry k value rest else entry k old later

unfoldable pub has_option : FormatOptions → Bytes → Bool
unfolding find_option
has_option o key = elim (find_option key o) [ none ↦ false | some value ↦ true ]

-- FormatValue::AsBool, AsString and AsOptions, behind the tests IsBool, IsString and IsOptions.
unfoldable pub as_bool : FormatValue → Option Bool
as_bool (bool b) = some b
as_bool (string s) = none
as_bool (options o) = none
as_bool nothing = none

unfoldable pub as_string : FormatValue → Option Bytes
as_string (bool b) = none
as_string (string s) = some s
as_string (options o) = none
as_string nothing = none

unfoldable pub as_options : FormatValue → Option FormatOptions
as_options (bool b) = none
as_options (string s) = none
as_options (options o) = some o
as_options nothing = none

-- AsInt, behind the test IsInt.
unfoldable pub as_int : (read_int : Bytes → Option ℤ) → FormatValue → Option ℤ
unfolding as_string
as_int read_int value = elim (as_string value) [ none ↦ none | some s ↦ read_int s ]

-- The getters: the value under the key if it is of the kind, else the default.
unfoldable pub get_as {ℓ} : {A : Type ℓ} → (FormatValue → Option A) → FormatOptions → Bytes → A → A
unfolding find_option
get_as view o key default = elim (find_option key o) [
  | none ↦ default
  | some value ↦ elim (view value) [ none ↦ default | some a ↦ a ]
]

unfoldable pub get_bool : FormatOptions → Bytes → Bool → Bool
unfolding get_as as_bool
get_bool = get_as as_bool

unfoldable pub get_string : FormatOptions → Bytes → Bytes → Bytes
unfolding get_as as_string
get_string = get_as as_string

unfoldable pub get_options : FormatOptions → Bytes → FormatOptions → FormatOptions
unfolding get_as as_options
get_options = get_as as_options

unfoldable pub get_int : (read_int : Bytes → Option ℤ) → FormatOptions → Bytes → ℤ → ℤ
unfolding get_as as_int
get_int read_int = get_as (as_int read_int)

-- The loop of GetSubOptions: the entries whose key starts with the prefix and a dot.
unfoldable pub sub_entries : (prefix_dot : Bytes) → FormatOptions → FormatOptions → FormatOptions
unfolding starts_with set_option
sub_entries prefix_dot empty result = result
sub_entries prefix_dot (entry key value rest) result =
    let sub_key = drop (length prefix_dot) key in
    let skipped = sub_entries prefix_dot rest result in
    let taken = sub_entries prefix_dot rest (set_option sub_key value result) in
    if starts_with prefix_dot key
    then elim value [ nothing ↦ skipped | bool b ↦ taken | string s ↦ taken | options o ↦ taken ]
    else skipped

unfoldable pub get_sub_options : FormatOptions → Bytes → FormatOptions
unfolding sub_entries get_options
get_sub_options o prefix = elim (sub_entries (prefix ++ b'.' ∷ []) o empty) [
  | empty ↦ get_options o prefix empty
  | entry key value rest ↦ entry key value rest
]

-- std::map::merge: the entries whose keys are not there yet.
unfoldable pub merge : FormatOptions → FormatOptions → FormatOptions
unfolding has_option set_option
merge this empty = this
merge this (entry key value rest) =
    let more = merge (set_option key value this) rest in
    let same = merge this rest in if has_option this key then same else more
