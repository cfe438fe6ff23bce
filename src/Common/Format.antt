-- ===== src/Common/Format.antt =====
-- Format of lib/common/format.h: the search for placeholders (format.cpp) and the two loops that
-- replace them. An argument is what its FormatHandler writes, given the options.
pub mod Handlers
pub mod Search
pub mod Contract
use my_orm.Prelude.{
  ℕ, zero, suc, ◌+◌, ◌-◌, ◌*◌, ◌%◌, ◌^◌, Bool, true, false, not, ◌&&◌, Option, none, some, List, [],
  ◌∷◌, ◌++◌, Bytes, bytes_eq, length, get_elem?, take, drop, ltb, leb, ◌==◌, nat_eq, if◌then◌else◌,
  Outcome, ok, err, ◌>>=◌,
}
use my_orm.Prelude.Map
use my_orm.Prelude.Map.{Map}
use my_orm.Common.Text.{unescape_symbols}
use my_orm.Common.Text.Options.{FormatOptions}
use my_orm.Common.Text.Options.Parse.{parse_from_string}

-- The exceptions of std::stoul, and the end of the fuel.
pub data Failure : Type 0 where
  invalid_argument out_of_range no_fuel : Failure

abbrev pub Argument : Type 0
Argument = FormatOptions → Bytes

-- FindNext on what is left of the text: how far away the byte is, none for npos.
unfoldable pub find_next : (c : ℕ) (in_quote : Bool) → Bytes → Option ℕ
find_next c in_quote [] = none
find_next c in_quote (d ∷ []) =
    if d == b'\'' then none else if d == c && not in_quote then some 0 else none
find_next c in_quote (d ∷ e ∷ s) =
    let escaped = find_next c in_quote s in
    let toggled = find_next c (not in_quote) (e ∷ s) in
    let later = find_next c in_quote (e ∷ s) in
    let further = λ (n : ℕ) (r : Option ℕ). elim r as (λ _. Option ℕ) [
      | none ↦ none
      | some at ↦ some (n + at)
    ] in
    if d == b'\\'
    then further 2 escaped
    else if d == b'\''
    then further 1 toggled
    else if d == c && not in_quote
    then some 0
    else further 1 later

-- FindNext(str, c, pos).
unfoldable pub find_next_from : (c : ℕ) (str : Bytes) (pos : ℕ) → Option ℕ
unfolding find_next
find_next_from c str pos = elim (find_next c false (drop pos str)) [
  | none ↦ none
  | some at ↦ some (pos + at)
]

unfoldable pub is_digit : ℕ → Bool
is_digit c = leb b'0' c && leb c b'9'

-- The `$` in front of the digits that end at an index, and none when something else is there.
unfoldable pub dollar_before : Bytes → ℕ → Option ℕ
unfolding is_digit
dollar_before str zero = none
dollar_before str (suc i) =
    let earlier = dollar_before str i in
    elim (get_elem? str i) [
      | none ↦ none
      | some c ↦ if is_digit c then earlier else if c == b'$' then some i else none
    ]

-- TPlaceholder, where a brace was found.
pub record Placeholder : Type 0 where
  pub begin_brace : ℕ
  pub end_brace : ℕ
  pub dollar : Option ℕ

-- The loop of FindPlaceHolder, from the brace `cur` and the closing brace `end` on.
unfoldable pub close_from :
    (fuel : ℕ) (str : Bytes) (begin cur : ℕ) (end : Option ℕ) → Outcome Failure (Option Placeholder)
unfolding find_next_from dollar_before
close_from zero str begin cur end = err Failure.no_fuel
close_from (suc fuel) str begin cur none = ok none
close_from (suc fuel) str begin cur (some end) =
    let found : Placeholder = record {
      begin_brace = begin;
      end_brace = end;
      dollar = dollar_before str begin;
    } in
    elim (find_next_from b'{' str (suc cur)) [
      | none ↦ ok (some found)
      | some next ↦
          let later = close_from fuel str begin next (find_next_from b'}' str (suc end)) in
          if ltb end next then ok (some found) else later
    ]

unfoldable pub find_place_holder : (str : Bytes) (pos : ℕ) → Outcome Failure (Option Placeholder)
unfolding find_next_from close_from
find_place_holder str pos = elim (find_next_from b'{' str pos) [
  | none ↦ ok none
  | some begin ↦ close_from (suc (length str)) str begin begin (find_next_from b'}' str begin)
]

-- The loop of HasIndexedPlaceholders.
unfoldable pub has_indexed_from : (fuel : ℕ) (str : Bytes) (pos : ℕ) → Outcome Failure Bool
unfolding find_place_holder
has_indexed_from zero str pos = err Failure.no_fuel
has_indexed_from (suc fuel) str pos = find_place_holder str pos >>= λ found. elim found [
  | none ↦ ok false
  | some p ↦
      let later = has_indexed_from fuel str (suc p.end_brace) in
      elim p.dollar [
        | none ↦ if ltb (suc p.end_brace) (length str) then later else ok false
        | some d ↦ ok true
      ]
]

unfoldable pub has_indexed_placeholders : Bytes → Outcome Failure Bool
unfolding has_indexed_from
has_indexed_placeholders [] = ok false
has_indexed_placeholders (c ∷ s) = has_indexed_from (suc (suc (length s))) (c ∷ s) 0

-- What stands between the braces.
unfoldable pub modifiers : Bytes → Placeholder → Bytes
modifiers str p = take (p.end_brace - suc p.begin_brace) (drop (suc p.begin_brace) str)

-- What the handler of an argument writes, with the options that the modifiers say.
unfoldable pub handle : Argument → Bytes → Outcome Failure Bytes
unfolding parse_from_string
handle argument text = elim (parse_from_string text) [
  | none ↦ err Failure.no_fuel
  | some o ↦ ok (argument o)
]

-- The loop of FormatWithTupleSequential from `pos` on: what it writes.
unfoldable pub sequential_from :
    (fuel : ℕ) (str : Bytes) (args : List Argument) (arg_index pos : ℕ) → Outcome Failure Bytes
unfolding find_place_holder unescape_symbols modifiers handle
sequential_from zero str args arg_index pos = err Failure.no_fuel
sequential_from (suc fuel) str args arg_index pos = find_place_holder str pos >>= λ found.
    elim found [
      | none ↦ ok (unescape_symbols (drop pos str))
      | some p ↦
          let later = sequential_from fuel str args (suc arg_index) (suc p.end_brace) in
          let text = unescape_symbols (take (p.begin_brace - pos) (drop pos str)) in
          let written : Outcome Failure Bytes = elim (get_elem? args arg_index) [
            | none ↦ ok (b'{' ∷ modifiers str p ++ b'}' ∷ [])
            | some argument ↦ handle argument (modifiers str p)
          ] in
          let rest = if ltb (suc p.end_brace) (length str) then later else ok [] in
          written >>= λ w. rest >>= λ r. ok (text ++ (w ++ r))
    ]

unfoldable pub format_sequential : Bytes → List Argument → Outcome Failure Bytes
unfolding sequential_from
format_sequential [] args = ok []
format_sequential (c ∷ s) args = sequential_from (suc (suc (length s))) (c ∷ s) args 0 0

-- std::stoul of the digits behind a `$`.
unfoldable pub read_digits : (value : ℕ) → Bytes → ℕ
read_digits value [] = value
read_digits value (c ∷ s) = read_digits (value * 10 + (c - b'0')) s

unfoldable pub read_index : Bytes → Outcome Failure ℕ
unfolding read_digits
read_index [] = err Failure.invalid_argument
read_index (c ∷ s) =
    let value = read_digits 0 (c ∷ s) in
    if ltb value (2 ^ 64) then ok value else err Failure.out_of_range

-- The index of the argument that a placeholder names, less one in size_t, and the next index to
-- give to a placeholder without one.
unfoldable pub argument_index : Bytes → Placeholder → (next : ℕ) → Outcome Failure (ℕ × ℕ)
unfolding read_index
argument_index str p next = elim p.dollar [
  | none ↦ ok (next, suc next)
  | some d ↦ read_index (take (p.begin_brace - suc d) (drop (suc d) str)) >>= λ value.
      ok ((value + 2 ^ 64 - 1) % 2 ^ 64, next)
]

-- What a placeholder is replaced with: what is in the cache under the index and the modifiers, else
-- what the argument's handler writes, nothing when there is no such argument.
unfoldable pub replacement :
    (args : List Argument) (index : ℕ) (text : Bytes) (cache : Map Bytes Bytes)
    → Outcome Failure (Bytes × Map Bytes Bytes)
unfolding handle
replacement args index text cache =
    let fresh : Outcome Failure Bytes = elim (get_elem? args index) [
      | none ↦ handle (λ o. []) text
      | some argument ↦ handle argument text
    ] in
    elim (Map.lookup (index ∷ text) cache) [
      | none ↦ fresh >>= λ w. ok (w, Map.insert (index ∷ text) w cache)
      | some w ↦ ok (w, cache)
    ]

-- The loop of FormatWithTuple from `pos` on.
unfoldable pub indexed_from :
    (fuel : ℕ) (str : Bytes) (args : List Argument) (next pos : ℕ) (cache : Map Bytes Bytes)
    → Outcome Failure Bytes
unfolding find_place_holder unescape_symbols modifiers argument_index replacement
indexed_from zero str args next pos cache = err Failure.no_fuel
indexed_from (suc fuel) str args next pos cache = find_place_holder str pos >>= λ found.
    elim found [
      | none ↦ ok (unescape_symbols (drop pos str))
      | some p ↦
          let stop : ℕ = elim p.dollar [ none ↦ p.begin_brace | some d ↦ d ] in
          let text = unescape_symbols (take (stop - pos) (drop pos str)) in
          argument_index str p next >>= λ index.
          replacement args index.0 (modifiers str p) cache >>= λ written.
          indexed_from fuel str args index.1 (suc p.end_brace) written.1 >>= λ rest.
          ok (text ++ (written.0 ++ rest))
    ]

unfoldable pub format_indexed : Bytes → List Argument → Outcome Failure Bytes
unfolding indexed_from
format_indexed str args = indexed_from (suc (suc (length str))) str args 0 0 []

unfoldable pub format : Bytes → List Argument → Outcome Failure Bytes
unfolding has_indexed_placeholders format_sequential format_indexed
format str args = has_indexed_placeholders str >>= λ indexed.
    if indexed then format_indexed str args else format_sequential str args
