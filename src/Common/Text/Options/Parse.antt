-- ===== src/Common/Text/Options/Parse.antt =====
-- FormatOptions::ParseFromString of lib/common/format.cpp. A position in the text is what is left
-- of the text from there on.
use my_orm.Prelude.{
  ℕ, zero, suc, Bool, true, false, not, ◌&&◌, ◌||◌, Option, none, some, [], ◌∷◌, Bytes, codes,
  bytes_eq, length, take, drop, ltb, ◌==◌, nat_eq, if◌then◌else◌,
}
use my_orm.Common.Text.Split.{trim, skip_spaces}
use my_orm.Common.Text.Options.{
  FormatValue, FormatOptions, bool, string, options, empty, set_option,
}

-- s.find(c), none for npos.
unfoldable pub index_of : ℕ → Bytes → Option ℕ
index_of c [] = none
index_of c (d ∷ s) =
    let later = index_of c s in
    if d == c then some 0 else elim later [ none ↦ none | some at ↦ some (suc at) ]

-- What is left behind the byte at an index, the end of the text when there is none.
unfoldable pub behind : Option ℕ → Bytes → Bytes
behind none s = []
behind (some at) s = drop (suc at) s

-- What stands before the byte at an index, all when there is none.
unfoldable pub before : Option ℕ → Bytes → Bytes
before none s = s
before (some at) s = take at s

-- The loop over nested braces at depth `suc depth`: the text up to the brace that closes them, and
-- what follows it, none when no brace does.
unfoldable pub nested : (depth : ℕ) → Bytes → Option (Bytes × Bytes)
nested depth [] = none
nested depth (c ∷ s) =
    let deeper = nested (suc depth) s in
    let same = nested depth s in
    let add = λ (r : Option (Bytes × Bytes)). elim r as (λ _. Option (Bytes × Bytes)) [
      | none ↦ none
      | some found ↦ some (c ∷ found.0, found.1)
    ] in
    if c == b'{'
    then add deeper
    else if c == b'}'
    then elim depth [ zero ↦ some ([], s) | suc d ↦ add (nested d s) ]
    else add same

-- What a symbol behind a backslash stands for.
unfoldable pub quoted_symbol : ℕ → ℕ
quoted_symbol c = if c == b'n' then b'\n' else if c == b'r' then b'\r' else c

-- The loop over a quoted value: the value, and what follows the closing quote.
unfoldable pub quoted : (escaped : Bool) → Bytes → Bytes × Bytes
unfolding quoted_symbol
quoted true [] = (b'\\' ∷ [], [])
quoted false [] = ([], [])
quoted true (c ∷ s) = let rest = quoted false s in (quoted_symbol c ∷ rest.0, rest.1)
quoted false (c ∷ s) =
    let rest = quoted false s in
    let escape = quoted true s in
    if c == b'\\' then escape else if c == b'\'' then ([], s) else (c ∷ rest.0, rest.1)

unfoldable pub skip_comma : Bytes → Bytes
skip_comma [] = []
skip_comma (c ∷ s) = if c == b',' then s else c ∷ s

-- The value of a plain entry.
unfoldable pub plain_value : (key value : Bytes) → FormatValue
plain_value key value =
    let convert = value == codes "true" || value == codes "false" in
    let keep = key == codes "true" || key == codes "false" in
    if convert && not keep then bool (value == codes "true") else string value

-- The entry behind `key =`: its value, and what is left. `parse` reads nested options.
unfoldable pub parse_value :
    (parse : Bytes → Option FormatOptions) (key s : Bytes) → Option (FormatValue × Bytes)
unfolding nested quoted skip_comma plain_value index_of before behind trim
parse_value parse key [] = some (plain_value key [], [])
parse_value parse key (c ∷ s) =
    let comma = index_of b',' (c ∷ s) in
    let text = trim (before comma (c ∷ s)) in
    if c == b'{'
    then elim (nested 0 s) [
      | none ↦ some (string text, behind comma (c ∷ s))
      | some found ↦ elim (parse found.0) [
        | none ↦ none
        | some o ↦ some (options o, skip_comma found.1)
      ]
    ]
    else if c == b'\''
    then (let read = quoted false s in some (string read.0, skip_comma read.1))
    else some (plain_value key text, behind comma (c ∷ s))

-- Whether an entry has no value: there is no `=`, or a comma before it.
unfoldable pub is_flag : (comma equals : Option ℕ) → Bool
is_flag comma none = true
is_flag none (some e) = false
is_flag (some c) (some e) = ltb c e

-- The loop of ParseFromString, none when the fuel runs out.
unfoldable pub parse_from : (fuel : ℕ) → Bytes → FormatOptions → Option FormatOptions
unfolding skip_spaces index_of is_flag trim before behind set_option parse_value
parse_from zero s o = none
parse_from (suc fuel) s o =
    let left = skip_spaces s in
    let comma = index_of b',' left in
    let equals = index_of b'=' left in
    let parse = λ (inner : Bytes). parse_from fuel inner empty in
    let flag = trim (before comma left) in
    let key = trim (before equals left) in
    let set_flag = if flag == [] then o else set_option flag (bool true) o in
    let value = parse_value parse key (skip_spaces (behind equals left)) in
    let after_flag = parse_from fuel (behind comma left) set_flag in
    elim left [
      | [] ↦ some o
      | c ∷ rest ↦ if is_flag comma equals then after_flag else elim value [
        | none ↦ none
        | some read ↦ parse_from fuel read.1 (set_option key read.0 o)
      ]
    ]

unfoldable pub parse_from_string : Bytes → Option FormatOptions
unfolding parse_from
parse_from_string s = parse_from (suc (length s)) s empty
