-- ===== src/Requests/Strings.antt =====
-- The functions of lib/requests/query.cpp on plain strings, which have the names of the clauses'.
pub mod Replaced
use my_orm.Prelude.{
  ℕ, zero, suc, ◌+◌, ◌-◌, Bool, true, false, not, ◌||◌, ◌&&◌, Option, none, some, List, [], ◌∷◌,
  ◌++◌, Bytes, length, take, drop, get_elem?, ltb, leb, ◌==◌, nat_eq, if◌then◌else◌,
}
use my_orm.Common.Text.Split.{find, skip_spaces}
use my_orm.Common.Text.{is_space}

-- std::tolower and std::toupper in the "C" locale.
unfoldable pub to_lower : ℕ → ℕ
to_lower c = if leb b'A' c && leb c b'Z' then c + 32 else c

unfoldable pub to_upper : ℕ → ℕ
to_upper c = if leb b'a' c && leb c b'z' then c - 32 else c

unfoldable pub lower_text : Bytes → Bytes
unfolding to_lower
lower_text [] = []
lower_text (c ∷ s) = to_lower c ∷ lower_text s

unfoldable pub upper_text : Bytes → Bytes
unfolding to_upper
upper_text [] = []
upper_text (c ∷ s) = to_upper c ∷ upper_text s

-- string.substr(start, n), which throws for a start behind the end.
unfoldable pub substr_text : Bytes → (start n : ℕ) → Option Bytes
substr_text s start n = if leb start (length s) then some (take n (drop start s)) else none

unfoldable pub len_text : Bytes → ℕ
len_text s = length s

-- The loop of replace on what is left of the source from `pos` on, none when the fuel runs out.
unfoldable pub replace_from : (fuel : ℕ) (text replacement rest : Bytes) → Option Bytes
unfolding find
replace_from zero text replacement rest = none
replace_from (suc fuel) text replacement rest = elim (find text rest) [
  | none ↦ some rest
  | some found ↦
      let later = replace_from fuel text replacement (drop (found + length text) rest) in
      elim later [ none ↦ none | some end ↦ some (take found rest ++ (replacement ++ end)) ]
]

unfoldable pub replace_text : (source text replacement : Bytes) → Option Bytes
unfolding replace_from
replace_text source text replacement = replace_from (suc (length source)) text replacement source

-- The second erase of Trim, of the spaces at the end.
unfoldable pub drop_spaces : Bytes → Bytes
unfolding is_space
drop_spaces [] = []
drop_spaces (c ∷ s) = elim (drop_spaces s) [
  | [] ↦ if is_space c then [] else c ∷ []
  | d ∷ kept ↦ c ∷ d ∷ kept
]

unfoldable pub trim_text : Bytes → Bytes
unfolding skip_spaces drop_spaces
trim_text s = drop_spaces (skip_spaces s)

unfoldable pub left_text : Bytes → ℕ → Bytes
left_text s n = take n s

unfoldable pub right_text : Bytes → ℕ → Bytes
right_text s n = if leb (length s) n then s else drop (length s - n) s

-- Pos, none for npos.
unfoldable pub pos_text : (text s : Bytes) → Option ℕ
unfolding find
pos_text text s = find text s

-- The loop of SplitPart on what is left of the text from `start` on, none when the fuel runs out.
unfoldable pub parts_from : (fuel : ℕ) (delim rest : Bytes) → Option (List Bytes)
unfolding find
parts_from zero delim rest = none
parts_from (suc fuel) delim rest = elim (find delim rest) [
  | none ↦ some (rest ∷ [])
  | some found ↦
      let later = parts_from fuel delim (drop (found + length delim) rest) in
      elim later [ none ↦ none | some parts ↦ some (take found rest ∷ parts) ]
]

unfoldable pub split_part_text : (s delim : Bytes) (idx : ℕ) → Option Bytes
unfolding parts_from
split_part_text s delim idx = elim (parts_from (suc (length s)) delim s) [
  | none ↦ none
  | some parts ↦ elim (get_elem? parts idx) [ none ↦ some [] | some part ↦ some part ]
]
