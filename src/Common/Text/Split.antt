-- ===== src/Common/Text/Split.antt =====
-- Trim and Split of lib/common/format.cpp.
pub mod Pieces
pub mod Trimmed
use my_orm.Prelude.{
  ℕ, zero, suc, ◌+◌, ◌-◌, Bool, true, false, ◌||◌, ◌&&◌, Option, none, some, List, [], ◌∷◌, ◌++◌,
  Bytes, bytes_eq, length, take, drop, drop_last, ltb, ◌==◌, nat_eq, if◌then◌else◌,
}
use my_orm.Common.Text.{is_space}

-- The first loop of Trim, which moves `start`.
unfoldable pub skip_spaces : Bytes → Bytes
unfolding is_space
skip_spaces [] = []
skip_spaces (c ∷ s) = let rest = skip_spaces s in if is_space c then rest else c ∷ s

-- The second loop of Trim, on what is left, whose first byte it does not look at: what is kept of
-- the bytes behind it.
unfoldable pub keep_inner : Bytes → Bytes
unfolding is_space
keep_inner [] = []
keep_inner (c ∷ s) = elim (keep_inner s) [
  | [] ↦ if is_space c then [] else c ∷ []
  | d ∷ kept ↦ c ∷ d ∷ kept
]

unfoldable pub trim : Bytes → Bytes
unfolding skip_spaces keep_inner
trim s = elim (skip_spaces s) [ [] ↦ [] | c ∷ rest ↦ c ∷ keep_inner rest ]

unfoldable pub starts_with : (prefix s : Bytes) → Bool
starts_with [] s = true
starts_with (c ∷ prefix) [] = false
starts_with (c ∷ prefix) (d ∷ s) = c == d && starts_with prefix s

-- s.find(text), none for npos.
unfoldable pub find : (text s : Bytes) → Option ℕ
unfolding starts_with
find text [] = if starts_with text [] then some 0 else none
find text (c ∷ s) =
    let later = find text s in
    if starts_with text (c ∷ s)
    then some 0
    else elim later [ none ↦ none | some at ↦ some (suc at) ]

-- The loop of Split on what is left of the text from `pos` on: the pieces that it adds, none when
-- the fuel runs out.
unfoldable pub split_from :
    (fuel : ℕ) (delimiter : Bytes) (limit count : ℕ) (rest : Bytes) → Option (List Bytes)
unfolding find
split_from zero delimiter limit count rest = none
split_from (suc fuel) delimiter limit count [] = some []
split_from (suc fuel) delimiter limit count (c ∷ s) =
    let rest = c ∷ s in
    elim (find delimiter rest) [
      | none ↦ some (rest ∷ [])
      | some found ↦
          let later =
            split_from fuel delimiter limit (suc count) (drop (found + length delimiter) rest) in
          if ltb 0 limit && count == limit - 1
          then some (rest ∷ [])
          else elim later [ none ↦ none | some pieces ↦ some (take found rest ∷ pieces) ]
    ]

unfoldable pub split : (s delimiter : Bytes) (limit : ℕ) → Option (List Bytes)
unfolding split_from
split s delimiter limit = split_from (suc (length s)) delimiter limit 0 s
