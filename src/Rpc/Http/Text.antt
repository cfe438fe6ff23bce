-- ===== src/Rpc/Http/Text.antt =====
-- Split, Trim and the reading of lines in lib/rpc/http_server.cpp.
pub mod Pieces
use my_orm.Prelude.{
  ℕ, zero, suc, ◌+◌, Bool, true, false, ◌||◌, ◌&&◌, Option, none, some, List, [], ◌∷◌, Bytes,
  length, take, drop, ltb, leb, ◌==◌, nat_eq, if◌then◌else◌,
}
use my_orm.Common.Text.Split.{find}

-- The loop of Split on what is left of the text, none when the fuel runs out. `count` is the number
-- of pieces so far.
unfoldable pub pieces_from :
    (fuel : ℕ) (delimiter : Bytes) (limit count : ℕ) (rest : Bytes) → Option (List Bytes)
unfolding find
pieces_from zero delimiter limit count rest = none
pieces_from (suc fuel) delimiter limit count rest = elim (find delimiter rest) [
  | none ↦ some (rest ∷ [])
  | some found ↦
      let later =
        pieces_from fuel delimiter limit (suc count) (drop (found + length delimiter) rest) in
      if ltb 0 limit && leb limit (count + 1)
      then some (rest ∷ [])
      else elim later [ none ↦ none | some pieces ↦ some (take found rest ∷ pieces) ]
]

unfoldable pub pieces_of : (s delimiter : Bytes) (limit : ℕ) → Option (List Bytes)
unfolding pieces_from
pieces_of s delimiter limit =
    if length delimiter == 0
    then some (s ∷ [])
    else pieces_from (suc (length s)) delimiter limit 0 s

-- The bytes that Trim takes off.
unfoldable pub is_white : ℕ → Bool
is_white c = c == b' ' || c == b'\t' || c == b'\r' || c == b'\n'

-- From find_first_not_of on.
unfoldable pub skip_white : Bytes → Bytes
unfolding is_white
skip_white [] = []
skip_white (c ∷ s) = let rest = skip_white s in if is_white c then rest else c ∷ s

-- Up to find_last_not_of.
unfoldable pub drop_white : Bytes → Bytes
unfolding is_white
drop_white [] = []
drop_white (c ∷ s) = elim (drop_white s) [
  | [] ↦ if is_white c then [] else c ∷ []
  | d ∷ kept ↦ c ∷ d ∷ kept
]

unfoldable pub trim_white : Bytes → Bytes
unfolding skip_white drop_white
trim_white s = drop_white (skip_white s)

-- What std::getline takes out of a stream: the bytes before the next line feed, and the bytes behind
-- it.
unfoldable pub line_of : Bytes → Bytes × Bytes
line_of [] = ([], [])
line_of (c ∷ s) = let later = line_of s in if c == b'\n' then ([], s) else (c ∷ later.0, later.1)
