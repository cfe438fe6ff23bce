-- ===== src/Rpc/Http/Text/Pieces.antt =====
-- The pieces that Split of lib/rpc/http_server.cpp makes.
use my_orm.Prelude.{
  ℕ, zero, suc, ◌+◌, ◌<◌, ◌≡◌, inl, inr, refl, ap, sym, ◌∙◌, ◌&&◌, some, List, [], ◌∷◌, ◌++◌, Bytes,
  length, take, drop, ltb, leb, nat_eq, arith, Bool-cases, Option-cases, All,
}
use mathlib.Core.Path.{subst}
use my_orm.Common.Text.Split.{find}
use my_orm.Common.Text.Split.Pieces.{Lacks, find-take, find-append, join, length-drop_cons}
use my_orm.Rpc.Http.Text.{pieces_from, pieces_of}

join-cons :
    (delimiter piece next : Bytes) (pieces : List Bytes)
    → join delimiter (piece ∷ next ∷ pieces)
      ≡ piece ++ (delimiter ++ join delimiter (next ∷ pieces))
unfolding join
join-cons delimiter piece next pieces = refl

-- A text in which something is found is not empty.
find-nonempty :
    (d : ℕ) (delimiter s : Bytes) (at : ℕ)
    → find (d ∷ delimiter) s ≡ some at
    → (c : ℕ) × (rest : Bytes) × (s ≡ c ∷ rest)
unfolding find
find-nonempty d delimiter [] at h = cc
find-nonempty d delimiter (c ∷ rest) at h = (c, rest, refl)

pub shorter :
    (d : ℕ) (delimiter s : Bytes) (at n : ℕ)
    → find (d ∷ delimiter) s ≡ some at
    → 0 < n
    → length (drop n s) < length s
shorter d delimiter s at n h positive =
    let (c, rest, e) = find-nonempty d delimiter s at h in
    ground (arith, e, length-drop_cons n c rest positive)

module _ (d : ℕ) (delimiter : Bytes) (limit : ℕ) where
  pieces_from-join :
      (fuel count : ℕ) (s : Bytes)
      → length s < fuel
      → (piece : Bytes) × (pieces : List Bytes) × (pieces_from fuel (d ∷ delimiter) limit count s
          ≡ some (piece ∷ pieces))
        × (join (d ∷ delimiter) (piece ∷ pieces) ≡ s)
  unfolding pieces_from join
  pieces_from-join zero count s h = absurd (omega arith)
  pieces_from-join (suc fuel) count s h = elim (Option-cases (find (d ∷ delimiter) s)) [
    | inl missing ↦ (s, [], ground (arith, missing), refl)
    | inr (found, stands) ↦
        let next = found + length (d ∷ delimiter) in
        let less = shorter d delimiter s found next stands (omega arith) in
        let (piece, pieces, rec, whole) =
          pieces_from-join fuel (suc count) (drop next s) (omega arith) in
        elim (Bool-cases (ltb 0 limit && leb limit (count + 1))) [
          | inl last ↦ (s, [], ground (arith, stands, last), refl)
          | inr more ↦ (
            take found s,
            piece ∷ pieces,
            ground (arith, stands, more, rec),
            ap (λ l. take found s ++ ((d ∷ delimiter) ++ l)) whole
                ∙ sym (find-append (d ∷ delimiter) s found next stands refl),
          )
        ]
  ]

-- Split ends, makes at least one piece, and the pieces with the delimiter between them are the text.
pub pieces_of-join :
    (s delimiter : Bytes) (limit : ℕ)
    → (piece : Bytes) × (pieces : List Bytes) × (pieces_of s delimiter limit
        ≡ some (piece ∷ pieces))
      × (join delimiter (piece ∷ pieces) ≡ s)
unfolding pieces_of join
pieces_of-join s [] limit = (s, [], refl, refl)
pieces_of-join s (d ∷ delimiter) limit =
    let (piece, pieces, rec, whole) =
      pieces_from-join d delimiter limit (suc (length s)) 0 s (omega arith) in
    (piece, pieces, ground (arith, rec), whole)

pieces_from-Lacks :
    (fuel d : ℕ) (delimiter : Bytes) (count : ℕ) (s : Bytes) (pieces : List Bytes)
    → pieces_from fuel (d ∷ delimiter) 0 count s ≡ some pieces
    → All (Lacks (d ∷ delimiter)) pieces
unfolding pieces_from
pieces_from-Lacks zero d delimiter count s pieces h = cc
pieces_from-Lacks (suc fuel) d delimiter count s pieces h =
    elim (Option-cases (find (d ∷ delimiter) s)) [
      | inl missing ↦
          let whole : s ∷ [] ≡ pieces = ground (arith, missing, h) in
          subst (All (Lacks (d ∷ delimiter))) whole (missing, tt)
      | inr (found, stands) ↦
          let rest = drop (found + length (d ∷ delimiter)) s in
          elim (Option-cases (pieces_from fuel (d ∷ delimiter) 0 (suc count) rest)) [
            | inl none_made ↦ absurd (ground (arith, stands, none_made, h))
            | inr (later, made) ↦
                let whole : take found s ∷ later ≡ pieces = ground (arith, stands, made, h) in
                subst (All (Lacks (d ∷ delimiter))) whole (
                  find-take (d ∷ delimiter) s found (omega arith) stands,
                  pieces_from-Lacks fuel d delimiter (suc count) rest later made,
                )
          ]
    ]

-- The pieces of a text, between which the delimiter stands, and in which it does not.
abbrev pub IsSplit : (delimiter s : Bytes) → List Bytes → Type 0
IsSplit delimiter s pieces =
    (pieces_of s delimiter 0 ≡ some pieces)
    × (join delimiter pieces ≡ s)
    × All (Lacks delimiter) pieces

-- Split without a limit ends.
pub pieces_of-IsSplit :
    (d : ℕ) (delimiter s : Bytes)
    → (piece : Bytes) × (pieces : List Bytes) × IsSplit (d ∷ delimiter) s (piece ∷ pieces)
unfolding pieces_of
pieces_of-IsSplit d delimiter s =
    let (piece, pieces, made, whole) = pieces_of-join s (d ∷ delimiter) 0 in
    (
      piece,
      pieces,
      (
        made,
        whole,
        pieces_from-Lacks (suc (length s)) d delimiter 0 s (piece ∷ pieces) (ground (arith, made)),
      ),
    )
