-- ===== src/Requests/Strings/Replaced.antt =====
-- About replace and SplitPart of plain strings (lib/requests/query.cpp).
use my_orm.Prelude.{
  ℕ, zero, suc, ◌+◌, ◌<◌, ◌≡◌, refl, ap, sym, ◌∙◌, none, some, List, [], ◌∷◌, ◌++◌, Bytes, length,
  take, drop, get_elem?, All, arith, Option-cases, inl, inr,
}
use my_orm.Common.Text.Split.{find}
use my_orm.Common.Text.Split.Pieces.{join, Lacks, find-append, find-take}
use my_orm.Rpc.Http.Text.Pieces.{shorter}
use my_orm.Requests.Strings.{replace_from, replace_text, parts_from, split_part_text}

-- The parts of a text between the places where another stands: they lack it, with it between them they
-- are the text, and the text is replaced by putting something else between them.
abbrev pub ArePartsOf : (text source : Bytes) → List Bytes → Type 0
ArePartsOf text source parts =
    All (Lacks text) parts
    × (join text parts ≡ source)
    × ((idx : ℕ)
        → split_part_text source text idx
          ≡ elim (get_elem? parts idx) [ none ↦ some [] | some part ↦ some part ])
    × ((replacement : Bytes) → replace_text source text replacement ≡ some (join replacement parts))

module _ (d : ℕ) (text : Bytes) where
  from-parts :
      (fuel : ℕ) (rest : Bytes)
      → length rest < fuel
      → (part : Bytes) × (parts : List Bytes) × (parts_from fuel (d ∷ text) rest
          ≡ some (part ∷ parts))
        × All (Lacks (d ∷ text)) (part ∷ parts)
        × (join (d ∷ text) (part ∷ parts) ≡ rest)
        × ((replacement : Bytes)
            → replace_from fuel (d ∷ text) replacement rest
              ≡ some (join replacement (part ∷ parts)))
  unfolding parts_from replace_from join
  from-parts zero rest h = absurd (omega arith)
  from-parts (suc fuel) rest h = elim (Option-cases (find (d ∷ text) rest)) [
    | inl missing ↦
        (rest, [], ground (arith, missing), (missing, tt), refl, λ r. ground (arith, missing))
    | inr (found, stands) ↦
        let next = found + length (d ∷ text) in
        let less = shorter d text rest found next stands (omega arith) in
        let (part, parts, made, lacking, whole, replaced) =
          from-parts fuel (drop next rest) (omega arith) in
        (
          take found rest,
          part ∷ parts,
          ground (arith, stands, made),
          (find-take (d ∷ text) rest found (omega arith) stands, lacking),
          ap (λ l. take found rest ++ ((d ∷ text) ++ l)) whole
              ∙ sym (find-append (d ∷ text) rest found next stands refl),
          λ r. ground (arith, stands, replaced r),
        )
  ]

-- Replace and SplitPart of a text that is not empty end, and take the same parts: replace puts the
-- replacement between them, and SplitPart gives the one with the index, counted from 0, or the empty
-- text.
pub replace_parts :
    (source : Bytes) (d : ℕ) (text : Bytes)
    → (parts : List Bytes) × ArePartsOf (d ∷ text) source parts
unfolding replace_text split_part_text
replace_parts source d text =
    let (part, parts, made, lacking, whole, replaced) =
      from-parts d text (suc (length source)) source (omega arith) in
    (part ∷ parts, (lacking, whole, (λ idx. ground (arith, made)), replaced))

-- With the empty text there is always one more place: the loop never ends.
pub replace_endless :
    (fuel : ℕ) (replacement rest : Bytes) → replace_from fuel [] replacement rest ≡ none
unfolding replace_from find
replace_endless zero replacement rest = refl
replace_endless (suc fuel) replacement [] =
    let later = replace_endless fuel replacement [] in ground (arith, later)
replace_endless (suc fuel) replacement (c ∷ s) =
    let later = replace_endless fuel replacement (c ∷ s) in ground (arith, later)
