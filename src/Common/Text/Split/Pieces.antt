-- ===== src/Common/Text/Split/Pieces.antt =====
-- The pieces that Split of lib/common/format.cpp makes.
use my_orm.Prelude.{
  ℕ, zero, suc, ◌+◌, ◌-◌, ◌≤◌, ◌<◌, ◌≡◌, ◌⊎◌, inl, inr, refl, ap, sym, ◌∙◌, true, false, ◌&&◌, none,
  some, List, [], ◌∷◌, ◌++◌, Bytes, bytes_eq, length, take, drop, ltb, ◌==◌, nat_eq, append_assoc,
  append-nil, arith, Bool-cases, Option-cases, All,
}
use my_orm.Common.Text.Split.{starts_with, find, split_from, split}

starts_with-append :
    (prefix s : Bytes) → starts_with prefix s ≡ true → s ≡ prefix ++ drop (length prefix) s
unfolding starts_with
starts_with-append [] s h = refl
starts_with-append (c ∷ prefix) [] h = cc
starts_with-append (c ∷ prefix) (d ∷ s) h =
    let later = starts_with-append prefix s in ground (arith, h, later)

-- Where a text is found it stands.
pub find-append :
    (text s : Bytes) (at n : ℕ)
    → find text s ≡ some at
    → n ≡ at + length text
    → s ≡ take at s ++ (text ++ drop n s)
unfolding find starts_with
find-append [] [] zero n h e =
    let none_read : 0 ≡ n = omega arith in ap (λ k. drop {A = ℕ} k []) none_read
find-append [] [] (suc at) n h e = cc
find-append (t ∷ text) [] at n h e = cc
find-append text (c ∷ s) zero n h e =
    let stands : starts_with text (c ∷ s) ≡ true = ground arith in
    starts_with-append text (c ∷ s) stands ∙ ap (λ k. text ++ drop k (c ∷ s)) (omega arith)
find-append text (c ∷ s) (suc at) zero h e = absurd (omega arith)
find-append text (c ∷ s) (suc at) (suc n) h e =
    let later : find text s ≡ some at = ground arith in
    ap (λ (l : Bytes). c ∷ l) (find-append text s at n later (omega arith))

-- The pieces with the delimiter between them.
unfoldable pub join : (delimiter : Bytes) → List Bytes → Bytes
join delimiter [] = []
join delimiter (piece ∷ []) = piece
join delimiter (piece ∷ next ∷ pieces) = piece ++ (delimiter ++ join delimiter (next ∷ pieces))

-- Pieces of a text: with the delimiter between them they are the text, but for a delimiter at its
-- end, and there are none only for the empty text.
abbrev Makes : (delimiter rest : Bytes) → List Bytes → Type 0
Makes delimiter [] pieces = pieces ≡ []
Makes delimiter (c ∷ s) [] = ⊥
Makes delimiter (c ∷ s) (piece ∷ pieces) =
    (join delimiter (piece ∷ pieces) ≡ c ∷ s)
    ⊎ (join delimiter (piece ∷ pieces) ++ delimiter ≡ c ∷ s)

Makes-cons :
    (delimiter taken behind : Bytes) (c : ℕ) (s : Bytes) (pieces : List Bytes)
    → c ∷ s ≡ taken ++ (delimiter ++ behind)
    → Makes delimiter behind pieces
    → Makes delimiter (c ∷ s) (taken ∷ pieces)
unfolding join
Makes-cons delimiter taken [] c s [] e made =
    inr (sym (e ∙ ap (λ l. taken ++ l) (append-nil delimiter)))
Makes-cons delimiter taken [] c s (p ∷ pieces) e made = cc
Makes-cons delimiter taken (b ∷ behind) c s [] e made = absurd made
Makes-cons delimiter taken (b ∷ behind) c s (p ∷ pieces) e made = elim made [
  | inl same ↦ inl (ap (λ l. taken ++ (delimiter ++ l)) same ∙ sym e)
  | inr short ↦ inr (
      append_assoc taken (delimiter ++ join delimiter (p ∷ pieces)) delimiter
      ∙ ap (λ l. taken ++ l) (append_assoc delimiter (join delimiter (p ∷ pieces)) delimiter)
      ∙ ap (λ l. taken ++ (delimiter ++ l)) short
      ∙ sym e)
]

pub length-drop : (n : ℕ) (s : Bytes) → length (drop n s) ≤ length s
length-drop zero s = omega arith
length-drop (suc n) [] = omega arith
length-drop (suc n) (x ∷ s) = omega (arith, length-drop n s)

pub length-drop_cons : (n c : ℕ) (s : Bytes) → 0 < n → length (drop n (c ∷ s)) ≤ length s
length-drop_cons zero c s h = absurd (omega arith)
length-drop_cons (suc n) c s h = length-drop n s

starts_with-take :
    (text s : Bytes) (n : ℕ) → starts_with text (take n s) ≡ true → starts_with text s ≡ true
unfolding starts_with
starts_with-take [] s n h = refl
starts_with-take (t ∷ text) s zero h = cc
starts_with-take (t ∷ text) [] (suc n) h = cc
starts_with-take (t ∷ text) (c ∷ s) (suc n) h =
    let later = starts_with-take text s n in ground (arith, h, later)

-- A text does not stand in what comes before the place where it is found.
pub find-take :
    (text s : Bytes) (at : ℕ)
    → 0 < length text
    → find text s ≡ some at
    → find text (take at s) ≡ none
unfolding find starts_with
find-take [] s at full h = absurd (omega arith)
find-take (t ∷ text) s zero full h = refl
find-take (t ∷ text) [] (suc at) full h = cc
find-take (t ∷ text) (c ∷ s) (suc at) full h =
    let later : find (t ∷ text) s ≡ some at = ground arith in
    let before = find-take (t ∷ text) s at full later in
    let prefix = starts_with-take (t ∷ text) (c ∷ s) (suc at) in ground (arith, prefix, before, h)

abbrev pub Lacks : (delimiter piece : Bytes) → Type 0
Lacks delimiter piece = find delimiter piece ≡ none

module _ (delimiter : Bytes) (limit : ℕ) (full : 0 < length delimiter) where
  room :
      (count : ℕ) (pieces : List Bytes)
      → (ltb 0 limit && count == limit - 1) ≡ false
      → (suc count < limit → length pieces + suc count ≤ limit)
      → count < limit
      → suc (length pieces) + count ≤ limit
  room count pieces more counted h = ground (arith, more, counted)

  split_from_pieces :
      (fuel count : ℕ) (rest : Bytes)
      → length rest < fuel
      → (pieces : List Bytes) × (split_from fuel delimiter limit count rest ≡ some pieces)
        × Makes delimiter rest pieces
        × (count < limit → length pieces + count ≤ limit)
        × (limit ≡ 0 → All (Lacks delimiter) pieces)
  unfolding split_from join
  split_from_pieces zero count rest h = absurd (omega arith)
  split_from_pieces (suc fuel) count [] h = ([], refl, refl, (λ e. omega arith), λ e. tt)
  split_from_pieces (suc fuel) count (c ∷ s) h = elim (Option-cases (find delimiter (c ∷ s))) [
    | inl missing ↦
        ((c ∷ s) ∷ [], ground (arith, missing), inl refl, (λ e. omega arith), λ e. (missing, tt))
    | inr (found, stands) ↦
        let next = found + length delimiter in
        let less = length-drop_cons next c s (omega arith) in
        let (pieces, rec, made, counted, lacking) =
          split_from_pieces fuel (suc count) (drop next (c ∷ s)) (omega arith) in
        let whole =
          Makes-cons delimiter (take found (c ∷ s)) (drop next (c ∷ s)) c s pieces
            (find-append delimiter (c ∷ s) found next stands refl) made in
        elim (Bool-cases (ltb 0 limit && count == limit - 1)) [
          | inl last ↦ (
            (c ∷ s) ∷ [],
            ground (arith, stands, last),
            inl refl,
            (λ e. omega arith),
            λ e. absurd (ground (arith, last, e)),
          )
          | inr more ↦ (
            take found (c ∷ s) ∷ pieces,
            ground (arith, stands, more, rec),
            whole,
            (λ e. room count pieces more counted e),
            λ e. (find-take delimiter (c ∷ s) found full stands, lacking e),
          )
        ]
  ]

joined :
    (delimiter s : Bytes) (pieces : List Bytes)
    → Makes delimiter s pieces
    → (join delimiter pieces ≡ s) ⊎ (join delimiter pieces ++ delimiter ≡ s)
unfolding join
joined delimiter [] [] made = inl refl
joined delimiter [] (p ∷ pieces) made = cc
joined delimiter (c ∷ s) [] made = absurd made
joined delimiter (c ∷ s) (p ∷ pieces) made = made

-- Split at a delimiter that is not empty ends. The pieces with the delimiter between them are the
-- text, but for one delimiter at its end; a limit other than 0 bounds their number, and without a
-- limit the delimiter stands in none of them.
pub split_pieces :
    (s delimiter : Bytes) (limit : ℕ)
    → 0 < length delimiter
    → (pieces : List Bytes) × (split s delimiter limit ≡ some pieces)
      × ((join delimiter pieces ≡ s) ⊎ (join delimiter pieces ++ delimiter ≡ s))
      × (0 < limit → length pieces ≤ limit)
      × (limit ≡ 0 → All (Lacks delimiter) pieces)
unfolding split
split_pieces s delimiter limit full =
    let (pieces, rec, made, counted, lacking) =
      split_from_pieces delimiter limit full (suc (length s)) 0 s (omega arith) in
    (pieces, rec, joined delimiter s pieces made, (λ e. omega (arith, counted e)), lacking)

-- Split at the empty delimiter without a limit goes on for ever on a text that is not empty: no
-- number of rounds is enough.
pub split_from_endless : (fuel count c : ℕ) (s : Bytes) → split_from fuel [] 0 count (c ∷ s) ≡ none
unfolding split_from
split_from_endless zero count c s = refl
split_from_endless (suc fuel) count c s =
    let later = split_from_endless fuel (suc count) c s in ground (arith, later)
