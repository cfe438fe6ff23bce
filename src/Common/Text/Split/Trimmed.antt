-- ===== src/Common/Text/Split/Trimmed.antt =====
-- What Trim of lib/common/format.cpp takes off.
use my_orm.Prelude.{
  ℕ, ◌≡◌, ◌⊎◌, inl, inr, refl, true, false, List, [], ◌∷◌, ◌++◌, Bytes, All, arith, Bool-cases,
}
use my_orm.Common.Text.{is_space}
use my_orm.Common.Text.Split.{skip_spaces, keep_inner, trim}

abbrev pub IsSpace : ℕ → Type 0
IsSpace c = is_space c ≡ true

-- A text that does not start, and one that does not end, with a space.
abbrev pub StartsPlain : Bytes → Type 0
StartsPlain [] = Unit
StartsPlain (c ∷ s) = is_space c ≡ false

abbrev pub EndsPlain : Bytes → Type 0
EndsPlain [] = Unit
EndsPlain (c ∷ []) = is_space c ≡ false
EndsPlain (c ∷ d ∷ s) = EndsPlain (d ∷ s)

skip_spaces-split :
    (s : Bytes)
    → (before : Bytes) × (s ≡ before ++ skip_spaces s)
      × All IsSpace before
      × StartsPlain (skip_spaces s)
unfolding skip_spaces
skip_spaces-split [] = ([], refl, tt, tt)
skip_spaces-split (c ∷ s) =
    let (before, e, spaces, plain) = skip_spaces-split s in
    elim (Bool-cases (is_space c)) [
      | inl h ↦ (c ∷ before, ground (arith, h, e), (h, spaces), ground (arith, h, plain))
      | inr h ↦ ([], ground (arith, h), tt, ground (arith, h))
    ]

pub List-cases {ℓ} :
    {A : Type ℓ} (xs : List A) → (xs ≡ []) ⊎ ((x : A) × (rest : List A) × (xs ≡ x ∷ rest))
List-cases [] = inl refl
List-cases (x ∷ rest) = inr (x, rest, refl)

keep_inner-split :
    (s : Bytes)
    → (after : Bytes) × (s ≡ keep_inner s ++ after) × All IsSpace after × EndsPlain (keep_inner s)
unfolding keep_inner
keep_inner-split [] = ([], refl, tt, tt)
keep_inner-split (c ∷ s) =
    let (after, e, spaces, plain) = keep_inner-split s in
    elim (List-cases (keep_inner s)) [
      | inl none_kept ↦ elim (Bool-cases (is_space c)) [
        | inl h ↦
            (c ∷ after, ground (arith, h, e, none_kept), (h, spaces), ground (arith, h, none_kept))
        | inr h ↦ (after, ground (arith, h, e, none_kept), spaces, ground (arith, h, none_kept))
      ]
      | inr (d, kept, some_kept) ↦
          (after, ground (arith, e, some_kept), spaces, ground (arith, plain, some_kept))
    ]

EndsPlain-cons : (c : ℕ) (kept : Bytes) → is_space c ≡ false → EndsPlain kept → EndsPlain (c ∷ kept)
EndsPlain-cons c [] h plain = h
EndsPlain-cons c (d ∷ kept) h plain = plain

-- Trim takes off spaces at both ends, and leaves none at either.
pub trim-split :
    (s : Bytes)
    → (before : Bytes) × (after : Bytes) × (s ≡ before ++ (trim s ++ after))
      × All IsSpace before
      × All IsSpace after
      × StartsPlain (trim s)
      × EndsPlain (trim s)
unfolding trim
trim-split s =
    let (before, e, spaces, plain) = skip_spaces-split s in
    elim (List-cases (skip_spaces s)) [
      | inl empty ↦ (
        before,
        [],
        ground (arith, e, empty),
        spaces,
        tt,
        ground (arith, empty),
        ground (arith, empty),
      )
      | inr (c, rest, filled) ↦
          let (after, e', spaces', ends) = keep_inner-split rest in
          let starts : is_space c ≡ false = ground (arith, plain, filled) in
          let whole = EndsPlain-cons c (keep_inner rest) starts ends in
          (
            before,
            after,
            ground (arith, e, e', filled),
            spaces,
            spaces',
            ground (arith, starts, filled),
            ground (arith, whole, filled),
          )
    ]
