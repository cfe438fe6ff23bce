-- ===== src/Common/Text/Options/Laws.antt =====
-- ParseFromString and Set of lib/common/format.cpp.
use my_orm.Prelude.{
  ℕ, zero, suc, ◌-◌, ◌≤◌, ◌<◌, ◌≡◌, inl, inr, refl, Bool, true, false, Option, none, some, [], ◌∷◌,
  Bytes, bytes_eq, bytes_beq_iff, length, ◌==◌, nat_eq, arith, Option-cases, if◌then◌else◌,
}
use mathlib.Core.Path.{subst}
use my_orm.Common.Text.Split.{skip_spaces, trim}
use my_orm.Common.Text.Split.Trimmed.{List-cases}
use my_orm.Common.Text.Split.Pieces.{length-drop_cons}
use my_orm.Common.Text.Options.{FormatValue, FormatOptions, empty, find_option, set_option}
use my_orm.Common.Text.Options.Parse.{
  index_of, behind, before, nested, quoted, skip_comma, parse_value, parse_from, parse_from_string,
}

length-skip_spaces : (s : Bytes) → length (skip_spaces s) ≤ length s
unfolding skip_spaces
length-skip_spaces [] = omega arith
length-skip_spaces (c ∷ s) = let ih = length-skip_spaces s in ground (arith, ih)

length-behind : (at : Option ℕ) (s : Bytes) → length (behind at s) ≤ length s - 1
unfolding behind
length-behind none s = omega arith
length-behind (some at) [] = omega arith
length-behind (some at) (c ∷ s) = omega (arith, length-drop_cons (suc at) c s (omega arith))

length-skip_comma : (s : Bytes) → length (skip_comma s) ≤ length s
unfolding skip_comma
length-skip_comma [] = omega arith
length-skip_comma (c ∷ s) = ground arith

length-quoted : (escaped : Bool) (s : Bytes) → length (quoted escaped s).1 ≤ length s
unfolding quoted
length-quoted true [] = omega arith
length-quoted false [] = omega arith
length-quoted true (c ∷ s) = omega (arith, length-quoted false s)
length-quoted false (c ∷ s) =
    let plain = length-quoted false s in
    let escape = length-quoted true s in ground (arith, plain, escape)

abbrev Shrinks : Bytes → Option (Bytes × Bytes) → Type 0
Shrinks s none = Unit
Shrinks s (some found) = (length found.0 ≤ length s) × (length found.1 ≤ length s)

nested-Shrinks : (depth : ℕ) (s : Bytes) → Shrinks s (nested depth s)
unfolding nested
nested-Shrinks depth [] = tt
nested-Shrinks zero (c ∷ s) =
    let deeper = nested-Shrinks 1 s in let same = nested-Shrinks 0 s in ground (arith, deeper, same)
nested-Shrinks (suc depth) (c ∷ s) =
    let deeper = nested-Shrinks (suc (suc depth)) s in
    let same = nested-Shrinks (suc depth) s in
    let shallow = nested-Shrinks depth s in ground (arith, deeper, same, shallow)

nested-some :
    (depth : ℕ) (s : Bytes) (found : Bytes × Bytes)
    → nested depth s ≡ some found
    → (length found.0 ≤ length s) × (length found.1 ≤ length s)
nested-some depth s found h = subst (Shrinks s) h (nested-Shrinks depth s)

-- The reader of nested options succeeds on all shorter texts.
abbrev Reads : ℕ → (Bytes → Option FormatOptions) → Type 0
Reads bound parse = (s : Bytes) → length s < bound → (o : FormatOptions) × (parse s ≡ some o)

abbrev Leaves : Bytes → Option (FormatValue × Bytes) → Type 0
Leaves s none = ⊥
Leaves s (some read) = length read.1 ≤ length s

parse_value_total :
    (parse : Bytes → Option FormatOptions) (key s : Bytes)
    → Reads (length s) parse
    → Leaves s (parse_value parse key s)
unfolding parse_value
parse_value_total parse key [] reads = omega arith
parse_value_total parse key (c ∷ s) reads =
    let rest = length-behind (index_of b',' (c ∷ s)) (c ∷ s) in
    let text = length-quoted false s in
    let comma = length-skip_comma (quoted false s).1 in
    elim (Option-cases (nested 0 s)) [
      | inl unclosed ↦ ground (arith, unclosed, rest, text, comma)
      | inr (found, closed) ↦
          let (shorter, behind_it) = nested-some 0 s found closed in
          let (o, inner) = reads found.0 (omega (arith, shorter)) in
          let skipped = length-skip_comma found.1 in
          let left : length (skip_comma found.1) ≤ suc (length s) =
            omega (arith, skipped, behind_it) in
          ground (arith, closed, inner, left, rest, text, comma)
    ]

abbrev Parses : Option FormatOptions → Type 0
Parses none = ⊥
Parses (some o) = Unit

Parses-some :
    (result : Option FormatOptions) → Parses result → (o : FormatOptions) × (result ≡ some o)
Parses-some (some o) h = (o, refl)
Parses-some none h = absurd h

parse_from-Parses :
    (fuel : ℕ) (s : Bytes) (o : FormatOptions) → length s < fuel → Parses (parse_from fuel s o)
unfolding parse_from
parse_from-Parses zero s o h = absurd (omega arith)
parse_from-Parses (suc fuel) s o h =
    let left = skip_spaces s in
    let comma = index_of b',' left in
    let equals = index_of b'=' left in
    let parse = λ (inner : Bytes). parse_from fuel inner empty in
    let key = trim (before equals left) in
    let rest = skip_spaces (behind equals left) in
    let less = length-skip_spaces s in
    let flag_less = length-behind comma left in
    let rest_less = length-skip_spaces (behind equals left) in
    let value_less = length-behind equals left in
    let read =
      parse_value_total parse key rest
        (λ inner i. Parses-some (parse inner) (parse_from-Parses fuel inner empty (omega arith))) in
    elim (List-cases left) [
      | inl done ↦ ground (arith, done)
      | inr (c, t, more) ↦
          let some_left : 0 < length left = rw more (omega arith) in
          let flag =
            λ (o' : FormatOptions). parse_from-Parses fuel (behind comma left) o' (omega arith) in
          let named = trim (before comma left) in
          let flagged =
            flag (if named == [] then o else set_option named (FormatValue.bool true) o) in
          elim (Option-cases (parse_value parse key rest)) [
            | inl failed ↦ absurd (subst (Leaves rest) failed read)
            | inr (value, e) ↦
                let shorter : length value.1 ≤ length rest = subst (Leaves rest) e read in
                let valued =
                  parse_from-Parses fuel value.1 (set_option key value.0 o) (omega arith) in
                ground (arith, more, e, valued, flagged)
          ]
    ]

-- ParseFromString ends on every text, unbalanced braces and open quotes among them: as many rounds
-- as the text has bytes, and one, are enough.
pub parse_from_string_total : (s : Bytes) → (o : FormatOptions) × (parse_from_string s ≡ some o)
unfolding parse_from_string
parse_from_string_total s =
    Parses-some (parse_from (suc (length s)) s empty)
      (parse_from-Parses (suc (length s)) s empty (omega arith))

-- What Set writes under a key, the getters find there, and nothing else changes.
pub find_option-set_option :
    (key asked : Bytes) (value : FormatValue) (o : FormatOptions)
    → find_option asked (set_option key value o)
      ≡ (if key == asked then some value else find_option asked o)
unfolding find_option set_option
find_option-set_option key asked value FormatOptions.empty = refl
find_option-set_option key asked value (FormatOptions.entry k old rest) =
    let ih = find_option-set_option key asked value rest in
    ground (arith, ih, bytes_beq_iff key asked, bytes_beq_iff k key, bytes_beq_iff k asked)
