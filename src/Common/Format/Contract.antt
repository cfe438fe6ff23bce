-- ===== src/Common/Format/Contract.antt =====
-- Format of lib/common/format.h on templates of plain text with placeholders without an index.
use my_orm.Prelude.{
  ℕ, zero, suc, ◌+◌, ◌-◌, ◌≤◌, ◌<◌, ◌≡◌, inl, inr, refl, ap, sym, ◌∙◌, false, none, some, List, [],
  ◌∷◌, ◌++◌, Bytes, All, All-append, length, length-append, take, drop, ltb, nat_eq, arith,
  if◌then◌else◌, append_assoc, Option-cases, ok, get_elem?,
}
use my_orm.Common.Text.Split.Trimmed.{List-cases}
use my_orm.Common.Text.Options.{FormatOptions, empty}
use my_orm.Common.Text.Options.Parse.{parse_from_string}
use my_orm.Common.Text.Options.Laws.{parse_from_string_total}
use my_orm.Common.Format.{
  Argument, has_indexed_from, has_indexed_placeholders, modifiers, handle, sequential_from,
  format_sequential, format, dollar_before,
}
use my_orm.Common.Format.Search.{
  Plain, NoDollar, inside, find_place_holder-append, find_place_holder-none, dollar_before-none,
  unescape_symbols-Plain, drop-length, take-length,
}

-- A template: a text, and for each placeholder its modifiers and the text behind it.
unfoldable pub template : Bytes → List (Bytes × Bytes) → Bytes
template text [] = text
template text (place ∷ places) = text ++ b'{' ∷ inside place.0 (template place.1 places)

-- The options that some modifiers say.
unfoldable pub options_of : Bytes → FormatOptions
options_of text = elim (parse_from_string text) [ none ↦ empty | some o ↦ o ]

-- What the placeholder number `index` becomes: what its argument writes, or the placeholder as it
-- stands when there are not so many arguments.
unfoldable pub shown : List Argument → (index : ℕ) → Bytes → Bytes
unfolding options_of
shown args index text = elim (get_elem? args index) [
  | none ↦ b'{' ∷ text ++ b'}' ∷ []
  | some argument ↦ argument (options_of text)
]

unfoldable pub filled : List Argument → (index : ℕ) → Bytes → List (Bytes × Bytes) → Bytes
unfolding shown
filled args index text [] = text
filled args index text (place ∷ places) =
    text ++ (shown args index place.0 ++ filled args (suc index) place.1 places)

-- Texts and modifiers without braces, quotes, backslashes and `$`.
abbrev pub IsPlain : List (Bytes × Bytes) → Type 0
IsPlain places = All (λ place. All Plain place.0 × All Plain place.1) places

handle-options_of :
    (argument : Argument) (text : Bytes) → handle argument text ≡ ok (argument (options_of text))
unfolding handle options_of
handle-options_of argument text = let (o, h) = parse_from_string_total text in ground (arith, h)

Plain-NoDollar : (s : Bytes) → All Plain s → All NoDollar s
Plain-NoDollar [] h = tt
Plain-NoDollar (b ∷ s) ((h1, h2, h3, h4, h5), h) = (h5, Plain-NoDollar s h)

-- The text up to and with a placeholder.
abbrev past : (done text m : Bytes) → Bytes
past done text m = done ++ (text ++ b'{' ∷ (m ++ b'}' ∷ []))

past-append :
    (done text m rest : Bytes) → done ++ (text ++ b'{' ∷ inside m rest) ≡ past done text m ++ rest
past-append done text m rest = simp (append_assoc)

length-past :
    (done text m : Bytes) → length (past done text m) ≡ length done + length text + length m + 2
length-past done text m = omega (
  arith,
  length-append done (text ++ b'{' ∷ (m ++ b'}' ∷ [])),
  length-append text (b'{' ∷ (m ++ b'}' ∷ [])),
  length-append m (b'}' ∷ []),
)

filled-nil :
    (args : List Argument) (index : ℕ) (text : Bytes) (places : List (Bytes × Bytes))
    → length (template text places) ≡ 0
    → filled args index text places ≡ []
unfolding filled template
filled-nil args index [] [] h = refl
filled-nil args index (b ∷ text) [] h = absurd (omega arith)
filled-nil args index text ((m, t) ∷ places) h =
    absurd (omega (arith, length-append text (b'{' ∷ inside m (template t places))))

module _ (args : List Argument) (str : Bytes) where
  -- The loop at a position behind which the rest of a template stands.
  sequential_from-template :
      (fuel index pos : ℕ) (done text : Bytes) (places : List (Bytes × Bytes))
      → str ≡ done ++ template text places
      → pos ≡ length done
      → length places < fuel
      → All Plain text
      → IsPlain places
      → sequential_from fuel str args index pos ≡ ok (filled args index text places)
  unfolding sequential_from template filled shown modifiers
  sequential_from-template zero index pos done text places whole at_pos room ht hp =
      absurd (omega arith)
  sequential_from-template (suc fuel) index pos done text [] whole at_pos room ht hp =
      let missing = find_place_holder-none str done text pos whole at_pos ht in
      let left : drop pos str ≡ text = ap (drop pos) whole ∙ drop-length pos done text at_pos in
      ground (arith, missing, left, unescape_symbols-Plain text ht)
  sequential_from-template (suc fuel) index pos done text ((m, t) ∷ places) whole at_pos room ht
        ((hm, hn), hp) =
      let rest = template t places in
      let begin = pos + length text in
      let end = suc (begin + length m) in
      let found =
        find_place_holder-append str done text m rest pos begin end whole at_pos refl refl ht hm in
      let before : take (begin - pos) (drop pos str) ≡ text =
        ap (λ s. take (begin - pos) (drop pos s)) whole
        ∙ ap (take (begin - pos)) (drop-length pos done (text ++ b'{' ∷ inside m rest) at_pos)
        ∙ take-length (begin - pos) text (b'{' ∷ inside m rest) (omega arith) in
      let between : take (end - suc begin) (drop (suc begin) str) ≡ m =
        ap (λ s. take (end - suc begin) (drop (suc begin) s)) (whole ∙ simp (append_assoc))
        ∙ ap (take (end - suc begin)) (
            drop-length (suc begin) (done ++ (text ++ b'{' ∷ [])) (inside m rest) (
              omega
                (arith, length-append done (text ++ b'{' ∷ []), length-append text (b'{' ∷ []))))
        ∙ take-length (end - suc begin) m (b'}' ∷ rest) (omega arith) in
      let split : str ≡ past done text m ++ rest = whole ∙ past-append done text m rest in
      let size : length str ≡ suc end + length rest =
        omega (
          arith,
          ap length split,
          length-append (past done text m) rest,
          length-past done text m,
        ) in
      let later =
        sequential_from-template fuel (suc index) (suc end) (past done text m) t places split
          (omega (arith, length-past done text m)) (omega arith) hn hp in
      let nil = filled-nil args (suc index) t places in
      let plain = unescape_symbols-Plain text ht in
      let tail : (if ltb (suc end) (length str)
            then sequential_from fuel str args (suc index) (suc end)
            else ok [])
          ≡ ok (filled args (suc index) t places) =
        ground (arith, size, later, nil) in
      elim (Option-cases (get_elem? args index)) [
        | inl missing ↦ ground (arith, found, before, between, plain, tail, missing)
        | inr (argument, got) ↦
            ground (arith, found, before, between, plain, tail, got, handle-options_of argument m)
      ]

has_indexed_from-template :
    (str : Bytes) (fuel pos : ℕ) (done text : Bytes) (places : List (Bytes × Bytes))
    → str ≡ done ++ template text places
    → pos ≡ length done
    → length places < fuel
    → All NoDollar done
    → All Plain text
    → IsPlain places
    → has_indexed_from fuel str pos ≡ ok false
unfolding has_indexed_from template
has_indexed_from-template str zero pos done text places whole at_pos room hd ht hp =
    absurd (omega arith)
has_indexed_from-template str (suc fuel) pos done text [] whole at_pos room hd ht hp =
    let missing = find_place_holder-none str done text pos whole at_pos ht in
    ground (arith, missing)
has_indexed_from-template str (suc fuel) pos done text ((m, t) ∷ places) whole at_pos room hd ht
      ((hm, hn), hp) =
    let rest = template t places in
    let begin = pos + length text in
    let end = suc (begin + length m) in
    let found =
      find_place_holder-append str done text m rest pos begin end whole at_pos refl refl ht hm in
    let split : str ≡ past done text m ++ rest = whole ∙ past-append done text m rest in
    let front = All-append NoDollar done text hd (Plain-NoDollar text ht) in
    let dollar : dollar_before str begin ≡ none =
      ap (λ s. dollar_before s begin) (whole ∙ sym (append_assoc done text (b'{' ∷ inside m rest)))
      ∙ dollar_before-none (done ++ text) (b'{' ∷ inside m rest) begin front
          (omega (arith, length-append done text)) in
    let seen = All-append NoDollar done (text ++ b'{' ∷ (m ++ b'}' ∷ [])) hd (
      All-append NoDollar text (b'{' ∷ (m ++ b'}' ∷ [])) (Plain-NoDollar text ht) (
        (λ e. absurd (omega arith)),
        All-append NoDollar m (b'}' ∷ []) (Plain-NoDollar m hm) ((λ e. absurd (omega arith)), tt),
      )) in
    let later =
      has_indexed_from-template str fuel (suc end) (past done text m) t places split
        (omega (arith, length-past done text m)) (omega arith) seen hn hp in
    ground (arith, found, dollar, later)

length-template :
    (text : Bytes) (places : List (Bytes × Bytes)) → length places ≤ length (template text places)
unfolding template
length-template text [] = omega arith
length-template text ((m, t) ∷ places) =
    let rest = template t places in
    omega (
      arith,
      length-append text (b'{' ∷ inside m rest),
      length-append m (b'}' ∷ rest),
      length-template t places,
    )

format_full :
    (c : ℕ) (s : Bytes) (args : List Argument)
    → has_indexed_from (suc (suc (length s))) (c ∷ s) 0 ≡ ok false
    → format (c ∷ s) args ≡ sequential_from (suc (suc (length s))) (c ∷ s) args 0 0
unfolding format has_indexed_placeholders format_sequential
format_full c s args h = ground (arith, h)

-- Format on a template of plain texts and of placeholders with plain modifiers, without braces,
-- quotes, backslashes or `$` of their own: the texts stay, and the placeholder number i becomes what
-- argument number i writes with the options that the modifiers say, or stays as it is when there
-- are not so many arguments.
pub format-template :
    (text : Bytes) (places : List (Bytes × Bytes)) (args : List Argument)
    → All Plain text
    → IsPlain places
    → format (template text places) args ≡ ok (filled args 0 text places)
format-template text places args ht hp = elim (List-cases (template text places)) [
  | inl nil ↦
      let written = filled-nil args 0 text places (ap length nil) in
      unfold format has_indexed_placeholders format_sequential in ground (arith, nil, written)
  | inr (c, s, e) ↦
      let whole : c ∷ s ≡ [] ++ template text places = sym e in
      let room : length places < suc (suc (length s)) =
        omega (arith, length-template text places, ap length e) in
      let indexed =
        has_indexed_from-template (c ∷ s) (suc (suc (length s))) 0 [] text places whole refl room tt
          ht hp in
      ap (λ t. format t args) e
      ∙ format_full c s args indexed
      ∙ sequential_from-template args (c ∷ s) (suc (suc (length s))) 0 0 [] text places whole refl
          room ht hp
]
