-- ===== src/Common/Format/Search.antt =====
-- FindNext and FindPlaceHolder of lib/common/format.cpp on a text whose pieces hold no symbol with a
-- meaning of its own.
use my_orm.Prelude.{
  append-nil, ℕ, zero, suc, ◌+◌, ◌≤◌, ◌<◌, ◌≡◌, ◌≢◌, inl, inr, refl, ap, sym, ◌∙◌, false, Option,
  none, some, List, [], ◌∷◌, ◌++◌, Bytes, All, length, length-append, take, drop, nat_eq, arith,
  append_assoc, Option-cases, ok, get_elem?,
}
use my_orm.Common.Text.{unescape_from, unescape_symbols}
use my_orm.Common.Format.{find_next, find_next_from, close_from, find_place_holder, dollar_before}

-- A symbol that is not looked for, and is no quote or backslash.
abbrev pub Ordinary : ℕ → ℕ → Type 0
Ordinary c b = (b ≢ c) × (b ≢ b'\\') × (b ≢ b'\'')

-- A symbol that means itself in a template.
abbrev pub Plain : ℕ → Type 0
Plain b = (b ≢ b'{') × (b ≢ b'}') × (b ≢ b'\\') × (b ≢ b'\'') × (b ≢ b'$')

abbrev pub shift : ℕ → Option ℕ → Option ℕ
shift n none = none
shift n (some at) = some (n + at)

find_next-cons :
    (c b : ℕ) (s : Bytes) → Ordinary c b → find_next c false (b ∷ s) ≡ shift 1 (find_next c false s)
unfolding find_next
find_next-cons c b [] plain = ground arith
find_next-cons c b (d ∷ s) plain = ground arith

shift-shift : (n m k : ℕ) (o : Option ℕ) → k ≡ n + m → shift n (shift m o) ≡ shift k o
shift-shift n m k none h = refl
shift-shift n m k (some at) h = ap some (omega arith)

pub find_next-append :
    (c : ℕ) (s rest : Bytes)
    → All (Ordinary c) s
    → find_next c false (s ++ rest) ≡ shift (length s) (find_next c false rest)
find_next-append c [] rest plain = same (find_next c false rest)
  where
    same : (o : Option ℕ) → o ≡ shift 0 o
    same none = refl
    same (some at) = ap some (omega arith)
find_next-append c (b ∷ s) rest (hb, plain) =
    find_next-cons c b (s ++ rest) hb
    ∙ ap (shift 1) (find_next-append c s rest plain)
    ∙ shift-shift 1 (length s) (suc (length s)) (find_next c false rest) (omega arith)

-- The symbol that is looked for, unless it is a quote or a backslash.
find_next_here :
    (c : ℕ) (rest : Bytes) → c ≢ b'\\' → c ≢ b'\'' → find_next c false (c ∷ rest) ≡ some 0
unfolding find_next
find_next_here c [] h h' = ground arith
find_next_here c (d ∷ rest) h h' = ground arith

pub drop-length :
    {A : Type 0} (n : ℕ) (done rest : List A) → n ≡ length done → drop n (done ++ rest) ≡ rest
drop-length zero [] rest h = refl
drop-length (suc n) [] rest h = absurd (omega arith)
drop-length zero (x ∷ done) rest h = absurd (omega arith)
drop-length (suc n) (x ∷ done) rest h = drop-length n done rest (omega arith)

pub take-length :
    {A : Type 0} (n : ℕ) (done rest : List A) → n ≡ length done → take n (done ++ rest) ≡ done
take-length zero [] rest h = refl
take-length (suc n) [] rest h = absurd (omega arith)
take-length zero (x ∷ done) rest h = absurd (omega arith)
take-length {A} (suc n) (x ∷ done) rest h =
    ap (λ (l : List A). x ∷ l) (take-length n done rest (omega arith))

Plain-Ordinary_open : (s : Bytes) → All Plain s → All (Ordinary b'{') s
Plain-Ordinary_open [] h = tt
Plain-Ordinary_open (b ∷ s) ((h1, h2, h3, h4, h5), h) = ((h1, h3, h4), Plain-Ordinary_open s h)

Plain-Ordinary_close : (s : Bytes) → All Plain s → All (Ordinary b'}') s
Plain-Ordinary_close [] h = tt
Plain-Ordinary_close (b ∷ s) ((h1, h2, h3, h4, h5), h) = ((h2, h3, h4), Plain-Ordinary_close s h)

-- FindNext on a text of which the part before `pos` is known.
find_next_from-append :
    (c : ℕ) (done rest : Bytes) (pos : ℕ)
    → pos ≡ length done
    → find_next_from c (done ++ rest) pos ≡ shift pos (find_next c false rest)
unfolding find_next_from
find_next_from-append c done rest pos h =
    ap (λ t. shift pos (find_next c false t)) (drop-length pos done rest h)

-- The text behind a placeholder's opening brace.
abbrev pub inside : (m rest : Bytes) → Bytes
inside m rest = m ++ b'}' ∷ rest

module _ (str done l m rest : Bytes) (pos begin end : ℕ)
    (whole : str ≡ done ++ (l ++ b'{' ∷ inside m rest)) (at_pos : pos ≡ length done)
    (at_begin : begin ≡ pos + length l) (at_end : end ≡ suc (begin + length m))
    (plain_l : All Plain l) (plain_m : All Plain m) where
  opens : find_next_from b'{' str pos ≡ some begin
  opens =
      ap (λ t. find_next_from b'{' t pos) whole
      ∙ find_next_from-append b'{' done (l ++ b'{' ∷ inside m rest) pos at_pos
      ∙ ap (shift pos) (
          find_next-append b'{' l (b'{' ∷ inside m rest) (Plain-Ordinary_open l plain_l)
          ∙ ap (shift (length l)) (
              find_next_here b'{' (inside m rest) (λ e. absurd (omega arith))
                (λ e. absurd (omega arith))))
      ∙ ap some (omega arith)

  before_brace : str ≡ (done ++ l) ++ b'{' ∷ inside m rest
  before_brace = whole ∙ sym (append_assoc done l (b'{' ∷ inside m rest))

  behind_brace : str ≡ (done ++ (l ++ b'{' ∷ [])) ++ inside m rest
  behind_brace =
      whole
      ∙ ap (λ t. done ++ t) (sym (append_assoc l (b'{' ∷ []) (inside m rest)))
      ∙ sym (append_assoc done (l ++ b'{' ∷ []) (inside m rest))

  closes : find_next_from b'}' str begin ≡ some end
  closes =
      ap (λ t. find_next_from b'}' t begin) before_brace
      ∙ find_next_from-append b'}' (done ++ l) (b'{' ∷ inside m rest) begin
          (omega (arith, length-append done l))
      ∙ ap (shift begin) (
          find_next-append b'}' (b'{' ∷ m) (b'}' ∷ rest) (
            ((λ e. absurd (omega arith)), (λ e. absurd (omega arith)), (λ e. absurd (omega arith))),
            Plain-Ordinary_close m plain_m,
          )
          ∙ ap (shift (suc (length m)))
              (find_next_here b'}' rest (λ e. absurd (omega arith)) (λ e. absurd (omega arith))))
      ∙ ap some (omega arith)

  -- The next opening brace, if there is one, stands behind the closing one.
  opens_later :
      find_next_from b'{' str (suc begin)
      ≡ shift (suc begin) (shift (length m) (find_next b'{' false (b'}' ∷ rest)))
  opens_later =
      ap (λ t. find_next_from b'{' t (suc begin)) behind_brace
      ∙ find_next_from-append b'{' (done ++ (l ++ b'{' ∷ [])) (inside m rest) (suc begin)
          (omega (arith, length-append done (l ++ b'{' ∷ []), length-append l (b'{' ∷ [])))
      ∙ ap (shift (suc begin))
          (find_next-append b'{' m (b'}' ∷ rest) (Plain-Ordinary_open m plain_m))

  pub find_place_holder-append :
      find_place_holder str pos
      ≡ ok
          (some (record { begin_brace = begin; end_brace = end; dollar = dollar_before str begin }))
  unfolding find_place_holder close_from
  find_place_holder-append =
      let skipped =
        find_next-cons b'{' b'}' rest
          ((λ e. absurd (omega arith)), (λ e. absurd (omega arith)), (λ e. absurd (omega arith))) in
      elim (Option-cases (find_next b'{' false rest)) [
        | inl last ↦ ground (arith, opens, closes, opens_later, skipped, last)
        | inr (at, more) ↦ ground (arith, opens, closes, opens_later, skipped, more)
      ]

-- A text without an opening brace has no placeholder.
pub find_place_holder-none :
    (str done l : Bytes) (pos : ℕ)
    → str ≡ done ++ l
    → pos ≡ length done
    → All Plain l
    → find_place_holder str pos ≡ ok none
unfolding find_place_holder
find_place_holder-none str done l pos whole at_pos plain =
    let missing : find_next_from b'{' str pos ≡ none =
      ap (λ t. find_next_from b'{' t pos) whole
      ∙ find_next_from-append b'{' done l pos at_pos
      ∙ ap (λ t. shift pos (find_next b'{' false t)) (sym (append-nil l))
      ∙ ap (shift pos) (find_next-append b'{' l [] (Plain-Ordinary_open l plain)) in
    ground (arith, missing)

abbrev pub NoDollar : ℕ → Type 0
NoDollar b = b ≢ b'$'

All-get :
    (xs rest : Bytes) (j b : ℕ)
    → All NoDollar xs
    → j < length xs
    → get_elem? (xs ++ rest) j ≡ some b
    → b ≢ b'$'
All-get [] rest j b h less got = absurd (omega arith)
All-get (x ∷ xs) rest zero b (hx, h) less got = λ e. hx (ground (arith, got, e))
All-get (x ∷ xs) rest (suc j) b (hx, h) less got = All-get xs rest j b h (omega arith) got

pub dollar_before-none :
    (xs rest : Bytes) (i : ℕ)
    → All NoDollar xs
    → i ≤ length xs
    → dollar_before (xs ++ rest) i ≡ none
unfolding dollar_before
dollar_before-none xs rest zero h less = refl
dollar_before-none xs rest (suc i) h less =
    let earlier = dollar_before-none xs rest i h (omega arith) in
    elim (Option-cases (get_elem? (xs ++ rest) i)) [
      | inl past ↦ ground (arith, past)
      | inr (b, got) ↦ ground (arith, got, earlier, All-get xs rest i b h (omega arith) got)
    ]

unescape_from-Plain : (result s : Bytes) → All Plain s → unescape_from result s ≡ result ++ s
unfolding unescape_from
unescape_from-Plain result [] h = sym (append-nil result)
unescape_from-Plain result (b ∷ []) h = refl
unescape_from-Plain result (b ∷ c ∷ s) ((h1, h2, h3, h4, h5), h) =
    let later = unescape_from-Plain (result ++ b ∷ []) (c ∷ s) h in
    ground (arith, later, append_assoc result (b ∷ []) (c ∷ s))

pub unescape_symbols-Plain : (s : Bytes) → All Plain s → unescape_symbols s ≡ s
unfolding unescape_symbols
unescape_symbols-Plain s h = unescape_from-Plain [] s h
