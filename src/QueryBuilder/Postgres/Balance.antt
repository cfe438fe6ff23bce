-- ===== src/QueryBuilder/Postgres/Balance.antt =====
-- About quotes and parentheses in the texts of the builder (lib/query_builder/builders/postgres.cpp): a
-- scanner that goes through a text as PostgreSQL does.
mod Expressions
pub mod Definitions
mod Parts
mod Pieces
pub mod Statements
use my_orm.Prelude.{
  ℕ, zero, suc, ◌+◌, ◌-◌, ◌/◌, ◌%◌, ◌<◌, ◌≡◌, ◌≢◌, refl, sym, ap, ◌∙◌, Bool, true, false, not, ◌&&◌,
  ◌||◌, Option, none, some, List, [], ◌∷◌, ◌++◌, append_assoc, append-nil, Bytes, codes, ltb, ◌==◌,
  nat_eq, if◌then◌else◌, All, Bool-cases, inl, inr, ltb→lt, arith,
}
use my_orm.Prelude.Int.{ℤ, pos, negsuc}
use my_orm.QueryBuilder.Postgres.Text.{
  digits, decimal, signed_decimal, join, decimals, path_text, simple_field, table_text, escape_char,
  escape_chars, escape_string_literal, bool_text,
}
use my_orm.QueryBuilder.Postgres.Expression.{parens}

-- One character: whether it stands inside a literal, and how many parentheses are open. A parenthesis
-- that closes none is refused. A doubled quote leaves the literal and enters it again.
pub step : Bool → ℕ → ℕ → Option (Bool × ℕ)
step true depth c = some (not (c == b'\''), depth)
step false zero c =
    if c == b'\''
    then some (true, zero)
    else if c == b'('
    then some (false, 1)
    else if c == b')'
    then none
    else some (false, zero)
step false (suc depth) c =
    if c == b'\''
    then some (true, suc depth)
    else if c == b'('
    then some (false, suc (suc depth))
    else if c == b')'
    then some (false, depth)
    else some (false, suc depth)

unfoldable pub scan : Bool → ℕ → Bytes → Option (Bool × ℕ)
unfolding step
scan inside depth [] = some (inside, depth)
scan inside depth (c ∷ s) = elim (step inside depth c) [ none ↦ none | some r ↦ scan r.0 r.1 s ]

-- A text that neither opens nor closes anything that it does not close or open itself.
pub record IsNeutral (t : Bytes) : Type 0 where
  pub neutral : (depth : ℕ) → scan false depth t ≡ some (false, depth)

scan-append :
    (inside inside' : Bool) (depth depth' : ℕ) (s t : Bytes)
    → scan inside depth s ≡ some (inside', depth')
    → scan inside depth (s ++ t) ≡ scan inside' depth' t
unfolding scan
scan-append inside inside' depth depth' [] t h = ground arith
scan-append inside inside' depth depth' (c ∷ s) t h =
    go (step inside depth c) (λ i d. scan-append i inside' d depth' s t) h
  where
    go :
        (r : Option (Bool × ℕ))
        → ((i : Bool) (d : ℕ)
            → scan i d s ≡ some (inside', depth')
            → scan i d (s ++ t) ≡ scan inside' depth' t)
        → (elim r [ none ↦ none | some r ↦ scan r.0 r.1 s ]) ≡ some (inside', depth')
        → (elim r [ none ↦ none | some r ↦ scan r.0 r.1 (s ++ t) ]) ≡ scan inside' depth' t
    go none ih h = cc
    go (some (i, d)) ih h = ih i d h

pub nil-IsNeutral : IsNeutral []
nil-IsNeutral = record { neutral = λ depth. unfold scan in refl }

infixl 65 ◌&&&◌
pub ◌&&&◌ : {s t : Bytes} → IsNeutral s → IsNeutral t → IsNeutral (s ++ t)
◌&&&◌ {s} {t} h k = record {
  neutral = λ depth. scan-append false false depth depth s t (h.neutral depth) ∙ k.neutral depth;
}

abbrev pub plain_char : ℕ → Bool
plain_char c = not (c == b'\'') && not (c == b'(') && not (c == b')')

abbrev pub is_plain : Bytes → Bool
is_plain [] = true
is_plain (c ∷ s) = plain_char c && is_plain s

plain_step : (c depth : ℕ) → plain_char c ≡ true → step false depth c ≡ some (false, depth)
unfolding step
plain_step c zero h = ground arith
plain_step c (suc depth) h = ground arith

scan_plain : (s : Bytes) (depth : ℕ) → is_plain s ≡ true → scan false depth s ≡ some (false, depth)
unfolding scan
scan_plain [] depth h = refl
scan_plain (c ∷ s) depth h = ground (arith, plain_step c depth, scan_plain s depth)

pub plain-IsNeutral : (s : Bytes) → is_plain s ≡ true → IsNeutral s
plain-IsNeutral s h = record { neutral = λ depth. scan_plain s depth h }

pub number_char-IsNeutral : (d : ℕ) → d < 10 → IsNeutral ((48 + d) ∷ [])
number_char-IsNeutral d h = plain-IsNeutral ((48 + d) ∷ []) (ground arith)

digits-IsNeutral : (fuel n : ℕ) → IsNeutral (digits fuel n)
unfolding digits
digits-IsNeutral zero n = nil-IsNeutral
digits-IsNeutral (suc fuel) n = elim (Bool-cases (ltb n 10)) [
  | inl h ↦ rw h (number_char-IsNeutral n (ltb→lt n 10 h))
  | inr h ↦ rw h (digits-IsNeutral fuel (n / 10) &&& number_char-IsNeutral (n % 10) (omega arith))
]

pub decimal-IsNeutral : (n : ℕ) → IsNeutral (decimal n)
unfolding decimal
decimal-IsNeutral n = digits-IsNeutral (suc n) n

pub signed_decimal-IsNeutral : (z : ℤ) → IsNeutral (signed_decimal z)
unfolding signed_decimal
signed_decimal-IsNeutral (pos n) = decimal-IsNeutral n
signed_decimal-IsNeutral (negsuc n) = plain-IsNeutral (codes "-") refl &&& decimal-IsNeutral (suc n)

pub join-IsNeutral :
    (separator : Bytes)
    → IsNeutral separator
    → (ts : List Bytes) → All IsNeutral ts
    → IsNeutral (join separator ts)
unfolding join
join-IsNeutral separator hs [] h = nil-IsNeutral
join-IsNeutral separator hs (t ∷ []) (p, h) = p
join-IsNeutral separator hs (t ∷ u ∷ ts) (p, h) =
    p &&& hs &&& join-IsNeutral separator hs (u ∷ ts) h

decimals-IsNeutral : (path : List ℕ) → All IsNeutral (decimals path)
unfolding decimals
decimals-IsNeutral [] = tt
decimals-IsNeutral (n ∷ path) = (decimal-IsNeutral n, decimals-IsNeutral path)

path_text-IsNeutral : (path : List ℕ) → IsNeutral (path_text path)
unfolding path_text
path_text-IsNeutral path =
    join-IsNeutral (codes "_") (plain-IsNeutral (codes "_") refl) (decimals path)
      (decimals-IsNeutral path)

pub name-IsNeutral :
    (prefix : Bytes)
    → is_plain prefix ≡ true
    → (path : List ℕ) → IsNeutral (prefix ++ path_text path)
name-IsNeutral prefix h path = plain-IsNeutral prefix h &&& path_text-IsNeutral path

pub table_text-IsNeutral : (path : List ℕ) → IsNeutral (table_text path)
unfolding table_text
table_text-IsNeutral path = name-IsNeutral (codes "t_") refl path

pub simple_field-IsNeutral : (path : List ℕ) → IsNeutral (simple_field path)
unfolding simple_field
simple_field-IsNeutral path = name-IsNeutral (codes "f_") refl path

-- Inside a literal, the text of a character ends inside it.
scan_escaped : (c depth : ℕ) (t : Bytes) → scan true depth (escape_char c ++ t) ≡ scan true depth t
unfolding escape_char scan step
scan_escaped c zero t = ground arith
scan_escaped c (suc depth) t = ground arith

scan_chars :
    (s : Bytes) (depth : ℕ) → scan true depth (escape_chars s ++ codes "'") ≡ some (false, depth)
unfolding escape_chars
scan_chars [] depth = unfold scan step in refl
scan_chars (c ∷ s) depth =
    ap (scan true depth) (append_assoc (escape_char c) (escape_chars s) (codes "'"))
    ∙ scan_escaped c depth (escape_chars s ++ codes "'")
    ∙ scan_chars s depth

scan_open : (depth : ℕ) (s : Bytes) → scan false depth (codes "'" ++ s) ≡ scan true depth s
unfolding scan step
scan_open zero s = refl
scan_open (suc depth) s = refl

pub escape_string_literal-IsNeutral : (s : Bytes) → IsNeutral (escape_string_literal s)
unfolding escape_string_literal
escape_string_literal-IsNeutral s = record {
  neutral = λ depth. scan_open depth (escape_chars s ++ codes "'") ∙ scan_chars s depth;
}

scan_paren : (depth : ℕ) (s : Bytes) → scan false depth (codes "(" ++ s) ≡ scan false (suc depth) s
unfolding scan step
scan_paren zero s = refl
scan_paren (suc depth) s = refl

scan_close : (depth : ℕ) → scan false (suc depth) (codes ")") ≡ some (false, depth)
unfolding scan step
scan_close depth = refl

pub parens-IsNeutral : (t : Bytes) → IsNeutral t → IsNeutral (parens t)
parens-IsNeutral t h = record {
  neutral = λ depth.
      scan_paren depth (t ++ codes ")")
      ∙ scan-append false false (suc depth) (suc depth) t (codes ")") (h.neutral (suc depth))
      ∙ scan_close depth;
}

pub bool_text-IsNeutral : (b : Bool) → IsNeutral (bool_text b)
unfolding bool_text
bool_text-IsNeutral true = plain-IsNeutral (codes "TRUE") refl
bool_text-IsNeutral false = plain-IsNeutral (codes "FALSE") refl
