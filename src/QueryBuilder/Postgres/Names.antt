-- ===== src/QueryBuilder/Postgres/Names.antt =====
-- The names that FieldToString (lib/query_builder/builders/postgres.cpp) gives to columns.
use my_orm.Prelude.{
  ℕ, zero, suc, ◌+◌, ◌-◌, ◌*◌, ◌/◌, ◌%◌, ◌<◌, ◌≡◌, refl, ap, ◌∙◌, List, [], ◌∷◌, ◌++◌, append_assoc,
  append-nil, Bytes, codes, ◌==◌, nat_eq, if◌then◌else◌, ok, ok-injective, arith,
}
use my_orm.QueryBuilder.Clause.{KeyType, simple, primary, index, other_key}
use my_orm.QueryBuilder.Postgres.Text.{digits, decimal, join, decimals, path_text, field_to_string}

-- The numbers of a text in which `_` separates decimals, `n` being what was read of the first.
pub read_entries : ℕ → Bytes → List ℕ
read_entries n [] = n ∷ []
read_entries n (c ∷ s) =
    let next = read_entries 0 s in
    let more = read_entries (n * 10 + (c - 48)) s in if c == b'_' then n ∷ next else more

read_digit :
    (n d : ℕ) (t : Bytes) → d < 10 → read_entries n ((48 + d) ∷ t) ≡ read_entries (n * 10 + d) t
unfolding read_entries
read_digit n d t h = ground arith

read_digits :
    (fuel n : ℕ) (t : Bytes) → n < fuel → read_entries 0 (digits fuel n ++ t) ≡ read_entries n t
unfolding digits
read_digits zero n t h = elim h [ ]
read_digits (suc fuel) n t h = ground (
  arith,
  read_digit 0 n t,
  append_assoc (digits fuel (n / 10)) ((48 + n % 10) ∷ []) t,
  read_digits fuel (n / 10) ((48 + n % 10) ∷ t),
  read_digit (n / 10) (n % 10) t,
)

read_decimal : (n : ℕ) (t : Bytes) → read_entries 0 (decimal n ++ t) ≡ read_entries n t
unfolding decimal
read_decimal n t = read_digits (suc n) n t (omega arith)

read_separator : (n : ℕ) (t : Bytes) → read_entries n (codes "_" ++ t) ≡ n ∷ read_entries 0 t
unfolding read_entries
read_separator n t = refl

read_path :
    (n : ℕ) (path : List ℕ) → read_entries 0 (join (codes "_") (decimals (n ∷ path))) ≡ n ∷ path
unfolding join decimals
read_path n [] =
    rw (← append-nil (decimal n)) (rw (read_decimal n []) (unfold read_entries in refl))
read_path n (m ∷ path) =
    ap (read_entries 0)
      (append_assoc (decimal n) (codes "_") (join (codes "_") (decimals (m ∷ path))))
    ∙ read_decimal n (codes "_" ++ join (codes "_") (decimals (m ∷ path)))
    ∙ (read_separator n (join (codes "_") (decimals (m ∷ path)))
        ∙ ap (λ (l : List ℕ). n ∷ l) (read_path m path))

-- The letter of the key type, and the entries behind it.
pub read_field : Bytes → ℕ × List ℕ
read_field (kind ∷ underscore ∷ s) = (kind, read_entries 0 s)
read_field other = (0, [])

pub letter : KeyType → ℕ
letter simple = b'f'
letter primary = b'p'
letter index = b'i'
letter other_key = 0

-- A column's name tells its key type and its field path, if the path has an entry.
pub read_field-field_to_string :
    (key : KeyType) (n : ℕ) (path : List ℕ) (name : Bytes)
    → field_to_string (n ∷ path) key ≡ ok name
    → read_field name ≡ (letter key, n ∷ path)
unfolding field_to_string read_field letter path_text
read_field-field_to_string simple n path name h =
    rw (← ok-injective _ name h) (ap (λ (l : List ℕ). (b'f', l)) (read_path n path))
read_field-field_to_string primary n path name h =
    rw (← ok-injective _ name h) (ap (λ (l : List ℕ). (b'p', l)) (read_path n path))
read_field-field_to_string index n path name h =
    rw (← ok-injective _ name h) (ap (λ (l : List ℕ). (b'i', l)) (read_path n path))
read_field-field_to_string other_key n path name h = cc
