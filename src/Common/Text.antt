-- ===== src/Common/Text.antt =====
-- lib/common/format.cpp: the text helpers EscapeSymbols and UnescapeSymbols. A text is a list of bytes.
pub mod Escape
pub mod Split
pub mod Options
use my_orm.Prelude.{
  ℕ, zero, suc, ◌+◌, Bool, true, false, ◌||◌, ◌&&◌, Option, none, some, List, [], ◌∷◌, ◌++◌, Bytes,
  ◌==◌, nat_eq, leb, if◌then◌else◌, arith,
}

-- std::isspace in the "C" locale.
unfoldable pub is_space : ℕ → Bool
is_space c = c == b' ' || (leb 9 c && leb c 13)

-- What one round of EscapeSymbols appends.
unfoldable pub escape_symbol : ℕ → Bytes
escape_symbol c =
    if c == b'\\'
    then b'\\' ∷ b'\\' ∷ []
    else if c == b'\n'
    then b'\\' ∷ b'n' ∷ []
    else if c == b'\r'
    then b'\\' ∷ b'r' ∷ []
    else c ∷ []

-- EscapeSymbols: the loop with its accumulator `result`.
unfoldable pub escape_from : Bytes → Bytes → Bytes
unfolding escape_symbol
escape_from result [] = result
escape_from result (c ∷ s) = escape_from (result ++ escape_symbol c) s

unfoldable pub escape_symbols : Bytes → Bytes
unfolding escape_from
escape_symbols s = escape_from [] s

-- The symbol that stands behind a backslash, in UnescapeSymbols.
unfoldable pub unescape_symbol : ℕ → ℕ
unescape_symbol c = if c == b'n' then b'\n' else if c == b'r' then b'\r' else c

-- UnescapeSymbols: a backslash at the very end is kept.
unfoldable pub unescape_from : Bytes → Bytes → Bytes
unfolding unescape_symbol
unescape_from result [] = result
unescape_from result (c ∷ []) = result ++ c ∷ []
unescape_from result (c ∷ d ∷ s) =
    let escaped = unescape_from (result ++ unescape_symbol d ∷ []) s in
    let plain = unescape_from (result ++ c ∷ []) (d ∷ s) in if c == b'\\' then escaped else plain

unfoldable pub unescape_symbols : Bytes → Bytes
unfolding unescape_from
unescape_symbols s = unescape_from [] s
