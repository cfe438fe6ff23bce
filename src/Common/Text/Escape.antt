-- ===== src/Common/Text/Escape.antt =====
-- EscapeSymbols and UnescapeSymbols of lib/common/format.cpp.
use my_orm.Prelude.{ℕ, ◌≡◌, ◌≢◌, sym, [], ◌∷◌, ◌++◌, append-nil, append_assoc, Bytes, All, arith}
use my_orm.Common.Text.{escape_symbol, escape_from, escape_symbols, unescape_from, unescape_symbols}

-- One round of the reader undoes one round of the writer.
unescape_from-escape_symbol :
    (c : ℕ) (result s : Bytes)
    → unescape_from result (escape_symbol c ++ s) ≡ unescape_from (result ++ c ∷ []) s
unfolding unescape_from escape_symbol
unescape_from-escape_symbol c result [] = ground arith
unescape_from-escape_symbol c result (d ∷ s) = ground arith

escaped : Bytes → Bytes
escaped [] = []
escaped (c ∷ s) = escape_symbol c ++ escaped s

escape_from-escaped : (s result : Bytes) → escape_from result s ≡ result ++ escaped s
unfolding escape_from escaped
escape_from-escaped [] result = sym (append-nil result)
escape_from-escaped (c ∷ s) result = simp (escape_from-escaped s, append_assoc)

unescape_from-escaped : (s result : Bytes) → unescape_from result (escaped s) ≡ result ++ s
unfolding escaped
unescape_from-escaped [] result = unfold unescape_from in sym (append-nil result)
unescape_from-escaped (c ∷ s) result =
    simp (unescape_from-escape_symbol, unescape_from-escaped s, append_assoc)

-- UnescapeSymbols undoes EscapeSymbols, for every text.
pub unescape_symbols-escape_symbols : (s : Bytes) → unescape_symbols (escape_symbols s) ≡ s
unfolding unescape_symbols escape_symbols
unescape_symbols-escape_symbols s = rw escape_from-escaped (unescape_from-escaped s [])

abbrev IsPlain : ℕ → Type 0
IsPlain c = (c ≢ b'\n') × (c ≢ b'\r')

escape_symbol-IsPlain : (c : ℕ) → All IsPlain (escape_symbol c)
unfolding escape_symbol
escape_symbol-IsPlain c = ground arith
