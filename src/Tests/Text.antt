-- ===== src/Tests/Text.antt =====
-- Texts as in tests/common/format_test.cpp.
use my_orm.Prelude.{◌≡◌, refl, codes}
use my_orm.Common.Text.{escape_symbols, unescape_symbols}
use my_orm.Common.Text.Escape.{unescape_symbols-escape_symbols}

escape_newline : escape_symbols (codes "a\nb\\") ≡ codes "a\\nb\\\\"
unfolding escape_symbols
escape_newline = refl

unescape_symbols-escape_symbols_example :
    unescape_symbols (escape_symbols (codes "a\nb\\")) ≡ codes "a\nb\\"
unescape_symbols-escape_symbols_example = unescape_symbols-escape_symbols (codes "a\nb\\")
