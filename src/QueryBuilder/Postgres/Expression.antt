-- ===== src/QueryBuilder/Postgres/Expression.antt =====
-- BuildExpression (lib/query_builder/builders/postgres.cpp): how many operands each type of expression
-- takes, and the text around their texts. Cases of the switch that differ in a word only share a
-- constructor of Template.
use my_orm.Prelude.{
  ℕ, ◌%◌, Bool, ◌&&◌, ◌||◌, Option, none, some, List, [], ◌∷◌, ◌++◌, Bytes, codes, leb, ◌==◌,
  nat_eq,
}
use my_orm.Requests.ExpressionType.{
  ExpressionType, unknown, add, subtract, multiply, divide, modulo, exponent, equals, not_equals,
  greater_than, less_than, greater_than_or_equals, less_than_or_equals, and_, or_, not_, like,
  ilike, similar_to, regexp_match, is_null, is_not_null, between, in_, not_in, exists, count, sum,
  avg, min, max, array_agg, string_agg, json_agg, abs, round, ceil, floor, sqrt, log, random, sin,
  cos, tan, power, concat, lower, upper, substring, length, replace, trim, left, right, position,
  split_part, case_, coalesce, greatest, least, unrecognized,
}
use my_orm.QueryBuilder.Postgres.Text.{join}

pub data Template : Type 0 where
  -- ({} word {})
  infix_of : Bytes → Template
  -- word{}, {}word
  prefix_of postfix_of : Bytes → Template
  -- ({} BETWEEN {} AND {})
  between_of : Template
  -- {} word ({}, ...)
  membership : Bytes → Template
  -- word({}, ...) of exactly, and of at least, so many operands
  function variadic : Bytes → ℕ → Template
  substring_of round_of log_of position_of case_of : Template

unfoldable pub template : ExpressionType → Option Template
template unknown = none
template add = some (infix_of (codes " + "))
template subtract = some (infix_of (codes " - "))
template multiply = some (infix_of (codes " * "))
template divide = some (infix_of (codes " / "))
template modulo = some (infix_of (codes " % "))
template exponent = some (function (codes "POWER") 2)
template power = some (function (codes "POWER") 2)
template equals = some (infix_of (codes " = "))
template not_equals = some (infix_of (codes " <> "))
template greater_than = some (infix_of (codes " > "))
template less_than = some (infix_of (codes " < "))
template greater_than_or_equals = some (infix_of (codes " >= "))
template less_than_or_equals = some (infix_of (codes " <= "))
template and_ = some (infix_of (codes " AND "))
template or_ = some (infix_of (codes " OR "))
template not_ = some (prefix_of (codes "NOT "))
template like = some (infix_of (codes " LIKE "))
template ilike = some (infix_of (codes " ILIKE "))
template similar_to = some (infix_of (codes " SIMILAR TO "))
template regexp_match = some (infix_of (codes " ~ "))
template is_null = some (postfix_of (codes " IS NULL"))
template is_not_null = some (postfix_of (codes " IS NOT NULL"))
template between = some between_of
template in_ = some (membership (codes " IN "))
template not_in = some (membership (codes " NOT IN "))
template exists = some (function (codes "EXISTS ") 1)
template count = some (function (codes "COUNT") 1)
template sum = some (function (codes "SUM") 1)
template avg = some (function (codes "AVG") 1)
template min = some (function (codes "MIN") 1)
template max = some (function (codes "MAX") 1)
template array_agg = some (function (codes "ARRAY_AGG") 1)
template string_agg = some (function (codes "STRING_AGG") 2)
template json_agg = some (function (codes "JSON_AGG") 1)
template abs = some (function (codes "ABS") 1)
template round = some round_of
template ceil = some (function (codes "CEIL") 1)
template floor = some (function (codes "FLOOR") 1)
template sqrt = some (function (codes "SQRT") 1)
template log = some log_of
template random = some (function (codes "RANDOM") 0)
template sin = some (function (codes "SIN") 1)
template cos = some (function (codes "COS") 1)
template tan = some (function (codes "TAN") 1)
template concat = some (variadic (codes "CONCAT") 2)
template lower = some (function (codes "LOWER") 1)
template upper = some (function (codes "UPPER") 1)
template substring = some substring_of
template length = some (function (codes "LENGTH") 1)
template replace = some (function (codes "REPLACE") 3)
template trim = some (function (codes "TRIM") 1)
template left = some (function (codes "LEFT") 2)
template right = some (function (codes "RIGHT") 2)
template position = some position_of
template split_part = some (function (codes "SPLIT_PART") 3)
template case_ = some case_of
template coalesce = some (variadic (codes "COALESCE") 1)
template greatest = some (variadic (codes "GREATEST") 1)
template least = some (variadic (codes "LEAST") 1)
template (unrecognized n) = none

-- The ASSERT of the case on operands.size().
unfoldable pub accepts : Template → ℕ → Bool
accepts (infix_of word) n = n == 2
accepts (prefix_of word) n = n == 1
accepts (postfix_of word) n = n == 1
accepts between_of n = n == 3
accepts (membership word) n = leb 2 n
accepts (function word k) n = n == k
accepts (variadic word k) n = leb k n
accepts substring_of n = n == 3 || n == 2
accepts round_of n = n == 2 || n == 1
accepts log_of n = n == 1 || n == 2
accepts position_of n = n == 2
accepts case_of n = leb 3 n && n % 2 == 1

abbrev pub parens : Bytes → Bytes
parens text = codes "(" ++ text ++ codes ")"

-- The loop of CASE, two operands at a time, and the part behind it.
unfoldable pub case_text : List Bytes → Bytes
case_text [] = []
case_text (otherwise ∷ []) = codes " ELSE " ++ otherwise ++ codes " END"
case_text (condition ∷ value ∷ rest) =
    codes " WHEN " ++ condition ++ codes " THEN " ++ value ++ case_text rest

-- The text of an expression whose count of operands was accepted.
unfoldable pub fill : Template → List Bytes → Bytes
unfolding join case_text
fill (infix_of word) (a ∷ b ∷ ts) = parens (a ++ word ++ b)
fill (prefix_of word) (a ∷ ts) = word ++ a
fill (postfix_of word) (a ∷ ts) = a ++ word
fill between_of (a ∷ b ∷ c ∷ ts) = parens (a ++ codes " BETWEEN " ++ b ++ codes " AND " ++ c)
fill (membership word) (a ∷ ts) = a ++ word ++ parens (join (codes ", ") ts)
fill (function word k) ts = word ++ parens (join (codes ", ") ts)
fill (variadic word k) ts = word ++ parens (join (codes ", ") ts)
fill substring_of (a ∷ b ∷ c ∷ ts) =
    codes "SUBSTRING" ++ parens (a ++ codes " FROM " ++ b ++ codes " FOR " ++ c)
fill substring_of (a ∷ b ∷ []) = codes "SUBSTRING" ++ parens (a ++ codes " FROM " ++ b)
fill round_of ts = codes "ROUND" ++ parens (join (codes ", ") ts)
fill log_of (a ∷ []) = codes "LN" ++ parens a
fill log_of (a ∷ b ∷ ts) = codes "LOG" ++ parens (b ++ codes ", " ++ a)
fill position_of (a ∷ b ∷ ts) = codes "POSITION" ++ parens (a ++ codes " IN " ++ b)
fill case_of ts = codes "CASE" ++ case_text ts
fill other ts = []
