-- ===== src/QueryBuilder/Postgres/Balance/Expressions.antt =====
-- About quotes and parentheses in expressions (BuildExpression in
-- lib/query_builder/builders/postgres.cpp).
use my_orm.Prelude.{◌≡◌, refl, Bool, true, Option, none, some, List, [], ◌∷◌, Bytes, codes, All}
use my_orm.Requests.ExpressionType.{
  ExpressionType, unknown, add, subtract, multiply, divide, modulo, exponent, equals, not_equals,
  greater_than, less_than, greater_than_or_equals, less_than_or_equals, and_, or_, not_, like,
  ilike, similar_to, regexp_match, is_null, is_not_null, between, in_, not_in, exists, count, sum,
  avg, min, max, array_agg, string_agg, json_agg, abs, round, ceil, floor, sqrt, log, random, sin,
  cos, tan, power, concat, lower, upper, substring, length, replace, trim, left, right, position,
  split_part, case_, coalesce, greatest, least, unrecognized,
}
use my_orm.QueryBuilder.Postgres.Text.{join}
use my_orm.QueryBuilder.Postgres.Expression.{
  Template, infix_of, prefix_of, postfix_of, between_of, membership, function, variadic,
  substring_of, round_of, log_of, position_of, case_of, template, case_text, fill,
}
use my_orm.QueryBuilder.Postgres.Balance.{
  IsNeutral, nil-IsNeutral, ◌&&&◌, is_plain, plain-IsNeutral, join-IsNeutral, parens-IsNeutral,
}

-- The word of a template holds neither quotes nor parentheses.
abbrev has_plain_word : Template → Bool
has_plain_word (infix_of word) = is_plain word
has_plain_word (prefix_of word) = is_plain word
has_plain_word (postfix_of word) = is_plain word
has_plain_word (membership word) = is_plain word
has_plain_word (function word k) = is_plain word
has_plain_word (variadic word k) = is_plain word
has_plain_word other = true

abbrev all_plain : Option Template → Bool
all_plain none = true
all_plain (some t) = has_plain_word t

template_plain : (type : ExpressionType) → all_plain (template type) ≡ true
unfolding template
template_plain unknown = refl
template_plain add = refl
template_plain subtract = refl
template_plain multiply = refl
template_plain divide = refl
template_plain modulo = refl
template_plain exponent = refl
template_plain power = refl
template_plain equals = refl
template_plain not_equals = refl
template_plain greater_than = refl
template_plain less_than = refl
template_plain greater_than_or_equals = refl
template_plain less_than_or_equals = refl
template_plain and_ = refl
template_plain or_ = refl
template_plain not_ = refl
template_plain like = refl
template_plain ilike = refl
template_plain similar_to = refl
template_plain regexp_match = refl
template_plain is_null = refl
template_plain is_not_null = refl
template_plain between = refl
template_plain in_ = refl
template_plain not_in = refl
template_plain exists = refl
template_plain count = refl
template_plain sum = refl
template_plain avg = refl
template_plain min = refl
template_plain max = refl
template_plain array_agg = refl
template_plain string_agg = refl
template_plain json_agg = refl
template_plain abs = refl
template_plain round = refl
template_plain ceil = refl
template_plain floor = refl
template_plain sqrt = refl
template_plain log = refl
template_plain random = refl
template_plain sin = refl
template_plain cos = refl
template_plain tan = refl
template_plain concat = refl
template_plain lower = refl
template_plain upper = refl
template_plain substring = refl
template_plain length = refl
template_plain replace = refl
template_plain trim = refl
template_plain left = refl
template_plain right = refl
template_plain position = refl
template_plain split_part = refl
template_plain case_ = refl
template_plain coalesce = refl
template_plain greatest = refl
template_plain least = refl
template_plain (unrecognized n) = refl

pub word_plain :
    (type : ExpressionType) (t : Template) → template type ≡ some t → has_plain_word t ≡ true
word_plain type t h = rw h at (template_plain type)

pub comma-IsNeutral : IsNeutral (codes ", ")
comma-IsNeutral = plain-IsNeutral (codes ", ") refl

pub list-IsNeutral : (ts : List Bytes) → All IsNeutral ts → IsNeutral (join (codes ", ") ts)
list-IsNeutral ts h = join-IsNeutral (codes ", ") comma-IsNeutral ts h

case_text-IsNeutral : (ts : List Bytes) → All IsNeutral ts → IsNeutral (case_text ts)
unfolding case_text
case_text-IsNeutral [] h = nil-IsNeutral
case_text-IsNeutral (a ∷ []) (p, h) =
    plain-IsNeutral (codes " ELSE ") refl &&& p &&& plain-IsNeutral (codes " END") refl
case_text-IsNeutral (a ∷ b ∷ ts) (p, (q, h)) =
    plain-IsNeutral (codes " WHEN ") refl
    &&& p
    &&& plain-IsNeutral (codes " THEN ") refl
    &&& q
    &&& case_text-IsNeutral ts h

pub fill-IsNeutral :
    (t : Template) (ts : List Bytes)
    → has_plain_word t ≡ true
    → All IsNeutral ts
    → IsNeutral (fill t ts)
unfolding fill
fill-IsNeutral (infix_of word) [] w h = nil-IsNeutral
fill-IsNeutral (infix_of word) (a ∷ []) w h = nil-IsNeutral
fill-IsNeutral (infix_of word) (a ∷ b ∷ ts) w (p, (q, h)) =
    parens-IsNeutral _ (p &&& plain-IsNeutral word w &&& q)
fill-IsNeutral (prefix_of word) [] w h = nil-IsNeutral
fill-IsNeutral (prefix_of word) (a ∷ ts) w (p, h) = plain-IsNeutral word w &&& p
fill-IsNeutral (postfix_of word) [] w h = nil-IsNeutral
fill-IsNeutral (postfix_of word) (a ∷ ts) w (p, h) = p &&& plain-IsNeutral word w
fill-IsNeutral between_of [] w h = nil-IsNeutral
fill-IsNeutral between_of (a ∷ []) w h = nil-IsNeutral
fill-IsNeutral between_of (a ∷ b ∷ []) w h = nil-IsNeutral
fill-IsNeutral between_of (a ∷ b ∷ c ∷ ts) w (p, (q, (r, h))) = parens-IsNeutral _ (
    p
    &&& plain-IsNeutral (codes " BETWEEN ") refl
    &&& q
    &&& plain-IsNeutral (codes " AND ") refl
    &&& r)
fill-IsNeutral (membership word) [] w h = nil-IsNeutral
fill-IsNeutral (membership word) (a ∷ ts) w (p, h) =
    p &&& plain-IsNeutral word w &&& parens-IsNeutral _ (list-IsNeutral ts h)
fill-IsNeutral (function word k) ts w h =
    plain-IsNeutral word w &&& parens-IsNeutral _ (list-IsNeutral ts h)
fill-IsNeutral (variadic word k) ts w h =
    plain-IsNeutral word w &&& parens-IsNeutral _ (list-IsNeutral ts h)
fill-IsNeutral substring_of [] w h = nil-IsNeutral
fill-IsNeutral substring_of (a ∷ []) w h = nil-IsNeutral
fill-IsNeutral substring_of (a ∷ b ∷ []) w (p, (q, h)) =
    plain-IsNeutral (codes "SUBSTRING") refl
    &&& parens-IsNeutral _ (p &&& plain-IsNeutral (codes " FROM ") refl &&& q)
fill-IsNeutral substring_of (a ∷ b ∷ c ∷ ts) w (p, (q, (r, h))) =
    plain-IsNeutral (codes "SUBSTRING") refl
    &&& parens-IsNeutral _ (
        p
        &&& plain-IsNeutral (codes " FROM ") refl
        &&& q
        &&& plain-IsNeutral (codes " FOR ") refl
        &&& r)
fill-IsNeutral round_of ts w h =
    plain-IsNeutral (codes "ROUND") refl &&& parens-IsNeutral _ (list-IsNeutral ts h)
fill-IsNeutral log_of [] w h = nil-IsNeutral
fill-IsNeutral log_of (a ∷ []) w (p, h) = plain-IsNeutral (codes "LN") refl &&& parens-IsNeutral a p
fill-IsNeutral log_of (a ∷ b ∷ ts) w (p, (q, h)) =
    plain-IsNeutral (codes "LOG") refl &&& parens-IsNeutral _ (q &&& comma-IsNeutral &&& p)
fill-IsNeutral position_of [] w h = nil-IsNeutral
fill-IsNeutral position_of (a ∷ []) w h = nil-IsNeutral
fill-IsNeutral position_of (a ∷ b ∷ ts) w (p, (q, h)) =
    plain-IsNeutral (codes "POSITION") refl
    &&& parens-IsNeutral _ (p &&& plain-IsNeutral (codes " IN ") refl &&& q)
fill-IsNeutral case_of ts w h = plain-IsNeutral (codes "CASE") refl &&& case_text-IsNeutral ts h
