-- ===== src/Requests/Factories.antt =====
-- The operators and functions of lib/requests/query.h, query.cpp with which clients put expressions
-- together, and Col, Excluded, Case. Each makes an expression and adds its operands one by one.
pub mod Written
pub mod Folded
use my_orm.Prelude.{ℕ, Bool, List, [], ◌∷◌}
use my_orm.Relation.Path.{MessagePath}
use my_orm.Requests.ExpressionType.{
  ExpressionType, singular, excluded, case_, coalesce, greatest, least, add, subtract, multiply,
  divide, modulo, equals, not_equals, less_than_or_equals, greater_than_or_equals, less_than,
  greater_than, and_, or_, not_, in_, exists, max, min, sum, avg, count, abs, round, ceil, floor,
  sqrt, log, random, sin, cos, tan, power, lower, upper, substring, like, ilike, length, replace,
  trim, left, right, position, split_part,
}
use my_orm.Requests.Clause.{Clause, Clauses, null, nil, cons, expression, column, select}

unfoldable pub append : Clauses → Clause → Clauses
append nil c = cons c nil
append (cons d ds) c = cons d (append ds c)

-- TExpression, with SetExpressionType.
abbrev pub begin : ExpressionType → Clause
begin type = expression type nil

-- TExpression::AddOperand; any other clause is no TExpression.
unfoldable pub add_operand : Clause → Clause → Clause
unfolding append
add_operand (expression type operands) operand = expression type (append operands operand)
add_operand other operand = other

unfoldable pub plus : Clause → Clause → Clause
unfolding add_operand
plus a b = add_operand (add_operand (begin add) a) b

unfoldable pub minus : Clause → Clause → Clause
unfolding add_operand
minus a b = add_operand (add_operand (begin subtract) a) b

unfoldable pub times : Clause → Clause → Clause
unfolding add_operand
times a b = add_operand (add_operand (begin multiply) a) b

unfoldable pub divided_by : Clause → Clause → Clause
unfolding add_operand
divided_by a b = add_operand (add_operand (begin divide) a) b

unfoldable pub remainder : Clause → Clause → Clause
unfolding add_operand
remainder a b = add_operand (add_operand (begin modulo) a) b

unfoldable pub equal_to : Clause → Clause → Clause
unfolding add_operand
equal_to a b = add_operand (add_operand (begin equals) a) b

unfoldable pub unequal_to : Clause → Clause → Clause
unfolding add_operand
unequal_to a b = add_operand (add_operand (begin not_equals) a) b

unfoldable pub at_most : Clause → Clause → Clause
unfolding add_operand
at_most a b = add_operand (add_operand (begin less_than_or_equals) a) b

unfoldable pub at_least : Clause → Clause → Clause
unfolding add_operand
at_least a b = add_operand (add_operand (begin greater_than_or_equals) a) b

unfoldable pub below : Clause → Clause → Clause
unfolding add_operand
below a b = add_operand (add_operand (begin less_than) a) b

unfoldable pub above : Clause → Clause → Clause
unfolding add_operand
above a b = add_operand (add_operand (begin greater_than) a) b

unfoldable pub both : Clause → Clause → Clause
unfolding add_operand
both a b = add_operand (add_operand (begin and_) a) b

unfoldable pub either : Clause → Clause → Clause
unfolding add_operand
either a b = add_operand (add_operand (begin or_) a) b

unfoldable pub negation : Clause → Clause
unfolding add_operand
negation a = add_operand (begin not_) a

unfoldable pub in_of : Clause → Clause → Clause
unfolding add_operand
in_of a b = add_operand (add_operand (begin in_) a) b

unfoldable pub exists_of : Clause → Clause
unfolding add_operand
exists_of a = add_operand (begin exists) a

unfoldable pub max_of : Clause → Clause
unfolding add_operand
max_of a = add_operand (begin max) a

unfoldable pub min_of : Clause → Clause
unfolding add_operand
min_of a = add_operand (begin min) a

unfoldable pub sum_of : Clause → Clause
unfolding add_operand
sum_of a = add_operand (begin sum) a

unfoldable pub avg_of : Clause → Clause
unfolding add_operand
avg_of a = add_operand (begin avg) a

unfoldable pub count_of : Clause → Clause
unfolding add_operand
count_of a = add_operand (begin count) a

unfoldable pub abs_of : Clause → Clause
unfolding add_operand
abs_of a = add_operand (begin abs) a

unfoldable pub round_of : Clause → Clause
unfolding add_operand
round_of a = add_operand (begin round) a

unfoldable pub ceil_of : Clause → Clause
unfolding add_operand
ceil_of a = add_operand (begin ceil) a

unfoldable pub floor_of : Clause → Clause
unfolding add_operand
floor_of a = add_operand (begin floor) a

unfoldable pub sqrt_of : Clause → Clause
unfolding add_operand
sqrt_of a = add_operand (begin sqrt) a

unfoldable pub log_of : Clause → Clause
unfolding add_operand
log_of a = add_operand (begin log) a

unfoldable pub log_base : Clause → Clause → Clause
unfolding add_operand
log_base a b = add_operand (add_operand (begin log) a) b

unfoldable pub rand_of : Clause
unfolding add_operand
rand_of = begin random

unfoldable pub sin_of : Clause → Clause
unfolding add_operand
sin_of a = add_operand (begin sin) a

unfoldable pub cos_of : Clause → Clause
unfolding add_operand
cos_of a = add_operand (begin cos) a

unfoldable pub tan_of : Clause → Clause
unfolding add_operand
tan_of a = add_operand (begin tan) a

unfoldable pub pow_of : Clause → Clause → Clause
unfolding add_operand
pow_of a b = add_operand (add_operand (begin power) a) b

unfoldable pub lower_of : Clause → Clause
unfolding add_operand
lower_of a = add_operand (begin lower) a

unfoldable pub upper_of : Clause → Clause
unfolding add_operand
upper_of a = add_operand (begin upper) a

unfoldable pub substr_of : Clause → Clause → Clause → Clause
unfolding add_operand
substr_of a b c = add_operand (add_operand (add_operand (begin substring) a) b) c

unfoldable pub like_of : Clause → Clause → Clause
unfolding add_operand
like_of a b = add_operand (add_operand (begin like) a) b

unfoldable pub ilike_of : Clause → Clause → Clause
unfolding add_operand
ilike_of a b = add_operand (add_operand (begin ilike) a) b

unfoldable pub len_of : Clause → Clause
unfolding add_operand
len_of a = add_operand (begin length) a

unfoldable pub replace_of : Clause → Clause → Clause → Clause
unfolding add_operand
replace_of a b c = add_operand (add_operand (add_operand (begin replace) a) b) c

unfoldable pub trim_of : Clause → Clause
unfolding add_operand
trim_of a = add_operand (begin trim) a

unfoldable pub left_of : Clause → Clause → Clause
unfolding add_operand
left_of a b = add_operand (add_operand (begin left) a) b

unfoldable pub right_of : Clause → Clause → Clause
unfolding add_operand
right_of a b = add_operand (add_operand (begin right) a) b

unfoldable pub pos_of : Clause → Clause → Clause
unfolding add_operand
pos_of a b = add_operand (add_operand (begin position) a) b

unfoldable pub split_part_of : Clause → Clause → Clause → Clause
unfolding add_operand
split_part_of a b c = add_operand (add_operand (add_operand (begin split_part) a) b) c

-- TWhenCase and TThenCase, by the expression that they hold.
pub record WhenCase : Type 0 where
  pub case_expression : Clause

pub record ThenCase : Type 0 where
  pub when_expression : Clause

abbrev pub case_of : WhenCase
case_of = record { case_expression = begin case_ }

unfoldable pub when_of : WhenCase → Clause → ThenCase
unfolding add_operand
when_of w condition = record { when_expression = add_operand w.case_expression condition }

unfoldable pub then_of : ThenCase → Clause → WhenCase
unfolding add_operand
then_of t result = record { case_expression = add_operand t.when_expression result }

unfoldable pub else_of : WhenCase → Clause → Clause
unfolding add_operand
else_of w result = add_operand w.case_expression result

-- The chain `.When(condition).Then(result)`, for each branch.
unfoldable pub branches : WhenCase → List (Clause × Clause) → WhenCase
unfolding when_of then_of
branches w [] = w
branches w (branch ∷ rest) = branches (then_of (when_of w branch.0) branch.1) rest

-- Coalesce, Greatest and Least: the fold over their arguments.
unfoldable pub add_operands : Clause → List Clause → Clause
unfolding add_operand
add_operands e [] = e
add_operands e (c ∷ cs) = add_operands (add_operand e c) cs

unfoldable pub coalesce_of : List Clause → Clause
unfolding add_operands
coalesce_of args = add_operands (begin coalesce) args

unfoldable pub greatest_of : List Clause → Clause
unfolding add_operands
greatest_of args = add_operands (begin greatest) args

unfoldable pub least_of : List Clause → Clause
unfolding add_operands
least_of args = add_operands (begin least) args

unfoldable pub col : MessagePath → Clause
col path = column path singular

unfoldable pub excluded_of : MessagePath → Clause
excluded_of path = column path excluded
