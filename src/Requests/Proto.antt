-- ===== src/Requests/Proto.antt =====
-- ToProto and FromProto of lib/requests/query.cpp: a clause tree is written into the flat list
-- `clauses` of a protobuf TQuery, operands before what refers to them, and is read back from an
-- index into that list. The C++ FromProto recurs without a bound; here it recurs on fuel.
pub mod Receive
mod Reads
pub mod Sent
pub mod Delivered
pub mod Termination
use my_orm.Prelude.{
  ℕ, zero, suc, ◌+◌, ◌-◌, Bool, Option, none, some, List, [], ◌∷◌, ◌++◌, Bytes, length, get_elem?,
  Outcome, ok, err, ◌>>=◌, ◌>>◌,
}
use my_orm.Prelude.Int.{ℤ}
use my_orm.Relation.Path.{MessagePath}
use my_orm.Requests.Attribute.{
  Attribute, ProtoAttribute, ObjectInfo, Fault, null_clause, out_of_range, unknown_clause,
  out_of_fuel, attribute_to_proto, attribute_from_proto,
}
use my_orm.Requests.ExpressionType.{ExpressionType, ColumnType}
use my_orm.Requests.Message.{ProtoClause, ProtoQuery}
use my_orm.Requests.Clause.{
  Clause, null, string, integer, float, bool, expression, column, all, default, select, insert,
  update, delete, truncate, start_transaction, commit_transaction, rollback_transaction, Clauses,
  nil, cons,
}

-- What the code uses of the machine, of protobuf and of the relation manager: the conversions
-- between double and float, the objects at the paths, and ParseFromString.
pub record Environment : Type 0 where
  pub narrow : ℕ → ℕ
  pub widen : ℕ → ℕ
  pub objects : MessagePath → Option ObjectInfo
  pub parse : MessagePath → Bytes → Option Bytes

abbrev pub Output : Type 0
Output = List ProtoClause

-- The loop over the attributes of a subrequest, and over the subrequests.
unfoldable pub attributes_to_proto : List Attribute → List ProtoAttribute
attributes_to_proto [] = []
attributes_to_proto (a ∷ as') = attribute_to_proto a ∷ attributes_to_proto as'

unfoldable pub subrequests_to_proto : List (List Attribute) → List (List ProtoAttribute)
unfolding attributes_to_proto
subrequests_to_proto [] = []
subrequests_to_proto (r ∷ rs) = attributes_to_proto r ∷ subrequests_to_proto rs

-- `if (Where_) { Where_.ToProto(output); set_where(clauses_size() - 1); }`, given what the call
-- does to the output.
unfoldable pub optional_to_proto :
    Clause → Outcome Fault Output → Output → Outcome Fault (Output × Option ℕ)
optional_to_proto null written out = ok (out, none)
optional_to_proto c written out = do out' ← written; ok (out', some (length out' - 1))

unfoldable mutual
  unfolding subrequests_to_proto optional_to_proto

  pub to_proto : Environment → Clause → Output → Outcome Fault Output
  to_proto env null out = err null_clause
  to_proto env (string s) out = ok (out ++ ProtoClause.string s ∷ [])
  to_proto env (integer z) out = ok (out ++ ProtoClause.integer z ∷ [])
  to_proto env (float x) out = ok (out ++ ProtoClause.float (env.narrow x) ∷ [])
  to_proto env (bool b) out = ok (out ++ ProtoClause.bool b ∷ [])
  to_proto env (expression t operands) out = do
    (out', indices) ← operands_to_proto env operands out []
    ok (out' ++ ProtoClause.expression t indices ∷ [])
  to_proto env (column p t) out = ok (out ++ ProtoClause.column p t ∷ [])
  to_proto env all out = ok (out ++ ProtoClause.all ∷ [])
  to_proto env default out = ok (out ++ ProtoClause.default ∷ [])
  to_proto env (select table selectors w g h o l) out = do
    (out₀, selectors') ← operands_to_proto env selectors out []
    (out₁, w') ← optional_to_proto w (to_proto env w out₀) out₀
    (out₂, g') ← optional_to_proto g (to_proto env g out₁) out₁
    (out₃, h') ← optional_to_proto h (to_proto env h out₂) out₂
    (out₄, o') ← optional_to_proto o (to_proto env o out₃) out₃
    (out₅, l') ← optional_to_proto l (to_proto env l out₄) out₄
    ok (out₅ ++ ProtoClause.select 0 selectors' w' g' h' o' l' ∷ [])
  to_proto env (insert table upd rs) out =
      ok (out ++ ProtoClause.insert table upd (subrequests_to_proto rs) ∷ [])
  to_proto env (update table rs) out =
      ok (out ++ ProtoClause.update table (subrequests_to_proto rs) ∷ [])
  to_proto env (delete table w) out = do
    (out₁, w') ← optional_to_proto w (to_proto env w out) out
    ok (out₁ ++ ProtoClause.delete table w' ∷ [])
  to_proto env (truncate table) out = ok (out ++ ProtoClause.truncate table ∷ [])
  to_proto env start_transaction out = ok (out ++ ProtoClause.start_transaction ∷ [])
  to_proto env commit_transaction out = ok (out ++ ProtoClause.commit_transaction ∷ [])
  to_proto env rollback_transaction out = ok (out ++ ProtoClause.rollback_transaction ∷ [])

  -- The loop that writes each operand and adds the index of its last clause.
  pub operands_to_proto : Environment → Clauses → Output → List ℕ → Outcome Fault (Output × List ℕ)
  operands_to_proto env nil out indices = ok (out, indices)
  operands_to_proto env (cons c cs) out indices = do
    out' ← to_proto env c out
    operands_to_proto env cs out' (indices ++ (length out' - 1) ∷ [])

-- TQueryImpl::ToProto
unfoldable pub query_to_proto : Environment → Clauses → ProtoQuery → Outcome Fault ProtoQuery
unfolding to_proto
query_to_proto env cs output = do
  (out, points) ← operands_to_proto env cs output.clauses output.start_points
  ok (record { clauses = out; start_points = points })

-- The loop of CreateClauseFromProto over the indices of operands; `create` is the call of
-- CreateClauseFromProto.
unfoldable pub create_all : (ℕ → Outcome Fault Clause) → List ℕ → Outcome Fault Clauses
create_all create [] = ok nil
create_all create (i ∷ is) = do c ← create i; cs ← create_all create is; ok (cons c cs)

-- `if (select.has_where()) { Where_ = CreateClauseFromProto(input, select.where()); }`
unfoldable pub create_optional : (ℕ → Outcome Fault Clause) → Option ℕ → Outcome Fault Clause
create_optional create none = ok null
create_optional create (some i) = create i

unfoldable pub attributes_from_proto :
    Environment → List ProtoAttribute → Outcome Fault (List Attribute)
attributes_from_proto env [] = ok []
attributes_from_proto env (a ∷ as') = do
  b ← attribute_from_proto env.objects env.parse a
  bs ← attributes_from_proto env as'
  ok (b ∷ bs)

unfoldable pub subrequests_from_proto :
    Environment → List (List ProtoAttribute) → Outcome Fault (List (List Attribute))
unfolding attributes_from_proto
subrequests_from_proto env [] = ok []
subrequests_from_proto env (r ∷ rs) = do
  b ← attributes_from_proto env r
  bs ← subrequests_from_proto env rs
  ok (b ∷ bs)

-- The FromProto of each class, on a clause that was just made; the Table_ of a select keeps the
-- zero of make_shared. The kinds `all` and `default` have no case in CreateClauseFromProto.
unfoldable pub read_clause :
    Environment → (ℕ → Outcome Fault Clause) → ProtoClause → Outcome Fault Clause
unfolding create_all create_optional subrequests_from_proto
read_clause env create (ProtoClause.string s) = ok (string s)
read_clause env create (ProtoClause.integer z) = ok (integer z)
read_clause env create (ProtoClause.float x) = ok (float (env.widen x))
read_clause env create (ProtoClause.bool b) = ok (bool b)
read_clause env create (ProtoClause.expression t indices) = do
  operands ← create_all create indices
  ok (expression t operands)
read_clause env create (ProtoClause.column p t) = ok (column p t)
read_clause env create (ProtoClause.select table selectors w g h o l) = do
  selectors' ← create_all create selectors
  w' ← create_optional create w
  g' ← create_optional create g
  h' ← create_optional create h
  o' ← create_optional create o
  l' ← create_optional create l
  ok (select 0 selectors' w' g' h' o' l')
read_clause env create (ProtoClause.insert table upd rs) = do
  rs' ← subrequests_from_proto env rs
  ok (insert table upd rs')
read_clause env create (ProtoClause.update table rs) = do
  rs' ← subrequests_from_proto env rs
  ok (update table rs')
read_clause env create (ProtoClause.delete table w) = do
  w' ← create_optional create w
  ok (delete table w')
read_clause env create (ProtoClause.truncate table) = ok (truncate table)
read_clause env create ProtoClause.start_transaction = ok start_transaction
read_clause env create ProtoClause.commit_transaction = ok commit_transaction
read_clause env create ProtoClause.rollback_transaction = ok rollback_transaction
read_clause env create _ = err unknown_clause

-- CreateClauseFromProto
unfoldable pub create_clause : Environment → ℕ → List ProtoClause → ℕ → Outcome Fault Clause
unfolding read_clause
create_clause env zero input i = err out_of_fuel
create_clause env (suc fuel) input i = elim (get_elem? input i) [
  | none ↦ err out_of_range
  | some c ↦ read_clause env (create_clause env fuel input) c
]

-- TQueryImpl::FromProto
unfoldable pub query_from_proto : Environment → ℕ → ProtoQuery → Outcome Fault Clauses
unfolding create_clause
query_from_proto env fuel input =
    create_all (create_clause env fuel input.clauses) input.start_points
