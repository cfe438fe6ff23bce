-- ===== src/Tests/Requests.antt =====
-- A query with an insert, a delete and a select goes to protobuf and back.
use mathlib.Core.Path.{subst}
use mathlib.Core.Option.{some-injective}
use my_orm.Prelude.{◌≡◌, ◌≢◌, refl, true, some, [], ◌∷◌, List, length, ok, err, arith, zero, suc}
use my_orm.Prelude.Int.{pos, negsuc}
use my_orm.Requests.Attribute.{
  Attribute, Data, primitive_field, int32_info, out_of_fuel, attribute_from_proto,
  attribute_to_proto,
}
use my_orm.Requests.Attribute.Payload.{attribute_from_proto-attribute_to_proto}
use my_orm.Requests.ExpressionType.{ExpressionType, ColumnType}
use my_orm.Requests.Message.{ProtoClause, ProtoQuery}
use my_orm.Requests.Clause.{Clause, Clauses}
use my_orm.Requests.Proto.{Environment, query_to_proto, query_from_proto, create_clause}
use my_orm.Requests.Proto.Receive.{receive_all}
use my_orm.Requests.Proto.Sent.{empty_query, query_from_proto-query_to_proto}
use my_orm.Requests.Proto.Delivered.{delivered_all, query_roundtrip}
use my_orm.Requests.Proto.Termination.{
  IsBackward, RefersBelow, create_clause_loops, create_clause_ends,
}

-- Every path is a field of type int32, and doubles are floats.
abbrev env : Environment
env = record {
  narrow = λ x. x;
  widen = λ x. x;
  objects = λ p. some (primitive_field int32_info);
  parse = λ p s. some s;
}

abbrev attribute : Attribute
attribute = record { path = 1 ∷ 2 ∷ []; value = Data.int32 (negsuc 4) }

abbrev equality : Clause
equality = Clause.expression ExpressionType.equals (
    Clauses.cons (Clause.column (1 ∷ 2 ∷ []) ColumnType.singular)
      (Clauses.cons (Clause.integer (pos 7)) Clauses.nil))

abbrev query : Clauses
query = Clauses.cons (Clause.insert 1 true ((attribute ∷ []) ∷ [])) (
    Clauses.cons (Clause.delete 1 equality) (
      Clauses.cons
        (Clause.select 1 (Clauses.cons equality Clauses.nil) equality Clause.null Clause.null
          Clause.null Clause.null)
        Clauses.nil))

attribute_from_proto-attribute_to_proto_example :
    attribute_from_proto env.objects env.parse (attribute_to_proto attribute) ≡ ok attribute
attribute_from_proto-attribute_to_proto_example =
    attribute_from_proto-attribute_to_proto env.objects env.parse attribute (refl, omega arith, tt)

query_roundtrip_example :
    (q : ProtoQuery) × (query_to_proto env query empty_query ≡ ok q)
    × (query_from_proto env (length q.clauses) q ≡ ok (delivered_all env query))
query_roundtrip_example = query_roundtrip env query (
  (((refl, omega arith, tt), tt), tt),
  ((tt, (tt, tt)), ((((tt, (tt, tt)), tt), (tt, (tt, tt)), tt, tt, tt, tt), tt)),
)

query_from_proto-query_to_proto_example :
    (q : ProtoQuery) × (query_to_proto env (Clauses.cons Clause.all Clauses.nil) empty_query ≡ ok q)
    × (query_from_proto env (length q.clauses) q
        ≡ receive_all env (Clauses.cons Clause.all Clauses.nil))
query_from_proto-query_to_proto_example =
    query_from_proto-query_to_proto env (Clauses.cons Clause.all Clauses.nil) (tt, tt)

abbrev looping : List ProtoClause
looping = ProtoClause.expression ExpressionType.not_ (0 ∷ []) ∷ []

create_clause_loops_example : create_clause env 9 looping 0 ≡ err out_of_fuel
create_clause_loops_example = create_clause_loops env looping 0 ExpressionType.not_ [] refl 9

abbrev backward : List ProtoClause
backward = ProtoClause.bool true ∷ ProtoClause.expression ExpressionType.not_ (0 ∷ []) ∷ []

backward-IsBackward : IsBackward backward
backward-IsBackward zero c h = subst (RefersBelow 0) (some-injective _ _ h) tt
backward-IsBackward (suc zero) c h = subst (RefersBelow 1) (some-injective _ _ h) (omega arith, tt)
backward-IsBackward (suc (suc i)) c h = cc

create_clause_ends_example : create_clause env 2 backward 1 ≢ err out_of_fuel
create_clause_ends_example = create_clause_ends env backward backward-IsBackward 2 1 (omega arith)
