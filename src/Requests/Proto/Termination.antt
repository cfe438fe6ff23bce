-- ===== src/Requests/Proto/Termination.antt =====
-- About the recursion of CreateClauseFromProto (lib/requests/query.cpp).
use my_orm.Prelude.{
  ℕ, zero, suc, ◌<◌, ◌≡◌, ◌≢◌, refl, List, [], ◌∷◌, Option, none, some, All, get_elem?, Outcome, ok,
  err, ◌>>=◌, arith, Bytes, Option-cases, inl, inr,
}
use my_orm.Requests.Attribute.{
  Fault, out_of_fuel, ProtoAttribute, ValueInfo, bool_info, int32_info, uint32_info, int64_info,
  uint64_info, float_info, double_info, message_object, primitive_field, read32, read64,
  read_payload, attribute_from_proto,
}
use my_orm.Requests.ExpressionType.{ExpressionType}
use my_orm.Requests.Message.{ProtoClause}
use my_orm.Requests.Clause.{Clause}
use my_orm.Requests.Proto.{
  Environment, create_all, create_optional, attributes_from_proto, subrequests_from_proto,
  read_clause, create_clause,
}

-- An expression whose first operand is itself is never read: the recursion does not end, however
-- deep it may go, whatever else the input holds.
pub create_clause_loops :
    (env : Environment) (input : List ProtoClause) (i : ℕ) (t : ExpressionType) (is : List ℕ)
    → get_elem? input i ≡ some (ProtoClause.expression t (i ∷ is))
    → (fuel : ℕ) → create_clause env fuel input i ≡ err out_of_fuel
unfolding create_clause
create_clause_loops env input i t is h zero = refl
create_clause_loops env input i t is h (suc fuel) =
    rw (h, create_clause) (rw (create_clause_loops env input i t is h fuel))

abbrev Ends : {A : Type 0} → Outcome Fault A → Type 0
Ends r = r ≢ err out_of_fuel

abbrev pub OptionBelow : ℕ → Option ℕ → Type 0
OptionBelow n none = Unit
OptionBelow n (some i) = i < n

-- Every index in the clause lies below `n`.
abbrev pub RefersBelow : ℕ → ProtoClause → Type 0
RefersBelow n (ProtoClause.expression t is) = All (λ i. i < n) is
RefersBelow n (ProtoClause.select table is w g h o l) =
    All (λ i. i < n) is
    × OptionBelow n w
    × OptionBelow n g
    × OptionBelow n h
    × OptionBelow n o
    × OptionBelow n l
RefersBelow n (ProtoClause.delete table w) = OptionBelow n w
RefersBelow n _ = Unit

>>=-Ends :
    {A B : Type 0} (m : Outcome Fault A) (f : A → Outcome Fault B)
    → Ends m
    → ((a : A) → Ends (f a))
    → Ends (m >>= f)
>>=-Ends (ok a) f h k = k a
>>=-Ends (err e) f h k = λ p. ground arith

read32-Ends : (s : Bytes) → Ends (read32 s)
unfolding read32
read32-Ends s = ground arith

read64-Ends : (s : Bytes) → Ends (read64 s)
unfolding read64
read64-Ends s = ground arith

read_payload-Ends : (info : ValueInfo) (s : Bytes) → Ends (read_payload info s)
unfolding read_payload
read_payload-Ends bool_info s = λ p. cc
read_payload-Ends int32_info s = >>=-Ends _ _ (read32-Ends s) (λ n p. cc)
read_payload-Ends uint32_info s = >>=-Ends _ _ (read32-Ends s) (λ n p. cc)
read_payload-Ends uint64_info s = >>=-Ends _ _ (read64-Ends s) (λ n p. cc)
read_payload-Ends int64_info s = >>=-Ends _ _ (read64-Ends s) (λ n p. cc)
read_payload-Ends float_info s = >>=-Ends _ _ (read32-Ends s) (λ n p. cc)
read_payload-Ends double_info s = >>=-Ends _ _ (read64-Ends s) (λ n p. cc)
read_payload-Ends _ s = λ p. cc

attribute-Ends :
    (env : Environment) (a : ProtoAttribute) → Ends (attribute_from_proto env.objects env.parse a)
unfolding attribute_from_proto
attribute-Ends env a = elim (Option-cases (env.objects a.path)) [
  | inl e ↦ rw (e, attribute_from_proto) (λ p. cc)
  | inr (message_object, e) ↦ elim (Option-cases (env.parse a.path a.payload)) [
    | inl f ↦ rw (e, attribute_from_proto) (rw f (λ p. cc))
    | inr (m, f) ↦ rw (e, attribute_from_proto) (rw f (λ p. cc))
  ]
  | inr (primitive_field info, e) ↦
      rw (e, attribute_from_proto) (>>=-Ends _ _ (read_payload-Ends info a.payload) (λ d p. cc))
]

attributes-Ends : (env : Environment) (r : List ProtoAttribute) → Ends (attributes_from_proto env r)
unfolding attributes_from_proto
attributes-Ends env [] = λ p. cc
attributes-Ends env (a ∷ r) =
    >>=-Ends _ _ (attribute-Ends env a) (λ b. >>=-Ends _ _ (attributes-Ends env r) (λ bs p. cc))

subrequests-Ends :
    (env : Environment) (rs : List (List ProtoAttribute)) → Ends (subrequests_from_proto env rs)
unfolding subrequests_from_proto
subrequests-Ends env [] = λ p. cc
subrequests-Ends env (r ∷ rs) =
    >>=-Ends _ _ (attributes-Ends env r) (λ b. >>=-Ends _ _ (subrequests-Ends env rs) (λ bs p. cc))

module _ (create : ℕ → Outcome Fault Clause) (n : ℕ)
    (ends : (i : ℕ) → i < n → Ends (create i)) where
  create_all-Ends : (is : List ℕ) → All (λ i. i < n) is → Ends (create_all create is)
  unfolding create_all
  create_all-Ends [] h = λ p. cc
  create_all-Ends (i ∷ is) (h, hs) =
      >>=-Ends _ _ (ends i h) (λ c. >>=-Ends _ _ (create_all-Ends is hs) (λ cs p. cc))

  create_optional-Ends : (o : Option ℕ) → OptionBelow n o → Ends (create_optional create o)
  unfolding create_optional
  create_optional-Ends none h = λ p. cc
  create_optional-Ends (some i) h = ends i h

  read_clause-Ends :
      (env : Environment) (c : ProtoClause) → RefersBelow n c → Ends (read_clause env create c)
  unfolding read_clause
  read_clause-Ends env (ProtoClause.expression t is) h =
      >>=-Ends _ _ (create_all-Ends is h) (λ cs p. cc)
  read_clause-Ends env (ProtoClause.select table is w g h o l) (ps, pw, pg, ph, po, pl) =
      >>=-Ends _ _ (create_all-Ends is ps) λ cs. >>=-Ends _ _ (create_optional-Ends w pw) λ w'.
        >>=-Ends _ _ (create_optional-Ends g pg) λ g'.
          >>=-Ends _ _ (create_optional-Ends h ph) λ h'.
            >>=-Ends _ _ (create_optional-Ends o po)
              λ o'. >>=-Ends _ _ (create_optional-Ends l pl) (λ l' p. cc)
  read_clause-Ends env (ProtoClause.insert table upd rs) h =
      >>=-Ends _ _ (subrequests-Ends env rs) (λ rs' p. cc)
  read_clause-Ends env (ProtoClause.update table rs) h =
      >>=-Ends _ _ (subrequests-Ends env rs) (λ rs' p. cc)
  read_clause-Ends env (ProtoClause.delete table w) h =
      >>=-Ends _ _ (create_optional-Ends w h) (λ w' p. cc)
  read_clause-Ends env _ h = λ p. cc

-- Every clause of the input refers to clauses before it only.
abbrev pub IsBackward : List ProtoClause → Type 0
IsBackward input = (i : ℕ) (c : ProtoClause) → get_elem? input i ≡ some c → RefersBelow i c

-- In an input where every clause refers only to clauses before it, reading clause `i` ends, with
-- a value or with another fault than the cut recursion, within `i + 1` levels of recursion.
pub create_clause_ends :
    (env : Environment) (input : List ProtoClause)
    → IsBackward input
    → (fuel i : ℕ) → i < fuel
    → create_clause env fuel input i ≢ err out_of_fuel
unfolding create_clause
create_clause_ends env input back zero i h = elim h [ ]
create_clause_ends env input back (suc fuel) i h = elim (Option-cases (get_elem? input i)) [
  | inl e ↦ rw (e, create_clause) (λ p. cc)
  | inr (c, e) ↦
      rw (e, create_clause)
        (read_clause-Ends (create_clause env fuel input) i
          (λ j below. create_clause_ends env input back fuel j (omega arith)) env c (back i c e))
]
