-- ===== src/Requests/Proto/Reads.antt =====
-- About FromProto (lib/requests/query.cpp) on lists of clauses that grow.
use my_orm.Prelude.{
  ℕ, zero, suc, ◌-◌, ◌≤◌, ◌≡◌, refl, ap, ◌∙◌, some, [], ◌∷◌, ◌++◌, append_assoc, length,
  length-append, get_elem?, Outcome, arith,
}
use my_orm.Requests.Attribute.{Fault}
use my_orm.Requests.Message.{ProtoClause}
use my_orm.Requests.Clause.{Clause}
use my_orm.Requests.Proto.{Environment, Output, read_clause, create_clause}

abbrev pub Extends : Output → Output → Type 0
Extends out out' = (more : Output) × (out' ≡ out ++ more)

pub Extends-trans : (a b c : Output) → Extends a b → Extends b c → Extends a c
Extends-trans a b c (s, p) (t, q) = (s ++ t, q ∙ ap (λ (x : Output). x ++ t) p ∙ append_assoc a s t)

abbrev pub Creator : Type 0
Creator = ℕ → Outcome Fault Clause

-- Whatever follows `out`, `f` reads `r` from it, with fuel for each clause of `out`.
abbrev pub Reads :
    {A : Type 0} → Environment → Output → (Creator → Outcome Fault A) → Outcome Fault A → Type 0
Reads env out f r =
    (rest : Output) (fuel : ℕ) → length out ≤ fuel → f (create_clause env fuel (out ++ rest)) ≡ r

pub Reads-Extends :
    {A : Type 0} (env : Environment) (out out' : Output) (f : Creator → Outcome Fault A)
    (r : Outcome Fault A)
    → Extends out out'
    → Reads env out f r
    → Reads env out' f r
Reads-Extends env out out' f r (more, e) reads rest fuel enough =
    rw (e, append_assoc out more rest)
      (reads (more ++ rest) fuel (omega (arith, ap length e, length-append out more)))

last_index : (out : Output) (c : ProtoClause) → length (out ++ c ∷ []) - 1 ≡ length out
last_index out c = omega (arith, length-append out (c ∷ []))

get_elem?-middle :
    (out : Output) (c : ProtoClause) (rest : Output)
    → get_elem? ((out ++ c ∷ []) ++ rest) (length out) ≡ some c
get_elem?-middle [] c rest = refl
get_elem?-middle (b ∷ out) c rest = get_elem?-middle out c rest

-- A clause that is appended is read from what stands before it.
pub appended :
    (env : Environment) (out : Output) (c : ProtoClause) (r : Outcome Fault Clause)
    → Reads env out (λ create. read_clause env create c) r
    → Reads env (out ++ c ∷ []) (λ create. create (length (out ++ c ∷ []) - 1)) r
unfolding create_clause
appended env out c r reads rest zero enough = absurd (omega (arith, length-append out (c ∷ [])))
appended env out c r reads rest (suc fuel) enough = rw (last_index out c) (
    rw (get_elem?-middle out c rest, create_clause)
      (rw (append_assoc out (c ∷ []) rest)
        (reads (c ∷ rest) fuel (omega (arith, length-append out (c ∷ []))))))
