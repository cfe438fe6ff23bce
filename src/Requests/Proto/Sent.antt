-- ===== src/Requests/Proto/Sent.antt =====
-- About FromProto (lib/requests/query.cpp) on what ToProto has written, against
-- Requests/Proto/Receive.antt.
use my_orm.Prelude.{
  ℕ, ◌-◌, ◌≡◌, refl, sym, ap, ◌∙◌, Option, none, some, List, [], ◌∷◌, ◌++◌, append-nil,
  append_assoc, length, ok, arith,
}
use my_orm.Requests.ExpressionType.{ExpressionType}
use my_orm.Requests.Message.{ProtoClause, ProtoQuery}
use my_orm.Requests.Clause.{
  Clause, null, string, integer, float, bool, expression, column, all, default, select, insert,
  update, delete, truncate, start_transaction, commit_transaction, rollback_transaction, Clauses,
  nil, cons,
}
use my_orm.Requests.Proto.{
  Environment, Output, to_proto, operands_to_proto, optional_to_proto, query_to_proto, create_all,
  create_optional, read_clause, create_clause, query_from_proto,
}
use my_orm.Requests.Proto.Reads.{Extends, Extends-trans, Creator, Reads, Reads-Extends, appended}
use my_orm.Requests.Proto.Receive.{receive, receive_all, Optional, IsWhole, AreWhole}

-- `out'` is `out` with the clause `c` written behind it.
record Sent (env : Environment) (c : Clause) (out : Output) : Type 0 where
  out' : Output
  written : to_proto env c out ≡ ok out'
  extends : Extends out out'
  reads : Reads env out' (λ create. create (length out' - 1)) (receive env c)

record AllSent (env : Environment) (cs : Clauses) (out : Output) (before : List ℕ) : Type 0 where
  out' : Output
  indices : List ℕ
  written : operands_to_proto env cs out before ≡ ok (out', before ++ indices)
  extends : Extends out out'
  reads : Reads env out' (λ create. create_all create indices) (receive_all env cs)

record OptionalSent (env : Environment) (c : Clause) (out : Output) : Type 0 where
  out' : Output
  index : Option ℕ
  written : optional_to_proto c (to_proto env c out) out ≡ ok (out', index)
  extends : Extends out out'
  reads : Reads env out' (λ create. create_optional create index) (receive env c)

optional_sent :
    (env : Environment) (c : Clause) (out : Output)
    → Optional c (Sent env c out)
    → OptionalSent env c out
unfolding optional_to_proto create_optional receive
optional_sent env null out h = record {
  out' = out;
  index = none;
  written = refl;
  extends = ([], sym (append-nil out));
  reads = λ rest fuel enough. refl;
}
optional_sent env _ out h = record {
  out' = h.out';
  index = some (length h.out' - 1);
  written = rw h.written;
  extends = h.extends;
  reads = h.reads;
}

-- A clause of one node.
leaf :
    (env : Environment) (c : Clause) (out : Output) (node : ProtoClause)
    → to_proto env c out ≡ ok (out ++ node ∷ [])
    → ((create : Creator) → read_clause env create node ≡ receive env c)
    → Sent env c out
leaf env c out node written reads = record {
  out' = out ++ node ∷ [];
  written = written;
  extends = (node ∷ [], refl);
  reads = appended env out node _ (λ rest fuel enough. reads _);
}

nil_sent : (env : Environment) (out : Output) (before : List ℕ) → AllSent env nil out before
unfolding to_proto create_all receive
nil_sent env out before = record {
  out' = out;
  indices = [];
  written = rw append-nil;
  extends = ([], sym (append-nil out));
  reads = λ rest fuel enough. refl;
}

cons-Sent :
    (env : Environment) (c : Clause) (cs : Clauses) (out : Output) (before : List ℕ)
    → Sent env c out
    → ((out' : Output) (before' : List ℕ) → AllSent env cs out' before')
    → AllSent env (cons c cs) out before
unfolding to_proto create_all receive
cons-Sent env c cs out before s all_sent =
    let i : ℕ = length s.out' - 1 in
    let r = all_sent s.out' (before ++ i ∷ []) in
    record {
      out' = r.out';
      indices = i ∷ r.indices;
      written = rw s.written (
          r.written
          ∙ ap (λ (is : List ℕ). ok (r.out', is)) (append_assoc before (i ∷ []) r.indices));
      extends = Extends-trans out s.out' r.out' s.extends r.extends;
      reads = λ rest fuel enough.
          rw
            (Reads-Extends env s.out' r.out' (λ create. create i) _ r.extends s.reads rest fuel
              enough)
            (rw (r.reads rest fuel enough));
    }

expression-Sent :
    (env : Environment) (t : ExpressionType) (operands : Clauses) (out : Output)
    → AllSent env operands out []
    → Sent env (expression t operands) out
unfolding to_proto read_clause receive
expression-Sent env t operands out r = record {
  out' = r.out' ++ ProtoClause.expression t r.indices ∷ [];
  written = rw r.written;
  extends = Extends-trans out r.out' _ r.extends (ProtoClause.expression t r.indices ∷ [], refl);
  reads = appended env r.out' _ _ (λ rest fuel enough. rw (r.reads _ fuel enough));
}

delete-Sent :
    (env : Environment) (table : ℕ) (w : Clause) (out : Output)
    → OptionalSent env w out
    → Sent env (delete table w) out
unfolding to_proto read_clause receive
delete-Sent env table w out r = record {
  out' = r.out' ++ ProtoClause.delete table r.index ∷ [];
  written = rw r.written;
  extends = Extends-trans out r.out' _ r.extends (ProtoClause.delete table r.index ∷ [], refl);
  reads = appended env r.out' _ _ (λ rest fuel enough. rw (r.reads _ fuel enough));
}

module _ (env : Environment) (table : ℕ) (ss : Clauses) (w g h o l : Clause) (out : Output) where
  select-Sent :
      (r₀ : AllSent env ss out []) (r₁ : OptionalSent env w r₀.out')
      (r₂ : OptionalSent env g r₁.out') (r₃ : OptionalSent env h r₂.out')
      (r₄ : OptionalSent env o r₃.out') (r₅ : OptionalSent env l r₄.out')
      → Sent env (select table ss w g h o l) out
  unfolding to_proto read_clause receive
  select-Sent r₀ r₁ r₂ r₃ r₄ r₅ =
      let e₄ = r₅.extends in
      let e₃ = Extends-trans _ _ r₅.out' r₄.extends e₄ in
      let e₂ = Extends-trans _ _ r₅.out' r₃.extends e₃ in
      let e₁ = Extends-trans _ _ r₅.out' r₂.extends e₂ in
      let e₀ = Extends-trans _ _ r₅.out' r₁.extends e₁ in
      let node = ProtoClause.select 0 r₀.indices r₁.index r₂.index r₃.index r₄.index r₅.index in
      record {
        out' = r₅.out' ++ node ∷ [];
        written =
            rw r₀.written
              (rw r₁.written (rw r₂.written (rw r₃.written (rw r₄.written (rw r₅.written)))));
        extends =
            Extends-trans out r₅.out' _ (Extends-trans out r₀.out' r₅.out' r₀.extends e₀)
              (node ∷ [], refl);
        reads = appended env r₅.out' node _ λ rest fuel enough.
            rw
              (
                Reads-Extends env r₀.out' r₅.out' (λ create. create_all create r₀.indices) _ e₀
                    r₀.reads _ fuel enough,
                Reads-Extends env r₁.out' r₅.out' (λ create. create_optional create r₁.index) _ e₁
                    r₁.reads _ fuel enough,
                Reads-Extends env r₂.out' r₅.out' (λ create. create_optional create r₂.index) _ e₂
                    r₂.reads _ fuel enough,
                Reads-Extends env r₃.out' r₅.out' (λ create. create_optional create r₃.index) _ e₃
                    r₃.reads _ fuel enough,
                Reads-Extends env r₄.out' r₅.out' (λ create. create_optional create r₄.index) _ e₄
                    r₄.reads _ fuel enough,
              )
              (rw (r₅.reads _ fuel enough));
      }

optional_map {ℓ} : {P Q : Type ℓ} (c : Clause) → (P → Q) → Optional c P → Optional c Q
optional_map null f p = tt
optional_map _ f p = f p

mutual
  unfolding to_proto read_clause receive

  sent : (env : Environment) (c : Clause) → IsWhole c → (out : Output) → Sent env c out
  sent env null h out = absurd h
  sent env (string s) h out = leaf env _ out _ refl (λ create. refl)
  sent env (integer z) h out = leaf env _ out _ refl (λ create. refl)
  sent env (float x) h out = leaf env _ out _ refl (λ create. refl)
  sent env (bool b) h out = leaf env _ out _ refl (λ create. refl)
  sent env (expression t operands) h out =
      expression-Sent env t operands out (all_sent env operands h out [])
  sent env (column p t) h out = leaf env _ out _ refl (λ create. refl)
  sent env all h out = leaf env _ out _ refl (λ create. refl)
  sent env default h out = leaf env _ out _ refl (λ create. refl)
  sent env (select table ss w g h o l) (ps, pw, pg, ph, po, pl) out =
      let r₀ = all_sent env ss ps out [] in
      let r₁ = optional_sent env w r₀.out' (optional_map w (λ p. sent env w p r₀.out') pw) in
      let r₂ = optional_sent env g r₁.out' (optional_map g (λ p. sent env g p r₁.out') pg) in
      let r₃ = optional_sent env h r₂.out' (optional_map h (λ p. sent env h p r₂.out') ph) in
      let r₄ = optional_sent env o r₃.out' (optional_map o (λ p. sent env o p r₃.out') po) in
      let r₅ = optional_sent env l r₄.out' (optional_map l (λ p. sent env l p r₄.out') pl) in
      select-Sent env table ss w g h o l out r₀ r₁ r₂ r₃ r₄ r₅
  sent env (insert table upd rs) h out = leaf env _ out _ refl (λ create. refl)
  sent env (update table rs) h out = leaf env _ out _ refl (λ create. refl)
  sent env (delete table w) h out =
      delete-Sent env table w out
        (optional_sent env w out (optional_map w (λ p. sent env w p out) h))
  sent env (truncate table) h out = leaf env _ out _ refl (λ create. refl)
  sent env start_transaction h out = leaf env _ out _ refl (λ create. refl)
  sent env commit_transaction h out = leaf env _ out _ refl (λ create. refl)
  sent env rollback_transaction h out = leaf env _ out _ refl (λ create. refl)

  all_sent :
      (env : Environment) (cs : Clauses)
      → AreWhole cs
      → (out : Output) (before : List ℕ) → AllSent env cs out before
  all_sent env nil h out before = nil_sent env out before
  all_sent env (cons c cs) (p, ps) out before =
      cons-Sent env c cs out before (sent env c p out) (all_sent env cs ps)

abbrev pub empty_query : ProtoQuery
empty_query = record { clauses = []; start_points = [] }

-- A query with no null clause where one is dereferenced can be written, and FromProto reads from
-- what is written exactly what arrives of each clause by itself: recursion as deep as the list of
-- clauses is long is enough.
pub query_from_proto-query_to_proto :
    (env : Environment) (cs : Clauses)
    → AreWhole cs
    → (q : ProtoQuery) × (query_to_proto env cs empty_query ≡ ok q)
      × (query_from_proto env (length q.clauses) q ≡ receive_all env cs)
unfolding query_to_proto query_from_proto
query_from_proto-query_to_proto env cs h =
    let r = all_sent env cs h [] [] in
    (
      record { clauses = r.out'; start_points = r.indices },
      rw r.written,
      ap (λ (x : Output). create_all (create_clause env (length r.out') x) r.indices)
            (sym (append-nil r.out'))
          ∙ r.reads [] (length r.out') (omega arith),
    )
