-- ===== src/Requests/Proto/Receive.antt =====
-- What arrives of a clause that is written by ToProto and read by FromProto
-- (lib/requests/query.cpp), described on the tree alone.
use my_orm.Prelude.{Outcome, ok, err, ◌>>=◌}
use my_orm.Requests.Attribute.{Fault, unknown_clause}
use my_orm.Requests.Clause.{
  Clause, null, string, integer, float, bool, expression, column, all, default, select, insert,
  update, delete, truncate, start_transaction, commit_transaction, rollback_transaction, Clauses,
  nil, cons,
}
use my_orm.Requests.Proto.{Environment, subrequests_to_proto, subrequests_from_proto}

-- The table of a select is lost, a double is rounded to a float, `all` and `default` are refused;
-- all else arrives as it was, the attributes by way of their payloads.
unfoldable mutual
  pub receive : Environment → Clause → Outcome Fault Clause
  receive env null = ok null
  receive env (string s) = ok (string s)
  receive env (integer z) = ok (integer z)
  receive env (float x) = ok (float (env.widen (env.narrow x)))
  receive env (bool b) = ok (bool b)
  receive env (expression t operands) = do
    operands' ← receive_all env operands
    ok (expression t operands')
  receive env (column p t) = ok (column p t)
  receive env all = err unknown_clause
  receive env default = err unknown_clause
  receive env (select table selectors w g h o l) = do
    selectors' ← receive_all env selectors
    w' ← receive env w
    g' ← receive env g
    h' ← receive env h
    o' ← receive env o
    l' ← receive env l
    ok (select 0 selectors' w' g' h' o' l')
  receive env (insert table upd rs) = do
    rs' ← subrequests_from_proto env (subrequests_to_proto rs)
    ok (insert table upd rs')
  receive env (update table rs) = do
    rs' ← subrequests_from_proto env (subrequests_to_proto rs)
    ok (update table rs')
  receive env (delete table w) = do w' ← receive env w; ok (delete table w')
  receive env (truncate table) = ok (truncate table)
  receive env start_transaction = ok start_transaction
  receive env commit_transaction = ok commit_transaction
  receive env rollback_transaction = ok rollback_transaction

  pub receive_all : Environment → Clauses → Outcome Fault Clauses
  receive_all env nil = ok nil
  receive_all env (cons c cs) = do c' ← receive env c; cs' ← receive_all env cs; ok (cons c' cs')

-- `P`, unless the clause is null.
abbrev pub Optional {ℓ} : Clause → Type ℓ → Type ℓ
Optional null P = Unit
Optional _ P = P

-- No clause that ToProto dereferences is null.
abbrev mutual
  pub IsWhole : Clause → Type 0
  IsWhole null = ⊥
  IsWhole (expression t operands) = AreWhole operands
  IsWhole (select table selectors w g h o l) =
      AreWhole selectors
      × Optional w (IsWhole w)
      × Optional g (IsWhole g)
      × Optional h (IsWhole h)
      × Optional o (IsWhole o)
      × Optional l (IsWhole l)
  IsWhole (delete table w) = Optional w (IsWhole w)
  IsWhole _ = Unit

  pub AreWhole : Clauses → Type 0
  AreWhole nil = Unit
  AreWhole (cons c cs) = IsWhole c × AreWhole cs
