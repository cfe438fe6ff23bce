-- ===== src/Requests/Proto/Delivered.antt =====
-- About queries that are sent and arrive (ToProto and FromProto of lib/requests/query.cpp).
use my_orm.Prelude.{ℕ, ◌≡◌, ◌∙◌, refl, List, [], ◌∷◌, All, ok, length}
use my_orm.Requests.Attribute.{Attribute}
use my_orm.Requests.Attribute.Payload.{IsTyped, attribute_from_proto-attribute_to_proto}
use my_orm.Requests.Message.{ProtoQuery}
use my_orm.Requests.Clause.{
  Clause, null, string, integer, float, bool, expression, column, all, default, select, insert,
  update, delete, truncate, start_transaction, commit_transaction, rollback_transaction, Clauses,
  nil, cons,
}
use my_orm.Requests.Proto.{
  Environment, attributes_to_proto, subrequests_to_proto, attributes_from_proto,
  subrequests_from_proto, query_to_proto, query_from_proto,
}
use my_orm.Requests.Proto.Receive.{receive, receive_all, Optional, IsWhole, AreWhole}
use my_orm.Requests.Proto.Sent.{empty_query, query_from_proto-query_to_proto}

-- Every attribute has the type of its field.
abbrev pub AreTyped : Environment → List (List Attribute) → Type 0
AreTyped env rs = All (λ r. All (λ a. IsTyped env.objects env.parse a) r) rs

-- No clause is `all` or `default`, and none is null where it is dereferenced.
abbrev mutual
  pub IsDeliverable : Environment → Clause → Type 0
  IsDeliverable env null = ⊥
  IsDeliverable env (expression t operands) = AreDeliverable env operands
  IsDeliverable env all = ⊥
  IsDeliverable env default = ⊥
  IsDeliverable env (select table selectors w g h o l) =
      AreDeliverable env selectors
      × Optional w (IsDeliverable env w)
      × Optional g (IsDeliverable env g)
      × Optional h (IsDeliverable env h)
      × Optional o (IsDeliverable env o)
      × Optional l (IsDeliverable env l)
  IsDeliverable env (insert table upd rs) = AreTyped env rs
  IsDeliverable env (update table rs) = AreTyped env rs
  IsDeliverable env (delete table w) = Optional w (IsDeliverable env w)
  IsDeliverable env _ = Unit

  pub AreDeliverable : Environment → Clauses → Type 0
  AreDeliverable env nil = Unit
  AreDeliverable env (cons c cs) = IsDeliverable env c × AreDeliverable env cs

-- The query with every select on table 0 and every double rounded to a float.
unfoldable mutual
  pub delivered : Environment → Clause → Clause
  delivered env (float x) = float (env.widen (env.narrow x))
  delivered env (expression t operands) = expression t (delivered_all env operands)
  delivered env (select table ss w g h o l) =
      select 0 (delivered_all env ss) (delivered env w) (delivered env g) (delivered env h)
        (delivered env o) (delivered env l)
  delivered env (delete table w) = delete table (delivered env w)
  delivered env c = c

  pub delivered_all : Environment → Clauses → Clauses
  delivered_all env nil = nil
  delivered_all env (cons c cs) = cons (delivered env c) (delivered_all env cs)

attributes_roundtrip :
    (env : Environment) (r : List Attribute)
    → All (λ a. IsTyped env.objects env.parse a) r
    → attributes_from_proto env (attributes_to_proto r) ≡ ok r
unfolding attributes_from_proto attributes_to_proto
attributes_roundtrip env [] h = refl
attributes_roundtrip env (a ∷ r) (p, h) =
    rw (attribute_from_proto-attribute_to_proto env.objects env.parse a p)
      (rw (attributes_roundtrip env r h))

subrequests_roundtrip :
    (env : Environment) (rs : List (List Attribute))
    → AreTyped env rs
    → subrequests_from_proto env (subrequests_to_proto rs) ≡ ok rs
unfolding subrequests_from_proto subrequests_to_proto
subrequests_roundtrip env [] h = refl
subrequests_roundtrip env (r ∷ rs) (p, h) =
    rw (attributes_roundtrip env r p) (rw (subrequests_roundtrip env rs h))

module _ {ℓ} {P Q : Type ℓ} where
  optional_arrow : (c : Clause) → (P → Q) → Optional c P → Optional c Q
  optional_arrow null f p = tt
  optional_arrow _ f p = f p

mutual
  IsDeliverable-IsWhole : (env : Environment) (c : Clause) → IsDeliverable env c → IsWhole c
  IsDeliverable-IsWhole env null h = h
  IsDeliverable-IsWhole env (expression t operands) h = AreDeliverable-AreWhole env operands h
  IsDeliverable-IsWhole env (select table ss w g h o l) (ps, pw, pg, ph, po, pl) = (
    AreDeliverable-AreWhole env ss ps,
    optional_arrow w (IsDeliverable-IsWhole env w) pw,
    optional_arrow g (IsDeliverable-IsWhole env g) pg,
    optional_arrow h (IsDeliverable-IsWhole env h) ph,
    optional_arrow o (IsDeliverable-IsWhole env o) po,
    optional_arrow l (IsDeliverable-IsWhole env l) pl,
  )
  IsDeliverable-IsWhole env (delete table w) h = optional_arrow w (IsDeliverable-IsWhole env w) h
  IsDeliverable-IsWhole env _ h = tt

  AreDeliverable-AreWhole : (env : Environment) (cs : Clauses) → AreDeliverable env cs → AreWhole cs
  AreDeliverable-AreWhole env nil h = tt
  AreDeliverable-AreWhole env (cons c cs) (p, ps) =
      (IsDeliverable-IsWhole env c p, AreDeliverable-AreWhole env cs ps)

Arrives : Environment → Clause → Type 0
Arrives env c = receive env c ≡ ok (delivered env c)

optional-Arrives : (env : Environment) (c : Clause) → Optional c (Arrives env c) → Arrives env c
unfolding receive delivered Arrives
optional-Arrives env null h = refl
optional-Arrives env _ h = h

select-Arrives :
    (env : Environment) (table : ℕ) (ss : Clauses) (w g h o l : Clause)
    → receive_all env ss ≡ ok (delivered_all env ss)
    → Arrives env w
    → Arrives env g
    → Arrives env h
    → Arrives env o
    → Arrives env l
    → Arrives env (select table ss w g h o l)
unfolding receive delivered Arrives
select-Arrives env table ss w g h o l es ew eg eh eo el =
    rw es (rw ew (rw eg (rw eh (rw eo (rw el)))))

mutual
  unfolding receive delivered Arrives

  receive-delivered : (env : Environment) (c : Clause) → IsDeliverable env c → Arrives env c
  receive-delivered env null h = refl
  receive-delivered env (string s) h = refl
  receive-delivered env (integer z) h = refl
  receive-delivered env (float x) h = refl
  receive-delivered env (bool b) h = refl
  receive-delivered env (expression t operands) h = rw (receive_all-delivered_all env operands h)
  receive-delivered env (column p t) h = refl
  receive-delivered env all h = absurd h
  receive-delivered env default h = absurd h
  receive-delivered env (select table ss w g h o l) (ps, pw, pg, ph, po, pl) =
      select-Arrives env table ss w g h o l (receive_all-delivered_all env ss ps)
        (optional-Arrives env w (optional_arrow w (receive-delivered env w) pw))
        (optional-Arrives env g (optional_arrow g (receive-delivered env g) pg))
        (optional-Arrives env h (optional_arrow h (receive-delivered env h) ph))
        (optional-Arrives env o (optional_arrow o (receive-delivered env o) po))
        (optional-Arrives env l (optional_arrow l (receive-delivered env l) pl))
  receive-delivered env (insert table upd rs) h = rw (subrequests_roundtrip env rs h)
  receive-delivered env (update table rs) h = rw (subrequests_roundtrip env rs h)
  receive-delivered env (delete table w) h =
      rw (optional-Arrives env w (optional_arrow w (receive-delivered env w) h))
  receive-delivered env (truncate table) h = refl
  receive-delivered env start_transaction h = refl
  receive-delivered env commit_transaction h = refl
  receive-delivered env rollback_transaction h = refl

  receive_all-delivered_all :
      (env : Environment) (cs : Clauses)
      → AreDeliverable env cs
      → receive_all env cs ≡ ok (delivered_all env cs)
  receive_all-delivered_all env nil h = refl
  receive_all-delivered_all env (cons c cs) (p, ps) =
      rw (receive-delivered env c p) (rw (receive_all-delivered_all env cs ps))

-- A query whose clauses hold no `all`, no `default` and no null operand, and whose attributes have
-- the types of their fields, is written and read back as it was, but for the tables of its
-- selects, which become 0, and its doubles, which are rounded to floats.
pub query_roundtrip :
    (env : Environment) (cs : Clauses)
    → AreDeliverable env cs
    → (q : ProtoQuery) × (query_to_proto env cs empty_query ≡ ok q)
      × (query_from_proto env (length q.clauses) q ≡ ok (delivered_all env cs))
query_roundtrip env cs h =
    let (q, written, readed) =
      query_from_proto-query_to_proto env cs (AreDeliverable-AreWhole env cs h) in
    (q, written, readed ∙ receive_all-delivered_all env cs h)
