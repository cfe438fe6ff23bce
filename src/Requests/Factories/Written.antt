-- ===== src/Requests/Factories/Written.antt =====
-- The clauses that a client can write: values, columns of known tables, and what the operators and
-- functions of lib/requests/query.h make of written clauses.
use my_orm.Prelude.{ℕ, ◌≡◌, ◌≢◌, Bool, Option, some, List, [], ◌∷◌, Bytes}
use my_orm.Prelude.Int.{ℤ}
use my_orm.Relation.Path.{MessagePath}
use my_orm.Requests.Clause.{Clause, Clauses, nil, cons}
use my_orm.Requests.Factories

mutual
  -- `table_of` is what the relation manager knows of the parent table of a path.
  pub data Written (table_of : MessagePath → Option (List ℕ)) : Clause → Type 0 where
    absent : Written table_of Clause.null
    string : (s : Bytes) → Written table_of (Clause.string s)
    integer : (z : ℤ) → Written table_of (Clause.integer z)
    float : (x : ℕ) → Written table_of (Clause.float x)
    bool : (b : Bool) → Written table_of (Clause.bool b)
    all : Written table_of Clause.all
    default : Written table_of Clause.default
    col :
        (path : MessagePath) (table : List ℕ)
        → table_of path ≡ some table
        → Written table_of (Factories.col path)
    excluded_of :
        (path : MessagePath) (table : List ℕ)
        → table_of path ≡ some table
        → Written table_of (Factories.excluded_of path)
    plus :
        (a b : Clause)
        → Written table_of a
        → Written table_of b
        → Written table_of (Factories.plus a b)
    minus :
        (a b : Clause)
        → Written table_of a
        → Written table_of b
        → Written table_of (Factories.minus a b)
    times :
        (a b : Clause)
        → Written table_of a
        → Written table_of b
        → Written table_of (Factories.times a b)
    divided_by :
        (a b : Clause)
        → Written table_of a
        → Written table_of b
        → Written table_of (Factories.divided_by a b)
    remainder :
        (a b : Clause)
        → Written table_of a
        → Written table_of b
        → Written table_of (Factories.remainder a b)
    equal_to :
        (a b : Clause)
        → Written table_of a
        → Written table_of b
        → Written table_of (Factories.equal_to a b)
    unequal_to :
        (a b : Clause)
        → Written table_of a
        → Written table_of b
        → Written table_of (Factories.unequal_to a b)
    at_most :
        (a b : Clause)
        → Written table_of a
        → Written table_of b
        → Written table_of (Factories.at_most a b)
    at_least :
        (a b : Clause)
        → Written table_of a
        → Written table_of b
        → Written table_of (Factories.at_least a b)
    below :
        (a b : Clause)
        → Written table_of a
        → Written table_of b
        → Written table_of (Factories.below a b)
    above :
        (a b : Clause)
        → Written table_of a
        → Written table_of b
        → Written table_of (Factories.above a b)
    both :
        (a b : Clause)
        → Written table_of a
        → Written table_of b
        → Written table_of (Factories.both a b)
    either :
        (a b : Clause)
        → Written table_of a
        → Written table_of b
        → Written table_of (Factories.either a b)
    negation : (a : Clause) → Written table_of a → Written table_of (Factories.negation a)
    in_of :
        (a b : Clause)
        → Written table_of a
        → Written table_of b
        → Written table_of (Factories.in_of a b)
    exists_of : (a : Clause) → Written table_of a → Written table_of (Factories.exists_of a)
    max_of : (a : Clause) → Written table_of a → Written table_of (Factories.max_of a)
    min_of : (a : Clause) → Written table_of a → Written table_of (Factories.min_of a)
    sum_of : (a : Clause) → Written table_of a → Written table_of (Factories.sum_of a)
    avg_of : (a : Clause) → Written table_of a → Written table_of (Factories.avg_of a)
    count_of : (a : Clause) → Written table_of a → Written table_of (Factories.count_of a)
    abs_of : (a : Clause) → Written table_of a → Written table_of (Factories.abs_of a)
    round_of : (a : Clause) → Written table_of a → Written table_of (Factories.round_of a)
    ceil_of : (a : Clause) → Written table_of a → Written table_of (Factories.ceil_of a)
    floor_of : (a : Clause) → Written table_of a → Written table_of (Factories.floor_of a)
    sqrt_of : (a : Clause) → Written table_of a → Written table_of (Factories.sqrt_of a)
    log_of : (a : Clause) → Written table_of a → Written table_of (Factories.log_of a)
    log_base :
        (a b : Clause)
        → Written table_of a
        → Written table_of b
        → Written table_of (Factories.log_base a b)
    rand_of : Written table_of Factories.rand_of
    sin_of : (a : Clause) → Written table_of a → Written table_of (Factories.sin_of a)
    cos_of : (a : Clause) → Written table_of a → Written table_of (Factories.cos_of a)
    tan_of : (a : Clause) → Written table_of a → Written table_of (Factories.tan_of a)
    pow_of :
        (a b : Clause)
        → Written table_of a
        → Written table_of b
        → Written table_of (Factories.pow_of a b)
    lower_of : (a : Clause) → Written table_of a → Written table_of (Factories.lower_of a)
    upper_of : (a : Clause) → Written table_of a → Written table_of (Factories.upper_of a)
    substr_of :
        (a b c : Clause)
        → Written table_of a
        → Written table_of b
        → Written table_of c
        → Written table_of (Factories.substr_of a b c)
    like_of :
        (a b : Clause)
        → Written table_of a
        → Written table_of b
        → Written table_of (Factories.like_of a b)
    ilike_of :
        (a b : Clause)
        → Written table_of a
        → Written table_of b
        → Written table_of (Factories.ilike_of a b)
    len_of : (a : Clause) → Written table_of a → Written table_of (Factories.len_of a)
    replace_of :
        (a b c : Clause)
        → Written table_of a
        → Written table_of b
        → Written table_of c
        → Written table_of (Factories.replace_of a b c)
    trim_of : (a : Clause) → Written table_of a → Written table_of (Factories.trim_of a)
    left_of :
        (a b : Clause)
        → Written table_of a
        → Written table_of b
        → Written table_of (Factories.left_of a b)
    right_of :
        (a b : Clause)
        → Written table_of a
        → Written table_of b
        → Written table_of (Factories.right_of a b)
    pos_of :
        (a b : Clause)
        → Written table_of a
        → Written table_of b
        → Written table_of (Factories.pos_of a b)
    split_part_of :
        (a b c : Clause)
        → Written table_of a
        → Written table_of b
        → Written table_of c
        → Written table_of (Factories.split_part_of a b c)
    case_of :
        (first : Clause × Clause) (rest : List (Clause × Clause)) (otherwise : Clause)
        → WrittenBranches table_of (first ∷ rest)
        → Written table_of otherwise
        → Written table_of
            (Factories.else_of (Factories.branches Factories.case_of (first ∷ rest)) otherwise)
    coalesce_of :
        (first : Clause) (rest : List Clause)
        → WrittenList table_of (first ∷ rest)
        → Written table_of (Factories.coalesce_of (first ∷ rest))
    greatest_of :
        (first : Clause) (rest : List Clause)
        → WrittenList table_of (first ∷ rest)
        → Written table_of (Factories.greatest_of (first ∷ rest))
    least_of :
        (first : Clause) (rest : List Clause)
        → WrittenList table_of (first ∷ rest)
        → Written table_of (Factories.least_of (first ∷ rest))
    select :
        (table : ℕ) (owner : List ℕ) (selectors : Clauses) (wher group having order limit : Clause)
        → table_of (table ∷ []) ≡ some owner
        → WrittenClauses table_of selectors
        → Written table_of wher
        → Written table_of group
        → Written table_of having
        → Written table_of order
        → Written table_of limit
        → Written table_of (Clause.select table selectors wher group having order limit)

  pub data WrittenList (table_of : MessagePath → Option (List ℕ)) : List Clause → Type 0 where
    none_listed : WrittenList table_of []
    listed :
        (c : Clause) (cs : List Clause)
        → Written table_of c
        → WrittenList table_of cs
        → WrittenList table_of (c ∷ cs)

  pub data WrittenClauses (table_of : MessagePath → Option (List ℕ)) : Clauses → Type 0 where
    no_selector : WrittenClauses table_of nil
    selector :
        (c : Clause) (cs : Clauses)
        → c ≢ Clause.null
        → Written table_of c
        → WrittenClauses table_of cs
        → WrittenClauses table_of (cons c cs)

  pub data WrittenBranches (table_of : MessagePath → Option (List ℕ))
      : List (Clause × Clause) → Type 0 where
    no_branch : WrittenBranches table_of []
    branch :
        (condition result : Clause) (rest : List (Clause × Clause))
        → Written table_of condition
        → Written table_of result
        → WrittenBranches table_of rest
        → WrittenBranches table_of ((condition, result) ∷ rest)
