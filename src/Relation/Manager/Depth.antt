-- ===== src/Relation/Manager/Depth.antt =====
-- Messages that are not nested in themselves (lib/relation/message.cpp, relation_manager.cpp): Process
-- and FindPrimaryFields end.
use my_orm.Prelude.{
  ℕ, zero, suc, ◌<◌, ◌≡◌, refl, true, ◌||◌, Option, none, some, List, [], if◌then◌else◌, ◌∷◌,
  nat_eq, bytes_eq, Outcome, ok, arith, Bool-cases, inl, inr, All,
}
use my_orm.Relation.Path.{MessagePath, ◌/=◌}
use my_orm.Relation.Descriptor.{FieldDescriptor, Pool, is_message}
use my_orm.Relation.Manager.{
  Runtime, Failure, MessageInfo, TableInfo, hash, add, merge, is_true, primary_field,
  find_primary_fields, new_table,
}
use my_orm.Relation.Manager.Register.{change, process}
use my_orm.Relation.Manager.WellFormed.{IsWellFormed, Grows, Grows-trans}
use my_orm.Relation.Manager.WellFormed.Steps.{change-IsWellFormed}
use my_orm.Relation.Manager.Total.{each-ok, Processes, add_field-ok}

-- Messages of a rank below the bound hold only messages of a lower rank than theirs. A message that is
-- nested in itself has a rank that is not below the bound.
abbrev pub IsRanked : Pool → (ℕ → ℕ) → ℕ → Type 0
IsRanked pool rank bound =
    (descriptor : ℕ)
    → rank descriptor < bound
    → All (λ f. is_message f ≡ true → rank f.message < rank descriptor) (pool.fields descriptor)

All-map {ℓ κ π} :
    {A : Type ℓ} (P : A → Type κ) (Q : A → Type π)
    → ((x : A) → P x → Q x)
    → (xs : List A) → All P xs
    → All Q xs
All-map P Q f [] h = tt
All-map P Q f (x ∷ xs) (first, rest) = (f x first, All-map P Q f xs rest)

primary_field-ok :
    (run : Runtime) (find : ℕ → MessagePath → Outcome Failure (List ℕ)) (f : FieldDescriptor)
    (base : MessagePath) (s : List ℕ)
    → (is_message f ≡ true → (more : List ℕ) × (find f.message (base /= f.number) ≡ ok more))
    → (s' : List ℕ) × (primary_field run find base f s ≡ ok s') × Unit {0}
unfolding primary_field
primary_field-ok run find f base s inner = elim (Bool-cases (f.is_repeated || f.is_map)) [
  | inl skipped ↦ (s, ground (arith, skipped), tt)
  | inr single ↦ elim (Bool-cases (is_message f)) [
    | inl message ↦
        let (more, found) = inner message in
        (merge more own, ground (arith, single, message, found), tt)
    | inr primitive ↦ (own, ground (arith, single, primitive), tt)
  ]
]
  where
    own : List ℕ
    own = if is_true f.options.primary_key then add (hash run (base /= f.number)) s else s

module _ (run : Runtime) (rank : ℕ → ℕ) (bound : ℕ) (ranked : IsRanked run.pool rank bound) where
  pub process-ok :
      (fuel descriptor : ℕ)
      → rank descriptor < fuel
      → rank descriptor < bound
      → Processes run (process run fuel) descriptor
  unfolding process change
  process-ok zero descriptor h b pointer path m w made placed = absurd (omega arith)
  process-ok (suc fuel) descriptor h b pointer path m w made placed =
      let name = λ (info : MessageInfo). record info { message_name = run.pool.name descriptor } in
      let named = change name pointer m in
      let start = change-IsWellFormed run name pointer m (λ info behind. behind) w in
      let (m', done, (w', g')) =
        each-ok (λ s. IsWellFormed run s × Grows run m s) _ (run.pool.fields descriptor)
          (All-map _ _
            (λ f below s inv.
              let (s', e, w', g') =
                add_field-ok run (process run fuel) pointer path f s
                  (λ message.
                    process-ok fuel f.message (omega (arith, below message))
                      (omega (arith, below message)))
                  inv.0 (omega (arith, inv.1.made)) (inv.1.kept _ placed) in
              (s', e, (w', Grows-trans run m s s' inv.1 g')))
            (run.pool.fields descriptor) (ranked descriptor b))
          named (start, record { made = omega arith; kept = λ h k. k }) in
      (m', done, w', g')

  find_primary_fields-ok :
      (fuel descriptor : ℕ) (base : MessagePath)
      → rank descriptor < fuel
      → rank descriptor < bound
      → (keys : List ℕ) × (find_primary_fields run fuel descriptor base ≡ ok keys)
  unfolding find_primary_fields
  find_primary_fields-ok zero descriptor base h b = absurd (omega arith)
  find_primary_fields-ok (suc fuel) descriptor base h b =
      let (keys, done, _) =
        each-ok (λ s. Unit {0}) _ (run.pool.fields descriptor)
          (All-map _ _
            (λ f below s u. primary_field-ok run (find_primary_fields run fuel) f base s (λ message.
              find_primary_fields-ok fuel f.message (base /= f.number)
                (omega (arith, below message)) (omega (arith, below message))))
            (run.pool.fields descriptor) (ranked descriptor b))
          [] tt in
      (keys, done)

  pub new_table-ok :
      (fuel : ℕ) (path : MessagePath) (descriptor : Option ℕ)
      → ((d : ℕ) → descriptor ≡ some d → (rank d < fuel) × (rank d < bound))
      → (table : TableInfo) × (new_table run fuel path descriptor ≡ ok table)
  unfolding new_table
  new_table-ok fuel path none h = (_, refl)
  new_table-ok fuel path (some d) h =
      let (keys, found) = find_primary_fields-ok fuel d path (h d refl).0 (h d refl).1 in
      (
        record { path = path; related_messages = []; related_fields = []; primary_fields = keys },
        ground (arith, found),
      )
