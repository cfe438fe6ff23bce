-- ===== src/Relation/Manager/Total.antt =====
-- Registrations end without an exception and keep the manager well-formed (lib/relation/message.cpp,
-- relation_manager.cpp).
use my_orm.Prelude.{
  ℕ, ◌<◌, ◌≡◌, refl, ap, sym, ◌∙◌, true, none, List, [], ◌∷◌, nat_eq, bytes_eq, Outcome, ok, ◌>>=◌,
  arith, Option-cases, Bool-cases, inl, inr, All, drop_last-append,
}
use mathlib.Core.Path.{subst}
use my_orm.Prelude.Map
use my_orm.Prelude.Map.{Map, Entries}
use my_orm.Relation.Path.{MessagePath, ◌/=◌, pop_entry}
use my_orm.Relation.Descriptor.{FieldDescriptor, is_message}
use my_orm.Relation.Manager.{Runtime, Failure, FieldBase, of_field, RelationManager, each, hash}
use my_orm.Relation.Manager.Register.{
  Process, set_parent_message, name_entry, change, index_message, index_primitive, with_object,
  register_field, list_field, new_field, adopt, list_entry, note_entry, register_message_field,
  register_primitive_field, add_field,
}
use my_orm.Relation.Manager.WellFormed.{
  IsWellFormed, Grows, Grows-refl, Grows-trans, with_object-IsWellFormed,
  set_parent_message-IsWellFormed, name_entry-IsWellFormed, inherit_table-IsWellFormed,
}
use my_orm.Relation.Manager.WellFormed.Steps.{
  add_related_message-ok, add_related_field-ok, index_message-IsWellFormed,
  index_primitive-IsWellFormed, change-IsWellFormed,
}

-- A loop of which every round succeeds and keeps a property.
pub each-ok {ℓ κ π} :
    {A : Type ℓ} {S : Type κ} (P : S → Type π) (f : A → S → Outcome Failure S) (xs : List A)
    → All (λ x. (s : S) → P s → (s' : S) × (f x s ≡ ok s') × P s') xs
    → (s : S) → P s
    → (s' : S) × (each f xs s ≡ ok s') × P s'
each-ok P f [] h s p = (s, refl, p)
each-ok P f (x ∷ xs) (first, rest) s p =
    let (s1, done, p1) = first s p in
    let (s2, more, p2) = each-ok P f xs rest s1 p1 in
    (s2, ap (λ r. r >>= each f xs) done ∙ more, p2)

module _ (run : Runtime) where
  -- A step that ends well, from a manager that has made `created` objects and has a table for a path.
  abbrev pub Ends : RelationManager → Outcome Failure RelationManager → Type 0
  Ends m result = (m' : RelationManager) × (result ≡ ok m') × IsWellFormed run m' × Grows run m m'

  abbrev pub HasTable : MessagePath → RelationManager → Type 0
  HasTable path m = Map.contains (hash run path) m.parent_table ≡ true

  abbrev pub Processes : Process → ℕ → Type 0
  Processes proc descriptor =
      (pointer : ℕ) (path : MessagePath) (m : RelationManager)
      → IsWellFormed run m
      → pointer < m.created
      → HasTable path m
      → Ends m (proc pointer descriptor path m)

  -- What a field needs once its table is known: its kind decides where it is listed.
  listed-ok :
      (proc : Process) (field : FieldBase) (m : RelationManager)
      → (field.primitive ≡ none → Processes proc field.descriptor.message)
      → IsWellFormed run m
      → field.pointer < m.created
      → HasTable field.path m
      → Ends m (list_field run proc field m)
  unfolding list_field index_message index_primitive
  listed-ok proc field m inner w made placed =
      let h = hash run field.path in
      elim (Option-cases field.primitive) [
        | inl message ↦
            let (m1, e1, w1, g1, c1) = add_related_message-ok run h m w placed in
            let indexed = index_message h field m1 in
            let grown : Grows run m indexed = record { made = g1.made; kept = g1.kept } in
            let (m2, e2, w2, g2) =
              inner message field.pointer field.path indexed
                (index_message-IsWellFormed run h field m1 (refl, omega (arith, c1)) w1)
                (omega (arith, g1.made)) (g1.kept h placed) in
            (m2, ground (arith, message, e1, e2), w2, Grows-trans run m indexed m2 grown g2)
        | inr (primitive, there) ↦
            let (m1, e1, w1, g1, c1) = add_related_field-ok run h m w placed in
            (
              index_primitive h field m1,
              ground (arith, there, e1),
              index_primitive-IsWellFormed run h field m1 (refl, omega (arith, c1))
                  (λ e. ground (arith, there, e)) w1,
              record { made = g1.made; kept = g1.kept },
            )
      ]

  register_field-ok :
      (proc : Process) (field : FieldBase) (m : RelationManager)
      → (field.primitive ≡ none → Processes proc field.descriptor.message)
      → IsWellFormed run m
      → field.pointer < m.created
      → HasTable (pop_entry field.path) m
      → Ends m (register_field run proc field m)
  unfolding register_field name_entry
  register_field-ok proc field m inner w made placed =
      let h = hash run field.path in
      let parent = hash run (pop_entry field.path) in
      let number = field.descriptor.number in
      let name = field.descriptor.name in
      let named = name_entry-IsWellFormed run h parent number name m w in
      let (m1, e1, w1, g1, t1, c1) =
        inherit_table-IsWellFormed run h parent (name_entry h parent name number m) named placed in
      let (m2, e2, w2, g2) = listed-ok proc field m1 inner w1 (omega (arith, c1)) t1 in
      let grown : Grows run m m1 = record { made = g1.made; kept = g1.kept } in
      (m2, ap (λ r. r >>= list_field run proc field) e1 ∙ e2, w2, Grows-trans run m m1 m2 grown g2)

  pub new_field-ok :
      (desc : FieldDescriptor) (path : MessagePath) (m : RelationManager)
      → pop_entry (new_field run desc path m).path ≡ path
  unfolding new_field ◌/=◌ pop_entry
  new_field-ok desc path m = drop_last-append path desc.number

  adopt-ok :
      (path : MessagePath) (field : FieldBase) (before m : RelationManager)
      → IsWellFormed run before
      → field.pointer ≡ before.created
      → IsWellFormed run m
      → Ends m (ok (adopt run (Map.lookup (hash run path) before.messages_by_path) field m))
  unfolding adopt set_parent_message
  adopt-ok path field before m b same w =
      elim (Option-cases (Map.lookup (hash run path) before.messages_by_path)) [
        | inl missing ↦ (m, ground (arith, missing), w, Grows-refl run m)
        | inr (parent, found) ↦
            let older = (b.messages (hash run path) parent found).1 in
            (
              set_parent_message (of_field field) parent m,
              ground (arith, found),
              set_parent_message-IsWellFormed run (of_field field) parent m (omega arith) w,
              record { made = omega arith; kept = λ h k. k },
            )
      ]

  list_entry-ok :
      (pointer number : ℕ) (field : FieldBase) (m : RelationManager)
      → pointer < field.pointer
      → IsWellFormed run m
      → Ends m (ok (change (list_entry run number field) pointer m))
  unfolding change
  list_entry-ok pointer number field m below w = (
    change (list_entry run number field) pointer m,
    refl,
    change-IsWellFormed run (list_entry run number field) pointer m
        (λ info behind.
          Map.insert-All (λ entry. pointer < entry.1.pointer) number field info.fields below behind)
        w,
    record { made = omega arith; kept = λ h k. k },
  )

  pub note_entry-ok :
      (pointer number : ℕ) (m : RelationManager)
      → IsWellFormed run m
      → IsWellFormed run (change (note_entry run number) pointer m)
  note_entry-ok pointer number m w =
      change-IsWellFormed run (note_entry run number) pointer m (λ info behind. behind) w

  pub add_field-ok :
      (proc : Process) (pointer : ℕ) (path : MessagePath) (desc : FieldDescriptor)
      (m : RelationManager)
      → (is_message desc ≡ true → Processes proc desc.message)
      → IsWellFormed run m
      → pointer < m.created
      → HasTable path m
      → Ends m (add_field run proc pointer path desc m)
  unfolding add_field register_message_field register_primitive_field new_field change
  add_field-ok proc pointer path desc m inner w made placed =
      let field = new_field run desc path m in
      let number = desc.number in
      let noted = change (note_entry run number) pointer m in
      let there = subst (λ p. HasTable p m) (sym (new_field-ok desc path m)) placed in
      elim (Bool-cases (is_message desc)) [
        | inl message ↦
            let start = with_object-IsWellFormed run noted (note_entry-ok pointer number m w) in
            let (m1, e1, w1, g1) =
              register_field-ok proc field (with_object run noted) (λ e. inner message) start
                (omega arith) there in
            let (m2, e2, w2, g2) = adopt-ok path field m m1 w refl w1 in
            let (m3, e3, w3, g3) = list_entry-ok pointer number field m2 made w2 in
            (
              m3,
              ground (arith, message, e1, e2, e3),
              w3,
              record {
                made = omega (arith, g1.made, g2.made, g3.made);
                kept = λ h k. g3.kept h (g2.kept h (g1.kept h k));
              },
            )
        | inr primitive ↦
            let start = with_object-IsWellFormed run m w in
            let (m1, e1, w1, g1) =
              register_field-ok proc field (with_object run m)
                (λ e. absurd (ground (arith, primitive, e))) start (omega arith) there in
            let (m2, e2, w2, g2) = list_entry-ok pointer number field m1 made w1 in
            (
              m2,
              ground (arith, primitive, e1, e2),
              w2,
              record {
                made = omega (arith, g1.made, g2.made);
                kept = λ h k. g2.kept h (g1.kept h k);
              },
            )
      ]
