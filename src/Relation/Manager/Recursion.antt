-- ===== src/Relation/Manager/Recursion.antt =====
-- Messages that hold themselves (lib/relation/message.cpp).
use my_orm.Prelude.{
  ℕ, zero, suc, ◌<◌, ◌≡◌, refl, ap, sym, ◌∙◌, true, none, err, List, ◌∷◌, nat_eq, bytes_eq, ◌>>=◌,
  arith,
}
use mathlib.Core.Path.{subst}
use my_orm.Relation.Path.{MessagePath, pop_entry}
use my_orm.Relation.Descriptor.{FieldDescriptor, is_message}
use my_orm.Relation.Manager.{Runtime, MessageInfo, endless, FieldBase, RelationManager, each, hash}
use my_orm.Relation.Manager.Register.{
  Process, register_field, list_field, new_field, note_entry, register_message_field, add_field,
  process, change, with_object, name_entry, index_message,
}
use my_orm.Relation.Manager.WellFormed.{
  IsWellFormed, with_object-IsWellFormed, name_entry-IsWellFormed, inherit_table-IsWellFormed,
}
use my_orm.Relation.Manager.WellFormed.Steps.{
  add_related_message-ok, index_message-IsWellFormed, change-IsWellFormed,
}
use my_orm.Relation.Manager.Total.{HasTable, new_field-ok, note_entry-ok}

module _ (run : Runtime) where
  -- Where Process comes to the message, the recursion is cut.
  abbrev Loops : Process → ℕ → Type 0
  Loops proc descriptor =
      (pointer : ℕ) (path : MessagePath) (m : RelationManager)
      → IsWellFormed run m
      → pointer < m.created
      → HasTable run path m
      → proc pointer descriptor path m ≡ err endless

  list_field-Loops :
      (proc : Process) (field : FieldBase) (m : RelationManager)
      → field.primitive ≡ none
      → Loops proc field.descriptor.message
      → IsWellFormed run m
      → field.pointer < m.created
      → HasTable run field.path m
      → list_field run proc field m ≡ err endless
  unfolding list_field index_message
  list_field-Loops proc field m kind loops w made placed =
      let h = hash run field.path in
      let (m1, e1, w1, g1, c1) = add_related_message-ok run h m w placed in
      let inner =
        loops field.pointer field.path (index_message h field m1)
          (index_message-IsWellFormed run h field m1 (refl, omega (arith, c1)) w1)
          (omega (arith, g1.made)) (g1.kept h placed) in
      ground (arith, kind, e1, inner)

  register_field-Loops :
      (proc : Process) (field : FieldBase) (m : RelationManager)
      → field.primitive ≡ none
      → Loops proc field.descriptor.message
      → IsWellFormed run m
      → field.pointer < m.created
      → HasTable run (pop_entry field.path) m
      → register_field run proc field m ≡ err endless
  unfolding register_field name_entry
  register_field-Loops proc field m kind loops w made placed =
      let h = hash run field.path in
      let parent = hash run (pop_entry field.path) in
      let number = field.descriptor.number in
      let name = field.descriptor.name in
      let named = name_entry-IsWellFormed run h parent number name m w in
      let (m1, e1, w1, g1, t1, c1) =
        inherit_table-IsWellFormed run h parent (name_entry h parent name number m) named placed in
      ap (λ r. r >>= list_field run proc field) e1
      ∙ list_field-Loops proc field m1 kind loops w1 (omega (arith, c1)) t1

  add_field-Loops :
      (proc : Process) (pointer : ℕ) (path : MessagePath) (desc : FieldDescriptor)
      (m : RelationManager)
      → is_message desc ≡ true
      → Loops proc desc.message
      → IsWellFormed run m
      → pointer < m.created
      → HasTable run path m
      → add_field run proc pointer path desc m ≡ err endless
  unfolding add_field register_message_field new_field change
  add_field-Loops proc pointer path desc m message loops w made placed =
      let noted = change (note_entry run desc.number) pointer m in
      let there = subst (λ p. HasTable run p m) (sym (new_field-ok run desc path m)) placed in
      let start = with_object-IsWellFormed run noted (note_entry-ok run pointer desc.number m w) in
      let looped =
        register_field-Loops proc (new_field run desc path m) (with_object run noted)
          (ground (arith, message)) loops start (omega arith) there in
      ground (arith, message, looped)

  -- The registration of a message whose first field is of its own type never ends: in a manager that is
  -- well-formed, with a table for the message, no exception stops the recursion, and it is cut
  -- however deep it may go.
  pub process_endless :
      (fuel descriptor : ℕ) (field : FieldDescriptor) (rest : List FieldDescriptor)
      → run.pool.fields descriptor ≡ field ∷ rest
      → is_message field ≡ true
      → field.message ≡ descriptor
      → (pointer : ℕ) (path : MessagePath) (m : RelationManager) → IsWellFormed run m
      → pointer < m.created
      → HasTable run path m
      → process run fuel pointer descriptor path m ≡ err endless
  unfolding process change
  process_endless zero descriptor field rest first message same pointer path m w made placed = refl
  process_endless (suc fuel) descriptor field rest first message same pointer path m w made placed =
      let name = λ (info : MessageInfo). record info { message_name = run.pool.name descriptor } in
      let named = change name pointer m in
      let start = change-IsWellFormed run name pointer m (λ info behind. behind) w in
      let looped =
        add_field-Loops (process run fuel) pointer path field named message
          (subst (Loops (process run fuel)) (sym same)
            (process_endless fuel descriptor field rest first message same))
          start made placed in
      ap (λ fields. each (add_field run (process run fuel) pointer path) fields named) first
      ∙ ap (λ r. r >>= each (add_field run (process run fuel) pointer path) rest) looped
