-- ===== src/Relation/Manager/WellFormed.antt =====
-- A well-formed relation manager (lib/relation/relation_manager.cpp), and the steps that keep it so.
pub mod Steps
use my_orm.Prelude.{
  ℕ, zero, suc, ◌+◌, ◌≤◌, ◌<◌, ◌≡◌, refl, Bool, true, false, Option, none, some, List, [], ◌∷◌,
  Bytes, nat_eq, bytes_eq, ◌==◌, Outcome, ok, err, arith, All, Option-cases, inl, inr,
}
use my_orm.Prelude.Map
use my_orm.Prelude.Map.{Map, Entries}
use my_orm.Relation.Path.{MessagePath, get_hash}
use my_orm.Relation.Manager.{
  Runtime, TableConfig, RootMessage, FieldBase, MessageBase, of_root, of_field, pointer_of,
  get_path, MessageInfo, TableInfo, Failure, add, RelationManager, hash, find_table,
  add_related_message, add_related_field,
}
use my_orm.Relation.Manager.Register.{
  set_parent_message, name_entry, inherit_table, change, index_message, index_primitive, index_root,
  with_object, info_at,
}

-- Fields that were made after the object with this number.
abbrev pub IsBehind : ℕ → Map ℕ FieldBase → Type 0
IsBehind pointer fields = All (λ entry. pointer < entry.1.pointer) fields

module _ (run : Runtime) where
  -- An object that stands at a hash, in a manager that has made `created` objects: it is one of them,
  -- and has the hash of its path.
  abbrev pub IsAt : (created h pointer : ℕ) → MessagePath → Type 0
  IsAt created h pointer path = (hash run path ≡ h) × (pointer < created)

  -- What GetMessage, GetField, GetPrimitiveField and GetRootMessage find is of that kind and was made
  -- for a path with the hash; what ParentTable_ names is a table; parents and owners were made before
  -- their fields.
  pub record IsWellFormed (m : RelationManager) : Type 0 where
    pub tables : Entries (λ h t. Map.contains t m.table_by_path ≡ true) m.parent_table
    pub messages : Entries (λ h e. IsAt m.created h (pointer_of e) (get_path e)) m.messages_by_path
    pub fields : Entries (λ h f. IsAt m.created h f.pointer f.path) m.fields_by_path
    pub primitives :
        Entries
          (λ h f. IsAt m.created h f.pointer f.path × (f.primitive ≡ none → ⊥))
          m.primitive_fields_by_path
    pub roots : Entries (λ h r. IsAt m.created h r.pointer r.path) m.root_messages_by_path
    pub parents : Entries (λ k e. pointer_of e < k) m.parent_map
    pub listed : Entries (λ k (info : MessageInfo). IsBehind k info.fields) m.processed

  -- What a step leaves: the objects that were made, and the paths that have a table.
  pub record Grows (m m' : RelationManager) : Type 0 where
    pub made : m.created ≤ m'.created
    pub kept :
        (h : ℕ) → Map.contains h m.parent_table ≡ true → Map.contains h m'.parent_table ≡ true

  pub Grows-refl : (m : RelationManager) → Grows m m
  Grows-refl m = record { made = omega arith; kept = λ h k. k }

  pub Grows-trans : (a b c : RelationManager) → Grows a b → Grows b c → Grows a c
  Grows-trans a b c p q = record {
    made = omega (arith, p.made, q.made);
    kept = λ h k. q.kept h (p.kept h k);
  }

  later :
      (created more h pointer : ℕ) (path : MessagePath)
      → created ≤ more
      → IsAt created h pointer path
      → IsAt more h pointer path
  later created more h pointer path le (same, before) = (same, omega arith)

  pub with_object-IsWellFormed :
      (m : RelationManager) → IsWellFormed m → IsWellFormed (with_object run m)
  with_object-IsWellFormed m w = record {
    tables = w.tables;
    messages = λ h e q.
        later m.created (suc m.created) h (pointer_of e) (get_path e) (omega arith)
          (w.messages h e q);
    fields =
        λ h f q. later m.created (suc m.created) h f.pointer f.path (omega arith) (w.fields h f q);
    primitives = λ h f q. (
      later m.created (suc m.created) h f.pointer f.path (omega arith) (w.primitives h f q).0,
      (w.primitives h f q).1,
    );
    roots =
        λ h r q. later m.created (suc m.created) h r.pointer r.path (omega arith) (w.roots h r q);
    parents = w.parents;
    listed = w.listed;
  }

  pub set_parent_message-IsWellFormed :
      (entity parent : MessageBase) (m : RelationManager)
      → pointer_of parent < pointer_of entity
      → IsWellFormed m
      → IsWellFormed (set_parent_message entity parent m)
  unfolding set_parent_message
  set_parent_message-IsWellFormed entity parent m below w = record {
    tables = w.tables;
    messages = w.messages;
    fields = w.fields;
    primitives = w.primitives;
    roots = w.roots;
    parents = Map.insert-Entries (pointer_of entity) parent m.parent_map below w.parents;
    listed = w.listed;
  }

  pub name_entry-IsWellFormed :
      (h parent number : ℕ) (name : Bytes) (m : RelationManager)
      → IsWellFormed m
      → IsWellFormed (name_entry h parent name number m)
  unfolding name_entry
  name_entry-IsWellFormed h parent number name m w = record {
    tables = w.tables;
    messages = w.messages;
    fields = w.fields;
    primitives = w.primitives;
    roots = w.roots;
    parents = w.parents;
    listed = w.listed;
  }

  -- ParentTable_.at(parent) finds the table of the parent.
  pub inherit_table-IsWellFormed :
      (h parent : ℕ) (m : RelationManager)
      → IsWellFormed m
      → Map.contains parent m.parent_table ≡ true
      → (m' : RelationManager) × (inherit_table h parent m ≡ ok m')
        × IsWellFormed m'
        × Grows m m'
        × (Map.contains h m'.parent_table ≡ true)
        × (m'.created ≡ m.created)
  unfolding inherit_table
  inherit_table-IsWellFormed h parent m w there =
      let (table_hash, found) = Map.contains_value parent m.parent_table there in
      (
        record m { parent_table = Map.emplace h table_hash m.parent_table },
        ground (arith, found),
        record {
          tables =
              Map.emplace-Entries h table_hash m.parent_table (w.tables parent table_hash found)
                w.tables;
          messages = w.messages;
          fields = w.fields;
          primitives = w.primitives;
          roots = w.roots;
          parents = w.parents;
          listed = w.listed;
        },
        record {
          made = omega arith;
          kept = λ asked k. Map.contains-emplace h asked table_hash m.parent_table k;
        },
        Map.contains-emplace_self h table_hash m.parent_table,
        refl,
      )
