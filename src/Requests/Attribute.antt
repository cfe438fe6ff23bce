-- ===== src/Requests/Attribute.antt =====
-- TAttribute (lib/requests/query.h, query.cpp): a field of a message with its new value, and the
-- payload bytes by which it travels. The bytes are those of a little-endian machine, as memcpy
-- copies them. Values of float and double are their bit patterns, and a protobuf message is the
-- bytes that SerializeToString gives of it. What the relation manager knows of a path, and what
-- ParseFromString makes of bytes, are the parameters `objects` and `parse`.
pub mod Payload
use my_orm.Prelude.{
  ℕ, ◌+◌, ◌*◌, ◌/◌, ◌%◌, ◌^◌, Bool, true, false, not, Option, none, some, [], ◌∷◌, Bytes, ◌==◌,
  nat_eq, if◌then◌else◌, Outcome, ok, err, ◌>>=◌,
}
use my_orm.Prelude.Int.{ℤ, bits32, to_int32, bits64, to_int64}
use my_orm.Relation.Path.{MessagePath}

-- The variant `Data`.
pub data Data : Type 0 where
  bool : Bool → Data
  uint32 : ℕ → Data
  int32 : ℤ → Data
  uint64 : ℕ → Data
  int64 : ℤ → Data
  float : ℕ → Data
  double : ℕ → Data
  string : Bytes → Data
  message : Bytes → Data

pub record Attribute : Type 0 where
  pub path : MessagePath
  pub value : Data

-- NApi::TAttribute
pub record ProtoAttribute : Type 0 where
  pub path : MessagePath
  pub payload : Bytes

-- The alternatives of TValueInfo (relation/field.h), without the default values that they carry.
pub data ValueInfo : Type 0 where
  monostate_info bool_info int32_info uint32_info int64_info uint64_info : ValueInfo
  float_info double_info string_info bytes_info enum_info : ValueInfo

-- What the relation manager holds at a path.
pub data ObjectInfo : Type 0 where
  message_object : ObjectInfo
  primitive_field : ValueInfo → ObjectInfo

-- The faults of reading and writing queries: a message that ParseFromString refuses, a memcpy that
-- reads past the payload, a path with no object, a null clause that is dereferenced, an index that
-- is out of range, a clause of a kind that CreateClauseFromProto does not know, and recursion
-- that is cut off.
pub data Fault : Type 0 where
  bad_message short_payload no_object null_clause out_of_range unknown_clause out_of_fuel : Fault

-- The bytes of a number, low byte first, and the number of the bytes.
unfoldable pub bytes32 : ℕ → Bytes
bytes32 n = n % 256 ∷ n / 256 % 256 ∷ n / 65536 % 256 ∷ n / 16777216 % 256 ∷ []

unfoldable pub bytes64 : ℕ → Bytes
bytes64 n =
    n % 256
    ∷ n / 256 % 256
    ∷ n / 65536 % 256
    ∷ n / 16777216 % 256
    ∷ n / 2 ^ 32 % 256
    ∷ n / 2 ^ 40 % 256
    ∷ n / 2 ^ 48 % 256
    ∷ n / 2 ^ 56 % 256
    ∷ []

-- memcpy of four or eight bytes; `short_payload` where it would read past the payload.
unfoldable pub read32 : Bytes → Outcome Fault ℕ
read32 (a ∷ b ∷ c ∷ d ∷ s) = ok (a + b * 256 + c * 65536 + d * 16777216)
read32 _ = err short_payload

unfoldable pub read64 : Bytes → Outcome Fault ℕ
read64 (a ∷ b ∷ c ∷ d ∷ e ∷ f ∷ g ∷ h ∷ s) =
    ok (a + b * 256 + c * 65536 + d * 16777216 + e * 2 ^ 32 + f * 2 ^ 40 + g * 2 ^ 48 + h * 2 ^ 56)
read64 _ = err short_payload

-- TAttribute::ToProto
unfoldable pub payload_of : Data → Bytes
payload_of (bool b) = (if b then 1 else 0) ∷ []
payload_of (uint32 n) = bytes32 n
payload_of (int32 z) = bytes32 (bits32 z)
payload_of (uint64 n) = bytes64 n
payload_of (int64 z) = bytes64 (bits64 z)
payload_of (float x) = bytes32 x
payload_of (double x) = bytes64 x
payload_of (string s) = s
payload_of (message m) = m

unfoldable pub attribute_to_proto : Attribute → ProtoAttribute
unfolding payload_of
attribute_to_proto a = record { path = a.path; payload = payload_of a.value }

-- `payload()[0]` of an empty string is the terminating zero.
unfoldable pub first_byte : Bytes → ℕ
first_byte [] = 0
first_byte (b ∷ s) = b

-- The ladder over the type of the field in TAttribute::FromProto; a type that it does not name
-- leaves `Data` as the default constructor made it, the first alternative with its zero.
unfoldable pub read_payload : ValueInfo → Bytes → Outcome Fault Data
read_payload bool_info s = ok (bool (not (first_byte s == 0)))
read_payload int32_info s = do n ← read32 s; ok (int32 (to_int32 n))
read_payload uint32_info s = do n ← read32 s; ok (uint32 n)
read_payload uint64_info s = do n ← read64 s; ok (uint64 n)
read_payload int64_info s = do n ← read64 s; ok (int64 (to_int64 n))
read_payload float_info s = do n ← read32 s; ok (float n)
read_payload double_info s = do n ← read64 s; ok (double n)
read_payload string_info s = ok (string s)
read_payload _ s = ok (bool false)

module _ (objects : MessagePath → Option ObjectInfo)
    (parse : MessagePath → Bytes → Option Bytes) where
  -- TAttribute::FromProto
  unfoldable pub attribute_from_proto : ProtoAttribute → Outcome Fault Attribute
  unfolding read_payload
  attribute_from_proto a = elim (objects a.path) [
    | none ↦ err no_object
    | some message_object ↦ elim (parse a.path a.payload) [
      | none ↦ err bad_message
      | some m ↦ ok (record { path = a.path; value = message m })
    ]
    | some (primitive_field info) ↦ do
      d ← read_payload info a.payload
      ok (record { path = a.path; value = d })
  ]
