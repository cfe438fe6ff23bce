-- ===== src/Requests/Attribute/Payload.antt =====
-- About payloads of attributes: TAttribute::ToProto and TAttribute::FromProto
-- (lib/requests/query.cpp).
use my_orm.Prelude.{ℕ, ◌<◌, ◌^◌, ◌≡◌, true, false, Option, some, Bytes, arith, ok}
use my_orm.Prelude.Int.{IsInt32, IsInt64, to_int32-bits32, to_int64-bits64, bits32-lt, bits64-lt}
use my_orm.Relation.Path.{MessagePath}
use my_orm.Requests.Attribute.{
  Data, bool, uint32, int32, uint64, int64, float, double, string, message, Attribute, bool_info,
  uint32_info, int32_info, uint64_info, int64_info, float_info, double_info, string_info,
  first_byte, ObjectInfo, message_object, primitive_field, bytes32, bytes64, read32, read64,
  attribute_to_proto, attribute_from_proto,
}

read32-bytes32 : (n : ℕ) → n < 2 ^ 32 → read32 (bytes32 n) ≡ ok n
unfolding read32 bytes32
read32-bytes32 n h = ground arith

read64-bytes64 : (n : ℕ) → n < 2 ^ 64 → read64 (bytes64 n) ≡ ok n
unfolding read64 bytes64
read64-bytes64 n h = ground arith

-- The value is one that the C++ type can hold.
abbrev pub InRange : Data → Type 0
InRange (uint32 n) = n < 2 ^ 32
InRange (int32 z) = IsInt32 z
InRange (uint64 n) = n < 2 ^ 64
InRange (int64 z) = IsInt64 z
InRange (float x) = x < 2 ^ 32
InRange (double x) = x < 2 ^ 64
InRange _ = Unit

-- The type that a field must have for a value to come back.
abbrev pub info_of : Data → ObjectInfo
info_of (bool b) = primitive_field bool_info
info_of (uint32 n) = primitive_field uint32_info
info_of (int32 z) = primitive_field int32_info
info_of (uint64 n) = primitive_field uint64_info
info_of (int64 z) = primitive_field int64_info
info_of (float x) = primitive_field float_info
info_of (double x) = primitive_field double_info
info_of (string s) = primitive_field string_info
info_of (message m) = message_object

module _ (objects : MessagePath → Option ObjectInfo)
    (parse : MessagePath → Bytes → Option Bytes) where
  -- A message that was serialised parses again.
  abbrev pub Parses : MessagePath → Data → Type 0
  Parses p (message m) = parse p m ≡ some m
  Parses p _ = Unit

  abbrev pub IsTyped : Attribute → Type 0
  IsTyped a = (objects a.path ≡ some (info_of a.value)) × InRange a.value × Parses a.path a.value

  typed_payload :
      (p : MessagePath) (d : Data)
      → objects p ≡ some (info_of d)
      → InRange d
      → Parses p d
      → attribute_from_proto objects parse (attribute_to_proto (record { path = p; value = d }))
        ≡ ok (record { path = p; value = d })
  unfolding attribute_from_proto attribute_to_proto first_byte
  typed_payload p (bool true) o r q = rw (o, attribute_from_proto)
  typed_payload p (bool false) o r q = rw (o, attribute_from_proto)
  typed_payload p (uint32 n) o r q = rw (o, attribute_from_proto) (rw (read32-bytes32 n r))
  typed_payload p (int32 z) o r q =
      rw (o, attribute_from_proto) (rw (read32-bytes32 _ (bits32-lt z r), to_int32-bits32 z r))
  typed_payload p (uint64 n) o r q = rw (o, attribute_from_proto) (rw (read64-bytes64 n r))
  typed_payload p (int64 z) o r q =
      rw (o, attribute_from_proto) (rw (read64-bytes64 _ (bits64-lt z r), to_int64-bits64 z r))
  typed_payload p (float x) o r q = rw (o, attribute_from_proto) (rw (read32-bytes32 x r))
  typed_payload p (double x) o r q = rw (o, attribute_from_proto) (rw (read64-bytes64 x r))
  typed_payload p (string s) o r q = rw (o, attribute_from_proto)
  typed_payload p (message m) o r q = rw (o, attribute_from_proto) (rw q)

  -- An attribute whose value has the type of the field at its path, and is in the range of that
  -- type, is read back from its payload as it was.
  pub attribute_from_proto-attribute_to_proto :
      (a : Attribute) → IsTyped a → attribute_from_proto objects parse (attribute_to_proto a) ≡ ok a
  attribute_from_proto-attribute_to_proto a (o, r, q) = typed_payload a.path a.value o r q
