-- ===== src/Ipc/Encoder.antt =====
-- The encoders of lib/ipc/decode_encode.cpp, up to the bytes that they give to TComPort::Write.
use my_orm.Prelude.{
  ℕ, ◌/◌, ◌%◌, ◌^◌, Bool, ◌||◌, Option, none, some, [], ◌∷◌, ◌++◌, Bytes, length, ltb,
  if◌then◌else◌, Outcome, ok, err, ◌>>=◌, ◌>>◌, ensure,
}
use my_orm.Prelude.Int.{ℤ, pos, negsuc, bits8, bits16}
use my_orm.Ipc.{Fault, Floating, BinaryKind, xor_all, is_ready}
use Prim.Native.Nat.{bit_xor}

-- Whether an integer type with the values from -2^n to 2^n - 1 has the value.
unfoldable pub fits : ℕ → ℤ → Bool
fits n (pos m) = ltb m (2 ^ n)
fits n (negsuc m) = ltb m (2 ^ n)

module _ (F : Floating) where
  -- static_cast to an integer type with the values from -2^n to 2^n - 1, undefined outside.
  unfoldable pub to_integer : ℕ → F.Double → Outcome Fault ℤ
  unfolding fits
  to_integer n value = elim (F.truncated value) [
    | none ↦ err Fault.unrepresentable
    | some z ↦ if fits n z then ok z else err Fault.unrepresentable
  ]

  -- std::clamp
  unfoldable pub clamp : F.Double → F.Double → F.Double → F.Double
  clamp value low high = if F.less value low then low else if F.less high value then high else value

  unfoldable pub encode_byte_integer : F.Double → Outcome Fault Bytes
  unfolding to_integer clamp
  encode_byte_integer value =
      let low = F.from_int (negsuc 127) in
      let high = F.from_int (pos 127) in
      let clamped = if F.less value low || F.less high value then clamp value low high else value in
      to_integer 7 (F.round clamped) >>= λ temp. ok (bits8 temp ∷ [])

  unfoldable pub encode_fixed_point : F.Double → Outcome Fault Bytes
  unfolding to_integer
  encode_fixed_point value =
      to_integer 15 (F.round (F.times value (F.from_int (pos 10)))) >>= λ temp.
      ok (bits16 temp / 2 ^ 8 ∷ bits16 temp % 2 ^ 8 ∷ [])

  unfoldable pub encode_floating_point : F.Double → Outcome Fault Bytes
  encode_floating_point value =
      let bits = F.float_bits value in
      ok (bits / 2 ^ 24 % 2 ^ 8 ∷ bits / 2 ^ 16 % 2 ^ 8 ∷ bits / 2 ^ 8 % 2 ^ 8 ∷ bits % 2 ^ 8 ∷ [])

  -- EncodeBinaryTemperature, dispatched on the subclass.
  unfoldable pub encode_binary_temperature : BinaryKind → F.Double → Outcome Fault Bytes
  encode_binary_temperature BinaryKind.byte_integer value = encode_byte_integer value
  encode_binary_temperature BinaryKind.fixed_point value = encode_fixed_point value
  encode_binary_temperature BinaryKind.floating_point value = encode_floating_point value

-- The packet that WriteTemperature puts around the data.
unfoldable pub packet : Bytes → Bytes
unfolding xor_all
packet payload =
    let data_len = length payload % 2 ^ 8 in
    0x02 ∷ 0x54 ∷ data_len ∷ payload ++ xor_all (bit_xor 0x54 data_len) payload ∷ 0x03 ∷ []

-- The text that WriteTemperature of the text encoder puts between `T=` and ETX, and its packet.
unfoldable pub text_packet : Bytes → Bytes
text_packet temp = 0x02 ∷ b'T' ∷ b'=' ∷ temp ++ 0x03 ∷ 0x0D ∷ 0x0A ∷ []

module _ (F : Floating) where
  unfoldable pub write_temperature : Option Bool → BinaryKind → F.Double → Outcome Fault Bytes
  unfolding encode_binary_temperature packet is_ready
  write_temperature port kind value = do
    ensure (is_ready port) Fault.not_open
    payload ← encode_binary_temperature F kind value
    ok (packet payload)

  unfoldable pub temperature_text : ℕ → F.Double → Bytes
  temperature_text precision value =
      (if F.at_least value (F.from_int (pos 0)) then b'+' ∷ [] else [])
      ++ F.print_fixed precision value
      ++ b'C' ∷ []

  unfoldable pub write_text_temperature : Option Bool → ℕ → F.Double → Outcome Fault Bytes
  unfolding text_packet temperature_text is_ready
  write_text_temperature port precision value =
      ensure (is_ready port) Fault.not_open >> ok (text_packet (temperature_text precision value))
