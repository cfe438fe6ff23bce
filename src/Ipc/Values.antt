-- ===== src/Ipc/Values.antt =====
-- What the binary decoders of lib/ipc/decode_encode.cpp read from what the encoders write.
use my_orm.Prelude.{
  ℕ, ◌/◌, ◌%◌, ◌^◌, ◌<◌, ◌≡◌, refl, ap, sym, true, false, some, [], ◌∷◌, ◌++◌, append-nil, Bytes,
  length, ok, arith,
}
use my_orm.Prelude.Int.{ℤ, negsuc, IsInt8, IsInt16, bits8, bits16, to_int8-bits8}
use my_orm.Ipc.{Floating, BinaryKind, byte, is_ready}
use my_orm.Ipc.Encoder.{
  fits, to_integer, encode_byte_integer, encode_fixed_point, encode_floating_point,
  encode_binary_temperature, packet, write_temperature,
}
use my_orm.Ipc.Decoder.{
  byte_integer_value, fixed_point_value, floating_point_value, value, data_size,
}
use my_orm.Ipc.Packets.{left_over, length-packet}
use my_orm.Ipc.Delivery.{read_temperature-packet, sizes}
use my_orm.Ipc.Queue.{new_buffer_idle}
use my_orm.Ipc.Reader.{new_buffer, read_temperature}

fits8 : (z : ℤ) → IsInt8 z → fits 7 z ≡ true
unfolding fits
fits8 (ℤ.pos n) h = ground arith
fits8 (negsuc n) h = ground arith

fits16 : (z : ℤ) → IsInt16 z → fits 15 z ≡ true
unfolding fits
fits16 (ℤ.pos n) h = ground arith
fits16 (negsuc n) h = ground arith

module _ (F : Floating) where
  -- A decoder that gets what the encoder of its subclass wrote for `temp` returns `seen`.
  abbrev pub Arrives : BinaryKind → (temp seen : F.Double) → Type 0
  Arrives kind temp seen =
      (sent : Bytes) × (write_temperature F (some true) kind temp ≡ ok sent)
      × (read_temperature F (some true) kind sent new_buffer ≡ (new_buffer, ok seen))

  arrives :
      (kind : BinaryKind) (temp seen : F.Double) (payload : Bytes)
      → encode_binary_temperature F kind temp ≡ ok payload
      → length payload ≡ data_size kind
      → value F kind payload ≡ ok seen
      → Arrives kind temp seen
  unfolding write_temperature left_over is_ready
  arrives kind temp seen payload he hd hv =
      let (_, _, small) = sizes kind in
      (
        packet payload,
        rw he refl,
        read_temperature-packet F kind (packet payload) new_buffer new_buffer payload [] seen
            (omega arith) (omega (arith, length-packet payload, hd, small))
            (ap (λ s. new_buffer ++ s) (sym (append-nil (packet payload)))) new_buffer_idle hd hv,
      )

  to_integer-fits :
      (n : ℕ) (temp : F.Double) (z : ℤ)
      → F.truncated temp ≡ some z
      → fits n z ≡ true
      → to_integer F n temp ≡ ok z
  unfolding to_integer
  to_integer-fits n temp z h hz = ground arith

  -- An integral temperature of int8_t arrives unchanged through the byte format, when comparison,
  -- rounding and conversion of `double` are exact on it.
  pub byte_integer-Arrives :
      (z : ℤ)
      → IsInt8 z
      → F.less (F.from_int z) (F.from_int (negsuc 127)) ≡ false
      → F.less (F.from_int (ℤ.pos 127)) (F.from_int z) ≡ false
      → F.truncated (F.round (F.from_int z)) ≡ some z
      → Arrives BinaryKind.byte_integer (F.from_int z) (F.from_int z)
  unfolding encode_binary_temperature value encode_byte_integer byte_integer_value data_size byte
  byte_integer-Arrives z hz low high exact =
      arrives BinaryKind.byte_integer (F.from_int z) (F.from_int z) (bits8 z ∷ [])
        (ground (arith, to_integer-fits 7 (F.round (F.from_int z)) z exact (fits8 z hz))) refl
        (ap (λ n. ok (F.from_int n)) (to_int8-bits8 z hz))

  -- Through the fixed point format, a temperature whose tenfold rounds to the int16_t `z` arrives as
  -- a tenth of the 16 bits of `z` read without a sign: a negative one arrives as 6553.6 more.
  pub fixed_point-Arrives :
      (temp : F.Double) (z : ℤ)
      → IsInt16 z
      → F.truncated (F.round (F.times temp (F.from_int (ℤ.pos 10)))) ≡ some z
      → Arrives BinaryKind.fixed_point temp
          (F.over (F.from_int (ℤ.pos (bits16 z))) (F.from_int (ℤ.pos 10)))
  unfolding encode_binary_temperature value encode_fixed_point fixed_point_value data_size byte
  fixed_point-Arrives temp z hz exact =
      arrives BinaryKind.fixed_point temp _ (bits16 z / 2 ^ 8 ∷ bits16 z % 2 ^ 8 ∷ [])
        (ground (
          arith,
          to_integer-fits 15 (F.round (F.times temp (F.from_int (ℤ.pos 10)))) z exact (fits16 z hz),
        ))
        refl (ap (λ n. ok (F.over (F.from_int (ℤ.pos n)) (F.from_int (ℤ.pos 10)))) (omega arith))

  -- Through the floating point format a temperature arrives as the float nearest to it, when the
  -- bits of a float are 32.
  pub floating_point-Arrives :
      (temp : F.Double)
      → F.float_bits temp < 2 ^ 32
      → Arrives BinaryKind.floating_point temp (F.float_of_bits (F.float_bits temp))
  unfolding encode_binary_temperature value encode_floating_point floating_point_value data_size
      byte
  floating_point-Arrives temp h =
      arrives BinaryKind.floating_point temp _ _ refl refl
        (ap (λ n. ok (F.float_of_bits n)) (omega arith))
