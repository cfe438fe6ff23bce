-- ===== src/Ipc/Decoder.antt =====
-- DecodeBinaryTemperature and ProcessBuffer of the binary decoders in lib/ipc/decode_encode.cpp.
-- A loop at `pos` has the bytes of the buffer from there on, as the pointer `buffer + pos`.
use my_orm.Prelude.{
  ℕ, zero, suc, ◌+◌, ◌*◌, ◌^◌, not, Option, none, some, [], ◌∷◌, Bytes, length, drop, replicate,
  ltb, ◌==◌, nat_eq, if◌then◌else◌, Outcome, ok, err, ◌>>=◌,
}
use my_orm.Prelude.Int.{ℤ, to_int8}
use my_orm.Ipc.{Fault, Floating, BinaryKind, byte, size_minus, xor_all}
use Prim.Native.Nat.{bit_xor}

-- The `count` bytes from the start of the window, read one by one.
unfoldable pub read_bytes : Bytes → ℕ → Outcome Fault Bytes
read_bytes window zero = ok []
read_bytes [] (suc count) = err Fault.out_of_bounds
read_bytes (b ∷ window) (suc count) = read_bytes window count >>= λ payload. ok (b ∷ payload)

-- The body of the loop of the three functions, which differ in the margin, the length of the data
-- and the value. `next` is what the loop does after `continue`.
unfoldable pub decode_step {ℓ} :
    {D : Type ℓ} (size data_size : ℕ) (value : Bytes → Outcome Fault D) (pos : ℕ) (window : Bytes)
    → Outcome Fault (Option D)
    → Outcome Fault (Option D)
unfolding byte xor_all read_bytes
decode_step size data_size value pos window next = byte window 0 >>= λ start.
    if not (start == 0x02)
    then next
    else (byte window 1 >>= λ cmd.
        if not (cmd == 0x54)
        then next
        else (byte window 2 >>= λ data_len.
            if not (data_len == data_size)
            then next
            else if ltb size (pos + 3 + data_len + 2)
            then ok none
            else (byte window (3 + data_len + 1) >>= λ last.
                if not (last == 0x03)
                then next
                else (read_bytes (drop 3 window) data_len >>= λ payload.
                    byte window (3 + data_len) >>= λ packet_checksum.
                    if not (xor_all (bit_xor cmd data_len) payload == packet_checksum)
                    then next
                    else (value payload >>= λ temp. ok (some temp))))))

-- `for (size_t pos = 0; pos < limit; pos++)`
unfoldable pub decode_from {ℓ} :
    {D : Type ℓ} (size limit data_size : ℕ) (value : Bytes → Outcome Fault D) (pos : ℕ)
    → Bytes
    → Outcome Fault (Option D)
unfolding decode_step
decode_from size limit data_size value pos [] =
    if ltb pos limit then decode_step size data_size value pos [] (ok none) else ok none
decode_from size limit data_size value pos (first ∷ rest) =
    let next = decode_from size limit data_size value (suc pos) rest in
    if ltb pos limit then decode_step size data_size value pos (first ∷ rest) next else ok none

module _ (F : Floating) where
  -- What the three functions return for the data of a packet.
  unfoldable pub byte_integer_value : Bytes → Outcome Fault F.Double
  byte_integer_value payload = byte payload 0 >>= λ b. ok (F.from_int (to_int8 b))

  unfoldable pub fixed_point_value : Bytes → Outcome Fault F.Double
  fixed_point_value payload = byte payload 0 >>= λ high. byte payload 1 >>= λ low.
      ok (F.over (F.from_int (ℤ.pos (high * 2 ^ 8 + low))) (F.from_int (ℤ.pos 10)))

  unfoldable pub floating_point_value : Bytes → Outcome Fault F.Double
  floating_point_value payload = byte payload 0 >>= λ b0. byte payload 1 >>= λ b1.
      byte payload 2 >>= λ b2.
      byte payload 3 >>= λ b3. ok (F.float_of_bits (b0 * 2 ^ 24 + b1 * 2 ^ 16 + b2 * 2 ^ 8 + b3))

-- The number that is taken from the size, the length of the data, and the value, by subclass.
unfoldable pub margin : BinaryKind → ℕ
margin BinaryKind.byte_integer = 5
margin BinaryKind.fixed_point = 6
margin BinaryKind.floating_point = 8

unfoldable pub data_size : BinaryKind → ℕ
data_size BinaryKind.byte_integer = 1
data_size BinaryKind.fixed_point = 2
data_size BinaryKind.floating_point = 4

module _ (F : Floating) where
  unfoldable pub value : BinaryKind → Bytes → Outcome Fault F.Double
  value BinaryKind.byte_integer = byte_integer_value F
  value BinaryKind.fixed_point = fixed_point_value F
  value BinaryKind.floating_point = floating_point_value F

  unfoldable pub decode_binary_temperature : BinaryKind → Bytes → Outcome Fault (Option F.Double)
  unfolding decode_from margin data_size value size_minus
  decode_binary_temperature kind buffer =
      let size = length buffer in
      decode_from size (size_minus size (margin kind)) (data_size kind) (value kind) 0 buffer

-- `std::copy` to the front and `resize`, or a new buffer when nothing is left.
unfoldable pub remove : Bytes → ℕ → Bytes
remove buffer end = if ltb end (length buffer) then drop end buffer else replicate 256 0

-- The body of the loop of ProcessBuffer, which gives the buffer and what is returned.
unfoldable pub process_step :
    (buffer : Bytes) (pos : ℕ) (window : Bytes)
    → Outcome Fault (Bytes × ℕ)
    → Outcome Fault (Bytes × ℕ)
unfolding byte remove
process_step buffer pos window next = byte window 0 >>= λ start.
    if not (start == 0x02)
    then next
    else (byte window 1 >>= λ cmd.
        if not (cmd == 0x54)
        then next
        else (byte window 2 >>= λ data_len.
            if ltb (length buffer) (pos + 3 + data_len + 2)
            then ok (buffer, 0)
            else (byte window (3 + data_len + 1) >>= λ last.
                if last == 0x03
                then ok (remove buffer (pos + 3 + data_len + 2), pos + 3 + data_len + 2)
                else next)))

unfoldable pub process_from : (buffer : Bytes) (limit pos : ℕ) → Bytes → Outcome Fault (Bytes × ℕ)
unfolding process_step
process_from buffer limit pos [] =
    if ltb pos limit then process_step buffer pos [] (ok (buffer, 0)) else ok (buffer, 0)
process_from buffer limit pos (first ∷ rest) =
    let next = process_from buffer limit (suc pos) rest in
    if ltb pos limit then process_step buffer pos (first ∷ rest) next else ok (buffer, 0)

unfoldable pub process_buffer : Bytes → Outcome Fault (Bytes × ℕ)
unfolding process_from size_minus
process_buffer buffer = process_from buffer (size_minus (length buffer) 5) 0 buffer
