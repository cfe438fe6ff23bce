-- ===== src/Ipc/Delivery.antt =====
-- Calls of ReadTemperature of the binary decoders on buffers that hold packets.
use my_orm.Prelude.{
  ◌+◌, ◌^◌, ◌≤◌, ◌<◌, ◌≡◌, ◌≢◌, refl, ap, sym, ◌∙◌, true, some, [], ◌∷◌, ◌++◌, append_assoc, Bytes,
  All, length, length-append, ok, arith,
}
use my_orm.Ipc.{Floating, BinaryKind, byte, is_ready}
use my_orm.Ipc.Encoder.{packet}
use my_orm.Ipc.Decoder.{
  byte_integer_value, fixed_point_value, floating_point_value, value, data_size, margin,
  decode_binary_temperature, process_buffer, remove,
}
use my_orm.Ipc.Packets.{
  size_minus_le, decode_from-append, decode_from-packet, process_from-append, process_from-packet,
  remove-left_over, left_over, length-buffer, length-packet,
}
use my_orm.Ipc.Reader.{reset_if_full, decode_and_process, read_temperature}

pub sizes :
    (kind : BinaryKind)
    → (margin kind ≡ data_size kind + 4) × (0 < data_size kind) × (data_size kind ≤ 4)
unfolding margin data_size
sizes BinaryKind.byte_integer = (omega arith, omega arith, omega arith)
sizes BinaryKind.fixed_point = (omega arith, omega arith, omega arith)
sizes BinaryKind.floating_point = (omega arith, omega arith, omega arith)

module _ (F : Floating) where
  -- Data of the right length have a value.
  pub value_total :
      (kind : BinaryKind) (payload : Bytes)
      → length payload ≡ data_size kind
      → (v : F.Double) × (value F kind payload ≡ ok v)
  unfolding value data_size byte_integer_value fixed_point_value floating_point_value byte
  value_total BinaryKind.byte_integer (a ∷ []) h = (_, refl)
  value_total BinaryKind.fixed_point (a ∷ b ∷ []) h = (_, refl)
  value_total BinaryKind.floating_point (a ∷ b ∷ c ∷ d ∷ []) h = (_, refl)
  value_total BinaryKind.byte_integer [] h = absurd (omega arith)
  value_total BinaryKind.byte_integer (a ∷ b ∷ s) h = absurd (omega arith)
  value_total BinaryKind.fixed_point [] h = absurd (omega arith)
  value_total BinaryKind.fixed_point (a ∷ []) h = absurd (omega arith)
  value_total BinaryKind.fixed_point (a ∷ b ∷ c ∷ s) h = absurd (omega arith)
  value_total BinaryKind.floating_point [] h = absurd (omega arith)
  value_total BinaryKind.floating_point (a ∷ []) h = absurd (omega arith)
  value_total BinaryKind.floating_point (a ∷ b ∷ []) h = absurd (omega arith)
  value_total BinaryKind.floating_point (a ∷ b ∷ c ∷ []) h = absurd (omega arith)
  value_total BinaryKind.floating_point (a ∷ b ∷ c ∷ d ∷ e ∷ s) h = absurd (omega arith)

  -- Bytes that are no start of a packet, a packet whose data have the length that the decoder
  -- expects, and any bytes behind it, fewer than 2^64 altogether: the decoder returns the value of
  -- the data of that packet.
  pub decode-packet :
      (kind : BinaryKind) (noise payload rest : Bytes) (v : F.Double)
      → All (λ b. b ≢ 0x02) noise
      → length payload ≡ data_size kind
      → value F kind payload ≡ ok v
      → length (noise ++ (packet payload ++ rest)) < 2 ^ 64
      → decode_binary_temperature F kind (noise ++ (packet payload ++ rest)) ≡ ok (some v)
  unfolding decode_binary_temperature
  decode-packet kind noise payload rest v other hd hv bound =
      let buffer = noise ++ (packet payload ++ rest) in
      let (hm, positive, small) = sizes kind in
      let size = length-buffer noise payload rest in
      let limit = size_minus_le (length buffer) (margin kind) (omega arith) bound in
      decode_from-append (length buffer) _ (data_size kind) (value F kind) noise 0
        (packet payload ++ rest) other (omega arith)
      ∙ decode_from-packet (length buffer) _ (data_size kind) (value F kind) (0 + length noise)
          payload rest v hd (omega arith) (omega arith) (omega arith) hv

-- ProcessBuffer takes such a packet off, with the bytes before it.
pub process_buffer-packet :
    (noise payload rest : Bytes)
    → All (λ b. b ≢ 0x02) noise
    → 0 < length payload
    → length payload < 256
    → length (noise ++ (packet payload ++ rest)) < 2 ^ 64
    → process_buffer (noise ++ (packet payload ++ rest))
      ≡ ok (left_over rest, length noise + length payload + 5)
unfolding process_buffer
process_buffer-packet noise payload rest other positive small bound =
    let buffer = noise ++ (packet payload ++ rest) in
    let size = length-buffer noise payload rest in
    let end : 0 + length noise + length payload + 5 ≡ length noise + length payload + 5 =
      omega arith in
    let limit = size_minus_le (length buffer) 5 (omega arith) bound in
    let seen : 0 + length noise + length payload + 5 ≡ length (noise ++ packet payload) =
      omega (arith, length-append noise (packet payload), length-packet payload) in
    let taken =
      ap (λ b. remove b (0 + length noise + length payload + 5))
        (sym (append_assoc noise (packet payload) rest))
      ∙ remove-left_over (noise ++ packet payload) rest _ seen in
    process_from-append buffer _ noise 0 (packet payload ++ rest) other (omega arith)
    ∙ process_from-packet buffer _ (0 + length noise) payload rest small (omega arith) (omega arith)
    ∙ ground (arith, taken, end)

-- A call on an open port, with a buffer below the largest size.
pub read_filled :
    (F : Floating) (kind : BinaryKind) (chunk buffer filled : Bytes)
    → length buffer < 1024
    → buffer ++ chunk ≡ filled
    → read_temperature F (some true) kind chunk buffer
      ≡ decode_and_process F.nan
          (decode_binary_temperature F kind filled)
          (process_buffer filled)
          filled
unfolding read_temperature reset_if_full is_ready
read_filled F kind chunk buffer filled hb h = ground (arith, h)

-- What a call does when the bytes of the port complete a packet of the decoder's subclass behind
-- bytes that are no start of a packet, in a buffer below the largest size: it returns the value of
-- the data, and keeps the bytes behind the packet, or the constructor's buffer when there are none.
pub read_temperature-packet :
    (F : Floating) (kind : BinaryKind) (chunk buffer noise payload rest : Bytes) (v : F.Double)
    → length buffer < 1024
    → length chunk ≤ 256
    → buffer ++ chunk ≡ noise ++ (packet payload ++ rest)
    → All (λ b. b ≢ 0x02) noise
    → length payload ≡ data_size kind
    → value F kind payload ≡ ok v
    → read_temperature F (some true) kind chunk buffer ≡ (left_over rest, ok v)
unfolding decode_and_process
read_temperature-packet F kind chunk buffer noise payload rest v hb hc filled other hd hv =
    let all = noise ++ (packet payload ++ rest) in
    let (hm, positive, small) = sizes kind in
    let bound : length (noise ++ (packet payload ++ rest)) < 2 ^ 64 =
      omega (arith, length-append buffer chunk, ap length filled) in
    let found = decode-packet F kind noise payload rest v other hd hv bound in
    let taken = process_buffer-packet noise payload rest other (omega arith) (omega arith) bound in
    read_filled F kind chunk buffer all hb filled
    ∙ ap (λ found. decode_and_process F.nan found (process_buffer all) all) found
    ∙ ap (λ taken. decode_and_process F.nan (ok (some v)) taken all) taken
