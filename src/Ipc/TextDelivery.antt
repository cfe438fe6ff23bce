-- ===== src/Ipc/TextDelivery.antt =====
-- Calls of ReadTemperature of the text decoder in lib/ipc/decode_encode.cpp on buffers with packets.
use my_orm.Prelude.{
  ℕ, suc, ◌+◌, ◌^◌, ◌≤◌, ◌<◌, ◌≡◌, ◌≢◌, ap, sym, ◌∙◌, true, none, some, [], ◌∷◌, ◌++◌, append_assoc,
  Bytes, All, length, length-append, ok, arith,
}
use my_orm.Ipc.{Floating, byte, is_ready}
use my_orm.Ipc.Encoder.{text_packet}
use my_orm.Ipc.Decoder.{remove}
use my_orm.Ipc.TextDecoder.{
  until_etx, decode_text_temperature, process_text_step, process_text_from, process_text_buffer,
}
use my_orm.Ipc.Packets.{size_minus_le, byte-append, remove-left_over, left_over}
use my_orm.Ipc.TextPackets.{
  until_etx-append, decode_text_from-append, decode_text_from_end, decode_text_from-packet,
}
use my_orm.Ipc.Reader.{reset_if_full, decode_and_process, read_text_temperature}

module _ (buffer : Bytes) (limit : ℕ) where
  process_text_from_skip :
      (b at : ℕ) (window : Bytes)
      → b ≢ 0x02
      → at < limit
      → process_text_from buffer limit at (b ∷ window)
        ≡ process_text_from buffer limit (suc at) window
  unfolding process_text_from process_text_step byte
  process_text_from_skip b at window other h = ground arith

  process_text_from-append :
      (noise : Bytes) (at : ℕ) (window : Bytes)
      → All (λ b. b ≢ 0x02) noise
      → at + length noise ≤ limit
      → process_text_from buffer limit at (noise ++ window)
        ≡ process_text_from buffer limit (at + length noise) window
  process_text_from-append [] at window other h =
      ap (λ i. process_text_from buffer limit i window) (omega arith)
  process_text_from-append (b ∷ noise) at window (hb, other) h =
      process_text_from_skip b at (noise ++ window) hb (omega arith)
      ∙ process_text_from-append noise (suc at) window other (omega arith)
      ∙ ap (λ i. process_text_from buffer limit i window) (omega arith)

  process_text_from-packet :
      (at end : ℕ) (temp rest : Bytes)
      → All (λ b. b ≢ 0x03) temp
      → at < limit
      → end ≡ at + length temp + 6
      → end ≤ length buffer
      → process_text_from buffer limit at (text_packet temp ++ rest) ≡ ok (remove buffer end, end)
  unfolding process_text_from process_text_step text_packet byte
  process_text_from-packet at end temp rest plain hl he hs =
      let tail = 0x0D ∷ 0x0A ∷ rest in
      let whole = append_assoc temp (0x03 ∷ 0x0D ∷ 0x0A ∷ []) rest in
      let message = b'T' ∷ b'=' ∷ temp in
      let found : until_etx (message ++ 0x03 ∷ tail) ≡ some message =
        until_etx-append message tail
          ((λ e. absurd (omega arith)), ((λ e. absurd (omega arith)), plain)) in
      let exact : at + (1 + (suc (suc (length temp)))) + 3 ≡ end = omega arith in
      ground (
        arith,
        whole,
        found,
        exact,
        byte-append temp (0x03 ∷ tail) (suc (length temp)) 1 (omega arith),
        byte-append temp (0x03 ∷ tail) (suc (suc (length temp))) 2 (omega arith),
      )

length-text_packet : (temp : Bytes) → length (text_packet temp) ≡ length temp + 6
unfolding text_packet
length-text_packet temp = omega (arith, length-append temp (0x03 ∷ 0x0D ∷ 0x0A ∷ []))

length-text :
    (noise temp rest : Bytes)
    → length (noise ++ (text_packet temp ++ rest)) ≡ length noise + (length temp + 6) + length rest
length-text noise temp rest = omega (
  arith,
  length-append noise (text_packet temp ++ rest),
  length-append (text_packet temp) rest,
  length-text_packet temp,
)

-- The packet of a temperature between other bytes.
abbrev pub text_buffer : (noise number rest : Bytes) → Bytes
text_buffer noise number rest = noise ++ (text_packet (number ++ b'C' ∷ []) ++ rest)

module _ (F : Floating) (noise number rest : Bytes) (other : All (λ b. b ≢ 0x02) noise)
    (plain : All (λ b. b ≢ 0x03) (number ++ b'C' ∷ [])) where
  decode_text-packet :
      (temp : F.Double)
      → F.read_number number ≡ some temp
      → 4 ≤ length number + length rest
      → length (text_buffer noise number rest) < 2 ^ 64
      → decode_text_temperature F (text_buffer noise number rest) ≡ ok (some temp)
  unfolding decode_text_temperature
  decode_text-packet temp hn enough bound =
      let celsius = number ++ b'C' ∷ [] in
      let size = length-text noise celsius rest in
      let more = length-append number (b'C' ∷ []) in
      let limit = size_minus_le (length (text_buffer noise number rest)) 10 (omega arith) bound in
      decode_text_from-append F (length (text_buffer noise number rest)) _ noise 0
        (text_packet celsius ++ rest) other (omega arith)
      ∙ decode_text_from-packet F (length (text_buffer noise number rest)) _ (0 + length noise)
          number rest temp plain hn (omega arith) (omega arith)

  decode_text_late :
      length number + length rest < 4
      → 10 ≤ length (text_buffer noise number rest)
      → length (text_buffer noise number rest) < 2 ^ 64
      → decode_text_temperature F (text_buffer noise number rest) ≡ ok none
  unfolding decode_text_temperature
  decode_text_late late long bound =
      let celsius = number ++ b'C' ∷ [] in
      let size = length-text noise celsius rest in
      let more = length-append number (b'C' ∷ []) in
      let limit = size_minus_le (length (text_buffer noise number rest)) 10 long bound in
      decode_text_from_end F (length (text_buffer noise number rest)) _ noise 0
        (text_packet celsius ++ rest) other (omega arith) (omega arith)

  process_text-packet :
      length (text_buffer noise number rest) < 2 ^ 64
      → process_text_buffer (text_buffer noise number rest)
        ≡ ok (left_over rest, length noise + length number + 7)
  unfolding process_text_buffer
  process_text-packet bound =
      let celsius = number ++ b'C' ∷ [] in
      let size = length-text noise celsius rest in
      let more = length-append number (b'C' ∷ []) in
      let limit = size_minus_le (length (text_buffer noise number rest)) 5 (omega arith) bound in
      let end : length noise + length number + 7 ≡ length (noise ++ text_packet celsius) =
        omega
          (arith, more, length-append noise (text_packet celsius), length-text_packet celsius) in
      let taken =
        ap (λ b. remove b (length noise + length number + 7))
          (sym (append_assoc noise (text_packet celsius) rest))
        ∙ remove-left_over (noise ++ text_packet celsius) rest _ end in
      process_text_from-append (text_buffer noise number rest) _ noise 0
        (text_packet celsius ++ rest) other (omega arith)
      ∙ process_text_from-packet (text_buffer noise number rest) _ (0 + length noise)
          (length noise + length number + 7) celsius rest plain (omega arith) (omega arith)
          (omega arith)
      ∙ ap (λ b. ok (b, length noise + length number + 7)) taken

read_text_filled :
    (F : Floating) (chunk buffer filled : Bytes)
    → length buffer < 1024
    → buffer ++ chunk ≡ filled
    → read_text_temperature F (some true) chunk buffer
      ≡ decode_and_process F.nan
          (decode_text_temperature F filled)
          (process_text_buffer filled)
          filled
unfolding read_text_temperature reset_if_full is_ready
read_text_filled F chunk buffer filled hb h = ground (arith, h)

-- A call of the text decoder on an open port, when the bytes that come in complete the packet of a
-- temperature without ETX behind bytes that are no start of a packet, in a buffer below the largest
-- size: if the number and what follows the packet have at least four bytes, the call returns the
-- number that std::stod reads and drops the packet.
pub read_text_temperature-packet :
    (F : Floating) (chunk buffer noise number rest : Bytes) (temp : F.Double)
    → length buffer < 1024
    → length chunk ≤ 256
    → buffer ++ chunk ≡ text_buffer noise number rest
    → All (λ b. b ≢ 0x02) noise
    → All (λ b. b ≢ 0x03) (number ++ b'C' ∷ [])
    → F.read_number number ≡ some temp
    → 4 ≤ length number + length rest
    → read_text_temperature F (some true) chunk buffer ≡ (left_over rest, ok temp)
unfolding decode_and_process
read_text_temperature-packet F chunk buffer noise number rest temp hb hc filled other plain hn
      enough =
    let all = text_buffer noise number rest in
    let bound : length all < 2 ^ 64 = omega (arith, length-append buffer chunk, ap length filled) in
    let found = decode_text-packet F noise number rest other plain temp hn enough bound in
    let taken = process_text-packet F noise number rest other plain bound in
    read_text_filled F chunk buffer all hb filled
    ∙ ap (λ found. decode_and_process F.nan found (process_text_buffer all) all) found
    ∙ ap (λ taken. decode_and_process F.nan (ok (some temp)) taken all) taken

-- If the number and what follows the packet have fewer than four bytes, and there are ten bytes or
-- more, the call returns NaN, and drops the packet all the same.
pub read_text_temperature_late :
    (F : Floating) (chunk buffer noise number rest : Bytes)
    → length buffer < 1024
    → length chunk ≤ 256
    → buffer ++ chunk ≡ text_buffer noise number rest
    → All (λ b. b ≢ 0x02) noise
    → All (λ b. b ≢ 0x03) (number ++ b'C' ∷ [])
    → length number + length rest < 4
    → 10 ≤ length buffer + length chunk
    → read_text_temperature F (some true) chunk buffer ≡ (left_over rest, ok F.nan)
unfolding decode_and_process
read_text_temperature_late F chunk buffer noise number rest hb hc filled other plain late long =
    let all = text_buffer noise number rest in
    let size : length all ≡ length buffer + length chunk =
      omega (arith, length-append buffer chunk, ap length filled) in
    let found = decode_text_late F noise number rest other plain late (omega arith) (omega arith) in
    let taken = process_text-packet F noise number rest other plain (omega arith) in
    read_text_filled F chunk buffer all hb filled
    ∙ ap (λ found. decode_and_process F.nan found (process_text_buffer all) all) found
    ∙ ap (λ taken. decode_and_process F.nan (ok none) taken all) taken
