-- ===== src/Ipc/Packets.antt =====
-- How the loops of the binary decoder go over the bytes before a packet, and over the packet.
use my_orm.Prelude.{
  ℕ, zero, suc, ◌+◌, ◌-◌, ◌%◌, ◌^◌, ◌≤◌, ◌<◌, ◌≡◌, ◌≢◌, refl, ap, ◌∙◌, some, List, [], ◌∷◌, ◌++◌,
  append_assoc, Bytes, All, length, length-append, drop, Outcome, ok, arith,
}
use my_orm.Ipc.{Fault, byte, size_minus, xor_all}
use my_orm.Ipc.Encoder.{packet}
use my_orm.Ipc.Decoder.{read_bytes, decode_step, decode_from, remove, process_step, process_from}
use my_orm.Ipc.Reader.{new_buffer}
use Prim.Native.Nat.{bit_xor}

pub size_minus_le : (a b : ℕ) → b ≤ a → a < 2 ^ 64 → size_minus a b ≡ a - b
unfolding size_minus
size_minus_le a b h bound = omega arith

pub byte-append : (xs ys : Bytes) (n i : ℕ) → n ≡ length xs + i → byte (xs ++ ys) n ≡ byte ys i
unfolding byte
byte-append [] ys n i h = ap (byte ys) (omega arith)
byte-append (x ∷ xs) ys zero i h = absurd (omega arith)
byte-append (x ∷ xs) ys (suc n) i h = byte-append xs ys n i (omega arith)

pub read_bytes-append : (xs ys : Bytes) → read_bytes (xs ++ ys) (length xs) ≡ ok xs
unfolding read_bytes
read_bytes-append [] ys = refl
read_bytes-append (x ∷ xs) ys = rw (read_bytes-append xs ys) refl

pub drop-append {ℓ} : {A : Type ℓ} (xs ys : List A) → drop (length xs) (xs ++ ys) ≡ ys
drop-append [] ys = refl
drop-append (x ∷ xs) ys = drop-append xs ys

module _ {D : Type 0} (size limit count : ℕ) (value_of : Bytes → Outcome Fault D) where
  decode_from_skip :
      (b at : ℕ) (window : Bytes)
      → b ≢ 0x02
      → at < limit
      → decode_from size limit count value_of at (b ∷ window)
        ≡ decode_from size limit count value_of (suc at) window
  unfolding decode_from decode_step byte
  decode_from_skip b at window other h = ground arith

  -- The loop goes over bytes that are no start of a packet.
  pub decode_from-append :
      (noise : Bytes) (at : ℕ) (window : Bytes)
      → All (λ b. b ≢ 0x02) noise
      → at + length noise ≤ limit
      → decode_from size limit count value_of at (noise ++ window)
        ≡ decode_from size limit count value_of (at + length noise) window
  decode_from-append [] at window other h =
      ap (λ i. decode_from size limit count value_of i window) (omega arith)
  decode_from-append (b ∷ noise) at window (hb, other) h =
      decode_from_skip b at (noise ++ window) hb (omega arith)
      ∙ decode_from-append noise (suc at) window other (omega arith)
      ∙ ap (λ i. decode_from size limit count value_of i window) (omega arith)

  -- A packet with the right length of data, whatever its value, ends the loop.
  pub decode_from-packet :
      (at : ℕ) (payload rest : Bytes) (result : D)
      → length payload ≡ count
      → count < 256
      → at < limit
      → at + length payload + 5 ≤ size
      → value_of payload ≡ ok result
      → decode_from size limit count value_of at (packet payload ++ rest) ≡ ok (some result)
  unfolding decode_from decode_step packet byte
  decode_from-packet at payload rest result hc hs hl hf hv =
      let tail = xor_all (bit_xor 0x54 (length payload % 2 ^ 8)) payload ∷ 0x03 ∷ [] in
      ground (
        arith,
        append_assoc payload tail rest,
        byte-append payload (tail ++ rest) (length payload) 0 (omega arith),
        byte-append payload (tail ++ rest) (suc (length payload)) 1 (omega arith),
        read_bytes-append payload (tail ++ rest),
      )

-- What is left of a buffer behind a packet: the constructor's buffer when nothing is.
unfoldable pub left_over : Bytes → Bytes
left_over [] = new_buffer
left_over (b ∷ rest) = b ∷ rest

pub remove-left_over :
    (seen rest : Bytes) (n : ℕ) → n ≡ length seen → remove (seen ++ rest) n ≡ left_over rest
unfolding remove left_over
remove-left_over seen [] n h = ground (arith, length-append seen [])
remove-left_over seen (b ∷ rest) n h =
    let dropped = ap (λ i. drop i (seen ++ b ∷ rest)) h ∙ drop-append seen (b ∷ rest) in
    ground (arith, length-append seen (b ∷ rest), dropped)

module _ (buffer : Bytes) (limit : ℕ) where
  process_from_skip :
      (b at : ℕ) (window : Bytes)
      → b ≢ 0x02
      → at < limit
      → process_from buffer limit at (b ∷ window) ≡ process_from buffer limit (suc at) window
  unfolding process_from process_step byte
  process_from_skip b at window other h = ground arith

  pub process_from-append :
      (noise : Bytes) (at : ℕ) (window : Bytes)
      → All (λ b. b ≢ 0x02) noise
      → at + length noise ≤ limit
      → process_from buffer limit at (noise ++ window)
        ≡ process_from buffer limit (at + length noise) window
  process_from-append [] at window other h =
      ap (λ i. process_from buffer limit i window) (omega arith)
  process_from-append (b ∷ noise) at window (hb, other) h =
      process_from_skip b at (noise ++ window) hb (omega arith)
      ∙ process_from-append noise (suc at) window other (omega arith)
      ∙ ap (λ i. process_from buffer limit i window) (omega arith)

  pub process_from-packet :
      (at : ℕ) (payload rest : Bytes)
      → length payload < 256
      → at < limit
      → at + length payload + 5 ≤ length buffer
      → process_from buffer limit at (packet payload ++ rest)
        ≡ ok (remove buffer (at + length payload + 5), at + length payload + 5)
  unfolding process_from process_step packet byte
  process_from-packet at payload rest hs hl hf =
      let tail = xor_all (bit_xor 0x54 (length payload % 2 ^ 8)) payload ∷ 0x03 ∷ [] in
      let end : at + 3 + length payload + 2 ≡ at + length payload + 5 = omega arith in
      ground (
        arith,
        append_assoc payload tail rest,
        byte-append payload (tail ++ rest) (suc (length payload)) 1 (omega arith),
        end,
        ap (remove buffer) end,
      )

pub length-packet : (payload : Bytes) → length (packet payload) ≡ length payload + 5
unfolding packet
length-packet payload =
    let tail = xor_all (bit_xor 0x54 (length payload % 2 ^ 8)) payload ∷ 0x03 ∷ [] in
    omega (arith, length-append payload tail)

pub length-buffer :
    (noise payload rest : Bytes)
    → length (noise ++ (packet payload ++ rest)) ≡ length noise + (length payload + 5) + length rest
length-buffer noise payload rest = omega (
  arith,
  length-append noise (packet payload ++ rest),
  length-append (packet payload) rest,
  length-packet payload,
)
