-- ===== src/Ipc/Checksum.antt =====
-- The checksum of the packets in lib/ipc/decode_encode.cpp.
use my_orm.Prelude.{
  ℕ, zero, suc, ◌+◌, ◌%◌, ◌^◌, ◌≤◌, ◌<◌, ◌≡◌, ◌≢◌, refl, ap, sym, ◌∙◌, some, [], ◌∷◌, ◌++◌,
  append_assoc, Bytes, length, length-set, set, get_elem?, drop, Outcome, ok, arith,
}
use my_orm.Ipc.{Fault, byte, xor_all}
use my_orm.Ipc.Encoder.{packet}
use my_orm.Ipc.Decoder.{read_bytes, decode_step, decode_from}
use my_orm.Ipc.Packets.{byte-append, read_bytes-append}
use my_orm.Ipc.Exclusive.{bit_xor-injective_left, bit_xor-injective_right}
use Prim.Native.Nat.{bit_xor}

xor_all-injective : (payload : Bytes) (a b : ℕ) → xor_all a payload ≡ xor_all b payload → a ≡ b
unfolding xor_all
xor_all-injective [] a b h = h
xor_all-injective (x ∷ payload) a b h =
    bit_xor-injective_left a b x (xor_all-injective payload (bit_xor a x) (bit_xor b x) h)

xor_all-set :
    (payload : Bytes) (i b checksum : ℕ)
    → i < length payload
    → xor_all checksum (set payload i b) ≡ xor_all checksum payload
    → get_elem? payload i ≡ some b
unfolding xor_all
xor_all-set [] i b checksum h e = absurd (omega arith)
xor_all-set (x ∷ payload) zero b checksum h e =
    let same = xor_all-injective payload (bit_xor checksum b) (bit_xor checksum x) e in
    ap some (sym (bit_xor-injective_right checksum b x same))
xor_all-set (x ∷ payload) (suc i) b checksum h e =
    xor_all-set payload i b (bit_xor checksum x) (omega arith) e

set-append : (xs ys : Bytes) (i b : ℕ) → i < length xs → set (xs ++ ys) i b ≡ set xs i b ++ ys
set-append [] ys i b h = absurd (omega arith)
set-append (x ∷ xs) ys zero b h = refl
set-append (x ∷ xs) ys (suc i) b h = ap (λ (l : Bytes). x ∷ l) (set-append xs ys i b (omega arith))

module _ {D : Type 0} (size limit count : ℕ) (value_of : Bytes → Outcome Fault D) where
  decode_from-wrong :
      (at : ℕ) (payload : Bytes) (checksum : ℕ) (rest : Bytes)
      → length payload ≡ count
      → xor_all (bit_xor 0x54 count) payload ≢ checksum
      → at < limit
      → at + count + 5 ≤ size
      → decode_from size limit count value_of at
          (0x02 ∷ 0x54 ∷ count ∷ payload ++ checksum ∷ 0x03 ∷ rest)
        ≡ decode_from size limit count value_of
            (suc at)
            (0x54 ∷ count ∷ payload ++ checksum ∷ 0x03 ∷ rest)
  unfolding decode_from decode_step byte
  decode_from-wrong at payload checksum rest hc wrong hl hf =
      let tail = checksum ∷ 0x03 ∷ rest in
      let all : read_bytes (payload ++ tail) count ≡ ok payload =
        ap (read_bytes (payload ++ tail)) (sym hc) ∙ read_bytes-append payload tail in
      ground (
        arith,
        byte-append payload tail count 0 (omega arith),
        byte-append payload tail (suc count) 1 (omega arith),
        all,
        wrong,
      )

  -- A decoder does not accept a packet of which one byte of the data has become another on the way:
  -- at such a packet the loop goes on behind its start byte. The data have the length that the
  -- decoder expects, and the packet fits into what is left of the buffer.
  pub decode_from-set :
      (at : ℕ) (payload : Bytes) (i received : ℕ) (rest : Bytes)
      → i < length payload
      → get_elem? payload i ≢ some received
      → length payload ≡ count
      → count < 256
      → at < limit
      → at + count + 5 ≤ size
      → decode_from size limit count value_of at
          (set (packet payload) (suc (suc (suc i))) received ++ rest)
        ≡ decode_from size limit count value_of
            (suc at)
            (drop 1 (set (packet payload) (suc (suc (suc i))) received ++ rest))
  unfolding packet
  decode_from-set at payload i received rest hi other hc hs hl hf =
      let mask = bit_xor 0x54 count in
      let known : length payload % 2 ^ 8 ≡ count = omega arith in
      let wrong : xor_all mask (set payload i received) ≢ xor_all mask payload =
        λ e. other (xor_all-set payload i received mask hi e) in
      let step =
        decode_from-wrong at (set payload i received) (xor_all mask payload) rest
          (length-set payload i received ∙ hc) wrong hl hf in
      let tail = xor_all mask payload ∷ 0x03 ∷ [] in
      let framed =
        ap
          (λ (k : ℕ).
            k ∷ (set (payload ++ xor_all (bit_xor 0x54 k) payload ∷ 0x03 ∷ []) i received ++ rest))
          known
        ∙ ap (λ l. count ∷ (l ++ rest)) (set-append payload tail i received hi)
        ∙ ap (λ (l : Bytes). count ∷ l) (append_assoc (set payload i received) tail rest) in
      ap (λ l. decode_from size limit count value_of at (0x02 ∷ 0x54 ∷ l)) framed
      ∙ step
      ∙ sym (ap (λ l. decode_from size limit count value_of (suc at) (0x54 ∷ l)) framed)
