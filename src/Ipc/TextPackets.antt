-- ===== src/Ipc/TextPackets.antt =====
-- The packets of the text format of lib/ipc/decode_encode.cpp, and calls of ReadTemperature on them.
use my_orm.Prelude.{
  ℕ, suc, ◌+◌, ◌≤◌, ◌<◌, ◌≡◌, ◌≢◌, refl, ap, ◌∙◌, true, none, some, [], ◌∷◌, ◌++◌, append_assoc,
  Bytes, All, length, drop_last-append, ok, arith,
}
use my_orm.Ipc.{Floating, byte}
use my_orm.Ipc.Encoder.{text_packet}
use my_orm.Ipc.TextDecoder.{until_etx, ends_in_celsius, decode_text_step, decode_text_from}

pub until_etx-append :
    (taken rest : Bytes) → All (λ b. b ≢ 0x03) taken → until_etx (taken ++ 0x03 ∷ rest) ≡ some taken
unfolding until_etx
until_etx-append [] rest h = refl
until_etx-append (b ∷ taken) rest (hb, h) =
    let later = until_etx-append taken rest h in ground (arith, later)

ends_in_celsius-append : (number : Bytes) → ends_in_celsius (number ++ b'C' ∷ []) ≡ true
unfolding ends_in_celsius
ends_in_celsius-append [] = refl
ends_in_celsius-append (a ∷ []) = refl
ends_in_celsius-append (a ∷ b ∷ number) = ends_in_celsius-append (b ∷ number)

module _ (F : Floating) (size limit : ℕ) where
  decode_text_from_skip :
      (b at : ℕ) (window : Bytes)
      → b ≢ 0x02
      → at < limit
      → decode_text_from F size limit at (b ∷ window)
        ≡ decode_text_from F size limit (suc at) window
  unfolding decode_text_from decode_text_step byte
  decode_text_from_skip b at window other h = ground arith

  pub decode_text_from-append :
      (noise : Bytes) (at : ℕ) (window : Bytes)
      → All (λ b. b ≢ 0x02) noise
      → at + length noise ≤ limit
      → decode_text_from F size limit at (noise ++ window)
        ≡ decode_text_from F size limit (at + length noise) window
  decode_text_from-append [] at window other h =
      ap (λ i. decode_text_from F size limit i window) (omega arith)
  decode_text_from-append (b ∷ noise) at window (hb, other) h =
      decode_text_from_skip b at (noise ++ window) hb (omega arith)
      ∙ decode_text_from-append noise (suc at) window other (omega arith)
      ∙ ap (λ i. decode_text_from F size limit i window) (omega arith)

  -- A loop that ends before a packet starts finds nothing.
  pub decode_text_from_end :
      (noise : Bytes) (at : ℕ) (window : Bytes)
      → All (λ b. b ≢ 0x02) noise
      → limit ≤ at + length noise
      → at + length noise < size
      → decode_text_from F size limit at (noise ++ window) ≡ ok none
  unfolding decode_text_from decode_text_step byte
  decode_text_from_end [] at [] other h hs = ground arith
  decode_text_from_end [] at (b ∷ window) other h hs = ground arith
  decode_text_from_end (b ∷ noise) at window (hb, other) h hs =
      let later = decode_text_from_end noise (suc at) window other (omega arith) (omega arith) in
      ground (arith, later)

  pub decode_text_from-packet :
      (at : ℕ) (number rest : Bytes) (temp : F.Double)
      → All (λ b. b ≢ 0x03) (number ++ b'C' ∷ [])
      → F.read_number number ≡ some temp
      → at < limit
      → at + 2 < size
      → decode_text_from F size limit at (text_packet (number ++ b'C' ∷ []) ++ rest)
        ≡ ok (some temp)
  unfolding decode_text_from decode_text_step text_packet byte
  decode_text_from-packet at number rest temp plain hn hl hs =
      let celsius = number ++ b'C' ∷ [] in
      let tail = 0x03 ∷ 0x0D ∷ 0x0A ∷ [] in
      let found =
        ap until_etx (append_assoc celsius tail rest)
        ∙ until_etx-append celsius (0x0D ∷ 0x0A ∷ rest) plain in
      ground (arith, found, ends_in_celsius-append number, drop_last-append number b'C', hn)
