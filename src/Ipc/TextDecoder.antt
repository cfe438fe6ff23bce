-- ===== src/Ipc/TextDecoder.antt =====
-- DecodeTextTemperature and ProcessBuffer of the text decoder in lib/ipc/decode_encode.cpp.
use my_orm.Prelude.{
  ℕ, suc, ◌+◌, Bool, false, not, Option, none, some, [], ◌∷◌, Bytes, length, drop, drop_last, ltb,
  leb, ◌==◌, nat_eq, if◌then◌else◌, Outcome, ok, ◌>>=◌,
}
use my_orm.Ipc.{Fault, Floating, byte, size_minus}
use my_orm.Ipc.Decoder.{remove}

-- The bytes before the next ETX, none when there is no ETX up to the end.
unfoldable pub until_etx : Bytes → Option Bytes
until_etx [] = none
until_etx (b ∷ window) =
    let rest = until_etx window in
    if b == 0x03 then some [] else elim rest [ none ↦ none | some taken ↦ some (b ∷ taken) ]

-- tempStr.back() of a text that is not empty.
unfoldable pub ends_in_celsius : Bytes → Bool
ends_in_celsius [] = false
ends_in_celsius (b ∷ []) = b == b'C'
ends_in_celsius (b ∷ c ∷ text) = ends_in_celsius (c ∷ text)

module _ (F : Floating) where
  unfoldable pub decode_text_step :
      (size pos : ℕ) (window : Bytes)
      → Outcome Fault (Option F.Double)
      → Outcome Fault (Option F.Double)
  unfolding byte until_etx ends_in_celsius
  decode_text_step size pos window next = byte window 0 >>= λ start.
      if not (start == 0x02)
      then next
      else if leb size (pos + 2)
      then next
      else (byte window 1 >>= λ letter.
          if not (letter == b'T')
          then next
          else (byte window 2 >>= λ sign.
              if not (sign == b'=') then next else elim (until_etx (drop 3 window)) [
                | none ↦ ok none
                | some temp_str ↦
                    if ends_in_celsius temp_str
                    then elim (F.read_number (drop_last temp_str)) [
                      | none ↦ next
                      | some temp ↦ ok (some temp)
                    ]
                    else next
              ]))

  unfoldable pub decode_text_from : (size limit pos : ℕ) → Bytes → Outcome Fault (Option F.Double)
  unfolding decode_text_step
  decode_text_from size limit pos [] =
      if ltb pos limit then decode_text_step size pos [] (ok none) else ok none
  decode_text_from size limit pos (first ∷ rest) =
      let next = decode_text_from size limit (suc pos) rest in
      if ltb pos limit then decode_text_step size pos (first ∷ rest) next else ok none

  unfoldable pub decode_text_temperature : Bytes → Outcome Fault (Option F.Double)
  unfolding decode_text_from size_minus
  decode_text_temperature buffer =
      decode_text_from (length buffer) (size_minus (length buffer) 10) 0 buffer

unfoldable pub process_text_step :
    (buffer : Bytes) (pos : ℕ) (window : Bytes)
    → Outcome Fault (Bytes × ℕ)
    → Outcome Fault (Bytes × ℕ)
unfolding byte until_etx remove
process_text_step buffer pos window next = byte window 0 >>= λ start.
    if not (start == 0x02) then next else elim (until_etx (drop 1 window)) [
      | none ↦ ok (buffer, 0)
      | some message ↦
          let etx = 1 + length message in
          if not (ltb (pos + etx + 2) (length buffer))
          then next
          else (byte window (etx + 1) >>= λ cr.
              if not (cr == 0x0D)
              then next
              else (byte window (etx + 2) >>= λ lf.
                  if lf == 0x0A then ok (remove buffer (pos + etx + 3), pos + etx + 3) else next))
    ]

unfoldable pub process_text_from :
    (buffer : Bytes) (limit pos : ℕ) → Bytes → Outcome Fault (Bytes × ℕ)
unfolding process_text_step
process_text_from buffer limit pos [] =
    if ltb pos limit then process_text_step buffer pos [] (ok (buffer, 0)) else ok (buffer, 0)
process_text_from buffer limit pos (first ∷ rest) =
    let next = process_text_from buffer limit (suc pos) rest in
    if ltb pos limit then process_text_step buffer pos (first ∷ rest) next else ok (buffer, 0)

unfoldable pub process_text_buffer : Bytes → Outcome Fault (Bytes × ℕ)
unfolding process_text_from size_minus
process_text_buffer buffer = process_text_from buffer (size_minus (length buffer) 5) 0 buffer
