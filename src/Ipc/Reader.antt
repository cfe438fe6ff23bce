-- ===== src/Ipc/Reader.antt =====
-- ReadTemperature of the decoders in lib/ipc/decode_encode.cpp: the buffer they keep, and one call.
use my_orm.Prelude.{
  ℕ, Bool, Option, none, some, ◌++◌, Bytes, length, replicate, leb, if◌then◌else◌, Outcome, ok, err,
}
use my_orm.Ipc.{Fault, Floating, BinaryKind, is_ready}
use my_orm.Ipc.Decoder.{decode_binary_temperature, process_buffer}
use my_orm.Ipc.TextDecoder.{decode_text_temperature, process_text_buffer}

-- The buffer that the constructors make.
abbrev pub new_buffer : Bytes
new_buffer = replicate 256 0

-- A buffer that has reached the largest size starts afresh.
unfoldable pub reset_if_full : Bytes → Bytes
reset_if_full buffer = if leb 1024 (length buffer) then new_buffer else buffer

-- What a decoder does with its buffer once the bytes from the port are in it.
unfoldable pub decode_and_process {ℓ} :
    {D : Type ℓ} (nan : D)
    → Outcome Fault (Option D)
    → Outcome Fault (Bytes × ℕ)
    → (buffer : Bytes) → Bytes × Outcome Fault D
decode_and_process nan (err fault) processed buffer = (buffer, err fault)
decode_and_process nan (ok result) (err fault) buffer = (buffer, err fault)
decode_and_process nan (ok none) (ok left) buffer = (left.0, ok nan)
decode_and_process nan (ok (some temp)) (ok left) buffer = (left.0, ok temp)

module _ (F : Floating) where
  -- `chunk` is what TComPort::Read puts into tempBuffer, at most 256 bytes. The result is the buffer
  -- after the call and what the call returns or throws.
  unfoldable pub read_temperature :
      Option Bool → BinaryKind → (chunk buffer : Bytes) → Bytes × Outcome Fault F.Double
  unfolding is_ready reset_if_full decode_and_process decode_binary_temperature process_buffer
  read_temperature port kind chunk buffer =
      let filled = reset_if_full buffer ++ chunk in
      if is_ready port
      then decode_and_process F.nan (decode_binary_temperature F kind filled)
          (process_buffer filled) filled
      else (buffer, err Fault.not_open)

  unfoldable pub read_text_temperature :
      Option Bool → (chunk buffer : Bytes) → Bytes × Outcome Fault F.Double
  unfolding is_ready reset_if_full decode_and_process decode_text_temperature process_text_buffer
  read_text_temperature port chunk buffer =
      let filled = reset_if_full buffer ++ chunk in
      if is_ready port
      then decode_and_process F.nan (decode_text_temperature F filled) (process_text_buffer filled)
          filled
      else (buffer, err Fault.not_open)
