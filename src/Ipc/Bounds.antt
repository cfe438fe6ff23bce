-- ===== src/Ipc/Bounds.antt =====
-- How large the buffer of the binary decoders of lib/ipc/decode_encode.cpp is.
use my_orm.Prelude.{
  ◌⊎◌, inl, inr, ℕ, suc, ◌+◌, ◌≤◌, ◌<◌, ◌≡◌, refl, Option, none, some, [], ◌∷◌, ◌++◌, Bytes, length,
  length-append, Outcome, ok, err, arith, Bool,
}
use my_orm.Ipc.{Fault, Floating, BinaryKind, byte}
use my_orm.Ipc.Decoder.{
  decode_binary_temperature, remove, process_step, process_from, process_buffer,
}
use my_orm.Ipc.Safety.{length-drop}
use my_orm.Ipc.Reader.{new_buffer, reset_if_full, decode_and_process, read_temperature}

-- The longest that the buffer of a binary decoder gets.
abbrev pub largest : ℕ
largest = 1279

-- A buffer that ProcessBuffer leaves, when it had no more than `largest` bytes.
abbrev Fits : Bytes → Type 0
Fits buffer = (0 < length buffer) × (length buffer ≤ largest)

remove-Fits : (buffer : Bytes) (end : ℕ) → Fits buffer → Fits (remove buffer end)
unfolding remove
remove-Fits buffer end (h, l) = ground (arith, length-drop end buffer)

abbrev LeavesFit : Outcome Fault (Bytes × ℕ) → Type 0
LeavesFit (ok left) = Fits left.0
LeavesFit (err fault) = Unit

Outcome-cases {ℓ κ} :
    {E : Type ℓ} {A : Type κ} (o : Outcome E A) → ((a : A) × (o ≡ ok a)) ⊎ ((e : E) × (o ≡ err e))
Outcome-cases (ok a) = inl (a, refl)
Outcome-cases (err e) = inr (e, refl)

module _ (buffer : Bytes) (limit : ℕ) (fit : Fits buffer) where
  process_step-Fits :
      (at : ℕ) (window : Bytes) (next : Outcome Fault (Bytes × ℕ))
      → LeavesFit next
      → LeavesFit (process_step buffer at window next)
  unfolding process_step
  process_step-Fits at window next h = elim (Outcome-cases (byte window 2)) [
    | inl (b, e) ↦ ground (arith, e, remove-Fits buffer (at + 3 + b + 2) fit)
    | inr (f, e) ↦ ground (arith, e)
  ]

  process_from-Fits : (at : ℕ) (window : Bytes) → LeavesFit (process_from buffer limit at window)
  unfolding process_from
  process_from-Fits at [] = ground (arith, process_step-Fits at [] (ok (buffer, 0)) fit)
  process_from-Fits at (b ∷ window) =
      ground (arith, process_step-Fits at (b ∷ window) _ (process_from-Fits (suc at) window))

process_buffer-Fits : (buffer : Bytes) → Fits buffer → LeavesFit (process_buffer buffer)
unfolding process_buffer
process_buffer-Fits buffer fit = process_from-Fits buffer _ fit 0 buffer

decode_and_process-Fits :
    {D : Type 0} (nan : D) (found : Outcome Fault (Option D))
    (processed : Outcome Fault (Bytes × ℕ)) (buffer : Bytes)
    → Fits buffer
    → LeavesFit processed
    → Fits (decode_and_process nan found processed buffer).0
unfolding decode_and_process
decode_and_process-Fits nan (err fault) processed buffer fit h = fit
decode_and_process-Fits nan (ok result) (err fault) buffer fit h = fit
decode_and_process-Fits nan (ok none) (ok left) buffer fit h = h
decode_and_process-Fits nan (ok (some temp)) (ok left) buffer fit h = h

-- The buffer of a binary decoder is never empty and never has more than 1279 bytes: a call keeps it
-- so, whatever the port, the subclass and the at most 256 bytes that come in, and however it ends.
pub read_temperature_bounds :
    (F : Floating) (port : Option Bool) (kind : BinaryKind) (chunk buffer : Bytes)
    → length chunk ≤ 256
    → (0 < length buffer) × (length buffer ≤ largest)
    → (0 < length (read_temperature F port kind chunk buffer).0)
      × (length (read_temperature F port kind chunk buffer).0 ≤ largest)
unfolding read_temperature reset_if_full
read_temperature_bounds F port kind chunk buffer hc fit =
    let kept = reset_if_full buffer ++ chunk in
    let filled : Fits kept =
      ground (arith, length-append buffer chunk, length-append new_buffer chunk) in
    let after =
      decode_and_process-Fits F.nan (decode_binary_temperature F kind kept) (process_buffer kept)
        kept filled (process_buffer-Fits kept filled) in
    ground (arith, after)
