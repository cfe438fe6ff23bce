-- ===== src/Ipc/Safety.antt =====
-- Where the binary decoders of lib/ipc/decode_encode.cpp read.
use my_orm.Prelude.{
  ℕ, zero, suc, ◌+◌, ◌-◌, ◌^◌, ◌≤◌, ◌<◌, ◌≡◌, ◌≢◌, refl, ap, sym, ◌∙◌, true, false, Option, none,
  some, List, [], ◌∷◌, ◌++◌, append-nil, Bytes, All, length, length-append, drop, Outcome, ok, err,
  arith, nat_beq_iff, Bool,
}
use my_orm.Ipc.{Fault, Floating, BinaryKind, byte, size_minus}
use my_orm.Ipc.Decoder.{
  read_bytes, decode_step, decode_from, value, data_size, margin, decode_binary_temperature,
  process_step, process_from, process_buffer,
}
use my_orm.Ipc.Packets.{size_minus_le, decode_from-append}
use my_orm.Ipc.Delivery.{value_total, sizes, read_filled}
use my_orm.Ipc.Reader.{decode_and_process, read_temperature}

byte_ok : (window : Bytes) (i : ℕ) → i < length window → (b : ℕ) × (byte window i ≡ ok b)
unfolding byte
byte_ok [] i h = absurd (omega arith)
byte_ok (b ∷ window) zero h = (b, refl)
byte_ok (b ∷ window) (suc i) h = byte_ok window i (omega arith)

read_bytes_ok :
    (window : Bytes) (n : ℕ)
    → n ≤ length window
    → (payload : Bytes) × (read_bytes window n ≡ ok payload) × (length payload ≡ n)
unfolding read_bytes
read_bytes_ok window zero h = ([], refl, refl)
read_bytes_ok [] (suc n) h = absurd (omega arith)
read_bytes_ok (b ∷ window) (suc n) h =
    let (payload, e, l) = read_bytes_ok window n (omega arith) in (b ∷ payload, rw e refl, ap suc l)

pub length-drop {ℓ} : {A : Type ℓ} (n : ℕ) (xs : List A) → length (drop n xs) ≡ length xs - n
length-drop zero xs = omega arith
length-drop (suc n) [] = omega arith
length-drop (suc n) (x ∷ xs) = omega (arith, length-drop n xs)

abbrev is_ok {ℓ κ} : {E : Type ℓ} {A : Type κ} → Outcome E A → Bool
is_ok (ok a) = true
is_ok (err e) = false

is_ok-ok {ℓ κ} : {E : Type ℓ} {A : Type κ} (o : Outcome E A) → is_ok o ≡ true → (a : A) × (o ≡ ok a)
is_ok-ok (ok a) h = (a, refl)
is_ok-ok (err e) h = cc

module _ {D : Type 0} (size limit count : ℕ) (value_of : Bytes → Outcome Fault D)
    (values : (payload : Bytes) → length payload ≡ count → (v : D) × (value_of payload ≡ ok v))
    (room : limit + (count + 4) ≤ size) where
  decode_step_ok :
      (at : ℕ) (window : Bytes) (next : Outcome Fault (Option D))
      → at + length window ≡ size
      → at < limit
      → is_ok next ≡ true
      → is_ok (decode_step size count value_of at window next) ≡ true
  unfolding decode_step
  decode_step_ok at window next hs hl hn =
      let first = byte_ok window 0 (omega arith) in
      let second = byte_ok window 1 (omega arith) in
      let third = byte_ok window 2 (omega arith) in
      let check = byte_ok window (3 + count) (omega arith) in
      let last = byte_ok window (3 + count + 1) (omega arith) in
      let read = read_bytes_ok (drop 3 window) count (omega (arith, length-drop 3 window)) in
      let result = values read.0 read.2 in
      ground (
        arith,
        first.1,
        second.1,
        third.1,
        check.1,
        last.1,
        read.1,
        result.1,
        nat_beq_iff third.0 count,
      )

  decode_from_ok :
      (at : ℕ) (window : Bytes)
      → at + length window ≡ size
      → is_ok (decode_from size limit count value_of at window) ≡ true
  unfolding decode_from
  decode_from_ok at [] h = ground arith
  decode_from_ok at (b ∷ window) h =
      let later = decode_from_ok (suc at) window (omega arith) in
      ground (arith, decode_step_ok at (b ∷ window) _ h _ later)

-- A buffer with at least as many bytes as the loop takes from its size (5, 6 or 8, by subclass), and
-- fewer than 2^64, is decoded without a read outside it.
pub decode_binary_temperature_safe :
    (F : Floating) (kind : BinaryKind) (buffer : Bytes)
    → margin kind ≤ length buffer
    → length buffer < 2 ^ 64
    → (found : Option F.Double) × (decode_binary_temperature F kind buffer ≡ ok found)
unfolding decode_binary_temperature
decode_binary_temperature_safe F kind buffer h bound =
    let (exact, _, _) = sizes kind in
    let limit = size_minus_le (length buffer) (margin kind) h bound in
    is_ok-ok _ (
      decode_from_ok (length buffer) (size_minus (length buffer) (margin kind)) (data_size kind)
        (value F kind) (value_total F kind) (omega arith) 0 buffer (omega arith))

module _ (buffer : Bytes) (limit : ℕ) (room : limit + 5 ≤ length buffer) where
  process_step_ok :
      (at : ℕ) (window : Bytes) (next : Outcome Fault (Bytes × ℕ))
      → at + length window ≡ length buffer
      → at < limit
      → is_ok next ≡ true
      → is_ok (process_step buffer at window next) ≡ true
  unfolding process_step
  process_step_ok at window next hs hl hn =
      let first = byte_ok window 0 (omega arith) in
      let second = byte_ok window 1 (omega arith) in
      let third = byte_ok window 2 (omega arith) in
      let last : 3 + third.0 + 1 < length window → is_ok (byte window (3 + third.0 + 1)) ≡ true =
        λ h. ap is_ok (byte_ok window (3 + third.0 + 1) h).1 in
      ground (arith, first.1, second.1, third.1, last)

  process_from_ok :
      (at : ℕ) (window : Bytes)
      → at + length window ≡ length buffer
      → is_ok (process_from buffer limit at window) ≡ true
  unfolding process_from
  process_from_ok at [] h = ground arith
  process_from_ok at (b ∷ window) h =
      let later = process_from_ok (suc at) window (omega arith) in
      ground (arith, process_step_ok at (b ∷ window) _ h _ later)

-- ProcessBuffer reads nothing outside a buffer of at least 5 and fewer than 2^64 bytes.
pub process_buffer_safe :
    (buffer : Bytes)
    → 5 ≤ length buffer
    → length buffer < 2 ^ 64
    → (left : Bytes × ℕ) × (process_buffer buffer ≡ ok left)
unfolding process_buffer
process_buffer_safe buffer h bound =
    let limit = size_minus_le (length buffer) 5 h bound in
    is_ok-ok _
      (process_from_ok buffer (size_minus (length buffer) 5) (omega arith) 0 buffer (omega arith))

outcome_ok :
    {D : Type 0} (nan : D) (found : Option D) (left : Bytes × ℕ) (buffer : Bytes)
    → (temp : D) × ((decode_and_process nan (ok found) (ok left) buffer).1 ≡ ok temp)
unfolding decode_and_process
outcome_ok nan none left buffer = (nan, refl)
outcome_ok nan (some temp) left buffer = (temp, refl)

-- A call on an open port returns a number when the buffer, which is below the largest size, and the
-- bytes that come in together reach what the loop takes from the size.
pub read_temperature_safe :
    (F : Floating) (kind : BinaryKind) (chunk buffer : Bytes)
    → length chunk ≤ 256
    → length buffer < 1024
    → margin kind ≤ length buffer + length chunk
    → (temp : F.Double) × ((read_temperature F (some true) kind chunk buffer).1 ≡ ok temp)
unfolding decode_and_process
read_temperature_safe F kind chunk buffer hc hb enough =
    let kept = buffer ++ chunk in
    let size = length-append buffer chunk in
    let (exact, positive, _) = sizes kind in
    let (found, hd) = decode_binary_temperature_safe F kind kept (omega arith) (omega arith) in
    let (left, hp) = process_buffer_safe kept (omega arith) (omega arith) in
    let (temp, ht) = outcome_ok F.nan found left kept in
    let call =
      read_filled F kind chunk buffer kept hb refl
      ∙ ap (λ o. decode_and_process F.nan o (process_buffer kept) kept) hd
      ∙ ap (λ o. decode_and_process F.nan (ok found) o kept) hp in
    (temp, ap (λ r. r.1) call ∙ ht)

short_limit :
    (kind : BinaryKind) (buffer : Bytes)
    → length buffer < margin kind
    → length buffer < size_minus (length buffer) (margin kind)
unfolding size_minus margin
short_limit BinaryKind.byte_integer buffer h = omega arith
short_limit BinaryKind.fixed_point buffer h = omega arith
short_limit BinaryKind.floating_point buffer h = omega arith

-- A buffer that is shorter than what the loop takes from the size, and holds no start of a packet: the difference of the sizes wraps around, and the loop reads outside the buffer.
pub decode_binary_temperature_short :
    (F : Floating) (kind : BinaryKind) (buffer : Bytes)
    → length buffer < margin kind
    → All (λ b. b ≢ 0x02) buffer
    → decode_binary_temperature F kind buffer ≡ err Fault.out_of_bounds
unfolding decode_binary_temperature
decode_binary_temperature_short F kind buffer h other =
    let limit = size_minus (length buffer) (margin kind) in
    let wrapped : length buffer < limit = short_limit kind buffer h in
    ap (decode_from (length buffer) limit (data_size kind) (value F kind) 0)
      (sym (append-nil buffer))
    ∙ decode_from-append (length buffer) limit (data_size kind) (value F kind) buffer 0 [] other
        (omega arith)
    ∙ unfold decode_from decode_step byte in ground (arith, wrapped)
