-- ===== src/Tests/Ipc.antt =====
-- Packets of lib/ipc/decode_encode.cpp, with whole numbers in the place of `double`.
use my_orm.Prelude.{
  ℕ, suc, ◌+◌, ◌-◌, ◌*◌, ◌/◌, ◌≤◌, ◌<◌, ◌≡◌, refl, Bool, true, false, Option, none, some, List, [],
  ◌∷◌, ◌++◌, Bytes, codes, All, length, set, drop, ltb, leb, ok, err, arith,
}
use mathlib.Core.List.{map}
use my_orm.Prelude.Int.{ℤ, pos, negsuc}
use my_orm.Ipc.{Fault, Floating, BinaryKind, parse_temperature_format, create}
use my_orm.Ipc.Encoder.{packet, text_packet}
use my_orm.Ipc.Decoder.{
  decode_from, byte_integer_value, value, data_size, margin, decode_binary_temperature,
}
use my_orm.Ipc.Reader.{new_buffer, read_temperature, read_text_temperature}
use my_orm.Ipc.Packets.{left_over}
use my_orm.Ipc.Queue.{
  packets, buffer_of, readings, served, HasRoom, HasSize, idle_chunks, readings-served,
  readings_deliver, behind,
}
use my_orm.Ipc.Bounds.{largest, read_temperature_bounds}
use my_orm.Ipc.Safety.{read_temperature_safe, decode_binary_temperature_short}
use my_orm.Ipc.Checksum.{decode_from-set}
use my_orm.Ipc.TextDelivery.{read_text_temperature-packet}

abbrev below : ℤ → ℤ → Bool
below (pos a) (pos b) = ltb a b
below (pos a) (negsuc b) = false
below (negsuc a) (pos b) = true
below (negsuc a) (negsuc b) = ltb b a

abbrev at_or_above : ℤ → ℤ → Bool
at_or_above a (pos b) = leb b (elim a [ pos n ↦ n | negsuc n ↦ 0 ])
at_or_above a (negsuc b) = true

abbrev product : ℤ → ℤ → ℤ
product (pos a) (pos b) = pos (a * b)
product (pos a) (negsuc b) = negsuc (a * (b + 1) - 1)
product (negsuc a) (pos b) = negsuc ((a + 1) * b - 1)
product (negsuc a) (negsuc b) = pos ((a + 1) * (b + 1))

abbrev quotient : ℤ → ℤ → ℤ
quotient (pos a) (pos b) = pos (a / b)
quotient a b = pos 0

abbrev natural : ℕ → Bytes → ℕ
natural n [] = n
natural n (c ∷ s) = natural (n * 10 + (c - b'0')) s

abbrev number : Bytes → Option ℤ
number [] = none
number (c ∷ s) = some (pos (natural 0 s))

abbrev whole_numbers : Floating
whole_numbers = record {
  Double = ℤ;
  nan = negsuc 999;
  from_int = λ z. z;
  at_least = at_or_above;
  less = below;
  times = product;
  over = quotient;
  round = λ z. z;
  truncated = λ z. some z;
  float_bits = λ z. 0;
  float_of_bits = λ n. pos n;
  read_number = number;
  print_fixed = λ precision z. [];
}

format_tests :
    (create (parse_temperature_format (codes "fixed_point")) ≡ some BinaryKind.fixed_point)
    × (create (parse_temperature_format (codes "celsius")) ≡ none)
unfolding create parse_temperature_format
format_tests = (refl, refl)

packet_test : packet (25 ∷ []) ≡ 0x02 ∷ 0x54 ∷ 1 ∷ 25 ∷ 76 ∷ 0x03 ∷ []
unfolding packet
packet_test = refl

abbrev pending : List Bytes
pending = (25 ∷ []) ∷ (26 ∷ []) ∷ []

abbrev arriving : List (List Bytes)
arriving = ((27 ∷ []) ∷ []) ∷ [] ∷ []

pending-HasSize : All (HasSize whole_numbers BinaryKind.byte_integer) pending
unfolding data_size
pending-HasSize = (refl, (refl, tt))

arriving-HasRoom : HasRoom whole_numbers BinaryKind.byte_integer arriving pending
unfolding HasRoom packets packet data_size behind
arriving-HasRoom = (omega arith, omega arith, (refl, tt), (omega arith, omega arith, tt, tt))

readings-served_example :
    readings whole_numbers BinaryKind.byte_integer (map packets arriving) (buffer_of pending) ≡ (
      (served whole_numbers BinaryKind.byte_integer arriving pending).0,
      buffer_of (served whole_numbers BinaryKind.byte_integer arriving pending).1,
    )
readings-served_example =
    readings-served whole_numbers BinaryKind.byte_integer arriving pending pending-HasSize
      arriving-HasRoom

readings_deliver_example :
    readings whole_numbers BinaryKind.byte_integer
      (map packets (idle_chunks whole_numbers BinaryKind.byte_integer pending))
      (buffer_of pending)
    ≡ (map (value whole_numbers BinaryKind.byte_integer) pending, new_buffer)
readings_deliver_example =
    readings_deliver whole_numbers BinaryKind.byte_integer pending pending-HasSize
      (unfold packets packet in omega arith)

abbrev half : Bytes
half = 0x02 ∷ 0x54 ∷ []

read_temperature_bounds_example :
    (0
      < length
          (read_temperature whole_numbers (some true) BinaryKind.fixed_point half new_buffer).0)
    × (length (read_temperature whole_numbers (some true) BinaryKind.fixed_point half new_buffer).0
        ≤ largest)
read_temperature_bounds_example =
    read_temperature_bounds whole_numbers (some true) BinaryKind.fixed_point half new_buffer
      (omega arith) (omega arith, omega arith)

read_temperature_safe_example :
    (temp : ℤ) × ((read_temperature whole_numbers
        (some true)
        BinaryKind.fixed_point
        half
        new_buffer).1
      ≡ ok temp)
read_temperature_safe_example =
    read_temperature_safe whole_numbers BinaryKind.fixed_point half new_buffer (omega arith)
      (omega arith) (unfold margin in omega arith)

decode_binary_temperature_short_example :
    decode_binary_temperature whole_numbers BinaryKind.fixed_point (0x0A ∷ [])
    ≡ err Fault.out_of_bounds
decode_binary_temperature_short_example =
    decode_binary_temperature_short whole_numbers BinaryKind.fixed_point (0x0A ∷ [])
      (unfold margin in omega arith) ((λ e. absurd (omega arith)), tt)

decode_from-set_example :
    decode_from 9 4 1
      (byte_integer_value whole_numbers)
      0
      (set (packet (25 ∷ [])) (suc (suc (suc 0))) 26 ++ 0 ∷ 0 ∷ 0 ∷ [])
    ≡ decode_from 9 4 1
        (byte_integer_value whole_numbers)
        (suc 0)
        (drop 1 (set (packet (25 ∷ [])) (suc (suc (suc 0))) 26 ++ 0 ∷ 0 ∷ 0 ∷ []))
decode_from-set_example =
    decode_from-set 9 4 1 (byte_integer_value whole_numbers) 0 (25 ∷ []) 0 26 (0 ∷ 0 ∷ 0 ∷ [])
      (omega arith) (ground arith) refl (omega arith) (omega arith) (omega arith)

abbrev warm : Bytes
warm = codes "+20.5"

abbrev five : Bytes
five = codes "+5"

read_text_temperature-packet_example :
    read_text_temperature whole_numbers (some true) (text_packet (codes "+215C")) (0 ∷ 0 ∷ [])
    ≡ (new_buffer, ok (pos 215))
unfolding left_over
read_text_temperature-packet_example =
    read_text_temperature-packet whole_numbers (text_packet (codes "+215C")) (0 ∷ 0 ∷ [])
      (0 ∷ 0 ∷ []) (codes "+215") [] (pos 215) (omega arith) (unfold text_packet in omega arith)
      (unfold text_packet in refl) (ground arith) (ground arith) refl (omega arith)
