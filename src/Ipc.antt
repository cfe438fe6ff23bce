-- ===== src/Ipc.antt =====
-- lib/ipc/decode_encode.h, decode_encode.cpp: the temperature packets that go over a serial port.
-- A buffer is the list of its bytes. Arithmetic on `double` is a parameter, the record Floating.
pub mod Encoder
pub mod Decoder
pub mod TextDecoder
pub mod Reader
pub mod Packets
pub mod TextPackets
pub mod TextDelivery
pub mod Delivery
pub mod Queue
pub mod Safety
pub mod Bounds
pub mod Checksum
pub mod Exclusive
pub mod Values
use my_orm.Prelude.{
  ℕ, ◌+◌, ◌-◌, ◌%◌, ◌^◌, Bool, true, false, Option, none, some, List, [], ◌∷◌, Bytes, bytes_eq,
  codes, get_elem?, ◌==◌, if◌then◌else◌, Outcome, ok, err,
}
use my_orm.Prelude.Int.{ℤ}
use Prim.Native.Nat.{bit_xor}

-- What can go wrong: the exception of a closed or absent port, an access outside the buffer, and a
-- conversion of a floating point number to an integer type that does not have its value.
pub data Fault : Type 0 where
  not_open null_port open_failed out_of_bounds unrepresentable : Fault

-- The operations on `double` that the code uses, those of the C++ library among them.
pub record Floating : Type 1 where
  pub Double : Type 0
  pub nan : Double
  -- static_cast<double> of an integer
  pub from_int : ℤ → Double
  pub at_least : Double → Double → Bool
  pub less : Double → Double → Bool
  pub times : Double → Double → Double
  pub over : Double → Double → Double
  -- std::round
  pub round : Double → Double
  -- the integer a cast truncates to, none for infinities and NaN
  pub truncated : Double → Option ℤ
  -- the bits of static_cast<float>, and static_cast<double> of the float with the given bits
  pub float_bits : Double → ℕ
  pub float_of_bits : ℕ → Double
  -- std::stod, none where it throws
  pub read_number : Bytes → Option Double
  -- `oss << std::fixed << std::setprecision(precision) << value`
  pub print_fixed : ℕ → Double → Bytes

-- ETemperatureFormat
pub data TemperatureFormat : Type 0 where
  text byte_integer fixed_point floating_point : TemperatureFormat

unfoldable pub parse_temperature_format : Bytes → TemperatureFormat
parse_temperature_format format =
    if format == codes "byte_integer"
    then TemperatureFormat.byte_integer
    else if format == codes "fixed_point"
    then TemperatureFormat.fixed_point
    else if format == codes "floating_point"
    then TemperatureFormat.floating_point
    else TemperatureFormat.text

-- The subclasses of the binary decoder and of the binary encoder.
pub data BinaryKind : Type 0 where
  byte_integer fixed_point floating_point : BinaryKind

-- CreateDecoder and CreateEncoder: none stands for the class for text.
unfoldable pub create : TemperatureFormat → Option BinaryKind
create TemperatureFormat.text = none
create TemperatureFormat.byte_integer = some BinaryKind.byte_integer
create TemperatureFormat.fixed_point = some BinaryKind.fixed_point
create TemperatureFormat.floating_point = some BinaryKind.floating_point

-- buffer[i], which is undefined past the end.
unfoldable pub byte : Bytes → ℕ → Outcome Fault ℕ
byte buffer i = elim (get_elem? buffer i) [ none ↦ err Fault.out_of_bounds | some b ↦ ok b ]

-- `a - b` in size_t.
unfoldable pub size_minus : ℕ → ℕ → ℕ
size_minus a b = (a + 2 ^ 64 - b) % 2 ^ 64

-- The loop `for (...) checksum ^= ...`.
unfoldable pub xor_all : ℕ → Bytes → ℕ
xor_all checksum [] = checksum
xor_all checksum (b ∷ payload) = xor_all (bit_xor checksum b) payload

-- TComPort as its clients see it: whether it is there, and whether it is open.
unfoldable pub is_ready : Option Bool → Bool
is_ready none = false
is_ready (some opened) = opened

-- SetComPort of the decoders and of the encoders, where `opening` is what Open does.
unfoldable pub set_com_port : Option Bool → Outcome Fault Bool → Outcome Fault (Option Bool)
set_com_port none opening = err Fault.null_port
set_com_port (some true) opening = ok (some true)
set_com_port (some false) (ok opened) = ok (some opened)
set_com_port (some false) (err thrown) = err thrown
