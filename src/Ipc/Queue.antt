-- ===== src/Ipc/Queue.antt =====
-- The queue of the packets that have arrived and are not yet read, which the buffer of a binary
-- decoder in lib/ipc/decode_encode.cpp stands for.
use my_orm.Prelude.{
  ℕ, zero, suc, ◌≤◌, ◌<◌, ◌≡◌, ◌≢◌, refl, ap, sym, ◌∙◌, true, Option, none, some, List, [], ◌∷◌,
  ◌++◌, append-nil, append_assoc, Bytes, All, All-append, length, length-append, replicate, Outcome,
  ok, arith,
}
use mathlib.Core.List.{map}
use my_orm.Ipc.{size_minus, Fault, Floating, BinaryKind}
use my_orm.Ipc.Encoder.{packet}
use my_orm.Ipc.Decoder.{margin, value, data_size, decode_binary_temperature, process_buffer}
use my_orm.Ipc.Packets.{left_over}
use my_orm.Ipc.Delivery.{value_total, read_filled, read_temperature-packet}
use my_orm.Ipc.Reader.{new_buffer, decode_and_process, read_temperature}

-- The bytes of the packets with the given data, one behind the other.
unfoldable pub packets : List Bytes → Bytes
packets [] = []
packets (payload ∷ queue) = packet payload ++ packets queue

-- What a call takes off the queue, and what it leaves.
unfoldable pub front : List Bytes → Option Bytes
front [] = none
front (payload ∷ queue) = some payload

unfoldable pub behind : List Bytes → List Bytes
behind [] = []
behind (payload ∷ queue) = queue

-- The buffer that stands for a queue.
unfoldable pub buffer_of : List Bytes → Bytes
unfolding left_over packets
buffer_of queue = left_over (packets queue)

packets-append :
    (first second : List Bytes) → packets (first ++ second) ≡ packets first ++ packets second
unfolding packets
packets-append [] second = refl
packets-append (payload ∷ first) second =
    ap (λ s. packet payload ++ s) (packets-append first second)
    ∙ sym (append_assoc (packet payload) (packets first) (packets second))

All-replicate {κ} : (P : ℕ → Type κ) (n b : ℕ) → P b → All P (replicate n b)
All-replicate P zero b h = tt
All-replicate P (suc n) b h = (h, All-replicate P n b h)

pub new_buffer_idle : All (λ b. b ≢ 0x02) new_buffer
new_buffer_idle = All-replicate (λ b. b ≢ 0x02) 256 0 (λ e. absurd (omega arith))

module _ (F : Floating) (kind : BinaryKind) where
  -- What a call returns for the payload it takes off, NaN when there is none.
  unfoldable pub answer : Option Bytes → Outcome Fault F.Double
  answer none = ok F.nan
  answer (some payload) = value F kind payload

  abbrev pub HasSize : Bytes → Type 0
  HasSize payload = length payload ≡ data_size kind

left_over-packet :
    (payload rest : Bytes) → left_over (packet payload ++ rest) ≡ packet payload ++ rest
unfolding left_over packet
left_over-packet payload rest = refl

decode-new_buffer :
    (F : Floating) (kind : BinaryKind) → decode_binary_temperature F kind new_buffer ≡ ok none
unfolding decode_binary_temperature size_minus margin
decode-new_buffer F BinaryKind.byte_integer = refl
decode-new_buffer F BinaryKind.fixed_point = refl
decode-new_buffer F BinaryKind.floating_point = refl

module _ (F : Floating) (kind : BinaryKind) where
  -- A call on an open port, when whole packets of the decoder's subclass come in, does on the
  -- buffer that stands for a queue what putting them at the end of the queue and taking the first
  -- off does. The packets pending have fewer than 1024 bytes together, and those that come in at
  -- most 256.
  pub read_temperature-buffer_of :
      (queue arrived : List Bytes)
      → All (HasSize F kind) queue
      → All (HasSize F kind) arrived
      → length (packets queue) < 1024
      → length (packets arrived) ≤ 256
      → read_temperature F (some true) kind (packets arrived) (buffer_of queue)
        ≡ (buffer_of (behind (queue ++ arrived)), answer F kind (front (queue ++ arrived)))
  unfolding answer front behind buffer_of packets left_over
  read_temperature-buffer_of [] [] hq ha room fit =
      unfold decode_and_process process_buffer size_minus in
      read_filled F kind [] new_buffer new_buffer (omega arith) refl
      ∙ ap (λ found. decode_and_process F.nan found (process_buffer new_buffer) new_buffer)
          (decode-new_buffer F kind)
  read_temperature-buffer_of [] (payload ∷ arrived) hq (hp, ha) room fit =
      let (v, hv) = value_total F kind payload hp in
      read_temperature-packet F kind (packets (payload ∷ arrived)) new_buffer new_buffer payload
        (packets arrived) v (omega arith) fit refl new_buffer_idle hp hv
      ∙ ap (λ r. (left_over (packets arrived), r)) (sym hv)
  read_temperature-buffer_of (payload ∷ queue) arrived (hp, hq) ha room fit =
      let (v, hv) = value_total F kind payload hp in
      let kept = left_over-packet payload (packets queue) in
      let filled =
        append_assoc (packet payload) (packets queue) (packets arrived)
        ∙ ap (λ s. packet payload ++ s) (sym (packets-append queue arrived)) in
      ap (read_temperature F (some true) kind (packets arrived)) kept
      ∙ read_temperature-packet F kind (packets arrived) (packets (payload ∷ queue)) [] payload
          (packets (queue ++ arrived)) v room fit filled tt hp hv
      ∙ ap (λ r. (buffer_of (queue ++ arrived), r)) (sym hv)

  -- Successive calls on an open port, with the bytes that come in before each, what they return
  -- and the buffer they leave.
  unfoldable pub readings : List Bytes → Bytes → List (Outcome Fault F.Double) × Bytes
  readings [] buffer = ([], buffer)
  readings (chunk ∷ chunks) buffer =
      let (left, result) = read_temperature F (some true) kind chunk buffer in
      let later = readings chunks left in (result ∷ later.0, later.1)

  -- The calls on the queue, with the payloads that arrive before each.
  unfoldable pub served :
      List (List Bytes) → List Bytes → List (Outcome Fault F.Double) × List Bytes
  unfolding answer front behind
  served [] queue = ([], queue)
  served (arrived ∷ arrivals) queue =
      let later = served arrivals (behind (queue ++ arrived)) in
      (answer F kind (front (queue ++ arrived)) ∷ later.0, later.1)

  -- Before each call fewer than 1024 bytes are pending, and at most 256 come in.
  unfoldable pub HasRoom : List (List Bytes) → List Bytes → Type 0
  unfolding behind packets
  HasRoom [] queue = Unit
  HasRoom (arrived ∷ arrivals) queue =
      (length (packets queue) < 1024)
      × (length (packets arrived) ≤ 256)
      × All (HasSize F kind) arrived
      × HasRoom arrivals (behind (queue ++ arrived))

  All-behind :
      (queue : List Bytes) → All (HasSize F kind) queue → All (HasSize F kind) (behind queue)
  unfolding behind
  All-behind [] h = tt
  All-behind (payload ∷ queue) (hp, hq) = hq

  -- Any number of calls, with packets of the decoder's subclass coming in between and room for
  -- them, returns what the queue serves, and leaves the buffer that stands for the queue.
  pub readings-served :
      (arrivals : List (List Bytes)) (queue : List Bytes)
      → All (HasSize F kind) queue
      → HasRoom arrivals queue
      → readings (map packets arrivals) (buffer_of queue)
        ≡ ((served arrivals queue).0, buffer_of (served arrivals queue).1)
  unfolding readings served HasRoom
  readings-served [] queue hq room = refl
  readings-served (arrived ∷ arrivals) queue hq (hp, ha, hs, room) =
      let step = read_temperature-buffer_of queue arrived hq hs hp ha in
      let sized = All-behind (queue ++ arrived) (All-append _ queue arrived hq hs) in
      let ih = readings-served arrivals (behind (queue ++ arrived)) sized room in
      ap
        (λ c.
          (c.1 ∷ (readings (map packets arrivals) c.0).0, (readings (map packets arrivals) c.0).1))
        step
      ∙ ap (λ l. (answer F kind (front (queue ++ arrived)) ∷ l.0, l.1)) ih

  -- The calls it takes to read a queue, when nothing more comes in.
  abbrev pub idle_chunks : List Bytes → List (List Bytes)
  idle_chunks queue = replicate (length queue) []

  served-idle :
      (queue : List Bytes) → served (idle_chunks queue) queue ≡ (map (value F kind) queue, [])
  unfolding served front answer behind
  served-idle [] = refl
  served-idle (payload ∷ queue) =
      rw (append-nil queue) (ap (λ l. (value F kind payload ∷ l.0, l.1)) (served-idle queue))

  HasRoom-idle :
      (queue : List Bytes) → length (packets queue) < 1024 → HasRoom (idle_chunks queue) queue
  unfolding HasRoom behind packets
  HasRoom-idle [] room = tt
  HasRoom-idle (payload ∷ queue) room =
      let smaller : length (packets queue) < 1024 =
        omega (arith, length-append (packet payload) (packets queue)) in
      (room, omega arith, tt, rw (append-nil queue) (HasRoom-idle queue smaller))

  -- As many calls as packets are pending, while nothing more comes in, return the values of all of
  -- them in order, and leave the constructor's buffer. The packets are of the decoder's subclass,
  -- and together have fewer than 1024 bytes.
  pub readings_deliver :
      (queue : List Bytes)
      → All (HasSize F kind) queue
      → length (packets queue) < 1024
      → readings (map packets (idle_chunks queue)) (buffer_of queue)
        ≡ (map (value F kind) queue, new_buffer)
  unfolding buffer_of
  readings_deliver queue hq room =
      readings-served (idle_chunks queue) queue hq (HasRoom-idle queue room)
      ∙ ap (λ l. (l.0, buffer_of l.1)) (served-idle queue)
