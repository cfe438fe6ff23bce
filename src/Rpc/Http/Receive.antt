-- ===== src/Rpc/Http/Receive.antt =====
-- The loop of THttpServer::ProcessClient in lib/rpc/http_server.cpp that receives a request.
use my_orm.Prelude.{
  ℕ, ◌≡◌, ◌<◌, refl, Option, none, some, List, [], ◌∷◌, ◌++◌, Bytes, length, leb, ◌==◌, nat_eq,
  if◌then◌else◌, append_assoc, arith, All,
}

-- sizeof(InputBuf_) - 1
abbrev pub buf_size : ℕ
buf_size = 1023

-- What the stream takes of the buffer, which it reads as a text that ends at a zero.
unfoldable pub text_of : Bytes → Bytes
text_of [] = []
text_of (c ∷ s) = let rest = text_of s in if c == 0 then [] else c ∷ rest

-- How the loop ends: with an error of recv, with a last result of 0, which the code takes for a
-- client that sent nothing, or with the text for the request.
pub data Received : Type 0 where
  broken closed : Received
  complete : Bytes → Received

-- The loop, on what the further calls of recv give (none for an error) and the text so far. Without a
-- further call the client has closed the connection, and recv gives 0.
unfoldable pub receive : (text : Bytes) → List (Option Bytes) → Received
unfolding text_of
receive text [] = closed
receive text (none ∷ rest) = broken
receive text (some chunk ∷ rest) =
    let later = receive (text ++ text_of chunk) rest in
    if leb buf_size (length chunk)
    then later
    else if length chunk == 0
    then closed
    else complete (text ++ text_of chunk)

abbrev pub NonZero : ℕ → Type 0
NonZero c = c ≡ 0 → ⊥

text_of-id : (s : Bytes) → All NonZero s → text_of s ≡ s
unfolding text_of
text_of-id [] h = refl
text_of-id (c ∷ s) (h, more) = let later = text_of-id s more in ground (arith, h, later)

abbrev pub IsFull : Bytes → Type 0
IsFull chunk = (length chunk ≡ buf_size) × All NonZero chunk

abbrev pub arrivals : (chunks : List Bytes) → (last : Bytes) → List (Option Bytes)
arrivals [] last = some last ∷ []
arrivals (chunk ∷ chunks) last = some chunk ∷ arrivals chunks last

abbrev pub whole : (chunks : List Bytes) → (last : Bytes) → Bytes
whole [] last = last
whole (chunk ∷ chunks) last = chunk ++ whole chunks last

receive-arrivals :
    (text : Bytes) (chunks : List Bytes) (last : Bytes)
    → All IsFull chunks
    → All NonZero last
    → length last < buf_size
    → receive text (arrivals chunks last)
      ≡ (if length last == 0 then closed else complete (text ++ whole chunks last))
unfolding receive
receive-arrivals text [] last full plain short =
    let same = text_of-id last plain in ground (arith, same, short)
receive-arrivals text (chunk ∷ chunks) last ((full, plain), more) h short =
    let same = text_of-id chunk plain in
    let later = receive-arrivals (text ++ chunk) chunks last more h short in
    let assoc = append_assoc text chunk (whole chunks last) in
    ground (arith, full, same, later, assoc)

-- From a client whose text without zeros arrives in full buffers and a last part that does not fill
-- one, the server has exactly that text; where the last part is empty, it drops the request as if
-- nothing had come.
pub receive-whole :
    (chunks : List Bytes) (last : Bytes)
    → All IsFull chunks
    → All NonZero last
    → length last < buf_size
    → receive [] (arrivals chunks last)
      ≡ (if length last == 0 then closed else complete (whole chunks last))
receive-whole chunks last full plain short = receive-arrivals [] chunks last full plain short
