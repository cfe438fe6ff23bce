-- ===== src/Tests/Http.antt =====
-- Requests and responses of lib/rpc/http_server.cpp.
use my_orm.Prelude.{
  ℕ, zero, suc, ◌≡◌, refl, true, false, some, [], ◌∷◌, Bytes, codes, All, length, replicate, ◌==◌,
  nat_eq, if◌then◌else◌, arith, ok, err,
}
use my_orm.Rpc.Http.Request.{Request, missing_piece, bad_length, read_request, get_header}
use my_orm.Rpc.Http.Response.{set_status, set_raw, format_response, is_accept_type}
use my_orm.Rpc.Http.Receive.{
  receive, closed, complete, arrivals, whole, IsFull, NonZero, receive-whole,
}

abbrev post_text : Bytes
post_text =
    codes "POST /api/query?a=1&b&c=2 HTTP/1.1\r\nAccept: text/*\r\nContent-Length: 2\r\n\r\nok"

abbrev post : Request
post = record {
  method = codes "POST";
  url = codes "/api/query";
  version = codes "HTTP/1.1";
  headers = (codes "Accept", codes "text/*") ∷ (codes "Content-Length", codes "2") ∷ [];
  url_args = (codes "a", codes "1") ∷ (codes "c", codes "2") ∷ [];
  body = codes "ok";
}

read_test : read_request post_text ≡ ok post
unfolding read_request
read_test = refl

short_test : read_request (codes "GET /\r\n\r\n") ≡ err missing_piece
unfolding read_request
short_test = refl

length_test : read_request (codes "GET / HTTP/1.1\r\nContent-Length: no\r\n\r\n") ≡ err bad_length
unfolding read_request
length_test = refl

-- The value of a header is what stands before a second colon and space.
header_test :
    (r : Request) × (read_request (codes "GET / HTTP/1.1\r\nX: a: b\r\n\r\n") ≡ ok r)
    × (get_header r (codes "X") ≡ codes "a")
unfolding read_request get_header
header_test = (_, refl, refl)

accept_test :
    (is_accept_type post (codes "text/html") ≡ true)
    × (is_accept_type post (codes "image/png") ≡ false)
unfolding is_accept_type
accept_test = (refl, refl)

response_test :
    format_response (codes "HTTP/1.1") (
      set_raw
        (codes "gone")
        (set_status 404 (record { http_status = 200; headers = []; body = [] })))
    ≡ codes "HTTP/1.1 404 Not Found\r\nContent-Length: 4\r\n\r\ngone"
unfolding format_response set_raw set_status
response_test = refl

-- A zero in the body ends what the server sees of the request.
zero_test : receive [] (some (65 ∷ 0 ∷ 66 ∷ []) ∷ []) ≡ complete (65 ∷ [])
unfolding receive
zero_test = refl

plain_replicate : (n : ℕ) → All NonZero (replicate n 65)
plain_replicate zero = tt
plain_replicate (suc n) = ((λ h. cc), plain_replicate n)

abbrev buffer : Bytes
buffer = replicate 1023 65

buffer-IsFull : IsFull buffer
buffer-IsFull = (refl, plain_replicate 1023)

receive-whole_example :
    receive [] (arrivals (buffer ∷ []) (66 ∷ []))
    ≡ (if length {A = ℕ} (66 ∷ []) == 0 then closed else complete (whole (buffer ∷ []) (66 ∷ [])))
receive-whole_example =
    receive-whole (buffer ∷ []) (66 ∷ []) (buffer-IsFull, tt) ((λ h. cc), tt) (omega arith)
