-- ===== src/Rpc/Http/Request.antt =====
-- TRequest of lib/rpc/http_server.cpp: the reading of a request.
pub mod Line
pub mod Header
use my_orm.Prelude.{
  ℕ, zero, suc, ◌+◌, ◌-◌, ◌*◌, Bool, true, false, ◌||◌, ◌&&◌, Option, none, some, List, [], ◌∷◌,
  Bytes, codes, bytes_eq, length, ltb, leb, ◌==◌, nat_eq, if◌then◌else◌, Outcome, ok, err, ◌>>=◌,
}
use my_orm.Prelude.Map.{Map, lookup, insert}
use my_orm.Common.Text.Split.{skip_spaces}
use my_orm.Rpc.Http.Text.{pieces_of, trim_white, line_of}

-- A piece of a line that is read and is not there, a Content-Length that std::stoul throws on, and
-- more rounds of a loop than its fuel.
pub data Refusal : Type 0 where
  missing_piece bad_length endless : Refusal

pub record Request : Type 0 where
  pub method : Bytes
  pub url : Bytes
  pub version : Bytes
  pub headers : Map Bytes Bytes
  pub url_args : Map Bytes Bytes
  pub body : Bytes

unfoldable pub pieces_by : (delimiter s : Bytes) → Outcome Refusal (List Bytes)
unfolding pieces_of
pieces_by delimiter s = elim (pieces_of s delimiter 0) [ none ↦ err endless | some ps ↦ ok ps ]

-- One argument of the address: it counts only with exactly one equals sign.
unfoldable pub add_arg : List Bytes → Map Bytes Bytes → Map Bytes Bytes
unfolding insert
add_arg (key ∷ value ∷ []) args = insert key value args
add_arg _ args = args

unfoldable pub add_args : List Bytes → Map Bytes Bytes → Outcome Refusal (Map Bytes Bytes)
unfolding pieces_by add_arg
add_args [] args = ok args
add_args (arg ∷ rest) args = pieces_by (codes "=") arg >>= λ sp. add_args rest (add_arg sp args)

-- The arguments, where the address has a question mark.
unfoldable pub read_args : List Bytes → Outcome Refusal (Map Bytes Bytes)
unfolding pieces_by add_args
read_args (url ∷ query ∷ more) = pieces_by (codes "&") query >>= λ parts. add_args parts []
read_args _ = ok []

unfoldable pub add_header : List Bytes → Map Bytes Bytes → Map Bytes Bytes
unfolding insert
add_header (key ∷ value ∷ more) headers = insert key value headers
add_header _ headers = headers

-- The loop over the lines of the header: up to the end of the text or a line that is empty but for a
-- carriage return. What is left is the body.
unfoldable pub read_headers :
    (fuel : ℕ) (rest : Bytes) → Map Bytes Bytes → Outcome Refusal (Map Bytes Bytes × Bytes)
unfolding line_of pieces_by trim_white add_header
read_headers zero rest headers = err endless
read_headers (suc fuel) [] headers = ok (headers, [])
read_headers (suc fuel) (c ∷ s) headers =
    let (line, rest) = line_of (c ∷ s) in
    let later = pieces_by (codes ": ") (trim_white line) >>= λ split.
    read_headers fuel rest (add_header split headers) in
    if line == codes "\r" || line == codes "\r\n" then ok (headers, rest) else later

-- The decimal digits that a text starts with, none where there is none.
unfoldable pub read_number : (value : ℕ) (seen : Bool) → Bytes → Option ℕ
read_number value seen [] = if seen then some value else none
read_number value seen (c ∷ s) =
    let rest = read_number (value * 10 + (c - b'0')) true s in
    if leb b'0' c && leb c b'9' then rest else if seen then some value else none

-- Whether std::stoul takes the text: a sign may stand before the digits, and a number that is out of
-- the range of a size_t throws.
unfoldable pub stoul_takes : Bytes → Bool
unfolding skip_spaces read_number
stoul_takes s = elim (read_number 0 false (unsigned (skip_spaces s))) [
  | none ↦ false
  | some value ↦ ltb value 0x10000000000000000
]
  where
    unsigned : Bytes → Bytes
    unsigned [] = []
    unsigned (c ∷ s) = if c == b'+' || c == b'-' then s else c ∷ s

-- The end of the constructor: only the conversion of Content-Length can fail, a body that is shorter
-- is logged.
unfoldable pub check_length : Request → Outcome Refusal Request
unfolding lookup stoul_takes
check_length request = elim (lookup (codes "Content-Length") request.headers) [
  | none ↦ ok request
  | some text ↦ if stoul_takes text then ok request else err bad_length
]

unfoldable pub request_of : (split : List Bytes) (rest : Bytes) → Outcome Refusal Request
unfolding pieces_by read_args read_headers check_length
request_of (method ∷ target ∷ version ∷ more) rest = pieces_by (codes "?") target >>= λ url_split.
    elim url_split [
      | [] ↦ err missing_piece
      | url ∷ queries ↦ read_args (url ∷ queries) >>= λ url_args.
          read_headers (suc (length rest)) rest [] >>= λ read. check_length (record {
            method = method;
            url = url;
            version = version;
            headers = read.0;
            url_args = url_args;
            body = read.1;
          })
    ]
request_of _ rest = err missing_piece

-- TRequest::TRequest
unfoldable pub read_request : Bytes → Outcome Refusal Request
unfolding line_of pieces_by trim_white request_of
read_request received =
    let (line, rest) = line_of received in
    pieces_by (codes " ") (trim_white line) >>= λ split. request_of split rest

-- TRequest::GetHeader
unfoldable pub get_header : Request → Bytes → Bytes
unfolding lookup
get_header request key = elim (lookup key request.headers) [ none ↦ [] | some value ↦ value ]
