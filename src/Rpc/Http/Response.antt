-- ===== src/Rpc/Http/Response.antt =====
-- TResponse, GetHttpStatusName, IsAcceptType and FormatResponse of lib/rpc/http_server.cpp.
use my_orm.Prelude.{
  ℕ, Bool, true, false, ◌||◌, Option, none, some, List, [], ◌∷◌, ◌++◌, Bytes, codes, bytes_eq,
  length, take, ◌==◌, nat_eq, if◌then◌else◌,
}
use my_orm.Prelude.Map.{Map, lookup, insert}
use my_orm.Common.Text.Split.{find, starts_with}
use my_orm.QueryBuilder.Postgres.Text.{decimal}
use my_orm.Rpc.Http.Request.{Request, get_header}

-- The enumerators of EHttpCode with their names; a status is its number, as the code casts other
-- numbers to the type too.
abbrev pub status_names : List (ℕ × Bytes)
status_names =
    (100, codes "Continue")
    ∷ (101, codes "Switching Protocols")
    ∷ (200, codes "OK")
    ∷ (201, codes "Created")
    ∷ (202, codes "Accepted")
    ∷ (203, codes "Non-Authoritative Information")
    ∷ (204, codes "No Content")
    ∷ (205, codes "Reset Content")
    ∷ (206, codes "Partial Content")
    ∷ (300, codes "Multiple Choices")
    ∷ (301, codes "Moved Permanently")
    ∷ (302, codes "Found")
    ∷ (303, codes "See Other")
    ∷ (304, codes "Not Modified")
    ∷ (307, codes "Temporary Redirect")
    ∷ (308, codes "Permanent Redirect")
    ∷ (400, codes "Bad Request")
    ∷ (401, codes "Unauthorized")
    ∷ (403, codes "Forbidden")
    ∷ (404, codes "Not Found")
    ∷ (405, codes "Method Not Allowed")
    ∷ (408, codes "Request Timeout")
    ∷ (409, codes "Conflict")
    ∷ (410, codes "Gone")
    ∷ (500, codes "Internal Server Error")
    ∷ (501, codes "Not Implemented")
    ∷ (502, codes "Bad Gateway")
    ∷ (503, codes "Service Unavailable")
    ∷ (504, codes "Gateway Timeout")
    ∷ []

-- GetHttpStatusName
unfoldable pub get_http_status_name : ℕ → Bytes
unfolding lookup
get_http_status_name status = elim (lookup status status_names) [
  | none ↦ codes "Unknown Status Code"
  | some name ↦ name
]

abbrev is_found : Option ℕ → Bool
is_found none = false
is_found (some at) = true

-- The test for "category/*" of a type "category/subcategory".
unfoldable pub accepts_category : (accept_header type : Bytes) → Bool
unfolding find
accepts_category accept_header type = elim (find (codes "/") type) [
  | none ↦ false
  | some slash_pos ↦ is_found (find (take slash_pos type ++ codes "/*") accept_header)
]

-- IsAcceptType
unfoldable pub is_accept_type : Request → Bytes → Bool
unfolding get_header find accepts_category
is_accept_type request type =
    let accept_header = get_header request (codes "Accept") in
    length accept_header == 0
    || is_found (find type accept_header)
    || is_found (find (codes "*/*") accept_header)
    || accepts_category accept_header type

pub record Response : Type 0 where
  pub http_status : ℕ
  pub headers : Map Bytes Bytes
  pub body : Bytes

unfoldable pub set_status : ℕ → Response → Response
set_status status r = record { http_status = status; headers = r.headers; body = r.body }

unfoldable pub set_header : (key value : Bytes) → Response → Response
unfolding insert
set_header key value r = record {
  http_status = r.http_status;
  headers = insert key value r.headers;
  body = r.body;
}

abbrev with_length : Bytes → Map Bytes Bytes → Map Bytes Bytes
with_length text headers = insert (codes "Content-Length") (decimal (length text)) headers

unfoldable pub set_raw : Bytes → Response → Response
unfolding insert decimal
set_raw text r = record {
  http_status = r.http_status;
  headers = with_length text r.headers;
  body = text;
}

-- SetText, and SetJson and SetHtml with the text of the json value and of the file.
unfoldable pub set_typed : (type text : Bytes) → Response → Response
unfolding insert decimal
set_typed type text r = record {
  http_status = r.http_status;
  headers = with_length text (insert (codes "Content-Type") type r.headers);
  body = text;
}

unfoldable pub set_text : Bytes → Response → Response
unfolding set_typed
set_text text r = set_typed (codes "text/plain") text r

unfoldable pub set_json : (dump : Bytes) → Response → Response
unfolding set_typed
set_json dump r = set_typed (codes "application/json") dump r

unfoldable pub set_html : (content : Bytes) → Response → Response
unfolding set_typed
set_html content r = set_typed (codes "text/html") content r

unfoldable pub format_headers : Map Bytes Bytes → Bytes
format_headers [] = []
format_headers (header ∷ rest) =
    header.0 ++ (codes ": " ++ (header.1 ++ (codes "\r\n" ++ format_headers rest)))

-- THandlerBase::FormatResponse
unfoldable pub format_response : (version : Bytes) → Response → Bytes
unfolding starts_with format_headers get_http_status_name decimal
format_response version r =
    let status_line =
      if starts_with (codes "HTTP/") version then version else codes "HTTP/" ++ version in
    status_line
    ++ (codes " "
        ++ (decimal r.http_status
            ++ (codes " "
                ++ (get_http_status_name r.http_status
                    ++ (codes "\r\n" ++ (format_headers r.headers ++ (codes "\r\n" ++ r.body)))))))
