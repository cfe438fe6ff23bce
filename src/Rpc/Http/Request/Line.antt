-- ===== src/Rpc/Http/Request/Line.antt =====
-- What TRequest of lib/rpc/http_server.cpp makes of a text: the first line, the header and the body.
use my_orm.Prelude.{◌<◌, ◌≡◌, ◌⊎◌, List, [], ◌∷◌, Bytes, codes, length, err}
use my_orm.Prelude.Map.{Map}
use my_orm.Rpc.Http.Text.Pieces.{IsSplit}
use my_orm.Rpc.Http.Request.{missing_piece, Request, add_arg, check_length, read_request}
use my_orm.Rpc.Http.Request.Header.{HasHeader}

-- The arguments that `parts` set, one after the other: a part with exactly one equals sign sets one.
pub data HasArgs : List Bytes → Map Bytes Bytes → Map Bytes Bytes → Type 0 where
  no_part : (args : Map Bytes Bytes) → HasArgs [] args args
  part :
      (text : Bytes) (rest split : List Bytes) (args args' : Map Bytes Bytes)
      → IsSplit (codes "=") text split
      → HasArgs rest (add_arg split args) args'
      → HasArgs (text ∷ rest) args args'

-- What is behind the first question mark, up to the next, is split at `&`.
abbrev pub HasQuery : List Bytes → Map Bytes Bytes → Type 0
HasQuery [] url_args = url_args ≡ []
HasQuery (query ∷ more) url_args =
    (parts : List Bytes) × IsSplit (codes "&") query parts × HasArgs parts [] url_args

-- The request has the pieces of the first line and of the address, and what stands behind that line.
abbrev pub IsRead : (split : List Bytes) (rest : Bytes) → Request → Type 0
IsRead (method ∷ target ∷ version ∷ more) rest request =
    (request.method ≡ method)
    × (request.version ≡ version)
    × ((queries : List Bytes) × IsSplit (codes "?") target (request.url ∷ queries)
        × HasQuery queries request.url_args)
    × HasHeader rest [] request.headers request.body
IsRead _ rest request = ⊥

-- What the constructor does with the first line and what stands behind it, and its outcome.
abbrev pub Result : (line rest received : Bytes) → Type 0
Result line rest received =
    ((split : List Bytes) × IsSplit (codes " ") line split
      × (length split < 3)
      × (read_request received ≡ err missing_piece))
    ⊎ ((split : List Bytes) × (request : Request) × IsSplit (codes " ") line split
        × (read_request received ≡ check_length request)
        × IsRead split rest request)
