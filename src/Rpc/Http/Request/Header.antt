-- ===== src/Rpc/Http/Request/Header.antt =====
-- The header of a request as a grammar, and what the constructor of TRequest (lib/rpc/http_server.cpp)
-- reads of it.
use mathlib.Core.Path.{subst}
use my_orm.Prelude.{
  ℕ, zero, suc, ◌≤◌, ◌<◌, ◌≡◌, ◌≢◌, ◌⊎◌, inl, inr, refl, sym, true, false, ◌||◌, List, [], ◌∷◌,
  ◌++◌, Bytes, codes, bytes_eq, length, ◌==◌, nat_eq, arith, Bool-cases, ok, All,
}
use my_orm.Prelude.Map.{Map}
use my_orm.Rpc.Http.Text.{trim_white, line_of}
use my_orm.Rpc.Http.Text.Pieces.{IsSplit, pieces_of-IsSplit}
use my_orm.Rpc.Http.Request.{add_header, read_headers, pieces_by}

abbrev pub HasNoFeed : Bytes → Type 0
HasNoFeed line = All (λ c. c ≢ b'\n') line

-- A line of the header, as what it stands for.
pub record IsLine (line : Bytes) (split : List Bytes) : Type 0 where
  pub no_feed : HasNoFeed line
  pub not_last : (line == codes "\r") ≡ false
  pub splits : IsSplit (codes ": ") (trim_white line) split

-- The text of a header with the body behind it: lines up to one that is just a carriage return, or up
-- to the end of the text. The entries before and after are those of the lines so far and of all.
pub data HasHeader : Bytes → Map Bytes Bytes → Map Bytes Bytes → Bytes → Type 0 where
  ended : (h : Map Bytes Bytes) → HasHeader [] h h []
  blank :
      (line body : Bytes) (h : Map Bytes Bytes)
      → (line == codes "\r") ≡ true
      → HasHeader (line ++ b'\n' ∷ body) h h body
  blank_end :
      (line : Bytes) (h : Map Bytes Bytes) → (line == codes "\r") ≡ true → HasHeader line h h []
  next_line :
      (line text body : Bytes) (split : List Bytes) (h h' : Map Bytes Bytes)
      → IsLine line split
      → HasHeader text (add_header split h) h' body
      → HasHeader (line ++ b'\n' ∷ text) h h' body
  last_line :
      (line body : Bytes) (split : List Bytes) (h h' : Map Bytes Bytes)
      → line ≢ []
      → IsLine line split
      → HasHeader [] (add_header split h) h' body
      → HasHeader line h h' body

line_of-HasNoFeed : (s : Bytes) → HasNoFeed (line_of s).0
unfolding line_of
line_of-HasNoFeed [] = tt
line_of-HasNoFeed (c ∷ s) = elim (Bool-cases (c == b'\n')) [
  | inl feed ↦ subst HasNoFeed {x = []} (ground (arith, feed)) tt
  | inr other ↦
      subst HasNoFeed {x = c ∷ (line_of s).0} (ground (arith, other))
        ((λ e. ground (arith, other, e)), line_of-HasNoFeed s)
]

-- std::getline stops at a line feed or at the end.
line_of-parts :
    (s : Bytes)
    → (s ≡ (line_of s).0 ++ b'\n' ∷ (line_of s).1) ⊎ (((line_of s).1 ≡ []) × ((line_of s).0 ≡ s))
unfolding line_of
line_of-parts [] = inr (refl, refl)
line_of-parts (c ∷ s) = elim (Bool-cases (c == b'\n')) [
  | inl feed ↦ inl (ground (arith, feed))
  | inr other ↦ elim (line_of-parts s) [
    | inl cut ↦ inl (ground (arith, other, cut))
    | inr (over, whole) ↦ inr (ground (arith, other, over), ground (arith, other, whole))
  ]
]

line_of-length : (c : ℕ) (s : Bytes) → length (line_of (c ∷ s)).1 ≤ length s
unfolding line_of
line_of-length c [] = ground arith
line_of-length c (d ∷ s) = let later = line_of-length d s in ground (arith, later)

-- A line has no line feed: the second test of the loop is never met alone.
only_return :
    (line : Bytes)
    → HasNoFeed line
    → (line == codes "\r" || line == codes "\r\n") ≡ true
    → (line == codes "\r") ≡ true
only_return [] n h = cc
only_return (a ∷ []) n h = ground arith
only_return (a ∷ b ∷ line) (p, (q, n)) h = absurd (ground (arith, q, h))

pub read_headers_ok :
    (fuel : ℕ) (rest : Bytes) (h : Map Bytes Bytes)
    → length rest < fuel
    → (all : Map Bytes Bytes) × (body : Bytes) × (read_headers fuel rest h ≡ ok (all, body))
      × HasHeader rest h all body
unfolding read_headers pieces_by
read_headers_ok zero rest h less = absurd (omega arith)
read_headers_ok (suc fuel) [] h less = (h, [], refl, HasHeader.ended h)
read_headers_ok (suc fuel) (c ∷ s) h less =
    let line = (line_of (c ∷ s)).0 in
    let rest = (line_of (c ∷ s)).1 in
    let plain = line_of-HasNoFeed (c ∷ s) in
    let shorter = line_of-length c s in
    let (piece, pieces, splits) = pieces_of-IsSplit b':' (codes " ") (trim_white line) in
    let (all, body, done, header) =
      read_headers_ok fuel rest (add_header (piece ∷ pieces) h) (omega arith) in
    elim (Bool-cases (line == codes "\r" || line == codes "\r\n")) [
      | inl last ↦ (
        h,
        rest,
        ground (arith, last),
        elim (line_of-parts (c ∷ s)) [
          | inl cut ↦
              subst (λ t. HasHeader t h h rest) (sym cut)
                (HasHeader.blank line rest h (only_return line plain last))
          | inr (over, whole) ↦
              subst (λ b. HasHeader (c ∷ s) h h b) (sym over)
                (subst (λ t. HasHeader t h h []) whole
                  (HasHeader.blank_end line h (only_return line plain last)))
        ],
      )
      | inr more ↦
          let is_line : IsLine line (piece ∷ pieces) = record {
            no_feed = plain;
            not_last = ground (arith, more);
            splits = splits;
          } in
          (
            all,
            body,
            ground (arith, more, splits.0, done),
            elim (line_of-parts (c ∷ s)) [
              | inl cut ↦
                  subst (λ t. HasHeader t h all body) (sym cut)
                    (HasHeader.next_line line rest body (piece ∷ pieces) h all is_line header)
              | inr (over, whole) ↦
                  subst (λ t. HasHeader t h all body) whole
                    (HasHeader.last_line line body (piece ∷ pieces) h all (λ e. cc (e, whole))
                      is_line
                      (subst (λ t. HasHeader t (add_header (piece ∷ pieces) h) all body) over
                        header))
            ],
          )
    ]
