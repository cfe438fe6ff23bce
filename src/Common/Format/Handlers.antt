-- ===== src/Common/Format/Handlers.antt =====
-- FormatHandler of lib/common/format.h for bool, strings, containers and pairs. The elements of a
-- container are given by what their own handlers write. std::stoi is a parameter.
use my_orm.Prelude.{
  ℕ, zero, suc, ◌+◌, ◌-◌, Bool, false, ◌&&◌, Option, List, [], ◌∷◌, ◌++◌, Bytes, codes, length,
  take, replicate, ltb, leb, if◌then◌else◌,
}
use my_orm.Prelude.Int.{ℤ, negsuc}
use my_orm.Common.Text.Options.{FormatOptions, get_bool, get_string, get_int, get_sub_options}
use my_orm.Common.Format.{Argument}

-- A value that is written by FormatHandler for bool.
unfoldable pub handle_bool : Bool → Argument
unfolding get_string
handle_bool value o =
    let true_text = get_string o (codes "true") (codes "true") in
    let false_text = get_string o (codes "false") (codes "false") in
    if value then true_text else false_text

-- s[0], which is 0 for the empty text.
unfoldable pub first_symbol : Bytes → ℕ
first_symbol [] = 0
first_symbol (c ∷ s) = c

-- std::toupper and std::tolower in the "C" locale.
unfoldable pub upper_symbol : ℕ → ℕ
upper_symbol c = if leb b'a' c && leb c b'z' then c - 32 else c

unfoldable pub lower_symbol : ℕ → ℕ
lower_symbol c = if leb b'A' c && leb c b'Z' then c + 32 else c

unfoldable pub each_symbol : (ℕ → ℕ) → Bytes → Bytes
each_symbol f [] = []
each_symbol f (c ∷ s) = f c ∷ each_symbol f s

-- Whether a limit that may be negative, for none, is below a size.
unfoldable pub exceeds : (limit : ℤ) (size : ℕ) → Bool
exceeds (ℤ.pos n) size = ltb n size
exceeds (negsuc n) size = false

-- A limit that is not negative.
unfoldable pub count_of : ℤ → ℕ
count_of (ℤ.pos n) = n
count_of (negsuc n) = 0

-- The padding to a width, which is none when the width is not above the length.
unfoldable pub pad : (width : ℤ) (fill : ℕ) (left : Bool) → Bytes → Bytes
unfolding count_of
pad width fill left s =
    let padding = replicate (count_of width - length s) fill in
    if ltb (length s) (count_of width) then (if left then s ++ padding else padding ++ s) else s

-- The loop over the elements, with the delimiter before each but the first.
unfoldable pub write_elements :
    (delimiter : Bytes) (o : FormatOptions) (count : ℕ) → List Argument → Bytes
write_elements delimiter o zero elements = []
write_elements delimiter o (suc count) [] = []
write_elements delimiter o (suc count) (element ∷ []) = element o
write_elements delimiter o (suc zero) (element ∷ next ∷ elements) = element o
write_elements delimiter o (suc (suc count)) (element ∷ next ∷ elements) =
    element o ++ (delimiter ++ write_elements delimiter o (suc count) (next ∷ elements))

-- An entry of a map or a pair: what the handlers of its two parts write.
unfoldable pub write_entry :
    (separator : Bytes) (first second : FormatOptions) → Argument × Argument → Bytes
write_entry separator first second parts = parts.0 first ++ (separator ++ parts.1 second)

unfoldable pub write_entries :
    (delimiter separator : Bytes) (keys values : FormatOptions) (count : ℕ)
    → List (Argument × Argument)
    → Bytes
unfolding write_entry
write_entries delimiter separator keys values zero entries = []
write_entries delimiter separator keys values (suc count) [] = []
write_entries delimiter separator keys values (suc count) (entry ∷ []) =
    write_entry separator keys values entry
write_entries delimiter separator keys values (suc zero) (entry ∷ next ∷ entries) =
    write_entry separator keys values entry
write_entries delimiter separator keys values (suc (suc count)) (entry ∷ next ∷ entries) =
    write_entry separator keys values entry
    ++ (delimiter ++ write_entries delimiter separator keys values (suc count) (next ∷ entries))

module _ (read_int : Bytes → Option ℤ) where
  unfoldable pub handle_string : Bytes → Argument
  unfolding get_int get_string get_bool first_symbol exceeds each_symbol upper_symbol lower_symbol
      pad
  handle_string value o =
      let width = get_int read_int o (codes "width") (ℤ.pos 0) in
      let fill = first_symbol (get_string o (codes "fill") (codes " ")) in
      let left = get_bool o (codes "left") false in
      let max_length = get_int read_int o (codes "maxlength") (negsuc 0) in
      let upper = get_bool o (codes "upper") false in
      let lower = get_bool o (codes "lower") false in
      let cut =
        if exceeds max_length (length value) then take (count_of max_length) value else value in
      let cased =
        if upper
        then each_symbol upper_symbol cut
        else if lower
        then each_symbol lower_symbol cut
        else cut in
      pad width fill left cased

  -- FormatSequenceContainer
  unfoldable pub handle_sequence : List Argument → Argument
  unfolding get_int get_string get_bool get_sub_options exceeds count_of write_elements
  handle_sequence container o =
      let delimiter = get_string o (codes "delimiter") (codes ", ") in
      let only = get_bool o (codes "onlydelim") false in
      let prefix = if only then [] else get_string o (codes "prefix") (codes "[") in
      let suffix = if only then [] else get_string o (codes "suffix") (codes "]") in
      let limit = get_int read_int o (codes "limit") (negsuc 0) in
      let overflow = get_string o (codes "overflow") (codes "...") in
      let size = length container in
      let exceeded = exceeds limit size in
      let shown = if exceeded then count_of limit else size in
      prefix
      ++ write_elements delimiter (get_sub_options o (codes "element")) shown container
      ++ (if exceeded then delimiter ++ overflow else [])
      ++ suffix

  -- FormatMappedContainer
  unfoldable pub handle_mapped : List (Argument × Argument) → Argument
  unfolding get_int get_string get_bool get_sub_options exceeds count_of write_entries
  handle_mapped container o =
      let delimiter = get_string o (codes "delimiter") (codes ", ") in
      let only = get_bool o (codes "onlydelim") false in
      let prefix = if only then [] else get_string o (codes "prefix") (codes "{") in
      let suffix = if only then [] else get_string o (codes "suffix") (codes "}") in
      let separator = get_string o (codes "kv_separator") (codes ": ") in
      let limit = get_int read_int o (codes "limit") (negsuc 0) in
      let overflow = get_string o (codes "overflow") (codes "...") in
      let size = length container in
      let exceeded = exceeds limit size in
      let shown = if exceeded then count_of limit else size in
      prefix
      ++ write_entries delimiter separator (get_sub_options o (codes "key"))
          (get_sub_options o (codes "value")) shown container
      ++ (if exceeded then delimiter ++ overflow else [])
      ++ suffix

unfoldable pub handle_pair : Argument × Argument → Argument
unfolding get_string get_sub_options write_entry
handle_pair parts o =
    let delimiter = get_string o (codes "delimiter") (codes ", ") in
    get_string o (codes "prefix") (codes "(")
    ++ write_entry delimiter (get_sub_options o (codes "first"))
        (get_sub_options o (codes "second")) parts
    ++ get_string o (codes "suffix") (codes ")")
