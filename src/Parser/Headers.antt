-- ===== src/Parser/Headers.antt =====
-- `parseHeaders` and `headerBytesFromRaw` of parser.go. Slices are the bytes from an index on.
pub mod Render
pub mod Agree
use bursthttp.Base.{
  length, Bytes, cr, lf, ℕ, zero, suc, Option, none, some, List, [], trim, nonempty, ◌==◌,
  if◌then◌else◌, ◌&&◌, ◌∷◌, ◌++◌,
}
use bursthttp.Response.Lookup.{equal_fold, Header}

-- The search for the next "\r\n": the bytes before it, and those behind it.
unfoldable pub split_line : Bytes → Option (Bytes × Bytes)
split_line (a ∷ b ∷ rest) =
    if a == cr && b == lf
    then some ([], rest)
    else elim (split_line (b ∷ rest)) [ none ↦ none | some (line, after) ↦ some (a ∷ line, after) ]
split_line _ = none

-- The search for the first ':' of a line.
unfoldable pub split_colon : Bytes → Option (Bytes × Bytes)
split_colon [] = none
split_colon (c ∷ cs) =
    if c == b':'
    then some ([], cs)
    else elim (split_colon cs) [ none ↦ none | some (k, v) ↦ some (c ∷ k, v) ]

-- A line with a colon behind at least one byte, both sides trimmed.
unfoldable pub field_of : Bytes → Option Header
field_of line = elim (split_colon line) [
  | none ↦ none
  | some (k, v) ↦ if nonempty k then some (record { key = trim k; value = trim v }) else none
]

-- What `parseHeaders` appends for a line: a field whose key and value are not empty.
unfoldable pub header_of : Bytes → List Header
header_of line = elim (field_of line) [
  | none ↦ []
  | some h ↦ if nonempty h.key && nonempty h.value then h ∷ [] else []
]

-- `for start < len(headerBuf)`; each round takes two bytes at least, so the length is fuel enough.
unfoldable pub header_lines : ℕ → Bytes → List Header
header_lines zero buf = []
header_lines (suc fuel) buf = elim (split_line buf) [
  | none ↦ []
  | some (line, after) ↦
      let rest = header_lines fuel after in if nonempty line then header_of line ++ rest else []
]

-- The headers that a response has after `parseHeaders`, from those that it had.
unfoldable pub parse_headers : Bytes → List Header → List Header
parse_headers buf old = elim (split_line buf) [
  | none ↦ old
  | some (status_line, after) ↦ if nonempty after then header_lines (length after) after else old
]

-- The loop of `headerBytesFromRaw` over the lines behind the status line.
unfoldable pub raw_lines : ℕ → Bytes → Bytes → Option Bytes
raw_lines zero key buf = none
raw_lines (suc fuel) key buf = elim (split_line buf) [
  | none ↦ none
  | some (line, after) ↦
      let rest = raw_lines fuel key after in
      if nonempty line
      then elim (field_of line) [
        | none ↦ rest
        | some h ↦ if equal_fold h.key key then some h.value else rest
      ]
      else none
]

-- `headerBytesFromRaw`, `none` for its nil; with no "\r\n" the lines begin at 0.
unfoldable pub header_bytes_from_raw : Bytes → Bytes → Option Bytes
header_bytes_from_raw raw key =
    if nonempty raw && nonempty key
    then elim (split_line raw) [
      | none ↦ raw_lines (length raw) key raw
      | some (status_line, after) ↦ raw_lines (length raw) key after
    ]
    else none
