-- ===== src/Response/Lookup.antt =====
-- The header lookups of response.go, which streaming.go repeats.
use bursthttp.Base.{
  Bytes, codes, fold_byte, Bool, true, false, List, [], ◌==◌, if◌then◌else◌, ◌&&◌, ◌||◌, ◌∷◌,
}

-- A header as `parseHeaders` stores it.
pub record Header : Type 0 where
  pub key : Bytes
  pub value : Bytes

-- `strEqualFoldASCII`
unfoldable pub equal_fold : Bytes → Bytes → Bool
equal_fold [] [] = true
equal_fold (x ∷ xs) (y ∷ ys) = fold_byte x == fold_byte y && equal_fold xs ys
equal_fold _ _ = false

-- `Header`: the first value, or the empty string.
unfoldable pub header : List Header → Bytes → Bytes
unfolding equal_fold
header [] key = []
header (h ∷ hs) key = if equal_fold h.key key then h.value else header hs key

-- `HasHeader`
unfoldable pub has_header : List Header → Bytes → Bool
unfolding equal_fold
has_header [] key = false
has_header (h ∷ hs) key = equal_fold h.key key || has_header hs key

-- `HeaderValues`
unfoldable pub header_values : List Header → Bytes → List Bytes
unfolding equal_fold
header_values [] key = []
header_values (h ∷ hs) key =
    let rest = header_values hs key in if equal_fold h.key key then h.value ∷ rest else rest

-- `isConnectionClose`
unfoldable pub is_connection_close : List Header → Bool
unfolding equal_fold
is_connection_close [] = false
is_connection_close (h ∷ hs) =
    equal_fold h.key (codes "Connection") && equal_fold h.value (codes "close")
    || is_connection_close hs
