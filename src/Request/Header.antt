-- ===== src/Request/Header.antt =====
-- `SetHeader` lets nothing in that would start another header.
pub mod RoundTrip
use bursthttp.Base.{
  Bool-cases, Option-cases, length, length-append, Bytes, cr, lf, ℕ, refl, inl, inr, Bool, true,
  false, none, some, [], arith, ◌+◌, ◌*◌, ◌≤◌, ◌<◌, ◌≡◌, ◌⊎◌, ◌∷◌, ◌++◌,
}
use bursthttp.Response.Buffer.{round_up_bounds}
use bursthttp.Request.{
  Request, contains_crlf, ensure_header_size, max_header_size, header_line, set_header, header_room,
}

ensure_header_size_fits :
    (size required n : ℕ) → ensure_header_size size required ≡ some n → required ≤ n
unfolding ensure_header_size
ensure_header_size_fits size required n =
    grind (arith, round_up_bounds (size * 2) 4096, round_up_bounds required 4096)

ensure_header_size_refuses :
    (size required : ℕ) → ensure_header_size size required ≡ none → max_header_size < required
unfolding ensure_header_size
ensure_header_size_refuses size required = grind arith

length-header_line :
    (key value : Bytes) → length (header_line key value) ≡ length key + 2 + length value + 2
length-header_line key value = omega (
  arith,
  length-append key (b':' ∷ b' ' ∷ (value ++ cr ∷ lf ∷ [])),
  length-append value (cr ∷ lf ∷ []),
)

-- The outcome of `SetHeader`. It accepts only a name and a value without line ends, adds one line
-- to the block and leaves the buffer large enough. It refuses by changing nothing, for a line end
-- or for the limit.
abbrev pub SetsHeader : Request → Bytes → Bytes → Request × Bool → Type 0
SetsHeader r key value (r', true) =
    (contains_crlf key ≡ false)
    × (contains_crlf value ≡ false)
    × (r' ≡ record r {
      header_block = r.header_block ++ header_line key value;
      header_size = r'.header_size;
    })
    × (length r'.header_block ≤ r'.header_size)
SetsHeader r key value (r', false) =
    (r' ≡ r)
    × ((contains_crlf key ≡ true)
        ⊎ (contains_crlf value ≡ true)
        ⊎ (max_header_size < length (r.header_block ++ header_line key value)))

header_room_fits : (r : Request) (required n : ℕ) → header_room r required ≡ some n → required ≤ n
unfolding header_room
header_room_fits r required n = grind (arith, ensure_header_size_fits r.header_size required n)

pub header_room_refuses :
    (r : Request) (required : ℕ) → header_room r required ≡ none → max_header_size < required
unfolding header_room
header_room_refuses r required = grind (arith, ensure_header_size_refuses r.header_size required)

pub length-block :
    (block key value : Bytes)
    → length (block ++ header_line key value) ≡ length block + (length key + 2 + length value + 2)
length-block block key value =
    omega (arith, length-append block (header_line key value), length-header_line key value)

clean-SetsHeader :
    (r : Request) (key value : Bytes)
    → contains_crlf key ≡ false
    → contains_crlf value ≡ false
    → SetsHeader r key value (set_header r key value)
unfolding set_header
clean-SetsHeader r key value p q =
    let long = length-block r.header_block key value in
    let required = length r.header_block + (length key + 2 + length value + 2) in
    elim (Option-cases (header_room r required)) [
      | inl e ↦
          rw (p, q, e) (refl, inr (inr (omega (arith, long, header_room_refuses r required e))))
      | inr (n, e) ↦ rw (p, q, e) (p, q, refl, omega (arith, long, header_room_fits r required n e))
    ]

-- SetHeader on every branch: it accepts only a name and a value without line ends, appends
-- exactly one line and leaves the buffer large enough; it refuses by changing nothing, and only
-- for a line end or because the block would pass the 1 MiB limit.
pub set_header-SetsHeader :
    (r : Request) (key value : Bytes) → SetsHeader r key value (set_header r key value)
set_header-SetsHeader r key value = elim (Bool-cases (contains_crlf key)) [
  | inl p ↦ unfold set_header in rw p (refl, inl p)
  | inr p ↦ elim (Bool-cases (contains_crlf value)) [
    | inl q ↦ unfold set_header in rw (p, q) (refl, inr (inl q))
    | inr q ↦ clean-SetsHeader r key value p q
  ]
]
