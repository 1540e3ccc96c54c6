-- ===== src/Response/Buffer.antt =====
-- The growth of a body buffer: `ensureBufferSize` of response.go.
use bursthttp.Base.{
  ltb, Bool-cases, Option-cases, length, replicate, length-replicate, Bytes, ℕ, refl, inl, inr,
  Option, none, some, arith, ℤ, pos, negsuc, ltb_ℤ, to_int, pos_part, if◌then◌else◌, ◌+◌, ◌-◌, ◌*◌,
  ◌%◌, ◌^◌, ◌≤◌, ◌<◌, ◌≡◌, ◌⊎◌, ◌&&◌,
}
use native.Mathlib.Decide.{dec_le}
use bursthttp.Response.{
  has_room, refused, overflows, Response, round_up, grown, new_size, ensure_buffer_size, Growth,
}

pub round_up_bounds : (n k : ℕ) → 0 < k → (n ≤ round_up n k) × (round_up n k < n + k)
unfolding round_up
round_up_bounds n k h = grind arith

-- Below this size the rounding cannot wrap, whatever the buffer.
abbrev pub safe_size : ℕ
safe_size = 2 ^ 62 - 2 ^ 16

-- What growth gives: room for what is required, or a negative number for a size that is not safe.
abbrev pub Grown : ℕ → ℤ → Type 0
Grown required (pos n) = required ≤ n
Grown required (negsuc m) = safe_size < required

to_int-Grown :
    (required n : ℕ)
    → required ≤ n
    → n < 2 ^ 63 + 2 ^ 16
    → (2 ^ 63 ≤ n → safe_size < required)
    → Grown required (to_int (n % 2 ^ 64))
to_int-Grown required n a b c = ground arith

-- The size before the rounding.
start_size_bounds :
    (len required : ℕ)
    → len < required
    → required < 2 ^ 63
    → let doubled = to_int (len * 2 % 2 ^ 64) in
      let n = if ltb_ℤ doubled (pos required) then required else pos_part doubled in
      (required ≤ n) × (n < 2 ^ 63) × (required ≤ safe_size → n ≤ 2 ^ 63 - 2 ^ 17)
start_size_bounds len required h l = ground arith

round-Grown :
    (required n k : ℕ)
    → 0 < k
    → k ≤ 2 ^ 16
    → required ≤ n
    → n < 2 ^ 63
    → (required ≤ safe_size → n ≤ 2 ^ 63 - 2 ^ 17)
    → Grown required (to_int (round_up n k % 2 ^ 64))
round-Grown required n k p q a b c =
    let (low, high) = round_up_bounds n k p in
    to_int-Grown required (round_up n k) (omega (arith, low, a)) (omega (arith, high, b, q)) (λ big.
      elim (dec_le required safe_size) [
        | yes small ↦ absurd (omega (arith, high, q, c small, big))
        | no large ↦ omega (arith, large)
      ])

grown-Grown :
    (len required : ℕ) → len < required → required < 2 ^ 63 → Grown required (grown len required)
unfolding grown
grown-Grown len required h l =
    let (a, b, c) = start_size_bounds len required h l in
    let doubled = to_int (len * 2 % 2 ^ 64) in
    let n = if ltb_ℤ doubled (pos required) then required else pos_part doubled in
    elim (Bool-cases (ltb n (1024 * 1024))) [
      | inl t ↦ rw t (round-Grown required n 4096 (omega arith) (omega arith) a b c)
      | inr f ↦ rw f (round-Grown required n 65536 (omega arith) (omega arith) a b c)
    ]

-- What a successful growth gives.
pub record Fits (max_size required n : ℕ) : Type 0 where
  pub enough : required ≤ n
  pub limited : 0 < max_size → n ≤ max_size

-- `Ensured max required answer`: the new buffer or the limit is what refuses it, or the size is
-- not safe.
abbrev pub Ensured : ℕ → ℕ → Option ℤ → Type 0
Ensured max_size required none = (0 < max_size) × (max_size < required)
Ensured max_size required (some (pos n)) = Fits max_size required n
Ensured max_size required (some (negsuc m)) = safe_size < required

limit-Ensured :
    (max_size required : ℕ) (n : ℤ)
    → (0 < max_size → required ≤ max_size)
    → Grown required n
    → Ensured max_size required (
        if ltb 0 max_size && ltb_ℤ (pos max_size) n
        then (if ltb max_size required then none else some (pos max_size))
        else some n)
limit-Ensured max_size required (pos n) h g = ground arith
limit-Ensured max_size required (negsuc m) h g = ground arith

pub new_size-Ensured :
    (len max_size required : ℕ)
    → len < required
    → required < 2 ^ 63
    → Ensured max_size required (new_size len max_size required)
unfolding new_size
new_size-Ensured len max_size required h l =
    elim (Bool-cases (ltb 0 max_size && ltb max_size required)) [
      | inl t ↦ rw t (ground (arith, t))
      | inr f ↦ rw f (
          limit-Ensured max_size required (grown len required) (ground (arith, f))
            (grown-Grown len required h l))
    ]

-- The outcome of `ensureBufferSize`. A refusal changes nothing and is due to the limit, and so does a
-- panic, which is due to a size that is not safe. Otherwise the buffer holds what is required, has
-- not shrunk, and a new one is within the limit.
abbrev pub EnsuresBuffer : Response → ℕ → Response × Growth → Type 0
EnsuresBuffer r required (r', has_room) =
    (required ≤ length r'.body_buf)
    × (length r.body_buf ≤ length r'.body_buf)
    × ((r' ≡ r)
        ⊎ ((length r.body_buf < required) × (0 < r.max_size → length r'.body_buf ≤ r.max_size)))
EnsuresBuffer r required (r', refused) =
    (r' ≡ r) × (length r.body_buf < required) × (0 < r.max_size) × (r.max_size < required)
EnsuresBuffer r required (r', overflows) =
    (r' ≡ r) × (length r.body_buf < required) × (safe_size < required)

grow-EnsuresBuffer :
    (r : Response) (required : ℕ) (o : Option ℤ)
    → length r.body_buf < required
    → Ensured r.max_size required o
    → new_size (length r.body_buf) r.max_size required ≡ o
    → EnsuresBuffer r required (ensure_buffer_size r (pos required))
unfolding ensure_buffer_size
grow-EnsuresBuffer r required none h (p, q) e = ground arith
grow-EnsuresBuffer r required (some (pos n)) h f e =
    ground (arith, f.enough, f.limited, length-replicate {A = ℕ} n 0)
grow-EnsuresBuffer r required (some (negsuc m)) h f e = ground arith

-- ensureBufferSize on every branch, for a required size that is an int and not negative: a
-- refusal changes nothing and is due to the limit; a panic, of make on a size that wrapped,
-- changes nothing and needs a required size above 2 ^ 62 - 2 ^ 16; otherwise the buffer holds
-- what is required, has not shrunk, and a new buffer is within the limit.
pub ensure_buffer_size-EnsuresBuffer :
    (r : Response) (required : ℕ)
    → required < 2 ^ 63
    → EnsuresBuffer r required (ensure_buffer_size r (pos required))
ensure_buffer_size-EnsuresBuffer r required l = elim (dec_le required (length r.body_buf)) [
  | yes h ↦ unfold ensure_buffer_size in ground arith
  | no h ↦
      let lt : length r.body_buf < required = omega arith in
      grow-EnsuresBuffer r required _ lt
        (new_size-Ensured (length r.body_buf) r.max_size required lt l) refl
]

-- A growth within the limit to a safe size succeeds, into a buffer of zeros.
pub ensure_buffer_size_grows :
    (r : Response) (required : ℕ)
    → length r.body_buf < required
    → required ≤ safe_size
    → (0 < r.max_size → required ≤ r.max_size)
    → (n : ℕ) × (required ≤ n)
      × (ensure_buffer_size r (pos required) ≡ (record r { body_buf = replicate n 0 }, has_room))
unfolding ensure_buffer_size
ensure_buffer_size_grows r required h safe within =
    let known = new_size-Ensured (length r.body_buf) r.max_size required h (omega (arith, safe)) in
    elim (Option-cases (new_size (length r.body_buf) r.max_size required)) [
      | inl e ↦ let (limited, over) = rw e at known in absurd (omega (arith, within limited))
      | inr (pos n, e) ↦ let f = rw e at known in (n, f.enough, ground (arith, e))
      | inr (negsuc m, e) ↦ let f = rw e at known in absurd (omega (arith, f, safe))
    ]

-- Within the limit and for a safe size the answer is true, and the buffer holds what is required.
pub ensure_buffer_size_fits :
    (r : Response) (required : ℕ)
    → required ≤ safe_size
    → (0 < r.max_size → required ≤ r.max_size)
    → (buf : Bytes) × (ensure_buffer_size r (pos required)
        ≡ (record r { body_buf = buf }, has_room))
      × (required ≤ length buf)
ensure_buffer_size_fits r required safe within = elim (dec_le required (length r.body_buf)) [
  | yes h ↦ (r.body_buf, unfold ensure_buffer_size in ground arith, h)
  | no h ↦
      let (n, enough, e) = ensure_buffer_size_grows r required (omega arith) safe within in
      (replicate n 0, e, omega (arith, length-replicate {A = ℕ} n 0))
]
