-- ===== src/Writer/Length.antt =====
-- The numbers that `writeInt` writes, read back.
use bursthttp.Base.{
  ltb, Bool-cases, length, length-append, Bytes, codes, All, ℕ, zero, suc, refl, sym, ap, inl, inr,
  true, [], append_assoc, append-nil, arith, pos, to_int, ◌+◌, ◌-◌, ◌*◌, ◌/◌, ◌%◌, ◌^◌, ◌<◌, ◌≡◌,
  ◌∙◌, ◌∷◌, ◌++◌,
}
use bursthttp.Parser.Fields.{Spells}
use bursthttp.Parser.ContentLength.{content_length_name, parse_content_length}
use bursthttp.Parser.ContentLength.Value.{decimal, IsDigit, parse_content_length_field}
use bursthttp.Writer.{digit, digits_onto, int_bytes}
use bursthttp.Writer.Exact.{length_bytes}

abbrev pub ten_to : ℕ → ℕ
ten_to zero = 1
ten_to (suc k) = 10 * ten_to k

pub decimal-append : (ds es : Bytes) (n : ℕ) → decimal n (ds ++ es) ≡ decimal (decimal n ds) es
decimal-append [] es n = refl
decimal-append (d ∷ ds) es n = decimal-append ds es (n * 10 + (d - b'0'))

pub All-append : (P : ℕ → Type 0) (ds es : Bytes) → All P ds → All P es → All P (ds ++ es)
All-append P [] es h k = k
All-append P (d ∷ ds) es (h, hs) k = (h, All-append P ds es hs k)

-- Digits of a number, in front of what is there already.
pub record Digits (n : ℕ) (tmp out : Bytes) : Type 0 where
  pub ds : Bytes
  pub splits : out ≡ ds ++ tmp
  pub digits : All IsDigit ds
  pub value : decimal 0 ds ≡ n
  pub some_digit : 0 < n → 0 < length ds

pub digit_ok : (k : ℕ) → k < 10 → (IsDigit (digit k)) × (digit k - b'0' ≡ k)
digit_ok k h = ground arith

digits_onto-Digits :
    (fuel n : ℕ) (tmp : Bytes) → n < ten_to fuel → Digits n tmp (digits_onto fuel n tmp)
unfolding digits_onto
digits_onto-Digits zero n tmp h = record {
  ds = [];
  splits = refl;
  digits = tt;
  value = omega (arith, h);
  some_digit = λ p. omega (arith, h);
}
digits_onto-Digits (suc fuel) n tmp h = elim (Bool-cases (ltb 0 n)) [
  | inr z ↦
      rw (z, digits_onto)
        (record {
          ds = [];
          splits = refl;
          digits = tt;
          value = ground (arith, z);
          some_digit = λ p. ground (arith, z);
        })
  | inl z ↦
      let last = digit (n % 10) in
      let d = digits_onto-Digits fuel (n / 10) (last ∷ tmp) (omega (arith, h)) in
      let (ok, is) = digit_ok (n % 10) (omega arith) in
      rw (z, digits_onto)
        (record {
          ds = d.ds ++ last ∷ [];
          splits = d.splits ∙ sym (append_assoc d.ds (last ∷ []) tmp);
          digits = All-append IsDigit d.ds (last ∷ []) d.digits (ok, tt);
          value = decimal-append d.ds (last ∷ []) 0 ∙ omega (arith, d.value, is);
          some_digit = λ p. omega (arith, length-append d.ds (last ∷ []));
        })
]

-- The bytes of a number are digits that spell it.
record Spelled (n : ℕ) (out : Bytes) : Type 0 where
  d : ℕ
  ds : Bytes
  splits : out ≡ d ∷ ds
  digits : All IsDigit (d ∷ ds)
  value : decimal 0 (d ∷ ds) ≡ n

Digits-Spelled : (n : ℕ) (out : Bytes) → 0 < n → Digits n [] out → Spelled n out
Digits-Spelled n out p k = go k.ds k.splits k.digits k.value (k.some_digit p)
  where
    go :
        (ds : Bytes)
        → out ≡ ds ++ []
        → All IsDigit ds
        → decimal 0 ds ≡ n
        → 0 < length ds
        → Spelled n out
    go [] s g v l = absurd (omega (arith, l))
    go (d ∷ ds) s g v l = record {
      d = d;
      ds = ds;
      splits = s ∙ append-nil (d ∷ ds);
      digits = g;
      value = v;
    }

one : (n : ℕ) → n < 10 → Spelled n (digit n ∷ [])
one n h =
    let (a, va) = digit_ok n h in
    record { d = digit n; ds = []; splits = refl; digits = (a, tt); value = omega (arith, va) }

two : (n : ℕ) → n < 100 → Spelled n (digit (n / 10) ∷ digit (n % 10) ∷ [])
two n h =
    let (a, va) = digit_ok (n / 10) (omega arith) in
    let (b, vb) = digit_ok (n % 10) (omega arith) in
    record {
      d = digit (n / 10);
      ds = digit (n % 10) ∷ [];
      splits = refl;
      digits = (a, (b, tt));
      value = omega (arith, va, vb);
    }

three :
    (n : ℕ) → n < 1000 → Spelled n (digit (n / 100) ∷ digit ((n / 10) % 10) ∷ digit (n % 10) ∷ [])
three n h =
    let (a, va) = digit_ok (n / 100) (omega arith) in
    let (b, vb) = digit_ok ((n / 10) % 10) (omega arith) in
    let (c, vc) = digit_ok (n % 10) (omega arith) in
    record {
      d = digit (n / 100);
      ds = digit ((n / 10) % 10) ∷ digit (n % 10) ∷ [];
      splits = refl;
      digits = (a, (b, (c, tt)));
      value = omega (arith, va, vb, vc);
    }

four :
    (n : ℕ)
    → n < 10000
    → Spelled n
        (digit (n / 1000) ∷ digit ((n / 100) % 10) ∷ digit ((n / 10) % 10) ∷ digit (n % 10) ∷ [])
four n h =
    let (a, va) = digit_ok (n / 1000) (omega arith) in
    let (b, vb) = digit_ok ((n / 100) % 10) (omega arith) in
    let (c, vc) = digit_ok ((n / 10) % 10) (omega arith) in
    let (e, ve) = digit_ok (n % 10) (omega arith) in
    record {
      d = digit (n / 1000);
      ds = digit ((n / 100) % 10) ∷ digit ((n / 10) % 10) ∷ digit (n % 10) ∷ [];
      splits = refl;
      digits = (a, (b, (c, (e, tt))));
      value = omega (arith, va, vb, vc, ve);
    }

zero_digit : (n : ℕ) → n ≡ 0 → Spelled n (b'0' ∷ [])
zero_digit n h = record {
  d = b'0';
  ds = [];
  splits = refl;
  digits = (refl, tt);
  value = omega (arith, h);
}

int_bytes-Spelled : (n : ℕ) → n < ten_to 20 → Spelled n (int_bytes n)
unfolding int_bytes
int_bytes-Spelled n h = ground (
  arith,
  zero_digit n,
  one n,
  two n,
  three n,
  four n,
  (λ (p : 0 < n). Digits-Spelled n (digits_onto 20 n []) p (digits_onto-Digits 20 n [] h)),
)

content_length-Spells : Spells content_length_name (codes "Content-Length:")
content_length-Spells = ground arith

-- The Content-Length line and the blank line as the writers write them, for any number below 2 ^
-- 63, are read back by parseContentLength as that number, which is not negative as an int.
pub parse_content_length-length_bytes :
    (n : ℕ) → n < 2 ^ 63 → (parse_content_length (length_bytes n) ≡ (n, true)) × (to_int n ≡ pos n)
parse_content_length-length_bytes n h =
    let s = int_bytes-Spelled n (omega (arith, h)) in
    let small : n % 2 ^ 64 ≡ n = omega (arith, h) in
    let field =
      parse_content_length_field [] (codes "Content-Length:") (b' ' ∷ []) s.d s.ds (codes "\n\r\n")
        tt content_length-Spells (refl, tt) s.digits in
    (
      ap (λ t. parse_content_length (codes "Content-Length: " ++ (t ++ codes "\r\n\r\n"))) s.splits
          ∙ field
          ∙ ap (λ t. (t % 2 ^ 64, true)) s.value
          ∙ ap (λ t. (t, true)) small,
      ground (arith, h),
    )
