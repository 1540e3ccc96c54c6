-- ===== src/Proxy/Connect/Target.antt =====
-- The address that buildTarget of proxy.go asks for.
use bursthttp.Base.{
  Bool-cases, length, length-append, Bytes, codes, All, ℕ, zero, suc, refl, sym, ap, inl, inr, [],
  append_assoc, append-nil, arith, ◌==◌, ◌/◌, ◌%◌, ◌<◌, ◌≡◌, ◌∙◌, ◌∷◌, ◌++◌,
}
use bursthttp.Writer.{digit}
use bursthttp.Writer.Length.{Digits, ten_to, digit_ok, All-append, decimal-append}
use bursthttp.Parser.ContentLength.Value.{decimal, IsDigit}
use bursthttp.Input.{done}
use bursthttp.Proxy.Connect.{port_digits, build_target}

Digits-zero : (tail : Bytes) → Digits 0 tail tail
Digits-zero tail = record {
  ds = [];
  splits = refl;
  digits = tt;
  value = refl;
  some_digit = λ p. absurd (omega (arith, p));
}

port_digits-Digits :
    (room n : ℕ) (tail : Bytes)
    → n < ten_to room
    → (out : Bytes) × (port_digits room n tail ≡ done out) × Digits n tail out
unfolding port_digits
port_digits-Digits zero zero tail h = (tail, refl, Digits-zero tail)
port_digits-Digits (suc room) zero tail h = (tail, refl, Digits-zero tail)
port_digits-Digits zero (suc n) tail h = absurd (omega (arith, h))
port_digits-Digits (suc room) (suc n) tail h =
    let last = digit (suc n % 10) in
    let (out, e, d) = port_digits-Digits room (suc n / 10) (last ∷ tail) (omega (arith, h)) in
    let (ok, is) = digit_ok (suc n % 10) (omega arith) in
    (
      out,
      e,
      record {
        ds = d.ds ++ last ∷ [];
        splits = d.splits ∙ sym (append_assoc d.ds (last ∷ []) tail);
        digits = All-append IsDigit d.ds (last ∷ []) d.digits (ok, tt);
        value = decimal-append d.ds (last ∷ []) 0 ∙ omega (arith, d.value, is);
        some_digit = λ p. omega (arith, length-append d.ds (last ∷ []));
      },
    )

-- The host, a colon, and digits that spell the port.
abbrev pub IsTarget : Bytes → ℕ → Bytes → Type 0
IsTarget host port target =
    (ds : Bytes) × (target ≡ host ++ b':' ∷ ds)
    × All IsDigit ds
    × (0 < length ds)
    × (decimal 0 ds ≡ port)

pub build_target-IsTarget :
    (host : Bytes) (port : ℕ)
    → port < ten_to 12
    → (target : Bytes) × (build_target host port ≡ done target) × IsTarget host port target
unfolding build_target
build_target-IsTarget host port h = elim (Bool-cases (port == 443)) [
  | inl t ↦ rw t (
    host ++ codes ":443",
    refl,
    (codes "443", refl, (refl, (refl, (refl, tt))), omega arith, ground (arith, t)),
  )
  | inr f ↦ elim (Bool-cases (port == 80)) [
    | inl t ↦
        rw (f, t)
          (
            host ++ codes ":80",
            refl,
            (codes "80", refl, (refl, (refl, tt)), omega arith, ground (arith, t)),
          )
    | inr g ↦ elim (Bool-cases (port == 0)) [
      | inl t ↦
          rw (f, g, t)
            (
              host ++ codes ":0",
              refl,
              (codes "0", refl, (refl, tt), omega arith, ground (arith, t)),
            )
      | inr k ↦
          let (out, e, d) = port_digits-Digits 12 port [] h in
          rw (f, g, k, e)
            (
              host ++ b':' ∷ out,
              refl,
              (
                d.ds,
                ap (λ o. host ++ b':' ∷ o) (d.splits ∙ append-nil d.ds),
                d.digits,
                d.some_digit (ground (arith, k)),
                d.value,
              ),
            )
    ]
  ]
]
