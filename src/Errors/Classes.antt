-- ===== src/Errors/Classes.antt =====
-- What the tests of errors.go decide, said of the outermost type and the innermost error.
use bursthttp.Base.{
  Bool-cases, refl, inl, inr, Bool, true, Option, none, some, arith, ◌≡◌, ◌↔◌, ◌⊎◌,
}
use bursthttp.Errors.{
  Sentinel, ErrorType, Error, sentinel, detailed, root, detailed_type, tests_type, is_connect_class,
  wraps_connect_class, is_network_or_timeout, is_retryable,
}

abbrev pub IsConnectRoot : Error → Type 0
IsConnectRoot e = (s : Sentinel) × (e ≡ sentinel s) × (is_connect_class s ≡ true)

abbrev pub IsNetworkOutside : Error → Type 0
IsNetworkOutside e = (t : ErrorType) × (detailed_type e ≡ some t) × (is_network_or_timeout t ≡ true)

wraps_connect_class-root : (e : Error) → wraps_connect_class e ≡ true → IsConnectRoot (root e)
unfolding wraps_connect_class root
wraps_connect_class-root (sentinel s) h = (s, refl, h)
wraps_connect_class-root (detailed t m e) h = wraps_connect_class-root e h
wraps_connect_class-root _ h = cc

root-wraps_connect_class : (e : Error) → IsConnectRoot (root e) → wraps_connect_class e ≡ true
unfolding wraps_connect_class root
root-wraps_connect_class (sentinel s) (s', p, h) = ground arith
root-wraps_connect_class (detailed t m e) h = root-wraps_connect_class e h
root-wraps_connect_class _ (s, p, h) = cc

tests_type_iff :
    (test : ErrorType → Bool) (o : Option ErrorType)
    → (tests_type test o ≡ true) ↔ ((t : ErrorType) × (o ≡ some t) × (test t ≡ true))
tests_type_iff test none = (λ h. cc, λ h. absurd (none_ne h.0 h.1))
  where
    none_ne : (t : ErrorType) → ◌≡◌ {A = Option ErrorType} none (some t) → ⊥
    none_ne t e = cc
tests_type_iff test (some t) = (λ h. (t, refl, h), λ h. ground arith)

-- An error is retryable exactly when its innermost error is one of the five connection
-- sentinels, or its outermost wrapper has type network or timeout.
pub is_retryable_iff :
    (e : Error) → (is_retryable (some e) ≡ true) ↔ (IsConnectRoot (root e) ⊎ IsNetworkOutside e)
unfolding is_retryable
is_retryable_iff e = elim (Bool-cases (wraps_connect_class e)) [
  | inl w ↦ rw w (λ _. inl (wraps_connect_class-root e w), λ _. refl)
  | inr w ↦ rw w (
    λ h. inr ((tests_type_iff is_network_or_timeout (detailed_type e)).0 h),
    λ h. elim h [
      | inl r ↦ cc (w, root-wraps_connect_class e r)
      | inr t ↦ (tests_type_iff is_network_or_timeout (detailed_type e)).1 t
    ],
  )
]
