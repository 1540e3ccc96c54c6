-- ===== src/Base/Dict.antt =====
-- Go's maps with string keys, as association lists.
use mathlib.Core.Path.{◌≡◌, refl, sym, ◌∙◌, subst}
use mathlib.Core.Logic.{inl, inr, ◌≢◌}
use mathlib.Core.Bool.{true, false}
use mathlib.Core.Option.{Option, none, some}
use mathlib.Core.List.{List, [], ◌∷◌}
use bursthttp.Base.Tests.{if◌then◌else◌, Bool-cases}
use bursthttp.Base.Ascii.{Bytes, eq_bytes, eq_bytes_iff}

abbrev pub Dict {ℓ} : Type ℓ → Type ℓ
Dict V = List (Bytes × V)

eq_bytes_same : (k : Bytes) → eq_bytes k k ≡ true
eq_bytes_same k = (eq_bytes_iff k k).1 refl

eq_bytes_no : (k key : Bytes) → k ≢ key → eq_bytes k key ≡ false
eq_bytes_no k key h = elim (Bool-cases (eq_bytes k key)) [
  | inl t ↦ absurd (h ((eq_bytes_iff k key).0 t))
  | inr t ↦ t
]

module _ {ℓ} {V : Type ℓ} where
  -- `v, ok := m[key]`
  unfoldable pub get : Dict V → Bytes → Option V
  get [] key = none
  get ((k, v) ∷ m) key = if eq_bytes k key then some v else get m key

  -- `delete(m, key)`
  unfoldable pub delete : Dict V → Bytes → Dict V
  delete [] key = []
  delete ((k, v) ∷ m) key =
      let rest = delete m key in if eq_bytes k key then rest else (k, v) ∷ rest

  -- `m[key] = v`
  abbrev pub put : Dict V → Bytes → V → Dict V
  put m key v = (key, v) ∷ delete m key

  pub get-put : (m : Dict V) (key : Bytes) (v : V) → get (put m key v) key ≡ some v
  unfolding get
  get-put m key v = rw (eq_bytes_same key) refl

  pub get-delete : (m : Dict V) (key : Bytes) → get (delete m key) key ≡ none
  unfolding get delete
  get-delete [] key = refl
  get-delete ((k, v) ∷ m) key = elim (Bool-cases (eq_bytes k key)) [
    | inl t ↦ rw t (get-delete m key)
    | inr t ↦ rw (t, t) (get-delete m key)
  ]

  -- A property of every value.
  abbrev pub Every {κ} : (V → Type κ) → Dict V → Type κ
  Every P [] = Unit
  Every P ((k, v) ∷ m) = P v × Every P m

  pub delete-Every {κ} :
      (P : V → Type κ) (m : Dict V) (key : Bytes) → Every P m → Every P (delete m key)
  unfolding delete
  delete-Every P [] key h = tt
  delete-Every P ((k, v) ∷ m) key (h, hs) = elim (Bool-cases (eq_bytes k key)) [
    | inl t ↦ rw t (delete-Every P m key hs)
    | inr t ↦ rw t (h, delete-Every P m key hs)
  ]

  pub get_hit :
      (k : Bytes) (v : V) (m : Dict V) (key : Bytes)
      → eq_bytes k key ≡ true
      → get ((k, v) ∷ m) key ≡ some v
  unfolding get
  get_hit k v m key t = rw t refl

  pub get_miss :
      (k : Bytes) (v : V) (m : Dict V) (key : Bytes)
      → eq_bytes k key ≡ false
      → get ((k, v) ∷ m) key ≡ get m key
  unfolding get
  get_miss k v m key t = rw t refl

  pub get-Every {κ} :
      (P : V → Type κ) (m : Dict V) (key : Bytes) (v : V) → Every P m → get m key ≡ some v → P v
  unfolding get
  get-Every P [] key v h e = cc
  get-Every P ((k, w) ∷ m) key v (h, hs) e = elim (Bool-cases (eq_bytes k key)) [
    | inl t ↦ let same : w ≡ v = cc (get_hit k w m key t, e) in subst P same h
    | inr t ↦ get-Every P m key v hs (sym (get_miss k w m key t) ∙ e)
  ]

  -- The other keys keep what they had.
  pub get-delete_other :
      (m : Dict V) (key other : Bytes) → key ≢ other → get (delete m key) other ≡ get m other
  unfolding get delete
  get-delete_other [] key other h = refl
  get-delete_other ((k, v) ∷ m) key other h = elim (Bool-cases (eq_bytes k key)) [
    | inl t ↦
        rw (t, get-delete_other m key other h)
          (sym (
            get_miss k v m other
              (eq_bytes_no k other (λ e. h (sym ((eq_bytes_iff k key).0 t) ∙ e)))))
    | inr t ↦ rw (t, get-delete_other m key other h) refl
  ]

  pub get-put_other :
      (m : Dict V) (key other : Bytes) (v : V) → key ≢ other → get (put m key v) other ≡ get m other
  get-put_other m key other v h =
      get_miss key v (delete m key) other (eq_bytes_no key other h) ∙ get-delete_other m key other h
