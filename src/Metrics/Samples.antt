-- ===== src/Metrics/Samples.antt =====
-- The order of the samples that `Snapshot` of metrics.go picks from.
use bursthttp.Base.{
  leb, Bool-cases, length, get_elem?, get_or, All, ℕ, zero, suc, refl, ap, inl, inr, List, [],
  arith, ◌≤◌, ◌<◌, ◌≡◌, ◌∙◌, ◌∷◌,
}
use bursthttp.Input.{done}
use bursthttp.Metrics.{insert_sample, in_range, sort_samples}

abbrev pub IsSorted : List ℕ → Type 0
IsSorted [] = Unit
IsSorted (x ∷ xs) = All (λ y. x ≤ y) xs × IsSorted xs

All-insert : (P : ℕ → Type 0) (a : ℕ) (xs : List ℕ) → P a → All P xs → All P (insert_sample a xs)
All-insert P a [] p h = (p, tt)
All-insert P a (x ∷ xs) p (h, hs) = elim (Bool-cases (leb a x)) [
  | inl t ↦ rw t (p, (h, hs))
  | inr f ↦ rw f (h, All-insert P a xs p hs)
]

All-insert_back :
    (P : ℕ → Type 0) (a : ℕ) (xs : List ℕ) → All P (insert_sample a xs) → P a × All P xs
All-insert_back P a [] (p, h) = (p, tt)
All-insert_back P a (x ∷ xs) h = elim (Bool-cases (leb a x)) [
  | inl t ↦ rw t at h
  | inr f ↦ let (p, q) = (rw f at h) in let (r, s) = All-insert_back P a xs q in (r, (p, s))
]

pub All-sort_back : (P : ℕ → Type 0) (xs : List ℕ) → All P (sort_samples xs) → All P xs
unfolding sort_samples
All-sort_back P [] h = tt
All-sort_back P (x ∷ xs) h =
    let (p, q) = All-insert_back P x (sort_samples xs) h in (p, All-sort_back P xs q)

length-insert : (a : ℕ) (xs : List ℕ) → length (insert_sample a xs) ≡ suc (length xs)
length-insert a [] = refl
length-insert a (x ∷ xs) = elim (Bool-cases (leb a x)) [
  | inl t ↦ rw t refl
  | inr f ↦ rw f (ap suc (length-insert a xs))
]

pub length-sort : (xs : List ℕ) → length (sort_samples xs) ≡ length xs
unfolding sort_samples
length-sort [] = refl
length-sort (x ∷ xs) = length-insert x (sort_samples xs) ∙ ap suc (length-sort xs)

All-below : (a x : ℕ) (xs : List ℕ) → a ≤ x → All (λ y. x ≤ y) xs → All (λ y. a ≤ y) xs
All-below a x [] l h = tt
All-below a x (y ∷ ys) l (h, hs) = (omega (arith, l, h), All-below a x ys l hs)

insert-IsSorted : (a : ℕ) (xs : List ℕ) → IsSorted xs → IsSorted (insert_sample a xs)
insert-IsSorted a [] s = (tt, tt)
insert-IsSorted a (x ∷ xs) (h, s) = elim (Bool-cases (leb a x)) [
  | inl t ↦ let l : a ≤ x = ground (arith, t) in rw t ((l, All-below a x xs l h), (h, s))
  | inr f ↦
      let l : x ≤ a = ground (arith, f) in
      rw f (All-insert (λ y. x ≤ y) a xs l h, insert-IsSorted a xs s)
]

pub sort-IsSorted : (xs : List ℕ) → IsSorted (sort_samples xs)
unfolding sort_samples
sort-IsSorted [] = tt
sort-IsSorted (x ∷ xs) = insert-IsSorted x (sort_samples xs) (sort-IsSorted xs)

pub in_range-get :
    (xs : List ℕ) (i : ℕ) → i < length xs → in_range (get_elem? xs i) ≡ done (get_or xs i 0)
in_range-get [] i h = absurd (omega (arith, h))
in_range-get (x ∷ xs) zero h = refl
in_range-get (x ∷ xs) (suc i) h = in_range-get xs i (omega (arith, h))

All-get : (P : ℕ → Type 0) (xs : List ℕ) (i : ℕ) → i < length xs → All P xs → P (get_or xs i 0)
All-get P [] i l h = absurd (omega (arith, l))
All-get P (x ∷ xs) zero l (h, hs) = h
All-get P (x ∷ xs) (suc i) l (h, hs) = All-get P xs i (omega (arith, l)) hs

pub IsSorted-get :
    (xs : List ℕ) (i j : ℕ) → IsSorted xs → i ≤ j → j < length xs → get_or xs i 0 ≤ get_or xs j 0
IsSorted-get [] i j s l h = absurd (omega (arith, h))
IsSorted-get (x ∷ xs) zero zero s l h = omega arith
IsSorted-get (x ∷ xs) zero (suc j) (s, t) l h = All-get (λ y. x ≤ y) xs j (omega (arith, h)) s
IsSorted-get (x ∷ xs) (suc i) zero s l h = absurd (omega (arith, l))
IsSorted-get (x ∷ xs) (suc i) (suc j) (s, t) l h =
    IsSorted-get xs i j t (omega (arith, l)) (omega (arith, h))

pub All-of_get :
    (P : ℕ → Type 0) (xs : List ℕ) → ((i : ℕ) → i < length xs → P (get_or xs i 0)) → All P xs
All-of_get P [] f = tt
All-of_get P (x ∷ xs) f = (f 0 (omega arith), All-of_get P xs (λ i h. f (suc i) (omega (arith, h))))
