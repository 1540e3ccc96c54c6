-- ===== src/Batch/Places.antt =====
-- The goroutines of a batch of batch.go, by the index of the entry that each carries out.
use bursthttp.Base.{
  get_elem?, All, ℕ, zero, suc, refl, ap, some, List, [], arith, ◌==◌, ◌+◌, ◌<◌, ◌≡◌, ◌∙◌, ◌≢◌, ◌∷◌,
  ◌++◌,
}
use mathlib.Core.Path.{subst}
use bursthttp.Scheduler.Answers.{count, one_if}
use bursthttp.Batch.{BatchEntry, spawn}

abbrev pub indexes : List (ℕ × BatchEntry) → List ℕ
indexes [] = []
indexes ((i, e) ∷ ps) = i ∷ indexes ps

indexes-append : (ps qs : List (ℕ × BatchEntry)) → indexes (ps ++ qs) ≡ indexes ps ++ indexes qs
indexes-append [] qs = refl
indexes-append ((i, e) ∷ ps) qs = ap (◌∷◌ i) (indexes-append ps qs)

pub one_if_self : (i : ℕ) → one_if (i == i) ≡ 1
one_if_self i = ground arith

one_if_other : (i j : ℕ) → i ≢ j → one_if (j == i) ≡ 0
one_if_other i j h = ground (arith, h)

spawn-before : (k i : ℕ) (es : List BatchEntry) → i < k → count i (indexes (spawn k es)) ≡ 0
unfolding spawn
spawn-before k i [] h = refl
spawn-before k i (e ∷ es) h =
    let z : one_if (k == i) ≡ 0 = ground (arith, h) in
    omega (arith, z, spawn-before (suc k) i es (omega (arith, h)))

pub spawn-once :
    (k i : ℕ) (e : BatchEntry) (es : List BatchEntry)
    → get_elem? es i ≡ some e
    → count (k + i) (indexes (spawn k es)) ≡ 1
unfolding spawn
spawn-once k i e [] h = cc
spawn-once k zero e (x ∷ es) h =
    let z : one_if (k == k + 0) ≡ 1 = ground arith in
    omega (arith, z, spawn-before (suc k) (k + 0) es (omega arith))
spawn-once k (suc i) e (x ∷ es) h =
    let z : one_if (k == k + suc i) ≡ 0 = ground arith in
    let same : suc k + i ≡ k + suc i = omega arith in
    let c : count (k + suc i) (indexes (spawn (suc k) es)) ≡ 1 =
      subst (λ m. count m (indexes (spawn (suc k) es)) ≡ 1) same (spawn-once (suc k) i e es h) in
    omega (arith, z, c)

-- Entries that stand at their index.
abbrev pub Placed : List BatchEntry → List (ℕ × BatchEntry) → Type 0
Placed es ps = All (λ (i, e). get_elem? es i ≡ some e) ps

pub spawn-Placed :
    (k : ℕ) (es all : List BatchEntry)
    → ((i : ℕ) → get_elem? all (k + i) ≡ get_elem? es i)
    → Placed all (spawn k es)
unfolding spawn
spawn-Placed k [] all f = tt
spawn-Placed k (e ∷ es) all f = (
  ap (get_elem? all) (omega arith) ∙ f 0,
  spawn-Placed (suc k) es all (λ i. ap (get_elem? all) (omega arith) ∙ f (suc i)),
)

pub Placed-split :
    (es : List BatchEntry) (before after : List (ℕ × BatchEntry)) (i : ℕ) (e : BatchEntry)
    → Placed es (before ++ (i, e) ∷ after)
    → (get_elem? es i ≡ some e) × Placed es (before ++ after)
Placed-split es [] after i e (h, hs) = (h, hs)
Placed-split es ((j, d) ∷ before) after i e (h, hs) =
    let (p, q) = Placed-split es before after i e hs in (p, (h, q))

pub count-split :
    (k i : ℕ) (e : BatchEntry) (before after : List (ℕ × BatchEntry))
    → count k (indexes (before ++ (i, e) ∷ after))
      ≡ one_if (i == k) + count k (indexes (before ++ after))
count-split k i e [] after = refl
count-split k i e ((j, d) ∷ before) after = omega (arith, count-split k i e before after)
