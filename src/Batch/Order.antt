-- ===== src/Batch/Order.antt =====
-- The results of a batch of batch.go, whatever order its goroutines end in.
use bursthttp.Base.{
  Bool-cases, length, get_elem?, length-set, get_elem?-set_self, get_elem?-set_ne, replicate,
  length-replicate, ℕ, zero, suc, refl, sym, ap, inl, inr, Bool, true, false, Option, none, some,
  List, [], arith, ◌==◌, if◌then◌else◌, ◌+◌, ◌<◌, ◌≡◌, ◌∙◌, ◌≢◌, ◌⊎◌, ◌∷◌, ◌++◌,
}
use mathlib.Core.Path.{subst}
use bursthttp.Scheduler.Answers.{count, count-append, one_if}
use bursthttp.Batch.{BatchEntry, BatchResult, BatchRun, spawn, start_batch, finish_entry, Batches}
use bursthttp.Batch.Places.{
  indexes, one_if_self, spawn-once, Placed, spawn-Placed, Placed-split, count-split,
}

module _ {ℓ} {A : Type ℓ} (give : ℕ → BatchEntry → A) where
  abbrev pub result_of : ℕ → BatchEntry → Option (BatchResult A)
  result_of i e = some (record { index = i; given = give i e })

  -- The results of the entries, in their order.
  abbrev pub in_order : ℕ → List BatchEntry → List (Option (BatchResult A))
  in_order k [] = []
  in_order k (e ∷ es) = result_of k e ∷ in_order (suc k) es

  -- An entry runs and has nothing yet, or has ended with its result and its release.
  abbrev Waits : ℕ → BatchRun A → Type ℓ
  Waits i s =
      (count i (indexes s.running) ≡ 1)
      × (get_elem? s.results i ≡ some none)
      × (count i s.released ≡ 0)

  abbrev Ended : ℕ → BatchEntry → BatchRun A → Type ℓ
  Ended i e s =
      (count i (indexes s.running) ≡ 0)
      × (get_elem? s.results i ≡ some (result_of i e))
      × (count i s.released ≡ one_if e.owned)

  record Fair (es : List BatchEntry) (s : BatchRun A) : Type ℓ where
    placed : Placed es s.running
    size : length s.results ≡ length es
    slots : (i : ℕ) (e : BatchEntry) → get_elem? es i ≡ some e → Waits i s ⊎ Ended i e s

  get-replicate :
      (n i : ℕ) (b : Option (BatchResult A)) → i < n → get_elem? (replicate n b) i ≡ some b
  get-replicate zero i b h = absurd (omega (arith, h))
  get-replicate (suc n) zero b h = refl
  get-replicate (suc n) (suc i) b h = get-replicate n i b (omega (arith, h))

  get-below : {B : Type 0} (xs : List B) (i : ℕ) (b : B) → get_elem? xs i ≡ some b → i < length xs
  get-below [] i b h = cc
  get-below (x ∷ xs) zero b h = omega arith
  get-below (x ∷ xs) (suc i) b h = omega (arith, get-below xs i b h)

  start-Fair : (es : List BatchEntry) → Fair es (start_batch es)
  unfolding start_batch
  start-Fair es = record {
    placed = spawn-Placed 0 es es (λ i. ap (get_elem? es) (omega arith));
    size = length-replicate (length es) none;
    slots = λ i e h.
        let c : count i (indexes (spawn 0 es)) ≡ 1 =
          subst (λ m. count m (indexes (spawn 0 es)) ≡ 1) (omega arith) (spawn-once 0 i e es h) in
        inl (c, get-replicate (length es) i none (get-below es i e h), refl);
  }

  released-count :
      (k i : ℕ) (own : Bool) (rs : List ℕ)
      → count k (if own then rs ++ i ∷ [] else rs) ≡ count k rs + (if i == k then one_if own else 0)
  released-count k i true rs = ground (arith, count-append k rs (i ∷ []))
  released-count k i false rs = ground arith

  Waits-Ended :
      (es : List BatchEntry) (s : BatchRun A) (before after : List (ℕ × BatchEntry)) (i : ℕ)
      (e : BatchEntry)
      → count i (indexes s.running) ≡ 1 + count i (indexes (before ++ after))
      → i < length s.results
      → Waits i s ⊎ Ended i e s
      → Ended i e (finish_entry give i e (before ++ after) s)
  unfolding finish_entry
  Waits-Ended es s before after i e c l (inr (z, g, r)) = absurd (omega (arith, c, z))
  Waits-Ended es s before after i e c l (inl (z, g, r)) = (
    omega (arith, c, z),
    get_elem?-set_self s.results i (result_of i e) l,
    released-count i i e.owned s.released ∙ ground (arith, r),
  )

  kept-Slot :
      (s : BatchRun A) (others : List (ℕ × BatchEntry)) (i j : ℕ) (e d : BatchEntry)
      → i ≢ j
      → count j (indexes s.running) ≡ one_if (i == j) + count j (indexes others)
      → Waits j s ⊎ Ended j d s
      → Waits j (finish_entry give i e others s) ⊎ Ended j d (finish_entry give i e others s)
  unfolding finish_entry
  kept-Slot s others i j e d ne c w =
      let z : one_if (i == j) ≡ 0 = ground (arith, ne) in
      let same : count j (indexes others) ≡ count j (indexes s.running) = omega (arith, c, z) in
      let at = get_elem?-set_ne s.results (result_of i e) ne in
      let rel : count j (if e.owned then s.released ++ i ∷ [] else s.released)
          ≡ count j s.released =
        released-count j i e.owned s.released ∙ ground (arith, ne) in
      elim w [
        | inl (a, b, c) ↦ inl (same ∙ a, at ∙ b, rel ∙ c)
        | inr (a, b, c) ↦ inr (same ∙ a, at ∙ b, rel ∙ c)
      ]

  some-same : {B : Type 0} (o : Option B) (x y : B) → o ≡ some x → o ≡ some y → x ≡ y
  some-same o x y p q = cc

  slot-ends :
      (es : List BatchEntry) (s : BatchRun A) (before after : List (ℕ × BatchEntry)) (i j : ℕ)
      (e d : BatchEntry)
      → s.running ≡ before ++ (i, e) ∷ after
      → Fair es s
      → get_elem? es i ≡ some e
      → get_elem? es j ≡ some d
      → Waits j (finish_entry give i e (before ++ after) s)
        ⊎ Ended j d (finish_entry give i e (before ++ after) s)
  slot-ends es s before after i j e d r f at h =
      let c = ap (λ ps. count j (indexes ps)) r ∙ count-split j i e before after in
      elim (Bool-cases (i == j)) [
        | inl t ↦
            let eq : i ≡ j = ground (arith, t) in
            let same : e ≡ d = some-same (get_elem? es j) e d (ap (get_elem? es) (sym eq) ∙ at) h in
            let here : count i (indexes s.running) ≡ 1 + count i (indexes (before ++ after)) =
              ap (λ ps. count i (indexes ps)) r
              ∙ count-split i i e before after
              ∙ ap (λ n. n + count i (indexes (before ++ after))) (one_if_self i) in
            let l : i < length s.results = omega (arith, f.size, get-below es i e at) in
            inr (
              subst (λ k. Ended k d (finish_entry give i e (before ++ after) s)) eq
                (subst (λ x. Ended i x (finish_entry give i e (before ++ after) s)) same
                  (Waits-Ended es s before after i e here l (f.slots i e at))))
        | inr t ↦
            let ne : i ≢ j = ground (arith, t) in
            kept-Slot s (before ++ after) i j e d ne c (f.slots j d h)
      ]

  ends-Fair :
      (es : List BatchEntry) (s : BatchRun A) (before after : List (ℕ × BatchEntry)) (i : ℕ)
      (e : BatchEntry)
      → s.running ≡ before ++ (i, e) ∷ after
      → Fair es s
      → Fair es (finish_entry give i e (before ++ after) s)
  unfolding finish_entry
  ends-Fair es s before after i e r f =
      let (at, rest) = Placed-split es before after i e (subst (Placed es) r f.placed) in
      record {
        placed = rest;
        size = length-set s.results i (result_of i e) ∙ f.size;
        slots = λ j d h. slot-ends es s before after i j e d r f at h;
      }

  Batches-Fair : (es : List BatchEntry) (s : BatchRun A) → Batches give es s → Fair es s
  Batches-Fair es _ Batches.begins = start-Fair es
  Batches-Fair es _ (Batches.ends {s = s} before after i e b r) =
      ends-Fair es s before after i e r (Batches-Fair es s b)

  all-in_order :
      (k : ℕ) (es : List BatchEntry) (xs : List (Option (BatchResult A)))
      → length xs ≡ length es
      → ((i : ℕ) (e : BatchEntry)
          → get_elem? es i ≡ some e
          → get_elem? xs i ≡ some (result_of (k + i) e))
      → xs ≡ in_order k es
  all-in_order k [] [] l f = refl
  all-in_order k [] (x ∷ xs) l f = absurd (omega (arith, l))
  all-in_order k (e ∷ es) [] l f = absurd (omega (arith, l))
  all-in_order k (e ∷ es) (x ∷ xs) l f =
      let here : some x ≡ some (result_of (k + 0) e) = f 0 e refl in
      let zero_more : k + 0 ≡ k = omega arith in
      let first : x ≡ result_of k e = cc in
      let rest = all-in_order (suc k) es xs (omega (arith, l)) (λ i d h.
        let more : k + suc i ≡ suc k + i = omega arith in
        f (suc i) d h ∙ ap (λ m. some (result_of m d)) more) in
      ap (λ y. y ∷ xs) first ∙ ap (◌∷◌ (result_of k e)) rest

  -- In every state of a batch in which all its goroutines have ended, in whatever order, the
  -- results are those of the entries, each at the index of its entry and with that index, and
  -- the request of each entry has been released once if the batch acquired it and never if the
  -- caller gave it.
  pub Batches-in_order :
      (es : List BatchEntry) (s : BatchRun A)
      → Batches give es s
      → s.running ≡ []
      → (s.results ≡ in_order 0 es)
        × ((i : ℕ) (e : BatchEntry) → get_elem? es i ≡ some e → count i s.released ≡ one_if e.owned)
  Batches-in_order es s b h =
      let f = Batches-Fair es s b in
      let over : (i : ℕ) (e : BatchEntry) → get_elem? es i ≡ some e → Ended i e s = λ i e g.
        elim (f.slots i e g) [
          | inl (c, w, r) ↦ absurd (omega (arith, c, ap (λ ps. count i (indexes ps)) h))
          | inr w ↦ w
        ] in
      (
        all-in_order 0 es s.results f.size (λ i e g.
            let (c, w, r) = over i e g in w ∙ ap (λ m. some (result_of m e)) (omega arith)),
        λ i e g. let (c, w, r) = over i e g in r,
      )
