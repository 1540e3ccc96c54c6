-- ===== src/Scheduler/Answers.antt =====
-- Every work that scheduler.go queues is answered once.
use bursthttp.Base.{
  ltb, ltb→lt, ==_iff, Bool-cases, length, length-append, ℕ, zero, suc, refl, sym, ap, inl, inr,
  Bool, true, false, none, some, List, [], arith, ◌==◌, if◌then◌else◌, ◌+◌, ◌*◌, ◌≤◌, ◌<◌, ◌≡◌, ◌∙◌,
  ◌∷◌, ◌++◌,
}
use mathlib.Core.Path.{subst}
use bursthttp.Scheduler.{
  HostScheduler, ScheduledResult, execute, new_host_scheduler, enqueue_work, take_work, finish,
  stop_scheduler, leave, left_by, taken, member, remove,
}

-- A step of a worker on its work.
pub data WorkerStep (s : HostScheduler) : HostScheduler → Type 0 where
  takes : (t : HostScheduler) → take_work s ≡ some t → WorkerStep s t
  answers :
      (t : HostScheduler) (w : ℕ) (ctx_done connected : Bool) (outcome : ℕ)
      → finish w (execute ctx_done connected outcome) s ≡ some t
      → WorkerStep s t

pub data Works : ℕ → HostScheduler → HostScheduler → Type 0 where
  rest : (s : HostScheduler) → Works 0 s s
  step : (n : ℕ) (s t u : HostScheduler) → Works n s t → WorkerStep t u → Works (suc n) s u

-- The states that callers, workers and `Stop` lead to, in any order.
pub data Reachable : HostScheduler → Type 0 where
  fresh : (workers queue_cap : ℕ) → Reachable (new_host_scheduler workers queue_cap)
  queued : (s t : HostScheduler) → Reachable s → enqueue_work s ≡ some t → Reachable t
  worked : (s t : HostScheduler) → Reachable s → WorkerStep s t → Reachable t
  stopped : (s : HostScheduler) → Reachable s → Reachable (stop_scheduler s)
  left : (s t : HostScheduler) → Reachable s → leave s ≡ some t → Reachable t

abbrev pub one_if : Bool → ℕ
one_if true = 1
one_if false = 0

abbrev pub count : ℕ → List ℕ → ℕ
count w [] = 0
count w (x ∷ xs) = one_if (x == w) + count w xs

abbrev pub answered : List (ℕ × ScheduledResult) → List ℕ
answered [] = []
answered ((w, r) ∷ more) = w ∷ answered more

-- How often a work stands in the queue, with the workers, and among the answers.
abbrev pub places : ℕ → HostScheduler → ℕ
places w s = count w s.queue + count w s.running + count w (answered s.answers)

-- The works queued so far stand in one place each, and the queue keeps its capacity.
pub record Inv (s : HostScheduler) : Type 0 where
  pub once : (w : ℕ) → places w s ≡ one_if (ltb w s.next)
  pub bounded : length s.queue ≤ s.queue_cap

pub count-append : (k : ℕ) (xs ys : List ℕ) → count k (xs ++ ys) ≡ count k xs + count k ys
count-append k [] ys = omega arith
count-append k (x ∷ xs) ys = omega (arith, count-append k xs ys)

count-remove :
    (k w : ℕ) (xs : List ℕ)
    → member w xs ≡ true
    → count k xs ≡ one_if (w == k) + count k (remove w xs)
unfolding member remove
count-remove k w [] h = cc
count-remove k w (x ∷ xs) h = elim (Bool-cases (x == w)) [
  | inl t ↦ let e : x ≡ w = (==_iff x w).0 t in rw (t, e) refl
  | inr t ↦ let ih = count-remove k w xs (sym (rw t refl) ∙ h) in rw t (omega (arith, ih))
]

length-remove : (w : ℕ) (xs : List ℕ) → member w xs ≡ true → length xs ≡ suc (length (remove w xs))
unfolding member remove
length-remove w [] h = cc
length-remove w (x ∷ xs) h = elim (Bool-cases (x == w)) [
  | inl t ↦ rw t refl
  | inr t ↦ rw t (ap suc (length-remove w xs (sym (rw t refl) ∙ h)))
]

guarded-some {ℓ} :
    {A : Type ℓ} (b : Bool) (a t : A) → (if b then some a else none) ≡ some t → (b ≡ true) × (a ≡ t)
guarded-some true a t h = (refl, cc)
guarded-some false a t h = cc

-- What a step that is taken says of the state.
taken-some :
    (s t : HostScheduler) (idle : ℕ) (queue : List ℕ)
    → taken s idle queue ≡ some t
    → (i : ℕ) × (w : ℕ) × (ws : List ℕ) × (idle ≡ suc i)
      × (queue ≡ w ∷ ws)
      × (record s { queue = ws; idle = i; running = w ∷ s.running } ≡ t)
taken-some s t zero queue h = cc
taken-some s t (suc i) [] h = cc
taken-some s t (suc i) (w ∷ ws) h = (i, w, ws, refl, refl, cc)

abbrev pub finished : HostScheduler → ℕ → ScheduledResult → HostScheduler
finished s w r = record s {
  running = remove w s.running;
  idle = s.idle + 1;
  answers = (w, r) ∷ s.answers;
}

finish-some :
    (s t : HostScheduler) (w : ℕ) (r : ScheduledResult)
    → finish w r s ≡ some t
    → (member w s.running ≡ true) × (finished s w r ≡ t)
unfolding finish
finish-some s t w r h = guarded-some (member w s.running) (finished s w r) t h

enqueue_work-some :
    (s t : HostScheduler)
    → enqueue_work s ≡ some t
    → (length s.queue < s.queue_cap)
      × (record s { queue = s.queue ++ s.next ∷ []; next = s.next + 1 } ≡ t)
unfolding enqueue_work
enqueue_work-some s t h =
    let (m, e) =
      guarded-some (ltb (length s.queue) s.queue_cap)
        (record s { queue = s.queue ++ s.next ∷ []; next = s.next + 1 }) t h in
    (ltb→lt (length s.queue) s.queue_cap m, e)

leave-some :
    (s t : HostScheduler) (b : Bool) (idle : ℕ)
    → left_by s b idle ≡ some t
    → (i : ℕ) × (record s { idle = i } ≡ t)
leave-some s t true (suc i) h = (i, cc)
leave-some s t true zero h = cc
leave-some s t false idle h = cc

once_more : (w n : ℕ) → one_if (ltb w n) + one_if (n == w) ≡ one_if (ltb w (n + 1))
once_more w n = ground arith

fresh-Inv : (workers queue_cap : ℕ) → Inv (new_host_scheduler workers queue_cap)
fresh-Inv workers queue_cap = record { once = λ w. ground arith; bounded = omega arith }

queued-Inv : (s t : HostScheduler) → Inv s → enqueue_work s ≡ some t → Inv t
queued-Inv s t v h =
    let (room, e) = enqueue_work-some s t h in
    subst Inv e (record {
      once = λ w. omega (arith, v.once w, once_more w s.next, count-append w s.queue (s.next ∷ []));
      bounded = omega (arith, length-append s.queue (s.next ∷ []));
    })

-- The works with the workers and in the queue, and how many steps they still take.
abbrev pub to_do : HostScheduler → ℕ
to_do s = 2 * length s.queue + length s.running

abbrev pub alive : HostScheduler → ℕ
alive s = s.idle + length s.running

-- What a step of a worker keeps.
pub record Keeps (s t : HostScheduler) : Type 0 where
  pub inv : Inv t
  pub next_is : t.next ≡ s.next
  pub alive_is : alive t ≡ alive s
  pub less : to_do t < to_do s

takes-Keeps : (s t : HostScheduler) → Inv s → take_work s ≡ some t → Keeps s t
unfolding take_work
takes-Keeps s t v h =
    let (i, w, ws, ei, eq, e) = taken-some s t s.idle s.queue h in
    subst (Keeps s) e (record {
      inv = record {
        once = λ k. omega (arith, v.once k, ap (count k) eq);
        bounded = omega (arith, v.bounded, ap length eq);
      };
      next_is = refl;
      alive_is = omega (arith, ei);
      less = omega (arith, ap length eq);
    })

answers-Keeps :
    (s t : HostScheduler) (w : ℕ) (r : ScheduledResult) → Inv s → finish w r s ≡ some t → Keeps s t
answers-Keeps s t w r v h =
    let (m, e) = finish-some s t w r h in
    subst (Keeps s) e (record {
      inv = record {
        once = λ k. omega (arith, v.once k, count-remove k w s.running m);
        bounded = v.bounded;
      };
      next_is = refl;
      alive_is = omega (arith, length-remove w s.running m);
      less = omega (arith, length-remove w s.running m);
    })

pub WorkerStep-Keeps : (s t : HostScheduler) → Inv s → WorkerStep s t → Keeps s t
WorkerStep-Keeps s t v (takes _ h) = takes-Keeps s t v h
WorkerStep-Keeps s t v (answers _ w d c o h) = answers-Keeps s t w (execute d c o) v h

pub Reachable-Inv : (s : HostScheduler) → Reachable s → Inv s
unfolding leave
Reachable-Inv _ (fresh workers queue_cap) = fresh-Inv workers queue_cap
Reachable-Inv _ (queued s t r h) = queued-Inv s t (Reachable-Inv s r) h
Reachable-Inv _ (worked s t r h) = (WorkerStep-Keeps s t (Reachable-Inv s r) h).inv
Reachable-Inv _ (stopped s r) =
    let v = Reachable-Inv s r in record { once = v.once; bounded = v.bounded }
Reachable-Inv _ (left s t r h) =
    let v = Reachable-Inv s r in
    let (i, e) = leave-some s t s.stopped s.idle h in
    subst Inv e (record { once = v.once; bounded = v.bounded })
