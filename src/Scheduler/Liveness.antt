-- ===== src/Scheduler/Liveness.antt =====
-- The workers of scheduler.go come to the end of what is queued.
use bursthttp.Base.{
  ltb, lt→ltb, ==_iff, length, ℕ, zero, suc, refl, sym, ap, Bool, true, false, Option, none, some,
  List, [], arith, ◌+◌, ◌≤◌, ◌<◌, ◌≡◌, ◌∙◌, ◌≢◌, ◌∷◌,
}
use bursthttp.Scheduler.{
  leave, left_by, taken, HostScheduler, cancelled_before_execute, take_work, member, finish,
}
use bursthttp.Scheduler.Answers.{
  finished, WorkerStep, takes, answers, Works, rest, step, Reachable, Reachable-Inv, Inv,
  WorkerStep-Keeps, count, answered, places, to_do, alive, one_if,
}

-- No worker can take or answer a work.
abbrev pub Settled : HostScheduler → Type 0
Settled s = (t : HostScheduler) → ¬ WorkerStep s t

Settled-running : (s : HostScheduler) (ws : List ℕ) → s.running ≡ ws → Settled s → ws ≡ []
unfolding finish member
Settled-running s [] e idle_now = refl
Settled-running s (w ∷ ws) e idle_now =
    let m : member w s.running ≡ true = rw (e, (==_iff w w).1 refl) refl in
    absurd (
      idle_now (finished s w cancelled_before_execute)
        (answers (finished s w cancelled_before_execute) w true true 0 (rw m refl)))

Settled-queue :
    (s : HostScheduler) (idle : ℕ) (ws : List ℕ)
    → s.idle ≡ idle
    → s.queue ≡ ws
    → 0 < idle
    → Settled s
    → ws ≡ []
unfolding take_work
Settled-queue s zero ws i e l idle_now = absurd (omega arith)
Settled-queue s (suc idle) [] i e l idle_now = refl
Settled-queue s (suc idle) (w ∷ ws) i e l idle_now =
    let next : HostScheduler = record s { queue = ws; idle = idle; running = w ∷ s.running } in
    absurd (idle_now next (takes next (rw (i, e) refl)))

-- Steps of the workers, counted against what there is to do.
record Worked (n : ℕ) (s t : HostScheduler) : Type 0 where
  inv : Inv t
  next_is : t.next ≡ s.next
  alive_is : alive t ≡ alive s
  spent : n + to_do t ≤ to_do s

Works-Worked : (n : ℕ) (s t : HostScheduler) → Inv s → Works n s t → Worked n s t
Works-Worked _ s _ v (rest _) = record {
  inv = v;
  next_is = refl;
  alive_is = refl;
  spent = omega arith;
}
Works-Worked _ s _ v (step n _ t u r h) =
    let w = Works-Worked n s t v r in
    let k = WorkerStep-Keeps t u w.inv h in
    record {
      inv = k.inv;
      next_is = k.next_is ∙ w.next_is;
      alive_is = k.alive_is ∙ w.alive_is;
      spent = omega (arith, w.spent, k.less);
    }

-- With nothing queued or running, a work can only be among the answers.
counted :
    (k : ℕ) (t : HostScheduler)
    → t.running ≡ []
    → t.queue ≡ []
    → places k t ≡ 1
    → count k (answered t.answers) ≡ 1
counted k t er eq p = omega (arith, p, ap (count k) er, ap (count k) eq)

-- The workers go on by themselves: they take and answer works, and leave once they see a stop.
pub data Moves : ℕ → HostScheduler → HostScheduler → Type 0 where
  stay : (s : HostScheduler) → Moves 0 s s
  works : (n : ℕ) (s t u : HostScheduler) → Moves n s t → WorkerStep t u → Moves (suc n) s u
  leaves : (n : ℕ) (s t u : HostScheduler) → Moves n s t → leave t ≡ some u → Moves (suc n) s u

take_work-stopped :
    (s t : HostScheduler) (idle : ℕ) (queue : List ℕ)
    → taken s idle queue ≡ some t
    → t.stopped ≡ s.stopped
take_work-stopped s t zero queue h = cc
take_work-stopped s t (suc idle) [] h = cc
take_work-stopped s t (suc idle) (w ∷ queue) h = sym (ap stopped_of h)
  where
    stopped_of : Option HostScheduler → Bool
    stopped_of none = s.stopped
    stopped_of (some u) = u.stopped

WorkerStep-stopped : (s t : HostScheduler) → WorkerStep s t → t.stopped ≡ s.stopped
unfolding take_work finish
WorkerStep-stopped s t (takes _ h) = take_work-stopped s t s.idle s.queue h
WorkerStep-stopped s t (answers _ w d c o h) = ground (arith, h)

left_by-stopped :
    (s t : HostScheduler) (b : Bool) (idle : ℕ) → left_by s b idle ≡ some t → b ≢ false
left_by-stopped s t true idle h = λ e. cc
left_by-stopped s t false zero h = cc
left_by-stopped s t false (suc idle) h = cc

-- While the scheduler is not stopped, no worker leaves.
Moves-Works :
    (n : ℕ) (s t : HostScheduler)
    → s.stopped ≡ false
    → Moves n s t
    → Works n s t × (t.stopped ≡ false)
unfolding leave
Moves-Works _ s _ e (stay _) = (rest s, e)
Moves-Works _ s _ e (works n _ t u m h) =
    let (w, f) = Moves-Works n s t e m in (step n s t u w h, WorkerStep-stopped t u h ∙ f)
Moves-Works _ s _ e (leaves n _ t u m h) =
    let (w, f) = Moves-Works n s t e m in absurd (left_by-stopped t u t.stopped t.idle h f)

-- From every state that callers and workers lead to, in which a worker is left and the scheduler
-- is not stopped: once the workers have gone on, by any of their steps, until none of them can
-- take or answer a work, every work that was queued before has been answered, and answered once.
pub Works-answered :
    (n : ℕ) (s t : HostScheduler) (k : ℕ)
    → Reachable s
    → s.stopped ≡ false
    → 0 < s.idle + length s.running
    → Moves n s t
    → Settled t
    → k < s.next
    → count k (answered t.answers) ≡ 1
Works-answered n s t k r up l m idle_now lk =
    let (h, still_up) = Moves-Works n s t up m in
    let w = Works-Worked n s t (Reachable-Inv s r) h in
    let er : t.running ≡ [] = Settled-running t t.running refl idle_now in
    let some_idle : 0 < t.idle = omega (arith, w.alive_is, ap length er) in
    let eq : t.queue ≡ [] = Settled-queue t t.idle t.queue refl refl some_idle idle_now in
    let once : places k t ≡ one_if (ltb k t.next) = w.inv.once k in
    counted k t er eq (once ∙ ap one_if (lt→ltb k t.next (omega (arith, w.next_is, lk))))
