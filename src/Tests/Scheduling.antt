-- ===== src/Tests/Scheduling.antt =====
-- A host with one worker: a work is queued, taken and answered.
use bursthttp.Base.{refl, true, false, some, [], arith, ◌≡◌, ◌∷◌}
use bursthttp.Scheduler.{
  HostScheduler, did, execute, new_host_scheduler, enqueue_work, take_work, member, remove, finish,
}
use bursthttp.Scheduler.Answers.{takes, answers, Reachable, fresh, queued, count, answered}
use bursthttp.Scheduler.Liveness.{Moves, works, stay, Settled, Works-answered}

abbrev one_worker : HostScheduler
one_worker = new_host_scheduler 1 4

abbrev with_work : HostScheduler
with_work = record one_worker { queue = 0 ∷ []; next = 1 }

abbrev at_work : HostScheduler
at_work = record with_work { queue = []; idle = 0; running = 0 ∷ [] }

abbrev at_rest : HostScheduler
at_rest = record at_work { running = []; idle = 1; answers = (0, did 7) ∷ [] }

work_queued : enqueue_work one_worker ≡ some with_work
unfolding enqueue_work
work_queued = refl

work_taken : take_work with_work ≡ some at_work
unfolding take_work
work_taken = refl

work_done : finish 0 (execute false true 7) at_work ≡ some at_rest
unfolding finish member remove
work_done = refl

queued_Reachable : Reachable with_work
queued_Reachable = queued one_worker with_work (fresh 1 4) work_queued

at_rest-Moves : Moves 2 with_work at_rest
at_rest-Moves =
    works 1 with_work at_work at_rest
      (works 0 with_work with_work at_work (stay with_work) (takes at_work work_taken))
      (answers at_rest 0 false true 7 work_done)

at_rest-Settled : Settled at_rest
unfolding take_work finish member
at_rest-Settled t (takes _ h) = cc
at_rest-Settled t (answers _ w d c o h) = cc

Works-answered_example : count 0 (answered at_rest.answers) ≡ 1
Works-answered_example =
    Works-answered 2 with_work at_rest 0 queued_Reachable refl (omega arith) at_rest-Moves
      at_rest-Settled (omega arith)
