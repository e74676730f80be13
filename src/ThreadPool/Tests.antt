-- ===== src/ThreadPool/Tests.antt =====
-- A pool of one worker that takes a task and calls it.
use module_flow.Prelude.{
  diff, ℕ, ◌+◌, ◌≡◌, ◌⊎◌, refl, ◌≤◌, true, false, List, [], ◌∷◌, ◌++◌, count, arith,
}
use module_flow.ThreadPool.Workers.{sum_below}
use module_flow.ThreadPool.{
  threadpool_max_num, blocked, holding, took, joining, Pool, loop_on, check_true, take, add_thread,
  worker, push, Reach, here, next, new_pool,
}
use module_flow.ThreadPool.Invariant.Defs.{is_busy, uncounted, carries, has_lock}
use module_flow.ThreadPool.Invariant.Claims.{accounting, holding_proceeds}
use module_flow.ThreadPool.Shutdown.{shutdown_deadlock}
use module_flow.ThreadPool.Progress.Claims.{Drained, queue_drains}
use module_flow.ThreadPool.Jobs.{JobReach, no_jobs}
use module_flow.ThreadPool.Refine.{jobs, pool_refines}

-- The worker enters its loop, task 7 is submitted, and the worker finds it with the lock.
run_holding : (s : Pool) × Reach true (new_pool 1) s
unfolding new_pool add_thread
run_holding = (
  _,
  next (next (next here (worker 0 (omega arith) (loop_on refl))) (push 7 refl refl refl))
      (worker 0 (omega arith) (check_true refl refl)),
)

-- Then it takes the task.
run_taken : (s : Pool) × Reach true (new_pool 1) s
unfolding new_pool add_thread run_holding
run_taken = (_, next run_holding.1 (worker 0 (omega arith) (take 7 [] refl)))

run_taken_lem :
    (run_taken.0.taken ≡ 7 ∷ []) × (run_taken.0.pc 0 ≡ took 7) × (run_holding.0.pc 0 ≡ holding)
unfolding run_taken run_holding
run_taken_lem = (refl, refl, refl)

accounting_example :
    (run_taken.0.taken ++ run_taken.0.tasks_ ≡ run_taken.0.submitted)
    × ((a : ℕ)
        → count a run_taken.0.executed + sum_below (carries a) run_taken.0.size run_taken.0.pc
          ≡ count a run_taken.0.taken)
    × (run_taken.0.size ≤ threadpool_max_num)
    × (run_taken.0.idle_thr_num_
        ≡ diff run_taken.0.size
            (sum_below is_busy run_taken.0.size run_taken.0.pc + uncounted run_taken.0.owner))
accounting_example = accounting 1 run_taken.0 run_taken.1

holding_proceeds_example :
    ((i k : ℕ)
      → has_lock (run_holding.0.pc i) ≡ true
      → has_lock (run_holding.0.pc k) ≡ true
      → i ≡ k)
    × ((i : ℕ)
        → run_holding.0.pc i ≡ holding
        → ((t : ℕ) × (ts : List ℕ) × (run_holding.0.tasks_ ≡ t ∷ ts))
          ⊎ ((run_holding.0.run_ ≡ false) × (run_holding.0.tasks_ ≡ [])))
holding_proceeds_example = holding_proceeds 1 run_holding.0 run_holding.1

shutdown_deadlock_example :
    (s : Pool) × Reach false (new_pool 2) s
    × ((t : Pool) → Reach false s t → (t.owner ≡ joining) × (t.pc 0 ≡ blocked))
shutdown_deadlock_example = shutdown_deadlock 2 (omega arith)

pool_refines_example : JobReach no_jobs (jobs run_taken.0)
pool_refines_example = pool_refines 1 run_taken.0 run_taken.1

queue_drains_example : (u : Pool) × Reach false run_holding.0 u × Drained run_holding.0 u
unfolding run_holding
queue_drains_example = queue_drains 1 run_holding.0 run_holding.1 refl
