-- ===== src/ThreadPool/Invariant/Claims.antt =====
-- What the invariant says of the pools that are made by the constructor.
use module_flow.Prelude.{
  ℕ, diff, ◌+◌, ◌≡◌, refl, ◌⊎◌, ◌≤◌, true, false, List, [], ◌∷◌, ◌++◌, count, arith, inl, inr,
  nat_eq,
}
use module_flow.ThreadPool.Workers.{sum_below}
use module_flow.ThreadPool.{threadpool_max_num, holding, Pool, wakes, Reach, new_pool}
use module_flow.ThreadPool.Invariant.Defs.{is_busy, uncounted, carries, has_lock}
use module_flow.ThreadPool.Invariant.Steps.{new_pool-Inv, Reach-Inv}

-- In every state that a new pool can reach, for any number of workers that was asked for: the tasks
-- taken and then the tasks in the queue are the tasks submitted, so tasks are taken in the order of
-- submission, each once; as often as a task was taken, it has been executed or is with a worker that is
-- about to;
-- there are 16 workers at most, and idle_thr_num_ is the number of workers less those between the two
-- changes that a worker makes to it, and less one that addThread has started and not counted yet.
pub accounting :
    (n : ℕ) (s : Pool)
    → Reach true (new_pool n) s
    → (s.taken ++ s.tasks_ ≡ s.submitted)
      × ((a : ℕ) → count a s.executed + sum_below (carries a) s.size s.pc ≡ count a s.taken)
      × (s.size ≤ threadpool_max_num)
      × (s.idle_thr_num_ ≡ diff s.size (sum_below is_busy s.size s.pc + uncounted s.owner))
accounting n s r =
    let inv = Reach-Inv r (new_pool-Inv n) in (inv.fifo, inv.called, inv.room, inv.idle)

-- In every such state two workers do not hold the lock together, and a worker whose wait has come to
-- an end can go on: it finds a task in the queue, or finds the pool stopped and leaves. So front()
-- is never called on an empty queue.
pub holding_proceeds :
    (n : ℕ) (s : Pool)
    → Reach true (new_pool n) s
    → ((i k : ℕ) → has_lock (s.pc i) ≡ true → has_lock (s.pc k) ≡ true → i ≡ k)
      × ((i : ℕ)
          → s.pc i ≡ holding
          → ((t : ℕ) × (ts : List ℕ) × (s.tasks_ ≡ t ∷ ts)) ⊎ ((s.run_ ≡ false) × (s.tasks_ ≡ [])))
holding_proceeds n s r =
    let inv = Reach-Inv r (new_pool-Inv n) in
    (
      λ i k h g. ground (arith, inv.locked i h, inv.locked k g),
      λ i h. by_queue s.tasks_ refl (inv.sure i h),
    )
  where
    by_queue :
        (q : List ℕ)
        → s.tasks_ ≡ q
        → wakes s ≡ true
        → ((t : ℕ) × (ts : List ℕ) × (s.tasks_ ≡ t ∷ ts)) ⊎ ((s.run_ ≡ false) × (s.tasks_ ≡ []))
    by_queue [] e w = inr (ground arith, e)
    by_queue (t ∷ ts) e w = inl (t, ts, e)
