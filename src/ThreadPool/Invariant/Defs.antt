-- ===== src/ThreadPool/Invariant/Defs.antt =====
-- The invariant of a thread pool.
use module_flow.Prelude.{
  ℕ, diff, ◌+◌, ◌≡◌, ◌≤◌, Bool, true, false, some, [], ◌++◌, count, indicator,
}
use module_flow.ThreadPool.Workers.{sum_below}
use module_flow.ThreadPool.{
  threadpool_max_num, Pc, head, deciding, holding, took, executing, finished, exited, Pool, wakes,
  OwnerPc, spawned,
}

-- Workers that are not counted in idle_thr_num_.
abbrev pub is_busy : Pc → ℕ
is_busy (executing t) = 1
is_busy finished = 1
is_busy _ = 0

-- A worker that has started and is not counted yet.
abbrev pub uncounted : OwnerPc → ℕ
uncounted spawned = 1
uncounted _ = 0

-- Whether a worker has task `a`, which it took from the queue and has not called.
abbrev pub carries : ℕ → Pc → ℕ
carries a (took t) = indicator a t
carries a (executing t) = indicator a t
carries a _ = 0

abbrev pub has_lock : Pc → Bool
has_lock holding = true
has_lock deciding = true
has_lock _ = false

pub record Inv (s : Pool) : Type 0 where
  pub fifo : s.taken ++ s.tasks_ ≡ s.submitted
  pub room : s.size ≤ threadpool_max_num
  pub idle : s.idle_thr_num_ ≡ diff s.size (sum_below is_busy s.size s.pc + uncounted s.owner)
  pub called : (a : ℕ) → count a s.executed + sum_below (carries a) s.size s.pc ≡ count a s.taken
  pub unborn : (i : ℕ) → s.size ≤ i → s.pc i ≡ head
  pub locked : (i : ℕ) → has_lock (s.pc i) ≡ true → s.lock_ ≡ some i
  pub sure : (i : ℕ) → s.pc i ≡ holding → wakes s ≡ true
  pub unsure : (i : ℕ) → s.pc i ≡ deciding → s.tasks_ ≡ []
  pub ended : (i : ℕ) → s.pc i ≡ exited → s.run_ ≡ false
