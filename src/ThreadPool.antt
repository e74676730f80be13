-- ===== src/ThreadPool.antt =====
-- ThreadPoolLoopObject of include/framework/threadpool_loop.h and src/framework/threadpool_loop.cpp:
-- its workers and the thread that submits to it and destroys it, interleaved in any order.
pub mod Workers
pub mod Threads
pub mod Invariant
pub mod Growth
pub mod Jobs
pub mod Refine
pub mod Idle
pub mod Paths
pub mod Progress
pub mod Shutdown
mod Tests
use module_flow.Prelude.{
  ℕ, zero, suc, ◌+◌, ◌-◌, ◌≡◌, ◌⊎◌, ◌≢◌, ◌<◌, ◌≤◌, Bool, true, false, Option, none, some, List, [],
  ◌∷◌, ◌++◌, ◌==◌, nat_eq, if◌then◌else◌, not, ◌||◌, length, ltb, ◌&&◌, ℤ, pos, to_int32, ltb_ℤ,
  increment, decrement,
}
use Workers.{update}

-- THREADPOOL_MAX_NUM
abbrev pub threadpool_max_num : ℕ
threadpool_max_num = 16

-- Where a worker stands in its loop.
pub data Pc : Type 0 where
  head : Pc  -- before the test of `while (run_)`
  entering : Pc  -- about to take the lock, on the way in or after a notification
  deciding : Pc  -- with the lock; the condition of the wait was false
  blocked : Pc  -- in the wait
  holding : Pc  -- with the lock; the condition of the wait was true
  took : ℕ → Pc  -- with a task, before idle_thr_num_--
  executing : ℕ → Pc  -- before the call of the task
  finished : Pc  -- before idle_thr_num_++
  exited : Pc

-- Where the thread that owns the pool stands: between calls, inside submit (behind the submission,
-- in addThread before and behind the start of a worker, and behind that), or in the destructor.
pub data OwnerPc : Type 0 where
  ready pushed growing spawned grown stopped joining gone : OwnerPc

-- pool_ is `size` workers; tasks are numbers. The last three lists record what was submitted, taken
-- from the queue and executed, the oldest first.
pub record Pool : Type 0 where
  pub tasks_ : List ℕ
  pub run_ : Bool
  pub idle_thr_num_ : ℤ
  pub size : ℕ
  pub lock_ : Option ℕ
  pub pc : ℕ → Pc
  pub owner : OwnerPc
  pub submitted : List ℕ
  pub taken : List ℕ
  pub executed : List ℕ

abbrev pub is_empty : List ℕ → Bool
is_empty [] = true
is_empty (x ∷ xs) = false

-- The condition of the wait.
abbrev pub wakes : Pool → Bool
wakes s = not s.run_ || not (is_empty s.tasks_)

-- isRunning, hasTask and taskCount
unfoldable pub is_running : Pool → Bool
is_running s = s.run_

unfoldable pub has_task : Pool → Bool
has_task s = not (is_empty s.tasks_)

unfoldable pub task_count : Pool → ℤ
task_count s = to_int32 (length s.tasks_)

-- addThread(size) in the constructor, where the workers find nothing to do before it returns: a new
-- worker for each round, while there is room.
unfoldable pub add_thread : ℕ → Pool → Pool
add_thread zero s = s
add_thread (suc n) s = add_thread n (
    if ltb s.size threadpool_max_num
    then record s {
      size = s.size + 1;
      idle_thr_num_ = increment s.idle_thr_num_;
      pc = update s.pc s.size head;
    }
    else s)

-- The pool before the constructor adds its workers, and after it.
abbrev pub no_workers : Pool
no_workers = record {
  tasks_ = [];
  run_ = true;
  idle_thr_num_ = pos 0;
  size = 0;
  lock_ = none;
  pc = λ i. head;
  owner = ready;
  submitted = [];
  taken = [];
  executed = [];
}

unfoldable pub new_pool : ℕ → Pool
unfolding add_thread
new_pool n = add_thread n no_workers

-- One step of worker i: the pool but for the worker's own place, and that place.
pub data Move (i : ℕ) (s : Pool) : Pc → Pool → Pc → Type 0 where
  loop_on : s.run_ ≡ true → Move i s head s entering
  loop_end : s.run_ ≡ false → Move i s head s exited
  check_true :
      s.lock_ ≡ none → wakes s ≡ true → Move i s entering (record s { lock_ = some i }) holding
  check_false :
      s.lock_ ≡ none → wakes s ≡ false → Move i s entering (record s { lock_ = some i }) deciding
  block : Move i s deciding (record s { lock_ = none }) blocked
  leave : s.run_ ≡ false → s.tasks_ ≡ [] → Move i s holding (record s { lock_ = none }) exited
  take :
      (t : ℕ) (ts : List ℕ)
      → s.tasks_ ≡ t ∷ ts
      → Move i s holding
          (record s { lock_ = none; tasks_ = ts; taken = s.taken ++ t ∷ [] })
          (took t)
  busy :
      {t : ℕ}
      → Move i s (took t) (record s { idle_thr_num_ = decrement s.idle_thr_num_ }) (executing t)
  execute : {t : ℕ} → Move i s (executing t) (record s { executed = s.executed ++ t ∷ [] }) finished
  rest : Move i s finished (record s { idle_thr_num_ = increment s.idle_thr_num_ }) head

-- What a notification does to a worker.
abbrev pub wake : Pc → Pc
wake blocked = entering
wake head = head
wake entering = entering
wake deciding = deciding
wake holding = holding
wake (took t) = took t
wake (executing t) = executing t
wake finished = finished
wake exited = exited

-- One step of the system. A wait ends by a notification, or spuriously, where `spurious` allows it;
-- either way the worker tests the condition again. The thread that owns the pool is the only one to
-- write run_, so its test of run_ stands with the submission behind it; a new worker may run before
-- it is counted. That thread is also the only one to submit: calls of submit by others, or by a task, are
-- no steps.
pub data Step (spurious : Bool) (s : Pool) : Pool → Type 0 where
  worker :
      (i : ℕ) {u : Pool} {p : Pc}
      → i < s.size
      → Move i s (s.pc i) u p
      → Step spurious s (record u { pc = update s.pc i p })
  wake_up :
      (i : ℕ)
      → spurious ≡ true
      → i < s.size
      → s.pc i ≡ blocked
      → Step spurious s (record s { pc = update s.pc i entering })
  push :
      (t : ℕ)
      → s.owner ≡ ready
      → s.run_ ≡ true
      → s.lock_ ≡ none
      → Step spurious s (record s {
        tasks_ = s.tasks_ ++ t ∷ [];
        submitted = s.submitted ++ t ∷ [];
        owner = pushed;
      })
  grow :
      s.owner ≡ pushed
      → ltb_ℤ s.idle_thr_num_ (pos 1) ≡ true
      → s.size < threadpool_max_num
      → Step spurious s (record s { owner = growing })
  no_grow :
      s.owner ≡ pushed
      → (ltb_ℤ s.idle_thr_num_ (pos 1) ≡ false) ⊎ (threadpool_max_num ≤ s.size)
      → Step spurious s (record s { owner = grown })
  spawn :
      s.owner ≡ growing
      → s.size < threadpool_max_num
      → Step spurious s
          (record s { size = s.size + 1; pc = update s.pc s.size head; owner = spawned })
  no_spawn :
      s.owner ≡ growing → threadpool_max_num ≤ s.size → Step spurious s (record s { owner = grown })
  counted :
      s.owner ≡ spawned
      → Step spurious s (record s { idle_thr_num_ = increment s.idle_thr_num_; owner = grown })
  notify_one :
      (i : ℕ)
      → s.owner ≡ grown
      → i < s.size
      → s.pc i ≡ blocked
      → Step spurious s (record s { pc = update s.pc i entering; owner = ready })
  notify_nobody :
      s.owner ≡ grown
      → ((i : ℕ) → i < s.size → s.pc i ≢ blocked)
      → Step spurious s (record s { owner = ready })
  stop : s.owner ≡ ready → Step spurious s (record s { run_ = false; owner = stopped })
  notify_all :
      s.owner ≡ stopped → Step spurious s (record s { pc = λ i. wake (s.pc i); owner = joining })
  join :
      s.owner ≡ joining
      → ((i : ℕ) → i < s.size → s.pc i ≡ exited)
      → Step spurious s (record s { owner = gone })

pub data Reach (spurious : Bool) (s : Pool) : Pool → Type 0 where
  here : Reach spurious s s
  next : {t u : Pool} → Reach spurious s t → Step spurious t u → Reach spurious s u
