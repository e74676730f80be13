-- ===== src/ThreadPool/Growth.antt =====
-- addThread, round by round.
use module_flow.Prelude.{ℕ, increment, suc, ◌+◌, ◌≡◌, refl, ltb, if◌then◌else◌, nat_eq}
use module_flow.ThreadPool.Workers.{update}
use module_flow.ThreadPool.{threadpool_max_num, head, Pool, add_thread}

-- One round of addThread.
abbrev pub add_one : Pool → Pool
add_one s =
    if ltb s.size threadpool_max_num
    then record s {
      size = s.size + 1;
      idle_thr_num_ = increment s.idle_thr_num_;
      pc = update s.pc s.size head;
    }
    else s

pub add_thread-suc : (n : ℕ) (s : Pool) → add_thread (suc n) s ≡ add_thread n (add_one s)
unfolding add_thread
add_thread-suc n s = refl

pub add_thread-zero : (s : Pool) → add_thread 0 s ≡ s
unfolding add_thread
add_thread-zero s = refl
