-- ===== src/ThreadPool/Threads.antt =====
-- The two functions in front of src/framework/threadpool_loop.cpp. What the system answers is an
-- argument.
use module_flow.Prelude.{
  ℕ, ◌≡◌, refl, Bool, true, false, ◌==◌, nat_eq, int_eq, if◌then◌else◌, not, ℤ, pos, negsuc,
  to_int32, ◌≢◌, beq-false,
}
use module_flow.ThreadPool.Workers.{update}

abbrev pub CpuSet : Type 0
CpuSet = ℕ → Bool

-- TurnThreadCpu: `cpuset` is what the local variable holds before its first use, the next two are the
-- results of pthread_setaffinity_np and pthread_getaffinity_np. Nothing calls it.
unfoldable pub turn_thread_cpu : CpuSet → (CpuSet → ℤ) → ℤ → ℕ → Bool
turn_thread_cpu cpuset set_affinity get_affinity cpu_id =
    if not (set_affinity (update cpuset cpu_id true) == pos 0)
    then false
    else if not (get_affinity == pos 0)
    then false
    else true

-- GetThreadID: with the static variable can_using_gettid, the result of the system call, and that of
-- pthread_self. The result comes with that variable as it is then.
unfoldable pub get_thread_id : Bool → ℤ → ℕ → ℤ × Bool
get_thread_id can_using_gettid tid self =
    if can_using_gettid
    then if not (tid == negsuc 0) then (tid, true) else (to_int32 self, false)
    else (to_int32 self, false)

-- Where the call works the thread has its id; where it fails once it is not made again.
get_thread_id_lem :
    (tid other : ℤ) (self : ℕ)
    → (tid ≢ negsuc 0 → get_thread_id true tid self ≡ (tid, true))
      × (get_thread_id true (negsuc 0) self ≡ (to_int32 self, false))
      × (get_thread_id false other self ≡ (to_int32 self, false))
unfolding get_thread_id
get_thread_id_lem tid other self = ((λ n. rw (beq-false tid (negsuc 0) n)), refl, refl)
