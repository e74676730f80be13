-- ===== src/Loop/Evpp/Laws.antt =====
-- An adapter that made its own thread and one that was given a loop.
use module_flow.Prelude.{◌≡◌, refl, false, none, some, List, [], ◌∷◌, Bool-cases, inl, inr, Option}
use module_flow.Loop.Evpp.Library.{EvppLibrary, EvppLaws}
use module_flow.Loop.Evpp.{
  Job, EvppLoopObject, of_current_loop, submit_task, is_running, start, stop, run_after,
  stop_if_running, delete_thread, destroy, Call, call_start, call_stop, call_submit, call_run_after,
  run_call, run_calls,
}

-- What a result meets, where there is one.
abbrev Meets : {A : Type 0} → Option A → (A → Type 0) → Type 0
Meets none P = Unit
Meets (some a) P = P a

module _ (v : EvppLibrary Job) (laws : EvppLaws v) where
  -- The adapter has this thread, and `loop_` is the loop of the thread.
  pub record Owns (t : v.EventLoopThread) (s : EvppLoopObject v × v.World) : Type 0 where
    pub thread : s.0.event_thread_ ≡ some t
    pub loop : s.0.loop_ ≡ v.thread_loop t s.1

-- An adapter that was given a loop, after any calls: none fails, it keeps the loop and has no thread,
-- start and stop report false and leave the world alone, and the destructor leaves it alone too.
given_loop :
    (v : EvppLibrary Job) (l : v.EventLoop) (w : v.World) (cs : List (Call v))
    → (u : v.World) × (run_calls v cs (of_current_loop v l, w) ≡ some (of_current_loop v l, u))
      × (start v (of_current_loop v l) u ≡ some (false, u))
      × (stop v (of_current_loop v l) u ≡ some (false, of_current_loop v l, u))
      × (destroy v (of_current_loop v l) u ≡ some u)
unfolding run_calls run_call start stop of_current_loop submit_task run_after destroy
    stop_if_running delete_thread
given_loop v l w cs = let (u, e) = kept cs w in (u, e, refl, refl, untouched u)
  where
    kept :
        (ds : List (Call v)) (u : v.World)
        → (z : v.World) × (run_calls v ds (of_current_loop v l, u) ≡ some (of_current_loop v l, z))
    kept [] u = (u, refl)
    kept (call_start ∷ ds) u = kept ds u
    kept (call_stop ∷ ds) u = kept ds u
    kept (call_submit k ∷ ds) u = kept ds _
    kept (call_run_after d k ∷ ds) u = kept ds _

    untouched : (u : v.World) → destroy v (of_current_loop v l) u ≡ some u
    untouched u = elim (Bool-cases (is_running v (of_current_loop v l) u)) [
      | inl y ↦ rw (y, destroy, stop_if_running)
      | inr n ↦ rw (n, destroy, stop_if_running)
    ]
