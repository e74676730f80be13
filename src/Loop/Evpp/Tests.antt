-- ===== src/Loop/Evpp/Tests.antt =====
-- An instance of the library for one thread: loops are numbers, and the world knows which of them runs in
-- the std::thread, if there is one.
use module_flow.Prelude.{
  ℕ, suc, ◌+◌, Bool, true, false, none, some, ◌==◌, nat_eq, if◌then◌else◌, ◌&&◌, pos,
}
use module_flow.Loop.Evpp.Library.{EvppLibrary}
use module_flow.Loop.Evpp.{Job, EvppLoopObject}

record Loops : Type 0 where
  has_thread : Bool
  loop : ℕ
  runs : ℕ → Bool
  pending : ℕ → ℕ
  next : ℕ

-- A function with another value at one place.
abbrev at : {A : Type 0} → (ℕ → A) → ℕ → A → ℕ → A
at f k x i = if k == i then x else f i

abbrev loops : EvppLibrary Job
loops = record {
  World = Loops;
  EventLoop = ℕ;
  EventLoopThread = Unit;
  Double = ℕ;
  new_loop = λ w. (w.next, record w { runs = at w.runs w.next false; next = suc w.next });
  loop_is_running = λ l w. w.has_thread && w.runs l;
  pending_functor_count = λ l w. pos (w.pending l);
  run_in_loop = λ l k w. record w { pending = at w.pending l (w.pending l + 1) };
  run_after = λ l d k w. w;
  new_thread = λ w. (
    tt,
    record w {
      has_thread = false;
      loop = w.next;
      runs = at w.runs w.next false;
      next = suc w.next;
    },
  );
  delete_thread = λ t w. if w.has_thread && w.runs w.loop then none else some w;
  has_thread = λ t w. w.has_thread;
  thread_loop = λ t w. w.loop;
  thread_is_running = λ t w. w.has_thread && w.runs w.loop;
  start_thread = λ t w.
      if w.has_thread
      then none
      else some (true, record w { has_thread = true; runs = at w.runs w.loop true });
  stop_thread = λ t w.
      if w.has_thread && w.runs w.loop
      then some (record w { runs = at w.runs w.loop false })
      else none;
  reset_loop = λ t l w. record w { loop = l };
}

abbrev quiet : Loops
quiet = record { has_thread = false; loop = 0; runs = λ l. false; pending = λ l. 0; next = 10 }

-- The adapter and the world after a start and a task, and after a stop.
abbrev running_state : EvppLoopObject loops × Loops
running_state = (
  record { event_thread_ = some tt; loop_ = 10 },
  record quiet {
    has_thread = true;
    loop = 10;
    runs = at (at quiet.runs 10 false) 10 true;
    pending = at (at quiet.pending 10 1) 10 2;
    next = 11;
  },
)

abbrev stopped_state : EvppLoopObject loops × Loops
stopped_state = (
  record { event_thread_ = some tt; loop_ = 11 },
  record running_state.1 {
    loop = 11;
    runs = at (at running_state.1.runs 10 false) 11 false;
    next = 12;
  },
)
