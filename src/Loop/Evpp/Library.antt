-- ===== src/Loop/Evpp/Library.antt =====
-- What the adapter calls of evpp, a library that the program carries and does not implement. The
-- world is what evpp keeps of its loops and threads, as the thread sees it that calls the adapter,
-- which is no thread of a loop. `none` stands for an assertion of evpp that fails.
use module_flow.Prelude.{◌≡◌, Bool, true, false, Option, none, some, ℤ}

pub record EvppLibrary (Job : Type 0) : Type 1 where
  pub World : Type 0
  pub EventLoop : Type 0
  pub EventLoopThread : Type 0
  pub Double : Type 0
  -- new EventLoop
  pub new_loop : World → EventLoop × World
  pub loop_is_running : EventLoop → World → Bool
  pub pending_functor_count : EventLoop → World → ℤ
  pub run_in_loop : EventLoop → Job → World → World
  pub run_after : EventLoop → Double → Job → World → World
  -- new EventLoopThread, and delete
  pub new_thread : World → EventLoopThread × World
  pub delete_thread : EventLoopThread → World → Option World
  -- Whether an EventLoopThread has a std::thread, in its member thread_, that nobody joined.
  pub has_thread : EventLoopThread → World → Bool
  -- loop(), IsRunning(), Start(), Stop(), which does not wait, and event_loop_.reset(l)
  pub thread_loop : EventLoopThread → World → EventLoop
  pub thread_is_running : EventLoopThread → World → Bool
  pub start_thread : EventLoopThread → World → Option (Bool × World)
  pub stop_thread : EventLoopThread → World → Option World
  pub reset_loop : EventLoopThread → EventLoop → World → World

-- What evpp documents of them, as far as a theorem needs it.
pub record EvppLaws {Job : Type 0} (v : EvppLibrary Job) : Type 0 where
  -- A thread runs when its loop does.
  pub runs :
      (t : v.EventLoopThread) (w : v.World)
      → v.thread_is_running t w ≡ v.loop_is_running (v.thread_loop t w) w
  -- A thread keeps its loop until that is reset.
  pub start_loop :
      (t : v.EventLoopThread) (w w' : v.World) (b : Bool)
      → v.start_thread t w ≡ some (b, w')
      → v.thread_loop t w' ≡ v.thread_loop t w
  pub submit_loop :
      (t : v.EventLoopThread) (l : v.EventLoop) (k : Job) (w : v.World)
      → v.thread_loop t (v.run_in_loop l k w) ≡ v.thread_loop t w
  pub after_loop :
      (t : v.EventLoopThread) (l : v.EventLoop) (d : v.Double) (k : Job) (w : v.World)
      → v.thread_loop t (v.run_after l d k w) ≡ v.thread_loop t w
  pub reset_to :
      (t : v.EventLoopThread) (l : v.EventLoop) (w : v.World)
      → v.thread_loop t (v.reset_loop t l w) ≡ l
  -- Start() asserts that there is no std::thread yet, and is what makes one: nothing else runs the
  -- loop of an EventLoopThread.
  pub start_once :
      (t : v.EventLoopThread) (w : v.World) → v.has_thread t w ≡ true → v.start_thread t w ≡ none
  pub running_thread :
      (t : v.EventLoopThread) (w : v.World)
      → v.thread_is_running t w ≡ true
      → v.has_thread t w ≡ true
  -- Stop() that does not wait does not join, and loops have nothing to do with the std::thread.
  pub stop_keeps :
      (t : v.EventLoopThread) (w w' : v.World)
      → v.stop_thread t w ≡ some w'
      → v.has_thread t w' ≡ v.has_thread t w
  pub new_loop_keeps :
      (t : v.EventLoopThread) (w : v.World) → v.has_thread t (v.new_loop w).1 ≡ v.has_thread t w
  pub reset_keeps :
      (t : v.EventLoopThread) (l : v.EventLoop) (w : v.World)
      → v.has_thread t (v.reset_loop t l w) ≡ v.has_thread t w
  -- A new loop does not run, nor does a thread run that gets it.
  pub new_idle : (w : v.World) → v.loop_is_running (v.new_loop w).0 (v.new_loop w).1 ≡ false
  pub reset_running :
      (t : v.EventLoopThread) (l : v.EventLoop) (w : v.World)
      → v.loop_is_running l (v.reset_loop t l w) ≡ v.loop_is_running l w
