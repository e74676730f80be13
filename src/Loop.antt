-- ===== src/Loop.antt =====
-- LoopObject of include/basic/loop_manager_def.h and namespace loop of
-- src/basic/loop_manager_impl.cpp. A loop is an object here; what a pool does is in ThreadPool.
pub mod Names
pub mod Default
pub mod Evpp
mod Tests
use module_flow.Prelude.{
  Bool, true, false, Option, none, some, ◌==◌, nat_eq, if◌then◌else◌, String, ◌||◌, not, ℤ, pos,
}
use module_flow.Object.Heap.{Addr, null, Cmd, pure, ◌>>=◌, new_object, Environment, plain}
use module_flow.Object.Manager.{get as manager_get, add}

pub data LoopEventType : Type 0 where
  loop_evpp loop_pool : LoopEventType

-- The constructor LoopObject(name), which calls the constructor of Object without a name.
unfoldable pub new_loop_object : String → Cmd Addr
new_loop_object name = new_object "" plain

-- What a LoopObject does where its class defines nothing else: `false` and 0 are the results of
-- isRunning, hasTask, start and stop, and of taskCount.
unfoldable pub submit_task : Addr → Cmd (Unit {0}) → Cmd (Unit {0})
submit_task this func = pure tt

unfoldable pub is_running : Addr → Cmd Bool
is_running this = pure false

unfoldable pub has_task : Addr → Cmd Bool
has_task this = pure false

unfoldable pub task_count : Addr → Cmd ℤ
task_count this = pure (pos 0)

unfoldable pub start : Addr → Cmd Bool
start this = pure false

unfoldable pub stop : Addr → Cmd Bool
stop this = pure false

unfoldable pub set_period_task : {Double : Type 0} → Addr → Cmd (Unit {0}) → Double → Cmd (Unit {0})
set_period_task this func period_ms = pure tt

module _ (mgr : Addr) where
  -- The static `nullobj`, made at its first use.
  unfoldable pub default_loop : Option Addr → Cmd (Addr × Option Addr)
  default_loop (some p) = pure (p, some p)
  default_loop none = do p ← new_loop_object ""; pure (p, some p)

  -- loop::get, with the static object before and after it.
  unfoldable pub get : String → Bool → Option Addr → Cmd (Addr × Option Addr)
  get name default_pool nullobj = do
    lobj ← manager_get mgr name
    if not (lobj == null) || not default_pool then pure (lobj, nullobj) else default_loop nullobj

  -- loop::create; a deletion is not asked for.
  unfoldable pub create : Environment → (Addr → Cmd (Unit {0})) → String → LoopEventType → Cmd Addr
  create env del name loop_evpp = pure null
  create env del name loop_pool = do
    newobj ← new_loop_object "mflow_global_thread_pool"
    added ← add env del mgr newobj false
    pure newobj
