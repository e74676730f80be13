-- ===== src/Loop/Evpp.antt =====
-- EvppLoopObject of include/framework/evppevent_loop.h and src/framework/evppevent_loop.cpp. What a
-- loop is besides, an object, is in Loop.
pub mod Library
pub mod Laws
mod Tests
use module_flow.Prelude.{
  ℕ, Bool, true, false, Option, none, some, List, [], ◌∷◌, if◌then◌else◌, ℤ, pos, ltb_ℤ,
}
use module_flow.Loop.Evpp.Library.{EvppLibrary}

-- The functions that are submitted: a client's, and the one with which `start` names the thread.
pub data Job : Type 0 where
  task : ℕ → Job
  set_thread_name : Job

module _ (v : EvppLibrary Job) where
  -- `event_thread_` is null for a loop that was made elsewhere.
  pub record EvppLoopObject : Type 0 where
    pub event_thread_ : Option v.EventLoopThread
    pub loop_ : v.EventLoop

  -- The two constructors.
  unfoldable pub new_evpp_loop : v.World → EvppLoopObject × v.World
  new_evpp_loop w =
      let (t, w') = v.new_thread w in
      (record { event_thread_ = some t; loop_ = v.thread_loop t w' }, w')

  unfoldable pub of_current_loop : v.EventLoop → EvppLoopObject
  of_current_loop current_loop = record { event_thread_ = none; loop_ = current_loop }

  unfoldable pub submit_task : EvppLoopObject → Job → v.World → v.World
  submit_task this func w = v.run_in_loop this.loop_ func w

  unfoldable pub is_running : EvppLoopObject → v.World → Bool
  is_running this w = v.loop_is_running this.loop_ w

  unfoldable pub task_count : EvppLoopObject → v.World → ℤ
  task_count this w = v.pending_functor_count this.loop_ w

  unfoldable pub has_task : EvppLoopObject → v.World → Bool
  unfolding task_count
  has_task this w = ltb_ℤ (pos 0) (task_count this w)

  -- `start` for a thread; `none` for an assertion of evpp that fails, here and below.
  unfoldable pub start_with : EvppLoopObject → v.EventLoopThread → v.World → Option (Bool × v.World)
  unfolding submit_task
  start_with this t w =
      if v.thread_is_running t w then some (true, w) else (elim (v.start_thread t w) [
        | none ↦ none
        | some (res, w') ↦ some (res, submit_task this set_thread_name w')
      ])

  unfoldable pub start : EvppLoopObject → v.World → Option (Bool × v.World)
  unfolding start_with
  start this w = elim this.event_thread_ [ none ↦ some (false, w) | some t ↦ start_with this t w ]

  -- `stop` for a thread.
  unfoldable pub stop_with :
      EvppLoopObject → v.EventLoopThread → v.World → Option (Bool × EvppLoopObject × v.World)
  stop_with this t w =
      if v.thread_is_running t w
      then (elim (v.stop_thread t w) [
        | none ↦ none
        | some w1 ↦
            let (l, w2) = v.new_loop w1 in
            some (true, record this { loop_ = l }, v.reset_loop t l w2)
      ])
      else some (true, this, w)

  unfoldable pub stop : EvppLoopObject → v.World → Option (Bool × EvppLoopObject × v.World)
  unfolding stop_with
  stop this w = elim this.event_thread_ [
    | none ↦ some (false, this, w)
    | some t ↦ stop_with this t w
  ]

  unfoldable pub run_after : EvppLoopObject → v.Double → Job → v.World → v.World
  run_after this delay_ms func w = v.run_after this.loop_ delay_ms func w

  -- The two statements of the destructor.
  unfoldable pub stop_if_running : EvppLoopObject → v.World → Option (EvppLoopObject × v.World)
  unfolding stop is_running
  stop_if_running this w =
      if is_running this w
      then (elim (stop this w) [ none ↦ none | some r ↦ some (r.1, r.2) ])
      else some (this, w)

  unfoldable pub delete_thread : EvppLoopObject → v.World → Option v.World
  delete_thread this w = elim this.event_thread_ [ none ↦ some w | some t ↦ v.delete_thread t w ]

  unfoldable pub destroy : EvppLoopObject → v.World → Option v.World
  unfolding stop_if_running delete_thread
  destroy this w = elim (stop_if_running this w) [
    | none ↦ none
    | some (this', w') ↦ delete_thread this' w'
  ]

  -- What a client may call in the life of a loop.
  pub data Call : Type 0 where
    call_start call_stop : Call
    call_submit : Job → Call
    call_run_after : v.Double → Job → Call

  unfoldable pub run_call : Call → EvppLoopObject × v.World → Option (EvppLoopObject × v.World)
  unfolding start stop submit_task run_after
  run_call call_start (this, w) = elim (start this w) [ none ↦ none | some r ↦ some (this, r.1) ]
  run_call call_stop (this, w) = elim (stop this w) [ none ↦ none | some r ↦ some (r.1, r.2) ]
  run_call (call_submit k) (this, w) = some (this, submit_task this k w)
  run_call (call_run_after d k) (this, w) = some (this, run_after this d k w)

  unfoldable pub run_calls :
      List Call → EvppLoopObject × v.World → Option (EvppLoopObject × v.World)
  unfolding run_call
  run_calls [] s = some s
  run_calls (c ∷ cs) s = elim (run_call c s) [ none ↦ none | some s' ↦ run_calls cs s' ]
