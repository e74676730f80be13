-- ===== src/Module.antt =====
-- Module of include/framework/module.h and src/framework/module.cpp: an object with a state, and the
-- signals that tell of it.
pub mod Adopt
pub mod Start
mod Tests
use module_flow.Prelude.{
  ℕ, Bool, Option, none, some, ◌==◌, nat_eq, if◌then◌else◌, String, string_eq, ◌++◌,
}
use module_flow.Object.Heap.{
  Addr, null, Task, delete_object, Object, Heap, done, fault, Cmd, pure, and_then, ◌>>=◌, ◌>>◌,
  load, modify, Environment, Derived, plain, manager, module_object, ModuleStateSignal, gonna_init,
  inited, gonna_idle, idle, deinit, deinited,
}
use module_flow.Object.Signals.{connect, disconnect_signal, delete_signal}
use module_flow.Object.Manager.{name}
use module_flow.Object.Destroy.{destroy, emit}

-- The number of a state, which is the signal that tells of it.
unfoldable pub signal_of : ModuleStateSignal → ℕ
signal_of gonna_init = 0x0110
signal_of inited = 0x0100
signal_of gonna_idle = 0x0111
signal_of idle = 0x0101
signal_of deinit = 0x0112
signal_of deinited = 0x0102

-- `state()`; an object of another class is no module.
unfoldable pub state : Addr → Cmd (Option ModuleStateSignal)
state this = do o ← load this; elim o.derived [ module_object s ↦ pure s | _ ↦ λ _. fault ]

-- `state_ = s`
unfoldable pub set_state : Addr → ModuleStateSignal → Cmd (Unit {0})
set_state this s = modify this (λ o. record o { derived = module_object (some s) })

-- adoptObject
unfoldable pub adopt_object : Addr → Addr → Cmd (Unit {0})
adopt_object this obj = connect this delete_signal obj (delete_object obj)

module _ (env : Environment) (fuel : ℕ) where
  -- `emit(state_ = s)`
  unfoldable pub emit_state : Addr → ModuleStateSignal → Cmd (Unit {0})
  emit_state this s = set_state this s >> emit env fuel this (signal_of s)

  -- What startToInit, startToIdle and startToDeinit have in common, the call of onInit included.
  unfoldable pub start_to : Addr → ModuleStateSignal → ModuleStateSignal → Cmd (Unit {0})
  start_to this going there = do
    emit_state this going
    env.on_init this
    key ← name env this
    entry ← env.entry_module key
    if entry == null then pure tt else emit_state this there

  unfoldable pub start_to_init : Addr → Cmd (Unit {0})
  start_to_init this = start_to this gonna_init inited

  unfoldable pub start_to_idle : Addr → Cmd (Unit {0})
  start_to_idle this = start_to this gonna_idle idle

  unfoldable pub start_to_deinit : Addr → Cmd (Unit {0})
  start_to_deinit this = start_to this deinit deinited

  -- abandonObject
  unfoldable pub abandon_object : Addr → Addr → Bool → Cmd (Unit {0})
  abandon_object this obj auto_delete = do
    disconnect_signal this delete_signal obj
    if auto_delete then destroy env fuel obj else pure tt
