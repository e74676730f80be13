-- ===== src/Object/Signals.antt =====
-- Object of src/basic/object.cpp: parents, names, connect, disconnect and emit. A destructor that a
-- task runs is the argument `del`, which Object/Destroy.antt ties to itself.
use module_flow.Prelude.{ℕ, Bool, List, [], ◌∷◌, ◌==◌, nat_eq, if◌then◌else◌, string_eq, ◌&&◌, not}
use module_flow.Container.HashMap.{has}
use module_flow.Object.Connections.{
  Observers, observers, has_connection as has_entry, add_action, erase_signal, erase_observer,
}
use module_flow.Object.Heap.{
  Addr, null, Task, slot, drop, delete_object, done, Cmd, pure, ◌>>=◌, ◌>>◌, load, modify,
  Environment,
}

-- Object::Signal
abbrev pub delete_signal : ℕ
delete_signal = 0x00ff

unfoldable pub parent : Addr → Cmd Addr
unfolding load
parent this = do o ← load this; pure o.parent_

unfoldable pub set_parent : Addr → Addr → Cmd (Unit {0})
unfolding modify
set_parent this p = modify this (λ o. record o { parent_ = p })

-- hasConnection(signal, observer)
unfoldable pub has_connection : Addr → ℕ → Addr → Cmd Bool
unfolding load
has_connection this signal observer = do
  o ← load this
  pure (has_entry o.connections_ signal observer)

-- The first half of `connect`.
unfoldable pub add_connection : Addr → ℕ → Addr → Task → Cmd (Unit {0})
unfolding modify
add_connection this signal observer action =
    modify this (λ o. record o { connections_ = add_action o.connections_ signal observer action })

-- `connect`. The two calls that it makes of itself are for DELETE, where its own test fails, so
-- each is the first half alone.
unfoldable pub connect : Addr → ℕ → Addr → Task → Cmd (Unit {0})
unfolding add_connection
connect this signal observer action = do
  add_connection this signal observer action
  if not (observer == null) && (not (observer == this) && not (signal == delete_signal))
      then add_connection observer delete_signal this (drop this observer)
        >> add_connection this delete_signal observer (drop observer this)
      else pure tt

-- `disconnect(signal, observer)`
unfoldable pub disconnect_signal : Addr → ℕ → Addr → Cmd (Unit {0})
unfolding modify
disconnect_signal this signal observer =
    modify this (λ o. record o { connections_ = erase_signal o.connections_ signal observer })

-- `disconnect(observer)`
unfoldable pub disconnect : Addr → Addr → Cmd (Unit {0})
unfolding modify
disconnect this observer =
    modify this (λ o. record o { connections_ = erase_observer observer o.connections_ })

module _ (env : Environment) (del : Addr → Cmd (Unit {0})) where
  log : ℕ → Cmd (Unit {0})
  log k h = done tt (record h { calls = k ∷ h.calls })

  unfoldable pub run_task : Task → Cmd (Unit {0})
  unfolding disconnect log
  run_task (slot k) = log k >> env.callback k
  run_task (drop s o) = disconnect s o
  run_task (delete_object x) = del x

  unfoldable pub run_tasks : List Task → Cmd (Unit {0})
  unfolding run_task
  run_tasks [] = pure tt
  run_tasks (t ∷ ts) = run_task t >> run_tasks ts

  -- The two nested loops of `emit`, over its copy of the observers.
  unfoldable pub run_observers : Observers Task → Cmd (Unit {0})
  unfolding run_tasks
  run_observers [] = pure tt
  run_observers ((observer, ts) ∷ m) = run_tasks ts >> run_observers m

  unfoldable pub emit_with : Addr → ℕ → Cmd (Unit {0})
  unfolding load run_observers
  emit_with this signal = do
    o ← load this
    if not (has o.connections_ signal)
        then pure tt
        else run_observers (observers o.connections_ signal)
