-- ===== src/Data/TypedObject.antt =====
-- TDataObject<T> of include/basic/data_manager_def.h: a value with its flags and its links to a
-- variable of the client or to a pair of functions. The slots of other observers are numbers; they
-- are recorded when they are called, and leave this object and the variables alone.
pub mod Links
mod Tests
use module_flow.Prelude.{
  ℕ, suc, ◌≡◌, Bool, true, false, Option, none, some, List, [], ◌∷◌, ◌++◌, ◌==◌, nat_eq,
  if◌then◌else◌, ℤ, pos, negsuc, not,
}
use module_flow.Container.HashMap.{HashMap, has}
use module_flow.Object.Connections.{Connections, Observers, observers, add_action, erase_signal}
use module_flow.Data.Flags.{set_flag, writeable, initial_flags}

-- DataObject::Signal
abbrev pub changed : ℕ
changed = 0x0200

abbrev pub before_get : ℕ
before_get = 0x0201

abbrev pub after_set : ℕ
after_set = 0x0202

module _ (T : Type 0) where
  -- `pull p` and `push p` copy from and to the variable p of the client; `source` and `validate` are
  -- the two functions that the second form of `link` takes, of which the validator may change the
  -- value that it is given.
  pub data DataTask : Type 0 where
    slot : ℕ → DataTask
    pull : ℕ → DataTask
    push : ℕ → DataTask
    source : ((ℕ → T) → T) → DataTask
    validate : (T → ℤ × T) → DataTask

  -- The object, with the client's variables and the calls of other slots, the latest first.
  pub record TypedObject : Type 0 where
    pub connections_ : Connections DataTask
    pub flags_ : ℕ
    pub ctrl_ : ℤ
    pub data_ : T
    pub variables : ℕ → T
    pub calls : List ℕ

module _ {T : Type 0} where
  unfoldable pub assign : (ℕ → T) → ℕ → T → ℕ → T
  assign f p v q = if p == q then v else f q

  -- get() and set() of TemplateDataInterface
  unfoldable pub get : TypedObject T → T
  get o = o.data_

  unfoldable pub set : T → TypedObject T → TypedObject T
  set v o = record o { data_ = v }

  unfoldable pub run_task : DataTask T → TypedObject T → TypedObject T
  unfolding set get assign
  run_task (slot k) o = record o { calls = k ∷ o.calls }
  run_task (pull p) o = set (o.variables p) o
  run_task (push p) o = record o { variables = assign o.variables p (get o) }
  run_task (source f) o = set (f o.variables) o
  run_task (validate f) o = record o { ctrl_ = (f o.data_).0; data_ = (f o.data_).1 }

  unfoldable pub run_tasks : List (DataTask T) → TypedObject T → TypedObject T
  unfolding run_task
  run_tasks [] o = o
  run_tasks (t ∷ ts) o = run_tasks ts (run_task t o)

  unfoldable pub run_observers : Observers (DataTask T) → TypedObject T → TypedObject T
  unfolding run_tasks
  run_observers [] o = o
  run_observers ((observer, ts) ∷ m) o = run_observers m (run_tasks ts o)

  -- Object::emit, for these slots
  unfoldable pub emit : ℕ → TypedObject T → TypedObject T
  unfolding run_observers
  emit signal o =
      if not (has o.connections_ signal)
      then o
      else run_observers (observers o.connections_ signal) o

  unfoldable pub before_read : TypedObject T → TypedObject T × ℤ
  unfolding emit
  before_read o = let o' = emit before_get (record o { ctrl_ = pos 0 }) in (o', o'.ctrl_)

  unfoldable pub after_write : TypedObject T → TypedObject T × ℤ
  unfolding emit
  after_write o = let o' = emit after_set o in (o', o'.ctrl_)

  unfoldable pub readonly : TypedObject T → TypedObject T
  readonly o = record o { flags_ = set_flag writeable false o.flags_ }

  unfoldable pub update : TypedObject T → TypedObject T
  unfolding emit
  update o = emit changed o

  unfoldable pub update_with : T → TypedObject T → TypedObject T
  unfolding set update
  update_with v o = update (set v o)

  module _ (this : ℕ) where
    unfoldable pub connect_self : ℕ → DataTask T → TypedObject T → TypedObject T
    connect_self signal t o = record o { connections_ = add_action o.connections_ signal this t }

    -- The first two statements of both forms of `link`.
    unfoldable pub unlink : TypedObject T → TypedObject T
    unlink o = record o {
      connections_ = erase_signal (erase_signal o.connections_ before_get this) after_set this;
    }

    -- link(DataType*), `none` for a null pointer
    unfoldable pub link_variable : Option ℕ → TypedObject T → TypedObject T
    unfolding unlink connect_self
    link_variable none o = unlink o
    link_variable (some p) o =
        connect_self after_set (push p) (connect_self before_get (pull p) (unlink o))

    abbrev pub connect_source : Option ((ℕ → T) → T) → TypedObject T → TypedObject T
    connect_source none o = o
    connect_source (some f) o = connect_self before_get (source f) o

    abbrev pub connect_validator : Option (T → ℤ × T) → TypedObject T → TypedObject T
    connect_validator none o = o
    connect_validator (some f) o = connect_self after_set (validate f) o

    -- link(SourceFunction, ValidatorFunction), `none` for a function that is not given
    unfoldable pub link_functions :
        Option ((ℕ → T) → T) → Option (T → ℤ × T) → TypedObject T → TypedObject T
    unfolding unlink connect_self
    link_functions from to o = connect_validator to (connect_source from (unlink o))
