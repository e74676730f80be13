-- ===== src/Command/Pipeline.antt =====
-- CommandObject: its list of procedures, copies of it, and the count of the live objects of each
-- name. Names are lists of bytes. A procedure is what its functor, loop and flag are; the command
-- does not look into it.
pub mod Laws
mod Tests
use module_flow.Prelude.{
  increment, decrement, ℕ, zero, suc, ◌+◌, ◌-◌, ◌*◌, ◌≡◌, Bool, true, false, Option, none, some,
  List, [], ◌∷◌, ◌++◌, ◌==◌, nat_eq, int_eq, list_eq, if◌then◌else◌, ℤ, pos, negsuc, not, ltb_ℤ,
  length, to_int32,
}
use module_flow.Container.HashMap.{HashMap, valueref, insert_one}
use module_flow.Data.Json.{Bytes}
use module_flow.Command.Result.{CommandResult, no_data, success}

-- MFLOW_MAX_COMMAND_PROC_CNT
abbrev pub max_command_proc_cnt : ℕ
max_command_proc_cnt = 1024

-- "@undefined"
abbrev pub undefined_name : Bytes
undefined_name = b'@' ∷ b'u' ∷ b'n' ∷ b'd' ∷ b'e' ∷ b'f' ∷ b'i' ∷ b'n' ∷ b'e' ∷ b'd' ∷ []

-- "_copy"
abbrev pub copy_suffix : Bytes
copy_suffix = b'_' ∷ b'c' ∷ b'o' ∷ b'p' ∷ b'y' ∷ []

-- global_cmd_object_cnt
abbrev pub Counts : Type 0
Counts = HashMap Bytes ℤ

abbrev pub count_of : Counts → Bytes → ℤ
count_of c name = valueref c name (pos 0)

module _ (Procedure : Type 0) where
  -- `handler_` is the number of the result handler that was set.
  pub record CommandObject : Type 0 where
    pub name : Bytes
    pub handler_ : Option ℕ
    pub procedure_list_ : List Procedure

module _ {Procedure : Type 0} where
  -- The constructor; Object puts the name for undefined ones in the place of an empty name.
  unfoldable pub new_command : Bytes → Counts → CommandObject Procedure × Counts
  unfolding increment
  new_command name c =
      let n = if name == [] then undefined_name else name in
      (
        record { name = n; handler_ = none; procedure_list_ = [] },
        insert_one n (increment (count_of c n)) c,
      )

  -- The destructor.
  unfoldable pub delete_command : CommandObject Procedure → Counts → Counts
  unfolding decrement
  delete_command o c = insert_one o.name (decrement (count_of c o.name)) c

  -- start, report and finish, with the command as each leaves it: the result handler is not called, and
  -- nothing is deleted.
  unfoldable pub start :
      {D : Type 0} → Bool → CommandObject Procedure → CommandResult D × CommandObject Procedure
  start auto_delete o = (record { code_ = success; data_ = no_data }, o)

  unfoldable pub report :
      {D : Type 0} → CommandResult D → CommandObject Procedure → CommandObject Procedure
  report result o = o

  unfoldable pub finish :
      {D : Type 0} → CommandResult D → Bool → CommandObject Procedure → CommandObject Procedure
  finish result auto_delete o = o

  abbrev room : CommandObject Procedure → Bool
  room o = ltb_ℤ (to_int32 (length o.procedure_list_)) (pos (max_command_proc_cnt * 2))

  -- prependProc and appendProc return null, here false, where there is no room.
  unfoldable pub prepend_proc : Procedure → CommandObject Procedure → CommandObject Procedure × Bool
  unfolding to_int32
  prepend_proc p o =
      if room o then (record o { procedure_list_ = p ∷ o.procedure_list_ }, true) else (o, false)

  unfoldable pub append_proc : Procedure → CommandObject Procedure → CommandObject Procedure × Bool
  unfolding to_int32
  append_proc p o =
      if room o
      then (record o { procedure_list_ = o.procedure_list_ ++ p ∷ [] }, true)
      else (o, false)

  -- The loop of `clone`, which looks at no result of appendProc.
  unfoldable pub append_all : List Procedure → CommandObject Procedure → CommandObject Procedure
  unfolding append_proc
  append_all [] o = o
  append_all (p ∷ ps) o = append_all ps (append_proc p o).0

  unfoldable pub clone : CommandObject Procedure → Counts → CommandObject Procedure × Counts
  unfolding new_command append_all
  clone o c =
      let (copy, c') = new_command (o.name ++ copy_suffix) c in
      (append_all o.procedure_list_ copy, c')

  unfoldable pub set_result_handler : Option ℕ → CommandObject Procedure → CommandObject Procedure
  set_result_handler handler o = record o { handler_ = handler }

  -- The two forms of command::copy, for the command that the manager has under the name.
  unfoldable pub copy :
      Option (CommandObject Procedure) → Counts → Option (CommandObject Procedure) × Counts
  unfolding clone
  copy none c = (none, c)
  copy (some o) c = (some (clone o c).0, (clone o c).1)

  unfoldable pub copy_with :
      Option (CommandObject Procedure)
      → Option ℕ
      → Counts
      → Option (CommandObject Procedure) × Counts
  unfolding copy set_result_handler
  copy_with found handler c =
      let (o, c') = copy found c in
      (elim o [ none ↦ none | some o' ↦ some (set_result_handler handler o') ], c')
