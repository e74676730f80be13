-- ===== src/Command/Pipeline/Tests.antt =====
-- A command of two procedures, which are numbers here.
use module_flow.Prelude.{
  increment, ℕ, ◌*◌, ◌<◌, ◌≡◌, true, false, none, [], ◌∷◌, ◌++◌, list_eq, nat_eq, pos, length,
  arith, ◌⊎◌,
}
use module_flow.Container.HashMap.{insert_one}
use module_flow.Data.Json.{Bytes}
use module_flow.Command.Pipeline.{
  max_command_proc_cnt, copy_suffix, Counts, count_of, CommandObject, prepend_proc, append_proc,
  clone,
}
use module_flow.Command.Pipeline.Laws.{IsBounded, proc_bounds, clone_lem}

abbrev start : Bytes
start = b'g' ∷ b'o' ∷ []

abbrev command : CommandObject ℕ
command = record { name = start; handler_ = none; procedure_list_ = 1 ∷ 2 ∷ [] }

abbrev counts : Counts
counts = (start, pos 1) ∷ []

proc_bounds_example :
    ((length command.procedure_list_ < max_command_proc_cnt * 2)
      × IsBounded (prepend_proc 7 command).0
      × IsBounded (append_proc 7 command).0
      × (prepend_proc 7 command
          ≡ (record command { procedure_list_ = 7 ∷ command.procedure_list_ }, true))
      × (append_proc 7 command
          ≡ (record command { procedure_list_ = command.procedure_list_ ++ 7 ∷ [] }, true)))
    ⊎ ((length command.procedure_list_ ≡ max_command_proc_cnt * 2)
        × (prepend_proc 7 command ≡ (command, false))
        × (append_proc 7 command ≡ (command, false)))
proc_bounds_example = proc_bounds 7 command (omega arith)

clone_lem_example : clone command counts ≡ (
  record { name = start ++ copy_suffix; handler_ = none; procedure_list_ = 1 ∷ 2 ∷ [] },
  insert_one (start ++ copy_suffix) (increment (count_of counts (start ++ copy_suffix))) counts,
)
clone_lem_example = clone_lem command counts (omega arith)
