-- ===== src/Data/Flags/Tests.antt =====
-- The flags of a data object that was made read-only.
use module_flow.Prelude.{◌≡◌, true, false, arith}
use module_flow.Data.Flags.{flag, set_flag, readable, writeable, flag-set_flag-false}

flag-set_flag-false_example :
    (set_flag writeable false 1 ≡ 0) × (flag readable (set_flag writeable false 1) ≡ true)
flag-set_flag-false_example = flag-set_flag-false writeable readable 1 (omega arith) (omega arith)
