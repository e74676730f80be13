-- ===== src/Object/Creator.antt =====
-- Creator of include/basic/object.h, a map of functions with the same arguments and result. `null_result`
-- is (RetT)(NULL). An entry may be an empty function, which throws when it is called.
use module_flow.Prelude.{
  ◌≡◌, refl, Option, none, some, if◌then◌else◌, ◌==◌, String, string_eq, Bool-cases, Option-cases,
  inl, inr,
}
use module_flow.Container.HashMap.{HashMap, has, find, valueref, insert_one}
use module_flow.Container.HashMap.Laws.{find-insert_one}

abbrev pub Creator : Type 0 → Type 0 → Type 0
Creator A R = HashMap String (Option (A → R))

module _ {A R : Type 0} (null_result : R) where
  abbrev call : Option (A → R) → A → Option R
  call none args = none
  call (some f) args = some (f args)

  -- exec(key, args...), `none` for an exception
  unfoldable pub exec : Creator A R → String → A → Option R
  exec m key args = if has m key then call (valueref m key none) args else some null_result

  abbrev answer : Option (Option (A → R)) → A → Option R
  answer none args = some null_result
  answer (some f) args = call f args

  exec_lem :
      (m : Creator A R) (key : String) (args : A) → exec m key args ≡ answer (find key m) args
  unfolding exec has valueref
  exec_lem m key args = elim (Option-cases (find key m)) [
    | inl e ↦ rw (e, has, valueref) refl
    | inr (f, e) ↦ rw (e, has, valueref) refl
  ]

  -- After a function was entered under a name, exec calls it under that name, and does what it did
  -- before under all others.
  exec-insert_one :
      (m : Creator A R) (k key : String) (f : A → R) (args : A)
      → exec (insert_one k (some f) m) key args
        ≡ (if k == key then some (f args) else exec m key args)
  exec-insert_one m k key f args =
      rw
        (
          exec_lem (insert_one k (some f) m) key args,
          exec_lem m key args,
          find-insert_one k key (some f) m,
        )
        (elim (Bool-cases (k == key)) [ inl y ↦ rw y | inr n ↦ rw n ])
