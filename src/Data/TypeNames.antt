-- ===== src/Data/TypeNames.antt =====
-- The names of types: _t_demangle and MetaType of include/basic/base.h, and dataTypeName of the
-- classes of data objects. `cxa_demangle` is abi::__cxa_demangle: the text that it allocates, `none`
-- for a null pointer, and the status.
use module_flow.Prelude.{
  ◌≡◌, refl, Option, none, some, ◌==◌, int_eq, if◌then◌else◌, not, ℤ, pos, ◌≢◌, beq-false, String,
  Bool-cases, inl, inr,
}
use module_flow.Object.Heap.{undefined_object_name}

abbrev or_name : Option String → String → String
or_name none name = name
or_name (some s) name = s

module _ (cxa_demangle : String → Option String × ℤ) where
  unfoldable pub t_demangle : String → String
  t_demangle name =
      let (demangled, status) = cxa_demangle name in
      if not (status == pos 0) then name else or_name demangled name

  -- typeInfoName and typeName, of a type whose typeid(T).name() is this.
  unfoldable pub type_info_name : String → String
  type_info_name info = info

  unfoldable pub type_name : String → String
  unfolding t_demangle type_info_name
  type_name info = t_demangle (type_info_name info)

  -- A DataObject that is no TDataObject, or a TDataObject<T>; `void` is such a T too.
  pub data ObjectType : Type 0 where
    untyped : ObjectType
    typed : String → ObjectType

  unfoldable pub data_type_name : ObjectType → String
  unfolding type_name
  data_type_name untyped = undefined_object_name
  data_type_name (typed info) = type_name info

  -- The name is the demangled one exactly where the library succeeds and gives one.
  t_demangle_lem :
      (name s : String) (status : ℤ)
      → (cxa_demangle name ≡ (some s, pos 0) → t_demangle name ≡ s)
        × (cxa_demangle name ≡ (none, status) → t_demangle name ≡ name)
        × (cxa_demangle name ≡ (some s, status) → status ≢ pos 0 → t_demangle name ≡ name)
  unfolding t_demangle
  t_demangle_lem name s status = (
    (λ e. rw e refl),
    (λ e. rw e (elim (Bool-cases (status == pos 0)) [ inl y ↦ rw y | inr n ↦ rw n ])),
    (λ e n. rw (e, beq-false status (pos 0) n) refl),
  )
