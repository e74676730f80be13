-- ===== src/Command/Register.antt =====
-- registerCommandObject of src/basic/cmd_manager_impl.cpp. A command is an object here, and the
-- module that is the context is looked at for null only.
use module_flow.Prelude.{
  ◌≡◌, refl, ◌∙◌, ap, Bool, true, false, ◌==◌, nat_eq, if◌then◌else◌, ◌||◌, not, String, string_eq,
  ◌≢◌, arith, Bool-cases, inl, inr, beq-false,
}
use module_flow.Container.HashMap.{HashMap, has, valueref}
use module_flow.Container.HashMap.Laws.{find-insert_one}
use module_flow.Object.Heap.{Addr, null, Object, Heap, done, Cmd, pure, ◌>>=◌, Environment}
use module_flow.Object.Returns.{Returns}
use module_flow.Object.Manager.{add, get}
use module_flow.Object.Manager.Laws.{
  Manages, Named, add_lem, registered, registered-Manages, get_lem,
}

module _ (env : Environment) (del : Addr → Cmd (Unit {0})) (mgr : Addr) where
  unfoldable pub register_command_object : Addr → Addr → Bool → Cmd Bool
  register_command_object context c delete_if_failed =
      if context == null || c == null then pure false else do
        added ← add env del mgr c delete_if_failed
        if added == null then pure false else pure true

  -- Without deletion, for a context, a command and a command manager: the result is whether the name
  -- of the command was free. If so the manager then finds it under its name and every other name as
  -- before; if not nothing changes. Without a context the result is false and nothing changes.
  pub register_command_object_lem :
      (h : Heap) (context c : Addr) (q o : Object) (m : HashMap String Addr)
      → Manages h mgr q m
      → Named h c o
      → mgr ≢ c
      → context ≢ null
      → (register_command_object null c false h ≡ done false h)
        × Returns (register_command_object context c false h) (λ r h'.
          (r ≡ not (has m o.name_))
          × (r ≡ false → h' ≡ h)
          × (r ≡ true
              → (k : String)
              → get mgr k h' ≡ done (if o.name_ == k then c else valueref m k null) h'))
  unfolding register_command_object
  register_command_object_lem h context c q o m g n ne nc = (
    refl,
    rw
        (
          beq-false context null nc,
          beq-false c null n.not_null,
          add_lem env del h mgr c false q o m g n ne,
        )
        (elim (Bool-cases (has m o.name_)) [
          | inl y ↦ rw y (refl, λ e. refl, λ e. cc)
          | inr z ↦
              rw (z, beq-false c null n.not_null)
                (
                  refl,
                  λ e. cc,
                  λ e k.
                      get_lem (registered env del h mgr q m c o) mgr _ _ k
                        (registered-Manages env del h mgr c q o m)
                      ∙ ap (λ a. done a (registered env del h mgr q m c o))
                          (unfold valueref in ground (arith, find-insert_one o.name_ k c m)),
                )
        ]),
  )
