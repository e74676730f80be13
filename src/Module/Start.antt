-- ===== src/Module/Start.antt =====
-- What startToInit, startToIdle and startToDeinit do to a module that only clients observe, with
-- slots that leave the objects alone.
use module_flow.Prelude.{
  ℕ, ◌≡◌, refl, ◌∙◌, Option, some, ◌==◌, nat_eq, string_eq, String, if◌then◌else◌, ◌≢◌, inl, inr,
  Bool-cases, beq-false,
}
use module_flow.Object.Connections.{observers}
use module_flow.Object.Heap.{
  Addr, null, Object, Heap, done, write, Environment, module_object, ModuleStateSignal, gonna_init,
  inited, gonna_idle, idle, deinit, deinited, undefined_object_name,
}
use module_flow.Object.Returns.{Returns, load_lem, modify_lem, write_self, write-other}
use module_flow.Object.Emission.{OnlySlots, log_table, emit_with_lem}
use module_flow.Object.Manager.{name}
use module_flow.Object.Destroy.{destroy, emit}
use module_flow.Module.{
  signal_of, set_state, emit_state, start_to, start_to_init, start_to_idle, start_to_deinit,
}

-- Clients' functions that leave the store alone.
pub record IsQuiet (env : Environment) (this : Addr) (key : String) (entry : Addr) : Type 0 where
  pub callback : (k : ℕ) (h : Heap) → env.callback k h ≡ done tt h
  pub on_init : (h : Heap) → env.on_init this h ≡ done tt h
  pub entry_module : (h : Heap) → env.entry_module key h ≡ done entry h

-- What a start leaves: the first state and its slots, and, where the entry point has a module, the
-- second state and its slots after them.
pub record Started (h : Heap) (this : Addr) (o : Object) (entry : Addr)
    (going there : ModuleStateSignal) (h' : Heap) : Type 0 where
  pub state_stored :
      h'.cell this
      ≡ some (record o { derived = module_object (some (if entry == null then going else there)) })
  pub others : (a : Addr) → this ≢ a → h'.cell a ≡ h.cell a
  pub called : h'.calls ≡ (
      if entry == null
      then log_table (observers o.connections_ (signal_of going)) h.calls
      else log_table
          (observers o.connections_ (signal_of there))
          (log_table (observers o.connections_ (signal_of going)) h.calls))

module _ (env : Environment) (fuel : ℕ) (this : Addr) (key : String) (entry : Addr)
    (quiet : IsQuiet env this key entry) where
  -- The store after a state and its signal.
  abbrev told : Heap → Object → ModuleStateSignal → Heap
  told h o s = record h {
    cell = write h.cell this (some (record o { derived = module_object (some s) }));
    calls = log_table (observers o.connections_ (signal_of s)) h.calls;
  }

  emit_state_lem :
      (h : Heap) (o : Object) (s : ModuleStateSignal)
      → h.cell this ≡ some o
      → OnlySlots (observers o.connections_ (signal_of s))
      → emit_state env fuel this s h ≡ done tt (told h o s)
  unfolding emit_state set_state emit
  emit_state_lem h o s e a =
      let o1 : Object = record o { derived = module_object (some s) } in
      rw
        (
          modify_lem this (λ o. record o { derived = module_object (some s) }) h o e,
          emit_with_lem env (destroy env fuel) quiet.callback
              (record h { cell = write h.cell this (some o1) }) this o1 (signal_of s)
              (write_self h.cell this _) a,
        )
        refl

  module _ (h : Heap) (o : Object) (s : Option ModuleStateSignal) (stands : h.cell this ≡ some o)
      (kind : o.derived ≡ module_object s) (named : o.name_ ≡ key)
      (defined : key ≢ undefined_object_name)
      (slots : (t : ModuleStateSignal) → OnlySlots (observers o.connections_ (signal_of t))) where
    name_told :
        (going : ModuleStateSignal) → name env this (told h o going) ≡ done key (told h o going)
    unfolding name
    name_told going = rw (
      load_lem this (told h o going) (record o { derived = module_object (some going) })
          (write_self h.cell this _),
      named,
      beq-false key undefined_object_name defined,
    )

    start_to_lem :
        (going there : ModuleStateSignal)
        → Returns
            (start_to env fuel this going there h)
            (λ _ h'. Started h this o entry going there h')
    unfolding start_to
    start_to_lem going there =
        rw
          (
            emit_state_lem h o going stands (slots going),
            quiet.on_init (told h o going),
            name_told going,
            quiet.entry_module (told h o going),
          )
          (elim (Bool-cases (entry == null)) [
            | inl y ↦ rw y (record {
              state_stored = rw y (write_self h.cell this _);
              others = λ a n. write-other h.cell this a _ n;
              called = rw y;
            })
            | inr n ↦
                rw
                  (
                    n,
                    emit_state_lem (told h o going)
                        (record o { derived = module_object (some going) }) there
                        (write_self h.cell this _) (slots there),
                  )
                  (record {
                    state_stored = rw n (write_self _ this _);
                    others = λ a m. write-other _ this a _ m ∙ write-other h.cell this a _ m;
                    called = rw n;
                  })
          ])

    -- For a module with a name, whose state signals have slots of clients only, and clients that
    -- leave the store alone: startToInit, startToIdle and startToDeinit return. Each stores its first
    -- state and calls the slots for it in order, and, if the entry point has a module of that name,
    -- then stores its second state and calls the slots for that; no other object changes.
    pub start-Started :
        Returns
          (start_to_init env fuel this h)
          (λ _ h'. Started h this o entry gonna_init inited h')
        × Returns
            (start_to_idle env fuel this h)
            (λ _ h'. Started h this o entry gonna_idle idle h')
        × Returns
            (start_to_deinit env fuel this h)
            (λ _ h'. Started h this o entry deinit deinited h')
    unfolding start_to_init start_to_idle start_to_deinit
    start-Started =
        (start_to_lem gonna_init inited, start_to_lem gonna_idle idle, start_to_lem deinit deinited)
