-- ===== src/Command/Data/Laws.antt =====
-- What a command finds of the data that was set.
use module_flow.Prelude.{
  ℕ, suc, ◌≡◌, refl, true, false, none, ◌==◌, nat_eq, if◌then◌else◌, ◌≢◌, beq-false, Bool-cases,
  inl, inr, String, string_eq, not,
}
use module_flow.Container.HashMap.{HashMap, has, find}
use module_flow.Container.HashMap.Laws.{find-insert_one}
use module_flow.Object.Heap.{Addr, null, Object, Heap, done, fault, Environment}
use module_flow.Object.Returns.{Returns}
use module_flow.Object.Manager.Laws.{Manages}
use module_flow.Object.Linked.Create.{Fresh}
use module_flow.Command.Data.{get_data_or, set_data}
use module_flow.Command.Data.Reads.{get_data-Holds, get_data-missing}
use module_flow.Data.Create.{Values, kept_name}
use module_flow.Data.Create.Laws.{
  Holds, add_new_lem, dropped, entered, put, dropped-Manages, dropped-Holds, entered-Holds,
  entered-new, taken_differs, entered-Manages,
}

module _ {V : Type 0} (mgr_ : Addr) where
  module _ (env : Environment) (f : ℕ) (h : Heap) (q : Object) (m : HashMap String Addr)
      (values : Values V) (g : Manages h mgr_ q m) (fresh : Fresh h) where
    -- The store where the new object was refused or added, and the values.
    abbrev refused : String → Heap
    refused = dropped mgr_ env f h q m values g fresh

    abbrev accepted : String → Heap
    accepted = entered mgr_ env f h q m values g fresh

    abbrev kept : V → Values V
    kept = put mgr_ env f h q m values g fresh

    set_data_lem :
        (name : String) (d : V)
        → set_data mgr_ env (suc f) name d values h ≡ (
            if has m (kept_name name)
            then done (false, kept d) (refused name)
            else done (true, kept d) (accepted name))
    unfolding set_data
    set_data_lem name d =
        rw (add_new_lem mgr_ env f h q m values g fresh name d)
          (elim (Bool-cases (has m (kept_name name))) [
            | inl y ↦ rw y
            | inr n ↦ rw n (rw (beq-false h.next null fresh.next_ne_null) refl)
          ])

    -- The data that is found after set_data: the new value, under the name that the object keeps, if
    -- that was free, and all that was found before, each with the type that it was set with.
    pub set_data-get_data :
        (type_of : V → ℕ) (name : String) (d : V)
        → Returns (set_data mgr_ env (suc f) name d values h) (λ r h'.
          (r.0 ≡ not (has m (kept_name name)))
          × ((T : ℕ) (v : V)
              → r.0 ≡ true
              → get_data_or type_of mgr_ T (kept_name name) v r.1 h'
                ≡ (if type_of d == T then done (d, true) h' else fault))
          × ((T : ℕ) (k : String) (v w : V)
              → Holds h values m k w
              → get_data_or type_of mgr_ T k v r.1 h'
                ≡ (if type_of w == T then done (w, true) h' else fault))
          × ((T : ℕ) (k : String) (v : V)
              → find k m ≡ none
              → kept_name name ≢ k
              → get_data_or type_of mgr_ T k v r.1 h' ≡ done (v, false) h'))
    set_data-get_data type_of name d =
        rw (set_data_lem name d) (elim (Bool-cases (has m (kept_name name))) [
          | inl y ↦ rw y (
            refl,
            (λ T v e. cc),
            (λ T k v w x.
                get_data-Holds type_of mgr_ (refused name) q m T k v w (kept d)
                  (dropped-Manages mgr_ env f h q m values g fresh name)
                  (dropped-Holds mgr_ env f h q m values g fresh name k d w x)),
            (λ T k v e n.
                get_data-missing type_of mgr_ (refused name) q m T k v (kept d)
                  (dropped-Manages mgr_ env f h q m values g fresh name) e),
          )
          | inr z ↦ rw z (
            refl,
            (λ T v e.
                get_data-Holds type_of mgr_ (accepted name) _ _ T (kept_name name) v d (kept d)
                  (entered-Manages mgr_ env f h q m values g fresh name)
                  (entered-new mgr_ env f h q m values g fresh name d)),
            (λ T k v w x.
                get_data-Holds type_of mgr_ (accepted name) _ _ T k v w (kept d)
                  (entered-Manages mgr_ env f h q m values g fresh name)
                  (entered-Holds mgr_ env f h q m values g fresh name k d w
                    (λ e. taken_differs mgr_ env f h q m values g fresh name k w x z e) x)),
            (λ T k v e n.
                get_data-missing type_of mgr_ (accepted name) _ _ T k v (kept d)
                  (entered-Manages mgr_ env f h q m values g fresh name)
                  (rw (find-insert_one (kept_name name) k h.next m, beq-false (kept_name name) k n)
                    e)),
          )
        ])
