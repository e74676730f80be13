-- ===== src/Data/TypedObject/Links.antt =====
-- What reading and writing through a link does.
use module_flow.Prelude.{
  ℕ, ◌≡◌, refl, ap, ◌∙◌, none, some, [], ◌∷◌, ◌==◌, nat_eq, if◌then◌else◌, ℤ, pos, arith, ◌≢◌,
  Bool-cases, inl, inr, nat_beq_iff, beq_self,
}
use module_flow.Container.HashMap.{has, find, insert_one, erase, valueref}
use module_flow.Object.Connections.{
  Observers, observers, slots, erase_signal, observers-add_action, observers-erase_signal,
}
use module_flow.Data.TypedObject.{
  DataTask, pull, push, source, validate, TypedObject, before_get, after_set, run_observers, emit,
  before_read, after_write, unlink, link_variable, link_functions, connect_self, assign,
}

-- Only the object itself observes this signal of its own.
abbrev pub OnlySelf : {T : Type 0} → ℕ → ℕ → TypedObject T → Type 0
OnlySelf this s o = (a : ℕ) → a ≢ this → find a (observers o.connections_ s) ≡ none

-- What a reader and a writer get from an object that is linked to variable p, whatever its value and
-- the variables have become in the meantime.
pub record IsLinked {T : Type 0} (this p : ℕ) (o : TypedObject T) : Type 0 where
  pub reads :
      (u : TypedObject T)
      → u.connections_ ≡ o.connections_
      → (before_read u).0.data_ ≡ u.variables p
  pub reads_ok : (u : TypedObject T) → u.connections_ ≡ o.connections_ → (before_read u).1 ≡ pos 0
  pub writes :
      (u : TypedObject T) (q : ℕ)
      → u.connections_ ≡ o.connections_
      → (after_write u).0.variables q ≡ (if p == q then u.data_ else u.variables q)
  pub writes_same :
      (u : TypedObject T) → u.connections_ ≡ o.connections_ → (after_write u).0.data_ ≡ u.data_
  pub again : OnlySelf this before_get o × OnlySelf this after_set o

-- The same for an object that is linked to a source and a validator.
pub record IsChecked {T : Type 0} (this : ℕ) (f : (ℕ → T) → T) (g : T → ℤ × T) (o : TypedObject T)
    : Type 0 where
  pub reads :
      (u : TypedObject T)
      → u.connections_ ≡ o.connections_
      → (before_read u).0.data_ ≡ f u.variables
  pub reports :
      (u : TypedObject T) → u.connections_ ≡ o.connections_ → (after_write u).1 ≡ (g u.data_).0
  pub corrects :
      (u : TypedObject T)
      → u.connections_ ≡ o.connections_
      → (after_write u).0.data_ ≡ (g u.data_).1
  pub again : OnlySelf this before_get o × OnlySelf this after_set o

module _ {T : Type 0} (this : ℕ) where
  erase_self :
      (m : Observers (DataTask T)) → ((a : ℕ) → a ≢ this → find a m ≡ none) → erase this m ≡ []
  unfolding erase find
  erase_self [] h = refl
  erase_self ((j, v) ∷ m) h = elim (Bool-cases (j == this)) [
    | inl y ↦ rw y (erase_self m λ a n. ground (arith, h a n, nat_beq_iff j a, nat_beq_iff j this))
    | inr z ↦ absurd (ground (arith, h j (λ e. ground (arith, nat_beq_iff j this)), beq_self j))
  ]

  emit_lem : (s : ℕ) (o : TypedObject T) → emit s o ≡ run_observers (observers o.connections_ s) o
  unfolding emit observers has valueref find run_observers
  emit_lem s o = ground arith

  observers-unlink :
      (o : TypedObject T)
      → OnlySelf this before_get o
      → OnlySelf this after_set o
      → (observers (unlink this o).connections_ before_get ≡ [])
        × (observers (unlink this o).connections_ after_set ≡ [])
  unfolding unlink
  observers-unlink o h k = (
    observers-erase_signal (erase_signal o.connections_ before_get this) after_set this before_get
        ∙ observers-erase_signal o.connections_ before_get this before_get
        ∙ erase_self (observers o.connections_ before_get) h,
    observers-erase_signal (erase_signal o.connections_ before_get this) after_set this after_set
        ∙ ap (erase this) (observers-erase_signal o.connections_ before_get this after_set)
        ∙ erase_self (observers o.connections_ after_set) k,
  )

  observers-connect_self :
      (s s' : ℕ) (t : DataTask T) (o : TypedObject T)
      → observers o.connections_ s ≡ []
      → observers (connect_self this s t o).connections_ s'
        ≡ (if s == s' then (this, t ∷ []) ∷ [] else observers o.connections_ s')
  unfolding connect_self slots find insert_one
  observers-connect_self s s' t o e = observers-add_action o.connections_ s this t s' ∙ rw e

  module _ (o : TypedObject T) (h : OnlySelf this before_get o)
      (k : OnlySelf this after_set o) where
    linked : DataTask T → DataTask T → TypedObject T
    linked t u = connect_self this after_set u (connect_self this before_get t (unlink this o))

    reads_table :
        (t u : DataTask T) → observers (linked t u).connections_ before_get ≡ (this, t ∷ []) ∷ []
    unfolding linked
    reads_table t u =
        observers-connect_self after_set before_get u
          (connect_self this before_get t (unlink this o))
          (observers-connect_self before_get after_set t (unlink this o) (observers-unlink o h k).0
            ∙ (observers-unlink o h k).1)
        ∙ observers-connect_self before_get before_get t (unlink this o) (observers-unlink o h k).0

    writes_table :
        (t u : DataTask T) → observers (linked t u).connections_ after_set ≡ (this, u ∷ []) ∷ []
    unfolding linked
    writes_table t u =
        observers-connect_self after_set after_set u
          (connect_self this before_get t (unlink this o))
          (observers-connect_self before_get after_set t (unlink this o) (observers-unlink o h k).0
            ∙ (observers-unlink o h k).1)

    own_table :
        (s : ℕ) (t : DataTask T) (p : TypedObject T)
        → observers p.connections_ s ≡ (this, t ∷ []) ∷ []
        → OnlySelf this s p
    own_table s t p e a n = rw e (unfold find in ground (arith, nat_beq_iff this a))

    -- An object that no other observes for reading and writing is linked by `link` to a variable,
    -- whatever it was linked to before: whatever happens to its value and to the variables, reading
    -- takes the value of the variable and reports 0, and writing stores the value in that variable
    -- and in no other, and keeps the value. The object can be linked anew in the same way.
    pub link_variable-IsLinked : (p : ℕ) → IsLinked this p (link_variable this (some p) o)
    unfolding link_variable linked before_read after_write run_observers assign
    link_variable-IsLinked p = record {
      reads = λ o'' e.
          rw (emit_lem before_get (record o'' { ctrl_ = pos 0 }), e, reads_table (pull p) (push p));
      reads_ok = λ o'' e.
          rw (emit_lem before_get (record o'' { ctrl_ = pos 0 }), e, reads_table (pull p) (push p));
      writes = λ o'' q e. rw (emit_lem after_set o'', e, writes_table (pull p) (push p));
      writes_same = λ o'' e. rw (emit_lem after_set o'', e, writes_table (pull p) (push p));
      again = (
        own_table before_get (pull p) (linked (pull p) (push p)) (reads_table (pull p) (push p)),
        own_table after_set (push p) (linked (pull p) (push p)) (writes_table (pull p) (push p)),
      );
    }

    -- In the same way `link` to a source and a validator makes reading take the value of the source,
    -- and writing report the code of the validator and keep the value as the validator leaves it.
    pub link_functions-IsChecked :
        (f : (ℕ → T) → T) (g : T → ℤ × T)
        → IsChecked this f g (link_functions this (some f) (some g) o)
    unfolding link_functions linked before_read after_write run_observers
    link_functions-IsChecked f g = record {
      reads = λ o'' e. rw (
        emit_lem before_get (record o'' { ctrl_ = pos 0 }),
        e,
        reads_table (source f) (validate g),
      );
      reports = λ o'' e. rw (emit_lem after_set o'', e, writes_table (source f) (validate g));
      corrects = λ o'' e. rw (emit_lem after_set o'', e, writes_table (source f) (validate g));
      again = (
        own_table before_get (source f) (linked (source f) (validate g))
            (reads_table (source f) (validate g)),
        own_table after_set (validate g) (linked (source f) (validate g))
            (writes_table (source f) (validate g)),
      );
    }
