-- ===== src/Object/Connections.antt =====
-- PrivateImpl::connections_ of src/basic/object.cpp: signal ↦ observer ↦ tasks, and what
-- hasConnection, connect and the two forms of disconnect do to it. Signals are compared and never
-- computed with; their codes are numbers. The type of a task is a parameter.
use module_flow.Prelude.{
  ℕ, ◌≡◌, refl, Bool, true, false, Option, none, some, List, [], ◌∷◌, ◌++◌, arith, ◌==◌, nat_eq,
  if◌then◌else◌, Bool-cases, inl, inr, ◌&&◌, not,
}
use module_flow.Container.HashMap.{HashMap, find, has, valueref, insert_one, erase}
use module_flow.Container.HashMap.Laws.{find-insert_one, find-erase, erase_idem}

abbrev pub Observers : Type 0 → Type 0
Observers T = HashMap ℕ (List T)

abbrev pub Connections : Type 0 → Type 0
Connections T = HashMap ℕ (Observers T)

module _ {T : Type 0} where
  -- `connections_[signal]` where there may be no entry.
  unfoldable pub observers : Connections T → ℕ → Observers T
  observers cs signal = valueref cs signal []

  unfoldable pub has_connection : Connections T → ℕ → ℕ → Bool
  unfolding observers
  has_connection cs signal observer = has cs signal && has (observers cs signal) observer

  -- The map that the three branches of `connect` leave.
  unfoldable pub add_action : Connections T → ℕ → ℕ → T → Connections T
  unfolding observers
  add_action cs signal observer action =
      let m = observers cs signal in
      if not (has cs signal)
      then insert_one signal ((observer, action ∷ []) ∷ []) cs
      else if not (has m observer)
      then insert_one signal (insert_one observer (action ∷ []) m) cs
      else insert_one signal (insert_one observer (valueref m observer [] ++ action ∷ []) m) cs

  -- `disconnect(signal, observer)`
  unfoldable pub erase_signal : Connections T → ℕ → ℕ → Connections T
  unfolding observers
  erase_signal cs signal observer =
      if has cs signal then insert_one signal (erase observer (observers cs signal)) cs else cs

  -- `disconnect(observer)`
  unfoldable pub erase_observer : ℕ → Connections T → Connections T
  erase_observer observer [] = []
  erase_observer observer ((s, m) ∷ cs) = (s, erase observer m) ∷ erase_observer observer cs

  -- The tasks of an observer for a signal, in the order in which they were connected.
  unfoldable pub slots : Connections T → ℕ → ℕ → Option (List T)
  unfolding observers
  slots cs signal observer = find observer (observers cs signal)

  abbrev pub tasks_of : Option (List T) → List T
  tasks_of none = []
  tasks_of (some ts) = ts

  abbrev pub is_some : Option (List T) → Bool
  is_some none = false
  is_some (some ts) = true

  pub has_connection-slots :
      (cs : Connections T) (s o : ℕ) → has_connection cs s o ≡ is_some (slots cs s o)
  unfolding has_connection slots has valueref find
  has_connection-slots cs s o = ground arith

  -- `connect` adds the task behind those of the same signal and observer, and nothing else.
  pub slots-add_action :
      (cs : Connections T) (s o : ℕ) (t : T) (s' o' : ℕ)
      → slots (add_action cs s o t) s' o'
        ≡ (if s == s' && o == o' then some (tasks_of (slots cs s o) ++ t ∷ []) else slots cs s' o')
  unfolding slots add_action has valueref
  slots-add_action cs s o t s' o' = ground (
    arith,
    find-insert_one s s' ((o, t ∷ []) ∷ []) cs,
    find-insert_one s s' (insert_one o (t ∷ []) (observers cs s)) cs,
    find-insert_one s s' (insert_one o (valueref (observers cs s) o [] ++ t ∷ []) (observers cs s))
        cs,
    find-insert_one o o' (t ∷ []) (observers cs s),
    find-insert_one o o' (valueref (observers cs s) o [] ++ t ∷ []) (observers cs s),
  )

  pub slots-erase_signal :
      (cs : Connections T) (s o s' o' : ℕ)
      → slots (erase_signal cs s o) s' o' ≡ (if s == s' && o == o' then none else slots cs s' o')
  unfolding slots erase_signal has valueref find
  slots-erase_signal cs s o s' o' =
      ground (
        arith,
        find-insert_one s s' (erase o (observers cs s)) cs,
        find-erase o o' (observers cs s),
      )

  pub observers-erase_observer :
      (o : ℕ) (cs : Connections T) (s : ℕ)
      → observers (erase_observer o cs) s ≡ erase o (observers cs s)
  unfolding observers erase_observer valueref find
  observers-erase_observer o [] s = unfold erase in refl
  observers-erase_observer o ((j, m) ∷ cs) s = elim (Bool-cases (j == s)) [
    | inl q ↦ ground arith
    | inr q ↦ ground (arith, observers-erase_observer o cs s)
  ]

  pub slots-erase_observer :
      (o : ℕ) (cs : Connections T) (s o' : ℕ)
      → slots (erase_observer o cs) s o' ≡ (if o == o' then none else slots cs s o')
  unfolding slots
  slots-erase_observer o cs s o' =
      ground (arith, observers-erase_observer o cs s, find-erase o o' (observers cs s))

  pub erase_observer_idem :
      (o : ℕ) (cs : Connections T) → erase_observer o (erase_observer o cs) ≡ erase_observer o cs
  unfolding erase_observer
  erase_observer_idem o [] = refl
  erase_observer_idem o ((j, m) ∷ cs) = ground (arith, erase_idem o m, erase_observer_idem o cs)

  pub observers-add_action :
      (cs : Connections T) (s o : ℕ) (t : T) (s' : ℕ)
      → observers (add_action cs s o t) s' ≡ (
          if s == s'
          then insert_one o (tasks_of (slots cs s o) ++ t ∷ []) (observers cs s)
          else observers cs s')
  unfolding slots observers add_action has valueref find
  observers-add_action cs s o t s' = elim (Bool-cases (s == s')) [
    | inl q ↦ ground (
      arith,
      find-insert_one s s' ((o, t ∷ []) ∷ []) cs,
      find-insert_one s s' (insert_one o (t ∷ []) (observers cs s)) cs,
      find-insert_one s s'
          (insert_one o (valueref (observers cs s) o [] ++ t ∷ []) (observers cs s)) cs,
      empty_lem,
    )
    | inr n ↦ ground (
      arith,
      find-insert_one s s' ((o, t ∷ []) ∷ []) cs,
      find-insert_one s s' (insert_one o (t ∷ []) (observers cs s)) cs,
      find-insert_one s s'
          (insert_one o (valueref (observers cs s) o [] ++ t ∷ []) (observers cs s)) cs,
    )
  ]
    where
      empty_lem : insert_one o (t ∷ []) [] ≡ (o, t ∷ []) ∷ []
      empty_lem = unfold insert_one in refl

  pub observers-erase_signal :
      (cs : Connections T) (s o s' : ℕ)
      → observers (erase_signal cs s o) s'
        ≡ (if s == s' then erase o (observers cs s) else observers cs s')
  unfolding observers erase_signal has valueref find erase
  observers-erase_signal cs s o s' =
      ground (arith, find-insert_one s s' (erase o (observers cs s)) cs)
