-- ===== src/Command/Pipeline/Laws.antt =====
-- Copies, the bound on procedures, and the counts.
use module_flow.Prelude.{
  increment, decrement, zero, suc, ◌+◌, ◌*◌, ◌<◌, ◌≤◌, ◌≡◌, refl, ap, ◌∙◌, true, false, none, List,
  [], ◌∷◌, ◌++◌, ◌==◌, nat_eq, int_eq, if◌then◌else◌, ℤ, pos, negsuc, list_eq, length,
  length-append, to_int32_small, append_assoc, append-nil, arith, list_beq_iff, Bool-cases, inl,
  inr, ◌⊎◌, ltb, lt→ltb,
}
use module_flow.Container.HashMap.{valueref, insert_one}
use module_flow.Container.HashMap.Laws.{find-insert_one}
use module_flow.Data.Json.{Bytes}
use module_flow.Command.Pipeline.{
  max_command_proc_cnt, undefined_name, copy_suffix, Counts, count_of, CommandObject, new_command,
  delete_command, room, prepend_proc, append_proc, append_all, clone,
}

count_of-insert :
    (c : Counts) (k l : Bytes) (v : ℤ)
    → count_of (insert_one k v c) l ≡ (if k == l then v else count_of c l)
unfolding valueref
count_of-insert c k l v = ground (arith, find-insert_one k l v c)

decrement-increment : (n : ℤ) → decrement (increment n) ≡ n
unfolding decrement increment
decrement-increment (pos n) = refl
decrement-increment (negsuc zero) = refl
decrement-increment (negsuc (suc n)) = refl

copy_name-ne-nil : (n : Bytes) → (list_eq.beq (n ++ copy_suffix) []) ≡ false
copy_name-ne-nil [] = refl
copy_name-ne-nil (x ∷ n) = refl

-- What the constructor and then the destructor make of the counts, for the name that the object got.
count_back :
    (n : Bytes) (c : Counts) (k : Bytes)
    → let c' = insert_one n (increment (count_of c n)) c in
      (count_of c' k ≡ (if n == k then increment (count_of c k) else count_of c k))
      × (count_of (insert_one n (decrement (count_of c' n)) c') k ≡ count_of c k)
count_back n c k =
    let c' = insert_one n (increment (count_of c n)) c in
    ground (
      arith,
      count_of-insert c n k (increment (count_of c n)),
      count_of-insert c n n (increment (count_of c n)),
      count_of-insert c' n k (decrement (count_of c' n)),
      decrement-increment (count_of c n),
      list_beq_iff n k,
      list_beq_iff n n,
    )

module _ {Procedure : Type 0} where
  -- The list of procedures is within its bound.
  abbrev pub IsBounded : CommandObject Procedure → Type 0
  IsBounded o = length o.procedure_list_ ≤ max_command_proc_cnt * 2

  room_lem :
      (o : CommandObject Procedure)
      → IsBounded o
      → room o ≡ ltb (length o.procedure_list_) (max_command_proc_cnt * 2)
  room_lem o b = rw (to_int32_small (length o.procedure_list_) (omega arith))

  prepend_lem :
      (p : Procedure) (o : CommandObject Procedure)
      → IsBounded o
      → prepend_proc p o ≡ (
          if ltb (length o.procedure_list_) (max_command_proc_cnt * 2)
          then (record o { procedure_list_ = p ∷ o.procedure_list_ }, true)
          else (o, false))
  unfolding prepend_proc
  prepend_lem p o b = rw (to_int32_small (length o.procedure_list_) (omega arith))

  append_lem :
      (p : Procedure) (o : CommandObject Procedure)
      → IsBounded o
      → append_proc p o ≡ (
          if ltb (length o.procedure_list_) (max_command_proc_cnt * 2)
          then (record o { procedure_list_ = o.procedure_list_ ++ p ∷ [] }, true)
          else (o, false))
  unfolding append_proc
  append_lem p o b = rw (to_int32_small (length o.procedure_list_) (omega arith))

  -- For a command whose list is within its bound of 2048: where the list is not full, prependProc and
  -- appendProc succeed, add the procedure at the front or at the end, change nothing else, and keep the
  -- list within its bound; where it is full, they fail and change nothing.
  pub proc_bounds :
      (p : Procedure) (o : CommandObject Procedure)
      → IsBounded o
      → ((length o.procedure_list_ < max_command_proc_cnt * 2)
          × IsBounded (prepend_proc p o).0
          × IsBounded (append_proc p o).0
          × (prepend_proc p o ≡ (record o { procedure_list_ = p ∷ o.procedure_list_ }, true))
          × (append_proc p o ≡ (record o { procedure_list_ = o.procedure_list_ ++ p ∷ [] }, true)))
        ⊎ ((length o.procedure_list_ ≡ max_command_proc_cnt * 2)
            × (prepend_proc p o ≡ (o, false))
            × (append_proc p o ≡ (o, false)))
  proc_bounds p o b =
      rw (prepend_lem p o b, append_lem p o b)
        (elim (Bool-cases (ltb (length o.procedure_list_) (max_command_proc_cnt * 2))) [
          | inl y ↦ rw y (
              inl (
                ground arith,
                ground arith,
                ground (arith, length-append o.procedure_list_ (p ∷ [])),
                refl,
                refl,
              ))
          | inr n ↦ rw n (inr (ground arith, refl, refl))
        ])

  append_all-lem :
      (ps : List Procedure) (o : CommandObject Procedure)
      → length o.procedure_list_ + length ps ≤ max_command_proc_cnt * 2
      → append_all ps o ≡ record o { procedure_list_ = o.procedure_list_ ++ ps }
  unfolding append_all
  append_all-lem [] o h = rw (append-nil o.procedure_list_)
  append_all-lem (p ∷ ps) o h =
      rw
        (
          append_lem p o (omega arith),
          lt→ltb (length o.procedure_list_) (max_command_proc_cnt * 2) (omega arith),
        )
        (append_all-lem ps (record o { procedure_list_ = o.procedure_list_ ++ p ∷ [] })
            (omega (arith, length-append o.procedure_list_ (p ∷ [])))
          ∙ ap (λ (l : List Procedure). record o { procedure_list_ = l })
              (append_assoc o.procedure_list_ (p ∷ []) ps))

  -- A copy of a command within its bound has all of its procedures, in their order, and the name of
  -- the command with `_copy` behind it; it has no result handler. It is counted under its own name.
  pub clone_lem :
      (o : CommandObject Procedure) (c : Counts)
      → IsBounded o
      → clone o c ≡ (
        record {
          name = o.name ++ copy_suffix;
          handler_ = none;
          procedure_list_ = o.procedure_list_;
        },
        insert_one (o.name ++ copy_suffix) (increment (count_of c (o.name ++ copy_suffix))) c,
      )
  unfolding clone new_command
  clone_lem o c b = rw (
    copy_name-ne-nil o.name,
    append_all-lem o.procedure_list_
        (record { name = o.name ++ copy_suffix; handler_ = none; procedure_list_ = [] })
        (omega arith),
  )

-- Making a command changes the count of its name alone, and its end restores every count.
delete_command-new_command :
    (Procedure : Type 0) (name : Bytes) (c : Counts) (k : Bytes)
    → let (o, c') = new_command {Procedure = Procedure} name c in
      (count_of c' k ≡ (if o.name == k then increment (count_of c k) else count_of c k))
      × (count_of (delete_command o c') k ≡ count_of c k)
unfolding new_command delete_command
delete_command-new_command Procedure name c k =
    count_back (if name == [] then undefined_name else name) c k
