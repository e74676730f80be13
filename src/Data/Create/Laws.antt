-- ===== src/Data/Create/Laws.antt =====
-- A data object that is made and added to a manager.
use module_flow.Prelude.{
  ℕ, suc, ◌≡◌, refl, sym, ◌∙◌, true, false, Option, none, some, arith, ◌==◌, nat_eq, if◌then◌else◌,
  ◌≢◌, beq-false, beq_self, Bool-cases, inl, inr, String, string_eq,
}
use module_flow.Container.HashMap.{HashMap, has, find, insert_one}
use module_flow.Container.HashMap.Laws.{find-insert_one}
use module_flow.Object.Heap.{
  Addr, null, Object, Heap, done, Environment, write, new_object, manager,
}
use module_flow.Object.Returns.{Returns, write_self, write-other}
use module_flow.Object.Manager.Laws.{Manages, add_lem, registered, registered-Manages}
use module_flow.Object.Destroy.{destroy}
use module_flow.Object.Linked.Create.{Fresh}
use module_flow.Object.Linked.Childless.{new_plain, destroy-new_plain}
use module_flow.Data.Create.{Values, kept_name, put_value, add_new, create}

write_live :
    (c : Addr → Option Object) (p a : Addr) (x o : Object)
    → c a ≡ some o
    → (o' : Object) × (write c p (some x) a ≡ some o')
unfolding write
write_live c p a x o e = elim (Bool-cases (p == a)) [ inl y ↦ (x, rw y refl) | inr n ↦ (o, rw n e) ]

module _ {V : Type 0} where
  -- Under the name `k` stands a live data object with the value `w`.
  pub record Holds (h : Heap) (values : Values V) (m : HashMap String Addr) (k : String) (w : V)
      : Type 0 where
    pub address : Addr
    pub object : Object
    pub entry : find k m ≡ some address
    pub not_null : address ≢ null
    pub stands : h.cell address ≡ some object
    pub value : values address ≡ some w

module _ {V : Type 0} (mgr_ : Addr) where
  module _ (env : Environment) (f : ℕ) (h : Heap) (q : Object) (m : HashMap String Addr)
      (values : Values V) (g : Manages h mgr_ q m) (fresh : Fresh h) where
    -- The store with the new object, and the one in which it is gone again.
    made : String → Heap
    made name = record h {
      cell = write h.cell h.next (some (new_plain (kept_name name)));
      next = suc h.next;
    }

    pub dropped : String → Heap
    dropped name = record (made name) {
      cell = write (write (made name).cell h.next (some (new_plain (kept_name name)))) h.next none;
    }

    pub entered : String → Heap
    entered name =
        registered env (destroy env (suc f)) (made name) mgr_ q m h.next
          (new_plain (kept_name name))

    apart : h.next ≢ mgr_
    apart e = ground (arith, fresh.unused, g.stands, e)

    made-Manages : (name : String) → Manages (made name) mgr_ q m
    unfolding made
    made-Manages name = record {
      stands = write-other h.cell h.next mgr_ _ apart ∙ g.stands;
      kind = g.kind;
    }

    made-stands : (name : String) → (made name).cell h.next ≡ some (new_plain (kept_name name))
    unfolding made
    made-stands name = write_self h.cell h.next _

    pub dropped-Manages : (name : String) → Manages (dropped name) mgr_ q m
    unfolding dropped
    dropped-Manages name = record {
      stands =
          write-other _ h.next mgr_ none apart
          ∙ write-other _ h.next mgr_ _ apart
          ∙ (made-Manages name).stands;
      kind = g.kind;
    }

    pub add_new_lem :
        (name : String) (d : V)
        → add_new mgr_ env (suc f) name d values h ≡ (
            if has m (kept_name name)
            then done (null, put_value h.next d values) (dropped name)
            else done (h.next, put_value h.next d values) (entered name))
    unfolding add_new new_object made dropped entered
    add_new_lem name d =
        rw
          (add_lem env (destroy env (suc f)) (made name) mgr_ h.next true q
            (new_plain (kept_name name)) m (made-Manages name)
            (record {
              stands = made-stands name;
              not_null = fresh.next_ne_null;
              no_module = λ s e. cc;
            })
            (λ e. apart (sym e)))
          (elim (Bool-cases (has m (kept_name name))) [
            | inl y ↦
                rw
                  (
                    y,
                    destroy-new_plain env f (made name) h.next (kept_name name) (made-stands name)
                        fresh.next_ne_null,
                  )
                  refl
            | inr n ↦ rw n refl
          ])

    abbrev pub put : V → Values V
    put d = put_value h.next d values

    put-other :
        (d : V) (a : Addr) (o : Object) → h.cell a ≡ some o → (h.next ≢ a) × (put d a ≡ values a)
    unfolding put_value
    put-other d a o e =
        let ne : h.next ≢ a = λ q. ground (arith, fresh.unused, e, q) in
        (ne, rw (beq-false h.next a ne))

    pub dropped-Holds :
        (name k : String) (d w : V) → Holds h values m k w → Holds (dropped name) (put d) m k w
    unfolding dropped made
    dropped-Holds name k d w x =
        let (ne, same) = put-other d x.address x.object x.stands in
        record {
          address = x.address;
          object = x.object;
          entry = x.entry;
          not_null = x.not_null;
          stands =
              write-other _ h.next x.address none ne
              ∙ write-other _ h.next x.address _ ne
              ∙ write-other h.cell h.next x.address _ ne
              ∙ x.stands;
          value = same ∙ x.value;
        }

    pub entered-Holds :
        (name k : String) (d w : V)
        → kept_name name ≢ k
        → Holds h values m k w
        → Holds (entered name) (put d) (insert_one (kept_name name) h.next m) k w
    unfolding entered made registered
    entered-Holds name k d w n x =
        let (ne, same) = put-other d x.address x.object x.stands in
        let made_stands =
          write-other h.cell h.next x.address (some (new_plain (kept_name name))) ne ∙ x.stands in
        let linked_stands =
          write_live (made name).cell h.next x.address
            (record (new_plain (kept_name name)) { parent_ = mgr_ }) x.object made_stands in
        let (o, stands) =
          write_live _ mgr_ x.address
            (record q { derived = manager (insert_one (kept_name name) h.next m) }) linked_stands.0
            linked_stands.1 in
        record {
          address = x.address;
          object = o;
          entry =
              rw (find-insert_one (kept_name name) k h.next m, beq-false (kept_name name) k n)
                x.entry;
          not_null = x.not_null;
          stands = stands;
          value = same ∙ x.value;
        }

    pub entered-new :
        (name : String) (d : V)
        → Holds (entered name) (put d) (insert_one (kept_name name) h.next m) (kept_name name) d
    unfolding entered made registered put_value
    entered-new name d = record {
      address = h.next;
      object = record (new_plain (kept_name name)) { parent_ = mgr_ };
      entry =
          rw (find-insert_one (kept_name name) (kept_name name) h.next m, beq_self (kept_name name))
            refl;
      not_null = fresh.next_ne_null;
      stands = write-other _ mgr_ h.next _ (λ e. apart (sym e)) ∙ write_self _ h.next _;
      value = rw (beq_self h.next);
    }

    -- What is held has a name that is not free.
    pub taken_differs :
        (name k : String) (w : V)
        → Holds h values m k w
        → has m (kept_name name) ≡ false
        → kept_name name ≢ k
    unfolding has
    taken_differs name k w x z e = ground (arith, x.entry)

    pub entered-Manages :
        (name : String)
        → Manages
            (entered name)
            mgr_
            (record q { derived = manager (insert_one (kept_name name) h.next m) })
            (insert_one (kept_name name) h.next m)
    unfolding entered
    entered-Manages name =
        registered-Manages env (destroy env (suc f)) (made name) mgr_ h.next q
          (new_plain (kept_name name)) m

    -- After `create` the data objects that were held are held as before. If the name that the object
    -- keeps was free, the result is not null, the manager has it under that name, with the value, and
    -- has the other names as before. If the name was not free, the result is null, and the manager
    -- has what it had.
    pub create-Holds :
        (name : String) (d : V)
        → Returns (create mgr_ env (suc f) name d values h) (λ r h'.
          (q' : Object) × (m' : HashMap String Addr) × Manages h' mgr_ q' m'
          × ((k : String) (w : V) → Holds h values m k w → Holds h' r.1 m' k w)
          × (if has m (kept_name name)
              then (r.0 ≡ null) × (m' ≡ m)
              else (r.0 ≢ null)
                × (find (kept_name name) m' ≡ some r.0)
                × (r.1 r.0 ≡ some d)
                × ((k : String) → kept_name name ≢ k → find k m' ≡ find k m)))
    unfolding create put_value
    create-Holds name d = rw (add_new_lem name d) (elim (Bool-cases (has m (kept_name name))) [
      | inl y ↦
          rw y (q, m, dropped-Manages name, (λ k w x. dropped-Holds name k d w x), (refl, refl))
      | inr z ↦ rw z (
        record q { derived = manager (insert_one (kept_name name) h.next m) },
        insert_one (kept_name name) h.next m,
        entered-Manages name,
        (λ k w x. entered-Holds name k d w (λ e. taken_differs name k w x z e) x),
        (
          fresh.next_ne_null,
          rw (find-insert_one (kept_name name) (kept_name name) h.next m, beq_self (kept_name name))
              refl,
          rw (beq_self h.next) refl,
          λ k n.
              rw (find-insert_one (kept_name name) k h.next m, beq-false (kept_name name) k n) refl,
        ),
      )
    ])
