-- ===== src/Object/Manager/Fix.antt =====
-- What `fix` makes of the objects of a manager.
use module_flow.Prelude.{
  ◌≡◌, refl, sym, ◌∙◌, false, some, [], ◌∷◌, arith, nat_eq, ◌≢◌, String, nat_beq_iff, All,
}
use module_flow.Container.HashMap.{HashMap}
use module_flow.Object.Heap.{Addr, Object, Heap, write}
use module_flow.Object.Returns.{Returns, Returns-mono, modify_lem, write_self, write-other}
use module_flow.Object.Manager.{fix, fix_entries}
use module_flow.Object.Manager.Laws.{Manages, entries_lem, set_parent_lem}
use module_flow.Object.Linked.Children.{holds}

-- The entries show live objects, each of them another.
abbrev pub Held : Heap → HashMap String Addr → Type 0
Held h [] = Unit
Held h ((k, a) ∷ m) = (holds m a ≡ false) × ((o : Object) × (h.cell a ≡ some o)) × Held h m

-- The store after `fix`: each object has the key as name and the manager as parent.
pub record Fixed (h : Heap) (this : Addr) (m : HashMap String Addr) (h' : Heap) : Type 0 where
  pub entries :
      All
        (λ p.
          (o : Object) × (h.cell p.1 ≡ some o)
          × (h'.cell p.1 ≡ some (record o { name_ = p.0; parent_ = this })))
        m
  pub others : (a : Addr) → holds m a ≡ false → h'.cell a ≡ h.cell a
  pub quiet : h'.calls ≡ h.calls

module _ (this : Addr) where
  module _ (h : Heap) (k : String) (a : Addr) (o : Object) where
    -- The store after one round.
    named : Heap
    named = record h {
      cell =
          write (write h.cell a (some (record o { name_ = k }))) a
            (some (record o { name_ = k; parent_ = this }));
    }

    named-other : (b : Addr) → a ≢ b → named.cell b ≡ h.cell b
    unfolding named
    named-other b n = write-other _ a b _ n ∙ write-other h.cell a b _ n

    Held-later : (m : HashMap String Addr) → holds m a ≡ false → Held h m → Held named m
    Held-later [] n w = tt
    Held-later ((l, b) ∷ m) n (out, (p, e), w) = (
      out,
      (p, named-other b (λ q. ground (arith, nat_beq_iff b a)) ∙ e),
      Held-later m (ground arith) w,
    )

    entries-earlier :
        (m : HashMap String Addr) (h' : Heap)
        → holds m a ≡ false
        → All
            (λ p.
              (o' : Object) × (named.cell p.1 ≡ some o')
              × (h'.cell p.1 ≡ some (record o' { name_ = p.0; parent_ = this })))
            m
        → All
            (λ p.
              (o' : Object) × (h.cell p.1 ≡ some o')
              × (h'.cell p.1 ≡ some (record o' { name_ = p.0; parent_ = this })))
            m
    entries-earlier [] h' n w = tt
    entries-earlier ((l, b) ∷ m) h' n ((p, e, f), w) = (
      (p, sym (named-other b (λ q. ground (arith, nat_beq_iff b a))) ∙ e, f),
      entries-earlier m h' (ground arith) w,
    )

  fix_entries_lem :
      (h : Heap) (m : HashMap String Addr)
      → Held h m
      → Returns (fix_entries this m h) (λ _ h'. Fixed h this m h')
  unfolding fix_entries named
  fix_entries_lem h [] w = record { entries = tt; others = λ a n. refl; quiet = refl }
  fix_entries_lem h ((k, a) ∷ m) (out, (o, e), w) =
      rw
        (
          modify_lem a (λ p. record p { name_ = k }) h o e,
          set_parent_lem h1 a this (record o { name_ = k }) (write_self h.cell a _),
        )
        (Returns-mono (fix_entries this m h2) (λ _ h'. Fixed h2 this m h') _
          (fix_entries_lem h2 m (Held-later h k a o m out w))
          λ _ h' f. record {
            entries = ((o, e, f.others a out ∙ stands), entries-earlier h k a o m h' out f.entries);
            others = λ b n.
                f.others b (ground arith)
                ∙ named-other h k a o b (λ q. ground (arith, nat_beq_iff a b));
            quiet = f.quiet ∙ calls_same;
          })
    where
      h1 : Heap
      h1 = record h { cell = write h.cell a (some (record o { name_ = k })) }

      h2 : Heap
      h2 = named h k a o

      stands : h2.cell a ≡ some (record o { name_ = k; parent_ = this })
      stands = write_self _ a _

      calls_same : h2.calls ≡ h.calls
      calls_same = refl

  -- For a manager whose entries show live objects, each of them another, fix returns, and then every
  -- object that the manager holds has its key as name and the manager as parent, and is otherwise as
  -- before; all other objects are as before, and no slot was called.
  pub fix_lem :
      (h : Heap) (q : Object) (m : HashMap String Addr)
      → Manages h this q m
      → Held h m
      → Returns (fix this h) (λ _ h'. Fixed h this m h')
  unfolding fix
  fix_lem h q m g w = rw (entries_lem h this q m g) (fix_entries_lem h m w)
