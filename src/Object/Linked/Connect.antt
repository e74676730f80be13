-- ===== src/Object/Linked/Connect.antt =====
-- `connect` among linked objects.
use module_flow.Prelude.{
  ℕ, ◌≡◌, refl, sym, ap, ◌∙◌, true, false, some, [], ◌∷◌, ◌++◌, arith, ◌==◌, nat_eq, ◌&&◌, ◌||◌,
  if◌then◌else◌, ◌≢◌, ◌⊎◌, beq-false, beq_self, Bool-cases, inl, inr, nat_beq_iff, not, string_eq,
}
use module_flow.Container.HashMap.{insert_one}
use module_flow.Object.Connections.{tasks_of, observers, observers-add_action}
use module_flow.Object.Heap.{Addr, null, Task, drop, Heap, done, ◌>>◌}
use module_flow.Object.Returns.{Returns, Returns-and_then, Returns-mono}
use module_flow.Object.Signals.{delete_signal, add_connection, connect}
use module_flow.Object.Linked.Defs.{links, is_live, slots_at, connected, Linked}
use module_flow.Object.Linked.Added.{
  Added, add_connection-Added, Added-slots, Added-connected, Added-hooks_other, Added-hooks_delete,
}

-- What `connect` leaves: the task behind those that were there, the other slots of signals other
-- than DELETE as before, the same objects alive, and a linked heap.
pub record Connected (h : Heap) (a : Addr) (s : ℕ) (o : Addr) (t : Task) (h' : Heap) : Type 0 where
  pub added : slots_at h'.cell a s o ≡ some (tasks_of (slots_at h.cell a s o) ++ t ∷ [])
  pub kept :
      (a' : Addr) (s' : ℕ) (o' : Addr)
      → s' ≢ delete_signal
      → (a == a' && (s == s' && o == o')) ≡ false
      → slots_at h'.cell a' s' o' ≡ slots_at h.cell a' s' o'
  -- The table of the signal, in the order in which it is called.
  pub table :
      observers (links (h'.cell a)) s
      ≡ insert_one o (tasks_of (slots_at h.cell a s o) ++ t ∷ []) (observers (links (h.cell a)) s)
  pub alive : (b : Addr) → is_live (h'.cell b) ≡ is_live (h.cell b)
  pub linked : Linked h'.cell
  pub quiet : h'.calls ≡ h.calls

module _ (h : Heap) (a : Addr) (s : ℕ) (o : Addr) (t : Task) (l : Linked h.cell)
    (ns : s ≢ delete_signal) where
  Added-table :
      (h' : Heap)
      → Added h a s o t h'
      → observers (links (h'.cell a)) s
        ≡ insert_one o (tasks_of (slots_at h.cell a s o) ++ t ∷ []) (observers (links (h.cell a)) s)
  Added-table h' d = rw (d.there, observers-add_action (links (h.cell a)) s o t s, beq_self s) refl

  -- No hooks where the observer is null or the object itself.
  alone : (h' : Heap) → (o ≡ null) ⊎ (o ≡ a) → Added h a s o t h' → Connected h a s o t h'
  alone h' w d = record {
    added = ground (arith, Added-slots h a s o t h' d a s o, beq_self a, beq_self s, beq_self o);
    kept = λ a' s' o' n e. ground (arith, Added-slots h a s o t h' d a' s' o');
    table = Added-table h' d;
    alive = d.alive;
    quiet = d.quiet;
    linked = record {
      no_null = d.alive null ∙ l.no_null;
      hooked = λ a' o' s' e n m. ground (
        arith,
        w,
        Added-connected h a s o t h' d a' s' o',
        Added-connected h a s o t h' d a' delete_signal o',
        l.hooked a' o' s',
      );
      back = λ a' o' e. ground (
        arith,
        Added-connected h a s o t h' d a' delete_signal o',
        Added-connected h a s o t h' d o' delete_signal a',
        l.back a' o',
      );
      hooks = Added-hooks_other h a s o t h' d ns l.hooks;
    };
  }

  -- The three changes for an observer that is another object.
  tied :
      (h1 h2 h3 : Heap)
      → a ≢ o
      → Added h a s o t h1
      → Added h1 o delete_signal a (drop a o) h2
      → Added h2 a delete_signal o (drop o a) h3
      → Connected h a s o t h3
  tied h1 h2 h3 n d1 d2 d3 = record {
    added = ground (
      arith,
      beq_self a,
      beq_self s,
      beq_self o,
      Added-slots h a s o t h1 d1 a s o,
      Added-slots h1 o delete_signal a (drop a o) h2 d2 a s o,
      Added-slots h2 a delete_signal o (drop o a) h3 d3 a s o,
    );
    kept = λ a' s' o' ns' e. ground (
      arith,
      Added-slots h a s o t h1 d1 a' s' o',
      Added-slots h1 o delete_signal a (drop a o) h2 d2 a' s' o',
      Added-slots h2 a delete_signal o (drop o a) h3 d3 a' s' o',
    );
    table =
        rw
          (
            d3.there,
            observers-add_action (links (h2.cell a)) delete_signal o (drop o a) s,
            beq-false delete_signal s (λ e. ns (sym e)),
            d2.elsewhere a (λ e. n (sym e)),
          )
          (Added-table h1 d1);
    alive = λ b. d3.alive b ∙ d2.alive b ∙ d1.alive b;
    quiet = d3.quiet ∙ d2.quiet ∙ d1.quiet;
    linked = record {
      no_null = d3.alive null ∙ d2.alive null ∙ d1.alive null ∙ l.no_null;
      hooked = λ a' o' s' e n' m.
          ground (arith, con a' s' o', con a' delete_signal o', l.hooked a' o' s');
      back =
          λ a' o' e. ground (arith, con a' delete_signal o', con o' delete_signal a', l.back a' o');
      hooks =
          Added-hooks_delete h2 a o h3 d3 (λ e. n (sym e))
            (Added-hooks_delete h1 o a h2 d2 n (Added-hooks_other h a s o t h1 d1 ns l.hooks));
    };
  }
    where
      con :
          (a' : Addr) (s' : ℕ) (o' : Addr)
          → connected h3.cell a' s' o' ≡ (
              (a == a' && (delete_signal == s' && o == o'))
              || ((o == a' && (delete_signal == s' && a == o'))
                  || ((a == a' && (s == s' && o == o')) || connected h.cell a' s' o')))
      con a' s' o' =
          Added-connected h2 a delete_signal o (drop o a) h3 d3 a' s' o'
          ∙ ap (λ b. (a == a' && (delete_signal == s' && o == o')) || b)
              (Added-connected h1 o delete_signal a (drop a o) h2 d2 a' s' o'
                ∙ ap (λ b. (o == a' && (delete_signal == s' && a == o')) || b)
                    (Added-connected h a s o t h1 d1 a' s' o'))

  -- On a signal other than DELETE, `connect` returns where the object is alive and the observer is
  -- alive or null. The task stands behind those of the same signal and observer, no other slot of
  -- such a signal changes, and the heap stays linked.
  pub connect-Connected :
      is_live (h.cell a) ≡ true
      → (o ≡ null) ⊎ (is_live (h.cell o) ≡ true)
      → Returns (connect a s o t h) (λ _. Connected h a s o t)
  unfolding connect
  connect-Connected la lo =
      Returns-and_then (add_connection a s o t h) _ (λ _. Added h a s o t) _
        (add_connection-Added h a s o t la) λ _ h1 d1. next h1 d1
    where
      next :
          (h1 : Heap)
          → Added h a s o t h1
          → Returns
              ((if not (o == null) && (not (o == a) && not (s == delete_signal))
                  then add_connection o delete_signal a (drop a o)
                    >> add_connection a delete_signal o (drop o a)
                  else done tt)
                h1)
              (λ _. Connected h a s o t)
      next h1 d1 = elim (Bool-cases (o == null)) [
        | inl e ↦ rw e (alone h1 (inl ((nat_beq_iff o null).0 e)) d1)
        | inr e ↦ elim (Bool-cases (o == a)) [
          | inl f ↦ rw (e, f) (alone h1 (inr ((nat_beq_iff o a).0 f)) d1)
          | inr f ↦
              rw (e, f, beq-false s delete_signal ns)
                (Returns-and_then (add_connection o delete_signal a (drop a o) h1) _
                  (λ _. Added h1 o delete_signal a (drop a o)) _
                  (add_connection-Added h1 o delete_signal a (drop a o)
                    (ground (arith, d1.alive o)))
                  λ _ h2 d2.
                    Returns-mono (add_connection a delete_signal o (drop o a) h2)
                      (λ _. Added h2 a delete_signal o (drop o a)) (λ _. Connected h a s o t)
                      (add_connection-Added h2 a delete_signal o (drop o a)
                        (ground (arith, d1.alive a, d2.alive a)))
                      λ _ h3 d3. tied h1 h2 h3 (λ q. ground (arith, nat_beq_iff o a)) d1 d2 d3)
        ]
      ]
