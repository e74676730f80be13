-- ===== src/Object/Linked/Disconnect.antt =====
-- `disconnect(signal, observer)` among linked objects.
use module_flow.Prelude.{
  ℕ, ◌≡◌, ◌∙◌, true, false, none, arith, ◌==◌, nat_eq, ◌&&◌, if◌then◌else◌, ◌≢◌, All, beq_self,
  beq-false, refl, Bool-cases, inl, inr, nat_beq_iff, Option-cases,
}
use module_flow.Container.HashMap.{erase}
use module_flow.Object.Connections.{
  observers, erase_signal, slots-erase_signal, observers-erase_signal,
}
use module_flow.Object.Heap.{Addr, null, Heap, modify, write}
use module_flow.Object.Returns.{Returns, Returns-mono}
use module_flow.Object.Signals.{delete_signal, disconnect_signal}
use module_flow.Object.Linked.Defs.{links, is_live, slots_at, IsHook, Linked}

-- One observer of one signal less, all other slots as before, and a linked heap.
pub record Disconnected (h : Heap) (a : Addr) (s : ℕ) (o : Addr) (h' : Heap) : Type 0 where
  pub removed : slots_at h'.cell a s o ≡ none
  pub kept :
      (a' : Addr) (s' : ℕ) (o' : Addr)
      → (a == a' && (s == s' && o == o')) ≡ false
      → slots_at h'.cell a' s' o' ≡ slots_at h.cell a' s' o'
  pub table : observers (links (h'.cell a)) s ≡ erase o (observers (links (h.cell a)) s)
  pub quiet : h'.calls ≡ h.calls
  pub alive : (b : Addr) → is_live (h'.cell b) ≡ is_live (h.cell b)
  pub linked : Linked h'.cell

module _ (h : Heap) (a : Addr) (s : ℕ) (o : Addr) where
  record Erased (h' : Heap) : Type 0 where
    there : links (h'.cell a) ≡ erase_signal (links (h.cell a)) s o
    elsewhere : (b : Addr) → a ≢ b → h'.cell b ≡ h.cell b
    alive : (b : Addr) → is_live (h'.cell b) ≡ is_live (h.cell b)
    quiet : h'.calls ≡ h.calls

  disconnect_signal-Erased :
      is_live (h.cell a) ≡ true → Returns (disconnect_signal a s o h) (λ _ h'. Erased h')
  unfolding disconnect_signal modify write
  disconnect_signal-Erased live = elim (Option-cases (h.cell a)) [
    | inl e ↦ absurd (cc)
    | inr (ob, e) ↦
        rw (e, modify)
          (record {
            there = rw e (ground (arith, beq_self a));
            elsewhere = λ b n. ground (arith, nat_beq_iff a b);
            alive = λ b. ground (arith, nat_beq_iff a b);
            quiet = refl;
          })
  ]

  Erased-slots :
      (h' : Heap)
      → Erased h'
      → (a' : Addr) (s' : ℕ) (o' : Addr)
      → slots_at h'.cell a' s' o'
        ≡ (if a == a' && (s == s' && o == o') then none else slots_at h.cell a' s' o')
  Erased-slots h' d a' s' o' = elim (Bool-cases (a == a')) [
    | inl e ↦
        rw (e, ← (nat_beq_iff a a').0 e, d.there) (slots-erase_signal (links (h.cell a)) s o s' o')
    | inr n ↦ rw (n, d.elsewhere a' (λ e. ground (arith, nat_beq_iff a a')))
  ]

  Erased-hooks :
      (h' : Heap)
      → Erased h'
      → s ≢ delete_signal
      → ((b : Addr) → All (IsHook b) (observers (links (h.cell b)) delete_signal))
      → (b : Addr) → All (IsHook b) (observers (links (h'.cell b)) delete_signal)
  Erased-hooks h' d n l b = elim (Bool-cases (a == b)) [
    | inl e ↦
        rw
          (
            ← (nat_beq_iff a b).0 e,
            d.there,
            observers-erase_signal (links (h.cell a)) s o delete_signal,
            beq-false s delete_signal n,
          )
          (l a)
    | inr m ↦ rw (d.elsewhere b (λ e. ground (arith, nat_beq_iff a b))) (l b)
  ]

  -- For a signal other than DELETE, `disconnect` returns where the object is alive. It removes the
  -- slots of that observer for that signal, keeps all others, and the heap stays linked.
  pub disconnect_signal-Disconnected :
      Linked h.cell
      → s ≢ delete_signal
      → is_live (h.cell a) ≡ true
      → Returns (disconnect_signal a s o h) (λ _ h'. Disconnected h a s o h')
  disconnect_signal-Disconnected l n live =
      Returns-mono (disconnect_signal a s o h) (λ _ h'. Erased h') (λ _ h'. Disconnected h a s o h')
        (disconnect_signal-Erased live)
        λ _ h' d. record {
          removed = ground (arith, Erased-slots h' d a s o, beq_self a, beq_self s, beq_self o);
          kept = λ a' s' o' e. ground (arith, Erased-slots h' d a' s' o');
          table = rw (d.there, observers-erase_signal (links (h.cell a)) s o s, beq_self s) refl;
          quiet = d.quiet;
          alive = d.alive;
          linked = record {
            no_null = d.alive null ∙ l.no_null;
            hooked = λ a' o' s' e nn na. ground (
              arith,
              Erased-slots h' d a' s' o',
              Erased-slots h' d a' delete_signal o',
              l.hooked a' o' s',
            );
            back = λ a' o' e. ground (
              arith,
              Erased-slots h' d a' delete_signal o',
              Erased-slots h' d o' delete_signal a',
              l.back a' o',
            );
            hooks = Erased-hooks h' d n l.hooks;
          };
        }
