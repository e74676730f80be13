-- ===== src/Object/Linked/Added.antt =====
-- One task more in the connections of one object.
use module_flow.Prelude.{
  ℕ, ◌≡◌, refl, true, some, List, [], ◌∷◌, ◌++◌, arith, ◌==◌, nat_eq, ◌&&◌, ◌||◌, if◌then◌else◌,
  ◌≢◌, All, beq-false, beq_self, Bool-cases, inl, inr, nat_beq_iff, string_eq, Option-cases,
}
use module_flow.Container.HashMap.{find}
use module_flow.Container.HashMap.Laws.{All-insert_one, All-find}
use module_flow.Object.Connections.{
  Connections, observers, slots, tasks_of, add_action, slots-add_action, observers-add_action,
}
use module_flow.Object.Heap.{Addr, Task, drop, Heap, modify, write}
use module_flow.Object.Returns.{Returns}
use module_flow.Object.Signals.{delete_signal, add_connection}
use module_flow.Object.Linked.Defs.{links, is_live, slots_at, connected, IsHook}

pub record Added (h : Heap) (a : Addr) (s : ℕ) (o : Addr) (t : Task) (h' : Heap) : Type 0 where
  pub there : links (h'.cell a) ≡ add_action (links (h.cell a)) s o t
  pub elsewhere : (b : Addr) → a ≢ b → h'.cell b ≡ h.cell b
  pub alive : (b : Addr) → is_live (h'.cell b) ≡ is_live (h.cell b)
  pub quiet : h'.calls ≡ h.calls

pub add_connection-Added :
    (h : Heap) (a : Addr) (s : ℕ) (o : Addr) (t : Task)
    → is_live (h.cell a) ≡ true
    → Returns (add_connection a s o t h) (λ _. Added h a s o t)
unfolding add_connection modify write
add_connection-Added h a s o t live = elim (Option-cases (h.cell a)) [
  | inl e ↦ absurd (cc)
  | inr (ob, e) ↦
      rw (e, modify)
        (record {
          there = rw (e) (ground (arith, beq_self a));
          elsewhere = λ b n. ground (arith, nat_beq_iff a b);
          alive = λ b. ground (arith, nat_beq_iff a b);
          quiet = refl;
        })
]

module _ (h : Heap) (a : Addr) (s : ℕ) (o : Addr) (t : Task) (h' : Heap)
    (d : Added h a s o t h') where
  pub Added-slots :
      (a' : Addr) (s' : ℕ) (o' : Addr)
      → slots_at h'.cell a' s' o' ≡ (
          if a == a' && (s == s' && o == o')
          then some (tasks_of (slots_at h.cell a s o) ++ t ∷ [])
          else slots_at h.cell a' s' o')
  Added-slots a' s' o' = elim (Bool-cases (a == a')) [
    | inl e ↦
        rw (e, ← (nat_beq_iff a a').0 e, d.there) (slots-add_action (links (h.cell a)) s o t s' o')
    | inr n ↦ rw (n, d.elsewhere a' (λ e. ground (arith, nat_beq_iff a a')))
  ]

  pub Added-connected :
      (a' : Addr) (s' : ℕ) (o' : Addr)
      → connected h'.cell a' s' o' ≡ (a == a' && (s == s' && o == o') || connected h.cell a' s' o')
  Added-connected a' s' o' = ground (arith, Added-slots a' s' o')

  -- A task for another signal leaves the DELETE tables alone.
  pub Added-hooks_other :
      s ≢ delete_signal
      → ((b : Addr) → All (IsHook b) (observers (links (h.cell b)) delete_signal))
      → (b : Addr) → All (IsHook b) (observers (links (h'.cell b)) delete_signal)
  Added-hooks_other n l b = elim (Bool-cases (a == b)) [
    | inl e ↦
        rw
          (
            ← (nat_beq_iff a b).0 e,
            d.there,
            observers-add_action (links (h.cell a)) s o t delete_signal,
            beq-false s delete_signal n,
          )
          (l a)
    | inr m ↦ rw (d.elsewhere b (λ e. ground (arith, nat_beq_iff a b))) (l b)
  ]

All-snoc : (P : Task → Type 0) (ts : List Task) (t : Task) → All P ts → P t → All P (ts ++ t ∷ [])
All-snoc P [] t h p = (p, tt)
All-snoc P (x ∷ ts) t h p = (h.0, All-snoc P ts t h.1 p)

snoc-ne-nil : (ts : List Task) (t : Task) → ts ++ t ∷ [] ≢ []
snoc-ne-nil [] t e = cc
snoc-ne-nil (x ∷ ts) t e = cc

All-tasks :
    (a o : Addr) (cs : Connections Task)
    → All (IsHook a) (observers cs delete_signal)
    → All (λ t. t ≡ drop o a) (tasks_of (slots cs delete_signal o))
unfolding slots
All-tasks a o cs l = elim (Option-cases (find o (observers cs delete_signal))) [
  | inl e ↦ rw e tt
  | inr (ts, e) ↦ rw e (All-find (IsHook a) o ts (observers cs delete_signal) l e).2
]

-- A hook more is one hook more.
pub Added-hooks_delete :
    (h : Heap) (a o : Addr) (h' : Heap)
    → Added h a delete_signal o (drop o a) h'
    → o ≢ a
    → ((b : Addr) → All (IsHook b) (observers (links (h.cell b)) delete_signal))
    → (b : Addr) → All (IsHook b) (observers (links (h'.cell b)) delete_signal)
Added-hooks_delete h a o h' d n l b = elim (Bool-cases (a == b)) [
  | inl e ↦
      rw
        (
          ← (nat_beq_iff a b).0 e,
          d.there,
          observers-add_action (links (h.cell a)) delete_signal o (drop o a) delete_signal,
        )
        (All-insert_one (IsHook a) o _ _
          (
            n,
            snoc-ne-nil _ (drop o a),
            All-snoc _ _ (drop o a) (All-tasks a o (links (h.cell a)) (l a)) refl,
          )
          (l a))
  | inr m ↦ rw (d.elsewhere b (λ e. ground (arith, nat_beq_iff a b))) (l b)
]
