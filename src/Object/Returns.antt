-- ===== src/Object/Returns.antt =====
-- Total correctness of commands: a command returns, and its result meets a condition.
use module_flow.Prelude.{◌≡◌, refl, Option, none, some, nat_eq, arith, ◌≢◌}
use module_flow.Object.Heap.{
  Addr, Object, Heap, Run, done, fault, out_of_fuel, Cmd, and_then, load, modify, free, write,
}

abbrev pub Returns : {A : Type 0} → Run A → (A → Heap → Type 0) → Type 0
Returns (done a h) P = P a h
Returns fault P = ⊥
Returns out_of_fuel P = ⊥

pub Returns-and_then :
    {A B : Type 0} (r : Run A) (k : A → Cmd B) (P : A → Heap → Type 0) (Q : B → Heap → Type 0)
    → Returns r P
    → ((a : A) (h : Heap) → P a h → Returns (k a h) Q)
    → Returns (and_then r k) Q
Returns-and_then (done a h) k P Q p next = next a h p
Returns-and_then fault k P Q p next = absurd p
Returns-and_then out_of_fuel k P Q p next = absurd p

pub Returns-mono :
    {A : Type 0} (r : Run A) (P Q : A → Heap → Type 0)
    → Returns r P
    → ((a : A) (h : Heap) → P a h → Q a h)
    → Returns r Q
Returns-mono (done a h) P Q p next = next a h p
Returns-mono fault P Q p next = absurd p
Returns-mono out_of_fuel P Q p next = absurd p

pub and_then_assoc :
    {A B C : Type 0} (r : Run A) (k : A → Cmd B) (l : B → Cmd C)
    → and_then (and_then r k) l ≡ and_then r (λ a h. and_then (k a h) l)
and_then_assoc (done a h) k l = refl
and_then_assoc fault k l = refl
and_then_assoc out_of_fuel k l = refl

-- What a command does at an address that holds an object.
pub load_lem : (p : Addr) (h : Heap) (o : Object) → h.cell p ≡ some o → load p h ≡ done o h
unfolding load
load_lem p h o e = ground arith

pub modify_lem :
    (p : Addr) (f : Object → Object) (h : Heap) (o : Object)
    → h.cell p ≡ some o
    → modify p f h ≡ done tt (record h { cell = write h.cell p (some (f o)) })
unfolding modify
modify_lem p f h o e = ground arith

pub free_lem :
    (p : Addr) (h : Heap) (o : Object)
    → h.cell p ≡ some o
    → free p h ≡ done tt (record h { cell = write h.cell p none })
unfolding free
free_lem p h o e = ground arith

pub write_self : (c : Addr → Option Object) (p : Addr) (x : Option Object) → write c p x p ≡ x
unfolding write
write_self c p x = ground arith

pub write-other :
    (c : Addr → Option Object) (p q : Addr) (x : Option Object) → p ≢ q → write c p x q ≡ c q
unfolding write
write-other c p q x n = ground arith
