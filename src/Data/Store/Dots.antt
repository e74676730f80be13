-- ===== src/Data/Store/Dots.antt =====
-- The last dot of a path.
use module_flow.Prelude.{
  ℕ, zero, suc, ◌≡◌, refl, ap, false, none, some, [], ◌∷◌, ◌++◌, ◌==◌, nat_eq, arith, length, take,
  drop, Option-cases, inl, inr, ◌≢◌, nat_beq_iff, All,
}
use module_flow.Data.Json.{Bytes}
use module_flow.Data.Store.{rfind_dot}

abbrev pub NoDot : Bytes → Type 0
NoDot k = All (λ c. (c == b'.') ≡ false) k

rfind_dot-none : (s : Bytes) → rfind_dot s ≡ none → NoDot s
unfolding rfind_dot
rfind_dot-none [] e = tt
rfind_dot-none (c ∷ s) e = elim (Option-cases (rfind_dot s)) [
  | inl q ↦ (ground arith, rfind_dot-none s q)
  | inr (k, q) ↦ absurd (ground arith)
]

rfind_dot-NoDot : (s : Bytes) → NoDot s → rfind_dot s ≡ none
unfolding rfind_dot
rfind_dot-NoDot [] h = refl
rfind_dot-NoDot (c ∷ s) h = rw (rfind_dot-NoDot s h.1, h.0) refl

pub rfind_dot-append : (p k : Bytes) → NoDot k → rfind_dot (p ++ b'.' ∷ k) ≡ some (length p)
unfolding rfind_dot
rfind_dot-append [] k h = rw (rfind_dot-NoDot k h) refl
rfind_dot-append (c ∷ p) k h = rw (rfind_dot-append p k h) (ground arith)

-- A path is what stands before its last dot, the dot, and what stands behind it.
pub rfind_dot-split :
    (s : Bytes) (n : ℕ)
    → rfind_dot s ≡ some n
    → (s ≡ take n s ++ b'.' ∷ drop (suc n) s) × NoDot (drop (suc n) s)
unfolding rfind_dot
rfind_dot-split [] n e = cc
rfind_dot-split (c ∷ s) zero e = elim (Option-cases (rfind_dot s)) [
  | inl q ↦
      let first : c ≡ b'.' = ground (arith, nat_beq_iff c b'.') in
      (ap (λ x. x ∷ s) first, rfind_dot-none s q)
  | inr (k, q) ↦ absurd (ground arith)
]
rfind_dot-split (c ∷ s) (suc n) e = elim (Option-cases (rfind_dot s)) [
  | inl q ↦ absurd (ground arith)
  | inr (k, q) ↦
      let (same, rest) = rfind_dot-split s n (ground arith) in (ap (λ x. c ∷ x) same, rest)
]

pub take-length : (p k : Bytes) → take (length p) (p ++ k) ≡ p
take-length [] k = refl
take-length (c ∷ p) k = ap (λ x. c ∷ x) (take-length p k)

pub drop-length : (p k : Bytes) (c : ℕ) → drop (suc (length p)) (p ++ c ∷ k) ≡ k
drop-length [] k c = refl
drop-length (d ∷ p) k c = drop-length p k c

pub take-ne-nil :
    (s : Bytes) (i : ℕ) → s ≡ take i s ++ b'.' ∷ drop (suc i) s → i ≢ 0 → take i s ≢ []
take-ne-nil [] zero e n t = n refl
take-ne-nil [] (suc i) e n t = cc
take-ne-nil (c ∷ s) zero e n t = n refl
take-ne-nil (c ∷ s) (suc i) e n t = cc
