-- ===== src/ThreadPool/Workers.antt =====
-- A place for each worker, and counts over the workers below a number.
use module_flow.Prelude.{
  ℕ, zero, suc, ◌+◌, ◌≡◌, refl, ◌<◌, ◌≤◌, ◌==◌, nat_eq, if◌then◌else◌, arith, Bool-cases, inl, inr,
  nat_beq_iff,
}

abbrev pub update {ℓ} : {A : Type ℓ} → (ℕ → A) → ℕ → A → ℕ → A
update f i a k = if i == k then a else f k

module _ {ℓ} {A : Type ℓ} (weight : A → ℕ) where
  pub sum_below : ℕ → (ℕ → A) → ℕ
  sum_below zero f = 0
  sum_below (suc n) f = weight (f n) + sum_below n f

  pub sum_below-zero : (f : ℕ → A) → sum_below 0 f ≡ 0
  unfolding sum_below
  sum_below-zero f = refl

  pub sum_below-suc : (n : ℕ) (f : ℕ → A) → sum_below (suc n) f ≡ weight (f n) + sum_below n f
  unfolding sum_below
  sum_below-suc n f = refl

  pub sum_below-above :
      (n i : ℕ) (f : ℕ → A) (a : A) → n ≤ i → sum_below n (update f i a) ≡ sum_below n f
  unfolding sum_below
  sum_below-above zero i f a h = refl
  sum_below-above (suc n) i f a h = ground (arith, sum_below-above n i f a)

  -- A change of one worker changes the count by what that worker counts.
  pub sum_below-update :
      (n i : ℕ) (f : ℕ → A) (a : A)
      → i < n
      → sum_below n (update f i a) + weight (f i) ≡ sum_below n f + weight a
  unfolding sum_below
  sum_below-update zero i f a h = absurd (omega arith)
  sum_below-update (suc n) i f a h = elim (Bool-cases (i == n)) [
    | inl y ↦ ground (arith, sum_below-above n i f a)
    | inr z ↦ ground (arith, sum_below-update n i f a)
  ]

  -- Equal weights, equal counts.
  pub sum_below-same :
      (n : ℕ) (f g : ℕ → A)
      → ((i : ℕ) → weight (f i) ≡ weight (g i))
      → sum_below n f ≡ sum_below n g
  unfolding sum_below
  sum_below-same zero f g h = refl
  sum_below-same (suc n) f g h = omega (arith, h n, sum_below-same n f g h)

  -- A change to a place of the same weight.
  pub sum_below-rearranged :
      (n i : ℕ) (f : ℕ → A) (a : A)
      → weight (f i) ≡ weight a
      → sum_below n (update f i a) ≡ sum_below n f
  sum_below-rearranged n i f a e =
      sum_below-same n (update f i a) f
        λ k. elim (Bool-cases (i == k)) [ inl y ↦ ground (arith, nat_beq_iff i k) | inr z ↦ rw z ]

  -- Without weights there is no count.
  pub sum_below-none :
      (n : ℕ) (f : ℕ → A) → ((i : ℕ) → i < n → weight (f i) ≡ 0) → sum_below n f ≡ 0
  unfolding sum_below
  sum_below-none zero f h = refl
  sum_below-none (suc n) f h =
      omega (arith, h n (omega arith), sum_below-none n f (λ i l. h i (omega arith)))

  pub le-sum_below : (n i : ℕ) (f : ℕ → A) → i < n → weight (f i) ≤ sum_below n f
  unfolding sum_below
  le-sum_below zero i f h = absurd (omega arith)
  le-sum_below (suc n) i f h = elim (Bool-cases (i == n)) [
    | inl y ↦ ground arith
    | inr z ↦ ground (arith, le-sum_below n i f)
  ]

  sum_below-le : ((a : A) → weight a ≤ 1) → (n : ℕ) (f : ℕ → A) → sum_below n f ≤ n
  unfolding sum_below
  sum_below-le b zero f = omega arith
  sum_below-le b (suc n) f = omega (arith, b (f n), sum_below-le b n f)

  -- A worker that does not count leaves the count below the number of workers.
  pub sum_below-lt :
      ((a : A) → weight a ≤ 1)
      → (n i : ℕ) (f : ℕ → A) → i < n
      → weight (f i) ≡ 0
      → sum_below n f < n
  unfolding sum_below
  sum_below-lt b zero i f h z = absurd (omega arith)
  sum_below-lt b (suc n) i f h z = elim (Bool-cases (i == n)) [
    | inl y ↦ ground (arith, sum_below-le b n f)
    | inr w ↦ ground (arith, b (f n), sum_below-lt b n i f)
  ]
