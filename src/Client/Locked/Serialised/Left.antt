-- ===== src/Client/Locked/Serialised/Left.antt =====
-- How many calls the first threads have not finished.
use rock_db_swift.Prelude.{
  ℕ, zero, suc, ◌+◌, ◌<◌, ◌≡◌, ◌≢◌, refl, ap, subst, Bool-cases, inl, inr, ◌==◌, arith, length,
}
use rock_db_swift.System.{System}
use rock_db_swift.Client.Locked.Threads.{Class, Place, pending}

module _ {S : System} (C : Class S) where
  unfoldable pub left : ℕ → (ℕ → Place C) → ℕ
  left zero f = 0
  left (suc n) f = left n f + length (pending C (f n))

  pub left-same :
      (n : ℕ) (f g : ℕ → Place C)
      → ((j : ℕ) → j < n → pending C (f j) ≡ pending C (g j))
      → left n f ≡ left n g
  unfolding left
  left-same zero f g h = refl
  left-same (suc n) f g h = rw (h n (omega arith), left-same n f g (λ j lt. h j (omega arith))) refl

  -- One thread has finished a call.
  pub left-less :
      (n : ℕ) (f g : ℕ → Place C) (i : ℕ)
      → i < n
      → ((j : ℕ) → j ≢ i → pending C (f j) ≡ pending C (g j))
      → length (pending C (f i)) ≡ suc (length (pending C (g i)))
      → left n f ≡ suc (left n g)
  unfolding left
  left-less zero f g i lt h e = absurd (omega arith)
  left-less (suc n) f g i lt h e = elim (Bool-cases (i == n)) [
    | inl same ↦
        let q : i ≡ n = ground (arith, same) in
        omega (
          arith,
          subst (λ k. length (pending C (f k)) ≡ suc (length (pending C (g k)))) q e,
          left-same n f g (λ j below. h j (λ x. omega arith)),
        )
    | inr other ↦
        let ne : n ≢ i = λ x. ground (arith, other, x) in
        let below : i < n = ground (arith, other) in
        omega (arith, ap length (h n ne), left-less n f g i below h e)
  ]
