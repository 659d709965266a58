-- ===== src/Client/Locked/Turns/Places.antt =====
-- Where the threads stand after one of them has moved, and what they have left.
use rock_db_swift.Prelude.{
  ℕ, ◌≡◌, ◌≢◌, refl, ap, subst⁻¹, List, ◌∷◌, ◌==◌, if◌then◌else◌, Bool-cases, inl, inr, arith,
}
use rock_db_swift.System.{System}
use rock_db_swift.Client.Locked.Threads.{Class, Place, Entry, placed, unwound}

pub if-same {ℓ} : {A : Type ℓ} (i : ℕ) (x y : A) → (if i == i then x else y) ≡ x
if-same i x y = elim (Bool-cases (i == i)) [
  | inl same ↦ rw same refl
  | inr other ↦ absurd (ground (arith, other))
]

pub if-other {ℓ} : {A : Type ℓ} (i j : ℕ) (x y : A) → i ≢ j → (if i == j then x else y) ≡ y
if-other i j x y ne = elim (Bool-cases (i == j)) [
  | inl same ↦ absurd (ne (ground (arith, same)))
  | inr other ↦ rw other refl
]

module _ {S : System} {C : Class S} where
  pub placed-same : (places : ℕ → Place C) (i : ℕ) (p : Place C) → placed C places i p i ≡ p
  placed-same places i p = if-same i p (places i)

  pub placed-other :
      (places : ℕ → Place C) (i j : ℕ) (p : Place C) → j ≢ i → placed C places i p j ≡ places j
  placed-other places i j p ne = if-other j i p (places j) ne

  -- One more answered call.
  pub unwound-own :
      (es : List (Entry C)) (i : ℕ) (c : C.Call) (a : C.Answer c) (cs : List C.Call)
      → unwound C i (record { thread = i; call = c; answer = a } ∷ es) cs ≡ unwound C i es (c ∷ cs)
  unfolding unwound
  unwound-own es i c a cs = ap (unwound C i es) (if-same i (c ∷ cs) cs)

  pub unwound-other :
      (es : List (Entry C)) (i : ℕ) (c : C.Call) (a : C.Answer c) (cs : List C.Call) (j : ℕ)
      → i ≢ j
      → unwound C j (record { thread = i; call = c; answer = a } ∷ es) cs ≡ unwound C j es cs
  unfolding unwound
  unwound-other es i c a cs j ne = ap (unwound C j es) (if-other i j (c ∷ cs) cs ne)

-- What holds of the thread that moves, where it stands now, and of the others, where they stood.
pub everywhere {ℓ} :
    {S : System} {C : Class S} (P : ℕ → Place C → Type ℓ) (places : ℕ → Place C) (i : ℕ)
    (p : Place C)
    → P i p
    → ((j : ℕ) → j ≢ i → P j (places j))
    → (j : ℕ) → P j (placed C places i p j)
everywhere P places i p here there j = elim (Bool-cases (j == i)) [
  | inl same ↦
      let e : j ≡ i = ground (arith, same) in
      subst⁻¹ (λ k. P k (placed _ places i p k)) e (subst⁻¹ (P i) (placed-same places i p) here)
  | inr other ↦
      let n : j ≢ i = λ e. ground (arith, other, e) in
      subst⁻¹ (P j) (placed-other places i j p n) (there j n)
]
