-- ===== src/Client/Locked/Serialised/Answered.antt =====
-- However far the threads have come, they can come to the end of all their calls.
use rock_db_swift.Prelude.{
  ℕ, zero, suc, ◌≤◌, ◌<◌, ◌≡◌, refl, ap, ◌∙◌, List, [], ◌∷◌, ◌⊎◌, inl, inr, arith,
}
use mathlib.Core.WellFounded.{Acc}
use native.Mathlib.Decide.{dec_lt}
use rock_db_swift.System.{System}
use rock_db_swift.Memory.{World}
use rock_db_swift.Client.Locked.Mutex.{RecursiveLock, IsRecursive}
use rock_db_swift.Client.Locked.Threads.{
  Class, Place, outside, inside, Threads, Step, Reach, later, AlwaysAnswers, Serial, unwound,
  pending, depth,
}
use rock_db_swift.Client.Locked.Serialised.{Reach-Inv, Reach-Serial, no_deadlock}
use rock_db_swift.Client.Locked.Serialised.Finished.{beyond, Reach-Ends}

List-cases {ℓ} : {A : Type ℓ} (xs : List A) → (xs ≡ []) ⊎ ((x : A) × (ys : List A) × (xs ≡ x ∷ ys))
List-cases [] = inl refl
List-cases (x ∷ xs) = inr (x, xs, refl)

module _ {S : System} {C : Class S} where
  -- One of the first threads has a call left, or none has.
  find_pending :
      (n : ℕ) (places : ℕ → Place C)
      → ((i : ℕ) × (c : C.Call) × (cs : List C.Call) × (pending C (places i) ≡ c ∷ cs))
        ⊎ ((i : ℕ) → i < n → pending C (places i) ≡ [])
  find_pending zero places = inr (λ i lt. absurd (omega arith))
  find_pending (suc n) places = elim (List-cases (pending C (places n))) [
    | inr (c, cs, e) ↦ inl (n, c, cs, e)
    | inl last ↦ elim (find_pending n places) [
      | inl found ↦ inl found
      | inr others ↦ inr (λ i lt. first_or_last i lt others last)
    ]
  ]
    where
      first_or_last :
          (i : ℕ)
          → i < suc n
          → ((j : ℕ) → j < n → pending C (places j) ≡ [])
          → pending C (places n) ≡ []
          → pending C (places i) ≡ []
      first_or_last i lt others last = elim (dec_lt i n) [
        | yes below ↦ others i below
        | no ge ↦ let e : i ≡ n = omega arith in ap (λ k. pending C (places k)) e ∙ last
      ]

  pub depth-pending : (p : Place C) → pending C p ≡ [] → depth C p ≡ 0
  depth-pending (outside cs) e = refl
  depth-pending (inside c rest cs) e = absurd (ground (arith, e))

module _ {S : System} {C : Class S} (o : C.Object) (w : World S) {L : RecursiveLock}
    (rec : IsRecursive L) {programs : ℕ → List C.Call} (n : ℕ)
    (finite : (i : ℕ) → n ≤ i → programs i ≡ []) (safe : AlwaysAnswers C o w) where
  finish :
      (s : Threads C L)
      → Acc (λ t s. Step C L s t) s
      → Reach C L programs o w s
      → (t : Threads C L) × Reach C L programs o w t × ((i : ℕ) → pending C (t.places i) ≡ [])
  finish s (Acc.intro _ next) reach = elim (find_pending n s.places) [
    | inl (i, c, cs, e) ↦
        let (t, st) = no_deadlock rec safe reach i c cs e in finish t (next t st) (later reach st)
    | inr none_left ↦ (
      s,
      reach,
      λ i. elim (dec_lt i n) [
        | yes below ↦ none_left i below
        | no ge ↦ beyond o w rec n finite (Reach-Inv rec reach) i (omega arith)
      ],
    )
  ]

  -- If whole methods, one after the other, always return or throw, then finitely many threads can
  -- come from every state that they reach to one in which all their calls are answered, as whole
  -- methods one after the other and each thread's in its order.
  pub Reach-answered :
      {s : Threads C L}
      → Reach C L programs o w s
      → (t : Threads C L) × Reach C L programs o w t
        × Serial C o w t.log t.object t.world
        × ((i : ℕ) → programs i ≡ unwound C i t.log [])
  Reach-answered {s} reach =
      let (t, reached, left) = finish s (Reach-Ends o w rec n finite reach) reach in
      let (serial, order) = Reach-Serial rec reached (λ i. depth-pending (t.places i) (left i)) in
      (t, reached, serial, λ i. order i ∙ ap (unwound C i t.log) (left i))
