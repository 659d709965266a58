-- ===== src/Client/Locked/Serialised/Finished.antt =====
-- However the threads are scheduled, they come to an end.
use rock_db_swift.Prelude.{
  ℕ, zero, suc, ◌≤◌, ◌<◌, ◌≡◌, refl, sym, ap, ◌∙◌, subst, Bool, true, false, List, [], ◌∷◌, ◌==◌,
  if◌then◌else◌, arith, length,
}
use mathlib.Core.WellFounded.{Acc}
use native.Mathlib.Decide.{dec_lt}
use rock_db_swift.System.{System}
use rock_db_swift.Memory.{World, M}
use rock_db_swift.Client.Locked.{Script, ends, acts}
use rock_db_swift.Client.Locked.Mutex.{RecursiveLock, IsRecursive}
use rock_db_swift.Client.Locked.Threads.{
  Class, Place, outside, inside, Entry, Threads, placed, Step, enter, enter_freely, access, leave,
  leave_freely, Reach, unwound, pending, depth,
}
use rock_db_swift.Client.Locked.Turns.{Inv, inside-turn, none-inside}
use rock_db_swift.Client.Locked.Turns.Places.{placed-same, placed-other, everywhere}
use rock_db_swift.Client.Locked.Serialised.{never_free, Step-Inv, Reach-Inv}
use rock_db_swift.Client.Locked.Serialised.Left.{left, left-same, left-less}

module _ {S : System} {C : Class S} where
  -- A thread that enters a method, or makes an access in it.
  data Further : Place C → Place C → Type 1 where
    starts :
        (c : C.Call) (s : Script S C.Object (C.Answer c)) (cs ds : List C.Call)
        → Further (inside c s cs) (outside ds)
    proceeds :
        (c : C.Call) {B : Type 0} (m : C.Object → M S (B × C.Object))
        (k : B → Script S C.Object (C.Answer c)) (b : B) (cs : List C.Call)
        → Further (inside c (k b) cs) (inside c (acts m k) cs)

  below-acts :
      (c : C.Call) {B : Type 0} (m : C.Object → M S (B × C.Object))
      (k : B → Script S C.Object (C.Answer c)) (cs : List C.Call)
      → ((b : B) → Acc Further (inside c (k b) cs))
      → (p : Place C) → Further p (inside c (acts m k) cs)
      → Acc Further p
  below-acts c m k cs h _ (proceeds _ _ _ b _) = h b

  -- A body that has ended goes no further.
  goes_on : Place C → Bool
  goes_on (outside cs) = true
  goes_on (inside c (ends a) cs) = false
  goes_on (inside c (acts m k) cs) = true

  Further-goes_on : {q p : Place C} → Further q p → goes_on p ≡ true
  unfolding goes_on
  Further-goes_on (starts c s cs ds) = refl
  Further-goes_on (proceeds c m k b cs) = refl

  inside-Acc :
      (c : C.Call) (s : Script S C.Object (C.Answer c)) (cs : List C.Call)
      → Acc Further (inside c s cs)
  unfolding goes_on
  inside-Acc c (ends a) cs = Acc.intro _ (λ p h. absurd (ground (arith, Further-goes_on h)))
  inside-Acc c (acts m k) cs = Acc.intro _ (below-acts c m k cs (λ b. inside-Acc c (k b) cs))

  below-outside : (ds : List C.Call) (p : Place C) → Further p (outside ds) → Acc Further p
  below-outside ds _ (starts c s cs _) = inside-Acc c s cs

  place-Acc : (p : Place C) → Acc Further p
  place-Acc (outside ds) = Acc.intro _ (below-outside ds)
  place-Acc (inside c s cs) = inside-Acc c s cs

  starts-outside :
      (c : C.Call) (s : Script S C.Object (C.Answer c)) (cs : List C.Call) (p : Place C)
      → depth C p ≡ 0
      → Further (inside c s cs) p
  starts-outside c s cs (outside ds) e = starts c s cs ds
  starts-outside c s cs (inside d t ds) e = absurd (ground (arith, e))

  -- A log answers calls of a thread's program only.
  unwound-empty :
      (i : ℕ) (es : List (Entry C)) (cs : List C.Call) → unwound C i es cs ≡ [] → cs ≡ []
  unfolding unwound
  unwound-empty i [] cs e = e
  unwound-empty i (x ∷ es) cs e = consed (x.thread == i) (unwound-empty i es _ e)
    where
      consed : (b : Bool) → (if b then x.call ∷ cs else cs) ≡ [] → cs ≡ []
      consed true h = absurd (ground (arith, h))
      consed false h = h

  -- A move that leaves the calls of the thread that moves.
  placed-pending :
      (places : ℕ → Place C) (i : ℕ) (p : Place C)
      → pending C p ≡ pending C (places i)
      → (j : ℕ) → pending C (placed C places i p j) ≡ pending C (places j)
  placed-pending places i p e =
      everywhere (λ j q. pending C q ≡ pending C (places j)) places i p e (λ j ne. refl)

module _ {S : System} {C : Class S} (o : C.Object) (w : World S) {L : RecursiveLock}
    (rec : IsRecursive L) {programs : ℕ → List C.Call} (n : ℕ)
    (finite : (i : ℕ) → n ≤ i → programs i ≡ []) where
  pub beyond :
      {s : Threads C L} → Inv o w L programs s → (i : ℕ) → n ≤ i → pending C (s.places i) ≡ []
  beyond {s} inv i le = unwound-empty i s.log _ (sym (inv.ordered i) ∙ finite i le)

  -- A thread with a call is one of the first.
  busy-below :
      {s : Threads C L}
      → Inv o w L programs s
      → (i : ℕ) (c : C.Call) (cs : List C.Call) → pending C (s.places i) ≡ c ∷ cs
      → i < n
  busy-below {s} inv i c cs e = elim (dec_lt i n) [
    | yes lt ↦ lt
    | no ge ↦ absurd (ground (arith, beyond inv i (omega arith), e))
  ]

  Ends : Threads C L → Type 1
  Ends s = Acc (λ t s. Step C L s t) s

  turned :
      {s : Threads C L} (inv : Inv o w L programs s) (i : ℕ) (p : Place C)
      → s.places i ≡ p
      → depth C p ≡ 1
      → s.places inv.turn ≡ p
  turned {s} inv i p at e = ap s.places (sym (inside-turn o w rec inv i (ap (depth C) at ∙ e))) ∙ at

  module _ (m : ℕ)
      (fewer : (s : Threads C L) → Inv o w L programs s → left C n s.places < m → Ends s) where
    after_step :
        (p : Place C)
        → ((q : Place C)
            → Further q p
            → (t : Threads C L) (inv : Inv o w L programs t) → t.places inv.turn ≡ q
            → left C n t.places ≡ m
            → Ends t)
        → (s t : Threads C L) (inv : Inv o w L programs s) → s.places inv.turn ≡ p
        → left C n s.places ≡ m
        → Step C L s t
        → Ends t
    unfolding Ends
    after_step p again s t inv here e (enter i c cs at takes took) =
        let inv' = Step-Inv rec inv (enter i c cs at takes took) in
        let empty = none-inside o w rec inv i took (ap (depth C) at) inv.turn in
        again (inside c (C.body c) cs)
          (starts-outside c (C.body c) cs p (ap (depth C) (sym here) ∙ empty)) _ inv'
          (turned inv' i (inside c (C.body c) cs) (placed-same s.places i _) refl)
          (left-same C n _ s.places
              (λ j lt. placed-pending s.places i _ (sym (ap (pending C) at)) j)
            ∙ e)
    after_step p again s t inv here e (enter_freely i c cs at free) = absurd (never_free C c free)
    after_step p again s t inv here e (leave_freely i c cs a at free) = absurd (never_free C c free)
    after_step p again s t inv here e (access i c cs m k {b} at runs) =
        let inv' = Step-Inv rec inv (access i c cs m k at runs) in
        let same = sym (turned inv i (inside c (acts m k) cs) at refl) ∙ here in
        again (inside c (k b) cs) (subst (Further (inside c (k b) cs)) same (proceeds c m k b cs)) _
          inv' (turned inv' i (inside c (k b) cs) (placed-same s.places i _) refl)
          (left-same C n _ s.places
              (λ j lt. placed-pending s.places i _ (sym (ap (pending C) at)) j)
            ∙ e)
    after_step p again s t inv here e (leave i c cs a at takes) =
        let inv' = Step-Inv rec inv (leave i c cs a at takes) in
        let less =
          left-less C n s.places (placed C s.places i (outside cs)) i
            (busy-below inv i c cs (ap (pending C) at))
            (λ j ne. ap (pending C) (sym (placed-other s.places i j _ ne)))
            (ap (λ x. length (pending C x)) at
              ∙ ap (λ x. suc (length (pending C x))) (sym (placed-same s.places i (outside cs)))) in
        fewer _ inv' (omega (arith, less, e))

    within :
        (p : Place C)
        → Acc Further p
        → (s : Threads C L) (inv : Inv o w L programs s) → s.places inv.turn ≡ p
        → left C n s.places ≡ m
        → Ends s
    unfolding Ends
    within p (Acc.intro _ further) s inv here e =
        Acc.intro _ (λ t. after_step p (λ q h. within q (further q h)) s t inv here e)

  fewer-Ends : (m : ℕ) (s : Threads C L) → Inv o w L programs s → left C n s.places < m → Ends s
  fewer-Ends zero s inv lt = absurd (omega arith)
  fewer-Ends (suc m) s inv lt =
      within (left C n s.places) (λ t inv' less. fewer-Ends m t inv' (omega arith)) _
        (place-Acc (s.places inv.turn)) s inv refl refl

  -- Finitely many threads that share an object of a class that holds its lock, which behaves as
  -- documented, in each of its methods come to an end however they are scheduled: from every state
  -- that they reach the steps are well-founded.
  pub Reach-Ends : {s : Threads C L} → Reach C L programs o w s → Acc (λ t s. Step C L s t) s
  unfolding Ends
  Reach-Ends {s} reach = fewer-Ends (suc (left C n s.places)) s (Reach-Inv rec reach) (omega arith)
