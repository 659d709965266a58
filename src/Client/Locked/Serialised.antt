-- ===== src/Client/Locked/Serialised.antt =====
-- What the lock gives: the calls of all threads take effect one whole method after the other.
mod Left
pub mod Finished
pub mod Answered
use rock_db_swift.Prelude.{
  ℕ, ◌≡◌, ◌≢◌, refl, sym, ap, ◌∙◌, Bool, true, false, Option, none, some, List, [], ◌∷◌, ◌==◌,
  Bool-cases, inl, inr, ◌⊎◌, arith,
}
use rock_db_swift.System.{System}
use rock_db_swift.Memory.{World, Run, ok, M, and_then, Fault, fault}
use rock_db_swift.Client.Locked.{Script, ends, acts, whole}
use rock_db_swift.Client.Locked.Mutex.{RecursiveLock, IsRecursive}
use rock_db_swift.Client.Locked.Threads.{
  Class, Place, outside, inside, Entry, Threads, placed, Step, enter, enter_freely, access, leave,
  leave_freely, begun, Reach, start, later, Serial, AlwaysAnswers, nothing, next, unwound, pending,
  depth,
}
use rock_db_swift.Client.Locked.Turns.{
  Leads, Inv, Inv-start, Inv-enter, Inv-access, Inv-leave, inside-turn, inside-Leads, all-outside,
}

unfoldable pub Run-cases :
    {S : System} {A : Type 0} (r : Run S A)
    → ((a : A) × (w : World S) × (r ≡ ok a w)) ⊎ ((f : Fault) × (r ≡ fault f))
Run-cases (ok a w) = inl (a, w, refl)
Run-cases (fault f) = inr (f, refl)

-- No method of the class goes without the lock.
pub never_free : {S : System} (C : Class S) (c : C.Call) → C.takes_lock c ≡ false → ⊥
never_free C c free = ground (arith, sym (C.always_locked c) ∙ free)

module _ {S : System} {C : Class S} {L : RecursiveLock} (rec : IsRecursive L)
    {programs : ℕ → List C.Call} {o : C.Object} {w : World S} where
  pub Step-Inv : {s t : Threads C L} → Inv o w L programs s → Step C L s t → Inv o w L programs t
  Step-Inv inv (enter i c cs at takes took) = Inv-enter o w rec inv i c cs at took
  Step-Inv inv (enter_freely i c cs at free) = absurd (never_free C c free)
  Step-Inv inv (access i c cs m k at runs) = Inv-access o w rec inv i c cs m k at runs
  Step-Inv inv (leave i c cs a at takes) = Inv-leave o w rec inv i c cs a at
  Step-Inv inv (leave_freely i c cs a at free) = absurd (never_free C c free)

  pub Reach-Inv : {s : Threads C L} → Reach C L programs o w s → Inv o w L programs s
  Reach-Inv start = Inv-start o w rec
  Reach-Inv (later r st) = Step-Inv (Reach-Inv r) st

  -- Threads share an object of a class that holds its lock, which behaves as documented, in each
  -- of its methods; their accesses are interleaved in any order. In every state that they reach
  -- and in which none of them is in a method, the calls that have been answered, run as whole
  -- methods one after the other in the order in which they returned, give the answers that were
  -- given, the object and the world, and each thread has had the answers to the first calls of its
  -- program, in its order, and has the others left.
  pub Reach-Serial :
      {s : Threads C L}
      → Reach C L programs o w s
      → ((i : ℕ) → depth C (s.places i) ≡ 0)
      → Serial C o w s.log s.object s.world
        × ((i : ℕ) → programs i ≡ unwound C i s.log (pending C (s.places i)))
  Reach-Serial r out = let inv = Reach-Inv r in (all-outside o w rec inv out, inv.ordered)

outside-pending :
    {S : System} {C : Class S} (p : Place C) (cs : List C.Call)
    → depth C p ≡ 0
    → pending C p ≡ cs
    → p ≡ outside cs
outside-pending (outside ds) cs e h = ap outside h
outside-pending (inside c rest ds) cs e h = absurd (ground (arith, e))

module _ {S : System} {C : Class S} {L : RecursiveLock} where
  -- The next step of a thread that is in a method, if what is left of its body has an answer.
  next_access :
      {s : Threads C L} (i : ℕ) (c : C.Call) (rest : Script S C.Object (C.Answer c))
      (cs : List C.Call)
      → s.places i ≡ inside c rest cs
      → ((f : Fault) → whole rest s.object s.world ≢ fault f)
      → (t : Threads C L) × Step C L s t
  unfolding whole
  next_access i c (ends a) cs at safe = (_, leave i c cs a at (C.always_locked c))
  next_access {s} i c (acts m k) cs at safe = elim (Run-cases (m s.object s.world)) [
    | inl ((b, p), u, e) ↦ (_, access i c cs m k at e)
    | inr (f, e) ↦ absurd (safe f (ap (λ r. and_then r λ x. whole (k x.0) x.1) e))
  ]

  -- Where no thread is in a method, the lock is granted.
  next_enter :
      {s : Threads C L}
      → IsRecursive L
      → ((j : ℕ) → L.held j s.lock ≡ 0)
      → (i : ℕ) (c : C.Call) (cs : List C.Call) → s.places i ≡ outside (c ∷ cs)
      → (t : Threads C L) × Step C L s t
  next_enter {s} rec free i c cs at =
      let (l, took) = rec.lock_grants i s.lock (λ j n. free j) in
      (_, enter i c cs at (C.always_locked c) took)

module _ {S : System} {C : Class S} {L : RecursiveLock} (rec : IsRecursive L)
    {programs : ℕ → List C.Call} {o : C.Object} {w : World S} (safe : AlwaysAnswers C o w) where
  next_step :
      {s : Threads C L} (inv : Inv o w L programs s) (place : Place C)
      → s.places inv.turn ≡ place
      → Leads o w s.log s.object s.world place
      → (i : ℕ) (c : C.Call) (cs : List C.Call) → pending C (s.places i) ≡ c ∷ cs
      → (t : Threads C L) × Step C L s t
  unfolding Leads
  next_step {s} inv (inside d rest ds) at (q, v, serial, same) i c cs e =
      next_access inv.turn d rest ds at
        λ f h. safe.answers _ q v serial d f (sym (C.body_method d q v) ∙ same ∙ h)
  next_step {s} inv (outside ds) at leads i c cs e =
      next_enter rec (λ j. inv.counted j ∙ out j) i c cs (outside-pending (s.places i) _ (out i) e)
    where
      out : (j : ℕ) → depth C (s.places j) ≡ 0
      out j = elim (Bool-cases (j == inv.turn)) [
        | inl same ↦ ap (λ k. depth C (s.places k)) (turned same) ∙ ap (depth C) at
        | inr other ↦ inv.others j (λ h. ground (arith, other, h))
      ]
        where
          turned : (j == inv.turn) ≡ true → j ≡ inv.turn
          turned same = ground (arith, same)

  -- If whole methods, one after the other, always return or throw, then in every state that the
  -- threads reach, in which one of them has a call left, some thread can move.
  pub no_deadlock :
      {s : Threads C L}
      → Reach C L programs o w s
      → (i : ℕ) (c : C.Call) (cs : List C.Call) → pending C (s.places i) ≡ c ∷ cs
      → (t : Threads C L) × Step C L s t
  no_deadlock {s} r = let inv = Reach-Inv rec r in next_step inv (s.places inv.turn) refl inv.leads
