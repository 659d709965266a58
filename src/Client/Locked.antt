-- ===== src/Client/Locked.antt =====
-- `lock.withLock { … }`: the body of a method of an object that several threads share, cut into the
-- accesses between which another thread may run.
pub mod Batches
pub mod Iterators
pub mod Transactions
pub mod Lites
pub mod Members
pub mod Ends
pub mod Databases
pub mod Life
pub mod Mutex
pub mod Serialised
pub mod Stores
pub mod Threads
pub mod Turns
use rock_db_swift.Prelude.{
  ◌≡◌, refl, sym, ap, ◌∙◌, Bool, true, false, if◌then◌else◌, Option, none, some,
}
use rock_db_swift.System.{System}
use rock_db_swift.Memory
use rock_db_swift.Memory.Effects.{same_answer, same_world}
use rock_db_swift.Client.Lifecycle.Openings.{faulty}
use rock_db_swift.Memory.{Ptr, World, Run, ok, fault, M, pure, and_then}

-- Accesses to the object and to what lies behind it, one after the other, and an answer.
pub data Script (S : System) (O A : Type 0) : Type 1 where
  ends : A → Script S O A
  acts : {B : Type 0} → (O → M S (B × O)) → (B → Script S O A) → Script S O A

module _ {S : System} {O : Type 0} where
  -- An access to a field.
  abbrev pub reads : {B : Type 0} → (O → B) → Script S O B
  reads f = acts (λ o. pure (f o, o)) ends

  abbrev pub sets : (O → O) → Script S O (Unit {0})
  sets f = acts (λ o. pure (tt, f o)) ends

  -- A command that leaves the object's fields alone, with the object.
  abbrev pub beside : {A : Type 0} → M S A → O → M S (A × O)
  beside m o w = and_then (m w) λ a. pure (a, o)

  abbrev pub does : {A : Type 0} → M S A → Script S O A
  does m = acts (beside m) ends

  -- A command on a field that never changes.
  abbrev pub does_with : {A : Type 0} → (O → M S A) → Script S O A
  does_with m = acts (λ o. beside (m o) o) ends

  infixl 5 ◌>>=◌ ◌>>◌
  unfoldable pub ◌>>=◌ : {A B : Type 0} → Script S O A → (A → Script S O B) → Script S O B
  ends a >>= f = f a
  acts m k >>= f = acts m λ b. k b >>= f

  abbrev pub ◌>>◌ : {A B : Type 0} → Script S O A → Script S O B → Script S O B
  s >> t = s >>= λ _. t

  -- `defer { … }` between the creation of a handle and its destruction.
  abbrev pub with_handle :
      {A : Type 0} → M S Ptr → (Ptr → M S (Unit {0})) → (Ptr → Script S O A) → Script S O A
  with_handle create destroy body = do p ← does create; a ← body p; does (destroy p); ends a

  -- `guard let h = handle else { … }`
  unfoldable pub guarded : {A : Type 0} → (O → Option Ptr) → A → (Ptr → Script S O A) → Script S O A
  guarded handle missing body = do
    found ← reads handle
    elim found [ none ↦ ends missing | some h ↦ body h ]

  -- The script without a break.
  unfoldable pub whole : {A : Type 0} → Script S O A → O → M S (A × O)
  whole (ends a) o = pure (a, o)
  whole (acts m k) o = λ w. and_then (m o w) λ x. whole (k x.0) x.1

-- Commands that come after.
pub and_then-and_then :
    {S : System} {A B C : Type 0} (r : Run S A) (f : A → M S B) (g : B → M S C)
    → and_then (and_then r f) g ≡ and_then r λ a w. and_then (f a w) g
and_then-and_then (ok a w) f g = refl
and_then-and_then (fault e) f g = refl

pub and_then-cong :
    {S : System} {A B : Type 0} (r : Run S A) {f g : A → M S B}
    → ((a : A) (w : World S) → f a w ≡ g a w)
    → and_then r f ≡ and_then r g
and_then-cong (ok a w) h = h a w
and_then-cong (fault e) h = refl

pub beside-ok :
    {S : System} {A O : Type 0} {a : A} {o p : O} {u : World S} (run : Run S A)
    → and_then {B = A × O} run (λ a. pure (a, o)) ≡ ok (a, p) u
    → (run ≡ ok a u) × (o ≡ p)
beside-ok (ok x v) e =
    let pair = same_answer e in (rw (ap (λ y. y.0) pair, same_world e) refl, ap (λ y. y.1) pair)
beside-ok (fault f) e = absurd (faulty f _ _ e)

-- Where only the object is the answer.
pub done-ok :
    {S : System} {O : Type 0} {a : Unit {0}} {p : O} {u : World S} (run : Run S O)
    → and_then {B = Unit {0} × O} run (λ q. pure (tt, q)) ≡ ok (a, p) u
    → run ≡ ok p u
done-ok (ok x v) e = rw (ap (λ y. y.1) (same_answer e), same_world e) refl
done-ok (fault f) e = absurd (faulty f _ _ e)

module _ {S : System} {O : Type 0} where
  pub whole-bind :
      {A B : Type 0} (s : Script S O A) (f : A → Script S O B) (o : O) (w : World S)
      → whole (s >>= f) o w ≡ and_then (whole s o w) λ x. whole (f x.0) x.1
  unfolding whole ◌>>=◌
  whole-bind (ends a) f o w = refl
  whole-bind (acts m k) f o w =
      and_then-cong (m o w) (λ x. whole-bind (k x.0) f x.1) ∙ sym (and_then-and_then (m o w) _ _)

  -- The script does what the command does, and leaves the fields alone.
  pub record Is {A : Type 0} (s : Script S O A) (m : M S A) : Type 0 where
    pub runs : (o : O) (w : World S) → whole s o w ≡ beside m o w

  pub ends-Is : {A : Type 0} (a : A) → Is (ends a) (pure a)
  unfolding whole
  ends-Is a = record { runs = λ o w. refl }

  pub does-Is : {A : Type 0} (m : M S A) → Is (does m) m
  unfolding whole
  does-Is m = record { runs = λ o w. and_then-and_then (m w) _ _ }

  pub whole-does_with :
      {A : Type 0} (m : O → M S A) (o : O) (w : World S)
      → whole (does_with m) o w ≡ beside (m o) o w
  unfolding whole
  whole-does_with m o w = and_then-and_then (m o w) _ _

  pub bind-Is :
      {A B : Type 0} {s : Script S O A} {m : M S A} {f : A → Script S O B} {g : A → M S B}
      → Is s m
      → ((a : A) → Is (f a) (g a))
      → Is (s >>= f) (Memory.◌>>=◌ m g)
  bind-Is {s} {m} {f} first rest = record {
    runs = λ o w.
        whole-bind s f o w
        ∙ ap (λ r. and_then r λ x. whole (f x.0) x.1) (first.runs o w)
        ∙ and_then-and_then (m w) _ _
        ∙ and_then-cong (m w) (λ a. (rest a).runs o)
        ∙ sym (and_then-and_then (m w) _ _);
  }

  pub branch-Is :
      {A : Type 0} {first second : Script S O A} {m n : M S A} (b : Bool)
      → Is first m
      → Is second n
      → Is (if b then first else second) (if b then m else n)
  branch-Is true x y = x
  branch-Is false x y = y

  pub with_handle-Is :
      {A : Type 0} (create : M S Ptr) (destroy : Ptr → M S (Unit {0})) {body : Ptr → Script S O A}
      {m : Ptr → M S A}
      → ((p : Ptr) → Is (body p) (m p))
      → Is (with_handle create destroy body) (Memory.with_handle create destroy m)
  with_handle-Is create destroy same =
      bind-Is (does-Is create)
        λ p. bind-Is (same p) λ a. bind-Is (does-Is (destroy p)) λ _. ends-Is a

  -- With a test of the handle that the object has.
  module _ {A : Type 0} (handle : O → Option Ptr) (missing : A) (body : Ptr → Script S O A) (o : O)
      (w : World S) where
    pub guarded-found :
        (found : Option Ptr)
        → handle o ≡ found
        → whole (guarded handle missing body) o w
          ≡ whole (elim found [ none ↦ ends missing | some h ↦ body h ]) o w
    unfolding whole guarded ◌>>=◌
    guarded-found found e = ap (λ x. whole (elim x [ none ↦ ends missing | some h ↦ body h ]) o w) e

    pub guarded-beside :
        (m : Ptr → M S A)
        → ((h : Ptr) → whole (body h) o w ≡ beside (m h) o w)
        → whole (guarded handle missing body) o w
          ≡ beside (elim (handle o) [ none ↦ pure missing | some h ↦ m h ]) o w
    unfolding whole
    guarded-beside m same = guarded-found (handle o) refl ∙ cases (handle o)
      where
        cases :
            (found : Option Ptr)
            → whole (elim found [ none ↦ ends missing | some h ↦ body h ]) o w
              ≡ beside (elim found [ none ↦ pure missing | some h ↦ m h ]) o w
        cases none = refl
        cases (some h) = same h

  -- `if let h = handle { destroy(h); handle = nil }`
  module _ (handle : O → Option Ptr) (destroy : Ptr → M S (Unit {0})) (cleared : O → O) (o : O)
      (w : World S) where
    pub whole-closing :
        whole (guarded handle tt λ h. does (destroy h) >> sets cleared) o w
        ≡ and_then
            (elim (handle o) as (λ x. M S O) [
              | none ↦ pure o
              | some h ↦ Memory.◌>>◌ (destroy h) (pure (cleared o))
            ]
              w)
            (λ q. pure (tt, q))
    unfolding whole ◌>>=◌
    whole-closing = guarded-found handle tt _ o w (handle o) refl ∙ cases (handle o)
      where
        cases :
            (found : Option Ptr)
            → whole
                (elim found as (λ x. Script S O (Unit {0})) [
                  | none ↦ ends tt
                  | some h ↦ does (destroy h) >> sets cleared
                ])
                o
                w
              ≡ and_then
                  (elim found as (λ x. M S O) [
                    | none ↦ pure o
                    | some h ↦ Memory.◌>>◌ (destroy h) (pure (cleared o))
                  ]
                    w)
                  (λ q. pure (tt, q))
        cases none = refl
        cases (some h) =
            and_then-and_then (destroy h w) _ _ ∙ sym (and_then-and_then (destroy h w) _ _)
