-- ===== src/Client/Locked/Threads.antt =====
-- Threads that use one object, whose methods may hold its lock from their first access to their last:
-- any number of threads, each with the calls it makes, in any order of their accesses.
use rock_db_swift.Prelude.{ℕ, ◌≡◌, ◌≢◌, Bool, true, false, some, List, [], ◌∷◌, ◌==◌, if◌then◌else◌}
use rock_db_swift.System.{System}
use rock_db_swift.Memory.{World, ok, M, Fault, fault}
use rock_db_swift.Client.Locked.{Script, ends, acts, whole}
use rock_db_swift.Client.Locked.Mutex.{RecursiveLock}

-- A class with a lock: its methods, which of them take it, and their bodies access by access.
pub record Class (S : System) : Type 1 where
  pub Object : Type 0
  pub Call : Type 0
  pub Answer : Call → Type 0
  pub method : (c : Call) → Object → M S (Answer c × Object)
  pub body : (c : Call) → Script S Object (Answer c)
  pub takes_lock : Call → Bool
  pub always_locked : (c : Call) → takes_lock c ≡ true
  pub body_method : (c : Call) (o : Object) (w : World S) → whole (body c) o w ≡ method c o w

-- The class with some of its calls only.
abbrev pub restricted : {S : System} (C : Class S) → (C.Call → Bool) → Class S
restricted C f = record {
  Object = C.Object;
  Call = (c : C.Call) × (f c ≡ true);
  Answer = λ c. C.Answer c.0;
  method = λ c. C.method c.0;
  body = λ c. C.body c.0;
  takes_lock = λ c. C.takes_lock c.0;
  always_locked = λ c. C.always_locked c.0;
  body_method = λ c. C.body_method c.0;
}

module _ {S : System} (C : Class S) where
  -- Where a thread stands: outside the methods, with the calls it has left, or inside one, with
  -- what is left of its body.
  pub data Place : Type 1 where
    outside : List C.Call → Place
    inside : (c : C.Call) → Script S C.Object (C.Answer c) → List C.Call → Place

  -- A call that has been answered.
  pub record Entry : Type 0 where
    pub thread : ℕ
    pub call : C.Call
    pub answer : C.Answer call

  -- The answers in the order in which the calls returned, the last one first.
  pub record Threads (L : RecursiveLock) : Type 1 where
    pub object : C.Object
    pub world : World S
    pub lock : L.Lock
    pub places : ℕ → Place
    pub log : List Entry

  abbrev pub placed : (ℕ → Place) → ℕ → Place → ℕ → Place
  placed places i p j = if j == i then p else places j

  pub data Step (L : RecursiveLock) (s : Threads L) : Threads L → Type 1 where
    -- `lock.withLock {`
    enter :
        (i : ℕ) (c : C.Call) (cs : List C.Call) {l : L.Lock}
        → s.places i ≡ outside (c ∷ cs)
        → C.takes_lock c ≡ true
        → L.lock i s.lock ≡ some l
        → Step L s (record s { lock = l; places = placed s.places i (inside c (C.body c) cs) })
    -- A method that does not take the lock waits for nobody.
    enter_freely :
        (i : ℕ) (c : C.Call) (cs : List C.Call)
        → s.places i ≡ outside (c ∷ cs)
        → C.takes_lock c ≡ false
        → Step L s (record s { places = placed s.places i (inside c (C.body c) cs) })
    access :
        (i : ℕ) (c : C.Call) (cs : List C.Call) {B : Type 0} (m : C.Object → M S (B × C.Object))
        (k : B → Script S C.Object (C.Answer c)) {b : B} {o : C.Object} {w : World S}
        → s.places i ≡ inside c (acts m k) cs
        → m s.object s.world ≡ ok (b, o) w
        → Step L s
            (record s { object = o; world = w; places = placed s.places i (inside c (k b) cs) })
    -- `}`, also where the method throws
    leave :
        (i : ℕ) (c : C.Call) (cs : List C.Call) (a : C.Answer c)
        → s.places i ≡ inside c (ends a) cs
        → C.takes_lock c ≡ true
        → Step L s (record s {
          lock = L.unlock i s.lock;
          places = placed s.places i (outside cs);
          log = record { thread = i; call = c; answer = a } ∷ s.log;
        })
    leave_freely :
        (i : ℕ) (c : C.Call) (cs : List C.Call) (a : C.Answer c)
        → s.places i ≡ inside c (ends a) cs
        → C.takes_lock c ≡ false
        → Step L s (record s {
          places = placed s.places i (outside cs);
          log = record { thread = i; call = c; answer = a } ∷ s.log;
        })

  module _ (L : RecursiveLock) (programs : ℕ → List C.Call) (o : C.Object) (w : World S) where
    abbrev pub begun : Threads L
    begun = record {
      object = o;
      world = w;
      lock = L.new_lock;
      places = λ i. outside (programs i);
      log = [];
    }

    pub data Reach : Threads L → Type 1 where
      start : Reach begun
      later : {s t : Threads L} → Reach s → Step L s t → Reach t

  -- The calls of a log, one whole method after the other, with the answers of the log.
  pub data Serial (o : C.Object) (w : World S) : List Entry → C.Object → World S → Type 0 where
    nothing : Serial o w [] o w
    next :
        {es : List Entry} {q p : C.Object} {v u : World S} (i : ℕ) (c : C.Call) (a : C.Answer c)
        → Serial o w es q v
        → C.method c q v ≡ ok (a, p) u
        → Serial o w (record { thread = i; call = c; answer = a } ∷ es) p u

  -- Whole methods, one after the other, return or throw.
  pub record AlwaysAnswers (o : C.Object) (w : World S) : Type 0 where
    pub answers :
        (es : List Entry) (q : C.Object) (v : World S)
        → Serial o w es q v
        → (c : C.Call) (f : Fault) → C.method c q v ≢ fault f

  -- The calls of a thread that a log answers, and those that follow.
  unfoldable pub unwound : ℕ → List Entry → List C.Call → List C.Call
  unwound i [] cs = cs
  unwound i (e ∷ es) cs = unwound i es (if e.thread == i then e.call ∷ cs else cs)

  abbrev pub pending : Place → List C.Call
  pending (outside cs) = cs
  pending (inside c s cs) = c ∷ cs

  -- How often a thread at the place has the lock.
  abbrev pub depth : Place → ℕ
  depth (outside cs) = 0
  depth (inside c s cs) = 1
