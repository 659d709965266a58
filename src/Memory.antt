-- ===== src/Memory.antt =====
-- The C heap that the bridge and the Swift layer share, and commands over it. A cell is one
-- allocation: a handle structure of RocksDBBridge.cpp, or a buffer from `malloc` or `strdup`.
pub mod Effects
pub mod Creations
use rock_db_swift.Prelude.{
  ℕ, ◌+◌, Bool, Option, none, some, [], ◌∷◌, Bytes, ◌==◌, if◌then◌else◌, length,
}
use rock_db_swift.System.{System, Options, ReadOptions, WriteOptions}

abbrev pub Ptr : Type 0
Ptr = ℕ

abbrev pub null : Ptr
null = 0

-- `RocksDBHandle`
pub record DbHandle : Type 0 where
  pub db : Option ℕ
  pub txn_db : Option ℕ
  pub is_transactional : Bool

pub data Cell (S : System) : Type 0 where
  db : DbHandle → Cell S
  iterator : Option ℕ → Cell S
  batch : S.Batch → Cell S
  transaction : Option ℕ → Cell S
  options : Options S.Extra → Cell S
  read_options : ReadOptions → Cell S
  write_options : WriteOptions → Cell S
  snapshot : Option ℕ → Cell S
  buffer : Bytes → Cell S

-- `next` is the address of the next allocation; addresses are not used twice.
pub record World (S : System) : Type 0 where
  pub heap : Ptr → Option (Cell S)
  pub next : Ptr
  pub engine : S.State

-- `dangling`: an access through a pointer that is null, freed or of another type. `precondition`:
-- a call of the library that its documentation forbids. `trap`: a Swift run-time check stops
-- the process. `out_of_fuel`: a loop of the model was given too few rounds.
pub data Fault : Type 0 where
  dangling precondition trap out_of_fuel : Fault

pub data Run (S : System) (A : Type 0) : Type 0 where
  ok : A → World S → Run S A
  fault : Fault → Run S A

abbrev pub M : System → Type 0 → Type 0
M S A = World S → Run S A

module _ {S : System} {A : Type 0} where
  abbrev pub pure : A → M S A
  pure = ok

  abbrev pub stop : Fault → M S A
  stop f w = fault f

module _ {S : System} {A B : Type 0} where
  abbrev pub and_then : Run S A → (A → M S B) → Run S B
  and_then (ok a w) k = k a w
  and_then (fault f) k = fault f

  infixl 5 ◌>>=◌ ◌>>◌
  abbrev pub ◌>>=◌ : M S A → (A → M S B) → M S B
  m >>= k = λ w. and_then (m w) k

  abbrev pub ◌>>◌ : M S A → M S B → M S B
  m >> n = m >>= λ _. n

module _ (S : System) where
  -- A call of the library: it changes its own state only.
  abbrev pub call : {A : Type 0} → (S.State → A × S.State) → M S A
  call f w = let (a, s) = f w.engine in ok a (record w { engine = s })

  abbrev pub effect : (S.State → S.State) → M S (Unit {0})
  effect f w = ok tt (record w { engine = f w.engine })

  abbrev pub ask : {A : Type 0} → (S.State → A) → M S A
  ask f w = ok (f w.engine) w

  -- The library requires the condition; without it the call is undefined.
  abbrev pub requires : (S.State → Bool) → M S (Unit {0})
  requires c w = if c w.engine then ok tt w else fault precondition

module _ {S : System} where
  abbrev pub update : (Ptr → Option (Cell S)) → Ptr → Option (Cell S) → Ptr → Option (Cell S)
  update h p c a = if a == p then c else h a

  -- `new`
  unfoldable pub new : Cell S → M S Ptr
  new c w = ok w.next (record w { heap = update w.heap w.next (some c); next = w.next + 1 })

  -- The structure behind a pointer.
  unfoldable pub load : Ptr → M S (Cell S)
  load p w =
      if p == null
      then fault dangling
      else elim (w.heap p) [ none ↦ fault dangling | some c ↦ ok c w ]

  unfoldable pub store : Ptr → Cell S → M S (Unit {0})
  store p c w = ok tt (record w { heap = update w.heap p (some c) })

  -- `delete` and `free`: of a null pointer they do nothing.
  unfoldable pub free : Ptr → M S (Unit {0})
  unfolding load
  free p w =
      if p == null
      then ok tt w
      else and_then (load p w) λ _ w. ok tt (record w { heap = update w.heap p none })

  -- `malloc` and a copy into the block; null where the allocator refuses.
  unfoldable pub malloc_copy : Bytes → M S Ptr
  unfolding new
  malloc_copy bytes w = if S.grants w.engine (length bytes) then new (buffer bytes) w else ok null w

-- The bytes of a C string: those before the first zero.
pub until_nul : Bytes → Bytes
until_nul [] = []
until_nul (b ∷ bytes) = let rest = until_nul bytes in if b == 0 then [] else b ∷ rest

module _ {S : System} where
  -- `strdup`: the block has room for the terminating zero.
  unfoldable pub strdup : Bytes → M S Ptr
  unfolding new
  strdup bytes w =
      if S.grants w.engine (length (until_nul bytes) + 1)
      then new (buffer (until_nul bytes)) w
      else ok null w

  -- `body` between the creation of a handle and its destruction, as `defer` runs it on every exit.
  abbrev pub with_handle : {A : Type 0} → M S Ptr → (Ptr → M S (Unit {0})) → (Ptr → M S A) → M S A
  with_handle create destroy body = do p ← create; a ← body p; destroy p; pure a

  -- Structures behind typed pointers.
  unfoldable pub load_db : Ptr → M S DbHandle
  unfolding load
  load_db p = do c ← load p; elim c [ db h ↦ pure h | _ ↦ stop dangling ]

  unfoldable pub load_iterator : Ptr → M S (Option ℕ)
  unfolding load
  load_iterator p = do c ← load p; elim c [ iterator i ↦ pure i | _ ↦ stop dangling ]

  unfoldable pub load_batch : Ptr → M S S.Batch
  unfolding load
  load_batch p = do c ← load p; elim c [ batch b ↦ pure b | _ ↦ stop dangling ]

  unfoldable pub load_transaction : Ptr → M S (Option ℕ)
  unfolding load
  load_transaction p = do c ← load p; elim c [ transaction t ↦ pure t | _ ↦ stop dangling ]

  unfoldable pub load_options : Ptr → M S (Options S.Extra)
  unfolding load
  load_options p = do c ← load p; elim c [ options o ↦ pure o | _ ↦ stop dangling ]

  unfoldable pub load_read_options : Ptr → M S ReadOptions
  unfolding load
  load_read_options p = do c ← load p; elim c [ read_options o ↦ pure o | _ ↦ stop dangling ]

  unfoldable pub load_write_options : Ptr → M S WriteOptions
  unfolding load
  load_write_options p = do c ← load p; elim c [ write_options o ↦ pure o | _ ↦ stop dangling ]

  unfoldable pub load_snapshot : Ptr → M S (Option ℕ)
  unfolding load
  load_snapshot p = do c ← load p; elim c [ snapshot s ↦ pure s | _ ↦ stop dangling ]

  unfoldable pub load_buffer : Ptr → M S Bytes
  unfolding load
  load_buffer p = do c ← load p; elim c [ buffer b ↦ pure b | _ ↦ stop dangling ]
