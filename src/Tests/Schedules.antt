-- ===== src/Tests/Schedules.antt =====
-- Threads of the sample library, run in a given order of their accesses, and a lock.
use rock_db_swift.Prelude.{
  ℕ, zero, suc, ◌≡◌, ◌≢◌, ◌≤◌, refl, ap, Option, none, some, List, [], ◌∷◌, map, ◌==◌,
  if◌then◌else◌, Bool-cases, inl, inr, arith,
}
use rock_db_swift.System.{System}
use rock_db_swift.Memory.{World}
use rock_db_swift.Client.Locked.{ends, acts}
use rock_db_swift.Client.Locked.Mutex.{RecursiveLock, IsRecursive}
use rock_db_swift.Client.Locked.Serialised.{Run-cases, Reach-Inv, Reach-Serial}
use rock_db_swift.Client.Locked.Serialised.Finished.{beyond}
use rock_db_swift.Client.Locked.Serialised.Answered.{depth-pending}
use rock_db_swift.Memory.{load_db, load_buffer, malloc_copy}
use rock_db_swift.Bridge.Status.{make_status, rocksdb_free_data}
use rock_db_swift.Bridge.AccessOptions.{
  modify_read_options, modify_write_options, read_options_or_default, write_options_or_default,
  rocksdb_read_options_destroy, rocksdb_write_options_destroy,
}
use rock_db_swift.Bridge.Database.{rocksdb_put, rocksdb_get, live_db, finish_get}
use rock_db_swift.Client.Error.{check, free_message, has_code}
use rock_db_swift.Client.AccessOptions.{create_read_handle, create_write_handle}
use rock_db_swift.Client.Database.{optional, copied_value, data_bytes}
use rock_db_swift.Client.Locked.{guarded, ◌>>=◌}
use rock_db_swift.Client.Locked.Ends.{checked, get_end}
use rock_db_swift.Client.Locked.Databases.{put_body, get_body}
use rock_db_swift.Client.Locked.Stores.{command_body}
use rock_db_swift.Client.AccessOptions.{default_read_options, default_write_options}
use rock_db_swift.Client.Store.{Command, putting, getting}
use rock_db_swift.Client.Locked.Stores.{store_class}
use rock_db_swift.Tests.Sample.{sample}
use rock_db_swift.Tests.Worlds.{database, open_world}
use rock_db_swift.Tests.Values.{key_one, ten}
use rock_db_swift.Client.Scan.{bytes_eq}
use rock_db_swift.Client.Locked.Threads.{
  Class, Place, outside, inside, Threads, Step, enter, access, leave, Reach, start, later, Serial,
  unwound, pending, depth,
}

-- The thread that has the lock, and how often it has it besides the first time.
abbrev lock_of : ℕ → Option (ℕ × ℕ) → Option (Option (ℕ × ℕ))
lock_of i none = some (some (i, 0))
lock_of i (some (j, n)) = if i == j then some (some (j, suc n)) else none

abbrev released : ℕ → ℕ → Option (ℕ × ℕ)
released j zero = none
released j (suc n) = some (j, n)

abbrev unlock_of : ℕ → Option (ℕ × ℕ) → Option (ℕ × ℕ)
unlock_of i none = none
unlock_of i (some (j, n)) = if i == j then released j n else some (j, n)

abbrev held_of : ℕ → Option (ℕ × ℕ) → ℕ
held_of i none = 0
held_of i (some (j, n)) = if i == j then suc n else 0

abbrev pub owner_lock : RecursiveLock
owner_lock = record {
  Lock = Option (ℕ × ℕ);
  new_lock = none;
  lock = lock_of;
  unlock = unlock_of;
  held = held_of;
}

abbrev granted : Option (Option (ℕ × ℕ)) → Option (ℕ × ℕ)
granted none = none
granted (some l) = l

counts : (i : ℕ) (l k : Option (ℕ × ℕ)) → lock_of i l ≡ some k → held_of i k ≡ suc (held_of i l)
counts i none k e = rw (← ap granted e) (ground arith)
counts i (some (j, n)) k e = ground (arith, e)

keeps :
    (i : ℕ) (l k : Option (ℕ × ℕ))
    → lock_of i l ≡ some k
    → (j : ℕ) → j ≢ i
    → held_of j k ≡ held_of j l
keeps i none k e j ne = rw (← ap granted e) (ground (arith, ne))
keeps i (some (h, n)) k e j ne = ground (arith, e, ne)

excludes : (i : ℕ) (l k : Option (ℕ × ℕ)) → lock_of i l ≡ some k → (j : ℕ) → j ≢ i → held_of j l ≡ 0
excludes i none k e j ne = refl
excludes i (some (h, n)) k e j ne = ground (arith, e, ne)

grants :
    (i : ℕ) (l : Option (ℕ × ℕ))
    → ((j : ℕ) → j ≢ i → held_of j l ≡ 0)
    → (k : Option (ℕ × ℕ)) × (lock_of i l ≡ some k)
grants i none h = (_, refl)
grants i (some (j, n)) h = elim (Bool-cases (i == j)) [
  | inl own ↦ (some (j, suc n), rw own refl)
  | inr other ↦ absurd (ground (arith, other, h j (λ e. ground (arith, other, e))))
]

releases : (i n : ℕ) (l : Option (ℕ × ℕ)) → held_of i l ≡ suc n → held_of i (unlock_of i l) ≡ n
releases i n none e = absurd (ground (arith, e))
releases i n (some (j, zero)) e = ground (arith, e)
releases i n (some (j, suc m)) e = ground (arith, e)

others : (i j : ℕ) (l : Option (ℕ × ℕ)) → j ≢ i → held_of j (unlock_of i l) ≡ held_of j l
others i j none ne = refl
others i j (some (h, zero)) ne = ground (arith, ne)
others i j (some (h, suc m)) ne = ground (arith, ne)

pub owner_lock-IsRecursive : IsRecursive owner_lock
owner_lock-IsRecursive = record {
  new_free = λ i. refl;
  lock_counts = λ i l e. counts i l _ e;
  lock_keeps = λ i l e j ne. keeps i l _ e j ne;
  lock_excludes = λ i l e j ne. excludes i l _ e j ne;
  lock_grants = grants;
  unlock_counts = releases;
  unlock_keeps = others;
}

module _ {S : System} {C : Class S} {L : RecursiveLock} where
  -- The next step of a thread, if it has one.
  advance :
      (i : ℕ) (s : Threads C L) (p : Place C)
      → s.places i ≡ p
      → Option ((t : Threads C L) × Step C L s t)
  advance i s (outside []) at = none
  advance i s (outside (c ∷ cs)) at = taken (L.lock i s.lock) refl
    where
      taken : (l : Option L.Lock) → L.lock i s.lock ≡ l → Option ((t : Threads C L) × Step C L s t)
      taken none busy = none
      taken (some l) took = some (_, enter i c cs at (C.always_locked c) took)
  advance i s (inside c (ends a) cs) at = some (_, leave i c cs a at (C.always_locked c))
  advance i s (inside c (acts m k) cs) at = elim (Run-cases (m s.object s.world)) [
    | inl ((b, o), w, e) ↦ some (_, access i c cs m k at e)
    | inr (f, e) ↦ none
  ]

  module _ {programs : ℕ → List C.Call} {o : C.Object} {w : World S} where
    after :
        (s : Threads C L)
        → Reach C L programs o w s
        → Option ((t : Threads C L) × Step C L s t)
        → (t : Threads C L) × Reach C L programs o w t
    after s r none = (s, r)
    after s r (some (t, st)) = (t, later r st)

    unfoldable pub scheduled :
        List ℕ
        → (s : Threads C L) → Reach C L programs o w s
        → (t : Threads C L) × Reach C L programs o w t
    unfolding after advance
    scheduled [] s r = (s, r)
    scheduled (i ∷ is) s r =
        let (t, q) = after s r (advance i s (s.places i) refl) in scheduled is t q

-- Two threads, of which one puts a value and the other reads it.
abbrev pub programs : ℕ → List Command
programs zero = putting ten key_one ∷ []
programs (suc zero) = getting key_one ∷ []
programs _ = []

abbrev pub sample_class : Class sample
sample_class = store_class sample default_read_options default_write_options

unfoldable pub run :
    List ℕ
    → (s : Threads sample_class owner_lock) × Reach sample_class owner_lock programs database
        open_world s
unfolding scheduled Run-cases command_body put_body get_body get_end checked guarded ◌>>=◌
    rocksdb_put rocksdb_get live_db make_status finish_get copied_value data_bytes
    read_options_or_default write_options_or_default create_read_handle create_write_handle
    rocksdb_read_options_destroy rocksdb_write_options_destroy load_db malloc_copy check
    free_message has_code load_buffer rocksdb_free_data optional modify_read_options
    modify_write_options bytes_eq
run is = scheduled is _ start

abbrev pub turns : List ℕ
turns =
    0 ∷ 1 ∷ 0 ∷ 0 ∷ 0 ∷ 0 ∷ 0 ∷ 0 ∷ 0 ∷ 0 ∷ 0 ∷ 0 ∷ 0 ∷ 0 ∷ 1 ∷ 1 ∷ 1 ∷ 1 ∷ 1 ∷ 1 ∷ 1 ∷ 1 ∷ 1 ∷ 1
    ∷ 1 ∷ 1 ∷ 1 ∷ []

run_log : map (λ e. e.thread) (run turns).0.log ≡ 1 ∷ 0 ∷ []
unfolding run
run_log = refl

pub finite : (i : ℕ) → 2 ≤ i → programs i ≡ []
finite zero le = absurd (omega arith)
finite (suc zero) le = absurd (omega arith)
finite (suc (suc i)) le = refl

pub run_ended : (i : ℕ) → depth sample_class ((run turns).0.places i) ≡ 0
unfolding run
run_ended zero = refl
run_ended (suc zero) = refl
run_ended (suc (suc i)) = depth-pending ((run turns).0.places (suc (suc i))) (
    beyond database open_world owner_lock-IsRecursive 2 finite
      (Reach-Inv owner_lock-IsRecursive (run turns).1) (suc (suc i)) (omega arith))

pub run_serial :
    Serial sample_class database open_world
      (run turns).0.log
      (run turns).0.object
      (run turns).0.world
    × ((i : ℕ)
        → programs i
          ≡ unwound sample_class i
              (run turns).0.log
              (pending sample_class ((run turns).0.places i)))
run_serial = Reach-Serial owner_lock-IsRecursive (run turns).1 run_ended
