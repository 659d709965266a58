-- ===== src/Client/Locked/Mutex.antt =====
-- `NSRecursiveLock` of Foundation, as it is documented: a thread may take the lock again while it
-- has it, and no other thread may until it has given it back as often.
use rock_db_swift.Prelude.{ℕ, suc, ◌≡◌, ◌≢◌, Option, some}

pub record RecursiveLock : Type 1 where
  pub Lock : Type 0
  -- `NSRecursiveLock()`
  pub new_lock : Lock
  -- `lock()` of a thread: nothing where the thread has to wait.
  pub lock : ℕ → Lock → Option Lock
  pub unlock : ℕ → Lock → Lock
  -- How often the thread has the lock.
  pub held : ℕ → Lock → ℕ

pub record IsRecursive (L : RecursiveLock) : Type 0 where
  pub new_free : (i : ℕ) → L.held i L.new_lock ≡ 0
  pub lock_counts :
      (i : ℕ) (l : L.Lock) {k : L.Lock} → L.lock i l ≡ some k → L.held i k ≡ suc (L.held i l)
  pub lock_keeps :
      (i : ℕ) (l : L.Lock) {k : L.Lock}
      → L.lock i l ≡ some k
      → (j : ℕ) → j ≢ i
      → L.held j k ≡ L.held j l
  pub lock_excludes :
      (i : ℕ) (l : L.Lock) {k : L.Lock} → L.lock i l ≡ some k → (j : ℕ) → j ≢ i → L.held j l ≡ 0
  pub lock_grants :
      (i : ℕ) (l : L.Lock)
      → ((j : ℕ) → j ≢ i → L.held j l ≡ 0)
      → (k : L.Lock) × (L.lock i l ≡ some k)
  pub unlock_counts : (i n : ℕ) (l : L.Lock) → L.held i l ≡ suc n → L.held i (L.unlock i l) ≡ n
  pub unlock_keeps : (i j : ℕ) (l : L.Lock) → j ≢ i → L.held j (L.unlock i l) ≡ L.held j l
