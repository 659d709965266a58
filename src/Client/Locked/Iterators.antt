-- ===== src/Client/Locked/Iterators.antt =====
-- RocksDBIterator.swift: the twelve members of the class that hold its lock, access by access.
use rock_db_swift.Prelude.{
  true, ◌≡◌, refl, sym, Bool, false, not, Option, none, some, Bytes, ◌==◌, if◌then◌else◌,
  Option-cases, inl, inr,
}
use rock_db_swift.System.{System}
use rock_db_swift.Memory.{Ptr, World, M, pure, and_then}
use rock_db_swift.Bridge.Status.{CStatus}
use rock_db_swift.Bridge.Iterator.{
  rocksdb_iterator_destroy, rocksdb_iterator_valid, rocksdb_iterator_seek_to_first,
  rocksdb_iterator_seek_to_last, rocksdb_iterator_seek, rocksdb_iterator_seek_for_prev,
  rocksdb_iterator_next, rocksdb_iterator_prev, rocksdb_iterator_key, rocksdb_iterator_value,
  rocksdb_iterator_status,
}
use rock_db_swift.Client.Error.{Throws, returned, check}
use rock_db_swift.Client.Iterator
use rock_db_swift.Client.Iterator.{RocksDbIterator, Entry, pair, with_iterator}
use rock_db_swift.Client.Locked.{
  Script, ends, sets, beside, does, ◌>>=◌, ◌>>◌, guarded, whole, and_then-and_then, ends-Is,
  does-Is, bind-Is, branch-Is, whole-closing, guarded-beside,
}
use rock_db_swift.Client.Locked.Threads.{Class}

pub data Call : Type 0 where
  closing : Call
  testing : Call
  seeking_to_first : Call
  seeking_to_last : Call
  seeking : (key : Bytes) → Call
  seeking_for_prev : (key : Bytes) → Call
  moving_next : Call
  moving_prev : Call
  reading_key : Call
  reading_value : Call
  reading_key_value : Call
  reading_status : Call

-- Whether the member is `lock.withLock { … }`.
unfoldable pub takes_lock : Call → Bool
takes_lock closing = true
takes_lock testing = true
takes_lock seeking_to_first = true
takes_lock seeking_to_last = true
takes_lock (seeking key) = true
takes_lock (seeking_for_prev key) = true
takes_lock moving_next = true
takes_lock moving_prev = true
takes_lock reading_key = true
takes_lock reading_value = true
takes_lock reading_key_value = true
takes_lock reading_status = true

pub takes_lock-always : (c : Call) → takes_lock c ≡ true
unfolding takes_lock
takes_lock-always closing = refl
takes_lock-always testing = refl
takes_lock-always seeking_to_first = refl
takes_lock-always seeking_to_last = refl
takes_lock-always (seeking key) = refl
takes_lock-always (seeking_for_prev key) = refl
takes_lock-always moving_next = refl
takes_lock-always moving_prev = refl
takes_lock-always reading_key = refl
takes_lock-always reading_value = refl
takes_lock-always reading_key_value = refl
takes_lock-always reading_status = refl

abbrev pub Answer : Call → Type 0
Answer testing = Bool
Answer reading_key = Option Bytes
Answer reading_value = Option Bytes
Answer reading_key_value = Option Entry
Answer reading_status = Option CStatus
Answer _ = Unit {0}

abbrev handle : RocksDbIterator → Option Ptr
handle it = it.handle

module _ {S : System} where
  -- The part of `checkStatus` that holds the lock, and the rest of it.
  unfoldable pub locked_status : RocksDbIterator → M S (Option CStatus)
  locked_status it = elim it.handle [
    | none ↦ pure none
    | some h ↦ λ w. and_then (rocksdb_iterator_status h w) λ status. pure (some status)
  ]

  abbrev pub check_found : Option CStatus → M S (Throws (Unit {0}))
  check_found none = pure (returned tt)
  check_found (some status) = check status

  -- The whole methods.
  unfoldable pub method : (c : Call) → RocksDbIterator → M S (Answer c × RocksDbIterator)
  method closing it = λ w. and_then (Iterator.close it w) λ q. pure (tt, q)
  method testing it = beside (Iterator.is_valid it) it
  method seeking_to_first it = beside (Iterator.seek_to_first it) it
  method seeking_to_last it = beside (Iterator.seek_to_last it) it
  method (seeking key) it = beside (Iterator.seek it key) it
  method (seeking_for_prev key) it = beside (Iterator.seek_for_prev it key) it
  method moving_next it = beside (Iterator.next it) it
  method moving_prev it = beside (Iterator.prev it) it
  method reading_key it = beside (Iterator.key it) it
  method reading_value it = beside (Iterator.value it) it
  method reading_key_value it = beside (Iterator.key_value it) it
  method reading_status it = beside (locked_status it) it

  unfoldable pub body : (c : Call) → Script S RocksDbIterator (Answer c)
  body closing =
      guarded handle tt
        λ h. do does (rocksdb_iterator_destroy h); sets λ it. record it { handle = none }
  body testing =
      guarded handle false λ h. do v ← does (rocksdb_iterator_valid h); ends (not (v == 0))
  body seeking_to_first = guarded handle tt λ h. does (rocksdb_iterator_seek_to_first h)
  body seeking_to_last = guarded handle tt λ h. does (rocksdb_iterator_seek_to_last h)
  body (seeking key) = guarded handle tt λ h. does (rocksdb_iterator_seek h key)
  body (seeking_for_prev key) = guarded handle tt λ h. does (rocksdb_iterator_seek_for_prev h key)
  body moving_next = guarded handle tt λ h. does (rocksdb_iterator_next h)
  body moving_prev = guarded handle tt λ h. does (rocksdb_iterator_prev h)
  body reading_key = guarded handle none λ h. does (rocksdb_iterator_key h)
  body reading_value = guarded handle none λ h. does (rocksdb_iterator_value h)
  body reading_key_value = guarded handle none λ h. do
    v ← does (rocksdb_iterator_valid h)
    if v == 0 then ends none else do
      found_key ← does (rocksdb_iterator_key h)
      found_value ← does (rocksdb_iterator_value h)
      ends (pair found_key found_value)
  body reading_status =
      guarded handle none λ h. do status ← does (rocksdb_iterator_status h); ends (some status)

  -- A member that makes one call of the bridge.
  called :
      {A : Type 0} (missing : A) (m : Ptr → M S A) (it : RocksDbIterator) (w : World S)
      → whole (guarded handle missing λ h. does (m h)) it w
        ≡ beside (elim it.handle [ none ↦ pure missing | some h ↦ m h ]) it w
  called missing m it w = guarded-beside handle missing _ it w m λ h. (does-Is (m h)).runs it w

  pub whole-body :
      (c : Call) (it : RocksDbIterator) (w : World S) → whole (body c) it w ≡ method c it w
  unfolding body method locked_status with_iterator Iterator.close Iterator.is_valid
      Iterator.seek_to_first Iterator.seek_to_last Iterator.seek Iterator.seek_for_prev
      Iterator.next Iterator.prev Iterator.key Iterator.value Iterator.key_value
  whole-body closing it w = whole-closing handle _ _ it w
  whole-body testing it w =
      guarded-beside handle _ _ it w _
        λ h. (bind-Is (does-Is (rocksdb_iterator_valid h)) λ v. ends-Is _).runs it w
  whole-body seeking_to_first it w = called _ _ it w
  whole-body seeking_to_last it w = called _ _ it w
  whole-body (seeking key) it w = called _ _ it w
  whole-body (seeking_for_prev key) it w = called _ _ it w
  whole-body moving_next it w = called _ _ it w
  whole-body moving_prev it w = called _ _ it w
  whole-body reading_key it w = called _ _ it w
  whole-body reading_value it w = called _ _ it w
  whole-body reading_key_value it w = guarded-beside handle _ _ it w _ λ h.
      (bind-Is (does-Is (rocksdb_iterator_valid h)) λ v. branch-Is (v == 0) (ends-Is none) (
          bind-Is (does-Is (rocksdb_iterator_key h)) λ found_key.
            bind-Is (does-Is (rocksdb_iterator_value h)) λ found_value. ends-Is _)).runs
        it w
  whole-body reading_status it w =
      guarded-beside handle _ _ it w _
        λ h. (bind-Is (does-Is (rocksdb_iterator_status h)) λ status. ends-Is _).runs it w

  -- `checkStatus` looks at the status after it has given the lock back.
  check_status-locked_status :
      (it : RocksDbIterator) (w : World S)
      → Iterator.check_status it w ≡ and_then (locked_status it w) check_found
  unfolding Iterator.check_status locked_status
  check_status-locked_status it w = elim (Option-cases it.handle) [
    | inl e ↦ rw e refl
    | inr (h, e) ↦ rw e (sym (and_then-and_then (rocksdb_iterator_status h w) _ _))
  ]

-- RocksDBIterator.swift as a class with a lock.
abbrev pub iterator_class : (S : System) → Class S
iterator_class S = record {
  Object = RocksDbIterator;
  Call = Call;
  Answer = Answer;
  method = method;
  body = body;
  takes_lock = takes_lock;
  always_locked = takes_lock-always;
  body_method = whole-body;
}
