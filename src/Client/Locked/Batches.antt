-- ===== src/Client/Locked/Batches.antt =====
-- RocksDBBatch.swift: the six members of the class that hold its lock, access by access.
use rock_db_swift.Prelude.{refl, Bool, true, ℕ, ◌≡◌, Bytes}
use rock_db_swift.System.{System}
use rock_db_swift.Memory.{World, M}
use rock_db_swift.Bridge.Batch.{
  rocksdb_batch_put, rocksdb_batch_delete, rocksdb_batch_delete_range, rocksdb_batch_clear,
  rocksdb_batch_count, rocksdb_batch_data_size,
}
use rock_db_swift.Client.Batch
use rock_db_swift.Client.Batch.{RocksDbBatch}
use rock_db_swift.Client.Locked.{Script, beside, does_with, whole, whole-does_with}
use rock_db_swift.Client.Locked.Threads.{Class}

pub data Call : Type 0 where
  putting : (value key : Bytes) → Call
  deleting : (key : Bytes) → Call
  deleting_range : (start_key end_key : Bytes) → Call
  clearing : Call
  counting : Call
  sizing : Call

-- Whether the member is `lock.withLock { … }`.
unfoldable pub takes_lock : Call → Bool
takes_lock (putting value key) = true
takes_lock (deleting key) = true
takes_lock (deleting_range start_key end_key) = true
takes_lock clearing = true
takes_lock counting = true
takes_lock sizing = true

pub takes_lock-always : (c : Call) → takes_lock c ≡ true
unfolding takes_lock
takes_lock-always (putting value key) = refl
takes_lock-always (deleting key) = refl
takes_lock-always (deleting_range start_key end_key) = refl
takes_lock-always clearing = refl
takes_lock-always counting = refl
takes_lock-always sizing = refl

abbrev pub Answer : Call → Type 0
Answer (putting value key) = Unit {0}
Answer (deleting key) = Unit {0}
Answer (deleting_range start_key end_key) = Unit {0}
Answer clearing = Unit {0}
Answer counting = ℕ
Answer sizing = ℕ

module _ {S : System} where
  -- The whole methods.
  unfoldable pub command : (c : Call) → RocksDbBatch → M S (Answer c)
  command (putting value key) b = Batch.put b value key
  command (deleting key) b = Batch.delete b key
  command (deleting_range start_key end_key) b = Batch.delete_range b start_key end_key
  command clearing b = Batch.clear b
  command counting b = Batch.count b
  command sizing b = Batch.data_size b

  -- One call of the bridge each.
  unfoldable pub body : (c : Call) → Script S RocksDbBatch (Answer c)
  body (putting value key) = does_with λ b. rocksdb_batch_put b.handle key value
  body (deleting key) = does_with λ b. rocksdb_batch_delete b.handle key
  body (deleting_range start_key end_key) =
      does_with λ b. rocksdb_batch_delete_range b.handle start_key end_key
  body clearing = does_with λ b. rocksdb_batch_clear b.handle
  body counting = does_with λ b. rocksdb_batch_count b.handle
  body sizing = does_with λ b. rocksdb_batch_data_size b.handle

  pub whole-body :
      (c : Call) (b : RocksDbBatch) (w : World S) → whole (body c) b w ≡ beside (command c b) b w
  unfolding body command Batch.put Batch.delete Batch.delete_range Batch.clear Batch.count
      Batch.data_size
  whole-body (putting value key) b w = whole-does_with _ b w
  whole-body (deleting key) b w = whole-does_with _ b w
  whole-body (deleting_range start_key end_key) b w = whole-does_with _ b w
  whole-body clearing b w = whole-does_with _ b w
  whole-body counting b w = whole-does_with _ b w
  whole-body sizing b w = whole-does_with _ b w

-- RocksDBBatch.swift as a class with a lock.
abbrev pub batch_class : (S : System) → Class S
batch_class S = record {
  Object = RocksDbBatch;
  Call = Call;
  Answer = Answer;
  method = λ c b. beside (command c b) b;
  body = body;
  takes_lock = takes_lock;
  always_locked = takes_lock-always;
  body_method = whole-body;
}
