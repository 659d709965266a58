-- ===== src/Client/Locked/Members.antt =====
-- The five classes of the program that have a lock, and threads that share an object of one of them.
use rock_db_swift.Prelude.{ℕ, ◌≡◌, List}
use rock_db_swift.System.{System}
use rock_db_swift.Memory.{World}
use rock_db_swift.Client.Locked.Mutex.{RecursiveLock, IsRecursive}
use rock_db_swift.Client.Locked.Threads.{Class, Threads, Reach, Serial, unwound, pending, depth}
use rock_db_swift.Client.Locked.Serialised.{Reach-Serial}
use rock_db_swift.Client.Locked.Databases.Whole.{database_class}
use rock_db_swift.Client.Locked.Batches.{batch_class}
use rock_db_swift.Client.Locked.Iterators.{iterator_class}
use rock_db_swift.Client.Locked.Transactions.Whole.{transaction_class}
use rock_db_swift.Client.Locked.Lites.{lite_class}

pub data Kind : Type 0 where
  databases batches iterators transactions lites : Kind

abbrev pub class_of : (S : System) → Kind → Class S
class_of S databases = database_class S
class_of S batches = batch_class S
class_of S iterators = iterator_class S
class_of S transactions = transaction_class S
class_of S lites = lite_class S

-- Threads share an object of RocksDB, RocksDBBatch, RocksDBIterator, RocksDBTransaction or
-- RocksDBLite, whose lock behaves as documented, and call its members that take the lock (of
-- `checkStatus`, the part that does); their accesses to the object, the heap and the library are
-- interleaved in any order. In every state that they reach and in which none of them is in a
-- member, the calls that have been answered, run as whole methods one after the other in the order
-- in which they returned, give the answers that were given, the object and the world, and each
-- thread has had the answers to the first calls of its program, in its order, and has the others
-- left.
pub Reach-members :
    {S : System} {L : RecursiveLock} (rec : IsRecursive L) (kind : Kind)
    {programs : ℕ → List (class_of S kind).Call} {o : (class_of S kind).Object} {w : World S}
    {s : Threads (class_of S kind) L}
    → Reach (class_of S kind) L programs o w s
    → ((i : ℕ) → depth (class_of S kind) (s.places i) ≡ 0)
    → Serial (class_of S kind) o w s.log s.object s.world
      × ((i : ℕ)
          → programs i ≡ unwound (class_of S kind) i s.log (pending (class_of S kind) (s.places i)))
Reach-members rec kind reach out = Reach-Serial rec reach out
