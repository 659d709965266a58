-- ===== src/Client/Locked/Stores.antt =====
-- Threads that `put`, `delete` and `get` on one open database of RocksDB.swift.
pub mod Agreement
use rock_db_swift.Prelude.{◌≡◌, refl, sym, ap, ◌∙◌, Option, none, Bytes, List, [], ◌∷◌, ◌++◌}
use rock_db_swift.System.{System}
use rock_db_swift.Memory.{World, M, pure, and_then}
use rock_db_swift.Client.Error.{Throws, returned, threw}
use rock_db_swift.Client.AccessOptions.{RocksDbReadOptions, RocksDbWriteOptions}
use rock_db_swift.Client.Database
use rock_db_swift.Client.Database.{RocksDb, ◌>>?◌, resume}
use rock_db_swift.Client.Store.{Command, putting, deleting, getting, run_command}
use rock_db_swift.Client.Locked.{
  Script, ends, beside, ◌>>=◌, whole, and_then-and_then, and_then-cong, whole-bind,
}
use rock_db_swift.Client.Locked.Threads.{Class, Entry}
use rock_db_swift.Client.Locked.Databases
use rock_db_swift.Client.Locked.Databases.{Body, put_body, get_body, delete_body, method, body}
use rock_db_swift.Client.Locked.Databases.Whole.{whole-body}

-- What a write gives, as an answer of a read.
abbrev no_value : Throws (Unit {0}) → Throws (Option Bytes)
no_value (returned u) = returned none
no_value (threw e) = threw e

-- The member that the command calls.
abbrev pub call_of : RocksDbReadOptions → RocksDbWriteOptions → Command → Databases.Call
call_of o v (putting x k) = Databases.putting x k v
call_of o v (deleting k) = Databases.deleting k v
call_of o v (getting k) = Databases.getting k o

module _ {S : System} where
  whole-no_value :
      (b : Body S (Throws (Unit {0}))) (m : M S (Throws (Unit {0}))) (r : RocksDb) (w : World S)
      → whole b r w ≡ beside m r w
      → whole (b >>= λ a. ends (no_value a)) r w ≡ beside (m >>? λ _. pure (returned none)) r w
  unfolding whole
  whole-no_value b m r w e =
      whole-bind b _ r w
      ∙ ap (λ z. and_then z λ x. whole (ends (no_value x.0)) x.1) e
      ∙ and_then-and_then (m w) _ _
      ∙ and_then-cong (m w) rest
      ∙ sym (and_then-and_then (m w) _ _)
    where
      rest :
          (a : Throws (Unit {0})) (u : World S)
          → whole (ends (no_value a)) r u ≡ beside (resume (λ _. pure (returned none)) a) r u
      rest (returned x) u = refl
      rest (threw x) u = refl

  module _ (o : RocksDbReadOptions) (v : RocksDbWriteOptions) where
    unfoldable pub command_body : Command → Body S (Throws (Option Bytes))
    command_body (putting x k) = do a ← put_body x k v; ends (no_value a)
    command_body (deleting k) = do a ← delete_body k v; ends (no_value a)
    command_body (getting k) = get_body k o

    pub whole-command_body :
        (c : Command) (r : RocksDb) (w : World S)
        → whole (command_body c) r w ≡ beside (run_command r o v c) r w
    unfolding command_body method body
    whole-command_body (putting x k) r w =
        whole-no_value _ (Database.put r x k v) r w (whole-body (Databases.putting x k v) r w)
    whole-command_body (deleting k) r w =
        whole-no_value _ (Database.delete r k v) r w (whole-body (Databases.deleting k v) r w)
    whole-command_body (getting k) r w = whole-body (Databases.getting k o) r w

abbrev pub store_class : (S : System) → RocksDbReadOptions → RocksDbWriteOptions → Class S
store_class S o v = record {
  Object = RocksDb;
  Call = Command;
  Answer = λ c. Throws (Option Bytes);
  method = λ c r. beside (run_command r o v c) r;
  body = command_body o v;
  takes_lock = λ c. Databases.takes_lock (call_of o v c);
  always_locked = λ c. Databases.takes_lock-always (call_of o v c);
  body_method = whole-command_body o v;
}

module _ (S : System) (o : RocksDbReadOptions) (v : RocksDbWriteOptions) where
  -- The calls of a log and their answers, the first one first.
  unfoldable pub commands : List (Entry (store_class S o v)) → List Command
  commands [] = []
  commands (e ∷ es) = commands es ++ e.call ∷ []

  unfoldable pub answers : List (Entry (store_class S o v)) → List (Throws (Option Bytes))
  answers [] = []
  answers (e ∷ es) = answers es ++ e.answer ∷ []
