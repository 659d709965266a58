-- ===== src/Tests/Worlds.antt =====
-- The worlds and objects of the tests, over the sample library.
use rock_db_swift.Prelude.{
  false, Option, none, some, List, [], ◌∷◌, Bytes, ◌≡◌, ◌≢◌, refl, ap, arith, if◌then◌else◌, ◌==◌,
}
use rock_db_swift.System.{Code, ReadOptions}
use rock_db_swift.Memory.{Cell, db, batch, World}
use rock_db_swift.Memory.Effects.{IsSound, At, At-new, with_cell, IsSound-with_cell}
use rock_db_swift.Bridge.Database.Live.{Live}
use rock_db_swift.Client.Database.{RocksDb}
use rock_db_swift.Client.Database.Writes.{Live-old}
use rock_db_swift.Client.Scan.Order.{le_bytes, bytes_eq-same, bytes_eq-eq}
use rock_db_swift.Client.Scan.Prefix.{IsSorted}
use rock_db_swift.Client.Database.Closing.{open_handle}
use rock_db_swift.Client.Database.RoundTrip.{IsStore}
use rock_db_swift.Client.Iterator.{Entry}
use rock_db_swift.Client.Scan.Walk.{IsIterator}
use rock_db_swift.Tests.Sample.{State, sample, head_key, head_value, is_cons, tail, assigned}

abbrev pub three : List Entry
three = (1 ∷ [], 10 ∷ []) ∷ (1 ∷ 2 ∷ [], 20 ∷ []) ∷ (2 ∷ [], 30 ∷ []) ∷ []

abbrev pub start : State
start = record { content = λ k. none; entries = three; ahead = three }

-- One cell, at address 1.
abbrev pub world : Cell sample → World sample
world c = record { heap = λ a. if a == 1 then some c else none; next = 2; engine = start }

pub world-IsSound : (c : Cell sample) → IsSound (world c)
world-IsSound c = record { positive = omega arith; fresh = λ a h. ground (arith, h) }

pub world-At : (c : Cell sample) → At (world c) 1 c
world-At c = record { ne_null = λ e. omega (arith, e); holds = refl }

abbrev pub open_world : World sample
open_world = world (db (open_handle false 0 none))

pub open_world-Live : Live open_world 1 0
open_world-Live = record { handle = open_handle false 0 none; at = world-At _; live = refl }

abbrev pub database : RocksDb
database = record { handle = some 1; path = "/db"; is_transactional = false }

abbrev pub sample_iterator : IsIterator sample 0
sample_iterator = record {
  rest = λ s. s.ahead;
  ends = λ s e. ap is_cons e;
  holds = λ s k x es e. (ap is_cons e, ap head_key e, ap head_value e, ap tail e);
}

pub assigned-stores :
    (k : Bytes) (x : Option Bytes) (s : State)
    → (assigned k x s).0.code ≡ Code.ok
    → (assigned k x s).1.content k ≡ x
assigned-stores k x s h = ground (arith, bytes_eq-same k)

pub assigned-keeps :
    (k : Bytes) (x : Option Bytes) (j : Bytes) (s : State)
    → j ≢ k
    → (assigned k x s).1.content j ≡ s.content j
assigned-keeps k x j s h = ground (arith, bytes_eq-eq j k, h)

abbrev pub sample_store : (o : ReadOptions) → IsStore sample 0 o
sample_store o = record {
  content = λ s. s.content;
  put_stores = λ v k x s h. assigned-stores k (some x) s h;
  put_keeps = λ v k x j s h. assigned-keeps k (some x) j s h;
  delete_removes = λ v k s h. assigned-stores k none s h;
  delete_keeps = λ v k j s h. assigned-keeps k none j s h;
  get_keeps = λ k j s. refl;
  get_reads = λ k x s e. rw e (refl, refl);
  get_misses = λ k s e. rw e refl;
}

-- The open database, and a batch at address 2.
abbrev pub batch_world : World sample
batch_world = with_cell open_world (batch ((1 ∷ [], 10 ∷ []) ∷ []))

pub batch_world-IsSound : IsSound batch_world
batch_world-IsSound = IsSound-with_cell (world-IsSound _) _

pub batch_world-Live : Live batch_world 1 0
batch_world-Live = Live-old (world-IsSound _) _ open_world-Live

pub batch_world-At : At batch_world 2 (batch ((1 ∷ [], 10 ∷ []) ∷ []))
batch_world-At = At-new (world-IsSound _) _

pub three-IsSorted : IsSorted three
unfolding le_bytes
three-IsSorted = ((refl, (refl, tt)), ((refl, tt), (tt, tt)))
