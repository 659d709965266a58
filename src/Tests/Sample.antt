-- ===== src/Tests/Sample.antt =====
-- A concrete library for the tests: one database, kept as a function from keys to values, and one
-- iterator, kept as the entries before it. Memory is never short; texts are ASCII. Database 0 has
-- no iterators open, every other one has; committing transaction 0 succeeds, any other is busy.
use rock_db_swift.Prelude.{
  ℕ, String, Bool, true, false, not, Option, none, some, List, [], ◌∷◌, Bytes, if◌then◌else◌, codes,
  length, is_some, ltb, ◌==◌,
}
use rock_db_swift.Prelude.Int.{ℤ}
use rock_db_swift.System.{
  new_db_options, new_db_resources, info_level, System, Code, Status, no_subcode, no_error, Options,
}
use rock_db_swift.Client.Iterator.{Entry}
use rock_db_swift.Client.Scan.{bytes_eq}
use rock_db_swift.Client.Scan.Prefix.{from_key}

pub record State : Type 0 where
  pub content : Bytes → Option Bytes
  pub entries : List Entry
  pub ahead : List Entry

abbrev pub answer : Code → Status
answer c = record {
  code = c;
  subcode = no_subcode;
  sev = no_error;
  retryable = false;
  data_loss = false;
  scope = 0;
  state = none;
}

abbrev pub found : Option Bytes → Status × Bytes
found none = (answer Code.not_found, [])
found (some x) = (answer Code.ok, x)

abbrev pub head_key : List Entry → Bytes
head_key [] = []
head_key ((k, x) ∷ es) = k

abbrev pub head_value : List Entry → Bytes
head_value [] = []
head_value ((k, x) ∷ es) = x

abbrev pub is_cons : List Entry → Bool
is_cons [] = false
is_cons (e ∷ es) = true

abbrev pub tail : List Entry → List Entry
tail [] = []
tail (e ∷ es) = es

abbrev pub assign : Bytes → Option Bytes → State → State
assign k x s = record s { content = λ j. if bytes_eq j k then x else s.content j }

-- A key that is too long is refused.
abbrev pub assigned : Bytes → Option Bytes → State → Status × State
assigned k x s =
    if ltb 8 (length k) then (answer Code.aborted, s) else (answer Code.ok, assign k x s)

abbrev pub ascii : Bytes → String
ascii b = "text"

abbrev pub default_options : Options (Unit {0})
default_options = record {
  db = new_db_options 0;
  resources = new_db_resources info_level;
  compression = 1;
  write_buffer_size = 67108864;
  max_write_buffer_number = ℤ.pos 2;
  max_background_flushes = ℤ.negsuc 0;
  level0_file_num_compaction_trigger = ℤ.pos 4;
  level0_slowdown_writes_trigger = ℤ.pos 20;
  level0_stop_writes_trigger = ℤ.pos 36;
  target_file_size_base = 67108864;
  max_bytes_for_level_base = 268435456;
  extra = tt;
}

-- Opening succeeds where the database may be created.
abbrev pub stored : Bool → State → (Status × Option ℕ) × State
stored true s = ((answer Code.ok, some 0), s)
stored false s = ((answer Code.invalid_argument, none), s)

abbrev pub commit_code : ℕ → Code
commit_code i = if i == 0 then Code.ok else Code.busy

abbrev pub sample : System
sample = record {
  State = State;
  Batch = List Entry;
  Extra = Unit {0};
  grants = λ s n. true;
  utf8_data = λ t. some (codes t);
  utf8_string = λ b. some (ascii b);
  c_string = λ b. ascii b;
  parse_int = λ t. none;
  to_string = λ s. codes "status";
  default_options = default_options;
  optimize_for_point_lookup = λ n o. o;
  optimize_level_style_compaction = λ n o. o;
  open_db = λ o path s. stored o.db.create_if_missing s;
  open_for_read_only = λ o path b s. ((answer Code.ok, some 0), s);
  open_txn_db = λ o path s. stored o.db.create_if_missing s;
  get_base_db = λ d s. some d;
  delete_db = λ d s. s;
  delete_txn_db = λ d s. s;
  has_iterators = λ d s. not (d == 0);
  put = λ d o k x s. assigned k (some x) s;
  get = λ d o k s. (found (s.content k), s);
  delete = λ d o k s. assigned k none s;
  key_may_exist = λ d o k s. (is_some (s.content k), s);
  write = λ d o b s. (answer Code.ok, record s { entries = b });
  batch_empty = [];
  batch_put = λ k x b. (k, x) ∷ b;
  batch_delete = λ k b. b;
  batch_delete_range = λ k j b. b;
  batch_clear = λ b. [];
  batch_count = length;
  batch_data_size = length;
  new_iterator = λ d o s. (some 0, s);
  delete_iterator = λ i s. s;
  valid = λ i s. is_cons s.ahead;
  seek_to_first = λ i s. record s { ahead = s.entries };
  seek_to_last = λ i s. s;
  seek = λ i k s. record s { ahead = from_key k s.entries };
  seek_for_prev = λ i k s. s;
  next = λ i s. record s { ahead = tail s.ahead };
  prev = λ i s. s;
  key = λ i s. head_key s.ahead;
  value = λ i s. head_value s.ahead;
  iterator_status = λ i s. answer Code.ok;
  begin_transaction = λ d o s. (some 0, s);
  delete_txn = λ i s. s;
  txn_put = λ i k x s. assigned k (some x) s;
  txn_get = λ i o k s. (found (s.content k), s);
  txn_get_for_update = λ i o k s. (found (s.content k), s);
  txn_delete = λ i k s. assigned k none s;
  txn_get_iterator = λ i o s. (some 0, s);
  txn_commit = λ i s. (answer (commit_code i), s);
  txn_rollback = λ i s. (answer Code.ok, s);
  txn_set_save_point = λ i s. s;
  txn_rollback_to_save_point = λ i s. (answer Code.not_found, s);
  get_snapshot = λ d s. (some 0, s);
  release_snapshot = λ d n s. s;
  compact_range = λ d o k j s. (answer Code.ok, s);
  flush = λ d b s. (answer Code.ok, s);
  get_property = λ d n s. some (48 ∷ []);
  get_approximate_sizes = λ d r s. [];
}
