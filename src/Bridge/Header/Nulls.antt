-- ===== src/Bridge/Header/Nulls.antt =====
-- Null handles: what every function of RocksDBBridge.h that guards against them does.
use rock_db_swift.Prelude.{
  String, ◌≡◌, refl, none, Bool-cases, inl, inr, codes, ◌+◌, length, if◌then◌else◌,
}
use rock_db_swift.System.{System}
use rock_db_swift.Memory.{
  Ptr, null, db, iterator, transaction, DbHandle, World, Run, ok, until_nul, strdup, new, buffer,
  load_db, load_iterator, load_transaction,
}
use rock_db_swift.Memory.Effects.{At, load-At, not_null, with_cell}
use rock_db_swift.Bridge.Status.{StatusCode, CStatus, null_argument}
use rock_db_swift.Bridge.Database.{GetResult, live_db, refuse_get}
use rock_db_swift.Bridge.Iterator.{live_iterator}
use rock_db_swift.Bridge.Transaction.{live_transaction}

module _ {S : System} (w : World S) where
  -- A handle behind which there is no object of the library.
  pub data NoDb : Ptr → Type 0 where
    null_db : NoDb null
    empty_db : {p : Ptr} {h : DbHandle} → At w p (db h) → h.db ≡ none → NoDb p

  pub data NoIterator : Ptr → Type 0 where
    null_iterator : NoIterator null
    empty_iterator : {p : Ptr} → At w p (iterator none) → NoIterator p

  pub data NoTransaction : Ptr → Type 0 where
    null_transaction : NoTransaction null
    empty_transaction : {p : Ptr} → At w p (transaction none) → NoTransaction p

-- The run answered with a message that holds the text up to its first zero byte, at a new address,
-- or with no message where the allocator refuses it: the library was not called, and nothing on the
-- heap but the message is new.
pub record Refused {S : System} {A : Type 0} (w : World S) (text : String) (answer : Ptr → A)
    (r : Run S A) : Type 0 where
  pub runs :
      let bytes = until_nul (codes text) in
      r ≡ (
        if S.grants w.engine (length bytes + 1)
        then ok (answer w.next) (with_cell w (buffer bytes))
        else ok (answer null) w)

abbrev pub invalid_argument : Ptr → CStatus
invalid_argument message = record { code = StatusCode.invalid_argument; message = message }

abbrev pub no_value : Ptr → GetResult
no_value message = record { status = invalid_argument message; value_out = null; value_len_out = 0 }

module _ {S : System} {w : World S} where
  pub null_argument-Refused :
      (text : String) → Refused w text invalid_argument (null_argument text w)
  unfolding null_argument strdup new
  null_argument-Refused text =
      elim (Bool-cases (S.grants w.engine (length (until_nul (codes text)) + 1))) [
        | inl granted ↦ record { runs = rw granted }
        | inr refused ↦ record { runs = rw refused }
      ]

  pub refuse_get-Refused : (text : String) → Refused w text no_value (refuse_get text w)
  unfolding refuse_get null_argument strdup new
  refuse_get-Refused text =
      elim (Bool-cases (S.grants w.engine (length (until_nul (codes text)) + 1))) [
        | inl granted ↦ record { runs = rw granted }
        | inr refused ↦ record { runs = rw refused }
      ]

  pub live_db-NoDb : {p : Ptr} → NoDb w p → live_db p w ≡ ok none w
  unfolding live_db load_db
  live_db-NoDb null_db = refl
  live_db-NoDb (empty_db at gone) = rw (not_null at, load-At at, gone)

  pub live_iterator-NoIterator : {p : Ptr} → NoIterator w p → live_iterator p w ≡ ok none w
  unfolding live_iterator load_iterator
  live_iterator-NoIterator null_iterator = refl
  live_iterator-NoIterator (empty_iterator at) = rw (not_null at, load-At at)

  pub live_transaction-NoTransaction :
      {p : Ptr} → NoTransaction w p → live_transaction p w ≡ ok none w
  unfolding live_transaction load_transaction
  live_transaction-NoTransaction null_transaction = refl
  live_transaction-NoTransaction (empty_transaction at) = rw (not_null at, load-At at)
