-- ===== src/Client/Locked/Ends.antt =====
-- How the locked bodies of RocksDB.swift and RocksDBTransaction.swift end: the status of a call is
-- checked, and the value of a get is copied.
use rock_db_swift.Prelude.{Option, none, Bytes, if◌then◌else◌}
use rock_db_swift.System.{System}
use rock_db_swift.Memory
use rock_db_swift.Memory.{M}
use rock_db_swift.Bridge.Status.{StatusCode, CStatus}
use rock_db_swift.Bridge.Database.{GetResult}
use rock_db_swift.Client.Error.{Throws, returned, threw, has_code, free_message, check}
use rock_db_swift.Client.Database.{finish_value, copied_value, resume}
use rock_db_swift.Client.Locked.{
  Script, ends, does, ◌>>=◌, ◌>>◌, Is, ends-Is, does-Is, bind-Is, branch-Is,
}

module _ {S : System} {O : Type 0} where
  -- `try RocksDBError.check(status)`
  unfoldable pub checked :
      {A : Type 0} → CStatus → (Unit {0} → Script S O (Throws A)) → Script S O (Throws A)
  checked status k = do
    c ← does (check status)
    elim c [ returned u ↦ k u | threw e ↦ ends (threw e) ]

  unfoldable pub get_end : GetResult → Script S O (Throws (Option Bytes))
  get_end result =
      if has_code result.status StatusCode.not_found
      then does (free_message result.status) >> ends (returned none)
      else checked result.status λ _. does (copied_value result.value_out result.value_len_out)

  -- A call whose status is checked.
  pub checked_call-Is :
      (m : M S CStatus)
      → Is {O = O} (does m >>= λ status. does (check status)) (Memory.◌>>=◌ m check)
  checked_call-Is m = bind-Is (does-Is m) λ status. does-Is (check status)

  pub get_end-Is : (result : GetResult) → Is (get_end result) (finish_value result)
  unfolding get_end finish_value checked
  get_end-Is result =
      branch-Is (has_code result.status StatusCode.not_found)
        (bind-Is (does-Is (free_message result.status)) λ _. ends-Is (returned none))
        (bind-Is (does-Is (check result.status)) rest)
    where
      rest :
          (c : Throws (Unit {0}))
          → Is {S = S} {O = O}
              (elim c [
                | returned u ↦ does (copied_value result.value_out result.value_len_out)
                | threw e ↦ ends (threw e)
              ])
              (resume (λ _. copied_value result.value_out result.value_len_out) c)
      rest (returned u) = does-Is (copied_value result.value_out result.value_len_out)
      rest (threw e) = ends-Is (threw e)
