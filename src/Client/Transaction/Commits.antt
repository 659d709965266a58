-- ===== src/Client/Transaction/Commits.antt =====
-- `commit` of RocksDBTransaction.swift on a live transaction.
use rock_db_swift.Prelude.{
  ℕ, ◌+◌, ◌≡◌, refl, fun_ext, Bool, true, false, some, Bytes, arith, ◌||◌, length, Bool-cases, inl,
  inr, ◌⊎◌,
}
use rock_db_swift.System.{System, Code, Status}
use rock_db_swift.Memory.{
  Ptr, null, transaction, buffer, World, Run, ok, M, and_then, ◌>>=◌, strdup, until_nul,
  load_transaction,
}
use rock_db_swift.Memory.Effects.{
  IsSound, IsSound-later, Effect, Effect-pure, Effect-call, At, load-At, not_null, and_then_assoc,
  update-restore,
}
use rock_db_swift.Bridge.Status.{StatusCode, is_code, error_code, make_status}
use rock_db_swift.Bridge.Transaction.{rocksdb_transaction_commit, live_transaction}
use rock_db_swift.Client.Error.{
  RocksDbError, Throws, returned, threw, transaction_conflict, has_code, error_of, check,
  message_or, free_message,
}
use rock_db_swift.Client.Error.Reports.{reported, text_or, check-error, error_code-ne-ok}
use rock_db_swift.Client.Transaction.{RocksDbTransaction, settle, commit, finish_commit}

module _ {S : System} {w : World S} {p : Ptr} {i : ℕ} (at : At w p (transaction (some i))) where
  pub live_transaction-At : live_transaction p w ≡ ok (some i) w
  unfolding live_transaction load_transaction
  live_transaction-At = rw (not_null at, load-At at)

-- What a commit that the library answers so does: the result, and whether the object now counts as
-- committed.
abbrev pub committed_as :
    (S : System) → S.State → Status → RocksDbTransaction → Throws (Unit {0}) × RocksDbTransaction
committed_as S s status t = elim status.code [
  | Code.ok ↦ (returned tt, record t { committed = true })
  | Code.busy ↦
      (threw (transaction_conflict (text_or S "Transaction conflict" s (S.to_string status))), t)
  | Code.try_again ↦
      (threw (transaction_conflict (text_or S "Transaction conflict" s (S.to_string status))), t)
  | code ↦ (reported S s status, t)
]

abbrev is_conflict : Status → Bool
is_conflict s = is_code s Code.busy || is_code s Code.try_again

abbrev is_conflict_code : StatusCode → Bool
is_conflict_code c =
    has_code (record { code = c; message = null }) StatusCode.busy
    || has_code (record { code = c; message = null }) StatusCode.try_again

module _ (S : System) (u : S.State) (s : Status) (t : RocksDbTransaction) where
  committed-ok :
      is_code s Code.ok ≡ true → committed_as S u s t ≡ (returned tt, record t { committed = true })
  unfolding is_code
  committed-ok h = ground arith

  committed-conflict :
      is_conflict s ≡ true
      → committed_as S u s t
        ≡ (threw (transaction_conflict (text_or S "Transaction conflict" u (S.to_string s))), t)
  unfolding is_code
  committed-conflict h = ground arith

  committed-error :
      is_code s Code.ok ≡ false
      → is_conflict s ≡ false
      → committed_as S u s t
        ≡ (threw (error_of (error_code s) (text_or S "Unknown error" u (S.to_string s))), t)
  unfolding is_code error_code error_of
  committed-error h k = ground arith

pub committed_as-cases :
    (S : System) (u : S.State) (s : Status)
    → ((t : RocksDbTransaction)
        → committed_as S u s t ≡ (returned tt, record t { committed = true }))
      ⊎ ((e : RocksDbError) × ((t : RocksDbTransaction) → committed_as S u s t ≡ (threw e, t)))
committed_as-cases S u s = elim (Bool-cases (is_code s Code.ok)) [
  | inl fine ↦ inl (λ t. committed-ok S u s t fine)
  | inr failed ↦ elim (Bool-cases (is_conflict s)) [
    | inl clash ↦ inr (_, λ t. committed-conflict S u s t clash)
    | inr calm ↦ inr (_, λ t. committed-error S u s t failed calm)
  ]
]

module _ (s : Status) where
  conflict_failed : is_conflict s ≡ true → is_code s Code.ok ≡ false
  unfolding is_code
  conflict_failed h = ground arith

  conflict_code : is_conflict s ≡ true → is_conflict_code (error_code s) ≡ true
  unfolding is_code error_code has_code
  conflict_code h = ground arith

  no_conflict :
      is_code s Code.ok ≡ false → is_conflict s ≡ false → is_conflict_code (error_code s) ≡ false
  unfolding is_code error_code has_code
  no_conflict g h = ground arith

Effect-settle :
    {S : System} {w : World S} {e : RocksDbError} {s : S.State} {r : Run S (Throws (Unit {0}))}
    (t : RocksDbTransaction)
    → Effect w (threw e) s r
    → Effect w (threw e, t) s (and_then r (settle t))
Effect-settle t e = record { after = e.after; grows = e.grows; runs = rw e.runs }

module _ {S : System} (w : World S) (sound : IsSound w) (t : RocksDbTransaction) where
  conflict :
      (c : StatusCode) (text : Bytes)
      → (has_code (record { code = c; message = null }) StatusCode.busy
          || has_code (record { code = c; message = null }) StatusCode.try_again)
        ≡ true
      → Effect w
          (threw (transaction_conflict (text_or S "Transaction conflict" w.engine text)), t)
          w.engine
          (and_then (strdup text w) λ p. finish_commit t (record { code = c; message = p }))
  unfolding strdup finish_commit has_code message_or free_message
  conflict c text h = elim (Bool-cases (S.grants w.engine (length (until_nul text) + 1))) [
    | inl granted ↦ record {
      after = w.next + 1;
      grows = omega arith;
      runs =
          rw (granted, h)
            (ground (arith, sound.positive, update-restore sound (buffer (until_nul text))));
    }
    | inr refused ↦ record { after = w.next; grows = omega arith; runs = rw (refused, h) refl }
  ]

  finish_calm :
      (c : StatusCode)
      → is_conflict_code c ≡ false
      → ◌≡◌ {A = Ptr → M S (Throws (Unit {0}) × RocksDbTransaction)}
          (λ p. finish_commit t (record { code = c; message = p }))
          (λ p. check (record { code = c; message = p }) >>= settle t)
  unfolding finish_commit has_code
  finish_calm c h = fun_ext λ p. rw h

  checked :
      (s : Status)
      → is_conflict s ≡ false
      → Effect w (committed_as S w.engine s t) w.engine ((make_status s >>= finish_commit t) w)
  unfolding make_status
  checked s calm = elim (Bool-cases (is_code s Code.ok)) [
    | inl fine ↦
        rw (fine, committed-ok S w.engine s t fine)
          (unfold finish_commit check has_code in Effect-pure w _)
    | inr failed ↦
        let c : StatusCode = error_code s in
        let checked : Ptr → M S (Throws (Unit {0})) =
          λ p. check (record { code = c; message = p }) in
        rw
          (
            failed,
            committed-error S w.engine s t failed calm,
            and_then_assoc,
            finish_calm c (no_conflict s failed calm),
          )
          (rw (← and_then_assoc (strdup (S.to_string s) w) checked (settle t))
            (Effect-settle t (check-error w sound c (S.to_string s) (error_code-ne-ok s))))
  ]

  finish_commit-make_status :
      (s : Status)
      → Effect w (committed_as S w.engine s t) w.engine ((make_status s >>= finish_commit t) w)
  unfolding make_status
  finish_commit-make_status s = elim (Bool-cases (is_conflict s)) [
    | inl clash ↦
        rw (conflict_failed s clash, committed-conflict S w.engine s t clash, and_then_assoc)
          (conflict (error_code s) (S.to_string s) (conflict_code s clash))
    | inr calm ↦ checked s calm
  ]

module _ {S : System} {w : World S} (sound : IsSound w) {p : Ptr} {i : ℕ}
    (at : At w p (transaction (some i))) where
  -- On a live transaction `commit` is one `Commit` of the library. OK marks the object as
  -- committed; `Busy` and `TryAgain` throw `transactionConflict`; any other status throws its own
  -- error; the object is then unchanged. The heap is left as it was.
  pub Effect-commit :
      (b : Bool)
      → let t : RocksDbTransaction = record { handle = some p; committed = b } in
        let result = S.txn_commit i w.engine in
        Effect w (committed_as S result.1 result.0 t) result.1 (commit t w)
  unfolding commit rocksdb_transaction_commit
  Effect-commit b =
      let result = S.txn_commit i w.engine in
      rw (live_transaction-At at) (
        Effect-call (
          finish_commit-make_status (record w { engine = result.1 })
            (IsSound-later sound w.next result.1 (omega arith)) _ result.0))
