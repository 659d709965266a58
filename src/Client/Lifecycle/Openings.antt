-- ===== src/Client/Lifecycle/Openings.antt =====
-- The three ways to open in RocksDB.swift: the one new handle, or nothing.
use rock_db_swift.Prelude.{
  ℕ, ◌≡◌, ◌≢◌, refl, sym, ◌∙◌, Bool, true, false, Option, none, some, String, arith, Bool-cases,
  inl, inr,
}
use rock_db_swift.System.{System, Code, Options}
use rock_db_swift.Memory.{db, World, Run, ok, Fault, fault, trap}
use rock_db_swift.Memory.Effects.{same_answer, same_world, Effect, IsSound, IsSound-later}
use rock_db_swift.Memory.Creations.{Created, added-IsSound, added-At}
use rock_db_swift.Bridge.Status.{is_code}
use rock_db_swift.Client.Error.{RocksDbError, Throws, returned, threw}
use rock_db_swift.Client.Options.{RocksDbOptions}
use rock_db_swift.Client.Options.Handles.{fits, library_options, create_handle_lem}
use rock_db_swift.Client.Database.{RocksDb, open_at, open_read_only, open_with_transactions}
use rock_db_swift.Client.Database.Closing.{open_handle}
use rock_db_swift.Client.Database.Opening.{database, Created-open_at, Effect-open_at}
use rock_db_swift.Client.Database.OtherOpenings.{
  Created-open_read_only, Created-open_with_transactions, Effect-open_read_only,
  Effect-open_with_transactions,
}
use rock_db_swift.Client.Lifecycle.{kept}
use rock_db_swift.Client.Lifecycle.Quiet.{Tidy, tidy_closed, tidy_open}

-- The documented behaviour of `DB::Open` and its variants: under OK a database is stored, otherwise
-- null; a transactional database has a base.
pub record IsOpener (S : System) : Type 0 where
  pub open_stores :
      (o : Options S.Extra) (path : String) (s : S.State)
      → is_code (S.open_db o path s).0.0 Code.ok ≡ true
      → (d : ℕ) × ((S.open_db o path s).0.1 ≡ some d)
  pub open_fails :
      (o : Options S.Extra) (path : String) (s : S.State)
      → is_code (S.open_db o path s).0.0 Code.ok ≡ false
      → (S.open_db o path s).0.1 ≡ none
  pub read_only_stores :
      (o : Options S.Extra) (path : String) (b : Bool) (s : S.State)
      → is_code (S.open_for_read_only o path b s).0.0 Code.ok ≡ true
      → (d : ℕ) × ((S.open_for_read_only o path b s).0.1 ≡ some d)
  pub read_only_fails :
      (o : Options S.Extra) (path : String) (b : Bool) (s : S.State)
      → is_code (S.open_for_read_only o path b s).0.0 Code.ok ≡ false
      → (S.open_for_read_only o path b s).0.1 ≡ none
  pub txn_stores :
      (o : Options S.Extra) (path : String) (s : S.State)
      → is_code (S.open_txn_db o path s).0.0 Code.ok ≡ true
      → (t : ℕ) × (e : ℕ) × ((S.open_txn_db o path s).0.1 ≡ some t)
        × (S.get_base_db t (S.open_txn_db o path s).1 ≡ some e)
  pub txn_fails :
      (o : Options S.Extra) (path : String) (s : S.State)
      → is_code (S.open_txn_db o path s).0.0 Code.ok ≡ false
      → (S.open_txn_db o path s).0.1 ≡ none

pub differ : {A : Type 0} {a : A} → some a ≢ none
differ e = ground (arith, e)

pub faulty : {S : System} {A : Type 0} (f : Fault) (a : A) (v : World S) → fault f ≢ ok a v
faulty f a v e = ground (arith, e)

module _ {S : System} {w : World S} (sound : IsSound w) (r : RocksDb) {a : Throws RocksDb}
    {v : World S} (run : Run S (Throws RocksDb)) (e : run ≡ ok a v) where
  -- An opening that hands out a new handle.
  Tidy-Created :
      (path : String) (b : Bool) (d i : ℕ) (m : Option ℕ) (s : S.State)
      → (open_handle b d m).db ≡ some i
      → Created w (λ p. returned (database path b p)) (db (open_handle b d m)) s run
      → Tidy w.heap (kept a r) v
  Tidy-Created path b d i m s stands c =
      rw (← same_answer (sym c.runs ∙ e), ← same_world (sym c.runs ∙ e))
        (tidy_open b d m refl (added-IsSound sound c.ptr c.after _ s c.fresh c.room)
          (added-At sound c.ptr c.after _ s c.fresh c.room) stands (sound.fresh c.ptr c.fresh) refl)

  -- An opening that fails.
  Tidy-failed :
      {error : RocksDbError} {s : S.State}
      → r.handle ≡ none
      → Effect w (threw error) s run
      → Tidy w.heap (kept a r) v
  Tidy-failed {s = s} shut x =
      rw (← same_answer (sym x.runs ∙ e), ← same_world (sym x.runs ∙ e))
        (tidy_closed shut (IsSound-later sound x.after s x.grows) refl)

  -- An opening that stops the process has no outcome.
  Tidy-stopped : run ≡ fault trap → Tidy w.heap (kept a r) v
  Tidy-stopped stops = absurd (faulty trap _ _ (sym stops ∙ e))

module _ {S : System} {w : World S} (sound : IsSound w) (path : String) (o : RocksDbOptions)
    (far : fits o ≡ false) where
  open_at-stops : open_at path o w ≡ fault trap
  unfolding open_at
  open_at-stops = rw (create_handle_lem w sound o, far) refl

  open_read_only-stops : (b : Bool) → open_read_only path o b w ≡ fault trap
  unfolding open_read_only
  open_read_only-stops b = rw (create_handle_lem w sound o, far) refl

  open_with_transactions-stops : open_with_transactions path o w ≡ fault trap
  unfolding open_with_transactions
  open_with_transactions-stops = rw (create_handle_lem w sound o, far) refl

module _ {S : System} {w : World S} (sound : IsSound w) (path : String) (o : RocksDbOptions)
    (opener : IsOpener S) (r : RocksDb) (shut : r.handle ≡ none) {a : Throws RocksDb}
    {v : World S} where
  pub Tidy-open_at : open_at path o w ≡ ok a v → Tidy w.heap (kept a r) v
  Tidy-open_at e = elim (Bool-cases (fits o)) [
    | inr far ↦ Tidy-stopped sound r _ e (open_at-stops sound path o far)
    | inl fit ↦
        let l : Options S.Extra = library_options S o in
        let result = S.open_db l path w.engine in
        elim (Bool-cases (is_code result.0.0 Code.ok)) [
          | inl fine ↦
              let (d, stored) = opener.open_stores l path w.engine fine in
              Tidy-Created sound r _ e path false d d none result.1 refl
                (rw (← stored) (Created-open_at sound path o fit fine))
          | inr failed ↦
              Tidy-failed sound r _ e shut
                (Effect-open_at sound path o fit failed (opener.open_fails l path w.engine failed))
        ]
  ]

  pub Tidy-open_read_only :
      (b : Bool) → open_read_only path o b w ≡ ok a v → Tidy w.heap (kept a r) v
  Tidy-open_read_only b e = elim (Bool-cases (fits o)) [
    | inr far ↦ Tidy-stopped sound r _ e (open_read_only-stops sound path o far b)
    | inl fit ↦
        let l : Options S.Extra = library_options S o in
        let result = S.open_for_read_only l path b w.engine in
        elim (Bool-cases (is_code result.0.0 Code.ok)) [
          | inl fine ↦
              let (d, stored) = opener.read_only_stores l path b w.engine fine in
              Tidy-Created sound r _ e path false d d none result.1 refl
                (rw (← stored) (Created-open_read_only sound path o fit b fine))
          | inr failed ↦ Tidy-failed sound r _ e shut (
              Effect-open_read_only sound path o fit b failed
                (opener.read_only_fails l path b w.engine failed))
        ]
  ]

  pub Tidy-open_with_transactions :
      open_with_transactions path o w ≡ ok a v → Tidy w.heap (kept a r) v
  Tidy-open_with_transactions e = elim (Bool-cases (fits o)) [
    | inr far ↦ Tidy-stopped sound r _ e (open_with_transactions-stops sound path o far)
    | inl fit ↦
        let l : Options S.Extra = library_options S o in
        let result = S.open_txn_db l path w.engine in
        elim (Bool-cases (is_code result.0.0 Code.ok)) [
          | inl fine ↦
              let (t, i, stored, based) = opener.txn_stores l path w.engine fine in
              Tidy-Created sound r _ e path true t i (S.get_base_db t result.1) result.1 based
                (Created-open_with_transactions sound path o fit t fine stored)
          | inr failed ↦ Tidy-failed sound r _ e shut (
              Effect-open_with_transactions sound path o fit failed
                (opener.txn_fails l path w.engine failed))
        ]
  ]
