-- ===== src/Client/Text/RoundTrip.antt =====
-- The methods on strings of RocksDB.swift, over a library that keeps what it is given.
use rock_db_swift.Prelude.{
  ℕ, ◌≡◌, refl, ap, ◌∙◌, fun_ext, subst⁻¹, true, Option, none, some, String, Bytes, length,
}
use rock_db_swift.System.{System, Code}
use rock_db_swift.Memory.{Ptr, World, Run, ok, fault, M, pure, and_then}
use rock_db_swift.Memory.Effects.{IsSound, Effect, Effect-pure}
use rock_db_swift.Bridge.Database.Live.{Live}
use rock_db_swift.Client.Error.{Throws, returned, threw}
use rock_db_swift.Client.AccessOptions.{RocksDbReadOptions, RocksDbWriteOptions}
use rock_db_swift.Client.AccessOptions.Handles.{library_read_options, library_write_options}
use rock_db_swift.Client.Database.{RocksDb, put, get, ◌>>?◌, resume}
use rock_db_swift.Client.Database.RoundTrip.{IsStore, put-get}
use rock_db_swift.Client.Database.Try.{Effect-returned}
use rock_db_swift.Client.Text.{put_string, get_string}

-- `try` in a row.
resume-resume :
    {S : System} {A B C : Type 0} (run : Run S (Throws A)) (f : A → M S (Throws B))
    (g : B → M S (Throws C))
    → and_then run (resume (λ a. f a >>? g)) ≡ and_then (and_then run (resume f)) (resume g)
resume-resume (ok (returned a) w) f g = refl
resume-resume (ok (threw e) w) f g = refl
resume-resume (fault e) f g = refl

-- What `get` finds, as a text.
read_text : (S : System) → Option Bytes → M S (Throws (Option String))
read_text S none = pure (returned none)
read_text S (some bytes) = pure (returned (S.utf8_string bytes))

module _ {S : System} (r : RocksDb) (o : RocksDbReadOptions) (v : RocksDbWriteOptions) where
  put_string-encoded :
      (text key : String) {x k : Bytes} (w : World S)
      → S.utf8_data text ≡ some x
      → S.utf8_data key ≡ some k
      → put_string r text key v w ≡ put r x k v w
  unfolding put_string
  put_string-encoded text key w ex ek = rw (ek, ex, put_string)

  get_string-encoded :
      (key : String) {k : Bytes} (w : World S)
      → S.utf8_data key ≡ some k
      → get_string r key o w ≡ (get r k o >>? read_text S) w
  unfolding get_string read_text
  get_string-encoded key {k} w ek =
      rw (ek, get_string) (ap (λ f. and_then (get r k o w) (resume f)) (fun_ext cases))
    where
      cases :
          (found : Option Bytes)
          → ◌≡◌ {A = M S (Throws (Option String))}
              (elim found [
                | none ↦ pure (returned none)
                | some bytes ↦ pure (returned (S.utf8_string bytes))
              ])
              (read_text S found)
      cases none = refl
      cases (some bytes) = refl

module _ {S : System} {w : World S} (sound : IsSound w) {p : Ptr} {d : ℕ} (live : Live w p d)
    (r : RocksDb) (e : r.handle ≡ some p) (o : RocksDbReadOptions) (v : RocksDbWriteOptions)
    (store : IsStore S d (library_read_options S o)) where
  -- On an open database, over a library database that behaves as a map, for a text and a key that
  -- have UTF-8 encodings of which the first decodes to the text, a `put` of the texts that the
  -- library accepts, followed by `getString` of the key, returns the text, provided that the
  -- allocator grants room for the copy; the heap is left as it was.
  pub put_string-get_string :
      (text key : String) (x k : Bytes)
      → S.utf8_data text ≡ some x
      → S.utf8_data key ≡ some k
      → S.utf8_string x ≡ some text
      → let written = S.put d (library_write_options S v) k x w.engine in
        let found = S.get d (library_read_options S o) k written.1 in
        written.0.code ≡ Code.ok
        → S.grants found.1 (length x) ≡ true
        → Effect w
            (returned (some text))
            found.1
            ((put_string r text key v >>? λ _. get_string r key o) w)
  unfolding read_text
  put_string-get_string text key x k ex ek back fine granted =
      subst⁻¹ (Effect w (returned (some text)) _) same (
        Effect-returned (read_text S) (put-get sound live r e o v store x k fine granted)
          (λ n h. rw back (Effect-pure _ _)))
    where
      same :
          (put_string r text key v >>? λ _. get_string r key o) w
          ≡ and_then ((put r x k v >>? λ _. get r k o) w) (resume (read_text S))
      same =
          ap (λ run. and_then run (resume (λ _. get_string r key o)))
            (put_string-encoded r o v text key w ex ek)
          ∙ ap (λ f. and_then (put r x k v w) (resume f))
              (fun_ext λ _. fun_ext λ u. get_string-encoded r o v key u ek)
          ∙ resume-resume (put r x k v w) (λ _. get r k o) (read_text S)
