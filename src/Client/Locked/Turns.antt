-- ===== src/Client/Locked/Turns.antt =====
-- The invariant of the threads: one of them at most is in a method, and the calls that have been
-- answered lead, one whole method after the other, to where it started.
pub mod Places
use rock_db_swift.Prelude.{
  ℕ, suc, ◌≡◌, ◌≢◌, refl, sym, ap, ◌∙◌, subst, subst⁻¹, some, List, ◌∷◌, ◌==◌, Bool-cases, inl, inr,
  arith,
}
use rock_db_swift.System.{System}
use rock_db_swift.Memory.{World, ok, M, and_then}
use rock_db_swift.Client.Locked.{Script, ends, acts, whole}
use rock_db_swift.Client.Locked.Mutex.{RecursiveLock, IsRecursive}
use rock_db_swift.Client.Locked.Threads.{
  Class, Place, outside, inside, Entry, Threads, placed, begun, Serial, nothing, next, unwound,
  pending, depth,
}
use rock_db_swift.Client.Locked.Turns.Places.{
  placed-same, placed-other, everywhere, unwound-own, unwound-other,
}

module _ {S : System} {C : Class S} (o : C.Object) (w : World S) where
  -- Where the calls lead that have been answered, and from there the thread at the place: outside
  -- the methods they lead to the object as it is; inside, what is left of the body leads where the
  -- whole body leads.
  unfoldable pub Leads : List (Entry C) → C.Object → World S → Place C → Type 0
  Leads es p u (outside cs) = Serial C o w es p u
  Leads es p u (inside c rest cs) =
      (q : C.Object) × (v : World S) × Serial C o w es q v × (whole (C.body c) q v ≡ whole rest p u)

  -- One thread, `turn`, may be in a method; the others are not.
  pub record Inv (L : RecursiveLock) (programs : ℕ → List C.Call) (s : Threads C L) : Type 0 where
    pub turn : ℕ
    pub leads : Leads s.log s.object s.world (s.places turn)
    pub others : (j : ℕ) → j ≢ turn → depth C (s.places j) ≡ 0
    pub counted : (i : ℕ) → L.held i s.lock ≡ depth C (s.places i)
    pub ordered : (i : ℕ) → programs i ≡ unwound C i s.log (pending C (s.places i))

  Leads-outside :
      {es : List (Entry C)} {p : C.Object} {u : World S} (place : Place C)
      → depth C place ≡ 0
      → Leads es p u place
      → Serial C o w es p u
  unfolding Leads
  Leads-outside (outside cs) e leads = leads
  Leads-outside (inside c rest cs) e leads = absurd (ground (arith, e))

  module _ {L : RecursiveLock} (rec : IsRecursive L) {programs : ℕ → List C.Call} where
    pub Inv-start : Inv L programs (begun C L programs o w)
    unfolding Leads unwound
    Inv-start = record {
      turn = 0;
      leads = nothing;
      others = λ j n. refl;
      counted = λ i. rec.new_free i;
      ordered = λ i. refl;
    }

    module _ {s : Threads C L} (inv : Inv L programs s) where
      -- A thread that is in a method is the one whose turn it is.
      pub inside-turn : (i : ℕ) → depth C (s.places i) ≡ 1 → i ≡ inv.turn
      inside-turn i e = elim (Bool-cases (i == inv.turn)) [
        | inl same ↦ ground (arith, same)
        | inr other ↦ absurd (ground (arith, inv.others i (λ e. ground (arith, other, e)), e))
      ]

      -- Where its turn leads.
      pub inside-Leads :
          (i : ℕ) → depth C (s.places i) ≡ 1 → Leads s.log s.object s.world (s.places i)
      inside-Leads i e =
          subst⁻¹ (λ j. Leads s.log s.object s.world (s.places j)) (inside-turn i e) inv.leads

      others-of : (i : ℕ) → depth C (s.places i) ≡ 1 → (j : ℕ) → j ≢ i → depth C (s.places j) ≡ 0
      others-of i e j n = inv.others j (λ h. n (h ∙ sym (inside-turn i e)))

      pub all-outside : ((j : ℕ) → depth C (s.places j) ≡ 0) → Serial C o w s.log s.object s.world
      all-outside out = Leads-outside (s.places inv.turn) (out inv.turn) inv.leads

      -- Every thread is outside where one from outside takes the lock.
      pub none-inside :
          (i : ℕ) {l : L.Lock}
          → L.lock i s.lock ≡ some l
          → depth C (s.places i) ≡ 0
          → (j : ℕ) → depth C (s.places j) ≡ 0
      none-inside i took e j = elim (Bool-cases (j == i)) [
        | inl same ↦ let h : j ≡ i = ground (arith, same) in ap (λ k. depth C (s.places k)) h ∙ e
        | inr other ↦
            sym (inv.counted j) ∙ rec.lock_excludes i s.lock took j (λ h. ground (arith, other, h))
      ]

      others-placed :
          (i : ℕ) (p : Place C)
          → ((j : ℕ) → j ≢ i → depth C (s.places j) ≡ 0)
          → (j : ℕ) → j ≢ i
          → depth C (placed C s.places i p j) ≡ 0
      others-placed i p out j n = ap (depth C) (placed-other s.places i j p n) ∙ out j n

      pub Inv-enter :
          (i : ℕ) (c : C.Call) (cs : List C.Call) {l : L.Lock}
          → s.places i ≡ outside (c ∷ cs)
          → L.lock i s.lock ≡ some l
          → Inv L programs
              (record s { lock = l; places = placed C s.places i (inside c (C.body c) cs) })
      unfolding Leads
      Inv-enter i c cs {l} at took =
          let out = none-inside i took (ap (depth C) at) in
          record {
            turn = i;
            leads =
                subst⁻¹ (Leads s.log s.object s.world) (placed-same s.places i _)
                  (s.object, s.world, all-outside out, refl);
            others = others-placed i _ (λ j n. out j);
            counted =
                everywhere (λ j p. L.held j l ≡ depth C p) s.places i _
                  (rec.lock_counts i s.lock took ∙ ap suc (inv.counted i ∙ ap (depth C) at))
                  (λ j n. rec.lock_keeps i s.lock took j n ∙ inv.counted j);
            ordered =
                everywhere (λ j p. programs j ≡ unwound C j s.log (pending C p)) s.places i _
                  (inv.ordered i ∙ ap (λ p. unwound C i s.log (pending C p)) at)
                  (λ j n. inv.ordered j);
          }

      pub Inv-access :
          (i : ℕ) (c : C.Call) (cs : List C.Call) {B : Type 0} (m : C.Object → M S (B × C.Object))
          (k : B → Script S C.Object (C.Answer c)) {b : B} {p : C.Object} {u : World S}
          → s.places i ≡ inside c (acts m k) cs
          → m s.object s.world ≡ ok (b, p) u
          → Inv L programs
              (record s { object = p; world = u; places = placed C s.places i (inside c (k b) cs) })
      unfolding Leads whole
      Inv-access i c cs m k {b} {p} {u} at runs =
          let e : depth C (s.places i) ≡ 1 = ap (depth C) at in
          let (q, v, serial, same) = subst (Leads s.log s.object s.world) at (inside-Leads i e) in
          record {
            turn = i;
            leads =
                subst⁻¹ (Leads s.log p u) (placed-same s.places i _)
                  (q, v, serial, same ∙ ap (λ r. and_then r λ x. whole (k x.0) x.1) runs);
            others = others-placed i _ (others-of i e);
            counted =
                everywhere (λ j x. L.held j s.lock ≡ depth C x) s.places i _ (inv.counted i ∙ e)
                  (λ j n. inv.counted j);
            ordered =
                everywhere (λ j x. programs j ≡ unwound C j s.log (pending C x)) s.places i _
                  (inv.ordered i ∙ ap (λ x. unwound C i s.log (pending C x)) at)
                  (λ j n. inv.ordered j);
          }

      pub Inv-leave :
          (i : ℕ) (c : C.Call) (cs : List C.Call) (a : C.Answer c)
          → s.places i ≡ inside c (ends a) cs
          → Inv L programs (record s {
            lock = L.unlock i s.lock;
            places = placed C s.places i (outside cs);
            log = record { thread = i; call = c; answer = a } ∷ s.log;
          })
      unfolding Leads whole unwound
      Inv-leave i c cs a at =
          let e : depth C (s.places i) ≡ 1 = ap (depth C) at in
          let (q, v, serial, same) = subst (Leads s.log s.object s.world) at (inside-Leads i e) in
          record {
            turn = i;
            leads =
                subst⁻¹
                  (Leads (record { thread = i; call = c; answer = a } ∷ s.log) s.object s.world)
                  (placed-same s.places i _) (next i c a serial (sym (C.body_method c q v) ∙ same));
            others = others-placed i _ (others-of i e);
            counted =
                everywhere (λ j x. L.held j (L.unlock i s.lock) ≡ depth C x) s.places i _
                  (rec.unlock_counts i 0 s.lock (inv.counted i ∙ e))
                  (λ j n. rec.unlock_keeps i j s.lock n ∙ inv.counted j);
            ordered =
                everywhere
                  (λ j x.
                    programs j
                    ≡ unwound C j (record { thread = i; call = c; answer = a } ∷ s.log)
                        (pending C x))
                  s.places i _
                  (inv.ordered i
                    ∙ ap (λ x. unwound C i s.log (pending C x)) at
                    ∙ sym (unwound-own s.log i c a cs))
                  (λ j n.
                    inv.ordered j
                    ∙ sym (unwound-other s.log i c a (pending C (s.places j)) j (λ e. n (sym e))));
          }
