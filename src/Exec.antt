-- ===== src/Exec.antt =====
-- An `async` operation over the stores: it ends with a value or an error, and in either case with
-- the stores as they are then, since what was saved before a throw stays saved.
use gossveil.Base.{Bool, true, false, Option, none, some, ◌≡◌, ap}
use gossveil.Fault.{Result, ok, err, GossveilError}

abbrev pub Exec : Type 0 → Type 0 → Type 0
Exec S A = S → Result A × S

module _ {S A : Type 0} where
  abbrev pub pure : A → Exec S A
  pure a s = (ok a, s)

  abbrev pub throw : GossveilError → Exec S A
  throw e s = (err e, s)

  -- A call into the core, which reaches no store.
  abbrev pub lift : Result A → Exec S A
  lift r s = (r, s)

  abbrev pub gets : (S → A) → Exec S A
  gets f s = (ok (f s), s)

  -- `if (!x) throw e`.
  abbrev pub or_throw : Option A → GossveilError → Exec S A
  or_throw none e = throw e
  or_throw (some a) e = pure a

abbrev pub modify : {S : Type 0} → (S → S) → Exec S (Unit {0})
modify f s = (ok tt, f s)

abbrev pub unless : {S : Type 0} → Bool → GossveilError → Exec S (Unit {0})
unless true e s = (ok tt, s)
unless false e s = (err e, s)

infixl 5 ◌>>=◌ ◌>>◌
abbrev pub ◌>>=◌ : {S A B : Type 0} → Exec S A → (A → Exec S B) → Exec S B
◌>>=◌ m f s = let (r, s') = m s in elim r [ ok a ↦ f a s' | err e ↦ (err e, s') ]

abbrev pub ◌>>◌ : {S B : Type 0} → Exec S (Unit {0}) → Exec S B → Exec S B
m >> k = m >>= λ _. k

-- A step whose end is known.
module _ {S A B : Type 0} (m : Exec S A) (f : A → Exec S B) (s : S) where
  abbrev pub go_on : Result A × S → Result B × S
  go_on t = elim t.0 [ ok a ↦ f a t.1 | err e ↦ (err e, t.1) ]

  pub >>=-ok : (a : A) (s' : S) → m s ≡ (ok a, s') → (m >>= f) s ≡ f a s'
  >>=-ok a s' h = ap go_on h

  pub >>=-err : (e : GossveilError) (s' : S) → m s ≡ (err e, s') → (m >>= f) s ≡ (err e, s')
  >>=-err e s' h = ap go_on h
