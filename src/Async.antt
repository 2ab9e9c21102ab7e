-- ===== src/Async.antt =====
-- An `async` function of sdk/ts/src cut at its awaits, over the methods of the stores, each of which
-- does its work when it is called. A turn of a call is one such method; the code without effect that
-- follows the await, up to the next method, is reckoned to the same turn.
pub mod Operations
pub mod Run
pub mod InMemory
use gossveil.Base.{◌≡◌, refl, ap, ◌∙◌, Option, none, some, Bool, true, false}
use gossveil.Fault.{Result, ok, err, GossveilError}
use gossveil.Exec.{Exec, go_on}

-- What is left of a call: its end, or a method, which changes the state, and the rest, which gets
-- what the method returned.
pub data Task (S A : Type 0) : Type 0 where
  ended : Result A → Task S A
  awaits : (S → S) → (S → Task S A) → Task S A

module _ {S : Type 0} where
  infixl 5 ◌>>=◌ ◌>>◌
  unfoldable pub ◌>>=◌ : {A B : Type 0} → Task S A → (A → Task S B) → Task S B
  ended (ok a) >>= f = f a
  ended (err e) >>= f = ended (err e)
  awaits effect rest >>= f = awaits effect (λ s. rest s >>= f)

  abbrev pub ◌>>◌ : {B : Type 0} → Task S (Unit {0}) → Task S B → Task S B
  t >> k = t >>= λ _. k

  -- `await` of a store's method.
  abbrev pub await : {A : Type 0} → Exec S A → Task S A
  await m = awaits (λ s. (m s).1) (λ s. ended (m s).0)

  abbrev pub pure : {A : Type 0} → A → Task S A
  pure a = ended (ok a)

  -- A call into the core.
  abbrev pub lift : {A : Type 0} → Result A → Task S A
  lift r = ended r

  abbrev pub or_throw : {A : Type 0} → Option A → GossveilError → Task S A
  or_throw none e = ended (err e)
  or_throw (some a) e = ended (ok a)

  abbrev pub unless : Bool → GossveilError → Task S (Unit {0})
  unless true e = ended (ok tt)
  unless false e = ended (err e)

  -- All turns at once.
  unfoldable pub finish : {A : Type 0} → Task S A → Exec S A
  finish (ended r) s = (r, s)
  finish (awaits effect rest) s = finish (rest s) (effect s)

  -- Run by itself, a call does one part after the other.
  pub finish->>= :
      {A B : Type 0} (t : Task S A) (f : A → Task S B) (s : S)
      → finish (t >>= f) s ≡ gossveil.Exec.◌>>=◌ (finish t) (λ a. finish (f a)) s
  unfolding finish ◌>>=◌
  finish->>= (ended (ok a)) f s = refl
  finish->>= (ended (err e)) f s = refl
  finish->>= (awaits effect rest) f s = finish->>= (rest s) f (effect s)

  -- A call that no other overlaps is the operation in one piece.
  abbrev pub IsAlone : {A : Type 0} → Task S A → Exec S A → Type 0
  IsAlone t m = (s : S) → finish t s ≡ m s

  pub >>=-IsAlone :
      {A B : Type 0} (t : Task S A) (m : Exec S A) (f : A → Task S B) (g : A → Exec S B)
      → IsAlone t m
      → ((a : A) → IsAlone (f a) (g a))
      → IsAlone (t >>= f) (gossveil.Exec.◌>>=◌ m g)
  >>=-IsAlone {A = A} t m f g same rest s =
      finish->>= t f s ∙ ap (go_on (finish t) (λ a. finish (f a)) s) (same s) ∙ go (m s)
    where
      go : (o : Result A × S) → go_on (finish t) (λ a. finish (f a)) s o ≡ go_on m g s o
      go (ok a, s') = rest a s'
      go (err e, s') = refl

  pub unless-IsAlone :
      (test : Bool) (e : GossveilError) → IsAlone (unless test e) (gossveil.Exec.unless test e)
  unfolding finish
  unless-IsAlone true e s = refl
  unless-IsAlone false e s = refl
