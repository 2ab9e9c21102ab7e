-- ===== src/Async/Run/Keeps.antt =====
-- What holds of the state at each turn of overlapping calls.
use gossveil.Base.{
  ℕ, zero, suc, ◌≡◌, refl, List, [], ◌∷◌, All, Bool, true, false, Option, none, some, if◌then◌else◌,
}
use gossveil.Fault.{Result, ok, err, GossveilError}
use gossveil.Exec.{Exec}
use gossveil.Async.{Task, ended, awaits, await, unless, or_throw, ◌>>=◌}
use gossveil.Async.Run.{Running, take_turn, turn, run_calls}

module _ {S : Type 0} (P : S → Type 0) (E : S → S → Type 0) where
  -- Each turn of the call changes the state as `E` says, if it finds `P`, whatever other calls do
  -- between.
  unfoldable pub Keeps : {A : Type 0} → Task S A → Type 0
  Keeps (ended r) = Unit {0}
  Keeps (awaits effect rest) = (s : S) → P s → E s (effect s) × Keeps (rest s)

  module _ {A B : Type 0} (f : A → Task S B) where
    pub ended-Keeps : (r : Result A) → ((a : A) → r ≡ ok a → Keeps (f a)) → Keeps (ended r >>= f)
    unfolding ◌>>=◌ Keeps
    ended-Keeps (ok a) h = h a refl
    ended-Keeps (err e) h = tt

    pub await-Keeps :
        (m : Exec S A)
        → ((s : S) → P s → E s (m s).1)
        → ((s : S) (a : A) → P s → (m s).0 ≡ ok a → Keeps (f a))
        → Keeps (await m >>= f)
    unfolding ◌>>=◌ Keeps
    await-Keeps m p h = λ s before. (p s before, ended-Keeps (m s).0 (λ a e. h s a before e))

    pub throw-Keeps :
        (o : Option A) (e : GossveilError) → ((a : A) → Keeps (f a)) → Keeps (or_throw o e >>= f)
    throw-Keeps none e h = ended-Keeps (err e) (λ a _. h a)
    throw-Keeps (some a) e h = ended-Keeps (ok a) (λ a _. h a)

    pub part-Keeps : (t : Task S A) → Keeps t → ((a : A) → Keeps (f a)) → Keeps (t >>= f)
    unfolding ◌>>=◌ Keeps
    part-Keeps (ended r) h rest = ended-Keeps r (λ a _. rest a)
    part-Keeps (awaits effect k) h rest =
        λ s before. let (after, h') = h s before in (after, part-Keeps (k s) h' rest)

  pub unless-Keeps :
      {B : Type 0} (f : Unit {0} → Task S B) (test : Bool) (e : GossveilError)
      → (test ≡ true → Keeps (f tt))
      → Keeps (unless test e >>= f)
  unless-Keeps f true e h = ended-Keeps f (ok tt) (λ _ _. h refl)
  unless-Keeps f false e h = ended-Keeps f (err e) (λ _ eq. cc)

  pub last-Keeps : {A : Type 0} (m : Exec S A) → ((s : S) → P s → E s (m s).1) → Keeps (await m)
  unfolding Keeps
  last-Keeps m p = λ s before. (p s before, tt)

  pub end-Keeps : {A : Type 0} (r : Result A) → Keeps (ended r)
  unfolding Keeps
  end-Keeps r = tt

  pub if-Keeps :
      {A : Type 0} (test : Bool) (t : Task S A) (r : Result A)
      → Keeps t
      → Keeps (if test then t else ended r)
  unfolding Keeps
  if-Keeps true t r h = h
  if-Keeps false t r h = tt

-- Calls that all keep `P` leave it true.
module _ {S : Type 0} (P : S → Type 0) where
  abbrev pub KeepsTrue : {A : Type 0} → Task S A → Type 0
  KeepsTrue = Keeps P (λ s t. P t)

  take_turn-Keeps :
      {A : Type 0} (t : Task S A) (s : S)
      → KeepsTrue t
      → P s
      → KeepsTrue (take_turn t s).0 × P (take_turn t s).1
  unfolding Keeps
  take_turn-Keeps (ended r) s h p = (tt, p)
  take_turn-Keeps (awaits effect rest) s h p = let (p', h') = h s p in (h', p')

  turn-Keeps :
      (i : ℕ) (cs : List (Running S)) (s : S)
      → All (λ c. KeepsTrue c.rest) cs
      → P s
      → All (λ c. KeepsTrue c.rest) (turn i cs s).0 × P (turn i cs s).1
  unfolding turn
  turn-Keeps i [] s hs p = (tt, p)
  turn-Keeps zero (c ∷ cs) s (h, hs) p =
      let (kept, p') = take_turn-Keeps c.rest s h p in ((kept, hs), p')
  turn-Keeps (suc i) (c ∷ cs) s (h, hs) p =
      let (kept, p') = turn-Keeps i cs s hs p in ((h, kept), p')

  pub run_calls-Keeps :
      (schedule : List ℕ) (cs : List (Running S)) (s : S)
      → All (λ c. KeepsTrue c.rest) cs
      → P s
      → P (run_calls schedule cs s).1
  unfolding run_calls
  run_calls-Keeps [] cs s hs p = p
  run_calls-Keeps (i ∷ schedule) cs s hs p =
      let (kept, p') = turn-Keeps i cs s hs p in run_calls-Keeps schedule _ _ kept p'
