-- ===== src/Async/Run/Local.antt =====
-- Calls that read and change only a part of the state, among calls that leave that part alone.
use gossveil.Base.{
  ℕ, zero, suc, ◌≡◌, refl, sym, ◌∙◌, ap, subst, List, [], ◌∷◌, All, Bool, true, false, Option, none,
  some, arith, ◌==◌, Bool-cases, inl, inr, ==_iff,
}
use gossveil.Fault.{Result, ok, err, GossveilError}
use gossveil.Exec.{Exec}
use gossveil.Async.{Task, ended, awaits, await, unless, or_throw, ◌>>=◌}
use gossveil.Async.Operations.{Answer}
use gossveil.Async.Run.{Running, take_turn, turn, turns, turns_of, run_calls}
use gossveil.Async.Run.Keeps.{Keeps}

-- `R s t`: the part that matters is in `t` as it is in `s`.
module _ {S : Type 0} (R : S → S → Type 0) where
  -- From states with the same part, each turn leads to states with the same part, and to the same
  -- rest of the call.
  unfoldable pub Local : {A : Type 0} → Task S A → Type 0
  Local (ended r) = Unit {0}
  Local (awaits effect rest) =
      (s t : S) → R s t → R (effect s) (effect t) × (rest s ≡ rest t) × Local (rest s)

  module _ {A B : Type 0} (f : A → Task S B) where
    pub ended-Local : (r : Result A) → ((a : A) → Local (f a)) → Local (ended r >>= f)
    unfolding ◌>>=◌ Local
    ended-Local (ok a) h = h a
    ended-Local (err e) h = tt

    pub await-Local :
        (m : Exec S A)
        → ((s t : S) → R s t → R (m s).1 (m t).1 × ((m s).0 ≡ (m t).0))
        → ((a : A) → Local (f a))
        → Local (await m >>= f)
    unfolding ◌>>=◌ Local
    await-Local m same h =
        λ s t r. let (r', e) = same s t r in (r', ap (λ o. ended o >>= f) e, ended-Local (m s).0 h)

    pub throw-Local :
        (o : Option A) (e : GossveilError) → ((a : A) → Local (f a)) → Local (or_throw o e >>= f)
    throw-Local none e h = ended-Local (err e) h
    throw-Local (some a) e h = ended-Local (ok a) h

    pub part-Local : (t : Task S A) → Local t → ((a : A) → Local (f a)) → Local (t >>= f)
    unfolding ◌>>=◌ Local
    part-Local (ended r) h rest = ended-Local r rest
    part-Local (awaits effect k) h rest =
        λ s t r. let (r', e, h') = h s t r in (r', ap (λ u. u >>= f) e, part-Local (k s) h' rest)

  pub unless-Local :
      {B : Type 0} (f : Unit {0} → Task S B) (test : Bool) (e : GossveilError)
      → Local (f tt)
      → Local (unless test e >>= f)
  unless-Local f true e h = ended-Local f (ok tt) (λ _. h)
  unless-Local f false e h = ended-Local f (err e) (λ _. h)

  pub last-Local :
      {A : Type 0} (m : Exec S A)
      → ((s t : S) → R s t → R (m s).1 (m t).1 × ((m s).0 ≡ (m t).0))
      → Local (await m)
  unfolding Local
  last-Local m same = λ s t r. let (r', e) = same s t r in (r', ap ended e, tt)

  pub end-Local : {A : Type 0} (r : Result A) → Local (ended r)
  unfolding Local
  end-Local r = tt

  -- Each turn of the call leaves the part alone.
  abbrev pub Quiet : {A : Type 0} → Task S A → Type 0
  Quiet = Keeps (λ s. Unit {0}) R

-- The entry with a number, and a statement about all entries but that one.
unfoldable pub nth : {A : Type 0} → ℕ → List A → Option A
nth i [] = none
nth zero (c ∷ cs) = some c
nth (suc i) (c ∷ cs) = nth i cs

unfoldable pub Others : {A : Type 0} → (A → Type 0) → ℕ → List A → Type 0
Others P i [] = Unit {0}
Others P zero (c ∷ cs) = All P cs
Others P (suc i) (c ∷ cs) = P c × Others P i cs

-- A call at another point.
abbrev pub moved : {S : Type 0} (c : Running S) → Task S (Answer c.operation) → Running S
moved c t = record { operation = c.operation; rest = t }

module _ {S : Type 0} where
  own_turn :
      (i : ℕ) (cs : List (Running S)) (c : Running S) (u : S)
      → nth i cs ≡ some c
      → (nth i (turn i cs u).0 ≡ some (moved c (take_turn c.rest u).0))
        × ((turn i cs u).1 ≡ (take_turn c.rest u).1)
  unfolding nth turn
  own_turn i [] c u e = cc
  own_turn zero (d ∷ cs) c u e =
      let same : d ≡ c = cc in
      (
        ap (λ (k : Running S). some (moved k (take_turn k.rest u).0)) same,
        ap (λ (k : Running S). (take_turn k.rest u).1) same,
      )
  own_turn (suc i) (d ∷ cs) c u e = own_turn i cs c u e

  own_turn-Others :
      (P : Running S → Type 0) (i : ℕ) (cs : List (Running S)) (u : S)
      → Others P i cs
      → Others P i (turn i cs u).0
  unfolding Others turn
  own_turn-Others P i [] u h = tt
  own_turn-Others P zero (d ∷ cs) u h = h
  own_turn-Others P (suc i) (d ∷ cs) u (h, hs) = (h, own_turn-Others P i cs u hs)

module _ {S : Type 0} (R : S → S → Type 0) (same : (s : S) → R s s) where
  take_turn-Quiet :
      {A : Type 0} (t : Task S A) (u : S)
      → Quiet R t
      → Quiet R (take_turn t u).0 × R u (take_turn t u).1
  unfolding Keeps
  take_turn-Quiet (ended r) u h = (tt, same u)
  take_turn-Quiet (awaits effect rest) u h = let (r, h') = h u tt in (h', r)

  turn-Quiet :
      (j : ℕ) (cs : List (Running S)) (u : S)
      → All (λ c. Quiet R c.rest) cs
      → All (λ c. Quiet R c.rest) (turn j cs u).0 × R u (turn j cs u).1
  unfolding turn
  turn-Quiet j [] u h = (tt, same u)
  turn-Quiet zero (d ∷ cs) u (h, hs) = let (h', r) = take_turn-Quiet d.rest u h in ((h', hs), r)
  turn-Quiet (suc j) (d ∷ cs) u (h, hs) = let (hs', r) = turn-Quiet j cs u hs in ((h, hs'), r)

  other_turn :
      (i j : ℕ) (cs : List (Running S)) (u : S)
      → (i == j) ≡ false
      → Others (λ c. Quiet R c.rest) i cs
      → (nth i (turn j cs u).0 ≡ nth i cs)
        × Others (λ c. Quiet R c.rest) i (turn j cs u).0
        × R u (turn j cs u).1
  unfolding nth Others turn
  other_turn i j [] u ne h = (refl, tt, same u)
  other_turn zero zero (d ∷ cs) u ne h = absurd (ground arith)
  other_turn zero (suc j) (d ∷ cs) u ne h = let (h', r) = turn-Quiet j cs u h in (refl, h', r)
  other_turn (suc i) zero (d ∷ cs) u ne (h, hs) =
      let (h', r) = take_turn-Quiet d.rest u h in (refl, (h', hs), r)
  other_turn (suc i) (suc j) (d ∷ cs) u ne (h, hs) =
      let ne' : (i == j) ≡ false = ground arith in
      let (e, hs', r) = other_turn i j cs u ne' hs in (e, (h, hs'), r)

  take_turn-Local :
      {A : Type 0} (t : Task S A) (v u : S)
      → Local R t
      → R v u
      → ((take_turn t u).0 ≡ (take_turn t v).0)
        × R (take_turn t v).1 (take_turn t u).1
        × Local R (take_turn t v).0
  unfolding Local
  take_turn-Local (ended r) v u l h = (refl, h, tt)
  take_turn-Local (awaits effect rest) v u l h = let (r, e, l') = l v u h in (sym e, r, l')

  module _ (trans : (s t u : S) → R s t → R t u → R s u) where
    -- A call that is local to a part of the state takes its turns among calls that leave that part
    -- alone as it takes them with no other between.
    pub run_calls-Local :
        (i : ℕ) (schedule : List ℕ) (cs : List (Running S)) (c : Running S) (v u : S)
        → nth i cs ≡ some c
        → Local R c.rest
        → Others (λ c. Quiet R c.rest) i cs
        → R v u
        → (nth i (run_calls schedule cs u).0
            ≡ some (moved c (turns (turns_of i schedule) c.rest v).0))
          × R (turns (turns_of i schedule) c.rest v).1 (run_calls schedule cs u).1
    unfolding run_calls turns_of turns
    run_calls-Local i [] cs c v u e l h r = (e, r)
    run_calls-Local i (j ∷ schedule) cs c v u e l h r = elim (Bool-cases (i == j)) [
      | inr ne ↦
          let (e', h', r') = other_turn i j cs u ne h in
          rw ne (
            run_calls-Local i schedule (turn j cs u).0 c v (turn j cs u).1 (e' ∙ e) l h'
              (trans v u (turn j cs u).1 r r'))
      | inl eq ↦
          let (same_rest, r', l') = take_turn-Local c.rest v u l r in
          let (e', u') = own_turn i cs c u e in
          let i_j : i ≡ j = (==_iff i j).0 eq in
          rw (eq, sym i_j)
            (run_calls-Local i schedule (turn i cs u).0 (moved c (take_turn c.rest v).0)
              (take_turn c.rest v).1 (turn i cs u).1 (e' ∙ ap (λ t. some (moved c t)) same_rest) l'
              (own_turn-Others (λ c. Quiet R c.rest) i cs u h)
              (subst (λ w. R (take_turn c.rest v).1 w) (sym u') r'))
    ]
