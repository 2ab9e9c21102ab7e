-- ===== src/Async/Run.antt =====
-- Any number of calls under way at once, over one state: a schedule says whose turn it is.
pub mod Bounded
pub mod Keeps
pub mod Local
use gossveil.Base.{
  ℕ, zero, suc, ◌≤◌, ◌<◌, ◌≡◌, refl, ap, subst, List, [], ◌∷◌, ◌++◌, length, replicate, All, arith,
  ◌==◌, if◌then◌else◌,
}
use gossveil.Fault.{Result, ok, err, GossveilError}
use gossveil.Exec.{Exec}
use gossveil.Async.{Task, ended, awaits, await, finish, ◌>>=◌}
use gossveil.Bridge.Call.{Platform}
use gossveil.Async.Operations.{Host, Operation, Answer, task}

-- A call that is under way.
pub record Running (S : Type 0) : Type 0 where
  pub operation : Operation
  pub rest : Task S (Answer operation)

unfoldable pub IsEnded : {S A : Type 0} → Task S A → Type 0
IsEnded (ended r) = Unit {0}
IsEnded (awaits effect rest) = ⊥

-- One turn of one call; a call that has ended stays as it is.
abbrev pub take_turn : {S A : Type 0} → Task S A → S → Task S A × S
take_turn (ended r) s = (ended r, s)
take_turn (awaits effect rest) s = (rest s, effect s)

-- A turn of the call with a number; with no such call nothing happens.
unfoldable pub turn : {S : Type 0} → ℕ → List (Running S) → S → List (Running S) × S
turn i [] s = ([], s)
turn zero (c ∷ cs) s =
    let (rest, s') = take_turn c.rest s in
    (record { operation = c.operation; rest = rest } ∷ cs, s')
turn (suc i) (c ∷ cs) s = let (cs', s') = turn i cs s in (c ∷ cs', s')

unfoldable pub run_calls : {S : Type 0} → List ℕ → List (Running S) → S → List (Running S) × S
unfolding turn
run_calls [] cs s = (cs, s)
run_calls (i ∷ schedule) cs s = let (cs', s') = turn i cs s in run_calls schedule cs' s'

-- So many turns of one call, with no other between.
unfoldable pub turns : {S A : Type 0} → ℕ → Task S A → S → Task S A × S
turns zero t s = (t, s)
turns (suc n) t s = let (t', s') = take_turn t s in turns n t' s'

-- The turns of the first of two calls, and of the second, whose end is known.
pub first_turns :
    {S : Type 0} (n : ℕ) (schedule : List ℕ) (c d : Running S) (s : S)
    (t : Task S (Answer c.operation)) (s' : S)
    → turns n c.rest s ≡ (t, s')
    → run_calls (replicate n 0 ++ schedule) (c ∷ d ∷ []) s
      ≡ run_calls schedule (record { operation = c.operation; rest = t } ∷ d ∷ []) s'
unfolding run_calls turn turns
first_turns zero schedule c d s t s' e =
    ap
      (λ (o : Task _ (Answer c.operation) × _).
        run_calls schedule (record { operation = c.operation; rest = o.0 } ∷ d ∷ []) o.1)
      e
first_turns (suc n) schedule c d s t s' e =
    let (rest, s2) = take_turn c.rest s in
    first_turns n schedule (record { operation = c.operation; rest = rest }) d s2 t s' e

pub second_turns :
    {S : Type 0} (n : ℕ) (schedule : List ℕ) (c d : Running S) (s : S)
    (t : Task S (Answer d.operation)) (s' : S)
    → turns n d.rest s ≡ (t, s')
    → run_calls (replicate n 1 ++ schedule) (c ∷ d ∷ []) s
      ≡ run_calls schedule (c ∷ record { operation = d.operation; rest = t } ∷ []) s'
unfolding run_calls turn turns
second_turns zero schedule c d s t s' e =
    ap
      (λ (o : Task _ (Answer d.operation) × _).
        run_calls schedule (c ∷ record { operation = d.operation; rest = o.0 } ∷ []) o.1)
      e
second_turns (suc n) schedule c d s t s' e =
    let (rest, s2) = take_turn d.rest s in
    second_turns n schedule c (record { operation = d.operation; rest = rest }) s2 t s' e

-- A call that has taken turns, with no other between, ends as it would have.
pub finish-turns :
    {S A : Type 0} (n : ℕ) (t : Task S A) (s : S)
    → finish t s ≡ finish (turns n t s).0 (turns n t s).1
unfolding turns finish
finish-turns zero t s = refl
finish-turns (suc n) (ended r) s = finish-turns n (ended r) s
finish-turns (suc n) (awaits effect rest) s = finish-turns n (rest s) (effect s)

-- How often it is the turn of a call.
unfoldable pub turns_of : ℕ → List ℕ → ℕ
turns_of i [] = 0
turns_of i (j ∷ schedule) = if i == j then suc (turns_of i schedule) else turns_of i schedule

-- The calls of operations over the stores of a host, before their first turns.
unfoldable pub begin : {S : Type 0} → Host S → List (Platform × Operation) → List (Running S)
begin h [] = []
begin h ((p, o) ∷ ops) = record { operation = o; rest = task h p o } ∷ begin h ops

module _ {S : Type 0} where
  -- Whatever the state is at each turn, the call has ended after `n` turns of its own.
  unfoldable pub EndsWithin : {A : Type 0} → ℕ → Task S A → Type 0
  EndsWithin n (ended r) = Unit {0}
  EndsWithin zero (awaits effect rest) = ⊥
  EndsWithin (suc n) (awaits effect rest) = (s : S) → EndsWithin n (rest s)

  pub EndsWithin-mono :
      {A : Type 0} (m n : ℕ) (t : Task S A) → m ≤ n → EndsWithin m t → EndsWithin n t
  unfolding EndsWithin
  EndsWithin-mono m n (ended r) le h = tt
  EndsWithin-mono zero n (awaits effect rest) le h = elim h [ ]
  EndsWithin-mono (suc m) zero (awaits effect rest) le h = absurd (omega arith)
  EndsWithin-mono (suc m) (suc n) (awaits effect rest) le h =
      λ s. EndsWithin-mono m n (rest s) (omega arith) (h s)

  pub turns-EndsWithin :
      {A : Type 0} (n : ℕ) (t : Task S A) (s : S)
      → EndsWithin n t
      → turns n t s ≡ (ended (finish t s).0, (finish t s).1)
  unfolding EndsWithin turns finish
  turns-EndsWithin zero (ended r) s h = refl
  turns-EndsWithin (suc n) (ended r) s h = turns-EndsWithin n (ended r) s tt
  turns-EndsWithin zero (awaits effect rest) s h = elim h [ ]
  turns-EndsWithin (suc n) (awaits effect rest) s h = turns-EndsWithin n (rest s) (effect s) (h s)

  take_turn-EndsWithin :
      {A : Type 0} (n : ℕ) (t : Task S A) (s : S)
      → EndsWithin (suc n) t
      → EndsWithin n (take_turn t s).0
  unfolding EndsWithin
  take_turn-EndsWithin n (ended r) s h = tt
  take_turn-EndsWithin n (awaits effect rest) s h = h s

  -- Each call ends within as many turns as `left` says.
  Pending : (ℕ → ℕ) → List (Running S) → Type 0
  Pending left [] = Unit {0}
  Pending left (c ∷ cs) = EndsWithin (left 0) c.rest × Pending (λ i. left (suc i)) cs

  Pending-same :
      (left left' : ℕ → ℕ) (cs : List (Running S))
      → ((i : ℕ) → left i ≡ left' i)
      → Pending left cs
      → Pending left' cs
  unfolding Pending
  Pending-same left left' [] same h = tt
  Pending-same left left' (c ∷ cs) same (h, hs) = (
    subst (λ n. EndsWithin n c.rest) (same 0) h,
    Pending-same (λ i. left (suc i)) (λ i. left' (suc i)) cs (λ i. same (suc i)) hs,
  )

  turn-Pending :
      (i : ℕ) (left left' : ℕ → ℕ) (cs : List (Running S)) (s : S)
      → ((j : ℕ) → left j ≡ (if j == i then suc (left' j) else left' j))
      → Pending left cs
      → Pending left' (turn i cs s).0
  unfolding Pending turn
  turn-Pending i left left' [] s e h = tt
  turn-Pending zero left left' (c ∷ cs) s e (h, hs) = (
    take_turn-EndsWithin (left' 0) c.rest s (subst (λ n. EndsWithin n c.rest) (e 0) h),
    Pending-same (λ i. left (suc i)) (λ i. left' (suc i)) cs (λ i. ground (arith, e (suc i))) hs,
  )
  turn-Pending (suc i) left left' (c ∷ cs) s e (h, hs) = (
    (let same : left 0 ≡ left' 0 = ground (arith, e 0) in subst (λ n. EndsWithin n c.rest) same h),
    turn-Pending i (λ j. left (suc j)) (λ j. left' (suc j)) cs s (λ j. ground (arith, e (suc j)))
        hs,
  )

  All-IsEnded : (cs : List (Running S)) → Pending (λ i. 0) cs → All (λ c. IsEnded c.rest) cs
  unfolding Pending EndsWithin IsEnded
  All-IsEnded [] h = tt
  All-IsEnded (c ∷ cs) (h, hs) = (last c.rest h, All-IsEnded cs hs)
    where
      last : {A : Type 0} (t : Task S A) → EndsWithin 0 t → IsEnded t
      last (ended r) h = tt
      last (awaits effect rest) h = elim h [ ]

  run_calls-Pending :
      (schedule : List ℕ) (cs : List (Running S)) (s : S)
      → Pending (λ i. turns_of i schedule) cs
      → All (λ c. IsEnded c.rest) (run_calls schedule cs s).0
  unfolding run_calls turns_of
  run_calls-Pending [] cs s h = All-IsEnded cs h
  run_calls-Pending (i ∷ schedule) cs s h =
      let (cs', s') = turn i cs s in
      run_calls-Pending schedule cs' s' (
        turn-Pending i (λ j. turns_of j (i ∷ schedule)) (λ j. turns_of j schedule) cs s (λ j. refl)
          h)

  -- A schedule that gives each of the calls the turns it needs brings each to its end.
  pub run_calls-IsEnded :
      (n : ℕ) (schedule : List ℕ) (cs : List (Running S)) (s : S)
      → All (λ c. EndsWithin n c.rest) cs
      → ((i : ℕ) → i < length cs → n ≤ turns_of i schedule)
      → All (λ c. IsEnded c.rest) (run_calls schedule cs s).0
  unfolding Pending
  run_calls-IsEnded n schedule cs s within enough =
      run_calls-Pending schedule cs s (pending (λ i. turns_of i schedule) cs within enough)
    where
      pending :
          (left : ℕ → ℕ) (cs : List (Running S))
          → All (λ c. EndsWithin n c.rest) cs
          → ((i : ℕ) → i < length cs → n ≤ left i)
          → Pending left cs
      pending left [] within enough = tt
      pending left (c ∷ cs) (h, hs) enough = (
        EndsWithin-mono n (left 0) c.rest (enough 0 (omega arith)) h,
        pending (λ i. left (suc i)) cs hs (λ i lt. enough (suc i) (omega arith)),
      )
