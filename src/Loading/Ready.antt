-- ===== src/Loading/Ready.antt =====
-- The variable `exports` of sdk/ts/src/core.ts over any sequence of calls of `init` and `initSync`.
use gossveil.Base.{
  ◌≡◌, ◌≢◌, refl, ap, ◌∙◌, true, inl, inr, arith, List, [], ◌∷◌, All, Option, none, some,
}
use gossveil.Loading.{Ref, Awaited, Source, Loader, is_ready, begin_init, end_init, init_sync}

-- What a call answers, if it answers at once: a ready module does, else `init` waits.
unfoldable pub at_once : Option Ref → Option (Awaited Ref)
at_once none = none
at_once (some i) = some (inr i)

-- One step of the program, with its answer: a call of `init` starts, one that waited ends, or
-- `initSync` runs.
pub data Step : Loader → Option (Awaited Ref) → Loader → Type 0 where
  begins : (l : Loader) → Step l (at_once (begin_init l).0) ((begin_init l).1)
  ends :
      (l : Loader) (outcome : Awaited Ref)
      → l.waiting ≢ 0
      → Step l (some (end_init outcome l).0) ((end_init outcome l).1)
  runs_sync :
      (l : Loader) (compile instantiate : Ref → Awaited Ref) (source : Source)
      → Step l
          (some (init_sync compile instantiate source l).0)
          ((init_sync compile instantiate source l).1)

-- Any number of steps, with the answer of each.
pub data Reaches : Loader → List (Option (Awaited Ref)) → Loader → Type 0 where
  here : (l : Loader) → Reaches l [] l
  after :
      (l m n : Loader) (answer : Option (Awaited Ref)) (answers : List (Option (Awaited Ref)))
      → Step l answer m
      → Reaches m answers n
      → Reaches l (answer ∷ answers) n

abbrev pub IsReady : Loader → Type 0
IsReady l = is_ready l ≡ true

Step-IsReady : (l m : Loader) (a : Option (Awaited Ref)) → Step l a m → IsReady l → IsReady m
unfolding is_ready begin_init end_init init_sync
Step-IsReady l m a (begins _) h = ground (arith, h)
Step-IsReady l m a (ends _ (inl thrown) w) h = h
Step-IsReady l m a (ends _ (inr i) w) h = refl
Step-IsReady l m a (runs_sync _ c i s) h = ground (arith, h)

Step-idle :
    (l m : Loader) (a : Option (Awaited Ref)) (i : Ref)
    → Step l a m
    → l.exports ≡ some i
    → l.waiting ≡ 0
    → (m ≡ l) × (a ≡ some (inr i))
unfolding begin_init end_init init_sync at_once
Step-idle l m a i (begins _) h idle = (rw h refl, rw h refl)
Step-idle l m a i (ends _ outcome w) h idle = absurd (w idle)
Step-idle l m a i (runs_sync _ c inst s) h idle = (rw h refl, rw h refl)

idle_answers :
    (l n : Loader) (answers : List (Option (Awaited Ref))) (i : Ref)
    → Reaches l answers n
    → l.exports ≡ some i
    → l.waiting ≡ 0
    → (n ≡ l) × All (λ a. a ≡ some (inr i)) answers
idle_answers l n answers i (here _) h idle = (refl, tt)
idle_answers l n answers i (after _ m _ a rest step steps) h idle =
    let (kept, answer) = Step-idle l m a i step h idle in
    let (same, answers_same) =
      idle_answers m n rest i steps (ap (λ x. x.exports) kept ∙ h)
        (ap (λ x. x.waiting) kept ∙ idle) in
    (same ∙ kept, (answer, answers_same))

Reaches-IsReady :
    (l n : Loader) (answers : List (Option (Awaited Ref)))
    → Reaches l answers n
    → IsReady l
    → IsReady n
Reaches-IsReady l n answers (here _) h = h
Reaches-IsReady l n answers (after _ m _ a rest step steps) h =
    Reaches-IsReady m n rest steps (Step-IsReady l m a step h)

-- A module that is ready stays ready, whatever calls of `init` and `initSync` follow, failing ones
-- included. If moreover no call of `init` was under way, then nothing changes any more: every
-- later call answers at once, with the same instance.
pub reaches-IsReady :
    (l n : Loader) (answers : List (Option (Awaited Ref))) (i : Ref)
    → Reaches l answers n
    → l.exports ≡ some i
    → IsReady n × (l.waiting ≡ 0 → (n ≡ l) × All (λ a. a ≡ some (inr i)) answers)
unfolding is_ready
reaches-IsReady l n answers i steps h =
    (Reaches-IsReady l n answers steps (rw h refl), idle_answers l n answers i steps h)
