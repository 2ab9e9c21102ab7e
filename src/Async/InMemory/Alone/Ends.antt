-- ===== src/Async/InMemory/Alone/Ends.antt =====
-- Overlapping calls for different addresses end as the same calls alone.
use gossveil.Base.{
  ℕ, zero, suc, ◌≤◌, ◌≡◌, ◌≢◌, refl, ◌∙◌, ap, subst, List, [], ◌∷◌, All, Text, some,
}
use gossveil.Fault.{Result}
use gossveil.Bridge.Call.{Platform}
use gossveil.Address.{ProtocolAddress}
use gossveil.Store.Memory.{MemoryStore}
use gossveil.Async.{Task, ended}
use gossveil.Async.Operations.{Operation, Answer, task, whole, finish-task}
use gossveil.Async.Run.{
  Running, begin, run_calls, turns, turns_of, EndsWithin-mono, turns-EndsWithin,
}
use gossveil.Async.Run.Bounded.{task_bound}
use gossveil.Async.Run.Local.{Quiet, nth, Others, moved, run_calls-Local}
use gossveil.Async.InMemory.{memory_host}
use gossveil.Async.InMemory.Invariants.{about}
use gossveil.Async.InMemory.Alone.{SamePart, SamePart-trans, OnSession, task-Local, task-Quiet}

module _ (to_lower : Text → Text) where
  abbrev starting : Platform × Operation → Running MemoryStore
  starting c = record { operation = c.1; rest = task (memory_host to_lower) c.0 c.1 }

  nth-begin :
      (i : ℕ) (ops : List (Platform × Operation)) (c : Platform × Operation)
      → nth i ops ≡ some c
      → nth i (begin (memory_host to_lower) ops) ≡ some (starting c)
  unfolding nth begin
  nth-begin i [] c e = cc
  nth-begin zero ((p, o) ∷ ops) c e =
      let same : Path (Platform × Operation) (p, o) c = cc in ap (λ d. some (starting d)) same
  nth-begin (suc i) ((p, o) ∷ ops) c e = nth-begin i ops c e

  begun-Quiet :
      (a : ProtocolAddress) (ops : List (Platform × Operation))
      → All (λ c. a ≢ about c.1) ops
      → All (λ c. Quiet (SamePart a) c.rest) (begin (memory_host to_lower) ops)
  unfolding begin
  begun-Quiet a [] h = tt
  begun-Quiet a ((p, o) ∷ ops) (h, hs) = (task-Quiet to_lower a p o h, begun-Quiet a ops hs)

  Others-begin :
      (a : ProtocolAddress) (i : ℕ) (ops : List (Platform × Operation))
      → Others (λ c. a ≢ about c.1) i ops
      → Others (λ c. Quiet (SamePart a) c.rest) i (begin (memory_host to_lower) ops)
  unfolding Others begin
  Others-begin a i [] h = tt
  Others-begin a zero ((p, o) ∷ ops) h = begun-Quiet a ops h
  Others-begin a (suc i) ((p, o) ∷ ops) (h, hs) =
      (task-Quiet to_lower a p o h, Others-begin a i ops hs)

  -- A call of processBundle, sessionEncrypt or sessionDecrypt may overlap with any calls of the
  -- operations on sessions and groups for other addresses. Once it has had twelve turns, it has ended
  -- as it ends alone, with the same result or error, and the session and the identity that the store
  -- has for its address are those that it leaves alone.
  pub overlaps-SamePart :
      (ops : List (Platform × Operation)) (schedule : List ℕ) (s : MemoryStore) (i : ℕ)
      (p : Platform) (o : Operation)
      → nth i ops ≡ some (p, o)
      → OnSession o
      → Others (λ c. about o ≢ about c.1) i ops
      → 12 ≤ turns_of i schedule
      → let alone = whole (memory_host to_lower) p o s in
        let overlapping = run_calls schedule (begin (memory_host to_lower) ops) s in
        (nth i overlapping.0 ≡ some (record { operation = o; rest = ended alone.0 }))
        × SamePart (about o) alone.1 overlapping.1
  overlaps-SamePart ops schedule s i p o e on others enough =
      let h = memory_host to_lower in
      let n = turns_of i schedule in
      let ends : turns n (task h p o) s ≡ (ended (whole h p o s).0, (whole h p o s).1) =
        turns-EndsWithin n (task h p o) s
          (EndsWithin-mono 12 n (task h p o) enough (task_bound h p o))
        ∙ ap (λ (t : Result (Answer o) × MemoryStore). (ended t.0, t.1)) (finish-task h p o s) in
      let (last, same) =
        run_calls-Local (SamePart (about o)) (λ t. (refl, refl, refl, refl))
          (SamePart-trans (about o)) i schedule (begin h ops) (starting (p, o)) s s
          (nth-begin i ops (p, o) e) (task-Local to_lower p o on)
          (Others-begin (about o) i ops others) (refl, refl, refl, refl) in
      (
        last
            ∙ ap
                (λ (t : Task MemoryStore (Answer o) × MemoryStore).
                  some (moved (starting (p, o)) t.0))
                ends,
        subst
            (λ (t : Task MemoryStore (Answer o) × MemoryStore).
              SamePart (about o) t.1 (run_calls schedule (begin h ops) s).1)
            ends same,
      )
