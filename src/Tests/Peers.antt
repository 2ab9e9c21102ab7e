-- ===== src/Tests/Peers.antt =====
-- A run of the theorem on overlapping calls for different addresses.
use gossveil.Base.{
  ℕ, ◌≡◌, ◌≢◌, ◌≤◌, refl, ap, List, [], ◌∷◌, ◌++◌, Text, some, none, replicate, arith,
}
use gossveil.Bridge.Call.{Platform}
use gossveil.Address.{ProtocolAddress}
use gossveil.Async.{ended}
use gossveil.Async.Operations.{Operation, starts, encrypts, decrypts_first, whole}
use gossveil.Async.Run.{begin, run_calls, turns_of}
use gossveil.Async.Run.Local.{nth, Others}
use gossveil.Async.InMemory.{memory_host}
use gossveil.Async.InMemory.Invariants.{about}
use gossveil.Async.InMemory.Alone.{SamePart, OnSession}
use gossveil.Async.InMemory.Alone.Ends.{overlaps-SamePart}
use gossveil.Tests.Data.{platform, alice, bob, store, bundle, opener}

abbrev as_is : Text → Text
as_is s = s

abbrev to_alice : Operation
to_alice = encrypts (1 ∷ []) alice 100 none

-- A call for one address between two for another.
abbrev three_calls : List (Platform × Operation)
three_calls =
    (platform, starts bundle bob 100)
    ∷ (platform, to_alice)
    ∷ (platform, decrypts_first opener bob 100 none)
    ∷ []

abbrev in_turns : List ℕ
in_turns = 0 ∷ 1 ∷ 2 ∷ 0 ∷ 1 ∷ 2 ∷ 0 ∷ 2 ∷ 1 ∷ (replicate 10 1 ++ (0 ∷ 2 ∷ []))

alice-ne-bob : alice ≢ bob
alice-ne-bob e =
    let h : ◌≡◌ {A = ℕ} 1 2 = ap (λ (a : ProtocolAddress). a.device_id) e in absurd (omega arith)

is_second : nth 1 three_calls ≡ some (platform, to_alice)
unfolding nth
is_second = refl

alice-OnSession : OnSession to_alice
unfolding OnSession
alice-OnSession = tt

Others-elsewhere : Others (λ c. about to_alice ≢ about c.1) 1 three_calls
unfolding Others about
Others-elsewhere = (alice-ne-bob, (alice-ne-bob, tt))

enough_turns : 12 ≤ turns_of 1 in_turns
unfolding turns_of
enough_turns = omega arith

overlaps-SamePart_example :
    let alone = whole (memory_host as_is) platform to_alice store in
    let overlapping = run_calls in_turns (begin (memory_host as_is) three_calls) store in
    (nth 1 overlapping.0 ≡ some (record { operation = to_alice; rest = ended alone.0 }))
    × SamePart (about to_alice) alone.1 overlapping.1
overlaps-SamePart_example =
    overlaps-SamePart as_is three_calls in_turns store 1 platform to_alice is_second alice-OnSession
      Others-elsewhere enough_turns
