-- ===== src/Async/InMemory/Races.antt =====
-- Calls for one address that overlap, where the same calls one after the other end otherwise.
use gossveil.Base.{
  ℕ, ◌≡◌, ◌≢◌, refl, ◌∙◌, ap, List, [], ◌∷◌, false, Bytes, Text, none, some, if◌then◌else◌,
  Bool-cases, inl, inr,
}
use mathlib.Core.Option
use gossveil.Fault.{Result, ok, err}
use gossveil.Dict.{lookup, insert, text_key_eq}
use gossveil.Bridge.Call.{Platform}
use gossveil.Bridge.Sessions.{session_start}
use gossveil.Address.{ProtocolAddress, to_string, untrusted}
use gossveil.BytesEqual.{bytes_equal, bytes_equal_iff}
use gossveil.Keys.{PublicKey, equals}
use gossveil.Records.{PreKeyBundle}
use gossveil.Store.Memory.{
  MemoryStore, trusts, save_session, get_session, save_identity, is_trusted_identity,
  get_identity_key, get_local_registration_id,
}
use gossveil.Session.{published}
use gossveil.Session.Awaits.{process_bundle_task}
use gossveil.Session.InMemory.{start, start-eq, store_if_trusted, known, established}
use gossveil.Session.Interleaved.Alone.{lookup-inserted}
use gossveil.Async.{ended, ◌>>=◌}
use gossveil.Async.Operations.{starts, task}
use gossveil.Async.Run.{Running, begin, turn, run_calls}
use gossveil.Async.InMemory.{memory_host}

-- Each asks for trust, then the first goes on to its end, and then the second.
abbrev pub ask_first : List ℕ
ask_first = 0 ∷ 1 ∷ 0 ∷ 0 ∷ 0 ∷ 0 ∷ 0 ∷ 1 ∷ 1 ∷ 1 ∷ 1 ∷ 1 ∷ []

untrusted_end :
    (a : ProtocolAddress) (key : PublicKey) (s : MemoryStore) (r : Result Bytes)
    → trusts (known a s) key ≡ false
    → Path
        (Result (Unit {0}) × MemoryStore)
        (elim r [
          | ok session ↦ store_if_trusted a key session tt s
          | err e ↦ if trusts (known a s) key then (err e, s) else (err (untrusted a), s)
        ])
        (err (untrusted a), s)
unfolding store_if_trusted
untrusted_end a key s (ok session) h = rw h refl
untrusted_end a key s (err e) h = rw h refl

module _ (to_lower : Text → Text) (p q : Platform) (b c : PreKeyBundle) (a : ProtocolAddress)
    (now later : ℕ) (s : MemoryStore) (session last : Bytes) where
  abbrev pub both_starting : List (Running MemoryStore)
  both_starting = begin (memory_host to_lower) ((p, starts b a now) ∷ (q, starts c a later) ∷ [])

  race-eq :
      known a s ≡ none
      → session_start p s.identity.private_key s.registration_id
          (Option.get_or (lookup (to_string a) s.sessions) [])
          (published b)
          now
        ≡ ok session
      → session_start q s.identity.private_key s.registration_id session (published c) later
        ≡ ok last
      → run_calls ask_first both_starting s ≡ (
        record { operation = starts b a now; rest = ended (ok tt) }
            ∷ record { operation = starts c a later; rest = ended (ok tt) }
            ∷ [],
        established a c.identity_key last (established a b.identity_key session s),
      )
  unfolding run_calls turn begin task process_bundle_task ◌>>=◌ save_session get_session
      save_identity is_trusted_identity get_identity_key get_local_registration_id trusts
  race-eq unknown started started_again =
      rw (unknown, started, lookup-inserted (to_string a) session s.sessions, started_again) refl

  alone_first :
      known a s ≡ none
      → session_start p s.identity.private_key s.registration_id
          (Option.get_or (lookup (to_string a) s.sessions) [])
          (published b)
          now
        ≡ ok session
      → start p b a now s ≡ (ok tt, established a b.identity_key session s)
  unfolding store_if_trusted trusts
  alone_first unknown started = start-eq p a now s b ∙ rw (started, unknown) refl

  refused :
      b.identity_key ≢ c.identity_key
      → trusts (known a (established a b.identity_key session s)) c.identity_key ≡ false
  unfolding trusts equals
  refused differ =
      rw (lookup-inserted (to_string a) b.identity_key s.identities)
        (elim (Bool-cases (bytes_equal b.identity_key c.identity_key)) [
          | inl same ↦ absurd (differ ((bytes_equal_iff _ _).0 same))
          | inr other ↦ other
        ])

  alone_second :
      b.identity_key ≢ c.identity_key
      → start q c a later (established a b.identity_key session s)
        ≡ (err (untrusted a), established a b.identity_key session s)
  unfolding store_if_trusted
  alone_second differ =
      start-eq q a later (established a b.identity_key session s) c
      ∙ untrusted_end a c.identity_key (established a b.identity_key session s) _ (refused differ)

  -- Two bundles have different identity keys, for an address that none is recorded for; the core
  -- starts a session with the first on the record of the store, and with the second on the session
  -- that the first leads to. Processed one after the other, the second is refused as untrusted.
  -- Under the schedule in which each asks for trust, then the first goes on to its end and then the
  -- second, both succeed, and the identity key that the first recorded is replaced.
  pub overlapping_bundles :
      known a s ≡ none
      → b.identity_key ≢ c.identity_key
      → session_start p s.identity.private_key s.registration_id
          (Option.get_or (lookup (to_string a) s.sessions) [])
          (published b)
          now
        ≡ ok session
      → session_start q s.identity.private_key s.registration_id session (published c) later
        ≡ ok last
      → let one_by_one = start q c a later (start p b a now s).1 in
        let overlapping = run_calls ask_first both_starting s in
        (one_by_one.0 ≡ err (untrusted a))
        × (known a one_by_one.1 ≡ some b.identity_key)
        × (overlapping.0
            ≡ record { operation = starts b a now; rest = ended (ok tt) }
              ∷ record { operation = starts c a later; rest = ended (ok tt) }
              ∷ [])
        × (known a overlapping.1 ≡ some c.identity_key)
  overlapping_bundles unknown differ started started_again =
      let first = alone_first unknown started in
      let second =
        ap (λ (o : Result (Unit {0}) × MemoryStore). start q c a later o.1) first
        ∙ alone_second differ in
      let race = race-eq unknown started started_again in
      (
        ap (λ (o : Result (Unit {0}) × MemoryStore). o.0) second,
        ap (λ (o : Result (Unit {0}) × MemoryStore). known a o.1) second
            ∙ lookup-inserted (to_string a) b.identity_key s.identities,
        ap (λ (o : List (Running MemoryStore) × MemoryStore). o.0) race,
        ap (λ (o : List (Running MemoryStore) × MemoryStore). known a o.1) race
            ∙ lookup-inserted (to_string a) c.identity_key
                (insert (to_string a) b.identity_key s.identities),
      )
