-- ===== src/Tests/Turns.antt =====
-- Runs of the theorems on any mix of overlapping calls.
use gossveil.Base.{
  ℕ, zero, suc, ◌≤◌, ◌<◌, ◌≡◌, ◌≢◌, refl, ap, List, [], ◌∷◌, ◌++◌, All, Bytes, Text, none, some,
  true, replicate, get_or, arith,
}
use mathlib.Core.Option
use gossveil.Dict.{lookup, insert, text_key_eq}
use gossveil.Session.{published}
use gossveil.Fault.{ok, err}
use gossveil.Bridge.Call.{Platform}
use gossveil.Bridge.Sessions.{session_start, session_open_first, session_info}
use gossveil.BytesEqual.{bytes_equal}
use gossveil.Keys.{equals}
use gossveil.Address.{ProtocolAddress, to_string, untrusted}
use gossveil.Records.{PreKeyBundle, PreKeyRecord, SignedPreKeyRecord, KyberPreKeyRecord}
use gossveil.Store.Memory.{MemoryStore, no_prekey, trusts}
use gossveil.Session.InMemory.{start, known, decrypt_pre_key}
use gossveil.Session.Trust.{IsPinned}
use gossveil.Session.Frame.{SameAt}
use gossveil.Async.{ended}
use gossveil.Async.Operations.{Operation, starts, encrypts, decrypts, decrypts_first}
use gossveil.Async.Run.{IsEnded, begin, run_calls, turns_of}
use gossveil.Async.Run.Bounded.{begun-IsEnded}
use gossveil.Async.InMemory.{memory_host}
use gossveil.Async.InMemory.Invariants.{about}
use gossveil.Async.InMemory.Invariants.Kept.{
  OwnKept, overlaps-IsPinned, overlaps-SameAt, overlaps-OwnKept,
}
use gossveil.Async.InMemory.Races.{ask_first, both_starting, overlapping_bundles}
use gossveil.Async.InMemory.Replay.{
  read_first, Delivery, Opens, message, both_opening, overlapping_deliveries,
}
use gossveil.Tests.Data.{
  platform, alice, bob, peer_key, empty_store, store, signed_store, alice-known, bundle, whisper,
  opener, info,
}

abbrev same_case : Text → Text
same_case s = s

-- Three calls for one address.
abbrev three : List (Platform × Operation)
three =
    (platform, encrypts (1 ∷ []) alice 100 none)
    ∷ (platform, decrypts whisper alice 100 none)
    ∷ (platform, decrypts_first opener alice 100 none)
    ∷ []

abbrev mixed : List ℕ
mixed = 0 ∷ 1 ∷ 2 ∷ 2 ∷ 1 ∷ 0 ∷ 2 ∷ 2 ∷ 2 ∷ 1 ∷ 1 ∷ 2 ∷ 2 ∷ 0 ∷ []

overlaps-IsPinned_example :
    IsPinned alice peer_key (run_calls mixed (begin (memory_host same_case) three) store).1
overlaps-IsPinned_example = overlaps-IsPinned same_case alice peer_key three mixed store alice-known

bob-ne-alice : bob ≢ alice
bob-ne-alice e =
    let h : ◌≡◌ {A = ℕ} 2 1 = ap (λ (a : ProtocolAddress). a.device_id) e in absurd (omega arith)

overlaps-SameAt_example :
    SameAt bob store (run_calls mixed (begin (memory_host same_case) three) store).1
unfolding about
overlaps-SameAt_example =
    overlaps-SameAt same_case bob three mixed store
      (bob-ne-alice, (bob-ne-alice, (bob-ne-alice, tt)))

overlaps-OwnKept_example :
    OwnKept signed_store (run_calls mixed (begin (memory_host same_case) three) signed_store).1
overlaps-OwnKept_example = overlaps-OwnKept same_case three mixed signed_store

abbrev two : List (Platform × Operation)
two =
    (platform, encrypts (1 ∷ []) alice 100 none)
    ∷ (platform, decrypts_first opener alice 100 none)
    ∷ []

abbrev twelve_each : List ℕ
twelve_each = replicate 6 0 ++ (replicate 12 1 ++ replicate 6 0)

enough : (i : ℕ) → i < 2 → 12 ≤ turns_of i twelve_each
unfolding turns_of
enough zero lt = omega arith
enough (suc zero) lt = omega arith
enough (suc (suc i)) lt = absurd (omega arith)

begun-IsEnded_example :
    All
      (λ c. IsEnded c.rest)
      (run_calls twelve_each (begin (memory_host same_case) two) signed_store).0
begun-IsEnded_example = begun-IsEnded (memory_host same_case) two twelve_each signed_store enough

abbrev other_bundle : PreKeyBundle
other_bundle = record bundle { identity_key = replicate 33 2 }

keys_differ : bundle.identity_key ≢ other_bundle.identity_key
keys_differ e = let h : ◌≡◌ {A = ℕ} 1 2 = ap (λ (k : Bytes). get_or k 0 0) e in absurd (omega arith)

nobody_known : known alice empty_store ≡ none
unfolding lookup
nobody_known = refl

started :
    session_start platform empty_store.identity.private_key empty_store.registration_id
      (Option.get_or (lookup (to_string alice) empty_store.sessions) [])
      (published bundle)
      100
    ≡ ok (5 ∷ 6 ∷ [])
unfolding session_start
started = refl

started_again :
    session_start platform empty_store.identity.private_key empty_store.registration_id
      (5 ∷ 6 ∷ [])
      (published other_bundle)
      101
    ≡ ok (5 ∷ 6 ∷ [])
unfolding session_start
started_again = refl

overlapping_bundles_example :
    let one_by_one =
      start platform other_bundle alice 101 (start platform bundle alice 100 empty_store).1 in
    let overlapping =
      run_calls ask_first
        (both_starting same_case platform platform bundle other_bundle alice 100 101 empty_store
          (5 ∷ 6 ∷ [])
          (5 ∷ 6 ∷ []))
        empty_store in
    (one_by_one.0 ≡ err (untrusted alice))
    × (known alice one_by_one.1 ≡ some peer_key)
    × (overlapping.0
        ≡ record { operation = starts bundle alice 100; rest = ended (ok tt) }
          ∷ record { operation = starts other_bundle alice 101; rest = ended (ok tt) }
          ∷ [])
    × (known alice overlapping.1 ≡ some (replicate 33 2))
overlapping_bundles_example =
    overlapping_bundles same_case platform platform bundle other_bundle alice 100 101 empty_store
      (5 ∷ 6 ∷ []) (5 ∷ 6 ∷ []) nobody_known keys_differ started started_again

-- The id that the platform reports for the consumed one-time prekey.
abbrev consumed_id : ℕ
consumed_id = 72340172838076673

abbrev named_one_time : PreKeyRecord
named_one_time = record {
  bytes = 2 ∷ [];
  parsed = record { id = consumed_id; public_key = []; secret = [] };
}

abbrev named_signed : SignedPreKeyRecord
named_signed = record {
  bytes = 3 ∷ [];
  parsed = record { id = 4; stamp = 0; public_key = []; secret = []; signature = [] };
}

abbrev named_pq : KyberPreKeyRecord
named_pq = record {
  bytes = 7 ∷ [];
  parsed = record { id = 8; stamp = 0; public_key = []; secret = []; signature = [] };
}

abbrev stocked : MemoryStore
stocked = record store {
  pre_keys = (consumed_id, named_one_time) ∷ [];
  signed_pre_keys = (4, named_signed) ∷ [];
  kyber_pre_keys = (8, named_pq) ∷ [];
}

abbrev delivery : Delivery
delivery = record {
  bytes = 1 ∷ [];
  inner = [];
  base = [];
  version = 4;
  registration_id = 7;
  one_time_id = consumed_id;
  signed_id = 4;
  pq_id = 8;
  peer = peer_key;
  signed = named_signed;
  one_time = named_one_time;
  pq = named_pq;
  plain = 5 ∷ 6 ∷ [];
  session = 5 ∷ 6 ∷ [];
  consumed_base = replicate 33 1;
  consumed_signed = 16843009;
  consumed_pq = 16843009;
  info = info;
}

stocked-trusts : trusts (known alice stocked) peer_key ≡ true
unfolding trusts equals bytes_equal
stocked-trusts = rw alice-known refl

stocked-Opens : Opens same_case platform alice 100 none stocked delivery
unfolding lookup session_open_first session_info insert
stocked-Opens = record {
  trusted = stocked-trusts;
  has_signed = refl;
  has_one_time = refl;
  has_pq = refl;
  by_core = refl;
  has_info = refl;
  same_identity = refl;
}

abbrev delivered : Operation
delivered =
    decrypts_first (message same_case platform alice 100 none stocked delivery) alice 100 none

overlapping_deliveries_example :
    let m = message same_case platform alice 100 none stocked delivery in
    let first = decrypt_pre_key platform m alice 100 none stocked in
    let second = decrypt_pre_key platform m alice 100 none first.1 in
    let overlapping =
      run_calls read_first
        (both_opening same_case platform alice 100 none stocked delivery)
        stocked in
    (first.0 ≡ ok (5 ∷ 6 ∷ []))
    × (second.0 ≡ err (no_prekey consumed_id))
    × (overlapping.0
        ≡ record { operation = delivered; rest = ended (ok (5 ∷ 6 ∷ [])) }
          ∷ record { operation = delivered; rest = ended (ok (5 ∷ 6 ∷ [])) }
          ∷ [])
overlapping_deliveries_example =
    overlapping_deliveries same_case platform alice 100 none stocked delivery stocked-Opens
