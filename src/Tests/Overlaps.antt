-- ===== src/Tests/Overlaps.antt =====
-- Runs of the theorems on overlapping calls.
use gossveil.Base.{◌≡◌, refl, ap, ◌∙◌, true, [], ◌∷◌, Bytes, none, some}
use gossveil.Dict.{lookup, text_key_eq}
use gossveil.Address.{ProtocolAddress, to_string}
use gossveil.Bridge.Sessions.{Sealed, session_seal, session_info}
use gossveil.BytesEqual.{bytes_equal}
use gossveil.Keys.{equals}
use gossveil.Session.InMemory.{known}
use gossveil.Store.Memory.{trusts}
use gossveil.Session.Interleaved.{EncryptCall, run, both_calling}
use gossveil.Session.Interleaved.Alone.{lookup-inserted}
use gossveil.Session.Interleaved.Overlap.{Seals, sent, alternating, run-alternating}
use gossveil.Tests.Data.{platform, alice, peer_key, empty_store, store, alice-known, info}

abbrev call_for : ProtocolAddress → Bytes → EncryptCall
call_for a message = record {
  platform = platform;
  message = message;
  address = a;
  now_secs = 100;
  local_address = none;
}

-- What the platform seals.
abbrev sealed : Sealed
sealed = record { kind = 1; sealed = 5 ∷ 6 ∷ []; record_bytes = 5 ∷ 6 ∷ [] }

alice-session : lookup (to_string alice) store.sessions ≡ some (4 ∷ [])
alice-session = lookup-inserted (to_string alice) (4 ∷ []) empty_store.sessions

same_key : trusts (some peer_key) peer_key ≡ true
unfolding trusts equals bytes_equal
same_key = refl

alice-trusted : trusts (known alice store) peer_key ≡ true
alice-trusted = ap (λ key. trusts key peer_key) alice-known ∙ same_key

alice-Seals : (message : Bytes) → Seals (call_for alice message) (4 ∷ []) store sealed
unfolding session_seal session_info
alice-Seals message = (refl, (info, refl, alice-trusted))

run-alternating_example :
    ((run alternating
        (call_for alice (1 ∷ []))
        (call_for alice (2 ∷ []))
        (both_calling store)).first
      ≡ sent sealed)
    × ((run alternating
          (call_for alice (1 ∷ []))
          (call_for alice (2 ∷ []))
          (both_calling store)).second
        ≡ sent sealed)
    × (lookup
          (to_string alice)
          (run alternating
            (call_for alice (1 ∷ []))
            (call_for alice (2 ∷ []))
            (both_calling store)).store.sessions
        ≡ some (5 ∷ 6 ∷ []))
run-alternating_example =
    run-alternating (call_for alice (1 ∷ [])) (call_for alice (2 ∷ [])) store (4 ∷ []) sealed sealed
      refl alice-session (alice-Seals (1 ∷ [])) (alice-Seals (2 ∷ []))
