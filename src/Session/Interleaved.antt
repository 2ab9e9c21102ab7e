-- ===== src/Session/Interleaved.antt =====
-- `sessionEncrypt` of sdk/ts/src/api.ts cut at its awaits, so that calls of it can overlap. A store's
-- method does its work when it is called, and the caller goes on at a later turn with its result.
pub mod Alone
pub mod Overlap
use gossveil.Base.{
  ℕ, zero, suc, Bool, true, false, List, [], ◌∷◌, Bytes, Text, Option, none, some, if◌then◌else◌,
}
use mathlib.Core.Option
use gossveil.Fault.{Result, ok, err, GossveilError}
use gossveil.Exec.{Exec}
use gossveil.Bridge.Call.{Platform}
use gossveil.Bridge.Sessions.{Sealed, SessionInfo, session_info, session_seal}
use gossveil.Address.{ProtocolAddress, untrusted, no_session}
use gossveil.Messages.{CiphertextMessage}
use gossveil.Records.{SessionRecord}
use gossveil.Store.{sending, SessionStore, IdentityKeyStore}
use gossveil.Store.Memory.{MemoryStore, memory_sessions, memory_identities}
use gossveil.Session.{binding}

-- A call of `sessionEncrypt`, with the platform as it behaves during the call.
pub record EncryptCall : Type 0 where
  pub platform : Platform
  pub message : Bytes
  pub address : ProtocolAddress
  pub now_secs : ℕ
  pub local_address : Option ProtocolAddress

-- Where a call stands: not begun, or waiting for `getSession`, for `isTrustedIdentity` with what the
-- core sealed, or for `saveSession`; or it has ended.
pub data Phase : Type 0 where
  calling : Phase
  got_session : Option SessionRecord → Phase
  asked_trust : Sealed → Bool → Phase
  saved ended : Result CiphertextMessage → Phase

message_of : Sealed → CiphertextMessage
message_of sealed = record { type = sealed.kind; bytes = sealed.sealed }

module _ {S : Type 0} (sessions : SessionStore S) (identities : IdentityKeyStore S) where
  -- The code from `await getSession` to the call of `isTrustedIdentity`.
  seal_and_ask : EncryptCall → SessionRecord → S → Phase × S
  seal_and_ask c session s =
      elim (session_seal c.platform session c.message c.now_secs
        (binding c.local_address (some c.address))) [
          | err e ↦ (ended (err e), s)
          | ok sealed ↦ elim (session_info c.platform sealed.record_bytes c.now_secs) [
            | err e ↦ (ended (err e), s)
            | ok info ↦
                let (answer, s') =
                  identities.is_trusted_identity c.address info.remote_identity sending s in
                elim answer [
                  | err e ↦ (ended (err e), s')
                  | ok trusted ↦ (asked_trust sealed trusted, s')
                ]
          ]
        ]

  -- The code from one await to the next.
  unfoldable pub advance : EncryptCall → Phase × S → Phase × S
  unfolding seal_and_ask message_of
  advance c (calling, s) =
      let (found, s') = sessions.get_session c.address s in
      elim found [ err e ↦ (ended (err e), s') | ok session ↦ (got_session session, s') ]
  advance c (got_session none, s) = (ended (err (no_session c.address)), s)
  advance c (got_session (some session), s) = seal_and_ask c session s
  advance c (asked_trust sealed false, s) = (ended (err (untrusted c.address)), s)
  advance c (asked_trust sealed true, s) =
      let (done, s') = sessions.save_session c.address sealed.record_bytes s in
      elim done [ err e ↦ (ended (err e), s') | ok _ ↦ (saved (ok (message_of sealed)), s') ]
  advance c (saved result, s) = (ended result, s)
  advance c (ended result, s) = (ended result, s)

-- Over the in-memory store.
abbrev pub step : EncryptCall → Phase × MemoryStore → Phase × MemoryStore
step = advance memory_sessions memory_identities

-- `n` turns of one call.
unfoldable pub turns : ℕ → EncryptCall → Phase × MemoryStore → Phase × MemoryStore
turns zero c t = t
turns (suc n) c t = turns n c (step c t)

-- Two calls over one store: the phases of both and the store.
pub record Pair : Type 0 where
  pub first : Phase
  pub second : Phase
  pub store : MemoryStore

-- A schedule says whose turn it is: `true` for the first call.
unfoldable pub run : List Bool → EncryptCall → EncryptCall → Pair → Pair
run [] c d t = t
run (true ∷ schedule) c d t =
    let (phase, s) = step c (t.first, t.store) in
    run schedule c d (record { first = phase; second = t.second; store = s })
run (false ∷ schedule) c d t =
    let (phase, s) = step d (t.second, t.store) in
    run schedule c d (record { first = t.first; second = phase; store = s })

abbrev pub both_calling : MemoryStore → Pair
both_calling s = record { first = calling; second = calling; store = s }
