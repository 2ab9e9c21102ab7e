-- ===== src/Session/Interleaved/Overlap.antt =====
-- Overlapping calls of `sessionEncrypt` for one address.
use gossveil.Base.{◌≡◌, refl, sym, ap, ◌∙◌, Bool, true, false, List, [], ◌∷◌, some}
use gossveil.Fault.{Result, ok}
use gossveil.Dict.{lookup, insert, text_key_eq}
use gossveil.Address.{to_string}
use gossveil.Bridge.Sessions.{Sealed, SessionInfo, session_seal, session_info}
use gossveil.Messages.{CiphertextMessage}
use gossveil.Records.{SessionRecord}
use gossveil.Session.{binding}
use gossveil.Session.InMemory.{known}
use gossveil.Store.Memory.{MemoryStore, trusts, get_session, save_session}
use gossveil.Session.Interleaved.{
  EncryptCall, Phase, calling, got_session, asked_trust, saved, ended, advance, step, run,
  both_calling,
}
use gossveil.Session.Interleaved.Alone.{sealed_phase, sealing-eq, lookup-inserted}

-- The core seals the call's message with `session`, for an identity that is trusted.
abbrev pub Seals : EncryptCall → SessionRecord → MemoryStore → Sealed → Type 0
Seals c session s sealed =
    (session_seal c.platform session c.message c.now_secs (binding c.local_address (some c.address))
      ≡ ok sealed)
    × ((info : SessionInfo) × (session_info c.platform sealed.record_bytes c.now_secs ≡ ok info)
        × (trusts (known c.address s) info.remote_identity ≡ true))

abbrev pub sent : Sealed → Phase
sent sealed = ended (ok (record { type = sealed.kind; bytes = sealed.sealed }))

Seals-sealing :
    (c : EncryptCall) (session : SessionRecord) (s : MemoryStore) (sealed : Sealed)
    → Seals c session s sealed
    → step c (got_session (some session), s) ≡ (asked_trust sealed true, s)
unfolding sealed_phase
Seals-sealing c session s sealed (e, (info, e', trusted)) =
    sealing-eq c session s ∙ rw (e, sealed_phase) (rw e' (rw trusted refl))

-- Both calls take turns, one await each.
abbrev pub alternating : List Bool
alternating = true ∷ false ∷ true ∷ false ∷ true ∷ false ∷ true ∷ false ∷ []

module _ (c d : EncryptCall) (schedule : List Bool) (phase other : Phase) (s : MemoryStore) where
  first_turn :
      (phase' : Phase) (s' : MemoryStore)
      → step c (phase, s) ≡ (phase', s')
      → run (true ∷ schedule) c d (record { first = phase; second = other; store = s })
        ≡ run schedule c d (record { first = phase'; second = other; store = s' })
  unfolding run
  first_turn phase' s' e =
      ap (λ t. run schedule c d (record { first = t.0; second = other; store = t.1 })) e

  second_turn :
      (other' : Phase) (s' : MemoryStore)
      → step d (other, s) ≡ (other', s')
      → run (false ∷ schedule) c d (record { first = phase; second = other; store = s })
        ≡ run schedule c d (record { first = phase; second = other'; store = s' })
  unfolding run
  second_turn other' s' e =
      ap (λ t. run schedule c d (record { first = phase; second = t.0; store = t.1 })) e

asks_session :
    (c : EncryptCall) (s : MemoryStore) (session : SessionRecord)
    → lookup (to_string c.address) s.sessions ≡ some session
    → step c (calling, s) ≡ (got_session (some session), s)
unfolding advance get_session
asks_session c s session found = ap (λ f. (got_session f, s)) found

abbrev with_session : EncryptCall → Sealed → MemoryStore → MemoryStore
with_session c sealed s = record s {
  sessions = insert (to_string c.address) sealed.record_bytes s.sessions;
}

abbrev pub answer : Sealed → Result CiphertextMessage
answer sealed = ok (record { type = sealed.kind; bytes = sealed.sealed })

saves :
    (c : EncryptCall) (s : MemoryStore) (sealed : Sealed)
    → step c (asked_trust sealed true, s) ≡ (saved (answer sealed), with_session c sealed s)
unfolding advance save_session
saves c s sealed = refl

ends :
    (c : EncryptCall) (s : MemoryStore) (result : Result CiphertextMessage)
    → step c (saved result, s) ≡ (ended result, s)
unfolding advance
ends c s result = refl

all_taken :
    (c d : EncryptCall) (phase other : Phase) (s : MemoryStore)
    → run [] c d (record { first = phase; second = other; store = s })
      ≡ record { first = phase; second = other; store = s }
unfolding run
all_taken c d phase other s = refl

run-alternating-eq :
    (c d : EncryptCall) (s : MemoryStore) (session : SessionRecord) (sealed sealed' : Sealed)
    → c.address ≡ d.address
    → lookup (to_string c.address) s.sessions ≡ some session
    → Seals c session s sealed
    → Seals d session s sealed'
    → run alternating c d (both_calling s) ≡ record {
      first = sent sealed;
      second = sent sealed';
      store = with_session d sealed' (with_session c sealed s);
    }
run-alternating-eq c d s session sealed sealed' same found seals seals' =
    let found' : lookup (to_string d.address) s.sessions ≡ some session =
      ap (λ a. lookup (to_string a) s.sessions) (sym same) ∙ found in
    let s1 = with_session c sealed s in
    let s2 = with_session d sealed' s1 in
    first_turn c d _ calling calling s _ s (asks_session c s session found)
    ∙ second_turn c d _ _ calling s _ s (asks_session d s session found')
    ∙ first_turn c d _ _ _ s _ s (Seals-sealing c session s sealed seals)
    ∙ second_turn c d _ _ _ s _ s (Seals-sealing d session s sealed' seals')
    ∙ first_turn c d _ _ _ s _ s1 (saves c s sealed)
    ∙ second_turn c d _ _ _ s1 _ s2 (saves d s1 sealed')
    ∙ first_turn c d _ _ _ s2 _ s2 (ends c s2 (answer sealed))
    ∙ second_turn c d [] _ _ s2 _ s2 (ends d s2 (answer sealed'))
    ∙ all_taken c d (ended (answer sealed)) (ended (answer sealed')) s2

-- If two calls for one address alternate at their awaits, and the core seals for a trusted identity,
-- then both messages are sealed with the one session that was stored before, and both calls succeed. The store keeps the new record of the
-- second; the record in which the first message was sealed is lost.
pub run-alternating :
    (c d : EncryptCall) (s : MemoryStore) (session : SessionRecord) (sealed sealed' : Sealed)
    → c.address ≡ d.address
    → lookup (to_string c.address) s.sessions ≡ some session
    → Seals c session s sealed
    → Seals d session s sealed'
    → ((run alternating c d (both_calling s)).first ≡ sent sealed)
      × ((run alternating c d (both_calling s)).second ≡ sent sealed')
      × (lookup (to_string c.address) (run alternating c d (both_calling s)).store.sessions
          ≡ some sealed'.record_bytes)
run-alternating c d s session sealed sealed' same found seals seals' =
    let end = run-alternating-eq c d s session sealed sealed' same found seals seals' in
    let sessions = insert (to_string c.address) sealed.record_bytes s.sessions in
    (
      ap (λ t. t.first) end,
      ap (λ t. t.second) end,
      ap (λ t. lookup (to_string c.address) t.store.sessions) end
          ∙ ap
              (λ a.
                lookup (to_string a) (insert (to_string d.address) sealed'.record_bytes sessions))
              same
          ∙ lookup-inserted (to_string d.address) sealed'.record_bytes sessions,
    )
