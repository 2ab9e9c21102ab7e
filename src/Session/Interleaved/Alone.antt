-- ===== src/Session/Interleaved/Alone.antt =====
-- Overlapping calls of `sessionEncrypt` for different addresses against the same calls alone.
use gossveil.Base.{
  ℕ, zero, suc, ◌≤◌, ◌≡◌, ◌≢◌, refl, sym, ap, subst, Text, Bytes, ◌∙◌, Bool, true, false, List, [],
  ◌∷◌, Option, none, some, arith,
}
use gossveil.Fault.{Result, ok, err}
use gossveil.Dict.{Dict, lookup, insert, text_key_eq, lookup-insert, beq_self}
use gossveil.Address.{ProtocolAddress, to_string}
use gossveil.Messages.{CiphertextMessage}
use gossveil.Store.Memory.{MemoryStore, trusts, get_session, save_session, is_trusted_identity}
use gossveil.Session.InMemory.{encrypt, known, encrypt-eq}
use gossveil.Session.{binding}
use gossveil.Bridge.Sessions.{session_seal, session_info}
use gossveil.Records.{SessionRecord}
use gossveil.Keys.{PublicKey}
use gossveil.Session.Frame.{SameAt, insert_elsewhere}
use gossveil.Session.Interleaved.{
  EncryptCall, Phase, calling, got_session, asked_trust, saved, ended, advance, step, turns, Pair,
  run, both_calling,
}

-- Four turns of a call alone are the operation.
turns-encrypt :
    (c : EncryptCall) (s : MemoryStore)
    → turns 4 c (calling, s) ≡ (
        let (r, s') = encrypt c.platform c.message c.address c.now_secs c.local_address s in
        (ended r, s'))
unfolding turns advance get_session save_session is_trusted_identity
turns-encrypt c s =
    rw (encrypt-eq c.platform c.address c.now_secs s c.message c.local_address) (ground arith)

pub lookup-inserted :
    (k : Text) (r : Bytes) (d : Dict Text Bytes) → lookup k (insert k r d) ≡ some r
lookup-inserted k r d = lookup-insert k k r d ∙ rw (beq_self k) refl

-- Where the turn that seals ends, from the identity recorded for the address.
unfoldable pub sealed_phase : EncryptCall → SessionRecord → Option PublicKey → Phase
sealed_phase c session key =
    elim (session_seal c.platform session c.message c.now_secs
      (binding c.local_address (some c.address))) [
        | err e ↦ ended (err e)
        | ok sealed ↦ elim (session_info c.platform sealed.record_bytes c.now_secs) [
          | err e ↦ ended (err e)
          | ok info ↦ asked_trust sealed (trusts key info.remote_identity)
        ]
      ]

pub sealing-eq :
    (c : EncryptCall) (session : SessionRecord) (s : MemoryStore)
    → step c (got_session (some session), s) ≡ (sealed_phase c session (known c.address s), s)
unfolding advance is_trusted_identity sealed_phase
sealing-eq c session s = ground arith

sealing_local :
    (c : EncryptCall) (session : SessionRecord) (s t : MemoryStore)
    → SameAt c.address s t
    → ((step c (got_session (some session), t)).0 ≡ (step c (got_session (some session), s)).0)
      × SameAt c.address
          ((step c (got_session (some session), s)).1)
          ((step c (got_session (some session), t)).1)
sealing_local c session s t (sessions, keys) =
    rw (sealing-eq c session s, sealing-eq c session t)
      (ap (sealed_phase c session) keys, (sessions, keys))

sealing-SameAt :
    (b : ProtocolAddress) (c : EncryptCall) (session : SessionRecord) (s : MemoryStore)
    → SameAt b s ((step c (got_session (some session), s)).1)
sealing-SameAt b c session s = rw (sealing-eq c session s) (refl, refl)

-- A turn depends only on the session and the identity of its own address.
step_local :
    (c : EncryptCall) (phase : Phase) (s t : MemoryStore)
    → SameAt c.address s t
    → ((step c (phase, t)).0 ≡ (step c (phase, s)).0)
      × SameAt c.address ((step c (phase, s)).1) ((step c (phase, t)).1)
unfolding advance get_session save_session is_trusted_identity
step_local c calling s t (sessions, keys) = (ap got_session sessions, (sessions, keys))
step_local c (got_session none) s t same = (refl, same)
step_local c (got_session (some session)) s t (sessions, keys) =
    sealing_local c session s t (sessions, keys)
step_local c (asked_trust sealed false) s t same = (refl, same)
step_local c (asked_trust sealed true) s t (sessions, keys) =
    let k = to_string c.address in
    (
      refl,
      (
        lookup-inserted k sealed.record_bytes t.sessions
            ∙ sym (lookup-inserted k sealed.record_bytes s.sessions),
        keys,
      ),
    )
step_local c (saved result) s t same = (refl, same)
step_local c (ended result) s t same = (refl, same)

-- A turn leaves every other address alone.
step-SameAt :
    (b : ProtocolAddress) (c : EncryptCall) (phase : Phase) (s : MemoryStore)
    → b ≢ c.address
    → SameAt b s ((step c (phase, s)).1)
unfolding advance get_session save_session is_trusted_identity
step-SameAt b c calling s ne = (refl, refl)
step-SameAt b c (got_session none) s ne = (refl, refl)
step-SameAt b c (got_session (some session)) s ne = sealing-SameAt b c session s
step-SameAt b c (asked_trust sealed false) s ne = (refl, refl)
step-SameAt b c (asked_trust sealed true) s ne =
    (insert_elsewhere c.address b sealed.record_bytes s.sessions ne, refl)
step-SameAt b c (saved result) s ne = (refl, refl)
step-SameAt b c (ended result) s ne = (refl, refl)

SameAt-trans :
    (b : ProtocolAddress) (s t u : MemoryStore) → SameAt b s t → SameAt b t u → SameAt b s u
SameAt-trans b s t u (p, q) (p', q') = (p' ∙ p, q' ∙ q)

-- The turns of either call in a schedule.
abbrev pub turns_of : Bool → List Bool → ℕ
turns_of who [] = 0
turns_of true (true ∷ schedule) = suc (turns_of true schedule)
turns_of true (false ∷ schedule) = turns_of true schedule
turns_of false (true ∷ schedule) = turns_of false schedule
turns_of false (false ∷ schedule) = suc (turns_of false schedule)

-- A call of the pair stands where it would stand alone, after as many turns, and of its own address
-- the store holds what it would hold.
abbrev pub AsAlone : EncryptCall → Phase × MemoryStore → Phase → MemoryStore → Type 0
AsAlone c alone phase s = (phase ≡ alone.0) × SameAt c.address alone.1 s

own_turn :
    (c : EncryptCall) (alone : Phase × MemoryStore) (phase : Phase) (s : MemoryStore)
    → AsAlone c alone phase s
    → AsAlone c (step c alone) ((step c (phase, s)).0) ((step c (phase, s)).1)
own_turn c (alone, t) phase s (e, same) =
    subst (λ ph. AsAlone c (step c (alone, t)) ((step c (ph, s)).0) ((step c (ph, s)).1)) (sym e)
      (step_local c alone t s same)

other_turn :
    (c d : EncryptCall) (alone : Phase × MemoryStore) (phase other : Phase) (s : MemoryStore)
    → c.address ≢ d.address
    → AsAlone c alone phase s
    → AsAlone c alone phase ((step d (other, s)).1)
other_turn c d (alone, t) phase other s ne (e, same) = (
  e,
  SameAt-trans c.address t s ((step d (other, s)).1) same (step-SameAt c.address d other s ne),
)

run-AsAlone :
    (schedule : List Bool) (c d : EncryptCall) (t : Pair) (alone alone' : Phase × MemoryStore)
    → c.address ≢ d.address
    → AsAlone c alone t.first t.store
    → AsAlone d alone' t.second t.store
    → AsAlone c
        (turns (turns_of true schedule) c alone)
        (run schedule c d t).first
        (run schedule c d t).store
      × AsAlone d
          (turns (turns_of false schedule) d alone')
          (run schedule c d t).second
          (run schedule c d t).store
unfolding run turns
run-AsAlone [] c d t alone alone' ne h h' = (h, h')
run-AsAlone (true ∷ schedule) c d t alone alone' ne h h' =
    run-AsAlone schedule c d _ (step c alone) alone' ne (own_turn c alone t.first t.store h)
      (other_turn d c alone' t.second t.first t.store (λ e. ne (sym e)) h')
run-AsAlone (false ∷ schedule) c d t alone alone' ne h h' =
    run-AsAlone schedule c d _ alone (step d alone') ne
      (other_turn c d alone t.first t.second t.store ne h) (own_turn d alone' t.second t.store h')

-- The end of a call alone.
abbrev pub alone_end : EncryptCall → MemoryStore → Phase × MemoryStore
alone_end c s =
    let (result, s') = encrypt c.platform c.message c.address c.now_secs c.local_address s in
    (ended result, s')

turns-ended :
    (k : ℕ) (c : EncryptCall) (result : Result CiphertextMessage) (s : MemoryStore)
    → turns k c (ended result, s) ≡ (ended result, s)
unfolding turns advance
turns-ended zero c result s = refl
turns-ended (suc k) c result s = turns-ended k c result s

turns-alone_end :
    (n : ℕ) (c : EncryptCall) (s : MemoryStore) → 4 ≤ n → turns n c (calling, s) ≡ alone_end c s
unfolding turns
turns-alone_end zero c s h = absurd (omega arith)
turns-alone_end (suc zero) c s h = absurd (omega arith)
turns-alone_end (suc (suc zero)) c s h = absurd (omega arith)
turns-alone_end (suc (suc (suc zero))) c s h = absurd (omega arith)
turns-alone_end (suc (suc (suc (suc k)))) c s h =
    ap (turns k c) (turns-encrypt c s)
    ∙ turns-ended k c (encrypt c.platform c.message c.address c.now_secs c.local_address s).0
        (encrypt c.platform c.message c.address c.now_secs c.local_address s).1

-- Two calls of `sessionEncrypt` for different addresses may overlap in any way: once each has had
-- its four turns, both have ended as each ends alone, and the session and the identity that the
-- store has for either address are those that the call for it alone leaves.
pub run-AsAlone_end :
    (schedule : List Bool) (c d : EncryptCall) (s : MemoryStore)
    → c.address ≢ d.address
    → 4 ≤ turns_of true schedule
    → 4 ≤ turns_of false schedule
    → AsAlone c
        (alone_end c s)
        (run schedule c d (both_calling s)).first
        (run schedule c d (both_calling s)).store
      × AsAlone d
          (alone_end d s)
          (run schedule c d (both_calling s)).second
          (run schedule c d (both_calling s)).store
run-AsAlone_end schedule c d s ne enough enough' =
    let t = run schedule c d (both_calling s) in
    let (h, h') =
      run-AsAlone schedule c d (both_calling s) (calling, s) (calling, s) ne (refl, (refl, refl))
        (refl, (refl, refl)) in
    (
      subst (λ u. AsAlone c u t.first t.store) (turns-alone_end _ c s enough) h,
      subst (λ u. AsAlone d u t.second t.store) (turns-alone_end _ d s enough') h',
    )
