-- ===== src/Session/InMemory/PreKey.antt =====
-- `sessionDecryptPreKey` over the in-memory store: the first message of a session, and the
-- prekeys that it consumes.
use gossveil.Base.{
  ℕ, ◌≡◌, refl, true, Bytes, Option, none, some, [], if◌then◌else◌, arith, ◌∙◌, Bool-cases, inl,
  inr,
}
use mathlib.Core.Option
use gossveil.Fault.{Result, ok, err, Result-cases}
use gossveil.Exec.{Exec, pure, ◌>>◌, >>=-ok, >>=-err}
use gossveil.Dict.{lookup, text_key_eq, nat_eq}
use gossveil.Bridge.Call.{Platform}
use gossveil.Bridge.Sessions.{OpenedFirst, SessionInfo, session_info, session_open_first}
use gossveil.Address.{ProtocolAddress, to_string, untrusted}
use gossveil.Messages.{PreKeyMessage}
use gossveil.Store.Memory.{
  MemoryStore, trusts, memory_sessions, memory_identities, memory_pre_keys, memory_signed_pre_keys,
  memory_kyber_pre_keys, get_session, is_trusted_identity, get_identity_key,
  get_local_registration_id, get_pre_key, get_signed_pre_key, get_kyber_pre_key, no_prekey,
  no_signed_prekey, no_kyber_prekey,
}
use gossveil.Session.{session_decrypt_pre_key, open_with_records, settle, binding}
use gossveil.Session.InMemory.Settled.{settled, settle-eq}
use gossveil.Session.InMemory.{
  decrypt_pre_key, commit_in, commit-eq, established, known, store_if_trusted, Outcome,
}

-- The three records that the message names, each an error if it is not there.
unfoldable pub signed_of : MemoryStore → ℕ → Result Bytes
signed_of s id = elim (lookup id s.signed_pre_keys) [
  | none ↦ err (no_signed_prekey id)
  | some r ↦ ok r.bytes
]

unfoldable pub one_time_of : MemoryStore → Option ℕ → Result Bytes
one_time_of s none = ok []
one_time_of s (some id) = elim (lookup id s.pre_keys) [
  | none ↦ err (no_prekey id)
  | some r ↦ ok r.bytes
]

unfoldable pub pq_of : MemoryStore → Option ℕ → Result Bytes
pq_of s none = ok []
pq_of s (some id) = elim (lookup id s.kyber_pre_keys) [
  | none ↦ err (no_kyber_prekey id)
  | some r ↦ ok r.bytes
]

module _ (p : Platform) (a : ProtocolAddress) (now_secs : ℕ) (s : MemoryStore) (m : PreKeyMessage)
    (local : Option ProtocolAddress) where
  abbrev pub core_answer : Bytes → Bytes → Bytes → Result OpenedFirst
  core_answer signed one_time pq =
      session_open_first p s.identity.private_key s.registration_id
        (Option.get_or (lookup (to_string a) s.sessions) []) m.bytes signed one_time pq
        (binding (some a) local)

  -- The store after a first message that the core opened.
  abbrev pub first_result : OpenedFirst → Result Bytes × MemoryStore
  first_result opened = elim (session_info p opened.record_bytes now_secs) [
    | err e ↦ (err e, s)
    | ok info ↦
        if trusts (known a s) info.remote_identity
        then (
          ok opened.plain,
          settled m.info.pq_id opened.consumed
              (established a info.remote_identity opened.record_bytes s),
        )
        else (err (untrusted a), s)
  ]

  abbrev pub with_records : Bytes → Bytes → Bytes → Result Bytes × MemoryStore
  with_records signed one_time pq =
      open_with_records p memory_sessions memory_identities memory_pre_keys memory_signed_pre_keys
        memory_kyber_pre_keys m a now_secs local s.identity.private_key s.registration_id
        (Option.get_or (lookup (to_string a) s.sessions) []) signed one_time pq s

  abbrev after_commit : OpenedFirst → Exec MemoryStore Bytes
  after_commit opened =
      settle memory_pre_keys memory_kyber_pre_keys m.info.pq_id opened.consumed >> pure opened.plain

  commit_then_settle :
      (opened : OpenedFirst)
      → (commit_in p opened.record_bytes a now_secs >> after_commit opened) s ≡ first_result opened
  unfolding store_if_trusted
  commit_then_settle opened =
      let run = commit-eq p a now_secs s opened.record_bytes in
      let k : Unit {0} → Exec MemoryStore Bytes = λ _. after_commit opened in
      elim (Result-cases (session_info p opened.record_bytes now_secs)) [
        | inr (f, e) ↦
            >>=-err (commit_in p opened.record_bytes a now_secs) k s f s (run ∙ rw e refl)
            ∙ rw (e, first_result) refl
        | inl (info, e) ↦ elim (Bool-cases (trusts (known a s) info.remote_identity)) [
          | inr distrusted ↦
              >>=-err (commit_in p opened.record_bytes a now_secs) k s (untrusted a) s
                (run ∙ rw e (rw distrusted refl))
              ∙ rw (e, first_result) (rw distrusted refl)
          | inl trusted ↦
              >>=-ok (commit_in p opened.record_bytes a now_secs) k s tt
                (established a info.remote_identity opened.record_bytes s)
                (run ∙ rw e (rw trusted refl))
              ∙ >>=-ok (settle memory_pre_keys memory_kyber_pre_keys m.info.pq_id opened.consumed)
                  (λ _. pure opened.plain) _ tt _ (settle-eq m.info.pq_id opened.consumed _)
              ∙ rw (e, first_result) (rw trusted refl)
        ]
      ]

  pub open_with_records-eq :
      (signed one_time pq : Bytes)
      → with_records signed one_time pq ≡ elim (core_answer signed one_time pq) [
        | err e ↦ (err e, s)
        | ok opened ↦ first_result opened
      ]
  unfolding open_with_records
  open_with_records-eq signed one_time pq = elim (Result-cases (core_answer signed one_time pq)) [
    | inr (f, e) ↦ rw e refl
    | inl (opened, e) ↦ rw e (commit_then_settle opened)
  ]

  -- Trust in the named identity comes first, then the named records in their order.
  pub decrypt_pre_key-eq : decrypt_pre_key p m a now_secs local s ≡ (
      if trusts (known a s) m.info.identity
      then (elim (signed_of s m.info.signed_id) [
        | err e ↦ (err e, s)
        | ok signed ↦ elim (one_time_of s m.info.one_time_id) [
          | err e ↦ (err e, s)
          | ok one_time ↦ elim (pq_of s m.info.pq_id) [
            | err e ↦ (err e, s)
            | ok pq ↦ with_records signed one_time pq
          ]
        ]
      ])
      else (err (untrusted a), s))
  unfolding session_decrypt_pre_key signed_of one_time_of pq_of get_session is_trusted_identity
      get_identity_key get_local_registration_id get_pre_key get_signed_pre_key get_kyber_pre_key
  decrypt_pre_key-eq = ground arith

  -- The core opened the message with the records that it names.
  abbrev pub CoreOpened : OpenedFirst → Type 0
  CoreOpened opened =
      (signed : Bytes) × (one_time : Bytes) × (pq : Bytes) × (signed_of s m.info.signed_id
        ≡ ok signed)
      × (one_time_of s m.info.one_time_id ≡ ok one_time)
      × (pq_of s m.info.pq_id ≡ ok pq)
      × (core_answer signed one_time pq ≡ ok opened)

  -- What a first message leaves behind when it is opened.
  abbrev pub FirstDecrypted : Bytes → MemoryStore → Type 0
  FirstDecrypted plain s' =
      (opened : OpenedFirst) × (info : SessionInfo) × CoreOpened opened
      × (session_info p opened.record_bytes now_secs ≡ ok info)
      × (trusts (known a s) m.info.identity ≡ true)
      × (trusts (known a s) info.remote_identity ≡ true)
      × (plain ≡ opened.plain)
      × (s'
          ≡ settled m.info.pq_id opened.consumed
              (established a info.remote_identity opened.record_bytes s))

  first_result_outcome :
      (opened : OpenedFirst)
      → CoreOpened opened
      → trusts (known a s) m.info.identity ≡ true
      → Outcome s FirstDecrypted (first_result opened)
  first_result_outcome opened by_core t =
      elim (Result-cases (session_info p opened.record_bytes now_secs)) [
        | inr (f, e) ↦ rw (e, Outcome, first_result) refl
        | inl (info, e) ↦
            rw (e, Outcome, first_result)
              (elim (Bool-cases (trusts (known a s) info.remote_identity)) [
                | inr distrusted ↦ rw distrusted refl
                | inl trusted ↦ rw trusted (opened, info, by_core, e, t, trusted, refl, refl)
              ])
      ]

  with_records_outcome :
      (signed one_time pq : Bytes)
      → signed_of s m.info.signed_id ≡ ok signed
      → one_time_of s m.info.one_time_id ≡ ok one_time
      → pq_of s m.info.pq_id ≡ ok pq
      → trusts (known a s) m.info.identity ≡ true
      → Outcome s FirstDecrypted (with_records signed one_time pq)
  with_records_outcome signed one_time pq h h' h2 t =
      rw open_with_records-eq (elim (Result-cases (core_answer signed one_time pq)) [
        | inr (f, e) ↦ rw e refl
        | inl (opened, e) ↦
            rw e (first_result_outcome opened (signed, one_time, pq, h, h', h2, e) t)
      ])

  -- Decryption of a first message throws and changes nothing, prekeys included, or the core opened
  -- it with the records that it names, both the identity in the message and the one in the new session were trusted for the
  -- address, the new session and its identity are recorded, and the prekeys consumed are settled.
  pub decrypt_pre_key_outcome : Outcome s FirstDecrypted (decrypt_pre_key p m a now_secs local s)
  decrypt_pre_key_outcome =
      rw decrypt_pre_key-eq (elim (Bool-cases (trusts (known a s) m.info.identity)) [
        | inr distrusted ↦ rw distrusted refl
        | inl trusted ↦ rw trusted (elim (Result-cases (signed_of s m.info.signed_id)) [
          | inr (f, e) ↦ rw e refl
          | inl (signed, e) ↦ rw e (elim (Result-cases (one_time_of s m.info.one_time_id)) [
            | inr (f, e') ↦ rw e' refl
            | inl (one_time, e') ↦ rw e' (elim (Result-cases (pq_of s m.info.pq_id)) [
              | inr (f, e2) ↦ rw e2 refl
              | inl (pq, e2) ↦ rw e2 (with_records_outcome signed one_time pq e e' e2 trusted)
            ])
          ])
        ])
      ])
