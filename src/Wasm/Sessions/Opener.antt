-- ===== src/Wasm/Sessions/Opener.antt =====
-- The branch of `decryptMessage` in sdk/ts/src/wasm-api.ts for a first message, against
-- `sessionDecryptPreKey` of sdk/ts/src/api.ts.
use gossveil.Base.{
  ℕ, ◌≡◌, refl, sym, ap, ◌∙◌, Bytes, Option, some, if◌then◌else◌, arith, Bool-cases, inl, inr, ◌<◌,
  ◌^◌,
}
use gossveil.Fault.{Result, ok, err, Result-cases}
use gossveil.Exec.{Exec, pure, ◌>>◌, >>=-ok, >>=-err}
use gossveil.Dict.{text_key_eq, nat_eq}
use gossveil.Bridge.Call.{Platform}
use gossveil.Bridge.Sessions.{
  OpenedFirst, OpenerInfo, session_info, session_open_first, opener_parse,
}
use gossveil.Address.{ProtocolAddress, untrusted}
use gossveil.Messages.{PreKeyMessage}
use gossveil.Keys.{equals}
use gossveil.Store.Memory.{trusts}
use gossveil.Session
use gossveil.Session.InMemory.{decrypt_pre_key}
use gossveil.Session.InMemory.PreKey.{
  first_result, with_records, decrypt_pre_key-eq, open_with_records-eq,
}
use gossveil.Wasm.Stores.{
  Stores, trusted_key, is_trusted, save, load_session, store_session, get_record,
  export_signed_pre_key,
}
use gossveil.Wasm.Sessions.{
  binding, commit, consume, open_with_records, decrypt_opener, decrypt_message,
}
use gossveil.Wasm.Sessions.View.{view, known_key, stored_record, established_in, seen}
use gossveil.Wasm.Sessions.Prekeys.{
  FitsId, signed_in, one_time_in, pq_in, settled_in, signed_in-eq, one_time_in-eq, pq_in-eq,
  settled_in-eq, fit, consume-eq, one_time_record-eq, pq_record-eq,
}

module _ (p : Platform) (a : ProtocolAddress) (now_secs : ℕ) (w : Stores)
    (local : ProtocolAddress) where
  abbrev first_result_in : Option ℕ → OpenedFirst → Result Bytes × Stores
  first_result_in pq_id opened = elim (session_info p opened.record_bytes now_secs) [
    | err e ↦ (err e, w)
    | ok info ↦
        if trusts (known_key a w) info.remote_identity
        then (
          ok opened.plain,
          settled_in pq_id opened.consumed
              (established_in a w info.remote_identity opened.record_bytes),
        )
        else (err (untrusted a), w)
  ]

  abbrev answer_in : Bytes → Bytes → Bytes → Bytes → Result OpenedFirst
  answer_in ciphertext signed one_time pq =
      session_open_first p w.identities.identity.private_key w.identities.registration_id
        (stored_record a w) ciphertext signed one_time pq (Session.binding (some a) (some local))

  abbrev pub ConsumedFits : Bytes → Type 0
  ConsumedFits ciphertext =
      (signed one_time pq : Bytes) (opened : OpenedFirst)
      → answer_in ciphertext signed one_time pq ≡ ok opened
      → FitsId opened.consumed.one_time_id

  commit_in-eq :
      (session : Bytes)
      → commit p session a now_secs w ≡ (elim (session_info p session now_secs) [
        | err e ↦ (err e, w)
        | ok info ↦
            if trusts (known_key a w) info.remote_identity
            then (ok tt, established_in a w info.remote_identity session)
            else (err (untrusted a), w)
      ])
  unfolding commit is_trusted trusted_key trusts equals store_session save
  commit_in-eq session = ground arith

  commit_then_consume :
      (opened : OpenedFirst) (pq_id : Option ℕ)
      → FitsId pq_id
      → FitsId opened.consumed.one_time_id
      → (commit p opened.record_bytes a now_secs
            >> (consume pq_id opened.consumed >> pure opened.plain))
          w
        ≡ first_result_in pq_id opened
  commit_then_consume opened pq_id fits fits' =
      let run = commit_in-eq opened.record_bytes in
      let k : Unit {0} → Exec Stores Bytes =
        λ _. consume pq_id opened.consumed >> pure opened.plain in
      elim (Result-cases (session_info p opened.record_bytes now_secs)) [
        | inr (f, e) ↦
            >>=-err (commit p opened.record_bytes a now_secs) k w f w (run ∙ rw e refl)
            ∙ rw (e, first_result_in) refl
        | inl (info, e) ↦ elim (Bool-cases (trusts (known_key a w) info.remote_identity)) [
          | inr distrusted ↦
              >>=-err (commit p opened.record_bytes a now_secs) k w (untrusted a) w
                (run ∙ rw e (rw distrusted refl))
              ∙ rw (e, first_result_in) (rw distrusted refl)
          | inl trusted ↦
              >>=-ok (commit p opened.record_bytes a now_secs) k w tt
                (established_in a w info.remote_identity opened.record_bytes)
                (run ∙ rw e (rw trusted refl))
              ∙ >>=-ok (consume pq_id opened.consumed) (λ _. pure opened.plain) _ tt _
                  (consume-eq pq_id opened.consumed _ fits fits')
              ∙ rw (e, first_result_in) (rw trusted refl)
        ]
      ]

  records_then_open :
      (ciphertext signed one_time pq : Bytes) (info : OpenerInfo)
      → FitsId info.pq_id
      → ConsumedFits ciphertext
      → open_with_records p info
          (stored_record a w)
          ciphertext
          a
          local
          now_secs
          signed
          one_time
          pq
          w
        ≡ (elim (answer_in ciphertext signed one_time pq) [
          | err e ↦ (err e, w)
          | ok opened ↦ first_result_in info.pq_id opened
        ])
  unfolding open_with_records binding Session.binding
  records_then_open ciphertext signed one_time pq info fits consumed =
      elim (Result-cases (answer_in ciphertext signed one_time pq)) [
        | inr (f, e) ↦ rw e refl
        | inl (opened, e) ↦
            rw e (commit_then_consume opened info.pq_id fits (consumed signed one_time pq opened e))
      ]

  decrypt_opener-eq :
      (ciphertext inner : Bytes) (info : OpenerInfo)
      → opener_parse p ciphertext ≡ ok (info, inner)
      → info.signed_id < 2 ^ 32
      → FitsId info.one_time_id
      → FitsId info.pq_id
      → decrypt_opener p (stored_record a w) ciphertext a local now_secs w ≡ (
          if trusts (known_key a w) info.identity
          then (elim (signed_in w info.signed_id) [
            | err e ↦ (err e, w)
            | ok signed ↦ elim (one_time_in w info.one_time_id) [
              | err e ↦ (err e, w)
              | ok one_time ↦ elim (pq_in w info.pq_id) [
                | err e ↦ (err e, w)
                | ok pq ↦
                    open_with_records p info
                      (stored_record a w)
                      ciphertext
                      a
                      local
                      now_secs
                      signed
                      one_time
                      pq
                      w
              ]
            ]
          ])
          else (err (untrusted a), w))
  unfolding decrypt_opener is_trusted trusted_key trusts equals export_signed_pre_key get_record
      signed_in
  decrypt_opener-eq ciphertext inner info parsed fits fits' fits2 = ground (
    arith,
    parsed,
    fit info.signed_id fits,
    one_time_record-eq info.one_time_id w fits',
    pq_record-eq info.pq_id w fits2,
  )

module _ (p : Platform) (a : ProtocolAddress) (now_secs : ℕ) (w : Stores) (local : ProtocolAddress)
    (m : PreKeyMessage) where
  first_results_agree :
      (opened : OpenedFirst)
      → seen (λ plain. plain) (first_result_in p a now_secs w local m.info.pq_id opened)
        ≡ first_result p a now_secs (view w) m (some local) opened
  first_results_agree opened = elim (Result-cases (session_info p opened.record_bytes now_secs)) [
    | inr (f, e) ↦ rw (e, seen, first_result_in, first_result) refl
    | inl (info, e) ↦
        rw (e, seen, first_result_in, first_result)
          (elim (Bool-cases (trusts (known_key a w) info.remote_identity)) [
            | inr distrusted ↦ rw distrusted refl
            | inl trusted ↦ rw trusted (
                ap (λ s. (ok opened.plain, s))
                  (settled_in-eq m.info.pq_id opened.consumed
                    (established_in a w info.remote_identity opened.record_bytes)))
          ])
  ]

  records_agree :
      (signed one_time pq : Bytes)
      → FitsId m.info.pq_id
      → ConsumedFits p a now_secs w local m.bytes
      → seen
          (λ plain. plain)
          (open_with_records p m.info
            (stored_record a w)
            m.bytes
            a
            local
            now_secs
            signed
            one_time
            pq
            w)
        ≡ with_records p a now_secs (view w) m (some local) signed one_time pq
  records_agree signed one_time pq fits consumed =
      rw (records_then_open p a now_secs w local m.bytes signed one_time pq m.info fits consumed) (
        rw (open_with_records-eq p a now_secs (view w) m (some local) signed one_time pq)
          (elim (Result-cases (answer_in p a now_secs w local m.bytes signed one_time pq)) [
            | inr (f, e) ↦ rw e refl
            | inl (opened, e) ↦ rw e (first_results_agree opened)
          ]))

  -- For a first message whose key ids fit in 32 bits, as do those that the core consumes for it,
  -- `decryptMessage` returns what `sessionDecryptPreKey` returns, an error included, and leaves stores
  -- whose view is the store that it leaves.
  pub decrypt_opener-refines :
      opener_parse p m.bytes ≡ ok (m.info, m.inner)
      → m.info.signed_id < 2 ^ 32
      → FitsId m.info.one_time_id
      → FitsId m.info.pq_id
      → ConsumedFits p a now_secs w local m.bytes
      → seen (λ plain. plain) (decrypt_message p m.bytes 3 a local now_secs w)
        ≡ decrypt_pre_key p m a now_secs (some local) (view w)
  unfolding decrypt_message load_session
  decrypt_opener-refines parsed fits fits' fits2 consumed =
      rw (decrypt_opener-eq p a now_secs w local m.bytes m.inner m.info parsed fits fits' fits2) (
        rw (decrypt_pre_key-eq p a now_secs (view w) m (some local))
          (elim (Bool-cases (trusts (known_key a w) m.info.identity)) [
            | inr distrusted ↦ rw distrusted refl
            | inl trusted ↦ rw trusted (
                rw (sym (signed_in-eq w m.info.signed_id))
                  (elim (Result-cases (signed_in w m.info.signed_id)) [
                    | inr (f, e) ↦ rw e refl
                    | inl (signed, e) ↦ rw e (
                        rw (sym (one_time_in-eq w m.info.one_time_id))
                          (elim (Result-cases (one_time_in w m.info.one_time_id)) [
                            | inr (f, e') ↦ rw e' refl
                            | inl (one_time, e') ↦ rw e' (
                                rw (sym (pq_in-eq w m.info.pq_id))
                                  (elim (Result-cases (pq_in w m.info.pq_id)) [
                                    | inr (f, e2) ↦ rw e2 refl
                                    | inl (pq, e2) ↦
                                        rw e2 (records_agree signed one_time pq fits2 consumed)
                                  ]))
                          ]))
                  ]))
          ]))
