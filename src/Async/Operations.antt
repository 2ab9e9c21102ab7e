-- ===== src/Async/Operations.antt =====
-- A call of an operation of sdk/ts/src/api.ts, whole and cut at its awaits, over the stores of a host.
use gossveil.Base.{ℕ, Bytes, Text, Option, [], ◌≡◌, refl, arith}
use gossveil.Exec.{Exec}
use gossveil.Async.{Task, finish, ◌>>=◌, IsAlone, >>=-IsAlone, unless-IsAlone}
use mathlib.Core.Option
use gossveil.Bridge.Sessions.{Consumed}
use gossveil.Bridge.Call.{Platform}
use gossveil.Address.{ProtocolAddress, untrusted}
use gossveil.Records.{PreKeyBundle}
use gossveil.Messages.{
  CiphertextMessage, WhisperMessage, PreKeyMessage, SenderKeyDistributionMessage,
}
use gossveil.Store.{
  SessionStore, IdentityKeyStore, PreKeyStore, SignedPreKeyStore, KyberPreKeyStore, SenderKeyStore,
}
use gossveil.Session.{
  process_bundle, session_encrypt, commit, session_decrypt, one_time_bytes, pq_bytes, settle,
  open_with_records, session_decrypt_pre_key, remove_consumed, mark_consumed,
}
use gossveil.Session.Awaits.{
  process_bundle_task, session_encrypt_task, commit_task, session_decrypt_task, one_time_bytes_task,
  open_with_records_task, pq_bytes_task, remove_consumed_task, mark_consumed_task, settle_task,
  session_decrypt_pre_key_task,
}
use gossveil.Group.{create_distribution, process_distribution, group_encrypt, group_decrypt}
use gossveil.Group.Awaits.{
  create_distribution_task, process_distribution_task, group_encrypt_task, group_decrypt_task,
}

-- The stores that a host passes to the operations.
pub record Host (S : Type 0) : Type 0 where
  pub sessions : SessionStore S
  pub identities : IdentityKeyStore S
  pub pre_keys : PreKeyStore S
  pub signed_pre_keys : SignedPreKeyStore S
  pub kyber_pre_keys : KyberPreKeyStore S
  pub sender_keys : SenderKeyStore S

pub data Operation : Type 0 where
  starts : PreKeyBundle → ProtocolAddress → ℕ → Operation
  encrypts : Bytes → ProtocolAddress → ℕ → Option ProtocolAddress → Operation
  decrypts : WhisperMessage → ProtocolAddress → ℕ → Option ProtocolAddress → Operation
  decrypts_first : PreKeyMessage → ProtocolAddress → ℕ → Option ProtocolAddress → Operation
  announces : ProtocolAddress → Text → Operation
  admits : ProtocolAddress → SenderKeyDistributionMessage → Operation
  notes : ProtocolAddress → Text → Bytes → Operation
  reads_note : ProtocolAddress → Bytes → Operation

abbrev pub Answer : Operation → Type 0
Answer (starts b a now) = Unit {0}
Answer (encrypts m a now local) = CiphertextMessage
Answer (decrypts m a now local) = Bytes
Answer (decrypts_first m a now local) = Bytes
Answer (announces a id) = SenderKeyDistributionMessage
Answer (admits a m) = Unit {0}
Answer (notes a id m) = CiphertextMessage
Answer (reads_note a m) = Bytes

module _ {S : Type 0} (h : Host S) (p : Platform) where
  unfoldable pub whole : (o : Operation) → Exec S (Answer o)
  whole (starts b a now) = process_bundle p h.sessions h.identities b a now
  whole (encrypts m a now local) = session_encrypt p h.sessions h.identities m a now local
  whole (decrypts m a now local) = session_decrypt p h.sessions h.identities m a now local
  whole (decrypts_first m a now local) =
      session_decrypt_pre_key p h.sessions h.identities h.pre_keys h.signed_pre_keys
        h.kyber_pre_keys m a now local
  whole (announces a id) = create_distribution p h.sender_keys a id
  whole (admits a m) = process_distribution p h.sender_keys a m
  whole (notes a id m) = group_encrypt p h.sender_keys a id m
  whole (reads_note a m) = group_decrypt p h.sender_keys a m

  unfoldable pub task : (o : Operation) → Task S (Answer o)
  task (starts b a now) = process_bundle_task p h.sessions h.identities b a now
  task (encrypts m a now local) = session_encrypt_task p h.sessions h.identities m a now local
  task (decrypts m a now local) = session_decrypt_task p h.sessions h.identities m a now local
  task (decrypts_first m a now local) =
      session_decrypt_pre_key_task p h.sessions h.identities h.pre_keys h.signed_pre_keys
        h.kyber_pre_keys m a now local
  task (announces a id) = create_distribution_task p h.sender_keys a id
  task (admits a m) = process_distribution_task p h.sender_keys a m
  task (notes a id m) = group_encrypt_task p h.sender_keys a id m
  task (reads_note a m) = group_decrypt_task p h.sender_keys a m

  commit-IsAlone :
      (session : Bytes) (a : ProtocolAddress) (now : ℕ)
      → IsAlone
          (commit_task p h.sessions h.identities session a now)
          (commit p h.sessions h.identities session a now)
  unfolding commit_task commit finish ◌>>=◌
  commit-IsAlone session a now s = ground arith

  settle-IsAlone :
      (pq_id : Option ℕ) (consumed : Consumed)
      → IsAlone
          (settle_task h.pre_keys h.kyber_pre_keys pq_id consumed)
          (settle h.pre_keys h.kyber_pre_keys pq_id consumed)
  unfolding settle_task settle remove_consumed remove_consumed_task mark_consumed mark_consumed_task
      finish ◌>>=◌
  settle-IsAlone pq_id consumed s = ground arith

  module _ (m : PreKeyMessage) (a : ProtocolAddress) (now : ℕ)
      (local : Option ProtocolAddress) where
    opened-IsAlone :
        (identity : Bytes) (id : ℕ) (existing signed one_time pq : Bytes)
        → IsAlone
            (open_with_records_task p h.sessions h.identities h.pre_keys h.signed_pre_keys
              h.kyber_pre_keys m a now local identity id existing signed one_time pq)
            (open_with_records p h.sessions h.identities h.pre_keys h.signed_pre_keys
              h.kyber_pre_keys m a now local identity id existing signed one_time pq)
    unfolding open_with_records_task open_with_records finish
    opened-IsAlone identity id existing signed one_time pq =
        >>=-IsAlone _ _ _ _ (λ s. refl)
          λ opened.
            >>=-IsAlone _ _ _ _ (commit-IsAlone opened.record_bytes a now)
              λ _. >>=-IsAlone _ _ _ _ (settle-IsAlone m.info.pq_id opened.consumed) λ _ s. refl

    one_time-IsAlone :
        (id : Option ℕ)
        → IsAlone
            (one_time_bytes_task h.pre_keys h.kyber_pre_keys id)
            (one_time_bytes h.pre_keys h.kyber_pre_keys id)
    unfolding one_time_bytes one_time_bytes_task finish ◌>>=◌
    one_time-IsAlone id s = ground arith

    pq-IsAlone :
        (id : Option ℕ)
        → IsAlone
            (pq_bytes_task h.pre_keys h.kyber_pre_keys id)
            (pq_bytes h.pre_keys h.kyber_pre_keys id)
    unfolding pq_bytes pq_bytes_task finish ◌>>=◌
    pq-IsAlone id s = ground arith

    decrypt_first-IsAlone :
        IsAlone (task (decrypts_first m a now local)) (whole (decrypts_first m a now local))
    unfolding task whole session_decrypt_pre_key session_decrypt_pre_key_task finish
    decrypt_first-IsAlone =
        >>=-IsAlone _ _ _ _ (λ s. refl)
          λ trusted. >>=-IsAlone _ _ _ _ (unless-IsAlone trusted (untrusted a)) λ _.
            >>=-IsAlone _ _ _ _ (λ s. refl)
              λ identity.
                >>=-IsAlone _ _ _ _ (λ s. refl)
                  λ id.
                    >>=-IsAlone _ _ _ _ (λ s. refl)
                      λ existing.
                        >>=-IsAlone _ _ _ _ (λ s. refl)
                          λ signed.
                            >>=-IsAlone _ _ _ _ (one_time-IsAlone m.info.one_time_id) λ one_time.
                              >>=-IsAlone _ _ _ _ (pq-IsAlone m.info.pq_id) λ pq.
                                opened-IsAlone identity id (Option.get_or existing []) signed.bytes
                                  one_time pq

  -- A call that no other overlaps, over any stores, is the operation in one piece: the same result
  -- or error, and the same end of the stores.
  pub finish-task : (o : Operation) (s : S) → finish (task o) s ≡ whole o s
  unfolding task whole process_bundle process_bundle_task session_encrypt session_encrypt_task
      commit commit_task session_decrypt session_decrypt_task create_distribution
      create_distribution_task process_distribution process_distribution_task group_encrypt
      group_encrypt_task group_decrypt group_decrypt_task finish ◌>>=◌
  finish-task (starts b a now) s = ground arith
  finish-task (encrypts m a now local) s = ground arith
  finish-task (decrypts m a now local) s = ground arith
  finish-task (decrypts_first m a now local) s = decrypt_first-IsAlone m a now local s
  finish-task (announces a id) s = ground arith
  finish-task (admits a m) s = ground arith
  finish-task (notes a id m) s = ground arith
  finish-task (reads_note a m) s = ground arith
