-- ===== src/Async/InMemory.antt =====
-- Overlapping calls over `InMemoryProtocolStore`: what a statement about the store has to withstand.
pub mod Invariants
pub mod Alone
pub mod Races
pub mod Replay
use gossveil.Base.{
  ℕ, ◌≡◌, refl, subst, List, [], ◌∷◌, All, Bool, true, Bytes, Text, Option, none, some,
  if◌then◌else◌, Bool-cases, inl, inr,
}
use mathlib.Core.Option
use gossveil.Fault.{Result, ok, err, GossveilError}
use gossveil.Exec.{Exec}
use gossveil.Dict.{Dict, lookup, insert, erase, add, text_key_eq, nat_eq}
use gossveil.Bridge.Call.{Platform}
use gossveil.Bridge.Sessions.{Consumed}
use gossveil.Address.{ProtocolAddress, sender_key_name, untrusted}
use gossveil.Address.{to_string}
use gossveil.Keys.{PublicKey}
use gossveil.Messages.{PreKeyMessage, WhisperMessage}
use gossveil.Records.{SessionRecord, SenderKeyRecord, PreKeyBundle}
use gossveil.Store.{Direction}
use gossveil.Store.Memory.{
  MemoryStore, memory_sessions, memory_identities, memory_pre_keys, memory_signed_pre_keys,
  memory_kyber_pre_keys, memory_sender_keys, trusts, save_session, get_session, save_identity,
  is_trusted_identity, get_identity_key, get_local_registration_id, get_pre_key, get_signed_pre_key,
  get_kyber_pre_key, remove_pre_key, mark_kyber_pre_key_used, get_sender_key, save_sender_key,
}
use gossveil.Session.InMemory.{known}
use gossveil.Session.Awaits.{
  process_bundle_task, session_encrypt_task, commit_task, session_decrypt_task, one_time_bytes_task,
  open_with_records_task, pq_bytes_task, remove_consumed_task, mark_consumed_task, settle_task,
  session_decrypt_pre_key_task,
}
use gossveil.Group.Awaits.{
  create_distribution_task, process_distribution_task, group_encrypt_task, group_decrypt_task,
}
use gossveil.Async.{Task, await, unless, ◌>>=◌, ◌>>◌}
use gossveil.Async.Operations.{
  Host, Operation, Answer, task, starts, encrypts, decrypts, decrypts_first, announces, admits,
  notes, reads_note,
}
use gossveil.Async.Run.{Running, begin, run_calls}
use gossveil.Async.Run.Keeps.{
  Keeps, run_calls-Keeps, ended-Keeps, await-Keeps, throw-Keeps, part-Keeps, unless-Keeps,
  last-Keeps, end-Keeps, if-Keeps,
}

-- Every store of the host is the one object.
abbrev pub memory_host : (Text → Text) → Host MemoryStore
memory_host to_lower = record {
  sessions = memory_sessions;
  identities = memory_identities;
  pre_keys = memory_pre_keys;
  signed_pre_keys = memory_signed_pre_keys;
  kyber_pre_keys = memory_kyber_pre_keys;
  sender_keys = memory_sender_keys to_lower;
}

-- What the operations for an address do to a state of which `P` holds is a change as `E` says:
-- nothing, a session saved, an identity that is trusted in some state of which `P` holds, prekeys
-- settled, or any sender key saved.
pub record IsClosed (P : MemoryStore → Type 0) (E : MemoryStore → MemoryStore → Type 0)
    (a : ProtocolAddress) : Type 0 where
  pub same : (s : MemoryStore) → P s → E s s
  pub session :
      (r : SessionRecord) (s : MemoryStore)
      → P s
      → E s (record s { sessions = insert (to_string a) r s.sessions })
  pub identity :
      (key : PublicKey) (asked s : MemoryStore)
      → P asked
      → trusts (known a asked) key ≡ true
      → P s
      → E s (record s { identities = insert (to_string a) key s.identities })
  pub removal : (id : ℕ) (s : MemoryStore) → P s → E s (record s { pre_keys = erase id s.pre_keys })
  pub mark : (id : ℕ) (s : MemoryStore) → P s → E s (record s { kyber_used = add id s.kyber_used })
  pub sender_key :
      (name : Text) (r : SenderKeyRecord) (s : MemoryStore)
      → P s
      → E s (record s { sender_keys = insert name r s.sender_keys })

module _ (P : MemoryStore → Type 0) (E : MemoryStore → MemoryStore → Type 0) (p : Platform)
    (a : ProtocolAddress) (closed : IsClosed P E a) where
  trusted-Keeps :
      {B : Type 0} (f : Unit {0} → Task MemoryStore B) (key : PublicKey) (d : Direction)
      → ((asked : MemoryStore) → P asked → trusts (known a asked) key ≡ true → Keeps P E (f tt))
      → Keeps P E
          (await (is_trusted_identity a key d) >>= λ trusted. unless trusted (untrusted a) >>= f)
  unfolding is_trusted_identity
  trusted-Keeps f key d h = await-Keeps P E _ _ closed.same λ asked trusted before e.
      unless-Keeps P E f trusted (untrusted a) λ yes. h asked before (cc (e, yes))

  commit-Keeps :
      (session : Bytes) (now : ℕ)
      → Keeps P E (commit_task p memory_sessions memory_identities session a now)
  unfolding commit_task save_identity save_session
  commit-Keeps session now = ended-Keeps P E _ _ λ info _.
      trusted-Keeps _ info.remote_identity _ λ asked before trusted.
        await-Keeps P E _ _ (λ s. closed.identity info.remote_identity asked s before trusted)
          λ s _ _ _. last-Keeps P E _ (λ s. closed.session session s)

  removed-Keeps :
      (id : Option ℕ) → Keeps P E (remove_consumed_task memory_pre_keys memory_kyber_pre_keys id)
  unfolding remove_consumed_task remove_pre_key
  removed-Keeps none = end-Keeps P E (ok tt)
  removed-Keeps (some id) = last-Keeps P E _ (λ s. closed.removal id s)

  marked-Keeps :
      (id : Option ℕ) (consumed : Consumed)
      → Keeps P E (mark_consumed_task memory_pre_keys memory_kyber_pre_keys id consumed)
  unfolding mark_consumed_task mark_kyber_pre_key_used
  marked-Keeps none consumed = end-Keeps P E (ok tt)
  marked-Keeps (some id) consumed = last-Keeps P E _ (λ s. closed.mark id s)

  settle-Keeps :
      (pq_id : Option ℕ) (consumed : Consumed)
      → Keeps P E (settle_task memory_pre_keys memory_kyber_pre_keys pq_id consumed)
  unfolding settle_task
  settle-Keeps pq_id consumed =
      if-Keeps P E consumed.used _ (ok tt)
        (part-Keeps P E _ _ (removed-Keeps consumed.one_time_id) λ _. marked-Keeps pq_id consumed)

  or_throw_same :
      {A : Type 0} (o : Option A) (e : GossveilError) (s : MemoryStore)
      → P s
      → E s (gossveil.Exec.or_throw o e s).1
  or_throw_same none e s before = closed.same s before
  or_throw_same (some r) e s before = closed.same s before

  -- A method of the in-memory store that finds something or throws.
  pub found-Keeps :
      {A B : Type 0} (f : A → Task MemoryStore B) (d : MemoryStore → Option A) (e : GossveilError)
      → ((r : A) → Keeps P E (f r))
      → Keeps P E (await (λ s. gossveil.Exec.or_throw (d s) e s) >>= f)
  found-Keeps f d e rest =
      await-Keeps P E _ _ (λ s before. or_throw_same (d s) e s before) λ s r _ _. rest r

  -- A method that only reads.
  pub read-Keeps :
      {A B : Type 0} (f : A → Task MemoryStore B) (d : MemoryStore → A)
      → ((r : A) → Keeps P E (f r))
      → Keeps P E (await (gossveil.Exec.gets d) >>= f)
  read-Keeps f d rest = await-Keeps P E _ _ closed.same λ s r _ _. rest r

  one_time-Keeps :
      (id : Option ℕ) → Keeps P E (one_time_bytes_task memory_pre_keys memory_kyber_pre_keys id)
  unfolding one_time_bytes_task get_pre_key
  one_time-Keeps none = end-Keeps P E (ok [])
  one_time-Keeps (some id) =
      found-Keeps _ (λ s. lookup id s.pre_keys) _ λ r. end-Keeps P E (ok r.bytes)

  pq-Keeps : (id : Option ℕ) → Keeps P E (pq_bytes_task memory_pre_keys memory_kyber_pre_keys id)
  unfolding pq_bytes_task get_kyber_pre_key
  pq-Keeps none = end-Keeps P E (ok [])
  pq-Keeps (some id) =
      found-Keeps _ (λ s. lookup id s.kyber_pre_keys) _ λ r. end-Keeps P E (ok r.bytes)

  pub start-Keeps :
      (b : PreKeyBundle) (now : ℕ)
      → Keeps P E (process_bundle_task p memory_sessions memory_identities b a now)
  unfolding process_bundle_task get_identity_key get_local_registration_id get_session save_identity
      save_session
  start-Keeps b now = trusted-Keeps _ b.identity_key _ λ asked before trusted.
      read-Keeps _ _ λ identity. read-Keeps _ _ λ id. read-Keeps _ _ λ existing.
        ended-Keeps P E _ _ λ session _.
          await-Keeps P E _ _ (λ s. closed.identity b.identity_key asked s before trusted)
            λ s _ _ _. last-Keeps P E _ (λ s. closed.session session s)

  pub encrypt-Keeps :
      (m : Bytes) (now : ℕ) (local : Option ProtocolAddress)
      → Keeps P E (session_encrypt_task p memory_sessions memory_identities m a now local)
  unfolding session_encrypt_task get_session save_session
  encrypt-Keeps m now local = read-Keeps _ _ λ found. throw-Keeps P E _ found _ λ session.
      ended-Keeps P E _ _ λ sealed _. ended-Keeps P E _ _ λ info _.
        trusted-Keeps _ info.remote_identity _ λ _ _ _.
          await-Keeps P E _ _ (λ s. closed.session sealed.record_bytes s) λ s _ _ _. end-Keeps P E _

  pub decrypt-Keeps :
      (m : WhisperMessage) (now : ℕ) (local : Option ProtocolAddress)
      → Keeps P E (session_decrypt_task p memory_sessions memory_identities m a now local)
  unfolding session_decrypt_task get_session
  decrypt-Keeps m now local = read-Keeps _ _ λ found. throw-Keeps P E _ found _ λ session.
      ended-Keeps P E _ _
        λ opened _. part-Keeps P E _ _ (commit-Keeps opened.record_bytes now) λ _. end-Keeps P E _

  pub decrypt_first-Keeps :
      (m : PreKeyMessage) (now : ℕ) (local : Option ProtocolAddress)
      → Keeps P E (
          session_decrypt_pre_key_task p memory_sessions memory_identities memory_pre_keys
            memory_signed_pre_keys memory_kyber_pre_keys m a now local)
  unfolding session_decrypt_pre_key_task open_with_records_task get_identity_key
      get_local_registration_id get_session get_signed_pre_key
  decrypt_first-Keeps m now local = trusted-Keeps _ m.info.identity _ λ _ _ _.
      read-Keeps _ _ λ identity. read-Keeps _ _ λ id. read-Keeps _ _ λ existing.
        found-Keeps _ (λ s. lookup m.info.signed_id s.signed_pre_keys) _
          λ signed. part-Keeps P E _ _ (one_time-Keeps m.info.one_time_id) λ one_time.
            part-Keeps P E _ _ (pq-Keeps m.info.pq_id) λ pq. ended-Keeps P E _ _ λ opened _.
              part-Keeps P E _ _ (commit-Keeps opened.record_bytes now) λ _.
                part-Keeps P E _ _ (settle-Keeps m.info.pq_id opened.consumed) λ _. end-Keeps P E _
