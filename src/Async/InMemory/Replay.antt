-- ===== src/Async/InMemory/Replay.antt =====
-- One first message that is delivered twice: the two decryptions one after the other, and overlapping.
use gossveil.Base.{
  ℕ, ◌≡◌, refl, sym, ◌∙◌, ap, List, [], ◌∷◌, ◌++◌, replicate, true, Bytes, Text, Option, none, some,
}
use mathlib.Core.Option
use gossveil.Fault.{Result, ok, err}
use gossveil.Dict.{lookup, insert, erase, add, lookup-erase, beq_self, text_key_eq, nat_eq}
use gossveil.Bridge.Call.{Platform}
use gossveil.Bridge.Sessions.{OpenedFirst, SessionInfo, session_open_first, session_info}
use gossveil.Address.{ProtocolAddress, to_string}
use gossveil.BytesEqual.{bytes_equal_iff}
use gossveil.Keys.{PublicKey, equals}
use gossveil.Messages.{PreKeyMessage}
use gossveil.Records.{PreKeyRecord, SignedPreKeyRecord, KyberPreKeyRecord}
use gossveil.Store.Memory.{
  MemoryStore, memory_sessions, memory_identities, memory_pre_keys, memory_signed_pre_keys,
  memory_kyber_pre_keys, trusts, no_prekey, save_session, get_session, save_identity,
  is_trusted_identity, get_identity_key, get_local_registration_id, get_pre_key, get_signed_pre_key,
  get_kyber_pre_key, remove_pre_key, mark_kyber_pre_key_used,
}
use gossveil.Session.{binding}
use gossveil.Session.Awaits.{
  commit_task, one_time_bytes_task, open_with_records_task, pq_bytes_task, remove_consumed_task,
  mark_consumed_task, settle_task, session_decrypt_pre_key_task,
}
use gossveil.Session.InMemory.{decrypt_pre_key, known, established}
use gossveil.Session.InMemory.Settled.{settled}
use gossveil.Session.InMemory.PreKey.{decrypt_pre_key-eq, signed_of, one_time_of}
use gossveil.Session.Interleaved.Alone.{lookup-inserted}
use gossveil.Async.{Task, ended, finish, ◌>>=◌}
use gossveil.Async.Operations.{decrypts_first, task, whole, finish-task}
use gossveil.Async.Run.{Running, begin, turns, run_calls, first_turns, second_turns, finish-turns}
use gossveil.Async.InMemory.{memory_host}

-- The first reads all records that the message names, then the second does; then the first goes on
-- to its end, and then the second.
abbrev pub read_first : List ℕ
read_first = replicate 7 0 ++ (replicate 7 1 ++ (replicate 5 0 ++ replicate 5 1))

-- A first message, the records that it names and what the core makes of it.
pub record Delivery : Type 0 where
  pub bytes : Bytes
  pub inner : Bytes
  pub base : Bytes
  pub version : ℕ
  pub registration_id : ℕ
  pub one_time_id : ℕ
  pub signed_id : ℕ
  pub pq_id : ℕ
  pub peer : PublicKey
  pub signed : SignedPreKeyRecord
  pub one_time : PreKeyRecord
  pub pq : KyberPreKeyRecord
  pub plain : Bytes
  pub session : Bytes
  pub consumed_base : Bytes
  pub consumed_signed : ℕ
  pub consumed_pq : ℕ
  pub info : SessionInfo

module _ (to_lower : Text → Text) (p : Platform) (a : ProtocolAddress) (now : ℕ)
    (local : Option ProtocolAddress) (s : MemoryStore) (d : Delivery) where
  -- A first message that names a one-time prekey and a kyber prekey.
  abbrev pub message : PreKeyMessage
  message = record {
    bytes = d.bytes;
    info = record {
      version = d.version;
      registration_id = d.registration_id;
      one_time_id = some d.one_time_id;
      signed_id = d.signed_id;
      pq_id = some d.pq_id;
      base = d.base;
      identity = d.peer;
    };
    inner = d.inner;
  }

  -- What the core makes of it: the one-time prekey is consumed.
  abbrev pub opened : OpenedFirst
  opened = record {
    plain = d.plain;
    record_bytes = d.session;
    consumed = record {
      used = true;
      one_time_id = some d.one_time_id;
      signed_id = d.consumed_signed;
      pq_id = d.consumed_pq;
      base = d.consumed_base;
    };
  }

  abbrev pub both_opening : List (Running MemoryStore)
  both_opening =
      begin (memory_host to_lower)
        ((p, decrypts_first message a now local) ∷ (p, decrypts_first message a now local) ∷ [])

  -- The store has the records that the message names, and the core opens the message with them for
  -- the identity that the message names and that is not distrusted.
  pub record Opens : Type 0 where
    pub trusted : trusts (known a s) d.peer ≡ true
    pub has_signed : lookup d.signed_id s.signed_pre_keys ≡ some d.signed
    pub has_one_time : lookup d.one_time_id s.pre_keys ≡ some d.one_time
    pub has_pq : lookup d.pq_id s.kyber_pre_keys ≡ some d.pq
    pub by_core :
        session_open_first p s.identity.private_key s.registration_id
          (Option.get_or (lookup (to_string a) s.sessions) [])
          d.bytes
          d.signed.bytes
          d.one_time.bytes
          d.pq.bytes
          (binding (some a) local)
        ≡ ok opened
    pub has_info : session_info p d.session now ≡ ok d.info
    pub same_identity : d.info.remote_identity ≡ d.peer

  trusts_self : trusts (some d.peer) d.peer ≡ true
  unfolding trusts equals
  trusts_self = (bytes_equal_iff d.peer d.peer).1 refl

  abbrev after : MemoryStore → MemoryStore
  after t = settled (some d.pq_id) opened.consumed (established a d.peer d.session t)

  abbrev decryption : Task MemoryStore Bytes
  decryption = task (memory_host to_lower) p (decrypts_first message a now local)

  -- What is left of a decryption once it has the records that the message names.
  abbrev with_records : Task MemoryStore Bytes
  with_records =
      open_with_records_task p memory_sessions memory_identities memory_pre_keys
        memory_signed_pre_keys memory_kyber_pre_keys message a now local s.identity.private_key
        s.registration_id (Option.get_or (lookup (to_string a) s.sessions) []) d.signed.bytes
        d.one_time.bytes d.pq.bytes

  reads-records : Opens → turns 7 decryption s ≡ (with_records, s)
  unfolding turns task session_decrypt_pre_key_task one_time_bytes_task pq_bytes_task ◌>>=◌
      get_session is_trusted_identity get_identity_key get_local_registration_id get_pre_key
      get_signed_pre_key get_kyber_pre_key lookup open_with_records_task
  reads-records h = rw (h.trusted, h.has_signed, h.has_one_time, h.has_pq) refl

  saves-records :
      (t : MemoryStore)
      → Opens
      → trusts (known a t) d.peer ≡ true
      → turns 5 with_records t ≡ (ended (ok d.plain), after t)
  unfolding turns open_with_records_task commit_task settle_task remove_consumed_task
      mark_consumed_task ◌>>=◌ save_session save_identity is_trusted_identity remove_pre_key
      mark_kyber_pre_key_used settled lookup insert erase add
  saves-records t h trusted = rw (h.by_core, h.has_info, h.same_identity, trusted) refl

  trusted_after : (t : MemoryStore) → trusts (known a (after t)) d.peer ≡ true
  unfolding settled
  trusted_after t = rw (lookup-inserted (to_string a) d.peer t.identities) trusts_self

  abbrev opening : Task MemoryStore Bytes → Running MemoryStore
  opening t = record { operation = decrypts_first message a now local; rest = t }

  replay-eq :
      Opens
      → run_calls read_first both_opening s
        ≡ (opening (ended (ok d.plain)) ∷ opening (ended (ok d.plain)) ∷ [], after (after s))
  unfolding begin run_calls
  replay-eq h =
      first_turns 7 (replicate 7 1 ++ (replicate 5 0 ++ replicate 5 1)) (opening decryption)
        (opening decryption) s with_records s (reads-records h)
      ∙ second_turns 7 (replicate 5 0 ++ replicate 5 1) (opening with_records) (opening decryption)
          s with_records s (reads-records h)
      ∙ first_turns 5 (replicate 5 1) (opening with_records) (opening with_records) s
          (ended (ok d.plain)) (after s) (saves-records s h h.trusted)
      ∙ second_turns 5 [] (opening (ended (ok d.plain))) (opening with_records) (after s)
          (ended (ok d.plain)) (after (after s)) (saves-records (after s) h (trusted_after s))

  first_alone : Opens → decrypt_pre_key p message a now local s ≡ (ok d.plain, after s)
  unfolding whole task finish
  first_alone h =
      sym (finish-task (memory_host to_lower) p (decrypts_first message a now local) s)
      ∙ finish-turns 7 decryption s
      ∙ ap (λ (o : Task MemoryStore Bytes × MemoryStore). finish o.0 o.1) (reads-records h)
      ∙ finish-turns 5 with_records s
      ∙ ap (λ (o : Task MemoryStore Bytes × MemoryStore). finish o.0 o.1)
          (saves-records s h h.trusted)

  no_one_time :
      (t : MemoryStore)
      → trusts (known a t) d.peer ≡ true
      → lookup d.signed_id t.signed_pre_keys ≡ some d.signed
      → lookup d.one_time_id t.pre_keys ≡ none
      → decrypt_pre_key p message a now local t ≡ (err (no_prekey d.one_time_id), t)
  unfolding signed_of one_time_of lookup
  no_one_time t trusted has_signed gone =
      decrypt_pre_key-eq p a now t message local ∙ rw (trusted, has_signed, gone) refl

  kept : (after s).signed_pre_keys ≡ s.signed_pre_keys
  unfolding settled
  kept = refl

  removed : lookup d.one_time_id (after s).pre_keys ≡ none
  unfolding settled
  removed = lookup-erase d.one_time_id d.one_time_id s.pre_keys ∙ rw (beq_self d.one_time_id) refl

  -- A first message is delivered twice, and the core opens it with the records that it names, for the
  -- identity that it names, and consumes its one-time prekey. Decrypted one after the other, the
  -- second delivery is refused with the error of getPreKey, as the prekey is gone. Under the schedule
  -- in which the first call reads its records, then the second does, then the first goes on to its
  -- end and then the second, both return the plaintext.
  pub overlapping_deliveries :
      Opens
      → let first = decrypt_pre_key p message a now local s in
        let second = decrypt_pre_key p message a now local first.1 in
        let overlapping = run_calls read_first both_opening s in
        (first.0 ≡ ok d.plain)
        × (second.0 ≡ err (no_prekey d.one_time_id))
        × (overlapping.0 ≡ opening (ended (ok d.plain)) ∷ opening (ended (ok d.plain)) ∷ [])
  overlapping_deliveries h =
      let again =
        ap (λ (o : Result Bytes × MemoryStore). decrypt_pre_key p message a now local o.1)
          (first_alone h) in
      let refused =
        no_one_time (after s) (trusted_after s) (ap (lookup d.signed_id) kept ∙ h.has_signed)
          removed in
      (
        ap (λ (o : Result Bytes × MemoryStore). o.0) (first_alone h),
        ap (λ (o : Result Bytes × MemoryStore). o.0) (again ∙ refused),
        ap (λ (o : List (Running MemoryStore) × MemoryStore). o.0) (replay-eq h),
      )
