-- ===== src/Async/InMemory/Alone.antt =====
-- Overlapping calls for different addresses: which part of the store a call reads and changes.
pub mod Ends
use gossveil.Base.{
  ℕ, zero, suc, ◌≤◌, ◌≡◌, ◌≢◌, refl, sym, ◌∙◌, ap, subst, List, [], ◌∷◌, All, Bool, true, false,
  Bytes, Text, Option, none, some,
}
use mathlib.Core.Option
use gossveil.Fault.{Result, ok, err}
use gossveil.Exec.{Exec}
use gossveil.Dict.{Dict, lookup, insert, text_key_eq}
use gossveil.Bridge.Call.{Platform}
use gossveil.Address.{ProtocolAddress, to_string, untrusted}
use gossveil.Keys.{PublicKey}
use gossveil.Messages.{WhisperMessage}
use gossveil.Records.{PreKeyBundle, SessionRecord}
use gossveil.Store.{Direction}
use gossveil.Store.Memory.{
  MemoryStore, memory_sessions, memory_identities, trusts, save_session, get_session, save_identity,
  is_trusted_identity, get_identity_key, get_local_registration_id,
}
use gossveil.Session.Awaits.{
  process_bundle_task, session_encrypt_task, commit_task, session_decrypt_task,
}
use gossveil.Session.InMemory.{known}
use gossveil.Session.Frame.{insert_elsewhere}
use gossveil.Session.Interleaved.Alone.{lookup-inserted}
use gossveil.Async.{Task, ended, awaits, await, unless, finish, ◌>>=◌}
use gossveil.Async.Operations.{
  Host, Operation, Answer, task, whole, finish-task, starts, encrypts, decrypts, decrypts_first,
  announces, admits, notes, reads_note,
}
use gossveil.Async.Run.{Running, begin, run_calls, turns, turns_of, EndsWithin, finish-turns}
use gossveil.Async.Run.Bounded.{task_bound}
use gossveil.Async.Run.Keeps.{Keeps}
use gossveil.Async.Run.Local.{
  Local, ended-Local, await-Local, throw-Local, part-Local, unless-Local, last-Local, end-Local,
  Quiet, nth, Others, moved, run_calls-Local,
}
use gossveil.Async.InMemory.{memory_host, IsClosed}
use gossveil.Async.InMemory.Invariants.{about, task-Keeps}

-- The part of the store that an operation on the session with an address reads and changes.
abbrev pub SamePart : ProtocolAddress → MemoryStore → MemoryStore → Type 0
SamePart a s t =
    (lookup (to_string a) t.sessions ≡ lookup (to_string a) s.sessions)
    × (known a t ≡ known a s)
    × (t.identity ≡ s.identity)
    × (t.registration_id ≡ s.registration_id)

module _ (a : ProtocolAddress) where
  pub SamePart-trans : (s t u : MemoryStore) → SamePart a s t → SamePart a t u → SamePart a s u
  SamePart-trans s t u h k = (k.0 ∙ h.0, k.1 ∙ h.1, k.2 ∙ h.2, k.3 ∙ h.3)

  SamePart-IsClosed : (b : ProtocolAddress) → a ≢ b → IsClosed (λ s. Unit {0}) (SamePart a) b
  SamePart-IsClosed b ne = record {
    same = λ s _. (refl, refl, refl, refl);
    session = λ r s _. (insert_elsewhere b a r s.sessions ne, refl, refl, refl);
    identity = λ key asked s _ _ _. (refl, insert_elsewhere b a key s.identities ne, refl, refl);
    removal = λ id s _. (refl, refl, refl, refl);
    mark = λ id s _. (refl, refl, refl, refl);
    sender_key = λ name r s _. (refl, refl, refl, refl);
  }

  inserted_same :
      (v : Bytes) (d e : Dict Text Bytes)
      → lookup (to_string a) (insert (to_string a) v d)
        ≡ lookup (to_string a) (insert (to_string a) v e)
  inserted_same v d e = lookup-inserted (to_string a) v d ∙ sym (lookup-inserted (to_string a) v e)

  session_saved :
      (r : SessionRecord) (s t : MemoryStore)
      → SamePart a s t
      → SamePart a (save_session a r s).1 (save_session a r t).1
        × ((save_session a r s).0 ≡ (save_session a r t).0)
  unfolding save_session
  session_saved r s t h = ((inserted_same r t.sessions s.sessions, h.1, h.2, h.3), refl)

  trusted-Local :
      {B : Type 0} (f : Unit {0} → Task MemoryStore B) (key : PublicKey) (d : Direction)
      → Local (SamePart a) (f tt)
      → Local
          (SamePart a)
          (await (is_trusted_identity a key d) >>= λ trusted. unless trusted (untrusted a) >>= f)
  unfolding is_trusted_identity
  trusted-Local f key d h =
      await-Local (SamePart a) _ _ (λ s t r. (r, ap (λ k. ok (trusts k key)) (sym r.1)))
        λ trusted. unless-Local (SamePart a) f trusted (untrusted a) h

  -- The end of an operation that saves an identity and then a session.
  both_saved-Local :
      (key : PublicKey) (r : SessionRecord)
      → Local (SamePart a) (await (save_identity a key) >>= λ _. await (save_session a r))
  unfolding save_identity
  both_saved-Local key r =
      await-Local (SamePart a) _ _
        (λ s t h. ((h.0, inserted_same key t.identities s.identities, h.2, h.3), rw h.1 refl))
        λ _. last-Local (SamePart a) _ (session_saved r)

  start-Local :
      (p : Platform) (b : PreKeyBundle) (now : ℕ)
      → Local (SamePart a) (process_bundle_task p memory_sessions memory_identities b a now)
  unfolding process_bundle_task get_identity_key get_local_registration_id get_session
  start-Local p b now = trusted-Local _ b.identity_key _ (
      await-Local (SamePart a) _ _ (λ s t h. (h, ap (λ k. ok k.private_key) (sym h.2)))
        λ identity.
          await-Local (SamePart a) _ _ (λ s t h. (h, ap ok (sym h.3)))
            λ id.
              await-Local (SamePart a) _ _ (λ s t h. (h, ap ok (sym h.0)))
                λ existing.
                  ended-Local (SamePart a) _ _ λ session. both_saved-Local b.identity_key session)

  encrypt-Local :
      (p : Platform) (m : Bytes) (now : ℕ) (local : Option ProtocolAddress)
      → Local (SamePart a) (session_encrypt_task p memory_sessions memory_identities m a now local)
  unfolding session_encrypt_task get_session
  encrypt-Local p m now local =
      await-Local (SamePart a) _ _ (λ s t h. (h, ap ok (sym h.0)))
        λ found. throw-Local (SamePart a) _ found _ λ session.
          ended-Local (SamePart a) _ _ λ sealed. ended-Local (SamePart a) _ _ λ info.
            trusted-Local _ info.remote_identity _ (
              await-Local (SamePart a) _ _ (session_saved sealed.record_bytes)
                λ _. end-Local (SamePart a) _)

  commit-Local :
      (p : Platform) (session : Bytes) (now : ℕ)
      → Local (SamePart a) (commit_task p memory_sessions memory_identities session a now)
  unfolding commit_task
  commit-Local p session now =
      ended-Local (SamePart a) _ _ λ info.
        trusted-Local _ info.remote_identity _ (both_saved-Local info.remote_identity session)

  decrypt-Local :
      (p : Platform) (m : WhisperMessage) (now : ℕ) (local : Option ProtocolAddress)
      → Local (SamePart a) (session_decrypt_task p memory_sessions memory_identities m a now local)
  unfolding session_decrypt_task get_session
  decrypt-Local p m now local =
      await-Local (SamePart a) _ _ (λ s t h. (h, ap ok (sym h.0)))
        λ found. throw-Local (SamePart a) _ found _ λ session.
          ended-Local (SamePart a) _ _ λ opened.
            part-Local (SamePart a) _ _ (commit-Local p opened.record_bytes now)
              λ _. end-Local (SamePart a) _

-- An operation on one session that names no prekey.
unfoldable pub OnSession : Operation → Type 0
OnSession (starts b a now) = Unit {0}
OnSession (encrypts m a now local) = Unit {0}
OnSession (decrypts m a now local) = Unit {0}
OnSession (decrypts_first m a now local) = ⊥
OnSession (announces a id) = ⊥
OnSession (admits a m) = ⊥
OnSession (notes a id m) = ⊥
OnSession (reads_note a m) = ⊥

module _ (to_lower : Text → Text) where
  pub task-Local :
      (p : Platform) (o : Operation)
      → OnSession o
      → Local (SamePart (about o)) (task (memory_host to_lower) p o)
  unfolding OnSession task about
  task-Local p (starts b a now) h = start-Local a p b now
  task-Local p (encrypts m a now local) h = encrypt-Local a p m now local
  task-Local p (decrypts m a now local) h = decrypt-Local a p m now local
  task-Local p (decrypts_first m a now local) h = elim h [ ]
  task-Local p (announces a id) h = elim h [ ]
  task-Local p (admits a m) h = elim h [ ]
  task-Local p (notes a id m) h = elim h [ ]
  task-Local p (reads_note a m) h = elim h [ ]

  pub task-Quiet :
      (a : ProtocolAddress) (p : Platform) (o : Operation)
      → a ≢ about o
      → Quiet (SamePart a) (task (memory_host to_lower) p o)
  task-Quiet a p o ne =
      task-Keeps to_lower (λ s. Unit {0}) (SamePart a) p o (SamePart-IsClosed a (about o) ne)
