-- ===== src/Async/InMemory/Invariants.antt =====
-- Statements about `InMemoryProtocolStore` that hold at every turn of overlapping calls.
pub mod Kept
use gossveil.Base.{
  ℕ, ◌≡◌, ◌≢◌, refl, sym, ◌∙◌, ap, subst, List, [], ◌∷◌, All, Bool, true, false, Bytes, Text,
  Option, none, some, if◌then◌else◌, Bool-cases, inl, inr, ◌⊎◌, text_eq_iff,
}
use gossveil.Fault.{Result, ok, err}
use gossveil.Dict.{
  Dict, lookup, insert, erase, contains, lookup-insert, lookup-erase, contains-add, text_key_eq,
  nat_eq, ◌==◌,
}
use gossveil.Bridge.Call.{Platform}
use gossveil.Address.{ProtocolAddress, to_string}
use gossveil.Address.Keys.{to_string-injective}
use gossveil.Keys.{PublicKey}
use gossveil.Messages.{SenderKeyDistributionMessage}
use gossveil.Store.Memory.{MemoryStore, memory_sender_keys, trusts, get_sender_key, save_sender_key}
use gossveil.Session.InMemory.{known, established}
use gossveil.Session.Trust.{IsPinned}
use gossveil.Session.Frame.{SameAt, insert_elsewhere}
use gossveil.Group.Awaits.{
  create_distribution_task, process_distribution_task, group_encrypt_task, group_decrypt_task,
}
use gossveil.Async.Operations.{
  Host, Operation, Answer, task, starts, encrypts, decrypts, decrypts_first, announces, admits,
  notes, reads_note,
}
use gossveil.Async.Run.{Running, begin, run_calls}
use gossveil.Async.Run.Keeps.{
  Keeps, run_calls-Keeps, ended-Keeps, await-Keeps, throw-Keeps, last-Keeps, end-Keeps,
}
use gossveil.Async.InMemory.{
  memory_host, IsClosed, read-Keeps, start-Keeps, encrypt-Keeps, decrypt-Keeps, decrypt_first-Keeps,
}

-- The address that a call is about.
unfoldable pub about : Operation → ProtocolAddress
about (starts b a now) = a
about (encrypts m a now local) = a
about (decrypts m a now local) = a
about (decrypts_first m a now local) = a
about (announces a id) = a
about (admits a m) = a
about (notes a id m) = a
about (reads_note a m) = a

module _ (to_lower : Text → Text) (P : MemoryStore → Type 0)
    (E : MemoryStore → MemoryStore → Type 0) (p : Platform) (a : ProtocolAddress)
    (closed : IsClosed P E a) where
  announce-Keeps :
      (id : Text) → Keeps P E (create_distribution_task p (memory_sender_keys to_lower) a id)
  unfolding create_distribution_task get_sender_key save_sender_key
  announce-Keeps id = read-Keeps P E p a closed _ _ λ existing. ended-Keeps P E _ _ λ circle_id _.
      ended-Keeps P E _ _ λ announced _.
        await-Keeps P E _ _ (λ s. closed.sender_key _ announced.record_bytes s)
          λ s _ _ _. end-Keeps P E _

  admit-Keeps :
      (m : SenderKeyDistributionMessage)
      → Keeps P E (process_distribution_task p (memory_sender_keys to_lower) a m)
  unfolding process_distribution_task get_sender_key save_sender_key
  admit-Keeps m = read-Keeps P E p a closed _ _ λ existing.
      ended-Keeps P E _ _ λ admitted _. last-Keeps P E _ (λ s. closed.sender_key _ admitted s)

  note-Keeps :
      (id : Text) (m : Bytes)
      → Keeps P E (group_encrypt_task p (memory_sender_keys to_lower) a id m)
  unfolding group_encrypt_task get_sender_key save_sender_key
  note-Keeps id m = read-Keeps P E p a closed _ _ λ found. throw-Keeps P E _ found _ λ session.
      ended-Keeps P E _ _ λ circle_id _. ended-Keeps P E _ _ λ sealed _.
        await-Keeps P E _ _ (λ s. closed.sender_key _ sealed.record_bytes s)
          λ s _ _ _. end-Keeps P E _

  read_note-Keeps : (m : Bytes) → Keeps P E (group_decrypt_task p (memory_sender_keys to_lower) a m)
  unfolding group_decrypt_task get_sender_key save_sender_key
  read_note-Keeps m = ended-Keeps P E _ _ λ note _. ended-Keeps P E _ _ λ id _.
      read-Keeps P E p a closed _ _ λ found. throw-Keeps P E _ found _ λ session.
        ended-Keeps P E _ _ λ opened _.
          await-Keeps P E _ _ (λ s. closed.sender_key _ opened.record_bytes s)
            λ s _ _ _. end-Keeps P E _

module _ (to_lower : Text → Text) (P : MemoryStore → Type 0)
    (E : MemoryStore → MemoryStore → Type 0) where
  pub task-Keeps :
      (p : Platform) (o : Operation)
      → IsClosed P E (about o)
      → Keeps P E (task (memory_host to_lower) p o)
  unfolding task about
  task-Keeps p (starts b a now) closed = start-Keeps P E p a closed b now
  task-Keeps p (encrypts m a now local) closed = encrypt-Keeps P E p a closed m now local
  task-Keeps p (decrypts m a now local) closed = decrypt-Keeps P E p a closed m now local
  task-Keeps p (decrypts_first m a now local) closed =
      decrypt_first-Keeps P E p a closed m now local
  task-Keeps p (announces a id) closed = announce-Keeps to_lower P E p a closed id
  task-Keeps p (admits a m) closed = admit-Keeps to_lower P E p a closed m
  task-Keeps p (notes a id m) closed = note-Keeps to_lower P E p a closed id m
  task-Keeps p (reads_note a m) closed = read_note-Keeps to_lower P E p a closed m

  begun-Keeps :
      (ops : List (Platform × Operation))
      → All (λ c. IsClosed P E (about c.1)) ops
      → All (λ c. Keeps P E c.rest) (begin (memory_host to_lower) ops)
  unfolding begin
  begun-Keeps [] closed = tt
  begun-Keeps ((p, o) ∷ ops) (h, hs) = (task-Keeps p o h, begun-Keeps ops hs)

-- What withstands the operations one by one holds after any turns of them.
pub overlaps-Keeps :
    (to_lower : Text → Text) (P : MemoryStore → Type 0) (ops : List (Platform × Operation))
    (schedule : List ℕ) (s : MemoryStore)
    → All (λ c. IsClosed P (λ s t. P t) (about c.1)) ops
    → P s
    → P (run_calls schedule (begin (memory_host to_lower) ops) s).1
overlaps-Keeps to_lower P ops schedule s closed before =
    run_calls-Keeps P schedule _ s (begun-Keeps to_lower P (λ s t. P t) ops closed) before
