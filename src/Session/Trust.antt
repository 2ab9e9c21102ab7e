-- ===== src/Session/Trust.antt =====
-- Trust on first use, over any sequence of session operations on one in-memory store: each step
-- runs one operation, with any arguments and any behaviour of the core and the clock.
use gossveil.Base.{
  ℕ, ◌≡◌, sym, ◌∙◌, ap, subst, true, Bytes, Option, some, if◌then◌else◌, inl, inr, Bool-cases,
  text_eq_iff,
}
use gossveil.Dict.{lookup, lookup-insert, text_key_eq, ◌==◌}
use gossveil.Bridge.Call.{Platform}
use gossveil.BytesEqual.{bytes_equal_iff}
use gossveil.Address.{ProtocolAddress, to_string}
use gossveil.Address.Keys.{to_string-injective}
use gossveil.Records.{PreKeyBundle}
use gossveil.Messages.{WhisperMessage, PreKeyMessage}
use gossveil.Keys.{PublicKey, equals}
use gossveil.Store.Memory.{MemoryStore, trusts}
use gossveil.Session.InMemory.{
  start, encrypt, decrypt, decrypt_pre_key, established, known, Outcome_holds,
}
use gossveil.Session.InMemory.Outcomes.{start_outcome, encrypt_outcome, decrypt_outcome}
use gossveil.Session.InMemory.Settled.{kept-settled}
use gossveil.Session.InMemory.PreKey.{decrypt_pre_key_outcome}

-- One call of the API by the host.
pub data Step (s : MemoryStore) : MemoryStore → Type 0 where
  starts :
      (p : Platform) (b : PreKeyBundle) (a : ProtocolAddress) (now : ℕ)
      → Step s (start p b a now s).1
  encrypts :
      (p : Platform) (m : Bytes) (a : ProtocolAddress) (now : ℕ) (local : Option ProtocolAddress)
      → Step s (encrypt p m a now local s).1
  decrypts :
      (p : Platform) (m : WhisperMessage) (a : ProtocolAddress) (now : ℕ)
      (local : Option ProtocolAddress)
      → Step s (decrypt p m a now local s).1
  decrypts_first :
      (p : Platform) (m : PreKeyMessage) (a : ProtocolAddress) (now : ℕ)
      (local : Option ProtocolAddress)
      → Step s (decrypt_pre_key p m a now local s).1

pub data Reach (s : MemoryStore) : MemoryStore → Type 0 where
  here : Reach s s
  next : {t u : MemoryStore} → Reach s t → Step t u → Reach s u

-- The identity key `key` is recorded for the address.
abbrev pub IsPinned : ProtocolAddress → PublicKey → MemoryStore → Type 0
IsPinned a key s = known a s ≡ some key

pub trusts_pinned :
    (a : ProtocolAddress) (key new : PublicKey) (s : MemoryStore)
    → IsPinned a key s
    → trusts (known a s) new ≡ true
    → key ≡ new
unfolding trusts equals
trusts_pinned a key new s pinned t = (bytes_equal_iff key new).0 (rw pinned at t)

known-established :
    (a b : ProtocolAddress) (key : PublicKey) (session : Bytes) (s : MemoryStore)
    → known b (established a key session s)
      ≡ (if to_string b == to_string a then some key else known b s)
known-established a b key session s = lookup-insert (to_string a) (to_string b) key s.identities

established-IsPinned :
    (a b : ProtocolAddress) (key new : PublicKey) (session : Bytes) (s : MemoryStore)
    → IsPinned b key s
    → trusts (known a s) new ≡ true
    → IsPinned b key (established a new session s)
established-IsPinned a b key new session s pinned t =
    elim (Bool-cases (to_string b == to_string a)) [
      | inr other ↦ known-established a b new session s ∙ rw other pinned
      | inl same ↦
          let e : b ≡ a =
            to_string-injective b a ((text_eq_iff (to_string b) (to_string a)).0 same) in
          let here_pinned : IsPinned a key s = subst (λ c. IsPinned c key s) e pinned in
          known-established a b new session s
          ∙ rw same (ap some (sym (trusts_pinned a key new s here_pinned t)))
    ]

Step-IsPinned :
    (b : ProtocolAddress) (key : PublicKey) {s t : MemoryStore}
    → Step s t
    → IsPinned b key s
    → IsPinned b key t
Step-IsPinned b key {s} (starts p bundle a now) h =
    Outcome_holds (IsPinned b key) s _ (start p bundle a now s) h
      (λ r s' q.
        subst (IsPinned b key) (sym q.3)
          (established-IsPinned a b key bundle.identity_key q.0 s h q.2))
      (start_outcome p a now s bundle)
Step-IsPinned b key {s} (encrypts p m a now local) h =
    Outcome_holds (IsPinned b key) s _ (encrypt p m a now local s) h
      (λ r s' q. subst (IsPinned b key) (sym q.9) h) (encrypt_outcome p a now s m local)
Step-IsPinned b key {s} (decrypts p m a now local) h =
    Outcome_holds (IsPinned b key) s _ (decrypt p m a now local s) h
      (λ r s' q.
        let (info, _, trusted, e) = q.5 in
        subst (IsPinned b key) (sym e)
          (established-IsPinned a b key info.remote_identity (q.1).record_bytes s h trusted))
      (decrypt_outcome p a now s m local)
Step-IsPinned b key {s} (decrypts_first p m a now local) h =
    Outcome_holds (IsPinned b key) s _ (decrypt_pre_key p m a now local s) h
      (λ r s' q.
        let (opened, info, _, _, _, trusted, _, e) = q in
        subst (IsPinned b key) (sym e) (
          ap (lookup (to_string b))
            (kept-settled m.info.pq_id opened.consumed
              (established a info.remote_identity opened.record_bytes s)).0
          ∙ established-IsPinned a b key info.remote_identity opened.record_bytes s h trusted))
      (decrypt_pre_key_outcome p a now s m local)

-- Once an identity key is recorded for an address, it is the one recorded there after any sequence
-- of session operations.
pub Reach-IsPinned :
    (b : ProtocolAddress) (key : PublicKey) {s t : MemoryStore}
    → IsPinned b key s
    → Reach s t
    → IsPinned b key t
Reach-IsPinned b key h here = h
Reach-IsPinned b key h (next r step) = Step-IsPinned b key step (Reach-IsPinned b key h r)
