-- ===== src/Session/Frame.antt =====
-- Sessions, identities and prekeys that a session operation over the in-memory store is not about.
use gossveil.Base.{
  ℕ, ◌≡◌, ◌≢◌, refl, sym, ◌∙◌, ap, subst, false, Bytes, Text, Option, none, ◌⊎◌, inl, inr,
  Bool-cases, Option-cases, text_eq_iff, ◌&&◌,
}
use gossveil.Fault.{Result, ok, err}
use gossveil.Dict.{lookup, insert, lookup-insert, text_key_eq, nat_eq, ◌==◌}
use gossveil.Bridge.Call.{Platform}
use gossveil.Address.{ProtocolAddress, to_string}
use gossveil.Address.Keys.{to_string-injective}
use gossveil.Bridge.Sessions.{Consumed}
use gossveil.Messages.{PreKeyMessage}
use gossveil.Keys.{PublicKey}
use gossveil.Store.Memory.{MemoryStore}
use gossveil.Session.InMemory.{
  start, encrypt, decrypt, decrypt_pre_key, established, known, Outcome, Outcome_holds,
}
use gossveil.Session.InMemory.Outcomes.{start_outcome, encrypt_outcome, decrypt_outcome}
use gossveil.Session.InMemory.Settled.{settled, kept-settled, lookup-settled}
use gossveil.Session.InMemory.PreKey.{decrypt_pre_key_outcome}
use gossveil.Session.Trust.{Step, starts, encrypts, decrypts, decrypts_first}

-- The address that a step is about.
unfoldable pub peer : {s t : MemoryStore} → Step s t → ProtocolAddress
peer (starts p b a now) = a
peer (encrypts p m a now local) = a
peer (decrypts p m a now local) = a
peer (decrypts_first p m a now local) = a

-- The session and the identity of `b` are the same in both stores.
abbrev pub SameAt : ProtocolAddress → MemoryStore → MemoryStore → Type 0
SameAt b s t =
    (lookup (to_string b) t.sessions ≡ lookup (to_string b) s.sessions) × (known b t ≡ known b s)

key_ne : (a b : ProtocolAddress) → b ≢ a → (to_string b == to_string a) ≡ false
key_ne a b ne = elim (Bool-cases (to_string b == to_string a)) [
  | inl same ↦ absurd (ne (to_string-injective b a ((text_eq_iff _ _).0 same)))
  | inr other ↦ other
]

pub insert_elsewhere :
    {V : Type 0} (a b : ProtocolAddress) (v : V) (d : gossveil.Dict.Dict Text V)
    → b ≢ a
    → lookup (to_string b) (insert (to_string a) v d) ≡ lookup (to_string b) d
insert_elsewhere a b v d ne =
    lookup-insert (to_string a) (to_string b) v d ∙ rw (key_ne a b ne) refl

established-SameAt :
    (a b : ProtocolAddress) (key : PublicKey) (session : Bytes) (s : MemoryStore)
    → b ≢ a
    → SameAt b s (established a key session s)
established-SameAt a b key session s ne =
    (insert_elsewhere a b session s.sessions ne, insert_elsewhere a b key s.identities ne)

-- A session operation for one address leaves the session and the identity recorded for any other
-- address as they were.
pub Step-SameAt :
    (b : ProtocolAddress) {s t : MemoryStore} (step : Step s t) → b ≢ peer step → SameAt b s t
unfolding peer
Step-SameAt b {s} (starts p bundle a now) ne =
    Outcome_holds (SameAt b s) s _ (start p bundle a now s) (refl, refl)
      (λ r s' q. subst (SameAt b s) (sym q.3) (established-SameAt a b bundle.identity_key q.0 s ne))
      (start_outcome p a now s bundle)
Step-SameAt b {s} (encrypts p m a now local) ne =
    Outcome_holds (SameAt b s) s _ (encrypt p m a now local s) (refl, refl)
      (λ r s' q.
        subst (SameAt b s) (sym q.9) (insert_elsewhere a b (q.1).record_bytes s.sessions ne, refl))
      (encrypt_outcome p a now s m local)
Step-SameAt b {s} (decrypts p m a now local) ne =
    Outcome_holds (SameAt b s) s _ (decrypt p m a now local s) (refl, refl)
      (λ r s' q.
        let (info, _, _, e) = q.5 in
        subst (SameAt b s) (sym e)
          (established-SameAt a b info.remote_identity (q.1).record_bytes s ne))
      (decrypt_outcome p a now s m local)
Step-SameAt b {s} (decrypts_first p m a now local) ne =
    Outcome_holds (SameAt b s) s _ (decrypt_pre_key p m a now local s) (refl, refl)
      (λ r s' q.
        let (opened, info, _, _, _, _, _, e) = q in
        let (same_identities, same_sessions) =
          kept-settled m.info.pq_id opened.consumed
            (established a info.remote_identity opened.record_bytes s) in
        let (session, identity) =
          established-SameAt a b info.remote_identity opened.record_bytes s ne in
        subst (SameAt b s) (sym e) (
          ap (lookup (to_string b)) same_sessions ∙ session,
          ap (lookup (to_string b)) same_identities ∙ identity,
        ))
      (decrypt_pre_key_outcome p a now s m local)

-- The one-time prekey `j` is as before, or a message was opened and the key is gone.
abbrev pub Consumes : {A : Type 0} → MemoryStore → ℕ → Result A × MemoryStore → Type 0
Consumes s j o =
    (lookup j (o.1).pre_keys ≡ lookup j s.pre_keys)
    ⊎ ((gossveil.Fault.IsOk o.0) × (lookup j (o.1).pre_keys ≡ none))

settled-Consumes :
    (j : ℕ) (pq_id : Option ℕ) (consumed : Consumed) (s : MemoryStore)
    → (lookup j (settled pq_id consumed s).pre_keys ≡ lookup j s.pre_keys)
      ⊎ (lookup j (settled pq_id consumed s).pre_keys ≡ none)
settled-Consumes j pq_id consumed s = elim (Option-cases consumed.one_time_id) [
  | inl e ↦ inl (lookup-settled pq_id consumed s j ∙ rw e refl)
  | inr (id, e) ↦ elim (Bool-cases (consumed.used && j == id)) [
    | inl gone ↦ inr (lookup-settled pq_id consumed s j ∙ rw e (rw gone refl))
    | inr kept ↦ inl (lookup-settled pq_id consumed s j ∙ rw e (rw kept refl))
  ]
]

Outcome-Consumes :
    {A : Type 0} (s : MemoryStore) (j : ℕ) (Q : A → MemoryStore → Type 0)
    (o : Result A × MemoryStore)
    → ((r : A) (s' : MemoryStore)
        → Q r s'
        → (lookup j s'.pre_keys ≡ lookup j s.pre_keys) ⊎ (lookup j s'.pre_keys ≡ none))
    → Outcome s Q o
    → Consumes s j o
Outcome-Consumes s j Q (ok r, s') f h = elim (f r s' h) [
  | inl same ↦ inl same
  | inr gone ↦ inr (tt, gone)
]
Outcome-Consumes s j Q (err e, s') f h = inl (ap (λ (t : MemoryStore). lookup j t.pre_keys) h)

module _ (p : Platform) (m : PreKeyMessage) (a : ProtocolAddress) (now : ℕ)
    (local : Option ProtocolAddress) (s : MemoryStore) where
  -- After the decryption of a first message each one-time prekey is as before, or the message was
  -- opened and the prekey is gone: a message that fails costs no prekey.
  pub decrypt_pre_key-Consumes : (j : ℕ) → Consumes s j (decrypt_pre_key p m a now local s)
  decrypt_pre_key-Consumes j =
      Outcome-Consumes s j _ (decrypt_pre_key p m a now local s)
        (λ r s' q.
          let (opened, info, _, _, _, _, _, e) = q in
          subst
            (λ (t : MemoryStore).
              (lookup j t.pre_keys ≡ lookup j s.pre_keys) ⊎ (lookup j t.pre_keys ≡ none))
            (sym e)
            (settled-Consumes j m.info.pq_id opened.consumed
              (established a info.remote_identity opened.record_bytes s)))
        (decrypt_pre_key_outcome p a now s m local)
