-- ===== src/Async/InMemory/Invariants/Kept.antt =====
-- What overlapping calls leave alone in the in-memory store.
use gossveil.Base.{
  ℕ, ◌≡◌, ◌≢◌, refl, sym, ◌∙◌, ap, subst, List, [], ◌∷◌, All, true, Text, none, some, Bool-cases,
  inl, inr, ◌⊎◌, text_eq_iff, arith,
}
use gossveil.Dict.{
  lookup, insert, erase, add, contains, lookup-insert, lookup-erase, contains-add, text_key_eq,
  nat_eq, ◌==◌,
}
use gossveil.Bridge.Call.{Platform}
use gossveil.Address.{ProtocolAddress, to_string}
use gossveil.Address.Keys.{to_string-injective}
use gossveil.Keys.{PublicKey}
use gossveil.Store.Memory.{MemoryStore, trusts}
use gossveil.Session.InMemory.{known}
use gossveil.Session.Trust.{IsPinned, trusts_pinned}
use gossveil.Session.Frame.{SameAt, insert_elsewhere}
use gossveil.Async.Operations.{Operation}
use gossveil.Async.Run.{begin, run_calls}
use gossveil.Async.InMemory.{memory_host, IsClosed}
use gossveil.Async.InMemory.Invariants.{about, overlaps-Keeps}

IsPinned-saved :
    (a b : ProtocolAddress) (key new : PublicKey) (asked s : MemoryStore)
    → IsPinned b key asked
    → trusts (known a asked) new ≡ true
    → IsPinned b key s
    → IsPinned b key (record s { identities = insert (to_string a) new s.identities })
IsPinned-saved a b key new asked s before trusted pinned =
    elim (Bool-cases (to_string b == to_string a)) [
      | inr other ↦ lookup-insert (to_string a) (to_string b) new s.identities ∙ rw other pinned
      | inl same ↦
          let e : b ≡ a = to_string-injective b a ((text_eq_iff _ _).0 same) in
          let here : IsPinned a key asked = subst (λ c. IsPinned c key asked) e before in
          lookup-insert (to_string a) (to_string b) new s.identities
          ∙ rw same (ap some (sym (trusts_pinned a key new asked here trusted)))
    ]

IsPinned-IsClosed :
    (a b : ProtocolAddress) (key : PublicKey)
    → IsClosed (IsPinned b key) (λ _ t. IsPinned b key t) a
IsPinned-IsClosed a b key = record {
  same = λ s before. before;
  session = λ r s before. before;
  identity =
      λ new asked s before trusted pinned. IsPinned-saved a b key new asked s before trusted pinned;
  removal = λ id s before. before;
  mark = λ id s before. before;
  sender_key = λ name r s before. before;
}

All-of : {A : Type 0} {Q : A → Type 0} (xs : List A) → ((x : A) → Q x) → All Q xs
All-of [] h = tt
All-of (x ∷ xs) h = (h x, All-of xs h)

-- An identity key that is recorded for an address before the calls begin is the one recorded there
-- after any turns of any calls that overlap.
pub overlaps-IsPinned :
    (to_lower : Text → Text) (b : ProtocolAddress) (key : PublicKey)
    (ops : List (Platform × Operation)) (schedule : List ℕ) (s : MemoryStore)
    → IsPinned b key s
    → IsPinned b key (run_calls schedule (begin (memory_host to_lower) ops) s).1
overlaps-IsPinned to_lower b key ops schedule s =
    overlaps-Keeps to_lower (IsPinned b key) ops schedule s
      (All-of ops (λ c. IsPinned-IsClosed (about c.1) b key))

SameAt-IsClosed :
    (a b : ProtocolAddress) (s : MemoryStore)
    → b ≢ a
    → IsClosed (SameAt b s) (λ _ t. SameAt b s t) a
SameAt-IsClosed a b s ne = record {
  same = λ s before. before;
  session = λ r t same. (insert_elsewhere a b r t.sessions ne ∙ same.0, same.1);
  identity = λ key asked t _ _ same. (same.0, insert_elsewhere a b key t.identities ne ∙ same.1);
  removal = λ id t same. same;
  mark = λ id t same. same;
  sender_key = λ name r t same. same;
}

-- Calls that overlap leave the session and the identity of an address that none of them is about as
-- they were, at any time.
pub overlaps-SameAt :
    (to_lower : Text → Text) (b : ProtocolAddress) (ops : List (Platform × Operation))
    (schedule : List ℕ) (s : MemoryStore)
    → All (λ c. b ≢ about c.1) ops
    → SameAt b s (run_calls schedule (begin (memory_host to_lower) ops) s).1
overlaps-SameAt to_lower b ops schedule s others =
    overlaps-Keeps to_lower (SameAt b s) ops schedule s (closed ops others) (refl, refl)
  where
    closed :
        (ops : List (Platform × Operation))
        → All (λ c. b ≢ about c.1) ops
        → All (λ c. IsClosed (SameAt b s) (λ _ t. SameAt b s t) (about c.1)) ops
    closed [] h = tt
    closed (c ∷ ops) (h, hs) = (SameAt-IsClosed (about c.1) b s h, closed ops hs)

-- What a store keeps of an earlier one: the host's own keys and the prekeys, of which a one-time
-- prekey may be gone and a kyber prekey may be marked as used.
abbrev pub OwnKept : MemoryStore → MemoryStore → Type 0
OwnKept s t =
    (t.identity ≡ s.identity)
    × (t.registration_id ≡ s.registration_id)
    × (t.signed_pre_keys ≡ s.signed_pre_keys)
    × (t.kyber_pre_keys ≡ s.kyber_pre_keys)
    × ((j : ℕ) → (lookup j t.pre_keys ≡ lookup j s.pre_keys) ⊎ (lookup j t.pre_keys ≡ none))
    × ((j : ℕ) → contains j s.kyber_used ≡ true → contains j t.kyber_used ≡ true)

erased :
    (id j : ℕ) (s t : MemoryStore)
    → (lookup j t.pre_keys ≡ lookup j s.pre_keys) ⊎ (lookup j t.pre_keys ≡ none)
    → (lookup j (erase id t.pre_keys) ≡ lookup j s.pre_keys)
      ⊎ (lookup j (erase id t.pre_keys) ≡ none)
erased id j s t h = elim (Bool-cases (j == id)) [
  | inl gone ↦ inr (lookup-erase id j t.pre_keys ∙ rw gone refl)
  | inr kept ↦ elim h [
    | inl same ↦ inl (lookup-erase id j t.pre_keys ∙ rw kept same)
    | inr gone ↦ inr (lookup-erase id j t.pre_keys ∙ rw kept gone)
  ]
]

marked :
    (id j : ℕ) (t : MemoryStore)
    → contains j t.kyber_used ≡ true
    → contains j (add id t.kyber_used) ≡ true
marked id j t h = ground (arith, contains-add id j t.kyber_used)

OwnKept-IsClosed :
    (a : ProtocolAddress) (s : MemoryStore) → IsClosed (OwnKept s) (λ _ t. OwnKept s t) a
OwnKept-IsClosed a s = record {
  same = λ s before. before;
  session = λ r t k. k;
  identity = λ key asked t _ _ k. k;
  removal = λ id t k. (k.0, k.1, k.2, k.3, (λ j. erased id j s t (k.4 j)), k.5);
  mark = λ id t k. (k.0, k.1, k.2, k.3, k.4, (λ j h. marked id j t (k.5 j h)));
  sender_key = λ name r t k. k;
}

-- Whatever calls overlap and however they take turns, the store keeps its identity, its registration
-- id and its signed and kyber prekeys; each one-time prekey is as before or gone, so that none comes
-- back, and a kyber prekey that was used stays marked.
pub overlaps-OwnKept :
    (to_lower : Text → Text) (ops : List (Platform × Operation)) (schedule : List ℕ)
    (s : MemoryStore)
    → OwnKept s (run_calls schedule (begin (memory_host to_lower) ops) s).1
overlaps-OwnKept to_lower ops schedule s =
    overlaps-Keeps to_lower (OwnKept s) ops schedule s
      (All-of ops (λ c. OwnKept-IsClosed (about c.1) s))
      (refl, refl, refl, refl, (λ j. inl refl), (λ j h. h))
