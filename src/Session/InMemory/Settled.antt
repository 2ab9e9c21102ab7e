-- ===== src/Session/InMemory/Settled.antt =====
-- The prekeys that a first message consumes, in the in-memory store.
use gossveil.Base.{ℕ, ◌≡◌, Option, none, some, if◌then◌else◌, arith, ◌&&◌, Option-cases, inl, inr}
use gossveil.Fault.{ok}
use gossveil.Dict.{lookup, erase, add, nat_eq, ◌==◌, lookup-erase}
use gossveil.Bridge.Sessions.{Consumed}
use gossveil.Store.Memory.{
  MemoryStore, memory_pre_keys, memory_kyber_pre_keys, remove_pre_key, mark_kyber_pre_key_used,
}
use gossveil.Session.{settle}

-- What `if (consumed.used)` leaves of a store.
after_one_time : Option ℕ → MemoryStore → MemoryStore
after_one_time none s = s
after_one_time (some id) s = record s { pre_keys = erase id s.pre_keys }

after_pq : Option ℕ → MemoryStore → MemoryStore
after_pq none s = s
after_pq (some id) s = record s { kyber_used = add id s.kyber_used }

unfoldable pub settled : Option ℕ → Consumed → MemoryStore → MemoryStore
unfolding after_one_time after_pq
settled pq_id consumed s =
    if consumed.used then after_pq pq_id (after_one_time consumed.one_time_id s) else s

pub settle-eq :
    (pq_id : Option ℕ) (consumed : Consumed) (s : MemoryStore)
    → settle memory_pre_keys memory_kyber_pre_keys pq_id consumed s
      ≡ (ok tt, settled pq_id consumed s)
unfolding settle settled after_one_time after_pq remove_pre_key mark_kyber_pre_key_used
settle-eq pq_id consumed s = ground arith

-- What settling does to the prekeys: exactly the consumed one-time key goes.
pub lookup-settled :
    (pq_id : Option ℕ) (consumed : Consumed) (s : MemoryStore) (j : ℕ)
    → lookup j (settled pq_id consumed s).pre_keys ≡ (elim consumed.one_time_id [
      | none ↦ lookup j s.pre_keys
      | some id ↦ if consumed.used && j == id then none else lookup j s.pre_keys
    ])
unfolding settled after_one_time after_pq
lookup-settled pq_id consumed s j = elim (Option-cases consumed.one_time_id) [
  | inl e ↦ rw e (ground arith)
  | inr (id, e) ↦ rw e (ground (arith, lookup-erase id j s.pre_keys))
]

pub kept-settled :
    (pq_id : Option ℕ) (consumed : Consumed) (s : MemoryStore)
    → ((settled pq_id consumed s).identities ≡ s.identities)
      × ((settled pq_id consumed s).sessions ≡ s.sessions)
unfolding settled after_one_time after_pq
kept-settled pq_id consumed s = ground arith
