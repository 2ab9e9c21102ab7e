-- ===== src/Wasm/Sessions/Prekeys.antt =====
-- The prekeys that a first message names, in the stores of sdk/ts/src/wasm-api.ts and in their view.
use gossveil.Base.{
  ℕ, ◌≡◌, refl, subst, Bytes, Option, none, some, [], if◌then◌else◌, arith, Option-cases, inl, inr,
  to_uint32, ◌<◌, ◌^◌,
}
use gossveil.Fault.{Result, ok, err}
use gossveil.Dict.{lookup, erase, add, text_key_eq, nat_eq}
use gossveil.Bridge.Sessions.{Consumed}
use gossveil.Store.Memory.{MemoryStore, trusts}
use gossveil.Store.Memory as Memory
use gossveil.Session.InMemory.PreKey.{signed_of, one_time_of, pq_of}
use gossveil.Session.InMemory.Settled.{settled}
use gossveil.Wasm.Stores.{
  Stores, get_record, export_pre_key, export_kyber_pre_key, remove_pre_key, drop_record, mark_used,
}
use gossveil.Wasm.Sessions.{
  consume, no_signed_prekey, no_prekey, no_kyber_prekey, one_time_record, pq_record, drop_one_time,
  mark_pq,
}
use gossveil.Wasm.Sessions.View.{
  view, as_pre_key, as_signed_pre_key, lookup-map_values, erase-map_values,
}

-- A number that the core gave as a key id.
abbrev pub FitsId : Option ℕ → Type 0
FitsId none = Unit
FitsId (some id) = id < 2 ^ 32

-- The records that a first message names.
unfoldable pub signed_in : Stores → ℕ → Result Bytes
signed_in w id = elim (lookup id w.signed_pre_keys) [
  | none ↦ err (no_signed_prekey id)
  | some r ↦ ok r
]

unfoldable pub one_time_in : Stores → Option ℕ → Result Bytes
one_time_in w none = ok []
one_time_in w (some id) = elim (lookup id w.pre_keys) [ none ↦ err (no_prekey id) | some r ↦ ok r ]

unfoldable pub pq_in : Stores → Option ℕ → Result Bytes
pq_in w none = ok []
pq_in w (some id) = elim (lookup id w.kyber_pre_keys.records) [
  | none ↦ err (no_kyber_prekey id)
  | some r ↦ ok r
]

pub signed_in-eq : (w : Stores) (id : ℕ) → signed_in w id ≡ signed_of (view w) id
unfolding signed_in signed_of no_signed_prekey Memory.no_signed_prekey
signed_in-eq w id = ground (arith, lookup-map_values as_signed_pre_key id w.signed_pre_keys)

pub one_time_in-eq : (w : Stores) (id : Option ℕ) → one_time_in w id ≡ one_time_of (view w) id
unfolding one_time_in one_time_of no_prekey Memory.no_prekey
one_time_in-eq w none = refl
one_time_in-eq w (some id) = ground (arith, lookup-map_values as_pre_key id w.pre_keys)

pub pq_in-eq : (w : Stores) (id : Option ℕ) → pq_in w id ≡ pq_of (view w) id
unfolding pq_in pq_of no_kyber_prekey Memory.no_kyber_prekey
pq_in-eq w none = refl
pq_in-eq w (some id) =
    ground (arith, lookup-map_values as_signed_pre_key id w.kyber_pre_keys.records)

-- What a first message consumes.
unfoldable pub settled_in : Option ℕ → Consumed → Stores → Stores
settled_in pq_id c w =
    if c.used
    then (elim c.one_time_id [
      | none ↦ elim pq_id [
        | none ↦ w
        | some k ↦ record w {
          kyber_pre_keys = record (w.kyber_pre_keys) { used = add k w.kyber_pre_keys.used };
        }
      ]
      | some j ↦ elim pq_id [
        | none ↦ record w { pre_keys = erase j w.pre_keys }
        | some k ↦ record w {
          pre_keys = erase j w.pre_keys;
          kyber_pre_keys = record (w.kyber_pre_keys) { used = add k w.kyber_pre_keys.used };
        }
      ]
    ])
    else w

pub settled_in-eq :
    (pq_id : Option ℕ) (c : Consumed) (w : Stores)
    → view (settled_in pq_id c w) ≡ settled pq_id c (view w)
unfolding settled_in settled
settled_in-eq pq_id c w = elim (Option-cases c.one_time_id) [
  | inl e ↦ rw e (ground arith)
  | inr (j, e) ↦ rw e (ground (arith, erase-map_values as_pre_key j w.pre_keys))
]

pub fit : (id : ℕ) → id < 2 ^ 32 → to_uint32 id ≡ id
fit id h = omega arith

pub consume-eq :
    (pq_id : Option ℕ) (c : Consumed) (w : Stores)
    → FitsId pq_id
    → FitsId c.one_time_id
    → consume pq_id c w ≡ (ok tt, settled_in pq_id c w)
unfolding consume settled_in drop_one_time mark_pq remove_pre_key drop_record mark_used
consume-eq none c w fits fits' = elim (Option-cases c.one_time_id) [
  | inl e ↦ rw e (ground arith)
  | inr (j, e) ↦ rw e (ground (arith, fit j (subst FitsId e fits')))
]
consume-eq (some k) c w fits fits' = elim (Option-cases c.one_time_id) [
  | inl e ↦ rw e (ground (arith, fit k fits))
  | inr (j, e) ↦ rw e (ground (arith, fit k fits, fit j (subst FitsId e fits')))
]

pub one_time_record-eq :
    (id : Option ℕ) (w : Stores) → FitsId id → one_time_record id w ≡ (one_time_in w id, w)
unfolding one_time_record one_time_in export_pre_key get_record
one_time_record-eq none w fits = refl
one_time_record-eq (some id) w fits = ground (arith, fit id fits)

pub pq_record-eq : (id : Option ℕ) (w : Stores) → FitsId id → pq_record id w ≡ (pq_in w id, w)
unfolding pq_record pq_in export_kyber_pre_key get_record
pq_record-eq none w fits = refl
pq_record-eq (some id) w fits = ground (arith, fit id fits)
