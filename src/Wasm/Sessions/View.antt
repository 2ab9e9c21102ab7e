-- ===== src/Wasm/Sessions/View.antt =====
-- The stores of sdk/ts/src/wasm-api.ts seen as one `InMemoryProtocolStore` of sdk/ts/src/api.ts.
use gossveil.Base.{◌≡◌, refl, Bytes, Option, [], ◌∷◌, arith}
use mathlib.Core.Option
use gossveil.Fault.{Result, ok, err}
use gossveil.Dict.{Dict, Eq, lookup, insert, erase, nat_eq, text_key_eq}
use gossveil.Address.{ProtocolAddress, to_string}
use gossveil.Records.{PreKeyRecord, SignedPreKeyRecord}
use gossveil.Store.Memory.{MemoryStore}
use gossveil.Wasm.Stores.{Stores}

module _ {ℓ κ μ} {K : Type ℓ} {V : Type κ} {W : Type μ} ⦃e : Eq K⦄ (f : V → W) where
  -- Every value of a dictionary through `f`.
  pub map_values : Dict K V → Dict K W
  map_values [] = []
  map_values ((k, v) ∷ d) = (k, f v) ∷ map_values d

  pub lookup-map_values :
      (k : K) (d : Dict K V) → lookup k (map_values d) ≡ Option.map f (lookup k d)
  unfolding lookup map_values
  lookup-map_values k [] = refl
  lookup-map_values k ((j, v) ∷ d) = ground (arith, lookup-map_values k d)

  pub erase-map_values : (k : K) (d : Dict K V) → erase k (map_values d) ≡ map_values (erase k d)
  unfolding erase map_values
  erase-map_values k [] = refl
  erase-map_values k ((j, v) ∷ d) = ground (arith, erase-map_values k d)

-- A record of the class for stored bytes. No session operation reads its parsed fields.
abbrev pub as_pre_key : Bytes → PreKeyRecord
as_pre_key r = record { bytes = r; parsed = record { id = 0; public_key = []; secret = [] } }

abbrev pub as_signed_pre_key : Bytes → SignedPreKeyRecord
as_signed_pre_key r = record {
  bytes = r;
  parsed = record { id = 0; stamp = 0; public_key = []; secret = []; signature = [] };
}

abbrev pub view : Stores → MemoryStore
view w = record {
  identity = w.identities.identity;
  registration_id = w.identities.registration_id;
  identities = w.identities.known;
  sessions = w.sessions;
  pre_keys = map_values as_pre_key w.pre_keys;
  signed_pre_keys = map_values as_signed_pre_key w.signed_pre_keys;
  kyber_pre_keys = map_values as_signed_pre_key w.kyber_pre_keys.records;
  kyber_used = w.kyber_pre_keys.used;
  sender_keys = w.sender_keys;
}

-- The end of a call, seen through the view.
abbrev pub seen : {A B : Type 0} → (A → B) → Result A × Stores → Result B × MemoryStore
seen f (ok a, w) = (ok (f a), view w)
seen f (err e, w) = (err e, view w)

-- What the stores hold about an address.
module _ (a : ProtocolAddress) (w : Stores) where
  abbrev pub known_key : Option Bytes
  known_key = lookup (to_string a) w.identities.known

  abbrev pub stored_record : Bytes
  stored_record = Option.get_or (lookup (to_string a) w.sessions) []

  -- The stores with a session and an identity recorded for the address.
  abbrev pub established_in : Bytes → Bytes → Stores
  established_in key session = record w {
    identities = record (w.identities) { known = insert (to_string a) key w.identities.known };
    sessions = insert (to_string a) session w.sessions;
  }
