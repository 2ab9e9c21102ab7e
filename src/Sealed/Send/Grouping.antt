-- ===== src/Sealed/Send/Grouping.antt =====
-- `recipientsOf` of sdk/ts/src/api.ts: which devices it puts together.
use gossveil.Base.{
  ℕ, ◌≡◌, refl, sym, ap, ◌∙◌, List, [], ◌∷◌, ◌++◌, Text, Option, none, some, if◌then◌else◌,
  Bool-cases, inl, inr, map,
}
use mathlib.Core.List.{append_assoc, append-nil}
use mathlib.Core.Option
use gossveil.Fault.{ok}
use gossveil.Exec.{pure, ◌>>=◌, >>=-ok}
use gossveil.Dict.{Dict, lookup, insert, ◌==◌, text_key_eq, lookup-insert, keys, add, keys-insert}
use gossveil.Bridge.Call.{Platform}
use gossveil.Address.{ProtocolAddress, to_string}
use gossveil.Keys.{PublicKey}
use gossveil.Records.{SessionRecord, remote_registration_id}
use gossveil.ServiceId.{ServiceId, get_string}
use gossveil.Store.Memory.{
  MemoryStore, memory_identities, memory_sessions, get_existing_sessions, get_identity,
}
use gossveil.Sealed.Listing.{Device, Recipient}
use gossveil.Sealed.Send.{add_device, service_id, recipients_loop, recipients_of, values}

-- What one round of the loop adds.
pub record Round : Type 0 where
  pub key : Text
  pub id : ServiceId
  pub device : Device
  pub identity : PublicKey
  pub session : SessionRecord

-- The devices of the rounds with a key, in their order, and the first such round.
unfoldable pub devices_at : Text → List Round → List Device
devices_at k [] = []
devices_at k (r ∷ rounds) =
    if k == r.key then r.device ∷ devices_at k rounds else devices_at k rounds

unfoldable pub first_at : Text → List Round → Option Round
first_at k [] = none
first_at k (r ∷ rounds) = if k == r.key then some r else first_at k rounds

-- The recipient with a key.
unfoldable pub entry : Text → List Round → Option Recipient
unfolding devices_at first_at
entry k rounds =
    Option.map
      (λ (r : Round). record {
        service_id = r.id;
        devices = devices_at k rounds;
        identity_key = r.identity;
      })
      (first_at k rounds)

add_rounds : List Round → Dict Text Recipient → Dict Text Recipient
add_rounds [] d = d
add_rounds (r ∷ rounds) d = add_rounds rounds (add_device r.key r.id r.device r.identity d)

-- An entry of the map and the devices that join it.
abbrev joined : Recipient → List Device → Recipient
joined e devices = record e { devices = e.devices ++ devices }

-- The entry of a round's key after the round.
grown : Option Recipient → Round → Recipient
grown (some e) r = joined e (r.device ∷ [])
grown none r = record { service_id = r.id; devices = r.device ∷ []; identity_key = r.identity }

-- The entry of a key after the rounds.
grow : Text → List Round → Option Recipient → Option Recipient
unfolding grown
grow k [] o = o
grow k (r ∷ rounds) o = grow k rounds (if k == r.key then some (grown o r) else o)

add_device-grown :
    (r : Round) (d : Dict Text Recipient)
    → add_device r.key r.id r.device r.identity d ≡ insert r.key (grown (lookup r.key d) r) d
unfolding add_device grown
add_device-grown r d =
    elim (lookup r.key d)
      as (λ o.
        (elim o [
          | some e ↦ insert r.key (joined e (r.device ∷ [])) d
          | none ↦
              insert r.key
                (record { service_id = r.id; devices = r.device ∷ []; identity_key = r.identity }) d
        ])
        ≡ insert r.key (grown o r) d) [ some e ↦ refl | none ↦ refl ]

lookup-add_device :
    (k : Text) (r : Round) (d : Dict Text Recipient)
    → lookup k (add_device r.key r.id r.device r.identity d)
      ≡ (if k == r.key then some (grown (lookup k d) r) else lookup k d)
lookup-add_device k r d =
    rw (add_device-grown r d, lookup-insert r.key k (grown (lookup r.key d) r) d)
      (elim (Bool-cases (k == r.key)) [
        | inl h ↦ rw (h, sym ((text_key_eq.beq_iff k r.key).0 h)) refl
        | inr h ↦ rw h refl
      ])

lookup-add_rounds :
    (k : Text) (rounds : List Round) (d : Dict Text Recipient)
    → lookup k (add_rounds rounds d) ≡ grow k rounds (lookup k d)
unfolding add_rounds grow
lookup-add_rounds k [] d = refl
lookup-add_rounds k (r ∷ rounds) d =
    rw
      (
        lookup-add_rounds k rounds (add_device r.key r.id r.device r.identity d),
        lookup-add_device k r d,
      )
      refl

grow-some :
    (k : Text) (rounds : List Round) (e : Recipient)
    → grow k rounds (some e) ≡ some (joined e (devices_at k rounds))
unfolding grow grown devices_at
grow-some k [] e = ap (λ ds. some (record e { devices = ds })) (sym (append-nil e.devices))
grow-some k (r ∷ rounds) e = elim (Bool-cases (k == r.key)) [
  | inl h ↦ rw h (
      grow-some k rounds (joined e (r.device ∷ []))
      ∙ ap (λ ds. some (record e { devices = ds }))
          (append_assoc e.devices (r.device ∷ []) (devices_at k rounds)))
  | inr h ↦ rw h (grow-some k rounds e)
]

grow-none : (k : Text) (rounds : List Round) → grow k rounds none ≡ entry k rounds
unfolding grow grown entry devices_at first_at
grow-none k [] = refl
grow-none k (r ∷ rounds) = elim (Bool-cases (k == r.key)) [
  | inl h ↦ rw h (grow-some k rounds (grown none r))
  | inr h ↦ rw h (grow-none k rounds)
]

-- The set of the rounds' keys, which is in the order of its insertions.
unfoldable pub key_set : List Round → List Text → List Text
key_set [] seen = seen
key_set (r ∷ rounds) seen = key_set rounds (add r.key seen)

keys-add_device :
    (r : Round) (d : Dict Text Recipient)
    → keys (add_device r.key r.id r.device r.identity d) ≡ add r.key (keys d)
keys-add_device r d = rw (add_device-grown r d) (keys-insert r.key (grown (lookup r.key d) r) d)

keys-add_rounds :
    (rounds : List Round) (d : Dict Text Recipient)
    → keys (add_rounds rounds d) ≡ key_set rounds (keys d)
unfolding add_rounds key_set
keys-add_rounds [] d = refl
keys-add_rounds (r ∷ rounds) d =
    rw (keys-add_rounds rounds (add_device r.key r.id r.device r.identity d), keys-add_device r d)
      refl

module _ (p : Platform) (s : MemoryStore) (now_secs : ℕ) where
  -- The store has what the round of an address reads.
  pub record IsRound (a : ProtocolAddress) (r : Round) : Type 0 where
    pub named : service_id a ≡ some r.id
    pub known : lookup (to_string a) s.identities ≡ some r.identity
    pub open_session : lookup (to_string a) s.sessions ≡ some r.session
    pub registered : remote_registration_id p r.session now_secs ≡ ok r.device.registration_id
    pub printed : get_string r.id ≡ ok r.key
    pub same_device : r.device.device_id ≡ a.device_id

  unfoldable pub AreRounds : List ProtocolAddress → List Round → Type 0
  AreRounds [] [] = Unit {0}
  AreRounds [] (r ∷ rounds) = ⊥
  AreRounds (a ∷ as_left) [] = ⊥
  AreRounds (a ∷ as_left) (r ∷ rounds) = IsRound a r × AreRounds as_left rounds

  sessions_found :
      (as_left : List ProtocolAddress) (rounds : List Round)
      → AreRounds as_left rounds
      → get_existing_sessions as_left s ≡ (ok (map (λ (r : Round). r.session) rounds), s)
  unfolding get_existing_sessions AreRounds
  sessions_found [] [] h = refl
  sessions_found [] (r ∷ rounds) h = elim h [ ]
  sessions_found (a ∷ as_left) [] h = elim h [ ]
  sessions_found (a ∷ as_left) (r ∷ rounds) (h, hs) = rw h.open_session (
      >>=-ok (get_existing_sessions as_left) (λ rest. pure (r.session ∷ rest)) s
        (map (λ (r : Round). r.session) rounds) s (sessions_found as_left rounds hs))

  loop_end :
      (as_left : List ProtocolAddress) (rounds : List Round) (d : Dict Text Recipient)
      → AreRounds as_left rounds
      → recipients_loop p
          (memory_identities)
          as_left
          (map (λ (r : Round). r.session) rounds)
          now_secs
          d
          s
        ≡ (ok (add_rounds rounds d), s)
  unfolding recipients_loop add_rounds AreRounds get_identity
  loop_end [] [] d h = refl
  loop_end [] (r ∷ rounds) d h = elim h [ ]
  loop_end (a ∷ as_left) [] d h = elim h [ ]
  loop_end (a ∷ as_left) (r ∷ rounds) d (h, hs) =
      rw (h.named, h.known, h.registered, h.printed, sym h.same_device)
        (loop_end as_left rounds (add_device r.key r.id r.device r.identity d) hs)

  -- When the in-memory store has a session, an identity and a registration id for every address,
  -- and every name is a service id, then `recipientsOf` returns the values of a map and leaves the
  -- store as it is. The map's keys are the service ids, each once, in the order in which they first
  -- occur; at each of them stand the devices of its addresses, in their order, with the identity
  -- of the first.
  pub recipients_of-groups :
      (wanted : List ProtocolAddress) (rounds : List Round)
      → AreRounds wanted rounds
      → (d : Dict Text Recipient) × (recipients_of p memory_identities memory_sessions wanted
            now_secs s
          ≡ (ok (values d), s))
        × ((k : Text) → lookup k d ≡ entry k rounds)
        × (keys d ≡ key_set rounds [])
  unfolding recipients_of keys lookup
  recipients_of-groups wanted rounds h = (
    add_rounds rounds [],
    >>=-ok (get_existing_sessions wanted)
          (λ records.
            recipients_loop p memory_identities wanted records now_secs []
            >>= (λ d. pure (values d)))
          s _ s (sessions_found wanted rounds h)
        ∙ >>=-ok
            (recipients_loop p memory_identities wanted (map (λ (r : Round). r.session) rounds)
              now_secs [])
            (λ d. pure (values d)) s (add_rounds rounds []) s (loop_end wanted rounds [] h),
    (λ k. lookup-add_rounds k rounds [] ∙ grow-none k rounds),
    keys-add_rounds rounds [],
  )
