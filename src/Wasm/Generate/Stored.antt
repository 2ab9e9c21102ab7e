-- ===== src/Wasm/Generate/Stored.antt =====
-- `generatePreKeys` of sdk/ts/src/wasm-api.ts: what it leaves in the prekey store.
use gossveil.Base.{
  ℕ, zero, suc, ◌+◌, ◌^◌, ◌≤◌, ◌<◌, ◌≡◌, ◌≢◌, refl, sym, ap, ◌∙◌, subst, List, [], ◌∷◌, some, inl,
  inr, arith, to_uint32, Bytes, length,
}
use gossveil.Fault.{Result, ok, err, Result-cases}
use gossveil.Dict.{lookup, insert, nat_eq, lookup-insert}
use gossveil.Bridge.Call.{Platform}
use gossveil.Bridge.Keys.{one_time_record, one_time_parse, curve_pair}
use gossveil.Wasm.Keys.{PublishedKey, pre_key_from_record}
use gossveil.Wasm.Stores.{Stores, import_pre_key, put_record}
use gossveil.Wasm.Generate.{generate_pre_key, pre_keys_from, generate_pre_keys}

abbrev with_pre_key : ℕ → Bytes → Stores → Stores
with_pre_key id r w = record w { pre_keys = insert id r w.pre_keys }

-- One round throws and changes nothing, or imports the record of the key that it returns.
abbrev Round : ℕ → Stores → Result PublishedKey × Stores → Type 0
Round id w (err e, w') = w' ≡ w
Round id w (ok key, w') = w' ≡ with_pre_key id key.record_bytes w

generate_pre_key-eq :
    (p : Platform) (id : ℕ) (w : Stores)
    → generate_pre_key p id w ≡ (elim (curve_pair p) [
      | err e ↦ (err e, w)
      | ok pair ↦ elim (one_time_record p id pair.secret) [
        | err e ↦ (err e, w)
        | ok r ↦ elim (one_time_parse p r) [
          | err e ↦ (err e, w)
          | ok parsed ↦ (
            ok (record { id = parsed.id; public_key = parsed.public_key; record_bytes = r }),
            with_pre_key (to_uint32 id) r w,
          )
        ]
      ]
    ])
unfolding generate_pre_key import_pre_key put_record pre_key_from_record
generate_pre_key-eq p id w = ground arith

Round-end : (p : Platform) (id : ℕ) (w : Stores) → Round (to_uint32 id) w (generate_pre_key p id w)
Round-end p id w = rw generate_pre_key-eq (elim (Result-cases (curve_pair p)) [
  | inr (f, e) ↦ rw e refl
  | inl (pair, e) ↦ rw e (elim (Result-cases (one_time_record p id pair.secret)) [
    | inr (f, e') ↦ rw e' refl
    | inl (r, e') ↦ rw e' (elim (Result-cases (one_time_parse p r)) [
      | inr (f, e2) ↦ rw e2 refl
      | inl (parsed, e2) ↦ rw e2 refl
    ])
  ])
])

wrapped-Round :
    (p : Platform) (n : ℕ) (w : Stores) → Round (to_uint32 n) w (generate_pre_key p (to_uint32 n) w)
wrapped-Round p n w =
    subst (λ id. Round id w (generate_pre_key p (to_uint32 n) w)) (omega arith)
      (Round-end p (to_uint32 n) w)

-- `j` is none of the ids of the rounds from `i` on.
abbrev pub Outside : ℕ → ℕ → ℕ → ℕ → Type 0
Outside start_id i left j = (k : ℕ) → k < left → j ≢ to_uint32 (start_id + (i + k))

-- The store as it was, but for the prekeys of the ids of these rounds.
abbrev pub Untouched : ℕ → ℕ → ℕ → Stores → Stores → Type 0
Untouched start_id i left w w' =
    (w' ≡ record w { pre_keys = w'.pre_keys })
    × ((j : ℕ) → Outside start_id i left j → lookup j w'.pre_keys ≡ lookup j w.pre_keys)

-- The record of every key is found under the id of its round.
abbrev pub Stored : ℕ → ℕ → List PublishedKey → Stores → Type 0
Stored start_id i [] w = Unit
Stored start_id i (key ∷ keys) w =
    (lookup (to_uint32 (start_id + i)) w.pre_keys ≡ some key.record_bytes)
    × Stored start_id (suc i) keys w

abbrev pub Generated : ℕ → ℕ → ℕ → Stores → Result (List PublishedKey) × Stores → Type 0
Generated start_id i left w (err e, w') = Untouched start_id i left w w'
Generated start_id i left w (ok keys, w') =
    (length keys ≡ left) × Stored start_id i keys w' × Untouched start_id i left w w'

-- The ids of different rounds differ.
fresh :
    (start_id i left : ℕ)
    → suc left ≤ 2 ^ 32
    → Outside start_id (suc i) left (to_uint32 (start_id + i))
fresh start_id i left bound k below e = omega (arith, e)

-- A later round's ids are ids of the rounds from `i` on.
Outside-later :
    (start_id i left j : ℕ) → Outside start_id i (suc left) j → Outside start_id (suc i) left j
Outside-later start_id i left j outside k below e = outside (suc k) (omega arith) (omega (arith, e))

Untouched-later :
    (start_id i left : ℕ) (r : Bytes) (w w' : Stores)
    → Untouched start_id (suc i) left (with_pre_key (to_uint32 (start_id + i)) r w) w'
    → Untouched start_id i (suc left) w w'
Untouched-later start_id i left r w w' (same, frame) = (
  same,
  λ j outside.
      let differs : j ≢ to_uint32 (start_id + i) =
        λ e. outside 0 (omega arith) (omega (arith, e)) in
      frame j (Outside-later start_id i left j outside)
      ∙ lookup-insert (to_uint32 (start_id + i)) j r w.pre_keys
      ∙ ground (arith, differs),
)

abbrev prepend :
    PublishedKey → Result (List PublishedKey) × Stores → Result (List PublishedKey) × Stores
prepend key (ok rest, w) = (ok (key ∷ rest), w)
prepend key (err e, w) = (err e, w)

one_more :
    (start_id i left : ℕ) (key : PublishedKey) (w : Stores)
    (t : Result (List PublishedKey) × Stores)
    → suc left ≤ 2 ^ 32
    → Generated start_id (suc i) left (with_pre_key (to_uint32 (start_id + i)) key.record_bytes w) t
    → Generated start_id i (suc left) w (prepend key t)
one_more start_id i left key w (err e, w') bound h =
    Untouched-later start_id i left key.record_bytes w w' h
one_more start_id i left key w (ok keys, w') bound (len, stored, (same, frame)) = (
  ap suc len,
  (
    frame (to_uint32 (start_id + i)) (fresh start_id i left bound)
        ∙ lookup-insert (to_uint32 (start_id + i)) (to_uint32 (start_id + i)) key.record_bytes
            w.pre_keys
        ∙ ground (arith),
    stored,
  ),
  Untouched-later start_id i left key.record_bytes w w' (same, frame),
)

Untouched-self : (start_id i left : ℕ) (w w' : Stores) → w' ≡ w → Untouched start_id i left w w'
Untouched-self start_id i left w w' e =
    subst (Untouched start_id i left w) (sym e) (refl, λ j outside. refl)

-- The rounds that follow, if the first one did not throw.
rounds_after :
    (ps : ℕ → Platform) (start_id i left : ℕ)
    → Result PublishedKey × Stores
    → Result (List PublishedKey) × Stores
rounds_after ps start_id i left (err e, w) = (err e, w)
rounds_after ps start_id i left (ok key, w) = prepend key (pre_keys_from ps start_id (suc i) left w)

pre_keys_from-eq :
    (ps : ℕ → Platform) (start_id i left : ℕ) (w : Stores)
    → pre_keys_from ps start_id i (suc left) w
      ≡ rounds_after ps start_id i left (generate_pre_key (ps i) (to_uint32 (start_id + i)) w)
unfolding pre_keys_from rounds_after
pre_keys_from-eq ps start_id i left w = ground arith

after-Round :
    (ps : ℕ → Platform) (start_id i left : ℕ) (w : Stores) (t : Result PublishedKey × Stores)
    → suc left ≤ 2 ^ 32
    → Round (to_uint32 (start_id + i)) w t
    → ((v : Stores) → Generated start_id (suc i) left v (pre_keys_from ps start_id (suc i) left v))
    → Generated start_id i (suc left) w (rounds_after ps start_id i left t)
unfolding rounds_after
after-Round ps start_id i left w (err e, w') bound h later =
    Untouched-self start_id i (suc left) w w' h
after-Round ps start_id i left w (ok key, w') bound h later =
    subst
      (λ v.
        Generated start_id i (suc left) w (prepend key (pre_keys_from ps start_id (suc i) left v)))
      (sym h) (one_more start_id i left key w _ bound (later _))

pre_keys_from-Generated :
    (ps : ℕ → Platform) (start_id i left : ℕ) (w : Stores)
    → left ≤ 2 ^ 32
    → Generated start_id i left w (pre_keys_from ps start_id i left w)
unfolding pre_keys_from
pre_keys_from-Generated ps start_id i zero w bound = (refl, tt, (refl, λ j outside. refl))
pre_keys_from-Generated ps start_id i (suc left) w bound = rw pre_keys_from-eq (
    after-Round ps start_id i left w _ bound (wrapped-Round (ps i) (start_id + i) w)
      (λ v. pre_keys_from-Generated ps start_id (suc i) left v (omega arith)))

-- `generatePreKeys` returns `count` keys, and the store then has the record of key number `i` under
-- the id `start_id + i`, reduced to 32 bits, for a count of at most 2 ^ 32. Whether it returns or
-- throws, all else in the stores is as it was.
pub generate_pre_keys-Generated :
    (ps : ℕ → Platform) (start_id count : ℕ) (w : Stores)
    → count ≤ 2 ^ 32
    → Generated start_id 0 count w (generate_pre_keys ps start_id count w)
unfolding generate_pre_keys
generate_pre_keys-Generated ps start_id count w bound =
    pre_keys_from-Generated ps start_id 0 count w bound
