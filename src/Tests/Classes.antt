-- ===== src/Tests/Classes.antt =====
-- Runs of the theorems on the functions of sdk/ts/src/wasm-api.ts.
use gossveil.Base.{
  ℕ, ◌+◌, ◌*◌, ◌<◌, ◌≡◌, ◌≢◌, ◌↔◌, refl, ap, ◌∙◌, [], ◌∷◌, none, some, Option, true, replicate,
  Bytes, arith, subst, if◌then◌else◌, ltb, ◌==◌,
}
use gossveil.Fault.{Result, ok, err}
use gossveil.Dict.{lookup, insert, lookup-insert, beq_self, text_key_eq}
use gossveil.Address.{to_string}
use gossveil.Bridge.Call.{Platform, replied}
use gossveil.Bridge.Sessions.{OpenedFirst, opener_parse, session_open_first}
use gossveil.Session.InMemory.{encrypt, decrypt, decrypt_pre_key}
use gossveil.Wasm.Stores.{Stores}
use gossveil.Wasm.Sessions.{encrypt_message, decrypt_message}
use gossveil.Wasm.Sessions.View.{view, seen}
use gossveil.Wasm.Sessions.Refinement.{as_message, encrypt_message-refines, decrypt_message-refines}
use gossveil.Wasm.Sessions.Opener.{ConsumedFits, decrypt_opener-refines}
use gossveil.Wasm.Sessions.Prekeys.{FitsId}
use gossveil.Messages.{PreKeyMessage}
use gossveil.Wasm.Generate.{generate_pre_keys}
use gossveil.Wasm.Generate.Stored.{Generated, generate_pre_keys-Generated}
use gossveil.Bridge.Primitives.{random}
use gossveil.Wasm.Random.{candidate, accepted, generate_registration_id, generate_uuid}
use gossveil.Wasm.Random.Registration.{
  FirstInRange, accepted-IsUniform, generate_registration_id-first,
}
use gossveil.Wasm.Random.Version.{IsStamped, generate_uuid-IsVersion4}
use gossveil.Tests.Data.{platform, alice, bob, peer_key, whisper}

-- The stores with a session for alice and the signed prekey that the opener names.
abbrev stores : Stores
stores = record {
  identities = record {
    identity = record { public_key = 5 ∷ []; private_key = 9 ∷ [] };
    registration_id = 77;
    known = insert (to_string alice) peer_key [];
  };
  pre_keys = [];
  signed_pre_keys = (4, 3 ∷ []) ∷ [];
  kyber_pre_keys = record { records = []; used = [] };
  sessions = insert (to_string alice) (4 ∷ []) [];
  sender_keys = [];
}

stores-HasRecord : lookup (to_string alice) stores.sessions ≢ some []
stores-HasRecord e =
    let k = to_string alice in
    let found : lookup k stores.sessions ≡ some (4 ∷ []) =
      lookup-insert k k (4 ∷ []) [] ∙ rw (beq_self k) refl in
    ground (arith, e, found)

encrypt_message-refines_example :
    seen as_message (encrypt_message platform (1 ∷ []) alice bob 100 100 stores)
    ≡ encrypt platform (1 ∷ []) alice 100 (some bob) (view stores)
encrypt_message-refines_example =
    encrypt_message-refines platform alice 100 stores (1 ∷ []) bob stores-HasRecord

decrypt_message-refines_example :
    seen (λ plain. plain) (decrypt_message platform (1 ∷ []) 2 alice bob 100 stores)
    ≡ decrypt platform whisper alice 100 (some bob) (view stores)
decrypt_message-refines_example =
    decrypt_message-refines platform alice 100 stores whisper bob stores-HasRecord

generate_pre_keys-Generated_example :
    Generated 4294967295 0 2 stores (generate_pre_keys (λ i. platform) 4294967295 2 stores)
generate_pre_keys-Generated_example =
    generate_pre_keys-Generated (λ i. platform) 4294967295 2 stores (omega arith)

accepted-IsUniform_example :
    ((16391 < 65536) × (candidate 16391 ≡ 7) × (accepted 16391 ≡ true))
    ↔ ((j : ℕ) × (j < 4) × (16391 ≡ 7 + 16384 * j))
accepted-IsUniform_example = accepted-IsUniform 7 16391 (omega arith) (omega arith)

generate_registration_id-first_example :
    (generate_registration_id (0 ∷ 16391 ∷ []) ≡ some 7) ↔ FirstInRange (0 ∷ 16391 ∷ []) 7
generate_registration_id-first_example = generate_registration_id-first (0 ∷ 16391 ∷ []) 7

-- A platform that draws 16 bytes of 255.
abbrev drawing : Platform
drawing = record platform {
  call =
      λ name args. replied (record { status = 0; outs = λ i. replicate 16 255; pads = λ i at. 1 });
}

drawing-random : random drawing 16 ≡ ok (replicate 16 255)
unfolding random
drawing-random = refl

generate_uuid-IsVersion4_example :
    (id : Bytes) × (generate_uuid drawing ≡ ok id) × IsStamped (replicate 16 255) id
generate_uuid-IsVersion4_example =
    generate_uuid-IsVersion4 drawing (replicate 16 255) drawing-random refl

-- A platform on which a first message names the prekeys 3, 4 and 6 and consumes them.
abbrev byte_at : ℕ → ℕ
byte_at at =
    if at == 8
    then 3
    else if at == 16
    then 4
    else if at == 24
    then 6
    else if at == 0
    then 1
    else if ltb at 32
    then 0
    else 1

abbrev naming : Platform
naming = record platform {
  call = λ name args.
      replied (record { status = 0; outs = λ i. 5 ∷ 6 ∷ []; pads = λ i at. byte_at at });
}

abbrev named : PreKeyMessage
named = record {
  bytes = 1 ∷ [];
  info = record {
    version = 1;
    registration_id = 0;
    one_time_id = some 3;
    signed_id = 4;
    pq_id = some 6;
    base = replicate 33 1;
    identity = peer_key;
  };
  inner = 5 ∷ 6 ∷ [];
}

abbrev holding : Stores
holding = record stores {
  pre_keys = (3, 7 ∷ []) ∷ [];
  kyber_pre_keys = record { records = (6, 8 ∷ []) ∷ []; used = [] };
}

named-parsed : opener_parse naming named.bytes ≡ ok (named.info, named.inner)
unfolding opener_parse
named-parsed = refl

abbrev consumed_id : Result OpenedFirst → Option ℕ
consumed_id (ok opened) = opened.consumed.one_time_id
consumed_id (err e) = none

holding-ConsumedFits : ConsumedFits naming alice 100 holding bob named.bytes
unfolding session_open_first
holding-ConsumedFits signed one_time pq opened e =
    let fits : FitsId (some 3) = omega arith in subst FitsId (ap consumed_id e) fits

decrypt_opener-refines_example :
    seen (λ plain. plain) (decrypt_message naming (1 ∷ []) 3 alice bob 100 holding)
    ≡ decrypt_pre_key naming named alice 100 (some bob) (view holding)
decrypt_opener-refines_example =
    decrypt_opener-refines naming alice 100 holding bob named named-parsed (omega arith)
      (omega arith) (omega arith) holding-ConsumedFits
