-- ===== src/Tests/Data.antt =====
-- A platform whose calls all succeed, and a store, for the runs of the tests.
use gossveil.Base.{
  ℕ, ◌*◌, ◌≡◌, refl, ◌∙◌, List, [], ◌∷◌, Bytes, none, some, codes, true, if◌then◌else◌, ◌==◌,
  length, replicate,
}
use gossveil.Bridge.Call.{Platform, Arg, replied}
use gossveil.Bridge.Sessions.{SessionInfo}
use gossveil.Address.{ProtocolAddress, to_string}
use gossveil.Dict.{lookup-insert, beq_self, text_key_eq}
use gossveil.Messages.{WhisperMessage, PreKeyMessage}
use gossveil.Records.{PreKeyBundle}
use gossveil.Store.Memory.{MemoryStore, new_store}
use gossveil.Session.InMemory.{established, known}

-- Five arguments are those of `gv_content_parse`, whose kind is then that of a plaintext.
abbrev cell : List Arg → ℕ
cell args = if length args == 5 then 8 else 1

abbrev pub platform : Platform
platform = record {
  call = λ name args.
      replied (record { status = 0; outs = λ i. 5 ∷ 6 ∷ []; pads = λ i at. cell args });
  status_text = λ n. [];
  pointer = λ i. 1024 * i;
  decode = λ b. b;
  to_number = λ n. n;
}

abbrev pub alice : ProtocolAddress
alice = record { name = codes "alice"; device_id = 1 }

abbrev pub bob : ProtocolAddress
bob = record { name = codes "bob"; device_id = 2 }

-- The identity that the platform reports for every session.
abbrev pub peer_key : Bytes
peer_key = replicate 33 1

abbrev pub empty_store : MemoryStore
empty_store = new_store (record { public_key = 5 ∷ []; private_key = 9 ∷ [] }) 77

abbrev pub store : MemoryStore
store = established alice peer_key (4 ∷ []) empty_store

pub alice-known : known alice store ≡ some peer_key
alice-known =
    let k = to_string alice in
    lookup-insert k k peer_key empty_store.identities ∙ rw (beq_self k) refl

abbrev pub bundle : PreKeyBundle
bundle = record {
  registration_id = 7;
  device_id = 1;
  pre_key_id = some 3;
  pre_key = some (5 ∷ 1 ∷ []);
  signed_pre_key_id = 4;
  signed_pre_key = 5 ∷ 2 ∷ [];
  signed_pre_key_signature = 1 ∷ [];
  identity_key = peer_key;
  kyber_pre_key_id = 6;
  kyber_pre_key = 8 ∷ [];
  kyber_pre_key_signature = 2 ∷ [];
}

abbrev pub whisper : WhisperMessage
whisper = record {
  bytes = 1 ∷ [];
  info = record { version = 4; index = 0; previous_index = 0; ratchet = [] };
  body = [];
}

-- A first message that names no stored record but the signed prekey.
abbrev pub opener : PreKeyMessage
opener = record {
  bytes = 1 ∷ [];
  info = record {
    version = 4;
    registration_id = 7;
    one_time_id = none;
    signed_id = 4;
    pq_id = none;
    base = [];
    identity = peer_key;
  };
  inner = [];
}

abbrev pub signed_store : MemoryStore
signed_store = record store {
  signed_pre_keys =
      (
        4,
        record {
          bytes = 3 ∷ [];
          parsed = record { id = 4; stamp = 0; public_key = []; secret = []; signature = [] };
        },
      )
      ∷ [];
}

-- What the platform says of any session.
abbrev pub info : SessionInfo
info = record {
  has_live = true;
  can_send = true;
  usable = true;
  version = 16843009;
  local_registration_id = 16843009;
  remote_registration_id = 16843009;
  shelved = 16843009;
  local_identity = replicate 33 1;
  remote_identity = replicate 33 1;
  base = replicate 33 1;
}
