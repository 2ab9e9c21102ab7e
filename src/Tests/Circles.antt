-- ===== src/Tests/Circles.antt =====
-- A run of the theorem on the group functions of sdk/ts/src/wasm-api.ts.
use gossveil.Base.{◌≡◌, Text, [], ◌∷◌, codes, arith}
use gossveil.Dict.{lookup, text_key_eq}
use gossveil.Address.{sender_key_name}
use gossveil.Store.Memory.{memory_sender_keys}
use gossveil.Group.{group_encrypt, group_decrypt}
use gossveil.Wasm.Stores.{Stores}
use gossveil.Wasm.Groups.{encrypt_group_message, decrypt_group_message}
use gossveil.Wasm.Groups.Refinement.{as_note, NotEmpty, group_messages-refine}
use gossveil.Wasm.Sessions.View.{view, seen}
use gossveil.Tests.Data.{platform, alice}

abbrev unchanged : Text → Text
unchanged s = s

abbrev circle : Text
circle = codes "abababab-abab-abab-abab-abababababab"

-- The stores with a sender key for alice.
abbrev with_sender_key : Stores
with_sender_key = record {
  identities = record {
    identity = record { public_key = 5 ∷ []; private_key = 9 ∷ [] };
    registration_id = 77;
    known = [];
  };
  pre_keys = [];
  signed_pre_keys = [];
  kyber_pre_keys = record { records = []; used = [] };
  sessions = [];
  sender_keys = (sender_key_name unchanged alice circle, 4 ∷ []) ∷ [];
}

none-empty : (id : Text) → NotEmpty platform unchanged with_sender_key alice id
unfolding lookup
none-empty id e = ground (arith, e)

group_messages-refine_example :
    (seen
        (as_note platform unchanged with_sender_key)
        (encrypt_group_message platform unchanged alice circle (1 ∷ []) with_sender_key)
      ≡ group_encrypt platform
          (memory_sender_keys unchanged)
          alice
          circle
          (1 ∷ [])
          (view with_sender_key))
    × (seen
          (λ plain. plain)
          (decrypt_group_message platform unchanged alice (2 ∷ []) with_sender_key)
        ≡ group_decrypt platform
            (memory_sender_keys unchanged)
            alice
            (2 ∷ [])
            (view with_sender_key))
group_messages-refine_example =
    group_messages-refine platform unchanged with_sender_key alice circle (1 ∷ []) (2 ∷ [])
      none-empty
