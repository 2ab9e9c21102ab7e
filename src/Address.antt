-- ===== src/Address.antt =====
-- `ProtocolAddress` of sdk/ts/src/api.ts, `WasmProtocolAddress` of sdk/ts/src/wasm-api.ts, and the
-- keys under which the in-memory stores of both files keep records.
pub mod Keys
use gossveil.Base.{
  ℕ, ◌≡◌, Bool, true, false, List, [], ◌∷◌, ◌++◌, Text, codes, ◌==◌, if◌then◌else◌, length,
  to_uint32, decimal,
}
use gossveil.Fault.{
  Result, ok, err, GossveilError, fault, invalid_argument, untrusted_identity, session_not_found,
}

pub record ProtocolAddress : Type 0 where
  pub name : Text
  pub device_id : ℕ

empty_name : GossveilError
empty_name = fault invalid_argument (codes "empty address name")

zero_device : GossveilError
zero_device = fault invalid_argument (codes "device id must not be zero")

-- The constructor of `ProtocolAddress`: the test on the device id comes before `>>> 0`.
unfoldable pub new_address : Text → ℕ → Result ProtocolAddress
unfolding empty_name zero_device
new_address name device_id =
    if length name == 0
    then err empty_name
    else if device_id == 0
    then err zero_device
    else ok (record { name = name; device_id = to_uint32 device_id })

-- The constructor of `WasmProtocolAddress` makes no test on the device id.
unfoldable pub new_wasm_address : Text → ℕ → Result ProtocolAddress
unfolding empty_name
new_wasm_address name device_id =
    if length name == 0
    then err empty_name
    else ok (record { name = name; device_id = to_uint32 device_id })

unfoldable pub to_string : ProtocolAddress → Text
to_string a = a.name ++ b'.' ∷ decimal a.device_id

-- `senderKeyName`, and `WasmInMemSenderKeyStore.key`: `to_lower` is the runtime's `toLowerCase`.
unfoldable pub sender_key_name : (Text → Text) → ProtocolAddress → Text → Text
unfolding to_string
sender_key_name to_lower sender distribution_id =
    to_string sender ++ b'|' ∷ to_lower distribution_id

unfoldable pub untrusted : ProtocolAddress → GossveilError
untrusted a = fault untrusted_identity (codes "untrusted identity for " ++ to_string a)

unfoldable pub no_session : ProtocolAddress → GossveilError
no_session a = fault session_not_found (codes "no session for " ++ to_string a)
