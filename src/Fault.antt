-- ===== src/Fault.antt =====
-- sdk/ts/src/core.ts: the statuses of the core, the error that carries one, and the result of
-- code that may throw it.
use gossveil.Base.{
  ℕ, String, List, [], ◌∷◌, Option, none, some, Text, if◌then◌else◌, ◌≡◌, refl, ◌⊎◌, inl, inr, ◌==◌,
}
use mathlib.Core.Option.{get_or}

-- The keys of the object `Status`.
pub data Status : Type 0 where
  ok_status invalid_argument invalid_state invalid_key invalid_signature invalid_message : Status
  invalid_key_id untrusted_identity session_not_found duplicate_message legacy_version : Status
  unrecognized_version out_of_memory verification_failed internal : Status

-- `Status[kind]`.
unfoldable pub status_code : Status → ℕ
status_code ok_status = 0
status_code invalid_argument = 1
status_code invalid_state = 2
status_code invalid_key = 3
status_code invalid_signature = 4
status_code invalid_message = 5
status_code invalid_key_id = 6
status_code untrusted_identity = 7
status_code session_not_found = 8
status_code duplicate_message = 9
status_code legacy_version = 10
status_code unrecognized_version = 11
status_code out_of_memory = 12
status_code verification_failed = 13
status_code internal = 14

-- The object `kinds`, as an association list.
abbrev kinds : List (ℕ × String)
kinds =
    (1, "InvalidArgument")
    ∷ (2, "InvalidState")
    ∷ (3, "InvalidKey")
    ∷ (4, "InvalidSignature")
    ∷ (5, "InvalidMessage")
    ∷ (6, "InvalidKeyIdentifier")
    ∷ (7, "UntrustedIdentity")
    ∷ (8, "SessionNotFound")
    ∷ (9, "DuplicatedMessage")
    ∷ (10, "LegacyCiphertextVersion")
    ∷ (11, "UnrecognizedMessageVersion")
    ∷ (12, "OutOfMemory")
    ∷ (13, "VerificationFailed")
    ∷ (14, "InternalError")
    ∷ []

find_kind : ℕ → List (ℕ × String) → Option String
find_kind status [] = none
find_kind status ((n, kind) ∷ rest) = if status == n then some kind else find_kind status rest

-- `kinds[status] ?? 'InternalError'`.
unfoldable pub kind_of : ℕ → String
unfolding find_kind
kind_of status = get_or (find_kind status kinds) "InternalError"

pub record GossveilError : Type 0 where
  pub status : ℕ
  pub kind : String
  pub message : Text

unfoldable pub fault : Status → Text → GossveilError
fault kind message = record {
  status = status_code kind;
  kind = kind_of (status_code kind);
  message = message;
}

pub data Result {ℓ} (A : Type ℓ) : Type ℓ where
  ok : A → Result A
  err : GossveilError → Result A

infixl 5 ◌>>=◌ ◌>>◌
abbrev pub ◌>>=◌ {ℓ κ} : {A : Type ℓ} {B : Type κ} → Result A → (A → Result B) → Result B
err thrown >>= next = err thrown
ok value >>= next = next value

abbrev pub ◌>>◌ {ℓ} : {B : Type ℓ} → Result (Unit {0}) → Result B → Result B
check >> next = check >>= λ _. next

-- To split on a computed result and keep the equation.
pub Result-cases {ℓ} :
    {A : Type ℓ} (r : Result A) → ((a : A) × (r ≡ ok a)) ⊎ ((e : GossveilError) × (r ≡ err e))
Result-cases (ok a) = inl (a, refl)
Result-cases (err e) = inr (e, refl)

abbrev pub IsOk {ℓ} : {A : Type ℓ} → Result A → Type 0
IsOk (ok a) = Unit
IsOk (err e) = ⊥
