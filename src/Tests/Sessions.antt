-- ===== src/Tests/Sessions.antt =====
-- Runs of the theorems on sessions and sealed messages.
use gossveil.Base.{ℕ, ◌≡◌, ◌≢◌, ap, [], ◌∷◌, none, some, arith}
use gossveil.Address.{ProtocolAddress}
use gossveil.Store.Memory.{MemoryStore}
use gossveil.Session.InMemory.{start, encrypt, decrypt, decrypt_pre_key, Outcome}
use gossveil.Session.InMemory.Outcomes.{
  Started, Decrypted, Encrypted, start_outcome, decrypt_outcome, encrypt_outcome,
}
use gossveil.Session.InMemory.PreKey.{FirstDecrypted, decrypt_pre_key_outcome}
use gossveil.Session.Trust.{
  starts, encrypts, decrypts, decrypts_first, Reach, here, next, IsPinned, Reach-IsPinned,
}
use gossveil.Session.Frame.{Consumes, decrypt_pre_key-Consumes}
use gossveil.Tests.Data.{
  platform, alice, bob, peer_key, store, signed_store, bundle, whisper, opener, alice-known,
}

-- A start, a message sent, one received, and a first message.
abbrev after : MemoryStore
after =
    (decrypt_pre_key platform opener alice 103 none
      (decrypt platform whisper alice 102 (some bob)
        (encrypt platform (1 ∷ []) alice 101 (some bob)
          (start platform bundle alice 100 store).1).1).1).1

run : Reach store after
run =
    next
      (next
        (next (next here (starts platform bundle alice 100))
          (encrypts platform (1 ∷ []) alice 101 (some bob)))
        (decrypts platform whisper alice 102 (some bob)))
      (decrypts_first platform opener alice 103 none)

Reach-IsPinned_example : IsPinned alice peer_key after
Reach-IsPinned_example = Reach-IsPinned alice peer_key {s = store} {t = after} alice-known run

start_outcome_example :
    Outcome store (Started platform alice 100 store bundle) (start platform bundle alice 100 store)
start_outcome_example = start_outcome platform alice 100 store bundle

encrypt_outcome_example :
    Outcome store
      (Encrypted platform alice 100 store (1 ∷ []) (some bob))
      (encrypt platform (1 ∷ []) alice 100 (some bob) store)
encrypt_outcome_example = encrypt_outcome platform alice 100 store (1 ∷ []) (some bob)

decrypt_outcome_example :
    Outcome store
      (Decrypted platform alice 100 store whisper (some bob))
      (decrypt platform whisper alice 100 (some bob) store)
decrypt_outcome_example = decrypt_outcome platform alice 100 store whisper (some bob)

decrypt_pre_key_outcome_example :
    Outcome signed_store
      (FirstDecrypted platform alice 100 signed_store opener none)
      (decrypt_pre_key platform opener alice 100 none signed_store)
decrypt_pre_key_outcome_example =
    decrypt_pre_key_outcome platform alice 100 signed_store opener none

decrypt_pre_key-Consumes_example :
    Consumes signed_store 3 (decrypt_pre_key platform opener alice 100 none signed_store)
decrypt_pre_key-Consumes_example =
    decrypt_pre_key-Consumes platform opener alice 100 none signed_store 3

abbrev started_store : MemoryStore
started_store = (start platform bundle alice 100 store).1

bob-ne-alice : bob ≢ alice
bob-ne-alice e =
    let h : ◌≡◌ {A = ℕ} 2 1 = ap (λ (a : ProtocolAddress). a.device_id) e in absurd (omega arith)
