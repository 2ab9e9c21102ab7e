-- ===== src/Tests/Delivery.antt =====
-- Runs of the theorems on groups.
use gossveil.Base.{◌≡◌, refl, [], ◌∷◌, map, Bytes, Text, codes, replicate}
use gossveil.Fault.{ok, err}
use gossveil.Bridge.Circles.{Note, circle_open, circle_admit, note_parse}
use gossveil.Uuid.{
  uuid_to_bytes, bytes_to_uuid, ascii_lower, strip_dashes, all_hex, hex_pairs, dashed, to_hex,
}
use mathlib.Core.Option
use gossveil.Messages.{SenderKeyDistributionMessage}
use gossveil.Store.Memory.{MemoryStore, memory_sender_keys}
use gossveil.Group.{process_distribution, group_decrypt, group_encrypt}
use gossveil.Group.InMemory.{
  chain, with_chain, NoteDecrypted, NoteSent, group_decrypt_outcome, group_encrypt_outcome,
}
use gossveil.Session.InMemory.{Outcome}
use gossveil.Group.Delivery.{group_decrypt-process_distribution}
use gossveil.Tests.Data.{platform, alice, store}

abbrev circle : Text
circle = codes "01010101-0101-0101-0101-010101010101"

abbrev circle_bytes : Bytes
circle_bytes = replicate 16 1

circle-read : uuid_to_bytes circle ≡ ok circle_bytes
unfolding uuid_to_bytes strip_dashes all_hex hex_pairs
circle-read = refl

circle-printed : bytes_to_uuid circle_bytes ≡ ok circle
unfolding bytes_to_uuid dashed to_hex
circle-printed = refl

abbrev announcement : SenderKeyDistributionMessage
announcement = record {
  bytes = 2 ∷ [];
  parsed = record {
    version = 4;
    circle_id = circle_bytes;
    chain_id = 1;
    step = 0;
    seed = [];
    signing = [];
  };
  distribution_id = circle;
}

-- What the platform parses of any note.
abbrev note : Note
note = record {
  version = 1;
  circle_id = circle_bytes;
  chain_id = 16843009;
  step = 16843009;
  body = 5 ∷ 6 ∷ [];
}

note-parsed : note_parse platform (7 ∷ []) ≡ ok note
unfolding note_parse
note-parsed = refl

admitted :
    circle_admit platform (Option.get_or (chain (map ascii_lower) alice store circle) []) (2 ∷ [])
    ≡ ok (5 ∷ 6 ∷ [])
unfolding circle_admit
admitted = refl

group_decrypt-process_distribution_example :
    group_decrypt platform
      (memory_sender_keys (map ascii_lower))
      alice
      (7 ∷ [])
      (process_distribution platform
        (memory_sender_keys (map ascii_lower))
        alice
        announcement
        store).1
    ≡ elim (circle_open platform (5 ∷ 6 ∷ []) (7 ∷ [])) [
      | err e ↦ (err e, with_chain (map ascii_lower) alice store circle (5 ∷ 6 ∷ []))
      | ok opened ↦
          (ok opened.plain, with_chain (map ascii_lower) alice store circle opened.record_bytes)
    ]
group_decrypt-process_distribution_example =
    group_decrypt-process_distribution (map ascii_lower) alice store platform platform announcement
      (7 ∷ []) (5 ∷ 6 ∷ []) note admitted note-parsed circle-printed

-- The sender has announced the circle before.
abbrev announced_store : MemoryStore
announced_store = with_chain (map ascii_lower) alice store circle (3 ∷ [])

group_decrypt_outcome_example :
    Outcome announced_store
      (NoteDecrypted (map ascii_lower) platform alice announced_store (7 ∷ []))
      (group_decrypt platform (memory_sender_keys (map ascii_lower)) alice (7 ∷ []) announced_store)
group_decrypt_outcome_example =
    group_decrypt_outcome (map ascii_lower) platform alice announced_store (7 ∷ [])

group_encrypt_outcome_example :
    Outcome announced_store
      (NoteSent (map ascii_lower) platform alice announced_store circle (7 ∷ []))
      (group_encrypt platform
        (memory_sender_keys (map ascii_lower))
        alice
        circle
        (7 ∷ [])
        announced_store)
group_encrypt_outcome_example =
    group_encrypt_outcome (map ascii_lower) platform alice announced_store circle (7 ∷ [])
