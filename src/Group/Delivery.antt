-- ===== src/Group/Delivery.antt =====
-- Several group operations on one in-memory store, of sdk/ts/src/api.ts.
use gossveil.Base.{
  ◌≡◌, ◌≢◌, refl, sym, ap, ◌∙◌, Bytes, Text, some, [], ◌⊎◌, inl, inr, Bool-cases, text_eq_iff, All,
  ◌<◌, map,
}
use mathlib.Core.Option
use gossveil.Fault.{Result, ok, err, Result-cases}
use gossveil.Dict.{text_key_eq, lookup-insert, beq_self, insert-insert, Dict, ◌==◌}
use gossveil.Bridge.Call.{Platform}
use gossveil.Bridge.Circles.{Note, circle_admit, circle_open, note_parse}
use gossveil.Uuid.{uuid_to_bytes, bytes_to_uuid, ascii_lower}
use gossveil.Address.{ProtocolAddress, sender_key_name}
use gossveil.Address.Keys.{sender_key_name-injective}
use gossveil.Messages.{SenderKeyDistributionMessage}
use gossveil.Store.Memory.{MemoryStore, memory_sender_keys}
use gossveil.Group.{process_distribution, group_decrypt}
use gossveil.Group.InMemory.{chain, with_chain, process_distribution-eq, group_decrypt-eq}

module _ (to_lower : Text → Text) (sender : ProtocolAddress) (s : MemoryStore) where
  chain-with_chain :
      (d : Text) (r : Bytes) → chain to_lower sender (with_chain to_lower sender s d r) d ≡ some r
  chain-with_chain d r =
      let k = sender_key_name to_lower sender d in
      lookup-insert k k r s.sender_keys ∙ rw (beq_self k) refl

  -- When the core admits an announcement and parses a note of the same circle, then decrypting the
  -- note after the announcement was processed opens it with the admitted record: an error of the
  -- core keeps that record, and a success replaces it by the advanced one.
  pub group_decrypt-process_distribution :
      (p q : Platform) (m : SenderKeyDistributionMessage) (message r : Bytes) (note : Note)
      → circle_admit p (Option.get_or (chain to_lower sender s m.distribution_id) []) m.bytes ≡ ok r
      → note_parse q message ≡ ok note
      → bytes_to_uuid note.circle_id ≡ ok m.distribution_id
      → group_decrypt q
          (memory_sender_keys to_lower)
          sender
          message
          (process_distribution p (memory_sender_keys to_lower) sender m s).1
        ≡ elim (circle_open q r message) [
          | err e ↦ (err e, with_chain to_lower sender s m.distribution_id r)
          | ok opened ↦
              (ok opened.plain, with_chain to_lower sender s m.distribution_id opened.record_bytes)
        ]
  group_decrypt-process_distribution p q m message r note admitted parsed circle =
      let d = m.distribution_id in
      let after = with_chain to_lower sender s d r in
      let saved : process_distribution p (memory_sender_keys to_lower) sender m s ≡ (ok tt, after) =
        process_distribution-eq to_lower p sender s m ∙ rw admitted refl in
      let run : (process_distribution p (memory_sender_keys to_lower) sender m s).1 ≡ after =
        ap (λ (t : Result (Unit {0}) × MemoryStore). t.1) saved in
      rw (run, group_decrypt-eq to_lower q sender after message, parsed)
        (rw circle (
          rw (chain-with_chain d r) (elim (Result-cases (circle_open q r message)) [
            | inr (f, e) ↦ rw e refl
            | inl (opened, e) ↦ rw e (again d r opened.record_bytes opened.plain)
          ])))
    where
      again :
          (d : Text) (r r' plain : Bytes)
          → ◌≡◌ {A = Result Bytes × MemoryStore}
              (ok plain, with_chain to_lower sender (with_chain to_lower sender s d r) d r')
              (ok plain, with_chain to_lower sender s d r')
      again d r r' plain =
          ap (λ (keys : Dict Text Bytes). (ok plain, record s { sender_keys = keys }))
            (insert-insert (sender_key_name to_lower sender d) r' r s.sender_keys)

module _ (to_lower : Text → Text)
    (on_ascii : (s : Text) → All (λ c. c < 128) s → to_lower s ≡ map ascii_lower s) where
  -- Where the lower case of ASCII text is the ASCII lower case: a record saved for a sender and a
  -- distribution id that is a UUID leaves the record of any other sender, and of any other UUID up
  -- to the case of its letters, as it was.
  pub chain-with_chain_ne :
      (a b : ProtocolAddress) (d d' : Text) (u u' r : Bytes) (s : MemoryStore)
      → uuid_to_bytes d ≡ ok u
      → uuid_to_bytes d' ≡ ok u'
      → (a ≢ b) ⊎ (map ascii_lower d ≢ map ascii_lower d')
      → chain to_lower b (with_chain to_lower a s d r) d' ≡ chain to_lower b s d'
  chain-with_chain_ne a b d d' u u' r s h h' ne =
      let k = sender_key_name to_lower a d in
      let k' = sender_key_name to_lower b d' in
      lookup-insert k k' r s.sender_keys ∙ elim (Bool-cases (k' == k)) [
        | inr other ↦ rw other refl
        | inl same ↦
            let e = (text_eq_iff k' k).0 same in
            let both = sender_key_name-injective to_lower on_ascii a b d d' u u' h h' (sym e) in
            absurd (elim ne [ inl n ↦ n both.0 | inr n ↦ n both.1 ])
      ]
