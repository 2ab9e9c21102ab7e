-- ===== src/Async/Run/Bounded.antt =====
-- How many turns the operations of sdk/ts/src/api.ts take.
use gossveil.Base.{
  ℕ, zero, suc, ◌+◌, ◌≤◌, ◌<◌, ◌≡◌, refl, ap, subst, List, [], ◌∷◌, length, All, arith, Bytes,
  Option, none, some, Bool, true, false, if◌then◌else◌,
}
use mathlib.Core.Option
use gossveil.Fault.{Result, ok, err, GossveilError}
use gossveil.Exec.{Exec}
use gossveil.Async.{Task, ended, awaits, await, ◌>>=◌, unless, or_throw}
use gossveil.Bridge.Call.{Platform}
use gossveil.Bridge.Sessions.{Consumed}
use gossveil.Address.{ProtocolAddress}
use gossveil.Messages.{PreKeyMessage, WhisperMessage}
use gossveil.Session.Awaits.{
  process_bundle_task, session_encrypt_task, commit_task, session_decrypt_task, one_time_bytes_task,
  open_with_records_task, pq_bytes_task, remove_consumed_task, mark_consumed_task, settle_task,
  session_decrypt_pre_key_task,
}
use gossveil.Group.Awaits.{
  create_distribution_task, process_distribution_task, group_encrypt_task, group_decrypt_task,
}
use gossveil.Async.Operations.{
  Host, Operation, task, starts, encrypts, decrypts, decrypts_first, announces, admits, notes,
  reads_note,
}
use gossveil.Async.Run.{
  IsEnded, run_calls, turns_of, EndsWithin, EndsWithin-mono, run_calls-IsEnded, begin,
}

module _ {S A B : Type 0} (f : A → Task S B) where
  ended_bound :
      (n : ℕ) (r : Result A) → ((a : A) → EndsWithin n (f a)) → EndsWithin n (ended r >>= f)
  unfolding ◌>>=◌ EndsWithin
  ended_bound n (ok a) h = h a
  ended_bound n (err e) h = tt

  await_bound :
      (n : ℕ) (m : Exec S A) → ((a : A) → EndsWithin n (f a)) → EndsWithin (suc n) (await m >>= f)
  unfolding ◌>>=◌ EndsWithin
  await_bound n m h = λ s. ended_bound n (m s).0 h

  throw_bound :
      (n : ℕ) (o : Option A) (e : GossveilError)
      → ((a : A) → EndsWithin n (f a))
      → EndsWithin n (or_throw o e >>= f)
  throw_bound n none e h = ended_bound n (err e) h
  throw_bound n (some a) e h = ended_bound n (ok a) h

  part_bound :
      (m n : ℕ) (t : Task S A)
      → EndsWithin m t
      → ((a : A) → EndsWithin n (f a))
      → EndsWithin (m + n) (t >>= f)
  unfolding ◌>>=◌ EndsWithin
  part_bound m n (ended r) h rest =
      EndsWithin-mono n (m + n) (ended r >>= f) (omega arith) (ended_bound n r rest)
  part_bound zero n (awaits effect k) h rest = elim h [ ]
  part_bound (suc m) n (awaits effect k) h rest =
      let e : suc (m + n) ≡ suc m + n = omega arith in
      subst (λ i. EndsWithin i (awaits effect k >>= f)) e (λ s. part_bound m n (k s) (h s) rest)

unless_bound :
    {S B : Type 0} (f : Unit {0} → Task S B) (n : ℕ) (test : Bool) (e : GossveilError)
    → ((a : Unit {0}) → EndsWithin n (f a))
    → EndsWithin n (unless test e >>= f)
unless_bound f n true e h = ended_bound f n (ok tt) h
unless_bound f n false e h = ended_bound f n (err e) h

last_bound : {S A : Type 0} (m : Exec S A) → EndsWithin 1 (await m)
unfolding EndsWithin
last_bound m = λ s. tt

end_bound : (S : Type 0) {A : Type 0} (r : Result A) → EndsWithin {S = S} 0 (ended r)
unfolding EndsWithin
end_bound S r = tt

if_bound :
    {S A : Type 0} (n : ℕ) (test : Bool) (t : Task S A) (r : Result A)
    → EndsWithin n t
    → EndsWithin n (if test then t else ended r)
unfolding EndsWithin
if_bound n true t r h = h
if_bound n false t r h = tt

ruleset bounds = (await_bound, unless_bound, throw_bound, ended_bound, last_bound, end_bound)

module _ {S : Type 0} (h : Host S) (p : Platform) where
  commit_bound :
      (session : Bytes) (a : ProtocolAddress) (now : ℕ)
      → EndsWithin 3 (commit_task p h.sessions h.identities session a now)
  unfolding commit_task
  commit_bound session a now = search bounds depth 20

  remove_bound :
      (id : Option ℕ) → EndsWithin 1 (remove_consumed_task h.pre_keys h.kyber_pre_keys id)
  unfolding remove_consumed_task EndsWithin
  remove_bound none = tt
  remove_bound (some id) = λ s. tt

  mark_bound :
      (id : Option ℕ) (consumed : Consumed)
      → EndsWithin 1 (mark_consumed_task h.pre_keys h.kyber_pre_keys id consumed)
  unfolding mark_consumed_task EndsWithin
  mark_bound none consumed = tt
  mark_bound (some id) consumed = λ s. tt

  settle_bound :
      (pq_id : Option ℕ) (consumed : Consumed)
      → EndsWithin 2 (settle_task h.pre_keys h.kyber_pre_keys pq_id consumed)
  unfolding settle_task
  settle_bound pq_id consumed =
      if_bound 2 consumed.used _ (ok tt)
        (part_bound _ 1 1 _ (remove_bound consumed.one_time_id) λ _. mark_bound pq_id consumed)

  module _ (m : PreKeyMessage) (a : ProtocolAddress) (now : ℕ)
      (local : Option ProtocolAddress) where
    opened_bound :
        (identity : Bytes) (id : ℕ) (existing signed one_time pq : Bytes)
        → EndsWithin 5 (
            open_with_records_task p h.sessions h.identities h.pre_keys h.signed_pre_keys
              h.kyber_pre_keys m a now local identity id existing signed one_time pq)
    unfolding open_with_records_task
    opened_bound identity id existing signed one_time pq = ended_bound _ 5 _ λ opened.
        part_bound _ 3 2 _ (commit_bound opened.record_bytes a now)
          λ _. part_bound _ 2 0 _ (settle_bound m.info.pq_id opened.consumed) λ _. end_bound S _

    one_time_bound :
        (id : Option ℕ) → EndsWithin 1 (one_time_bytes_task h.pre_keys h.kyber_pre_keys id)
    unfolding one_time_bytes_task EndsWithin
    one_time_bound none = tt
    one_time_bound (some id) = await_bound _ 0 _ λ r. tt

    pq_bound : (id : Option ℕ) → EndsWithin 1 (pq_bytes_task h.pre_keys h.kyber_pre_keys id)
    unfolding pq_bytes_task EndsWithin
    pq_bound none = tt
    pq_bound (some id) = await_bound _ 0 _ λ r. tt

    decrypt_first_bound : EndsWithin 12 (task h p (decrypts_first m a now local))
    unfolding task session_decrypt_pre_key_task
    decrypt_first_bound = await_bound _ 11 _ λ trusted. unless_bound _ 11 trusted _ λ _.
        await_bound _ 10 _ λ identity. await_bound _ 9 _ λ id. await_bound _ 8 _ λ existing.
          await_bound _ 7 _ λ signed.
            part_bound _ 1 6 _ (one_time_bound m.info.one_time_id) λ one_time.
              part_bound _ 1 5 _ (pq_bound m.info.pq_id)
                λ pq. opened_bound identity id (Option.get_or existing []) signed.bytes one_time pq

  decrypt_bound :
      (m : WhisperMessage) (a : ProtocolAddress) (now : ℕ) (local : Option ProtocolAddress)
      → EndsWithin 4 (task h p (decrypts m a now local))
  unfolding task session_decrypt_task
  decrypt_bound m a now local = await_bound _ 3 _ λ found. throw_bound _ 3 found _ λ session.
      ended_bound _ 3 _
        λ opened. part_bound _ 3 0 _ (commit_bound opened.record_bytes a now) λ _. end_bound S _

  pub task_bound : (o : Operation) → EndsWithin 12 (task h p o)
  unfolding task process_bundle_task session_encrypt_task create_distribution_task
      process_distribution_task group_encrypt_task group_decrypt_task
  task_bound (starts b a now) = EndsWithin-mono 6 12 _ (omega arith) (search bounds depth 20)
  task_bound (encrypts m a now local) =
      EndsWithin-mono 3 12 _ (omega arith) (search bounds depth 20)
  task_bound (decrypts m a now local) =
      EndsWithin-mono 4 12 _ (omega arith) (decrypt_bound m a now local)
  task_bound (decrypts_first m a now local) = decrypt_first_bound m a now local
  task_bound (announces a id) = EndsWithin-mono 2 12 _ (omega arith) (search bounds depth 20)
  task_bound (admits a m) = EndsWithin-mono 2 12 _ (omega arith) (search bounds depth 20)
  task_bound (notes a id m) = EndsWithin-mono 2 12 _ (omega arith) (search bounds depth 20)
  task_bound (reads_note a m) = EndsWithin-mono 2 12 _ (omega arith) (search bounds depth 20)

begun_bound :
    {S : Type 0} (h : Host S) (ops : List (Platform × Operation))
    → All (λ c. EndsWithin 12 c.rest) (begin h ops)
unfolding begin
begun_bound h [] = tt
begun_bound h ((p, o) ∷ ops) = (task_bound h p o, begun_bound h ops)

length-begin :
    {S : Type 0} (h : Host S) (ops : List (Platform × Operation))
    → length (begin h ops) ≡ length ops
unfolding begin
length-begin h [] = refl
length-begin h ((p, o) ∷ ops) = ap suc (length-begin h ops)

-- Any calls of the operations on sessions and groups may overlap, for the same addresses too, and
-- fail or succeed: a schedule that gives each of them twelve turns brings each of them to its end.
pub begun-IsEnded :
    {S : Type 0} (h : Host S) (ops : List (Platform × Operation)) (schedule : List ℕ) (s : S)
    → ((i : ℕ) → i < length ops → 12 ≤ turns_of i schedule)
    → All (λ c. IsEnded c.rest) (run_calls schedule (begin h ops) s).0
begun-IsEnded h ops schedule s enough =
    run_calls-IsEnded 12 schedule (begin h ops) s (begun_bound h ops)
      (λ i lt. enough i (subst (λ n. i < n) (length-begin h ops) lt))
