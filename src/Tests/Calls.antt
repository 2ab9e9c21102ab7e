-- ===== src/Tests/Calls.antt =====
-- Runs of the theorems on the calls of the core and on its loading.
use gossveil.Base.{
  ℕ, ◌+◌, ◌*◌, ◌≡◌, refl, ap, [], ◌∷◌, List, some, none, Option, All, subst, codes, length, ◌++◌,
  ◌≢◌, inr, arith,
}
use gossveil.Fault.{Result, ok, err}
use gossveil.Bridge.Call.{Platform, replied}
use gossveil.Bridge.Handles.{handle_candidates}
use gossveil.Bridge.Handles.Lines.{handle_candidates-joined}
use gossveil.Bridge.Memory.{
  Heap, Core, Building, Request, input, number, region, output, started, build, run_call, add_arg,
  reserve,
}
use gossveil.Bridge.Memory.Calls.{RunEnd, CallEnd, run_call-frees}
use gossveil.Bridge.Memory.Ledger.{count, held, buffers}
use gossveil.Loading.{Ref, Awaited, of_module, Loader, begin_init, end_init, init_sync, fill_random}
use gossveil.Loading.Random.{Tiles, fill_random-Tiles}
use gossveil.Loading.Ready.{
  IsReady, Reaches, here, after, begins, ends, runs_sync, at_once, reaches-IsReady,
}
use gossveil.Tests.Data.{platform}

-- An allocator that never gives the same region twice, and an export that allocates a buffer of three
-- bytes and describes it in its output cell.
abbrev core : Core
core = record {
  alloc = λ h n. 1024 + 16 * length h;
  run = λ name args h. (ok (record { status = 5; written = (4096, 3) ∷ [] }), (4096, 3) ∷ h);
}

abbrev requests : List Request
requests = input 3 ∷ number 7 ∷ output ∷ region 8 ∷ []

-- The claim on the export for whatever was built.
abbrev ExportEnd : Result Building × Heap → Type 0
ExportEnd (ok b, h) = RunEnd b h (core.run "gv_test" b.args h)
ExportEnd (err e, h) = Unit

built_end : ExportEnd (build core requests started [])
unfolding build add_arg reserve count held buffers
built_end r = omega arith

core-RunEnd :
    (b : Building) (h : Heap)
    → build core requests started [] ≡ (ok b, h)
    → RunEnd b h (core.run "gv_test" b.args h)
core-RunEnd b h e = subst ExportEnd e built_end

run_call-frees_example :
    CallEnd {T = ℕ} core
      (λ n. ok tt)
      "gv_test"
      (λ a. ok a.status)
      requests
      []
      (build core requests started [])
      (run_call core (λ n. ok tt) "gv_test" requests (λ a. ok a.status) [])
run_call-frees_example =
    run_call-frees core (λ n. ok tt) "gv_test" (λ a. ok a.status) requests [] core-RunEnd

fill_random-Tiles_example :
    (fill_random 2 70000 ≡ none)
    × ((requests : List (ℕ × ℕ)) × (fill_random 3 70000 ≡ some requests)
        × Tiles 0 70000 requests
        × (length requests ≡ 2))
fill_random-Tiles_example = fill_random-Tiles 70000

-- Two calls of `init` overlap.
abbrev first_adopted : Loader
first_adopted = record { exports = some 1; waiting = 1 }

abbrev second_adopted : Loader
second_adopted = record { exports = some 2; waiting = 0 }

abbrev second_answers : List (Option (Awaited Ref))
second_answers = some (inr 2) ∷ some (inr 2) ∷ []

-- The second ends, which replaces the instance, and then `initSync` is called.
second_ends : Reaches first_adopted second_answers second_adopted
unfolding end_init init_sync
second_ends =
    after _ _ _ _ _ (ends first_adopted (inr 2) (λ e. absurd (omega (arith, e))))
      (after _ _ _ _ _ (runs_sync second_adopted inr inr (of_module 3)) (here second_adopted))

-- Once no call is under way, the answers are those of the one instance.
abbrev later_answers : List (Option (Awaited Ref))
later_answers = some (inr 2) ∷ some (inr 2) ∷ []

later_calls : Reaches second_adopted later_answers second_adopted
unfolding begin_init init_sync at_once
later_calls =
    after _ _ _ _ _ (begins second_adopted)
      (after _ _ _ _ _ (runs_sync second_adopted inr inr (of_module 3)) (here second_adopted))

reaches-IsReady_example :
    IsReady second_adopted
    × (second_adopted.waiting ≡ 0
        → (second_adopted ≡ second_adopted) × All (λ a. a ≡ some (inr 2)) later_answers)
reaches-IsReady_example =
    reaches-IsReady second_adopted second_adopted later_answers 2 later_calls refl

two-ne-one : ◌≢◌ {A = ℕ} 2 1
two-ne-one e = absurd (omega (arith, e))

-- A core that answers with two names.
abbrev answering : Platform
answering = record platform {
  call = λ name args.
      replied (record { status = 0; outs = λ i. codes "ann" ++ 10 ∷ codes "bo"; pads = λ i at. 0 });
}

handle_candidates-joined_example :
    handle_candidates answering (codes "an") 2 9 ≡ ok (codes "ann" ∷ codes "bo" ∷ [])
handle_candidates-joined_example =
    handle_candidates-joined answering (codes "an") 2 9
      (record { status = 0; outs = λ i. codes "ann" ++ 10 ∷ codes "bo"; pads = λ i at. 0 })
      (codes "ann" ∷ codes "bo" ∷ []) refl refl refl
      ((refl, (refl, (refl, tt))), ((refl, (refl, tt)), tt))
      (λ e. absurd (two-ne-one (ap length e)))
