-- ===== src/Bridge/Memory/Calls.antt =====
-- The class comment of `Call` in sdk/ts/src/bridge.ts: everything that a call allocates is freed.
use gossveil.Base.{
  ℕ, zero, suc, ◌+◌, ◌≡◌, refl, sym, subst, ap, ◌∙◌, String, List, [], ◌∷◌, ◌++◌, ◌==◌, arith, ◌⊎◌,
  Bool-cases, inl, inr,
}
use gossveil.Fault.{Result, ok, err}
use gossveil.Exec.{Exec, pure, ◌>>=◌, >>=-ok, >>=-err}
use gossveil.Bridge.Memory.{
  Region, Heap, Request, input, number, region, output, Building, started, Answer, Core, no_memory,
  reserve, add_arg, build, settle, finish, run_call, free_inputs, take_outs,
}
use gossveil.Bridge.Memory.Ledger.{
  count, held, cells, buffers, count-append, held-one, count-held_append, count-cells_append,
  count-free_inputs, count-free_pads, count-take_outs,
}

-- How often a region is one of the call under construction.
abbrev pub owned : Region → Building → ℕ
owned r b = count r (held b.ins) + count r (cells b.outs) + count r b.pads

-- The heap is `h0` and the regions of the call.
abbrev pub Owns : Building → Heap → Heap → Type 0
Owns b h0 h = (r : Region) → count r h ≡ owned r b + count r h0

abbrev AddEnd : Heap → Heap → Result Building × Heap → Type 0
AddEnd h0 h (err e, h') = (e ≡ no_memory) × (h' ≡ h)
AddEnd h0 h (ok b, h') = Owns b h0 h'

module _ (c : Core) where
  reserve_cases :
      (n : ℕ) (h : Heap)
      → (reserve c n h ≡ (err no_memory, h))
        ⊎ (reserve c n h ≡ (ok (c.alloc h n), (c.alloc h n, n) ∷ h))
  unfolding reserve
  reserve_cases n h = elim (Bool-cases (c.alloc h n == 0)) [
    | inl e ↦ inl (rw e refl)
    | inr e ↦ inr (rw e refl)
  ]

  reserve_end :
      (n : ℕ) (h h0 : Heap) (k : ℕ → Building)
      → ((ptr : ℕ) → Owns (k ptr) h0 ((ptr, n) ∷ h))
      → AddEnd h0 h ((reserve c n >>= λ ptr. pure (k ptr)) h)
  reserve_end n h h0 k owns =
      let next : ℕ → Exec Heap Building = λ ptr. pure (k ptr) in
      elim (reserve_cases n h) [
        | inl e ↦
            subst (AddEnd h0 h) (sym (>>=-err (reserve c n) next h no_memory h e)) (refl, refl)
        | inr e ↦
            subst (AddEnd h0 h) (sym (>>=-ok (reserve c n) next h (c.alloc h n) _ e))
              (owns (c.alloc h n))
      ]

  add_arg-Owns :
      (q : Request) (b : Building) (h0 h : Heap) → Owns b h0 h → AddEnd h0 h (add_arg c q b h)
  unfolding add_arg count held cells
  add_arg-Owns (number n) b h0 h owns = owns
  add_arg-Owns (input zero) b h0 h owns =
      λ r. omega (arith, owns r, count-held_append r b.ins ((0, 0) ∷ []))
  add_arg-Owns (input (suc n)) b h0 h owns = reserve_end (suc n) h h0 _ (λ ptr r.
      omega (
        arith,
        owns r,
        count-held_append r b.ins ((ptr, suc n) ∷ []),
        ap (count r) (held-one ptr n),
      ))
  add_arg-Owns output b h0 h owns =
      reserve_end 8 h h0 _ (λ ptr r. omega (arith, owns r, count-cells_append r b.outs (ptr ∷ [])))
  add_arg-Owns (region n) b h0 h owns =
      reserve_end n h h0 _ (λ ptr r. omega (arith, owns r, count-append r b.pads ((ptr, n) ∷ [])))

  unfoldable pub BuildEnd : List Request → Building → Heap → Heap → Result Building × Heap → Type 0
  BuildEnd requests b h0 h (ok b', h') = Owns b' h0 h'
  BuildEnd requests b h0 h (err e, h') =
      (before : List Request) × (q : Request) × (after : List Request) × (b' : Building) × (requests
        ≡ before ++ q ∷ after)
      × (build c before b h ≡ (ok b', h'))
      × Owns b' h0 h'
      × (e ≡ no_memory)

  one_before :
      (q : Request) (requests : List Request) (b b' : Building) (h0 h h' : Heap)
      → add_arg c q b h ≡ (ok b', h')
      → (t : Result Building × Heap) → BuildEnd requests b' h0 h' t
      → BuildEnd (q ∷ requests) b h0 h t
  unfolding build BuildEnd
  one_before q requests b b' h0 h h' run (ok b2, h2) owns = owns
  one_before q requests b b' h0 h h' run (err e, h2)
        (before, next, after, b2, is_list, built, owns, is_error) =
      (
        q ∷ before,
        next,
        after,
        b2,
        ap (λ l. q ∷ l) is_list,
        >>=-ok (add_arg c q b) (build c before) h b' h' run ∙ built,
        owns,
        is_error,
      )

  build_after :
      (q : Request) (requests : List Request) (b : Building) (h0 h : Heap)
      (t : Result Building × Heap)
      → Owns b h0 h
      → add_arg c q b h ≡ t
      → AddEnd h0 h t
      → ((b' : Building) (h' : Heap)
          → Owns b' h0 h'
          → BuildEnd requests b' h0 h' (build c requests b' h'))
      → BuildEnd (q ∷ requests) b h0 h (build c (q ∷ requests) b h)
  unfolding build BuildEnd
  build_after q requests b h0 h (err e, h') owns run (is_error, same) later =
      subst (BuildEnd (q ∷ requests) b h0 h)
        (sym (>>=-err (add_arg c q b) (build c requests) h e h' run))
        (
          [],
          q,
          requests,
          b,
          refl,
          ap (λ k. (ok b, k)) (sym same),
          (λ r. ap (count r) same ∙ owns r),
          is_error,
        )
  build_after q requests b h0 h (ok b', h') owns run owns' later =
      subst (BuildEnd (q ∷ requests) b h0 h)
        (sym (>>=-ok (add_arg c q b) (build c requests) h b' h' run))
        (one_before q requests b b' h0 h h' run (build c requests b' h') (later b' h' owns'))

  build_end :
      (requests : List Request) (b : Building) (h0 h : Heap)
      → Owns b h0 h
      → BuildEnd requests b h0 h (build c requests b h)
  unfolding build BuildEnd
  build_end [] b h0 h owns = owns
  build_end (q ∷ requests) b h0 h owns =
      build_after q requests b h0 h (add_arg c q b h) owns refl (add_arg-Owns q b h0 h owns)
        (λ b' h' owns'. build_end requests b' h0 h' owns')

-- What the export did to the heap: it threw and changed nothing, or it returned, and allocated the
-- buffers that it describes in the output cells.
abbrev pub RunEnd : Building → Heap → Result Answer × Heap → Type 0
RunEnd b h (err e, h') = h' ≡ h
RunEnd b h (ok a, h') =
    (r : Region) → count r h' ≡ count r (held (buffers b.outs a.written)) + count r h

-- The regions that a call leaves behind: none if its export returned, its output cells if not.
abbrev pub left_by : Building → Result Answer → List Region
left_by b (ok a) = []
left_by b (err e) = cells b.outs

settle_frees :
    {T : Type 0} (check : ℕ → Result (Unit {0})) (read : Answer → Result T) (b : Building)
    (h0 h : Heap) (t : Result Answer × Heap)
    → Owns b h0 h
    → RunEnd b h t
    → (r : Region) → count r ((settle check read b t).1) ≡ count r (left_by b t.0) + count r h0
unfolding settle count
settle_frees check read b h0 h (ok a, h1) owns grown r = omega (
  arith,
  owns r,
  grown r,
  count-free_pads r b.pads (free_inputs b.ins (take_outs b.outs a.written h1)),
  count-free_inputs r b.ins (take_outs b.outs a.written h1),
  count-take_outs r b.outs a.written h1,
)
settle_frees check read b h0 h (err e, h1) owns same r = omega (
  arith,
  owns r,
  ap (count r) same,
  count-free_pads r b.pads (free_inputs b.ins h1),
  count-free_inputs r b.ins h1,
)

module _ {T : Type 0} (c : Core) (check : ℕ → Result (Unit {0})) (name : String)
    (read : Answer → Result T) where
  -- How a call of the core ends, from how its arguments could be built.
  abbrev pub CallEnd : List Request → Heap → Result Building × Heap → Result T × Heap → Type 0
  CallEnd requests h0 (ok b, h) t =
      (r : Region) → count r t.1 ≡ count r (left_by b (c.run name b.args h).0) + count r h0
  CallEnd requests h0 (err e, h) t =
      (t ≡ (err no_memory, h))
      × ((before : List Request) × (q : Request) × (after : List Request) × (b : Building)
          × (requests ≡ before ++ q ∷ after)
          × (build c before started h0 ≡ (ok b, h))
          × Owns b h0 h)

  call_after :
      (requests : List Request) (h0 : Heap) (t : Result Building × Heap)
      → build c requests started h0 ≡ t
      → BuildEnd c requests started h0 h0 t
      → ((b : Building) (h : Heap) → t ≡ (ok b, h) → RunEnd b h (c.run name b.args h))
      → CallEnd requests h0 t (run_call c check name requests read h0)
  unfolding run_call finish BuildEnd
  call_after requests h0 (ok b, h) run owns export =
      subst (CallEnd requests h0 (ok b, h))
        (sym (>>=-ok (build c requests started) (finish c check name read) h0 b h run))
        (settle_frees check read b h0 h (c.run name b.args h) owns (export b h refl))
  call_after requests h0 (err e, h) run (before, q, after, b, is_list, built, owns, is_error)
        export =
      (
        >>=-err (build c requests started) (finish c check name read) h0 e h run
            ∙ ap (λ x. (err x, h)) is_error,
        (before, q, after, b, is_list, built, owns),
      )

  -- If the export, run on the arguments that the call built, leaves the heap as `RunEnd` says, an
  -- operation of the bridge leaves the wasm memory as it was, whether it succeeds, the status of
  -- the export is an error or reading the outputs throws. Two ends are the exception: if the export
  -- itself throws, then the output cells stay allocated, and if an argument cannot be allocated, then
  -- all that was allocated for the arguments before it.
  pub run_call-frees :
      (requests : List Request) (h0 : Heap)
      → ((b : Building) (h : Heap)
          → build c requests started h0 ≡ (ok b, h)
          → RunEnd b h (c.run name b.args h))
      → CallEnd requests h0 (build c requests started h0) (run_call c check name requests read h0)
  unfolding count held cells
  run_call-frees requests h0 export =
      call_after requests h0 (build c requests started h0) refl
        (build_end c requests started h0 h0 (λ r. omega arith)) export
