-- ===== src/Witnesses/Events.antt =====
-- The ring of input events on a few calls.
use fantuan_kernel.Base.{◌+◌, ◌%◌, ◌^◌, ◌≡◌, refl, List, [], ◌∷◌, arith, true}
use fantuan_kernel.InputRing.{Ring, Call, pushes, pops, run, key, pointer}
use fantuan_kernel.InputRing.Queue
use fantuan_kernel.InputRing.Inv.{IsValid}
use fantuan_kernel.InputRing.Refine.{contents, run_refines}
use fantuan_kernel.InputRing.Drops.{pushed, delivered, run_balance}

-- A ring with one event, whose indices stand at the wrap.
abbrev ring : Ring
ring = record { events = λ i. key 0 30 true 97; head = 0; tail = 63; len = 1; dropped = 2 }

abbrev calls : List Call
calls =
    pushes 5 (key 0 31 true 115)
    ∷ (pops ∷ (pushes 6 (pointer 3 4 1) ∷ (pops ∷ (pops ∷ (pops ∷ [])))))

run_refines_example :
    let (outs, r') = run calls ring in
    ((outs, contents r') ≡ Queue.run calls (contents ring)) × IsValid r'
run_refines_example =
    run_refines calls ring (record {
      head_in = omega arith;
      tail_in = omega arith;
      len_in = omega arith;
      head_at = refl;
    })

run_balance_example :
    let (outs, r') = run calls ring in
    (pushed calls + ring.len + ring.dropped) % 2 ^ 64
    ≡ (delivered outs + r'.len + r'.dropped) % 2 ^ 64
run_balance_example = run_balance calls ring
