-- ===== src/InputRing/Queue.antt =====
-- What the ring promises: a queue of the last 64 events that nobody has taken, oldest first.
use fantuan_kernel.Base.{ℕ, Option, none, some, List, [], ◌∷◌, ◌++◌, if◌then◌else◌, ◌==◌, length}
use fantuan_kernel.InputRing.{InputEvent, Call, pushes, pops, ring_capacity}

abbrev pub Queue : Type 0
Queue = List InputEvent

unfoldable pub rest : Queue → Queue
rest [] = []
rest (x ∷ q) = q

unfoldable pub push : ℕ → InputEvent → Queue → Queue
push now ev q = (if length q == ring_capacity then rest q else q) ++ (record ev { ts = now } ∷ [])

unfoldable pub pop : Queue → Option InputEvent × Queue
pop [] = (none, [])
pop (x ∷ q) = (some x, q)

unfoldable pub run : List Call → Queue → List (Option InputEvent) × Queue
run [] q = ([], q)
run (pushes now ev ∷ cs) q = run cs (push now ev q)
run (pops ∷ cs) q = let (out, q') = pop q in let (outs, q'') = run cs q' in (out ∷ outs, q'')
