-- ===== src/Examples/Rings.antt =====
-- Rings and blocks at concrete inputs.
use rubo.Base.{◌≡◌, refl, ap, List, [], ◌∷◌, ◌++◌, some, arith, length}
use rubo.Util.RingBuff.{new_ring, add_data}
use rubo.Util.RingBuff.Queue
use rubo.Util.RingBuff.Queue.{Op, adds, deletes, steps, reads, takes, AllFit}
use rubo.Util.RingBuff.Span.{contents, span}
use rubo.Util.RingBuff.Writes.{Holds, add_data-Holds}
use rubo.Util.RingBuff.Refine.{new_ring-Holds, run, run_refines}
use rubo.Util.LineBuffer.{LineBuffer, new_line, append_size}
use rubo.Util.LineBuffer.Laws.{IsValid, Grows, append_size_lem}

abbrev calls : List Op
calls = adds (1 ∷ 2 ∷ 3 ∷ []) ∷ (takes 2 ∷ (reads 2 ∷ (deletes 0 ∷ (steps 1 ∷ []))))

-- The calls fit: at most three bytes are held, and `step` passes one of one.
calls-AllFit : AllFit (contents new_ring) calls
unfolding new_ring span Queue.apply
calls-AllFit = (omega arith, (tt, (tt, (tt, (omega arith, tt)))))

run_refines_example :
    ((run new_ring calls).0 ≡ (Queue.run (contents new_ring) calls).0)
    × Holds (Queue.run (contents new_ring) calls).1 (run new_ring calls).1
run_refines_example = run_refines calls new_ring-Holds.valid calls-AllFit

add_data-Holds_example : Holds (contents new_ring ++ (1 ∷ 2 ∷ [])) (add_data new_ring (1 ∷ 2 ∷ []))
add_data-Holds_example =
    add_data-Holds (1 ∷ 2 ∷ []) new_ring-Holds.valid (omega (arith, ap length new_ring-Holds.bytes))

new_line-IsValid : IsValid new_line
unfolding new_line
new_line-IsValid = record { block = refl; room = omega arith }

append_size_example :
    (l' : LineBuffer) × (append_size new_line 300 ≡ some l') × Grows new_line 300 l'
append_size_example = append_size_lem new_line 300 new_line-IsValid (omega arith) (omega arith)
