-- ===== src/Witnesses/Rects.antt =====
-- The list of dirty rectangles on two of them.
use fantuan_kernel.Base.{arith}
use fantuan_kernel.Graphics.{Rect, Damage, add}
use fantuan_kernel.Graphics.Cover.{Extends, add-Extends}

abbrev damage : Damage
damage = record { rects = λ i. record { x = 0; y = 0; w = 10; h = 10 }; len = 1 }

abbrev rect : Rect
rect = record { x = 5; y = 5; w = 10; h = 10 }

add-Extends_example : Extends damage rect (add damage rect)
add-Extends_example = add-Extends damage rect (omega arith)
