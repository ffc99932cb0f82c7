-- ===== src/Frame/Layout.antt =====
-- The slots of a frame lie apart: those of the function below the saved registers, inside an aligned
-- frame, and the parameters on the stack where the caller put them.
use cco_lang.Base.{ℕ, ◌≡◌}
use cco_lang.Frame.Places.{above, Laid}
use cco_lang.Frame.{Slots}

-- `n` slots lie above %rbp.
record LaidIn (top n : ℕ) (f : Slots) : Type 0 where
  laid : Laid top f.counter f.slots
  level : above f.slots ≡ n
