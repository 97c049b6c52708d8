-- ===== src/Prelude/Ledger.antt =====
-- Resources that are opened and closed: what is open after a sequence of such actions.
use mathlib.Core.Bool.{Bool, false, not, ◌&&◌, ◌||◌}
use mathlib.Core.List.{List, [], ◌∷◌}
use mathlib.Core.Option.{Option, none, some}
use libp2pchannel.Prelude.Tests.{if◌then◌else◌}

pub data Act {ℓ} (R : Type ℓ) : Type ℓ where
  opens : R → Act R
  closes : R → Act R

-- `same` compares two resources, and `uses a b` says that `a` works on `b`.
module _ {ℓ} {R : Type ℓ} (same uses : R → R → Bool) where
  abbrev pub is_open : R → List R → Bool
  is_open r [] = false
  is_open r (x ∷ xs) = same x r || is_open r xs

  abbrev pub in_use : R → List R → Bool
  in_use r [] = false
  in_use r (x ∷ xs) = uses x r || in_use r xs

  abbrev pub without : R → List R → List R
  without r [] = []
  without r (x ∷ xs) = if same x r then without r xs else x ∷ without r xs

  -- What is open in the end; `none` if something is opened twice, closed while it is not open, or
  -- closed while another open resource uses it.
  unfoldable pub ledger : List (Act R) → List R → Option (List R)
  ledger [] live = some live
  ledger (opens r ∷ acts) live = if is_open r live then none else ledger acts (r ∷ live)
  ledger (closes r ∷ acts) live =
      if is_open r live && not (in_use r live) then ledger acts (without r live) else none
