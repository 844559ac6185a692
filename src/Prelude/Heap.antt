-- ===== src/Prelude/Heap.antt =====
-- Objects that the program shares and mutates live on a heap: a function from references.
use mathlib.Core.Path.{◌≡◌}
use Prim.Native.Nat.{ℕ, zero, suc, ◌+◌, ◌≤◌, ◌<◌}
use native.Mathlib.Omega.{arith}
use openai_ipmi_proxy.Prelude.Tests.{if◌then◌else◌, nat_beq}

module _ {ℓ} {A : Type ℓ} where
  -- `heap[r] = v`
  abbrev pub update : (ℕ → A) → ℕ → A → ℕ → A
  update h r v s = if nat_beq r s then v else h s

-- The sum of `f 0`, ..., `f (n - 1)`.
unfoldable pub sum_below : ℕ → (ℕ → ℕ) → ℕ
sum_below zero f = 0
sum_below (suc n) f = f n + sum_below n f

pub sum_below-update_out :
    (n r v : ℕ) (f : ℕ → ℕ) → n ≤ r → sum_below n (update f r v) ≡ sum_below n f
unfolding sum_below
sum_below-update_out zero r v f h = omega arith
sum_below-update_out (suc n) r v f h = ground (arith, sum_below-update_out n r v f)

-- A change of one term changes the sum by as much.
pub sum_below-update :
    (n r v : ℕ) (f : ℕ → ℕ) → r < n → sum_below n (update f r v) + f r ≡ sum_below n f + v
unfolding sum_below
sum_below-update zero r v f h = elim h [ ]
sum_below-update (suc n) r v f h =
    ground (arith, sum_below-update n r v f, sum_below-update_out n r v f)

pub le-sum_below : (n r : ℕ) (f : ℕ → ℕ) → r < n → f r ≤ sum_below n f
unfolding sum_below
le-sum_below zero r f h = elim h [ ]
le-sum_below (suc n) r f h = ground (arith, le-sum_below n r f)
