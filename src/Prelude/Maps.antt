-- ===== src/Prelude/Maps.antt =====
-- Direct-indexed arrays of pointers as functions: an update at one index.
use Prim.Native.Nat.{ℕ}
use mathlib.Core.Bool.{Bool, false}
use mathlib.Core.Option.{Option, none, some}
use llcpp_exchange.Prelude.Tests.{◌==◌, if◌then◌else◌}

abbrev pub put {ℓ} : {A : Type ℓ} → (ℕ → A) → ℕ → A → ℕ → A
put f i v j = if i == j then v else f j

abbrev pub put₂ {ℓ} : {A : Type ℓ} → (ℕ → ℕ → A) → ℕ → ℕ → A → ℕ → ℕ → A
put₂ f i j v = put f i (put (f i) j v)

-- Whether a slot holds the key `k`.
abbrev pub holds : Option ℕ → ℕ → Bool
holds none k = false
holds (some j) k = j == k
