-- ===== src/Slots/Holds.antt =====
-- An array holds a list: the list fills the slots below the count.
use bomap.Base.{ℕ, ◌+◌, ◌≡◌, List, ◌++◌, Option, some, length}

pub record Holds {A : Type 0} (cap : ℕ) (a : List A) (c : ℕ) (xs : List A) : Type 0 where
  pub rest : List A
  pub layout : a ≡ xs ++ rest
  pub count : c ≡ length xs
  pub size : length xs + length rest ≡ cap

-- a step that does not fault, with a result that satisfies `P`
abbrev pub Yields {ℓ} : {A : Type 0} → (A → Type ℓ) → Option A → Type ℓ
Yields {A = A} P m = (r : A) × (m ≡ some r) × P r
