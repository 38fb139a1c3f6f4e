-- ===== src/Base/Slices.antt =====
-- What the program calls on slices, vectors and iterators, panics included.
use Prim.Native.Nat.{ℕ, zero, suc, ◌+◌, ◌-◌}
use mathlib.Core.Bool.{Bool, ◌||◌}
use mathlib.Core.Option.{Option, none, some}
use mathlib.Core.List.{List, [], ◌∷◌}
use llmsh.Base.Tests.{Bytes, Eq, ltb, if◌then◌else◌}
use llmsh.Base.Lists.{length, take, drop}
use llmsh.Base.Results.{Outcome, ok, panicked, unwrap}

-- `HashMap::from([…])`, whose keys differ.
abbrev pub HashMap : Type 0 → Type 0 → Type 0
HashMap K V = List (K × V)

module _ {K V : Type 0} ⦃e : Eq K⦄ where
  -- map.get(&key)
  unfoldable pub get : HashMap K V → K → Option V
  get [] k = none
  get ((j, v) ∷ m) k = if e.beq j k then some v else get m k

  -- map[&key]
  abbrev pub index : HashMap K V → K → Outcome V
  index m k = unwrap (get m k)

-- slice.windows(n), for n > 0
unfoldable pub windows : ℕ → Bytes → List Bytes
windows n [] = []
windows n (x ∷ xs) = if ltb (length (x ∷ xs)) n then [] else take n (x ∷ xs) ∷ windows n xs

abbrev pub shift : Option ℕ → ℕ → Option ℕ
shift none k = none
shift (some i) k = some (i + k)

module _ {A : Type 0} where
  -- iter.position(p)
  unfoldable pub position : (A → Bool) → List A → Option ℕ
  position p [] = none
  position p (x ∷ xs) = if p x then some 0 else shift (position p xs) 1

  -- iter.enumerate(), from a number on
  unfoldable pub enumerate_from : ℕ → List A → List (ℕ × A)
  enumerate_from n [] = []
  enumerate_from n (x ∷ xs) = (n, x) ∷ enumerate_from (n + 1) xs

-- &v[lo..hi]
unfoldable pub slice : ℕ → ℕ → Bytes → Outcome Bytes
slice lo hi xs =
    if ltb hi lo || ltb (length xs) hi then panicked else ok (take (hi - lo) (drop lo xs))

-- v.drain(..n), what stays
unfoldable pub drain : ℕ → Bytes → Outcome Bytes
drain n xs = if ltb (length xs) n then panicked else ok (drop n xs)

-- `a - b` on usize
unfoldable pub checked_sub : ℕ → ℕ → Outcome ℕ
checked_sub a b = if ltb a b then panicked else ok (a - b)

-- whole.into_iter().cycle().take(n), with `rest` of the current round left
unfoldable pub cycle_take : ℕ → Bytes → Bytes → Bytes
cycle_take zero rest whole = []
cycle_take (suc n) (x ∷ rest) whole = x ∷ cycle_take n rest whole
cycle_take (suc n) [] [] = []
cycle_take (suc n) [] (x ∷ whole) = x ∷ cycle_take n whole (x ∷ whole)
