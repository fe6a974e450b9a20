-- ===== src/Tracer/Roots.antt =====
-- The classes of aliased bits: Graph.root of scripts/trace_full_array_path.py, with its path
-- halving, and the loop of Graph.aliases over two lists of bits. A constant bit, -1, is `none`.
use core_from_home.Base.{
  ℕ, zero, suc, ◌+◌, ◌==◌, if◌then◌else◌, Option, none, some, List, [], ◌∷◌, get_or, update, length,
  ltb, ◌&&◌,
}
use core_from_home.Tracer.Result.{Error, Result, ok, ◌>>◌, require}
pub mod Forest
pub mod Classes
pub mod Grow
pub mod Correct

abbrev pub parent_of : List ℕ → ℕ → ℕ
parent_of parent n = get_or parent n n

-- `range(base, base + width)`
abbrev pub range : ℕ → ℕ → List ℕ
range base zero = []
range base (suc width) = base ∷ range (suc base) width

-- `while self.parent[n] != n: …`, with the number of rounds left.
unfoldable pub root_loop : ℕ → List ℕ → ℕ → List ℕ × ℕ
root_loop zero parent n = (parent, n)
root_loop (suc fuel) parent n =
    let above = parent_of parent (parent_of parent n) in
    let halved = update parent n above in
    let rest = root_loop fuel halved (parent_of halved n) in
    if parent_of parent n == n then (parent, n) else rest

-- The parent array after the call, and the root. A chain of parents has fewer links than there are
-- bits.
unfoldable pub root : List ℕ → ℕ → List ℕ × ℕ
root parent n = root_loop (length parent) parent n

-- A constant bit has no root, and the array has an entry for every wire's bit only.
unfoldable pub find : List ℕ → Option ℕ → Result (List ℕ × Option ℕ)
find parent none = ok (parent, none)
find parent (some n) =
    require (ltb n (length parent)) Error.index_error
    >> ok ((root parent n).0, some (root parent n).1)

-- The body of the loop: two bits become one class.
unfoldable pub merge : List ℕ → ℕ → ℕ → List ℕ
merge parent a b =
    let (parent', ra) = root parent a in
    let (parent'', rb) = root parent' b in if ra == rb then parent'' else update parent'' ra rb

unfoldable pub merge_bits : List ℕ → List (Option ℕ) → List (Option ℕ) → Result (List ℕ)
merge_bits parent (some a ∷ as') (some b ∷ bs) =
    require (ltb a (length parent) && ltb b (length parent)) Error.index_error
    >> merge_bits (merge parent a b) as' bs
merge_bits parent (none ∷ as') (b ∷ bs) = merge_bits parent as' bs
merge_bits parent (some a ∷ as') (none ∷ bs) = merge_bits parent as' bs
merge_bits parent [] bs = ok parent
merge_bits parent (a ∷ as') [] = ok parent
