-- ===== src/Base/Lists.antt =====
-- Lists measured and indexed by native numbers.
use Prim.Native.Nat.{ℕ, zero, suc, ◌+◌, ◌<◌}
use mathlib.Core.Logic.{◌≢◌}
use mathlib.Core.Path.{◌≡◌, refl, ap, ap₂}
use mathlib.Core.List.{List, [], ◌∷◌, ◌++◌}
use mathlib.Core.Option.{Option, none, some}
use native.Mathlib.Omega.{arith}

module _ {ℓ} {A : Type ℓ} where
  abbrev pub length : List A → ℕ
  length [] = 0
  length (x ∷ xs) = suc (length xs)

  abbrev pub get_elem? : List A → ℕ → Option A
  get_elem? [] i = none
  get_elem? (x ∷ xs) zero = some x
  get_elem? (x ∷ xs) (suc i) = get_elem? xs i

  abbrev pub get_or : List A → ℕ → A → A
  get_or [] i d = d
  get_or (x ∷ xs) zero d = x
  get_or (x ∷ xs) (suc i) d = get_or xs i d

  abbrev pub drop : ℕ → List A → List A
  drop zero xs = xs
  drop (suc n) [] = []
  drop (suc n) (x ∷ xs) = drop n xs

  -- `xs[i] = v`, where i is in range.
  abbrev pub update : List A → ℕ → A → List A
  update [] i v = []
  update (x ∷ xs) zero v = v ∷ xs
  update (x ∷ xs) (suc i) v = x ∷ update xs i v

  pub length-update : (xs : List A) (i : ℕ) (v : A) → length (update xs i v) ≡ length xs
  length-update [] i v = refl
  length-update (x ∷ xs) zero v = refl
  length-update (x ∷ xs) (suc i) v = ap suc (length-update xs i v)

  pub get_or-update :
      (xs : List A) (i : ℕ) (v d : A) → i < length xs → get_or (update xs i v) i d ≡ v
  get_or-update [] i v d h = absurd (omega arith)
  get_or-update (x ∷ xs) zero v d h = refl
  get_or-update (x ∷ xs) (suc i) v d h = get_or-update xs i v d (omega arith)

  pub get_or-update_ne :
      (xs : List A) (i j : ℕ) (v d : A) → i ≢ j → get_or (update xs i v) j d ≡ get_or xs j d
  get_or-update_ne [] i j v d h = refl
  get_or-update_ne (x ∷ xs) zero zero v d h = absurd (h refl)
  get_or-update_ne (x ∷ xs) zero (suc j) v d h = refl
  get_or-update_ne (x ∷ xs) (suc i) zero v d h = refl
  get_or-update_ne (x ∷ xs) (suc i) (suc j) v d h = get_or-update_ne xs i j v d (λ e. h (ap suc e))

  pub list_ext :
      (d : A) (xs ys : List A)
      → length xs ≡ length ys
      → ((j : ℕ) → j < length xs → get_or xs j d ≡ get_or ys j d)
      → xs ≡ ys
  list_ext d [] [] e h = refl
  list_ext d [] (y ∷ ys) e h = absurd (omega arith)
  list_ext d (x ∷ xs) [] e h = absurd (omega arith)
  list_ext d (x ∷ xs) (y ∷ ys) e h =
      ap₂ (λ a rest. a ∷ rest) (h 0 (omega arith))
        (list_ext d xs ys (omega arith) (λ j lt. h (suc j) (omega arith)))

  pub update_twice : (xs : List A) (i : ℕ) (v w : A) → update (update xs i v) i w ≡ update xs i w
  update_twice [] i v w = refl
  update_twice (x ∷ xs) zero v w = refl
  update_twice (x ∷ xs) (suc i) v w = ap (λ rest. x ∷ rest) (update_twice xs i v w)

  pub length-append : (xs ys : List A) → length (xs ++ ys) ≡ length xs + length ys
  length-append [] ys = omega arith
  length-append (x ∷ xs) ys = omega (arith, length-append xs ys)

  pub get_or-append_left :
      (xs ys : List A) (i : ℕ) (d : A) → i < length xs → get_or (xs ++ ys) i d ≡ get_or xs i d
  get_or-append_left [] ys i d h = absurd (omega arith)
  get_or-append_left (x ∷ xs) ys zero d h = refl
  get_or-append_left (x ∷ xs) ys (suc i) d h = get_or-append_left xs ys i d (omega arith)

  pub get_or-append_right :
      (xs ys : List A) (i j : ℕ) (d : A) → i ≡ length xs + j → get_or (xs ++ ys) i d ≡ get_or ys j d
  get_or-append_right [] ys i j d e = ap (λ k. get_or ys k d) (omega (arith, e))
  get_or-append_right (x ∷ xs) ys zero j d e = absurd (omega arith)
  get_or-append_right (x ∷ xs) ys (suc i) j d e = get_or-append_right xs ys i j d (omega arith)
