-- ===== src/Tracer/Build/Blank.antt =====
-- The arrays that Graph.second_pass of scripts/trace_full_array_path.py starts with.
use core_from_home.Base.{
  ℕ, zero, suc, true, false, none, some, length, get_or, ◌≡◌, refl, sym, ap, ◌∙◌, arith,
}
use core_from_home.Tracer.Build.{replicate, blank_graph}
use core_from_home.Tracer.Build.Invariant.{count, IsGraph}
use core_from_home.Tracer.Graph.{pred}

pub length-replicate {ℓ} : {A : Type ℓ} (n : ℕ) (x : A) → length (replicate n x) ≡ n
length-replicate zero x = refl
length-replicate (suc n) x = ap suc (length-replicate n x)

pub get_or-replicate {ℓ} : {A : Type ℓ} (n i : ℕ) (x : A) → get_or (replicate n x) i x ≡ x
get_or-replicate zero i x = refl
get_or-replicate (suc n) zero x = refl
get_or-replicate (suc n) (suc i) x = get_or-replicate n i x

count-replicate : (p n : ℕ) → count p (replicate n none) ≡ 0
unfolding count
count-replicate p zero = refl
count-replicate p (suc n) = omega (arith, count-replicate p n)

blank-pred : (n i m : ℕ) → pred (blank_graph n) i m ≡ none
blank-pred n zero m = get_or-replicate n m none
blank-pred n (suc zero) m = get_or-replicate n m none
blank-pred n (suc (suc i)) m = get_or-replicate n m none

pub blank-IsGraph : (rep : ℕ → ℕ) (n : ℕ) → IsGraph rep n (blank_graph n)
blank-IsGraph rep n = record {
  size_eq = refl;
  kinds = length-replicate n 0;
  registers = length-replicate n false;
  fanouts = length-replicate n 0;
  preds0 = length-replicate n none;
  preds1 = length-replicate n none;
  preds2 = length-replicate n none;
  inputs = λ i m p lt e. absurd (none-ne-some (sym (blank-pred n i m) ∙ e));
  gate_root = λ m h. absurd (h (get_or-replicate n m 0));
  register_root = λ m h. absurd (false-ne-true (sym (get_or-replicate n m false) ∙ h));
  single = λ m h. absurd (h (get_or-replicate n m 0));
  blank = λ i m lt e. blank-pred n i m;
  counted = λ p lt. omega (arith, get_or-replicate {A = ℕ} n p 0, count-replicate p n);
}
  where
    none-ne-some : {p : ℕ} → none ≡ some p → ⊥
    none-ne-some h = cc

    false-ne-true : false ≡ true → ⊥
    false-ne-true h = cc
