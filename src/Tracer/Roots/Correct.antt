-- ===== src/Tracer/Roots/Correct.antt =====
-- Graph.aliases of scripts/trace_full_array_path.py joins exactly the bits that its pairs connect.
use core_from_home.Base.{
  ℕ, true, ◌==◌, if◌then◌else◌, List, [], ◌∷◌, Option, none, some, length, ◌≡◌, ◌⊎◌, ◌↔◌, refl, sym,
  ap, subst, ◌∙◌, inl, inr, Bool-cases, ==→eq, arith, ltb, ◌&&◌, within,
}
use core_from_home.Tracer.Roots.{merge, merge_bits}
use core_from_home.Tracer.Result.{ok, ok_injective, require-ok}
use core_from_home.Tracer.Roots.Classes.{HasClasses, joined, merge-Merged}

-- What two lists of bits, taken in pairs, connect.
pub Paired : List (Option ℕ) → List (Option ℕ) → ℕ → ℕ → Type 0
Paired (some a ∷ as') (some b ∷ bs) x y = ((x ≡ a) × (y ≡ b)) ⊎ Paired as' bs x y
Paired (none ∷ as') (b ∷ bs) x y = Paired as' bs x y
Paired (some a ∷ as') (none ∷ bs) x y = Paired as' bs x y
Paired [] bs x y = ⊥
Paired (a ∷ as') [] x y = ⊥

-- The least equivalence with the given pairs.
pub data Connected (Pair : ℕ → ℕ → Type 0) : ℕ → ℕ → Type 0 where
  pair : {x y : ℕ} → Pair x y → Connected Pair x y
  same : (x : ℕ) → Connected Pair x x
  back : {x y : ℕ} → Connected Pair x y → Connected Pair y x
  chain : {x y z : ℕ} → Connected Pair x y → Connected Pair y z → Connected Pair x z

Connected-map :
    {P Q : ℕ → ℕ → Type 0} (f : (x y : ℕ) → P x y → Connected Q x y) {x y : ℕ}
    → Connected P x y
    → Connected Q x y
Connected-map f (pair p) = f _ _ p
Connected-map f (same x) = same x
Connected-map f (back c) = back (Connected-map f c)
Connected-map f (chain c d) = chain (Connected-map f c) (Connected-map f d)

-- A function that agrees on the pairs agrees on all that they connect.
Connected-agree :
    {P : ℕ → ℕ → Type 0} (rep : ℕ → ℕ) (f : (x y : ℕ) → P x y → rep x ≡ rep y) {x y : ℕ}
    → Connected P x y
    → rep x ≡ rep y
Connected-agree rep f (pair p) = f _ _ p
Connected-agree rep f (same x) = refl
Connected-agree rep f (back c) = sym (Connected-agree rep f c)
Connected-agree rep f (chain c d) = Connected-agree rep f c ∙ Connected-agree rep f d

-- The representatives agree exactly on what the pairs connect.
abbrev pub Decides : (ℕ → ℕ) → (ℕ → ℕ → Type 0) → Type 0
Decides rep P = (x y : ℕ) → (rep x ≡ rep y) ↔ Connected P x y

module _ (rep : ℕ → ℕ) (P : ℕ → ℕ → Type 0) (d : Decides rep P) where
  -- P, and the pair of a and b.
  abbrev pub Added : ℕ → ℕ → ℕ → ℕ → Type 0
  Added a b x y = P x y ⊎ ((x ≡ a) × (y ≡ b))

  lift : (a b : ℕ) {x y : ℕ} → Connected P x y → Connected (Added a b) x y
  lift a b = Connected-map (λ x y p. pair (inl p))

  module _ (a b x y : ℕ) where
    near : {z : ℕ} → (rep z == rep a) ≡ true → Connected (Added a b) z a
    near {z} e = lift a b ((d z a).0 (==→eq (rep z) (rep a) e))

    far : {z : ℕ} → rep b ≡ rep z → Connected (Added a b) a z
    far {z} e = chain (pair (inr (refl, refl))) (lift a b ((d b z).0 e))

    joined-Connected :
        joined rep (rep a) (rep b) x ≡ joined rep (rep a) (rep b) y → Connected (Added a b) x y
    joined-Connected h = elim (Bool-cases (rep x == rep a)) [
      | inl e ↦ elim (Bool-cases (rep y == rep a)) [
        | inl f ↦ chain (near e) (back (near f))
        | inr f ↦ chain (near e) (far (rw (e, f) at h))
      ]
      | inr e ↦ elim (Bool-cases (rep y == rep a)) [
        | inl f ↦ back (chain (near f) (far (sym (rw (e, f) at h))))
        | inr f ↦ lift a b ((d x y).0 (rw (e, f) at h))
      ]
    ]

  Connected-joined :
      (a b : ℕ) {x y : ℕ}
      → Connected (Added a b) x y
      → joined rep (rep a) (rep b) x ≡ joined rep (rep a) (rep b) y
  Connected-joined a b = Connected-agree (joined rep (rep a) (rep b)) agree
    where
      agree :
          (x y : ℕ) → Added a b x y → joined rep (rep a) (rep b) x ≡ joined rep (rep a) (rep b) y
      agree x y (inl p) = ap (λ k. if k == rep a then rep b else k) ((d x y).1 (pair p))
      agree x y (inr (e, f)) = rw (e, f) (ground arith)

  pub joined-Decides : (a b : ℕ) → Decides (joined rep (rep a) (rep b)) (Added a b)
  joined-Decides a b x y = (joined-Connected a b x y, Connected-joined a b)

pub Decides-map :
    (rep : ℕ → ℕ) (P Q : ℕ → ℕ → Type 0)
    → ((x y : ℕ) → P x y → Q x y)
    → ((x y : ℕ) → Q x y → P x y)
    → Decides rep P
    → Decides rep Q
Decides-map rep P Q f g d x y = (
  λ e. Connected-map (λ x y p. pair (f x y p)) ((d x y).0 e),
  λ c. (d x y).1 (Connected-map (λ x y q. pair (g x y q)) c),
)

-- The parent array q has the classes of P and of the pairs.
pub record Joins (p : List ℕ) (P : ℕ → ℕ → Type 0) (q : List ℕ) : Type 0 where
  pub sized : length q ≡ length p
  pub rep : ℕ → ℕ
  pub classes : HasClasses q rep
  pub decides : Decides rep P

Joins-map :
    (p q : List ℕ) (P Q : ℕ → ℕ → Type 0)
    → ((x y : ℕ) → P x y → Q x y)
    → ((x y : ℕ) → Q x y → P x y)
    → Joins p P q
    → Joins p Q q
Joins-map p q P Q f g j = record {
  sized = j.sized;
  rep = j.rep;
  classes = j.classes;
  decides = Decides-map j.rep P Q f g j.decides;
}

abbrev pub Also : (ℕ → ℕ → Type 0) → List (Option ℕ) → List (Option ℕ) → ℕ → ℕ → Type 0
Also P as' bs x y = P x y ⊎ Paired as' bs x y

pub merge_bits-Joins :
    (as' bs : List (Option ℕ)) (p q : List ℕ) (rep : ℕ → ℕ) (P : ℕ → ℕ → Type 0)
    → HasClasses p rep
    → Decides rep P
    → merge_bits p as' bs ≡ ok q
    → Joins p (Also P as' bs) q
unfolding merge_bits Paired
merge_bits-Joins [] bs p q rep P c d h = subst (Joins p _) (ok_injective h) unchanged
  where
    only : (x y : ℕ) → P x y ⊎ ⊥ → P x y
    only x y (inl e) = e
    only x y (inr e) = absurd e

    unchanged : Joins p (Also P [] bs) p
    unchanged = record {
      sized = refl;
      rep = rep;
      classes = c;
      decides = Decides-map rep P _ (λ x y e. inl e) only d;
    }
merge_bits-Joins (a ∷ as') [] p q rep P c d h =
    subst (Joins p _) (ok_injective (stop a h)) unchanged
  where
    stop : (a : Option ℕ) → merge_bits p (a ∷ as') [] ≡ ok q → ok p ≡ ok q
    stop none h = h
    stop (some a) h = h

    only : (a : Option ℕ) (x y : ℕ) → P x y ⊎ Paired (a ∷ as') [] x y → P x y
    only none x y (inl e) = e
    only none x y (inr e) = absurd e
    only (some a) x y (inl e) = e
    only (some a) x y (inr e) = absurd e

    unchanged : Joins p (Also P (a ∷ as') []) p
    unchanged = record {
      sized = refl;
      rep = rep;
      classes = c;
      decides = Decides-map rep P _ (λ x y e. inl e) (only a) d;
    }
merge_bits-Joins (none ∷ as') (none ∷ bs) p q rep P c d h = merge_bits-Joins as' bs p q rep P c d h
merge_bits-Joins (none ∷ as') (some b ∷ bs) p q rep P c d h =
    merge_bits-Joins as' bs p q rep P c d h
merge_bits-Joins (some a ∷ as') (none ∷ bs) p q rep P c d h =
    merge_bits-Joins as' bs p q rep P c d h
merge_bits-Joins (some a ∷ as') (some b ∷ bs) p q rep P c d h =
    let (g, h') = require-ok (ltb a (length p) && ltb b (length p)) _ _ h in
    let (a_in, b_in) = within a b (length p) g in
    let m = merge-Merged rep p c a b a_in b_in in
    let rest =
      merge_bits-Joins as' bs (merge p a b) q (joined rep (rep a) (rep b)) (Added rep P d a b)
        m.classes (joined-Decides rep P d a b) h' in
    record {
      sized = rest.sized ∙ m.sized;
      rep = rest.rep;
      classes = rest.classes;
      decides = Decides-map rest.rep _ _ out back_in rest.decides;
    }
  where
    out :
        (x y : ℕ)
        → (P x y ⊎ ((x ≡ a) × (y ≡ b))) ⊎ Paired as' bs x y
        → P x y ⊎ ((x ≡ a) × (y ≡ b)) ⊎ Paired as' bs x y
    out x y (inl (inl e)) = inl e
    out x y (inl (inr e)) = inr (inl e)
    out x y (inr e) = inr (inr e)

    back_in :
        (x y : ℕ)
        → P x y ⊎ ((x ≡ a) × (y ≡ b)) ⊎ Paired as' bs x y
        → (P x y ⊎ ((x ≡ a) × (y ≡ b))) ⊎ Paired as' bs x y
    back_in x y (inl e) = inl (inl e)
    back_in x y (inr (inl e)) = inl (inr e)
    back_in x y (inr (inr e)) = inr e
