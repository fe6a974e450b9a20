-- ===== src/Tracer/Build/Invariant.antt =====
-- What holds of the arrays while Graph.second_pass of scripts/trace_full_array_path.py fills them.
use core_from_home.Base.{
  ℕ, zero, suc, ◌+◌, ◌<◌, Bool, true, false, not, ◌||◌, ◌==◌, if◌then◌else◌, Option, none, some,
  List, [], ◌∷◌, ◌++◌, length, update, get_or, ◌≡◌, ◌≢◌, sym, subst, ◌∙◌, arith, ltb, ltb→lt,
}
use core_from_home.Tracer.Build.{Arrays, is_driven}
use core_from_home.Tracer.Graph.{Graph, pred}
use core_from_home.Tracer.Result.{ok, require-ok, ok_injective}
use core_from_home.Tracer.Roots.{find, root}
use core_from_home.Tracer.Roots.Classes.{HasClasses, root-Roots}

-- 1 where the entry is p.
abbrev pub hits : ℕ → Option ℕ → ℕ
hits p none = 0
hits p (some q) = if q == p then 1 else 0

-- The entries that are p.
unfoldable pub count : ℕ → List (Option ℕ) → ℕ
count p [] = 0
count p (x ∷ xs) = hits p x + count p xs

pub count-update :
    (p : ℕ) (xs : List (Option ℕ)) (i : ℕ) (v : Option ℕ)
    → i < length xs
    → count p (update xs i v) + hits p (get_or xs i none) ≡ count p xs + hits p v
unfolding count
count-update p [] i v h = absurd (omega arith)
count-update p (x ∷ xs) zero v h = omega arith
count-update p (x ∷ xs) (suc i) v h = omega (arith, count-update p xs i v (omega arith))

-- The inputs of gates that p drives.
abbrev pub uses : Graph → ℕ → ℕ
uses g p = count p g.pred0 + count p g.pred1 + count p g.pred2

module _ (rep : ℕ → ℕ) (n : ℕ) where
  -- A node of the graph stands for its class.
  abbrev pub IsNode : ℕ → Type 0
  IsNode p = (p < n) × (rep p ≡ p)

  abbrev pub AreNode : Option ℕ → Type 0
  AreNode none = Unit {0}
  AreNode (some p) = IsNode p

  unfoldable pub AllNodes : List ℕ → Type 0
  AllNodes [] = Unit {0}
  AllNodes (p ∷ ps) = IsNode p × AllNodes ps

  pub AllNodes-append : (ps : List ℕ) (p : ℕ) → AllNodes ps → IsNode p → AllNodes (ps ++ (p ∷ []))
  unfolding AllNodes
  AllNodes-append [] p a b = (b, tt)
  AllNodes-append (x ∷ ps) p (w, a) b = (w, AllNodes-append ps p a b)

  -- Gates and registers are nodes, and no node is both; the inputs of gates are nodes, nothing else
  -- has inputs, and the fanout of a node counts the inputs that it drives.
  pub record IsGraph (g : Graph) : Type 0 where
    pub size_eq : g.size ≡ n
    pub kinds : length g.kind ≡ n
    pub registers : length g.register ≡ n
    pub fanouts : length g.fanout ≡ n
    pub preds0 : length g.pred0 ≡ n
    pub preds1 : length g.pred1 ≡ n
    pub preds2 : length g.pred2 ≡ n
    pub inputs : (i m p : ℕ) → i < 3 → pred g i m ≡ some p → IsNode p
    pub gate_root : (m : ℕ) → get_or g.kind m 0 ≢ 0 → rep m ≡ m
    pub register_root : (m : ℕ) → get_or g.register m false ≡ true → rep m ≡ m
    pub single : (m : ℕ) → get_or g.kind m 0 ≢ 0 → get_or g.register m false ≡ false
    pub blank : (i m : ℕ) → i < 3 → get_or g.kind m 0 ≡ 0 → pred g i m ≡ none
    pub counted : (p : ℕ) → p < n → get_or g.fanout p 0 ≡ uses g p

  pub record IsArrays (a : Arrays) : Type 0 where
    pub classes : HasClasses a.parent rep
    pub sized : length a.parent ≡ n
    pub graph : IsGraph a.graph
    pub ends : AllNodes a.ff_d

  pub record Found (p : List ℕ) (x : Option ℕ) : Type 0 where
    pub classes : HasClasses p rep
    pub sized : length p ≡ n
    pub node : AreNode x

  -- A root that is found is a node, and no class changes.
  pub find-Found :
      (p : List ℕ) (bit : Option ℕ) (r : List ℕ × Option ℕ)
      → HasClasses p rep
      → length p ≡ n
      → find p bit ≡ ok r
      → Found r.0 r.1
  unfolding find
  find-Found p none r c e h =
      subst (λ r. Found r.0 r.1) (ok_injective h) (record { classes = c; sized = e; node = tt })
  find-Found p (some b) r c e h =
      let (lt, h') = require-ok (ltb b (length p)) _ _ h in
      let x = root-Roots rep p b c (ltb→lt b (length p) lt) in
      let in_range = subst (λ l. (root p b).1 < l) (sym x.sized) x.node in
      subst (λ r. Found r.0 r.1) (ok_injective h')
        (record {
          classes = x.classes;
          sized = x.sized ∙ e;
          node =
              (subst (λ l. (root p b).1 < l) e x.node, x.classes.forest.fixed _ in_range x.stops);
        })

pub not_driven :
    (g : Graph) (y : ℕ)
    → not (is_driven g y) ≡ true
    → (get_or g.kind y 0 ≡ 0) × (get_or g.register y false ≡ false)
not_driven g y h = split (get_or g.register y false) h
  where
    split :
        (b : Bool)
        → not (not (get_or g.kind y 0 == 0) || b) ≡ true
        → (get_or g.kind y 0 ≡ 0) × (b ≡ false)
    split b h = ground arith
