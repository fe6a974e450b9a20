-- ===== src/Tracer/Build/Registers.antt =====
-- Registers in Graph.second_pass of scripts/trace_full_array_path.py keep what holds of the arrays.
use core_from_home.Base.{ℕ, not, ◌==◌, Option, none, some, List, [], ◌∷◌, length, ◌≡◌, subst}
use core_from_home.Tracer.Build.{
  Arrays, Ports, port, is_driven, value_bits, pair_outputs, register_bit, register_bits,
  finish_output, finish_peers, finish_ff,
}
use core_from_home.Tracer.Build.Invariant.{
  AreNode, IsArrays, find-Found, not_driven, AllNodes-append,
}
use core_from_home.Tracer.Result.{ok, require-ok, ok_injective, err-ne-ok, >>=-ok}
use core_from_home.Tracer.Roots.{find}
use core_from_home.Tracer.Sigspec.{Token, Wires, bits}
use core_from_home.Tracer.Build.Drivers.{register-IsGraph}

module _ (rep : ℕ → ℕ) (n : ℕ) where
  pair_outputs-IsArrays :
      (ps ns : List (Option ℕ)) (a a' : Arrays)
      → IsArrays rep n a
      → pair_outputs ps ns a ≡ ok a'
      → IsArrays rep n a'
  unfolding pair_outputs
  pair_outputs-IsArrays [] ns a a' w h = subst (IsArrays rep n) (ok_injective h) w
  pair_outputs-IsArrays (p ∷ ps) [] a a' w h = subst (IsArrays rep n) (ok_injective h) w
  pair_outputs-IsArrays (p ∷ ps) (m ∷ ms) a a' w h =
      let (r, f, h1) = >>=-ok (find a.parent p) _ h in
      let x = find-Found rep n a.parent p r w.classes w.sized f in
      let (s, f1, h2) = >>=-ok (find r.0 m) _ h1 in
      let y = find-Found rep n r.0 m s x.classes x.sized f1 in
      pair_outputs-IsArrays ps ms _ a'
        (record { classes = y.classes; sized = y.sized; graph = w.graph; ends = w.ends }) h2

  register_bit-IsArrays :
      (q d : Option ℕ) (a a' : Arrays)
      → IsArrays rep n a
      → AreNode rep n q
      → AreNode rep n d
      → register_bit q d a ≡ ok a'
      → IsArrays rep n a'
  unfolding register_bit
  register_bit-IsArrays none d a a' w node end h = subst (IsArrays rep n) (ok_injective h) w
  register_bit-IsArrays (some q) none a a' w node end h =
      let (undriven, h1) = require-ok (not (is_driven a.graph q)) _ _ h in
      subst (IsArrays rep n) (ok_injective h1) (record {
        classes = w.classes;
        sized = w.sized;
        graph = register-IsGraph rep n a.graph q w.graph node (not_driven a.graph q undriven).0;
        ends = w.ends;
      })
  register_bit-IsArrays (some q) (some d) a a' w node end h =
      let (undriven, h1) = require-ok (not (is_driven a.graph q)) _ _ h in
      subst (IsArrays rep n) (ok_injective h1) (record {
        classes = w.classes;
        sized = w.sized;
        graph = register-IsGraph rep n a.graph q w.graph node (not_driven a.graph q undriven).0;
        ends = AllNodes-append rep n a.ff_d d w.ends end;
      })

  register_bits-IsArrays :
      (qs ds : List (Option ℕ)) (a a' : Arrays)
      → IsArrays rep n a
      → register_bits qs ds a ≡ ok a'
      → IsArrays rep n a'
  unfolding register_bits
  register_bits-IsArrays [] ds a a' w h = subst (IsArrays rep n) (ok_injective h) w
  register_bits-IsArrays (q ∷ qs) [] a a' w h = subst (IsArrays rep n) (ok_injective h) w
  register_bits-IsArrays (q ∷ qs) (d ∷ ds) a a' w h =
      let (r, f, h1) = >>=-ok (find a.parent q) _ h in
      let x = find-Found rep n a.parent q r w.classes w.sized f in
      let (s, f1, h2) = >>=-ok (find r.0 d) _ h1 in
      let y = find-Found rep n r.0 d s x.classes x.sized f1 in
      let (b, f2, h3) = >>=-ok (register_bit r.1 s.1 (record a { parent = s.0 })) _ h2 in
      register_bits-IsArrays qs ds b a'
        (register_bit-IsArrays r.1 s.1 _ b
          (record { classes = y.classes; sized = y.sized; graph = w.graph; ends = w.ends }) x.node
          y.node f2)
        h3

  finish_output-IsArrays :
      (wires : Wires) (ds : List (Option ℕ)) (value : Option (List Token)) (a a' : Arrays)
      → IsArrays rep n a
      → finish_output wires ds value a ≡ ok a'
      → IsArrays rep n a'
  unfolding finish_output
  finish_output-IsArrays wires ds none a a' w h = subst (IsArrays rep n) (ok_injective h) w
  finish_output-IsArrays wires ds (some toks) a a' w h =
      let (qs, f, h1) = >>=-ok (bits wires toks) _ h in
      let (same, h2) = require-ok (length qs == length ds) _ _ h1 in
      register_bits-IsArrays qs ds a a' w h2

  finish_peers-IsArrays :
      (wires : Wires) (ds : List (Option ℕ)) (q qn : Option (List Token)) (a a' : Arrays)
      → IsArrays rep n a
      → finish_peers wires ds q qn a ≡ ok a'
      → IsArrays rep n a'
  unfolding finish_peers
  finish_peers-IsArrays wires ds none none a a' w h = absurd (err-ne-ok h)
  finish_peers-IsArrays wires ds (some q) none a a' w h = subst (IsArrays rep n) (ok_injective h) w
  finish_peers-IsArrays wires ds none (some qn) a a' w h = subst (IsArrays rep n) (ok_injective h) w
  finish_peers-IsArrays wires ds (some q) (some qn) a a' w h =
      let (ps, f, h1) = >>=-ok (bits wires q) _ h in
      let (ns, f1, h2) = >>=-ok (bits wires qn) _ h1 in
      let (same, h3) = require-ok (length ps == length ds) _ _ h2 in
      let (same', h4) = require-ok (length ns == length ds) _ _ h3 in
      pair_outputs-IsArrays ps ns a a' w h4

  pub finish_ff-IsArrays :
      (wires : Wires) (ports : Ports) (a a' : Arrays)
      → IsArrays rep n a
      → finish_ff wires ports a ≡ ok a'
      → IsArrays rep n a'
  unfolding finish_ff
  finish_ff-IsArrays wires ports a a' w h =
      let (ds, f, h1) = >>=-ok (value_bits wires (port "D" ports)) _ h in
      let (b, f1, h2) = >>=-ok (finish_peers wires ds (port "Q" ports) (port "QN" ports) a) _ h1 in
      let (c, f2, h3) = >>=-ok (finish_output wires ds (port "Q" ports) b) _ h2 in
      finish_output-IsArrays wires ds (port "QN" ports) c a'
        (finish_output-IsArrays wires ds (port "Q" ports) b c
          (finish_peers-IsArrays wires ds (port "Q" ports) (port "QN" ports) a b w f1) f2)
        h3
