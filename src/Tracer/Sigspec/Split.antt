-- ===== src/Tracer/Sigspec/Split.antt =====
-- Graph.aliases of scripts/trace_full_array_path.py tells the two signals of a connection apart.
use core_from_home.Base.{
  ℕ, zero, suc, Option, none, some, List, [], ◌∷◌, length, ◌≡◌, refl, ap, ◌∙◌, ◌==◌,
}
use core_from_home.Tracer.Result.{ok, Error, ◌>>◌, require}
use core_from_home.Tracer.Roots.{merge_bits}
use core_from_home.Tracer.Sigspec.{
  Token, left_brace, right_brace, slice, index, sized, unsized, name, Wires, after, to_close,
  or_first, with_selection, split, aliases,
}
use core_from_home.Tracer.Sigspec.Print.{
  whole, range, single, Signal, wire, constant, integer, concat, Parts, nothing, part, print,
  print_parts, Stands, IsFree,
}
use core_from_home.Tracer.Sigspec.Parse.{print-IsFree, bits-print}

onto :
    (List Token → List Token) → Option (List Token × List Token) → Option (List Token × List Token)
onto f none = none
onto f (some (a, b)) = some (f a, b)

after-eq : (t : Token) (m : Option (List Token × List Token)) → after t m ≡ onto (λ a. t ∷ a) m
unfolding onto
after-eq t none = refl
after-eq t (some m) = refl

after-onto :
    (t : Token) (f : List Token → List Token) (m : Option (List Token × List Token))
    → after t (onto f m) ≡ onto (λ a. t ∷ f a) m
unfolding onto
after-onto t f none = refl
after-onto t f (some m) = refl

onto-onto :
    (f g : List Token → List Token) (m : Option (List Token × List Token))
    → onto f (onto g m) ≡ onto (λ a. f (g a)) m
unfolding onto
onto-onto f g none = refl
onto-onto f g (some m) = refl

-- The end of the text at the brace that closes the outermost concatenation.
close : ℕ → List Token → Option (List Token × List Token)
unfolding to_close
close zero rest = some ([], rest)
close (suc depth) rest = to_close (suc depth) rest

to_close-brace :
    (depth : ℕ) (rest : List Token)
    → to_close (suc depth) (right_brace ∷ rest) ≡ after right_brace (close depth rest)
unfolding to_close close
to_close-brace zero rest = refl
to_close-brace (suc depth) rest = refl

mutual
  unfolding print to_close close

  to_close-print :
      (depth : ℕ) (s : Signal) (rest : List Token)
      → to_close (suc depth) (print s rest) ≡ onto (print s) (to_close (suc depth) rest)
  to_close-print depth (wire key whole) rest = after-eq (name key) (to_close (suc depth) rest)
  to_close-print depth (wire key (range hi lo)) rest =
      ap (after (name key)) (after-eq (slice hi lo) (to_close (suc depth) rest))
      ∙ after-onto (name key) (λ a. slice hi lo ∷ a) (to_close (suc depth) rest)
  to_close-print depth (wire key (single i)) rest =
      ap (after (name key)) (after-eq (index i) (to_close (suc depth) rest))
      ∙ after-onto (name key) (λ a. index i ∷ a) (to_close (suc depth) rest)
  to_close-print depth (constant width) rest = after-eq (sized width) (to_close (suc depth) rest)
  to_close-print depth integer rest = after-eq unsized (to_close (suc depth) rest)
  to_close-print depth (concat parts) rest =
      ap (after left_brace) (to_close-print_parts (suc depth) parts rest)
      ∙ after-onto left_brace (print_parts parts) (to_close (suc depth) rest)

  to_close-print_parts :
      (depth : ℕ) (parts : Parts) (rest : List Token)
      → to_close (suc depth) (print_parts parts rest) ≡ onto (print_parts parts) (close depth rest)
  to_close-print_parts depth nothing rest =
      to_close-brace depth rest ∙ after-eq right_brace (close depth rest)
  to_close-print_parts depth (part s parts) rest =
      to_close-print depth s (print_parts parts rest)
      ∙ ap (onto (print s)) (to_close-print_parts depth parts rest)
      ∙ onto-onto (print s) (print_parts parts) (close depth rest)

with_selection-IsFree :
    (t : Token) (rest : List Token) → IsFree rest → with_selection t rest ≡ (t ∷ [], rest)
unfolding with_selection
with_selection-IsFree t [] free = refl
with_selection-IsFree t (slice hi lo ∷ rest) free = absurd free
with_selection-IsFree t (index i ∷ rest) free = absurd free
with_selection-IsFree t (left_brace ∷ rest) free = refl
with_selection-IsFree t (right_brace ∷ rest) free = refl
with_selection-IsFree t (sized width ∷ rest) free = refl
with_selection-IsFree t (unsized ∷ rest) free = refl
with_selection-IsFree t (name key ∷ rest) free = refl

-- The first signal of a connection ends where the second starts.
split-print :
    (s : Signal) (rest : List Token) → IsFree rest → split (print s rest) ≡ ok (print s [], rest)
unfolding split print with_selection onto close
split-print (wire key whole) rest free = ap ok (with_selection-IsFree (name key) rest free)
split-print (wire key (range hi lo)) rest free = refl
split-print (wire key (single i)) rest free = refl
split-print (constant width) rest free = ap ok (with_selection-IsFree (sized width) rest free)
split-print integer rest free = ap ok (with_selection-IsFree unsized rest free)
split-print (concat parts) rest free =
    ap (λ m. ok (or_first left_brace (print_parts parts rest) m))
      (to_close-print_parts 0 parts rest)

-- A connection of two signals, as Yosys writes it, pairs the bits that they stand for, and fails
-- where their widths differ.
pub aliases-print :
    (wires : Wires) (parent : List ℕ) (s t : Signal) (lhs rhs : List (Option ℕ))
    → Stands wires s lhs
    → Stands wires t rhs
    → aliases wires parent (print s (print t []))
      ≡ (require (length lhs == length rhs) Error.alias_width >> merge_bits parent lhs rhs)
unfolding aliases
aliases-print wires parent s t lhs rhs v w =
    rw
      (
        split-print s (print t []) (print-IsFree t []),
        bits-print wires s lhs v,
        bits-print wires t rhs w,
      )
      refl
