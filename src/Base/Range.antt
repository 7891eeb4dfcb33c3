-- ===== src/Base/Range.antt =====
-- `for k := range set`: Go visits every key once, in an order that it leaves open.
use mathlib.Core.Bool.{Bool-discrete}
use mathlib.Core.HLevel.{hedberg}
use mathlib.Core.Logic.{∥∥₁_elim}
use mathlib.Core.List.{Perm, Permᴰ}
use mathlib.Core.Path.{◌≡◌, refl, ◌∙◌}
use mathlib.Core.Bool.{Bool, true, ◌||◌, ◌&&◌, not}
use mathlib.Core.List.{List, [], ◌∷◌, ◌++◌}
use native.Mathlib.Omega.{arith}
use Prim.Native.String.{String}
use proton_carddav_sync.Base.Tests.{◌==◌, contains, string_eq, if◌then◌else◌}

pub record IsRange (visit : List String → List String) : Type 0 where
  pub visits : (l : List String) → Perm (visit l) l

contains-permᴰ : (k : String) {xs ys : List String} → Permᴰ xs ys → contains xs k ≡ contains ys k
contains-permᴰ k Permᴰ.nil = refl
contains-permᴰ k (Permᴰ.cons e p) = cc (e, contains-permᴰ k p)
contains-permᴰ k (Permᴰ.swap {a = a} {b = b} e f) = rw (← e, ← f) (ground arith)
contains-permᴰ k (Permᴰ.trans p q) = contains-permᴰ k p ∙ contains-permᴰ k q

pub contains-perm : (k : String) {xs ys : List String} → Perm xs ys → contains xs k ≡ contains ys k
contains-perm k p = ∥∥₁_elim p (hedberg Bool-discrete _ _) (contains-permᴰ k)

pub contains-append :
    (xs ys : List String) (n : String) → contains (xs ++ ys) n ≡ (contains xs n || contains ys n)
contains-append [] ys n = refl
contains-append (x ∷ xs) ys n = ground (arith, contains-append xs ys n)

-- `set[k] = struct{}{}`
unfoldable pub add_key : String → List String → List String
add_key k [] = k ∷ []
add_key k (j ∷ ks) = if k == j then j ∷ ks else j ∷ add_key k ks

pub contains-add_key :
    (n k : String) (ks : List String) → contains (add_key k ks) n ≡ ((n == k) || contains ks n)
unfolding add_key
contains-add_key n k [] = refl
contains-add_key n k (j ∷ ks) = ground (arith, contains-add_key n k ks)

-- No text occurs twice.
unfoldable pub all_new : List String → Bool
all_new [] = true
all_new (k ∷ ks) = not (contains ks k) && all_new ks

all_new-permᴰ : {xs ys : List String} → Permᴰ xs ys → all_new xs ≡ all_new ys
unfolding all_new
all_new-permᴰ Permᴰ.nil = refl
all_new-permᴰ (Permᴰ.cons {a = a} e p) = rw (← e) (cc (contains-permᴰ a p, all_new-permᴰ p))
all_new-permᴰ (Permᴰ.swap {a = a} {b = b} e f) = rw (← e, ← f) (ground arith)
all_new-permᴰ (Permᴰ.trans p q) = all_new-permᴰ p ∙ all_new-permᴰ q

all_new-perm : {xs ys : List String} → Perm xs ys → all_new xs ≡ all_new ys
all_new-perm p = ∥∥₁_elim p (hedberg Bool-discrete _ _) all_new-permᴰ

all_new-add_key :
    (k : String) (ks : List String) → all_new ks ≡ true → all_new (add_key k ks) ≡ true
unfolding all_new add_key
all_new-add_key k [] h = refl
all_new-add_key k (j ∷ ks) h = ground (arith, all_new-add_key k ks, contains-add_key j k ks)

-- The keys of a map, added to a set.
unfoldable pub add_all : List String → List String → List String
unfolding add_key
add_all [] set = set
add_all (k ∷ ks) set = add_all ks (add_key k set)

all_new-add_all : (ks set : List String) → all_new set ≡ true → all_new (add_all ks set) ≡ true
unfolding add_all
all_new-add_all [] set h = h
all_new-add_all (k ∷ ks) set h = all_new-add_all ks (add_key k set) (all_new-add_key k set h)

contains-add_all :
    (n : String) (ks set : List String)
    → contains (add_all ks set) n ≡ (contains ks n || contains set n)
unfolding add_all
contains-add_all n [] set = refl
contains-add_all n (k ∷ ks) set =
    ground (arith, contains-add_all n ks (add_key k set), contains-add_key n k set)

-- `range` over the keys of two maps: each of them once.
module _ (visit : List String → List String) (range : IsRange visit) (a b : List String) where
  pub all_new-visit : all_new (visit (add_all b (add_all a []))) ≡ true
  unfolding all_new
  all_new-visit =
      all_new-perm (range.visits _) ∙ all_new-add_all b (add_all a []) (all_new-add_all a [] refl)

  pub contains-visit :
      (n : String) → contains (visit (add_all b (add_all a []))) n ≡ (contains b n || contains a n)
  contains-visit n = ground (
    arith,
    contains-perm n (range.visits (add_all b (add_all a []))),
    contains-add_all n b (add_all a []),
    contains-add_all n a [],
  )
