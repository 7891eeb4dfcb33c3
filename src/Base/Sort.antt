-- ===== src/Base/Sort.antt =====
-- `sort.Strings`. The order of strings is total and antisymmetric, so the sorted list is determined
-- by what the list holds, whatever the algorithm.
use Prim.Native.Nat.{suc}
use Prim.Native.String.{String}
use mathlib.Core.Path.{◌≡◌, refl, sym, ap, ◌∙◌, subst}
use mathlib.Core.Logic.{∥∥₁_elim, inl, inr}
use mathlib.Core.List.{List, [], ◌∷◌, Perm, Permᴰ}
use mathlib.Core.List.Perm
use mathlib.Core.HLevel.{hedberg}
use native.Mathlib.Omega.{arith}
use proton_carddav_sync.Base.Tests.{if◌then◌else◌, Bool-cases, string_eq}
use proton_carddav_sync.Base.Lists.{length}
use proton_carddav_sync.Base.Text.{str_leb, str_leb_total, str_leb_antisymm, str_leb_trans}

insert_sorted : String → List String → List String
insert_sorted x [] = x ∷ []
insert_sorted x (y ∷ ys) = if str_leb x y then x ∷ y ∷ ys else y ∷ insert_sorted x ys

unfoldable pub sort : List String → List String
unfolding insert_sorted str_leb
sort [] = []
sort (x ∷ xs) = insert_sorted x (sort xs)

insert_sorted_comm :
    (x y : String) (l : List String)
    → insert_sorted x (insert_sorted y l) ≡ insert_sorted y (insert_sorted x l)
unfolding insert_sorted
insert_sorted_comm x y [] = ground (arith, str_leb_total x y, str_leb_antisymm x y)
insert_sorted_comm x y (z ∷ l) = ground (
  arith,
  str_leb_total x y,
  str_leb_antisymm x y,
  str_leb_trans x y z,
  str_leb_trans y x z,
  str_leb_trans x z y,
  str_leb_trans y z x,
  str_leb_total x z,
  str_leb_total y z,
  insert_sorted_comm x y l,
)

String-set : IsSet String
String-set = hedberg string_eq.dec

List_String-set : IsSet (List String)
List_String-set = hlevel String-set

sort-permᴰ : {xs ys : List String} → Permᴰ xs ys → sort xs ≡ sort ys
unfolding sort
sort-permᴰ Permᴰ.nil = refl
sort-permᴰ (Permᴰ.cons e p) = cc (e, sort-permᴰ p)
sort-permᴰ (Permᴰ.swap {a = a} {b = b} {l = l} e f) =
    rw (← e, ← f) (insert_sorted_comm a b (sort l))
sort-permᴰ (Permᴰ.trans p q) = sort-permᴰ p ∙ sort-permᴰ q

insert_sorted-perm : (x : String) (l : List String) → Perm (insert_sorted x l) (x ∷ l)
unfolding insert_sorted
insert_sorted-perm x [] = Perm.refl _
insert_sorted-perm x (y ∷ l) = elim (Bool-cases (str_leb x y)) [
  | inl h ↦ rw h (Perm.refl _)
  | inr h ↦ rw h (Perm.trans (Perm.cons y (insert_sorted-perm x l)) (Perm.swap x y l))
]

-- Sorting permutes.
pub sort-perm : (l : List String) → Perm (sort l) l
unfolding sort
sort-perm [] = Perm.refl []
sort-perm (x ∷ l) = Perm.trans (insert_sorted-perm x (sort l)) (Perm.cons x (sort-perm l))

-- Two lists sort alike exactly when they hold the same strings, as often.
pub sort-eq_of_perm : {xs ys : List String} → Perm xs ys → sort xs ≡ sort ys
sort-eq_of_perm p = ∥∥₁_elim p (List_String-set _ _) sort-permᴰ

pub perm_of_sort-eq : (xs ys : List String) → sort xs ≡ sort ys → Perm xs ys
perm_of_sort-eq xs ys e =
    Perm.trans (Perm.symm (sort-perm xs)) (subst (λ l. Perm l ys) (sym e) (sort-perm ys))

length-insert_sorted : (x : String) (l : List String) → length (insert_sorted x l) ≡ suc (length l)
unfolding insert_sorted
length-insert_sorted x [] = refl
length-insert_sorted x (y ∷ l) = ground (arith, length-insert_sorted x l)

pub length-sort : (l : List String) → length (sort l) ≡ length l
unfolding sort
length-sort [] = refl
length-sort (x ∷ l) = length-insert_sorted x (sort l) ∙ ap suc (length-sort l)
