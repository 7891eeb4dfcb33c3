-- ===== src/VcardSync/Fields/Order.antt =====
-- internal/vcardsync/merge.go, fieldsEqual: groups of properties, and the order of their fields.
use mathlib.Core.List.{Perm}
use proton_carddav_sync.Base.{
  ◌≡◌, ◌↔◌, suc, refl, sym, ap, ◌∙◌, String, true, List, [], ◌∷◌, length, arith, string_eq, nat_eq,
}
use proton_carddav_sync.Base.Sort.{length-sort, sort-eq_of_perm, perm_of_sort-eq}
use proton_carddav_sync.Vcard.{Field}
use proton_carddav_sync.VcardSync.Fields.{key_list, field_keys, keys_match, fields_equal}

keys_match_refl : (ka : List String) → keys_match ka ka ≡ true
unfolding keys_match
keys_match_refl [] = refl
keys_match_refl (a ∷ ka) = ground (arith, keys_match_refl ka)

eq_of_keys_match : (ka kb : List String) → length ka ≡ length kb → keys_match ka kb ≡ true → ka ≡ kb
unfolding keys_match
eq_of_keys_match [] [] n h = refl
eq_of_keys_match [] (b ∷ kb) n h = absurd (omega arith)
eq_of_keys_match (a ∷ ka) [] n h = absurd (omega arith)
eq_of_keys_match (a ∷ ka) (b ∷ kb) n h = ground (arith, eq_of_keys_match ka kb)

length-field_keys : (a : List Field) → length (field_keys a) ≡ length a
unfolding field_keys
length-field_keys a = length-sort (key_list a) ∙ length-key_list a
  where
    length-key_list : (fs : List Field) → length (key_list fs) ≡ length fs
    length-key_list [] = refl
    length-key_list (f ∷ fs) = ap suc (length-key_list fs)

fields_equal_of_keys : (a b : List Field) → field_keys a ≡ field_keys b → fields_equal a b ≡ true
unfolding fields_equal
fields_equal_of_keys a b e = ground (
  arith,
  length-field_keys a,
  length-field_keys b,
  ap length e,
  rw e at (keys_match_refl (field_keys a)),
)

keys_of_fields_equal : (a b : List Field) → fields_equal a b ≡ true → field_keys a ≡ field_keys b
unfolding fields_equal
keys_of_fields_equal a b h = ground (
  arith,
  length-field_keys a,
  length-field_keys b,
  eq_of_keys_match (field_keys a) (field_keys b),
)

-- Two groups of fields compare equal exactly when their fields, each as the text of its value and
-- its sorted parameters, are the same up to order, with the same multiplicity.
pub fields_equal_iff :
    (a b : List Field) → (fields_equal a b ≡ true) ↔ Perm (key_list a) (key_list b)
unfolding field_keys
fields_equal_iff a b = (
  λ h. perm_of_sort-eq _ _ (keys_of_fields_equal a b h),
  λ p. fields_equal_of_keys a b (sort-eq_of_perm p),
)

pub fields_equal_refl : (a : List Field) → fields_equal a a ≡ true
fields_equal_refl a = fields_equal_of_keys a a refl

pub fields_equal_symm : (a b : List Field) → fields_equal a b ≡ true → fields_equal b a ≡ true
fields_equal_symm a b h = fields_equal_of_keys b a (sym (keys_of_fields_equal a b h))

pub fields_equal_trans :
    (a b c : List Field)
    → fields_equal a b ≡ true
    → fields_equal b c ≡ true
    → fields_equal a c ≡ true
fields_equal_trans a b c h k =
    fields_equal_of_keys a c (keys_of_fields_equal a b h ∙ keys_of_fields_equal b c k)

-- An empty group equals only an empty group.
pub fields_equal-nil : (a : List Field) → fields_equal a [] ≡ true → a ≡ []
unfolding fields_equal
fields_equal-nil [] h = refl
fields_equal-nil (f ∷ a) h = ground arith
