-- ===== src/VcardSync/Strings/Settled.antt =====
-- The functions on vCard texts where nothing happened since the last sync.
use proton_carddav_sync.Base.{
  ◌≡◌, ◌≢◌, ◌⊎◌, ◌∙◌, refl, sym, ap, subst, inl, inr, String, true, false, ◌||◌, List, [], ◌∷◌,
  contains, string_eq, arith,
}
use proton_carddav_sync.Base.Dict.{keys}
use proton_carddav_sync.Base.Range.{IsRange, add_key, contains-add_key}
use proton_carddav_sync.Base.Result.{ok}
use proton_carddav_sync.Library.{Library, Prints}
use proton_carddav_sync.Vcard.{Field, Card, fields_of, field_version}
use proton_carddav_sync.VcardSync.Fields.{fields_equal, add_keys, union_keys}
use proton_carddav_sync.VcardSync.Fields.Order.{
  fields_equal_refl, fields_equal-nil, fields_equal_symm, fields_equal_trans,
}
use proton_carddav_sync.VcardSync.ThreeWay.{is_empty}
use proton_carddav_sync.VcardSync.ThreeWay.Settled.{IsBase, Covers, settled_alike}
use proton_carddav_sync.VcardSync.Strings.{
  Policy, winner_by, decode_or_empty, three_way_string, equal_string, proton_relevant_diff,
}
use proton_carddav_sync.VcardSync.Strings.Reparse.{IsFull, Reparses, Four, four-Merged}
use proton_carddav_sync.VcardSync.Strings.Laws.{equal_string_iff, proton_relevant_diff_iff}

contains-add_keys :
    (n : String) (card : Card) (ks : List String)
    → contains (add_keys card ks) n ≡ (contains (keys card) n || contains ks n)
unfolding add_keys keys
contains-add_keys n [] ks = refl
contains-add_keys n ((name, fs) ∷ card) ks =
    ground (arith, contains-add_keys n card (add_key name ks), contains-add_key n name ks)

contains-union_keys :
    (n : String) (a b : Card)
    → contains (union_keys (a ∷ b ∷ []) []) n ≡ true
    → (contains (keys a) n ≡ true) ⊎ (contains (keys b) n ≡ true)
unfolding union_keys
contains-union_keys n a b h =
    ground (arith, contains-add_keys n b (add_keys a []), contains-add_keys n a [])

not_empty_alike :
    (a b : List Field) → fields_equal a b ≡ true → is_empty a ≡ false → is_empty b ≡ false
unfolding is_empty
not_empty_alike a [] h e = cc (fields_equal-nil a h, e)
not_empty_alike a (f ∷ b) h e = refl

-- What covers a card does so with other fields that are like its own.
pub Covers-alike :
    (pr m cd : Card)
    → Covers pr m
    → ((n : String) → fields_equal (fields_of m n) (fields_of cd n) ≡ true)
    → Covers pr cd
Covers-alike pr m cd covers alike = record {
  modelled = λ n other present.
      fields_equal_trans _ _ _ (fields_equal_symm _ _ (alike n)) (covers.modelled n other present);
  version = not_empty_alike _ _ (alike field_version) covers.version;
}

pub Covers-refl : (card : Card) → is_empty (fields_of card field_version) ≡ false → Covers card card
Covers-refl card version = record {
  modelled = λ n other present. fields_equal_refl _;
  version = version;
}

IsBase-present :
    (base now : Card) (n : String) → IsBase base now → fields_of base n ≢ [] → fields_of now n ≢ []
IsBase-present base now n b present absent = present (
    fields_equal-nil (fields_of base n)
      (subst (λ x. fields_equal (fields_of base n) x ≡ true) absent (b.same n)))

module _ (lib : Library) where
  -- The texts of a contact on the two sides, and its bases.
  pub record IsSettled (pb cb p c : String) : Type 0 where
    pub proton_base : Card
    pub carddav_base : Card
    pub proton : Card
    pub carddav : Card
    pub proton_base_parses : decode_or_empty lib pb ≡ ok proton_base
    pub carddav_base_parses : decode_or_empty lib cb ≡ ok carddav_base
    pub proton_parses : decode_or_empty lib p ≡ ok proton
    pub carddav_parses : decode_or_empty lib c ≡ ok carddav
    pub proton_IsBase : IsBase proton_base proton
    pub carddav_IsBase : IsBase carddav_base carddav
    pub covers : Covers proton carddav

  -- Saved as the bases, what Proton has and a text that CardDAV's card is like settle a contact.
  pub saved-IsSettled :
      (p text c : String) (pr m cd : Card)
      → decode_or_empty lib p ≡ ok pr
      → decode_or_empty lib text ≡ ok m
      → decode_or_empty lib c ≡ ok cd
      → Covers pr m
      → ((n : String) → fields_equal (fields_of m n) (fields_of cd n) ≡ true)
      → IsSettled p text p c
  saved-IsSettled p text c pr m cd hp ht hc covers alike = record {
    proton_base = pr;
    carddav_base = m;
    proton = pr;
    carddav = cd;
    proton_base_parses = hp;
    carddav_base_parses = ht;
    proton_parses = hp;
    carddav_parses = hc;
    proton_IsBase = record { same = λ n. fields_equal_refl _ };
    carddav_IsBase = record { same = alike };
    covers = Covers-alike pr m cd covers alike;
  }

  module _ (range : IsRange lib.visit) (prints : Prints lib) (reparses : Reparses lib)
      (policy : Policy) where
    -- What the merge of settled texts gives: a text that `EqualString` finds equal to CardDAV's, and
    -- `ProtonRelevantDiff` no different from Proton's, and that is as good a base.
    pub record Merges (pb cb p c : String) : Type 0 where
      pub text : String
      pub conflicts : List String
      pub merges : three_way_string lib pb cb p c policy ≡ ok (text, conflicts)
      pub equal : equal_string lib text c ≡ ok true
      pub relevant : proton_relevant_diff lib text p pb ≡ ok false
      pub again : IsSettled p text p c

    present_either :
        (pr pb : Card) (n : String)
        → IsFull pr
        → IsFull pb
        → IsBase pb pr
        → (contains (keys pr) n ≡ true) ⊎ (contains (keys pb) n ≡ true)
        → fields_of pr n ≢ []
    present_either pr pb n full_now full_base b (inl h) = full_now.full n h
    present_either pr pb n full_now full_base b (inr h) =
        IsBase-present pb pr n b (full_base.full n h)

    abbrev four_of_settled : (pb cb p c : String) → IsSettled pb cb p c → Four lib pb cb p c
    four_of_settled pb cb p c s = record {
      proton_base = s.proton_base;
      carddav_base = s.carddav_base;
      proton = s.proton;
      carddav = s.carddav;
      proton_base_parses = s.proton_base_parses;
      carddav_base_parses = s.carddav_base_parses;
      proton_parses = s.proton_parses;
      carddav_parses = s.carddav_parses;
      version = s.covers.version;
    }

    pub settled-Merges : (pb cb p c : String) → IsSettled pb cb p c → Merges pb cb p c
    settled-Merges pb cb p c s =
        let m =
          four-Merged lib range prints reparses policy pb cb p c (four_of_settled pb cb p c s) in
        let alike : (n : String)
            → fields_equal (fields_of m.card n) (fields_of s.carddav n) ≡ true =
          λ n.
            subst (λ x. fields_equal x (fields_of s.carddav n) ≡ true) (sym (m.groups n))
              (settled_alike (winner_by policy s.proton s.carddav) s.proton_base s.carddav_base
                s.proton s.carddav lib.visit range s.proton_IsBase s.carddav_IsBase s.covers n) in
        let (equal, equal_ok, equal_iff) =
          equal_string_iff lib range m.text c m.card s.carddav m.parses s.carddav_parses in
        let (differs, differs_ok, differs_iff) =
          proton_relevant_diff_iff lib range m.text p pb m.card s.proton s.proton_base m.parses
            s.proton_parses s.proton_base_parses in
        let unchanged : differs ≡ false = differs_iff.1 (λ n inside other.
          fields_equal_trans _ _ _ (alike n) (
            s.covers.modelled n other (
              present_either s.proton s.proton_base n
                (reparses.parse-IsFull p s.proton s.proton_parses)
                (reparses.parse-IsFull pb s.proton_base s.proton_base_parses) s.proton_IsBase
                (contains-union_keys n s.proton s.proton_base inside)))) in
        record {
          text = m.text;
          conflicts = m.conflicts;
          merges = m.merges;
          equal = equal_ok ∙ ap ok (equal_iff.1 alike);
          relevant = differs_ok ∙ ap ok unchanged;
          again =
              saved-IsSettled p m.text c s.proton m.card s.carddav s.proton_parses m.parses
                s.carddav_parses
                (Covers-alike s.proton s.carddav m.card s.covers
                  (λ n. fields_equal_symm _ _ (alike n)))
                alike;
        }
