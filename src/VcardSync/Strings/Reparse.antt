-- ===== src/VcardSync/Strings/Reparse.antt =====
-- The functions on vCard texts, over a codec that prints what it parsed.
use proton_carddav_sync.Base.{
  ◌≡◌, ◌≢◌, inl, inr, String, true, false, List, [], contains, string_eq,
}
use proton_carddav_sync.Base.Dict.{keys}
use proton_carddav_sync.Base.Range.{IsRange}
use proton_carddav_sync.Base.Result.{ok}
use proton_carddav_sync.Library.{Library, Prints}
use proton_carddav_sync.Vcard.{Field, Card, fields_of, field_version}
use proton_carddav_sync.VcardSync.ThreeWay.{is_empty, three_way}
use proton_carddav_sync.VcardSync.ThreeWay.Sources.{OneOf, three_way-OneOf}
use proton_carddav_sync.VcardSync.Strings.{Policy, winner_by, decode_or_empty, three_way_string}
use proton_carddav_sync.VcardSync.Strings.Laws.{three_way_string-ok}

-- No name without a field.
pub record IsFull (card : Card) : Type 0 where
  pub full : (n : String) → contains (keys card) n ≡ true → fields_of card n ≢ []

module _ (lib : Library) where
  -- A group of fields of some card that is parsed.
  abbrev pub IsParsed : String → List Field → Type 0
  IsParsed n fs =
      (raw : String) × (card : Card) × (decode_or_empty lib raw ≡ ok card) × (fs ≡ fields_of card n)

  -- The documented behaviour of the codec: a card that is parsed has no name without a field, and a
  -- card whose groups were parsed prints, where it prints, to a text that parses to these groups.
  pub record Reparses : Type 0 where
    pub parse-IsFull :
        (raw : String) (card : Card) → decode_or_empty lib raw ≡ ok card → IsFull card
    pub parse-print :
        (text : String) (mixed : Card)
        → ((n : String) → IsParsed n (fields_of mixed n))
        → lib.codec.print mixed ≡ ok text
        → (back : Card) × (decode_or_empty lib text ≡ ok back)
          × ((n : String) → fields_of back n ≡ fields_of mixed n)

module _ (lib : Library) where
  -- The cards of a contact's four texts.
  pub record Four (pb cb p c : String) : Type 0 where
    pub proton_base : Card
    pub carddav_base : Card
    pub proton : Card
    pub carddav : Card
    pub proton_base_parses : decode_or_empty lib pb ≡ ok proton_base
    pub carddav_base_parses : decode_or_empty lib cb ≡ ok carddav_base
    pub proton_parses : decode_or_empty lib p ≡ ok proton
    pub carddav_parses : decode_or_empty lib c ≡ ok carddav
    pub version : is_empty (fields_of carddav field_version) ≡ false

  module _ (range : IsRange lib.visit) (prints : Prints lib) (reparses : Reparses lib)
      (policy : Policy) where
    -- The merge of four texts that parse: a text that parses to the groups of the merged card.
    pub record Merged (pb cb p c : String) (four : Four pb cb p c) : Type 0 where
      pub text : String
      pub conflicts : List String
      pub card : Card
      pub merges : three_way_string lib pb cb p c policy ≡ ok (text, conflicts)
      pub parses : decode_or_empty lib text ≡ ok card
      pub groups :
          (n : String)
          → fields_of card n
            ≡ fields_of
                (three_way
                  (winner_by policy four.proton four.carddav)
                  four.proton_base
                  four.carddav_base
                  four.proton
                  four.carddav
                  lib.visit).0
                n

    IsParsed-either :
        (p c : String) (pr cd : Card) (n : String) (fs : List Field)
        → decode_or_empty lib p ≡ ok pr
        → decode_or_empty lib c ≡ ok cd
        → OneOf (fields_of pr n) (fields_of cd n) fs
        → IsParsed lib n fs
    IsParsed-either p c pr cd n fs hp hc (inl e) = (p, pr, hp, e)
    IsParsed-either p c pr cd n fs hp hc (inr e) = (c, cd, hc, e)

    pub four-Merged : (pb cb p c : String) (four : Four pb cb p c) → Merged pb cb p c four
    four-Merged pb cb p c four =
        let winner = winner_by policy four.proton four.carddav in
        let (text, printed, merges) =
          three_way_string-ok lib prints pb cb p c policy four.proton_base four.carddav_base
            four.proton four.carddav four.proton_base_parses four.carddav_base_parses
            four.proton_parses four.carddav_parses in
        let (back, parses, same) =
          reparses.parse-print text _
            (λ n.
              IsParsed-either p c four.proton four.carddav n _ four.proton_parses
                four.carddav_parses
                (three_way-OneOf winner four.proton_base four.carddav_base four.proton four.carddav
                  lib.visit n range four.version))
            printed in
        record {
          text = text;
          conflicts = _;
          card = back;
          merges = merges;
          parses = parses;
          groups = same;
        }
