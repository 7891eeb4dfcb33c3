-- ===== src/Tests/Notes.antt =====
-- A codec for cards of three properties, each of which but the VERSION may be absent.
pub mod Codec
use proton_carddav_sync.Base.{
  ◌≡◌, ◌≢◌, ◌⊎◌, inl, inr, refl, sym, ap, subst, ◌∙◌, String, ◌<>◌, Bool, true, false, Option, none,
  some, List, [], ◌∷◌, ◌==◌, string_eq, nat_eq, arith, contains, Bool-cases, if◌then◌else◌,
}
use proton_carddav_sync.Base.Dict.{lookup, keys}
use proton_carddav_sync.Base.Text.{is_blank}
use proton_carddav_sync.Base.Result.{Error, failure, wrap, Result, ok, err, map_err}
use proton_carddav_sync.Library.{Library, Prints}
use proton_carddav_sync.Tests.Fixtures.{in_order}
use proton_carddav_sync.Vcard.{Field, Card, plain, fields_of, value, field_version, field_uid}
use proton_carddav_sync.VcardSync.ThreeWay.{is_empty}
use proton_carddav_sync.VcardSync.Strings.{decode, decode_or_empty}
use proton_carddav_sync.VcardSync.Strings.Reparse.{IsFull, IsParsed, Reparses}

pub data Who : Type 0 where
  nobody ann bob : Who

pub data Name : Type 0 where
  nameless short long : Name

abbrev pub uid_of : Who → String
uid_of nobody = ""
uid_of ann = "ann"
uid_of bob = "bob"

abbrev pub name_of : Name → String
name_of nameless = ""
name_of short = "Ann"
name_of long = "Anna"

abbrev pub group : String → List Field
group v = plain v ∷ []

abbrev pub uid_group : Who → List Field
uid_group nobody = []
uid_group ann = group "ann"
uid_group bob = group "bob"

abbrev pub name_group : Name → List Field
name_group nameless = []
name_group short = group "Ann"
name_group long = group "Anna"

abbrev pub with_uid : Who → Card → Card
with_uid nobody rest = rest
with_uid ann rest = ("UID", group "ann") ∷ rest
with_uid bob rest = ("UID", group "bob") ∷ rest

abbrev pub with_name : Name → Card
with_name nameless = []
with_name short = ("FN", group "Ann") ∷ []
with_name long = ("FN", group "Anna") ∷ []

abbrev pub note : Who → Name → Card
note u f = ("VERSION", group "4.0") ∷ with_uid u (with_name f)

unfoldable pub text_of : Who → Name → String
text_of u f = uid_of u <> "/" <> name_of f

abbrev pub every_note : List (Who × Name)
every_note =
    (nobody, nameless)
    ∷ (nobody, short)
    ∷ (nobody, long)
    ∷ (ann, nameless)
    ∷ (ann, short)
    ∷ (ann, long)
    ∷ (bob, nameless)
    ∷ (bob, short)
    ∷ (bob, long)
    ∷ []

abbrev pub find : String → List (Who × Name) → Option (Who × Name)
find text [] = none
find text ((u, f) ∷ rest) =
    let later = find text rest in if text == text_of u f then some (u, f) else later

unfoldable pub read : String → Option (Who × Name)
unfolding string_eq text_of
read text = find text every_note

abbrev card_or_error : Option (Who × Name) → Result Card
card_or_error none = err (failure "vcard")
card_or_error (some (u, f)) = ok (note u f)

abbrev pub value_in : List Field → String
value_in [] = ""
value_in (f ∷ fs) = f.value

unfoldable pub parse_note : String → Result Card
unfolding read
parse_note text = card_or_error (read text)

unfoldable pub print_note : Card → Result String
unfolding fields_of string_eq is_empty
print_note c =
    if is_empty (fields_of c field_version)
    then err (failure "vcard: VERSION missing")
    else ok (value_in (fields_of c "UID") <> "/" <> value_in (fields_of c "FN"))

abbrev pub notes : Library
notes = record {
  codec = record { parse = parse_note; print = print_note };
  visit = in_order;
  digest = λ text. "sha256:" <> text;
}

pub notes-Prints : Prints notes
unfolding print_note
notes-Prints = record {
  print-ok = λ c h. (value_in (fields_of c "UID") <> "/" <> value_in (fields_of c "FN"), rw h refl);
}

pub read_text : (u : Who) (f : Name) → read (text_of u f) ≡ some (u, f)
unfolding read
read_text nobody nameless = refl
read_text nobody short = refl
read_text nobody long = refl
read_text ann nameless = refl
read_text ann short = refl
read_text ann long = refl
read_text bob nameless = refl
read_text bob short = refl
read_text bob long = refl

pub eq_of_test : (a b : String) → (a == b) ≡ true → a ≡ b
eq_of_test a b h = ground arith

same_note :
    (text : String) (v u : Who) (g f : Name) (o : Option (Who × Name))
    → text ≡ text_of v g
    → o ≡ some (v, g)
    → o ≡ some (u, f)
    → text ≡ text_of u f
same_note text v u g f o e here h = e ∙ ap text_at (sym here ∙ h)
  where
    text_at : Option (Who × Name) → String
    text_at none = ""
    text_at (some (w, k)) = text_of w k

found :
    (text : String) (l : List (Who × Name)) (u : Who) (f : Name)
    → find text l ≡ some (u, f)
    → text ≡ text_of u f
found text [] u f h = cc h
found text ((v, g) ∷ rest) u f h = elim (Bool-cases (text == text_of v g)) [
  | inl here ↦
      same_note text v u g f (find text ((v, g) ∷ rest)) (eq_of_test text (text_of v g) here)
        (rw here refl) h
  | inr there ↦ found text rest u f (rw there at h)
]

pub parse_text : (u : Who) (f : Name) → parse_note (text_of u f) ≡ ok (note u f)
unfolding parse_note
parse_text u f = rw (read_text u f) refl

not_blank : (u : Who) (f : Name) → is_blank (text_of u f) ≡ false
unfolding is_blank nat_eq text_of
not_blank nobody nameless = refl
not_blank nobody short = refl
not_blank nobody long = refl
not_blank ann nameless = refl
not_blank ann short = refl
not_blank ann long = refl
not_blank bob nameless = refl
not_blank bob short = refl
not_blank bob long = refl

pub note_parses : (u : Who) (f : Name) → decode_or_empty notes (text_of u f) ≡ ok (note u f)
unfolding decode_or_empty decode
note_parses u f = rw (not_blank u f, parse_text u f) refl

-- What is parsed is blank, or one of the notes.
pub data IsNote (text : String) (card : Card) : Type 0 where
  blank : card ≡ [] → IsNote text card
  written : (u : Who) (f : Name) → text ≡ text_of u f → card ≡ note u f → IsNote text card

pub parsed-IsNote :
    (text : String) (card : Card) → decode_or_empty notes text ≡ ok card → IsNote text card
unfolding decode_or_empty decode parse_note
parsed-IsNote text card h = elim (Bool-cases (is_blank text)) [
  | inl empty ↦ blank (cc (rw empty at h))
  | inr other ↦ from (read text) refl (rw other at h)
]
  where
    from :
        (o : Option (Who × Name))
        → read text ≡ o
        → map_err (wrap "decode vcard") (card_or_error o) ≡ ok card
        → IsNote text card
    from none e k = cc k
    from (some (u, f)) e k = unfold read in written u f (found text every_note u f e) (cc k)
