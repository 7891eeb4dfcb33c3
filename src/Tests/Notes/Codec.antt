-- ===== src/Tests/Notes/Codec.antt =====
-- The laws of that codec.
use proton_carddav_sync.Base.{
  ◌≡◌, inl, inr, refl, sym, ap, ◌∙◌, String, false, List, [], ◌==◌, string_eq, nat_eq, arith,
  Bool-cases,
}
use proton_carddav_sync.Base.Dict.{lookup, keys}
use proton_carddav_sync.Base.Result.{ok}
use proton_carddav_sync.Vcard.{Field, Card, fields_of, field_version}
use proton_carddav_sync.VcardSync.ThreeWay.{is_empty}
use proton_carddav_sync.VcardSync.Strings.{decode_or_empty}
use proton_carddav_sync.VcardSync.Strings.Reparse.{IsFull, IsParsed, Reparses}
use proton_carddav_sync.Tests.Notes.{
  Who, nobody, ann, bob, Name, nameless, short, long, uid_of, name_of, group, uid_group, name_group,
  note, text_of, value_in, notes, print_note, note_parses, IsNote, blank, written, parsed-IsNote,
  eq_of_test,
}

pub uid_at : (u : Who) (f : Name) → fields_of (note u f) "UID" ≡ uid_group u
unfolding fields_of string_eq
uid_at nobody nameless = refl
uid_at nobody short = refl
uid_at nobody long = refl
uid_at ann f = refl
uid_at bob f = refl

pub name_at : (u : Who) (f : Name) → fields_of (note u f) "FN" ≡ name_group f
unfolding fields_of string_eq
name_at nobody nameless = refl
name_at nobody short = refl
name_at nobody long = refl
name_at ann nameless = refl
name_at ann short = refl
name_at ann long = refl
name_at bob nameless = refl
name_at bob short = refl
name_at bob long = refl

pub version_at : (u : Who) (f : Name) → fields_of (note u f) "VERSION" ≡ group "4.0"
unfolding fields_of string_eq
version_at u f = refl

-- No other name has a field.
other_at :
    (u : Who) (f : Name) (n : String)
    → (n == "VERSION") ≡ false
    → (n == "UID") ≡ false
    → (n == "FN") ≡ false
    → fields_of (note u f) n ≡ []
unfolding fields_of lookup
other_at nobody nameless n a b c = ground arith
other_at nobody short n a b c = ground arith
other_at nobody long n a b c = ground arith
other_at ann nameless n a b c = ground arith
other_at ann short n a b c = ground arith
other_at ann long n a b c = ground arith
other_at bob nameless n a b c = ground arith
other_at bob short n a b c = ground arith
other_at bob long n a b c = ground arith

card_IsFull : (u : Who) (f : Name) → IsFull (note u f)
unfolding keys fields_of lookup
card_IsFull nobody nameless = record { full = λ n h e. ground (arith, h, e) }
card_IsFull nobody short = record { full = λ n h e. ground (arith, h, e) }
card_IsFull nobody long = record { full = λ n h e. ground (arith, h, e) }
card_IsFull ann nameless = record { full = λ n h e. ground (arith, h, e) }
card_IsFull ann short = record { full = λ n h e. ground (arith, h, e) }
card_IsFull ann long = record { full = λ n h e. ground (arith, h, e) }
card_IsFull bob nameless = record { full = λ n h e. ground (arith, h, e) }
card_IsFull bob short = record { full = λ n h e. ground (arith, h, e) }
card_IsFull bob long = record { full = λ n h e. ground (arith, h, e) }

empty_IsFull : IsFull []
unfolding keys
empty_IsFull = record { full = λ n h. cc h }

IsFull-note : (text : String) (card : Card) → IsNote text card → IsFull card
IsFull-note text card (blank e) = rw e empty_IsFull
IsFull-note text card (written u f t e) = rw e (card_IsFull u f)

empty_at : (n : String) → fields_of [] n ≡ []
unfolding fields_of lookup
empty_at n = refl

uid_parsed : (fs : List Field) → IsParsed notes "UID" fs → (u : Who) × (fs ≡ uid_group u)
uid_parsed fs (raw, card, parses, e) = elim (parsed-IsNote raw card parses) [
  | blank absent ↦ (nobody, e ∙ rw absent (empty_at _))
  | written u f t here ↦ (u, e ∙ rw here (uid_at u f))
]

name_parsed : (fs : List Field) → IsParsed notes "FN" fs → (f : Name) × (fs ≡ name_group f)
name_parsed fs (raw, card, parses, e) = elim (parsed-IsNote raw card parses) [
  | blank absent ↦ (nameless, e ∙ rw absent (empty_at _))
  | written u f t here ↦ (f, e ∙ rw here (name_at u f))
]

version_parsed :
    (fs : List Field) → IsParsed notes "VERSION" fs → is_empty fs ≡ false → fs ≡ group "4.0"
unfolding is_empty
version_parsed fs (raw, card, parses, e) present = elim (parsed-IsNote raw card parses) [
  | blank absent ↦ cc (e, ap (λ c. fields_of c "VERSION") absent, empty_at "VERSION", present)
  | written u f t here ↦ e ∙ rw here (version_at u f)
]

other_parsed :
    (n : String) (fs : List Field)
    → IsParsed notes n fs
    → (n == "VERSION") ≡ false
    → (n == "UID") ≡ false
    → (n == "FN") ≡ false
    → fs ≡ []
other_parsed n fs (raw, card, parses, e) a b c = elim (parsed-IsNote raw card parses) [
  | blank absent ↦ e ∙ rw absent (empty_at n)
  | written u f t here ↦ e ∙ rw here (other_at u f n a b c)
]

pub value-uid : (u : Who) → value_in (uid_group u) ≡ uid_of u
value-uid nobody = refl
value-uid ann = refl
value-uid bob = refl

pub value-name : (f : Name) → value_in (name_group f) ≡ name_of f
value-name nameless = refl
value-name short = refl
value-name long = refl

printed_as :
    (card : Card) (u : Who) (f : Name) (text : String)
    → fields_of card "UID" ≡ uid_group u
    → fields_of card "FN" ≡ name_group f
    → notes.codec.print card ≡ ok text
    → (is_empty (fields_of card field_version) ≡ false) × (text ≡ text_of u f)
unfolding print_note text_of
printed_as card u f text uid name h = elim (Bool-cases (is_empty (fields_of card field_version))) [
  | inl absent ↦ cc (rw absent at h)
  | inr here ↦ (here, cc (rw (here, uid, name, value-uid u, value-name f) at h))
]

reparsed :
    (text : String) (mixed : Card)
    → ((n : String) → IsParsed notes n (fields_of mixed n))
    → notes.codec.print mixed ≡ ok text
    → (back : Card) × (decode_or_empty notes text ≡ ok back)
      × ((n : String) → fields_of back n ≡ fields_of mixed n)
reparsed text mixed parsed printed =
    let (u, uid) = uid_parsed _ (parsed "UID") in
    let (f, name) = name_parsed _ (parsed "FN") in
    let (present, same) = printed_as mixed u f text uid name printed in
    (
      note u f,
      rw same (note_parses u f),
      λ n. elim (Bool-cases (n == "VERSION")) [
        | inl a ↦
            rw (eq_of_test n _ a)
              (version_at u f ∙ sym (version_parsed _ (parsed "VERSION") present))
        | inr a ↦ elim (Bool-cases (n == "UID")) [
          | inl b ↦ rw (eq_of_test n _ b) (uid_at u f ∙ sym uid)
          | inr b ↦ elim (Bool-cases (n == "FN")) [
            | inl c ↦ rw (eq_of_test n _ c) (name_at u f ∙ sym name)
            | inr c ↦ other_at u f n a b c ∙ sym (other_parsed n _ (parsed n) a b c)
          ]
        ]
      ],
    )

pub notes-Reparses : Reparses notes
notes-Reparses = record {
  parse-IsFull = λ raw card h. IsFull-note raw card (parsed-IsNote raw card h);
  parse-print = reparsed;
}
