-- ===== src/VcardSync/ThreeWay/Stability.antt =====
-- internal/vcardsync/merge.go, ThreeWay: what the merge means for one property of a contact.
use mathlib.Core.List.{Perm}
use proton_carddav_sync.Base.{
  ◌≡◌, refl, ◌⊎◌, ◌∙◌, inl, inr, String, Bool, true, false, List, [], ◌∷◌, string_eq, arith, ap,
  if◌then◌else◌, Bool-cases,
}
use proton_carddav_sync.Base.Range.{IsRange}
use proton_carddav_sync.Time.{after}
use proton_carddav_sync.Vcard.{Field, Card, fields_of, field_version, field_uid, field_revision}
use proton_carddav_sync.VcardSync.Fields.{fields_equal, key_list}
use proton_carddav_sync.VcardSync.Fields.Order.{fields_equal_refl, fields_equal_iff}
use proton_carddav_sync.VcardSync.ThreeWay.{
  Side, is_empty, choose, winning, is_identity, three_way, rev_time,
}
use proton_carddav_sync.VcardSync.ThreeWay.Merge.{fields_of-three_way}
use proton_carddav_sync.VcardSync.ThreeWay.Identity.{prefer, newer_rev}
use proton_carddav_sync.VcardSync.ThreeWay.Order.{identity-three_way}

-- Two groups hold the same fields, in any order.
abbrev pub Same : List Field → List Field → Type 0
Same a b = Perm (key_list a) (key_list b)

-- The rules of the merge for one property: what it may come to, from the bases and the current fields
-- of the two sides.
pub data Resolves (winner : Side) (pb cb pr cd result : List Field) : Type 0 where
  -- an edit, an addition or a deletion on Proton's side alone
  proton_changed : ¬ Same pb pr → Same cb cd → result ≡ pr → Resolves winner pb cb pr cd result
  carddav_changed : Same pb pr → ¬ Same cb cd → result ≡ cd → Resolves winner pb cb pr cd result
  both_alike :
      ¬ Same pb pr → ¬ Same cb cd → Same pr cd → result ≡ pr → Resolves winner pb cb pr cd result
  conflict :
      ¬ Same pb pr
      → ¬ Same cb cd
      → ¬ Same pr cd
      → result ≡ winning winner pr cd
      → Resolves winner pb cb pr cd result
  unchanged :
      Same pb pr → Same cb cd → result ≡ prefer cd pr [] → Resolves winner pb cb pr cd result

differ : (a b : List Field) → fields_equal a b ≡ false → ¬ Same a b
differ a b h p = cc (h, (fields_equal_iff a b).1 p)

same : (a b : List Field) → fields_equal a b ≡ true → Same a b
same a b h = (fields_equal_iff a b).0 h

pub keep_current : (pr cd : List Field) → (if is_empty cd then pr else cd) ≡ prefer cd pr []
unfolding is_empty
keep_current pr (f ∷ cd) = refl
keep_current [] [] = refl
keep_current (f ∷ pr) [] = refl

choose-Resolves :
    (winner : Side) (pb cb pr cd : List Field)
    → Resolves winner pb cb pr cd (choose winner pb cb pr cd).0
unfolding choose
choose-Resolves winner pb cb pr cd = elim (Bool-cases (fields_equal pb pr)) [
  | inl p ↦ elim (Bool-cases (fields_equal cb cd)) [
    | inl c ↦ unchanged (same pb pr p) (same cb cd c) (rw (p, c) (keep_current pr cd))
    | inr c ↦ carddav_changed (same pb pr p) (differ cb cd c) (rw (p, c))
  ]
  | inr p ↦ elim (Bool-cases (fields_equal cb cd)) [
    | inl c ↦ proton_changed (differ pb pr p) (same cb cd c) (rw (p, c))
    | inr c ↦ elim (Bool-cases (fields_equal pr cd)) [
      | inl e ↦ both_alike (differ pb pr p) (differ cb cd c) (same pr cd e) (rw (p, c, e))
      | inr e ↦ conflict (differ pb pr p) (differ cb cd c) (differ pr cd e) (rw (p, c, e))
    ]
  ]
]

-- Under every name but UID, VERSION and REV the merged card holds what the rules say, in whatever
-- order the names are visited.
pub three_way-Resolves :
    (winner : Side) (pb cb pr cd : Card) (visit : List String → List String) (n : String)
    → IsRange visit
    → is_identity n ≡ false
    → Resolves winner
        (fields_of pb n)
        (fields_of cb n)
        (fields_of pr n)
        (fields_of cd n)
        (fields_of (three_way winner pb cb pr cd visit).0 n)
three_way-Resolves winner pb cb pr cd visit n range h =
    rw (fields_of-three_way winner pb cb pr cd visit range n h) (choose-Resolves winner _ _ _ _)

pub prefer-covered : (p c : List Field) → (c ≡ [] → p ≡ []) → prefer c p [] ≡ c
unfolding is_empty
prefer-covered p (f ∷ c) h = refl
prefer-covered [] [] h = refl
prefer-covered (f ∷ p) [] h = h refl

pub prefer-present : (p c r : List Field) → is_empty c ≡ false → prefer c p r ≡ c
prefer-present p c r h = rw h

choose-unchanged : (winner : Side) (p c : List Field) → (choose winner p c p c).0 ≡ prefer c p []
unfolding choose
choose-unchanged winner p c = rw (fields_equal_refl p, fields_equal_refl c) (keep_current p c)

prefer_alike :
    (newer : Bool) (p c : List Field)
    → (p ≡ []) ⊎ (p ≡ c)
    → (if newer then prefer c p [] else prefer p c []) ≡ c
unfolding is_empty
prefer_alike true p [] (inl e) = rw e
prefer_alike true p (f ∷ c) (inl e) = refl
prefer_alike false p [] (inl e) = rw e
prefer_alike false p (f ∷ c) (inl e) = rw e
prefer_alike true p [] (inr e) = rw e
prefer_alike true p (f ∷ c) (inr e) = refl
prefer_alike false p [] (inr e) = rw e
prefer_alike false p (f ∷ c) (inr e) = rw e

pub newer_rev-absent :
    (pr cd : Card)
    → (fields_of pr field_revision ≡ [])
      ⊎ (fields_of pr field_revision ≡ fields_of cd field_revision)
    → newer_rev pr cd [] ≡ fields_of cd field_revision
newer_rev-absent pr cd h = prefer_alike (after (rev_time cd) (rev_time pr)) _ _ h

module _ (winner : Side) (pr cd : Card) (visit : List String → List String)
    (range : IsRange visit) where
  -- Where both sides are as they were at the last sync, each with its own base, CardDAV has every
  -- property that Proton has and a VERSION, and Proton's REV is absent or CardDAV's, the merged card
  -- has CardDAV's fields under every name, whichever side wins conflicts and in whatever order the
  -- names are visited.
  pub three_way_stable :
      ((n : String) → fields_of cd n ≡ [] → fields_of pr n ≡ [])
      → (is_empty (fields_of cd field_version) ≡ false)
      → (fields_of pr field_revision ≡ [])
        ⊎ (fields_of pr field_revision ≡ fields_of cd field_revision)
      → (n : String) → fields_of (three_way winner pr cd pr cd visit).0 n ≡ fields_of cd n
  unfolding is_identity
  three_way_stable covers version rev n =
      let (uid, ver, revision) = identity-three_way winner pr cd pr cd visit in
      let here = three_way winner pr cd pr cd visit in
      let kept = prefer-covered (fields_of pr n) (fields_of cd n) (covers n) in
      elim (Bool-cases (is_identity n)) [
        | inl h ↦ ground (
          arith,
          kept,
          uid,
          ver ∙ prefer-present (fields_of pr field_version) (fields_of cd field_version) _ version,
          revision ∙ newer_rev-absent pr cd rev,
          λ (e : n ≡ field_uid). ap (fields_of here.0) e,
          λ (e : n ≡ field_version). ap (fields_of here.0) e,
          λ (e : n ≡ field_revision). ap (fields_of here.0) e,
          λ (e : n ≡ field_uid). ap (fields_of cd) e,
          λ (e : n ≡ field_version). ap (fields_of cd) e,
          λ (e : n ≡ field_revision). ap (fields_of cd) e,
          λ (e : n ≡ field_uid). ap (fields_of pr) e,
        )
        | inr h ↦
            fields_of-three_way winner pr cd pr cd visit range n h
            ∙ choose-unchanged winner (fields_of pr n) (fields_of cd n)
            ∙ kept
      ]
