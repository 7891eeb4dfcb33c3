-- ===== src/VcardSync/ThreeWay/Identity.antt =====
-- UID, VERSION and REV of the merged card.
use proton_carddav_sync.Base.{
  ◌≡◌, ap, ◌∙◌, String, false, ◌&&◌, not, List, [], ◌∷◌, ◌==◌, string_eq, arith, if◌then◌else◌,
}
use proton_carddav_sync.Vcard.{
  Field, Card, fields_of, plain, set_value, field_version, field_uid, field_revision,
}
use proton_carddav_sync.Vcard.Laws.{fields_of-insert}
use proton_carddav_sync.Time.{after}
use proton_carddav_sync.VcardSync.ThreeWay.{
  is_empty, is_identity, set_identity, put_uid, put_version, put_rev, finish, rev_time,
}

-- The first of the two groups that is not empty, and else the third.
abbrev pub prefer : List Field → List Field → List Field → List Field
prefer a b c = if not (is_empty a) then a else if not (is_empty b) then b else c

fields_of-set_identity :
    (n k : String) (merged p f : Card)
    → fields_of (set_identity merged k p f).0 n ≡ (
        if n == k
        then prefer (fields_of p k) (fields_of f k) (fields_of merged k)
        else fields_of merged n)
unfolding set_identity
fields_of-set_identity n k merged p f = ground (
  arith,
  fields_of-insert n k (fields_of p k) merged,
  fields_of-insert n k (fields_of f k) merged,
  λ (e : n ≡ k). ap (fields_of merged) e,
)

set_identity_found :
    (k : String) (merged p f : Card)
    → (set_identity merged k p f).1 ≡ not (is_empty (fields_of p k) && is_empty (fields_of f k))
unfolding set_identity
set_identity_found k merged p f = ground arith

module _ (pr cd : Card) where
  fields_of-put_uid :
      (n : String) (m : Card)
      → fields_of (put_uid pr cd m) n ≡ (
          if n == field_uid
          then prefer (fields_of cd field_uid) (fields_of pr field_uid) (fields_of m field_uid)
          else fields_of m n)
  unfolding put_uid
  fields_of-put_uid n m = fields_of-set_identity n field_uid m cd pr

  fields_of-put_version :
      (n : String) (m : Card)
      → fields_of (put_version pr cd m) n ≡ (
          if n == field_version
          then prefer (fields_of cd field_version) (fields_of pr field_version) (plain "4.0" ∷ [])
          else fields_of m n)
  unfolding put_version set_value
  fields_of-put_version n m = ground (
    arith,
    fields_of-set_identity n field_version m cd pr,
    set_identity_found field_version m cd pr,
    fields_of-insert n field_version (plain "4.0" ∷ []) (set_identity m field_version cd pr).0,
  )

  abbrev pub newer_rev : List Field → List Field
  newer_rev old =
      if after (rev_time cd) (rev_time pr)
      then prefer (fields_of cd field_revision) (fields_of pr field_revision) old
      else prefer (fields_of pr field_revision) (fields_of cd field_revision) old

  fields_of-put_rev :
      (n : String) (m : Card)
      → fields_of (put_rev pr cd m) n
        ≡ (if n == field_revision then newer_rev (fields_of m field_revision) else fields_of m n)
  unfolding put_rev
  fields_of-put_rev n m = ground (
    arith,
    fields_of-set_identity n field_revision m cd pr,
    fields_of-set_identity n field_revision m pr cd,
  )

  pub fields_of-finish :
      (n : String) (m : Card) → is_identity n ≡ false → fields_of (finish pr cd m) n ≡ fields_of m n
  unfolding finish is_identity
  fields_of-finish n m h = ground (
    arith,
    fields_of-put_rev n (put_version pr cd (put_uid pr cd m)),
    fields_of-put_version n (put_uid pr cd m),
    fields_of-put_uid n m,
  )

  -- Each identity property of the finished card, the third argument being what the loop left.
  pub identity-finish :
      (m : Card)
      → (fields_of (finish pr cd m) field_uid
          ≡ prefer (fields_of cd field_uid) (fields_of pr field_uid) (fields_of m field_uid))
        × (fields_of (finish pr cd m) field_version
            ≡ prefer (fields_of cd field_version) (fields_of pr field_version) (plain "4.0" ∷ []))
        × (fields_of (finish pr cd m) field_revision ≡ newer_rev (fields_of m field_revision))
  unfolding finish string_eq
  identity-finish m =
      let versioned = put_version pr cd (put_uid pr cd m) in
      (
        fields_of-put_rev field_uid versioned
            ∙ fields_of-put_version field_uid (put_uid pr cd m)
            ∙ fields_of-put_uid field_uid m,
        fields_of-put_rev field_version versioned
            ∙ fields_of-put_version field_version (put_uid pr cd m),
        fields_of-put_rev field_revision versioned
            ∙ ap newer_rev (
                fields_of-put_version field_revision (put_uid pr cd m)
                ∙ fields_of-put_uid field_revision m),
      )
