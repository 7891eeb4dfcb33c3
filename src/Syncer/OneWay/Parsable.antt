-- ===== src/Syncer/OneWay/Parsable.antt =====
-- internal/syncer/syncer.go, syncProtonToCardDAV: the texts that it writes.
use proton_carddav_sync.Base.{
  ◌≡◌, refl, subst, inl, inr, String, Option, none, some, ◌==◌, string_eq, Bool-cases,
  if◌then◌else◌,
}
use proton_carddav_sync.Base.Result.{wrap, Result, ok, err, map_err, ◌>>=◌}
use proton_carddav_sync.Base.Exec.Ensures.{map_err-inv}
use proton_carddav_sync.Library.{Library}
use proton_carddav_sync.Syncer.{Syncer}
use proton_carddav_sync.Syncer.OneWay.{text_to_put}
use proton_carddav_sync.Vcard.{Card}
use proton_carddav_sync.VcardSync.Overlay.{overlay}
use proton_carddav_sync.VcardSync.Strings.{overlay_string, decode, encode}

-- A text that the library parses.
abbrev pub IsParsable : Library → String → Type 0
IsParsable lib text = (card : Card) × (lib.codec.parse text ≡ ok card)

-- The documented behaviour of the codec: what it prints, it parses.
pub record PrintsParsable (lib : Library) : Type 0 where
  pub printed : (card : Card) (text : String) → lib.codec.print card ≡ ok text → IsParsable lib text

-- What a chain of results came from.
bind-inv :
    {A B : Type 0} (r : Result A) (f : A → Result B) (b : B)
    → (r >>= f) ≡ ok b
    → (a : A) × (f a ≡ ok b)
bind-inv (ok a) f b h = (a, h)
bind-inv (err e) f b h = cc h

overlay-IsParsable :
    (lib : Library) (prints : PrintsParsable lib) (existing vcard merged : String)
    → overlay_string lib existing vcard ≡ ok merged
    → IsParsable lib merged
unfolding overlay_string encode
overlay-IsParsable lib prints existing vcard merged h =
    let (dst, h1) =
      bind-inv (map_err (wrap "parse base vcard") (decode lib existing))
        (λ base. map_err (wrap "parse incoming vcard") (decode lib vcard) >>= λ incoming.
          encode lib (overlay base incoming))
        merged h in
    let (src, h2) =
      bind-inv (map_err (wrap "parse incoming vcard") (decode lib vcard))
        (λ incoming. encode lib (overlay dst incoming)) merged h1 in
    prints.printed (overlay dst src) merged
      (map_err-inv (wrap "encode vcard") (lib.codec.print (overlay dst src)) merged h2)

module _ (s : Syncer) (prints : PrintsParsable s.lib) where
  chosen-IsParsable :
      (existing vcard t : String) (r : Result String)
      → overlay_string s.lib existing vcard ≡ r
      → (elim r [
        | err e ↦ none
        | ok merged ↦ if s.lib.digest merged == s.lib.digest existing then none else some merged
      ])
        ≡ some t
      → IsParsable s.lib t
  chosen-IsParsable existing vcard t (err e) h k = cc k
  chosen-IsParsable existing vcard t (ok merged) h k =
      elim (Bool-cases (s.lib.digest merged == s.lib.digest existing)) [
        | inl same ↦ absurd (cc (rw same at k))
        | inr other ↦
            let here : merged ≡ t = cc (rw other at k) in
            subst (IsParsable s.lib) here (overlay-IsParsable s.lib prints existing vcard merged h)
      ]

  pub text_to_put-IsParsable :
      (existing : Option String) (vcard t : String)
      → IsParsable s.lib vcard
      → text_to_put s existing vcard ≡ some t
      → IsParsable s.lib t
  unfolding text_to_put
  text_to_put-IsParsable none vcard t parses h = subst (IsParsable s.lib) (cc h) parses
  text_to_put-IsParsable (some existing) vcard t parses h =
      chosen-IsParsable existing vcard t _ refl h
