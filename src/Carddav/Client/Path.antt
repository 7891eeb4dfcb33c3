-- ===== src/Carddav/Client/Path.antt =====
-- Where PutContact writes.
use Prim.Native.Char.{Char}
use proton_carddav_sync.Base.{
  ◌≡◌, ◌≢◌, refl, sym, ap, ◌∙◌, ℕ, suc, ◌+◌, String, ◌<>◌, string_eq, arith,
}
use proton_carddav_sync.Base.Text.{nil-append, cons-append}
use proton_carddav_sync.Base.Exec.Keeps.{Keeps-bind, Keeps-lift, Keeps-within}
use proton_carddav_sync.Carddav.Client.{Dav, Client, trim_slashes, contact_path, put_contact}
use proton_carddav_sync.Vcard.{Card, Codec}

size : String → ℕ
size String.[] = 0
size (String.◌∷◌ c s) = suc (size s)

size-append : (a b : String) → size (a <> b) ≡ size a + size b
unfolding size
size-append String.[] b = rw nil-append (omega arith)
size-append (String.◌∷◌ c a) b = rw cons-append (omega (arith, size-append a b))

rest_of : String → String
rest_of String.[] = ""
rest_of (String.◌∷◌ c s) = s

tails : (c d : Char) (a b : String) → String.◌∷◌ c a ≡ String.◌∷◌ d b → a ≡ b
unfolding rest_of
tails c d a b h = ap rest_of h

cancel_left : (p a b : String) → p <> a ≡ p <> b → a ≡ b
cancel_left String.[] a b h = sym (nil-append a) ∙ h ∙ nil-append b
cancel_left (String.◌∷◌ c p) a b h =
    cancel_left p a b (tails c c _ _ (sym (cons-append c p a) ∙ h ∙ cons-append c p b))

cancel_right : (s a b : String) → a <> s ≡ b <> s → a ≡ b
unfolding size
cancel_right s String.[] String.[] h = refl
cancel_right s String.[] (String.◌∷◌ d b) h =
    absurd (omega (arith, ap size h, size-append "" s, size-append (String.◌∷◌ d b) s))
cancel_right s (String.◌∷◌ c a) String.[] h =
    absurd (omega (arith, ap size h, size-append "" s, size-append (String.◌∷◌ c a) s))
cancel_right s (String.◌∷◌ c a) (String.◌∷◌ d b) h =
    let e = sym (cons-append c a s) ∙ h ∙ cons-append d b s in
    cc (e, cancel_right s a b (tails c d _ _ e))

contact_path_inj : (book u v : String) → contact_path book u ≡ contact_path book v → u ≡ v
unfolding contact_path
contact_path_inj book u v h =
    cancel_right ".vcf" u v (cancel_left "/" _ _ (cancel_left (trim_slashes book) _ _ h))

-- What PutContact does not touch: where P says something of the state of the server that writes to
-- other paths than that of a UID keep, putting a contact with another UID keeps P, whether it ends or
-- fails. Different UIDs have different paths, whatever slashes the address book ends in.
pub put_contact-other :
    (codec : Codec) (dav : Dav) (c : Client) (uid : String) (P : dav.State → Type 0)
    → ((path : String) (card : Card) (p : dav.State)
        → path ≢ contact_path c.address_book uid
        → P p
        → P (dav.put_address_object path card p).1)
    → (other text : String) → other ≢ uid
    → (p : dav.State) → P p
    → P (put_contact codec dav c other text p).1
unfolding put_contact
put_contact-other codec dav c uid P keeps other text differs =
    (Keeps-bind _ _ (Keeps-lift _) (λ card.
      Keeps-within _ (dav.put_address_object (contact_path c.address_book other) card) (record {
        at = λ p holds.
            keeps _ card p (λ e. differs (contact_path_inj c.address_book other uid e)) holds;
      }))).at
