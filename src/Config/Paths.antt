-- ===== src/Config/Paths.antt =====
-- internal/config/config.go, expandHome: a path whose `~` is the home directory.
use Prim.Native.Char.{Char}
use proton_carddav_sync.Base.{
  ◌≡◌, ◌≢◌, refl, ap, ◌⊎◌, inl, inr, String, ◌<>◌, true, false, Option, none, some, ◌==◌, string_eq,
  nat_eq, arith, if◌then◌else◌,
}
use proton_carddav_sync.Base.FilePath.{is_rooted, clean, join}
use proton_carddav_sync.Base.Text.{without_prefix, cons-append}

-- `path[2:]`, where the path begins with `~/`.
abbrev expanded : (home : Option String) (path : String) → Option String → String
expanded home path none = path
expanded none path (some rest) = path
expanded (some dir) path (some rest) = join dir rest

-- `expandHome`, where `os.UserHomeDir` gives `home`.
unfoldable pub expand_home : (home : Option String) → String → String
unfolding without_prefix
expand_home home path = expanded home path (without_prefix "~/" path)

-- `DefaultConfigPath`
unfoldable pub default_config_path : (home : Option String) → String
default_config_path home = expand_home home "~/.config/proton-carddav-sync/config.yaml"

-- `ResolvePath`
unfoldable pub resolve_path : (home : Option String) → String → String
resolve_path home cfg_file =
    if cfg_file == "" then default_config_path home else expand_home home cfg_file

-- A home directory, where the system has one, is an absolute path.
abbrev pub IsAbsolute : Option String → Type 0
IsAbsolute none = Unit
IsAbsolute (some dir) = is_rooted dir ≡ true

rooted-append : (a b : String) → is_rooted a ≡ true → is_rooted (a <> b) ≡ true
rooted-append String.[] b h = cc h
rooted-append (String.◌∷◌ c a) b h = rw cons-append h

rooted-clean : (p : String) → is_rooted p ≡ true → is_rooted (clean p) ≡ true
unfolding clean nat_eq
rooted-clean p h = rw h refl

empty_ne_cons : (c : Char) (s : String) → String.◌∷◌ c s ≢ ""
empty_ne_cons c s h = cc h

cons_ne_empty : (c : Char) (s : String) → (String.◌∷◌ c s == "") ≡ false
cons_ne_empty c s = ground (arith, empty_ne_cons c s)

rooted-join : (a b : String) → is_rooted a ≡ true → is_rooted (join a b) ≡ true
unfolding join
rooted-join String.[] b h = cc h
rooted-join (String.◌∷◌ c a) b h =
    rw (cons_ne_empty c a) (rooted-clean _ (rooted-append (String.◌∷◌ c a) _ h))

no_prefix-rooted : (s : String) → is_rooted s ≡ true → without_prefix "~/" s ≡ none
unfolding without_prefix nat_eq
no_prefix-rooted String.[] h = refl
no_prefix-rooted (String.◌∷◌ c s) h =
    ground (arith, λ (e : String.◌∷◌ "~" String.[] ≡ String.◌∷◌ c String.[]). ap is_rooted e)

cases : (o : Option String) → (o ≡ none) ⊎ ((s : String) × (o ≡ some s))
cases none = inl refl
cases (some s) = inr (s, refl)

not_home : (path : String) (o : Option String) → expanded none path o ≡ path
not_home path none = refl
not_home path (some s) = refl

-- A path that was expanded has no `~` left to expand.
pub expand_home_idem :
    (home : Option String) (path : String)
    → IsAbsolute home
    → expand_home home (expand_home home path) ≡ expand_home home path
unfolding expand_home
expand_home_idem none path h =
    rw (not_home path (without_prefix "~/" path)) (not_home path (without_prefix "~/" path))
expand_home_idem (some dir) path h = elim (cases (without_prefix "~/" path)) [
  | inl none_left ↦ rw (none_left, none_left) refl
  | inr (rest, found) ↦
      rw found (rw (no_prefix-rooted (join dir rest) (rooted-join dir rest h)) refl)
]
