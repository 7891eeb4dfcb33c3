-- ===== src/Base/FilePath.antt =====
-- `path/filepath` on Unix: Clean, Join and Dir.
use Prim.Native.Nat.{ℕ}
use Prim.Native.Char.{Char, code}
use Prim.Native.String.{String, ◌++◌ as ◌<>◌}
use mathlib.Core.Bool.{Bool, true, false, ◌||◌}
use mathlib.Core.List.{List, [], ◌∷◌}
use proton_carddav_sync.Base.Tests.{if◌then◌else◌, ◌==◌, nat_eq, string_eq}

abbrev slash : ℕ
slash = b'/'

-- The path begins with a slash.
abbrev pub is_rooted : String → Bool
is_rooted String.[] = false
is_rooted (String.◌∷◌ c s) = code c == slash

abbrev prepend : Char → List String → List String
prepend c [] = String.◌∷◌ c "" ∷ []
prepend c (e ∷ es) = String.◌∷◌ c e ∷ es

-- The elements between the slashes.
unfoldable pub split : String → List String
split String.[] = "" ∷ []
split (String.◌∷◌ c s) = let rest = split s in if code c == slash then "" ∷ rest else prepend c rest

-- `..` takes the last element away; where there is none it stays, unless the path is rooted. The
-- elements kept so far are in reverse.
abbrev go_up : Bool → List String → List String
go_up true [] = []
go_up false [] = ".." ∷ []
go_up rooted (e ∷ es) = if e == ".." then ".." ∷ e ∷ es else es

unfoldable pub simplify : Bool → List String → List String → List String
simplify rooted [] kept = kept
simplify rooted (e ∷ es) kept =
    simplify rooted es
      (if e == "" || e == "." then kept else if e == ".." then go_up rooted kept else e ∷ kept)

-- The elements, given in reverse, with slashes between them, before a text.
unfoldable pub join_before : List String → String → String
join_before [] tail = tail
join_before (e ∷ es) tail = join_before es (if tail == "" then e else e <> "/" <> tail)

abbrev pub rooted_at : Bool → String → String
rooted_at true s = String.◌∷◌ "/" s
rooted_at false s = if s == "" then "." else s

-- `filepath.Clean`
unfoldable pub clean : String → String
clean path = rooted_at (is_rooted path) (join_before (simplify (is_rooted path) (split path) []) "")

-- `filepath.Join` of two elements: a first one that is empty is left out
unfoldable pub join : String → String → String
join a b = if a == "" then (if b == "" then "" else clean b) else clean (a <> "/" <> b)

-- The path up to its last slash, with it; a text without a slash has an empty one.
unfoldable pub up_to_slash : String → String
up_to_slash String.[] = ""
up_to_slash (String.◌∷◌ c s) =
    let rest = up_to_slash s in
    if rest == "" then if code c == slash then String.◌∷◌ c "" else "" else String.◌∷◌ c rest

-- `filepath.Dir`
unfoldable pub dir : String → String
dir path = clean (up_to_slash path)
