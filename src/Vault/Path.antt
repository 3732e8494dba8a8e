-- ===== src/Vault/Path.antt =====
-- The operations of `pathlib.PurePosixPath` that the daemon uses. A path is its `.parts`; an
-- absolute path has the part "/" first.
pub mod RoundTrip
use Prim.Native.Char.{code}
use Prim.Native.String.{◌++◌ as ◌<>◌}
use mathlib.Core.List.{filter}
use graphify_daemon_portfoli.Prelude.{
  ℕ, Bool, true, false, not, ◌&&◌, ◌||◌, Option, none, some, List, [], ◌∷◌, String, str_eq, ite,
  ◌==◌, if◌then◌else◌, String-discrete,
}

abbrev pub FilePath : Type 0
FilePath = List String

-- `path.name`: the last part; an empty path and the root have none.
abbrev pub name : FilePath → String
name [] = ""
name (part ∷ []) = if str_eq part "/" then "" else part
name (part ∷ next ∷ rest) = name (next ∷ rest)

-- From the last dot of a text on.
unfoldable pub last_dot : String → Option String
last_dot String.[] = none
last_dot (String.◌∷◌ c s) = elim (last_dot s) [
  | some t ↦ some t
  | none ↦ if code c == b'.' then some (String.◌∷◌ c s) else none
]

-- At least two characters.
abbrev two_or_more : String → Bool
two_or_more String.[] = false
two_or_more (String.◌∷◌ c String.[]) = false
two_or_more (String.◌∷◌ c (String.◌∷◌ d s)) = true

-- The suffix of a name: from its last dot, which is neither its first nor its last character.
abbrev suffix_of : String → String
suffix_of String.[] = ""
suffix_of (String.◌∷◌ c s) = elim (last_dot s) [
  | none ↦ ""
  | some t ↦ if two_or_more t then t else ""
]

-- `path.suffix`
unfoldable pub suffix : FilePath → String
unfolding last_dot
suffix p = suffix_of (name p)

-- `path.relative_to(root)`; `none` is the `ValueError`.
unfoldable pub relative_to : FilePath → FilePath → Option FilePath
relative_to p [] = some p
relative_to [] (r ∷ root) = none
relative_to (q ∷ p) (r ∷ root) =
    let rest = relative_to p root in ite (String-discrete q r) rest none

abbrev join : FilePath → String
join [] = ""
join (part ∷ []) = part
join (part ∷ next ∷ rest) = part <> ("/" <> join (next ∷ rest))

-- `str(path)`
unfoldable pub str : FilePath → String
str [] = "."
str (part ∷ rest) = if str_eq part "/" then "/" <> join rest else join (part ∷ rest)

-- The text up to the first slash, and the texts between and after the slashes.
unfoldable pub split : String → String × List String
split String.[] = ("", [])
split (String.◌∷◌ c s) =
    let (first, others) = split s in
    if code c == b'/' then ("", first ∷ others) else (String.◌∷◌ c first, others)

-- The parts that `Path(text)` drops.
abbrev is_dropped : String → Bool
is_dropped part = str_eq part "" || str_eq part "."

abbrev keep : List String → FilePath
keep [] = []
keep (part ∷ parts) = if is_dropped part then keep parts else part ∷ keep parts

-- `Path(text)`
unfoldable pub of_str : String → FilePath
unfolding split
of_str text =
    let (first, others) = split text in
    if str_eq first "" && not (str_eq text "") then "/" ∷ keep others else keep (first ∷ others)
