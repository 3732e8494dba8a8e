-- ===== src/Vault/Path/RoundTrip.antt =====
-- `Path(str(p))` is `p`, for the relative paths that pathlib makes: the keys of the extraction cache
-- (vault_compiler/extraction.py) and of the index determine the paths.
use Prim.Native.Char.{code}
use Prim.Native.String.{◌++◌ as ◌<>◌}
use text.Mathlib.TextLemmas.{nil-append, cons-append}
use graphify_daemon_portfoli.Prelude.{
  inl, inr, subst, Bool-cases, eq_iff, ◌≡◌, refl, ap, sym, ◌∙◌, arith, false, [], ◌∷◌, String,
  str_eq, ◌==◌, All,
}
use graphify_daemon_portfoli.Vault.Path.{FilePath, str, split, keep, join, is_dropped, of_str}

-- No character of a text is a slash.
abbrev pub HasNoSlash : String → Type 0
HasNoSlash String.[] = Unit
HasNoSlash (String.◌∷◌ c s) = ((code c == b'/') ≡ false) × HasNoSlash s

-- A part of a relative path: not empty, not ".", and without a slash.
abbrev pub IsPart : String → Type 0
IsPart s = HasNoSlash s × (is_dropped s ≡ false)

split-slash :
    (s r : String) → HasNoSlash s → split (s <> ("/" <> r)) ≡ (s, (split r).0 ∷ (split r).1)
unfolding split
split-slash String.[] r h = rw (nil-append, cons-append, nil-append)
split-slash (String.◌∷◌ c s) r h = rw cons-append (rw (split-slash s r h.1, h.0))

split_part : (s : String) → HasNoSlash s → split s ≡ (s, [])
unfolding split
split_part String.[] h = refl
split_part (String.◌∷◌ c s) h = rw (split_part s h.1, h.0)

split-join :
    (part : String) (rest : FilePath)
    → All IsPart (part ∷ rest)
    → split (join (part ∷ rest)) ≡ (part, rest)
split-join part [] h = split_part part h.0.0
split-join part (next ∷ rest) h =
    rw (split-slash part (join (next ∷ rest)) h.0.0, split-join next rest h.1)

keep-parts : (p : FilePath) → All IsPart p → keep p ≡ p
keep-parts [] h = refl
keep-parts (part ∷ p) h = rw h.0.1 (ap (◌∷◌ part) (keep-parts p h.1))

not_empty : (part : String) → is_dropped part ≡ false → str_eq part "" ≡ false
not_empty part h = ground arith

not_root : (part : String) → HasNoSlash part → str_eq part "/" ≡ false
not_root part h = elim (Bool-cases (str_eq part "/")) [
  | inl e ↦ absurd (slash_in_root (subst HasNoSlash ((eq_iff part "/").0 e) h))
  | inr e ↦ e
]
  where
    slash_in_root : HasNoSlash "/" → ⊥
    slash_in_root (e, rest) = cc

-- `Path(str(p))` is `p`, for every relative path whose parts are proper.
pub of_str-str : (p : FilePath) → All IsPart p → of_str (str p) ≡ p
unfolding of_str str split
of_str-str [] h = refl
of_str-str (part ∷ rest) h = ground (
  arith,
  split-join part rest h,
  not_empty part h.0.1,
  not_root part h.0.0,
  keep-parts (part ∷ rest) h,
)

-- So two proper paths with the same text are the same path: the keys of the cache are faithful.
pub str-injective : (p q : FilePath) → All IsPart p → All IsPart q → str p ≡ str q → p ≡ q
str-injective p q hp hq e = sym (of_str-str p hp) ∙ ap of_str e ∙ of_str-str q hq
