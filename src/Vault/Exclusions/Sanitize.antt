-- ===== src/Vault/Exclusions/Sanitize.antt =====
-- vault_compiler/exclusions.py: what `sanitize_log_text` leaves of a text.
use graphify_daemon_portfoli.Prelude.{
  ℕ, zero, suc, ◌-◌, ◌≡◌, refl, sym, subst, arith, true, false, [], ◌∷◌, ◌++◌, ◌==◌, length,
  Bool-cases, inl, inr,
}
use graphify_daemon_portfoli.Prelude.Exec.{ok}
use graphify_daemon_portfoli.Prelude.Text.{Text, codes, starts_with, replace_from, replace}
use graphify_daemon_portfoli.Vault.Path.{FilePath, str}
use graphify_daemon_portfoli.Vault.FileSystem.{FileSystem}
use graphify_daemon_portfoli.Vault.Exclusions.{sanitize_log_text}

-- The pattern stands nowhere in the text.
abbrev pub Avoids : Text → Text → Type 0
Avoids pat [] = Unit
Avoids pat (c ∷ s) = (starts_with (c ∷ s) pat ≡ false) × Avoids pat s

-- No character of the pattern is "<".
abbrev pub HasNoMarker : Text → Type 0
HasNoMarker [] = Unit
HasNoMarker (c ∷ s) = ((b'<' == c) ≡ false) × HasNoMarker s

abbrev marker : Text
marker = codes "<vault>"

-- A prefix without "<" of the replaced text is a prefix of the text.
prefix-replace :
    (pat s p : Text)
    → HasNoMarker p
    → starts_with (replace_from pat marker zero s) p ≡ true
    → starts_with s p ≡ true
unfolding replace_from starts_with
prefix-replace pat s [] h e = refl
prefix-replace pat [] (q ∷ p) h e = e
prefix-replace pat (c ∷ s) (q ∷ p) h e = elim (Bool-cases (starts_with (c ∷ s) pat)) [
  | inl hit ↦ absurd (ground arith)
  | inr miss ↦ ground (arith, prefix-replace pat s p)
]

-- Wherever `q` stands in the text, `pat` stands too.
Covers : Text → Text → Text → Type 0
Covers pat q [] = Unit
Covers pat q (c ∷ s) =
    (starts_with (c ∷ s) q ≡ true → starts_with (c ∷ s) pat ≡ true) × Covers pat q s

hit_step :
    (pat : Text) (c : ℕ) (s : Text)
    → starts_with (c ∷ s) pat ≡ true
    → replace pat marker (c ∷ s) ≡ marker ++ replace_from pat marker (length pat - 1) s
unfolding replace_from
hit_step pat c s h = ground arith

miss_step :
    (pat : Text) (c : ℕ) (s : Text)
    → starts_with (c ∷ s) pat ≡ false
    → replace pat marker (c ∷ s) ≡ c ∷ replace pat marker s
unfolding replace_from
miss_step pat c s h = ground arith

-- No occurrence of a rooted text begins in the marker.
marker-Avoids : (q s : Text) → Avoids (b'/' ∷ q) s → Avoids (b'/' ∷ q) (marker ++ s)
unfolding starts_with
marker-Avoids q s h = (refl, (refl, (refl, (refl, (refl, (refl, (refl, h)))))))

replace-Avoids :
    (pat q : Text) (skip : ℕ) (s : Text)
    → HasNoMarker q
    → Covers pat (b'/' ∷ q) s
    → Avoids (b'/' ∷ q) (replace_from pat marker skip s)
unfolding replace_from starts_with Covers
replace-Avoids pat q zero [] h k = tt
replace-Avoids pat q (suc skip) [] h k = tt
replace-Avoids pat q (suc skip) (c ∷ s) h k = replace-Avoids pat q skip s h k.1
replace-Avoids pat q zero (c ∷ s) h k = elim (Bool-cases (starts_with (c ∷ s) pat)) [
  | inl hit ↦ subst (Avoids (b'/' ∷ q)) (sym (hit_step pat c s hit)) (
      marker-Avoids q (replace_from pat marker (length pat - 1) s)
        (replace-Avoids pat q (length pat - 1) s h k.1))
  | inr miss ↦ subst (Avoids (b'/' ∷ q)) (sym (miss_step pat c s miss)) (
    ground (arith, k.0, prefix-replace pat (c ∷ s) (b'/' ∷ q), miss_step pat c s miss, h),
    replace-Avoids pat q zero s h k.1,
  )
]

Covers-self : (pat s : Text) → Covers pat pat s
unfolding Covers
Covers-self pat [] = tt
Covers-self pat (c ∷ s) = (λ h. h, Covers-self pat s)

Avoids-Covers : (pat q s : Text) → Avoids q s → Covers pat q s
unfolding Covers
Avoids-Covers pat q [] h = tt
Avoids-Covers pat q (c ∷ s) h = (λ e. absurd (ground arith), Avoids-Covers pat q s h.1)

-- A sanitized text holds neither the vault's path nor its resolved path, if both are absolute and hold
-- no "<".
pub sanitize-Avoids :
    (fs : FileSystem) (text : Text) (vault_root resolved_root : FilePath) (p q out : Text)
    → fs.resolve vault_root ≡ ok resolved_root
    → codes (str vault_root) ≡ b'/' ∷ p
    → codes (str resolved_root) ≡ b'/' ∷ q
    → HasNoMarker p
    → HasNoMarker q
    → sanitize_log_text fs text vault_root ≡ ok out
    → Avoids (codes (str vault_root)) out × Avoids (codes (str resolved_root)) out
unfolding sanitize_log_text
sanitize-Avoids fs text vault_root resolved_root p q out hr hp hq np nq e = (
  subst (λ t. Avoids t out) (sym hp) (subst (Avoids (b'/' ∷ p)) same clean_root),
  subst (λ t. Avoids t out) (sym hq) (subst (Avoids (b'/' ∷ q)) same clean_resolved),
)
  where
    once : Text
    once = replace (b'/' ∷ q) marker text

    same : replace (b'/' ∷ p) marker once ≡ out
    same = ground (arith, hr, hp, hq, e)

    clean_root : Avoids (b'/' ∷ p) (replace (b'/' ∷ p) marker once)
    clean_root = replace-Avoids (b'/' ∷ p) p zero once np (Covers-self (b'/' ∷ p) once)

    clean_once : Avoids (b'/' ∷ q) once
    clean_once = replace-Avoids (b'/' ∷ q) q zero text nq (Covers-self (b'/' ∷ q) text)

    clean_resolved : Avoids (b'/' ∷ q) (replace (b'/' ∷ p) marker once)
    clean_resolved =
        replace-Avoids (b'/' ∷ p) q zero once nq
          (Avoids-Covers (b'/' ∷ p) (b'/' ∷ q) once clean_once)
