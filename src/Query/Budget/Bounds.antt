-- ===== src/Query/Budget/Bounds.antt =====
-- graph_query_api/tools.py: how much of its lines an answer shows.
use graphify_daemon_portfoli.Prelude.{
  ℕ, ◌+◌, ◌*◌, ◌≤◌, ◌<◌, ◌≡◌, refl, sym, ap, ◌⊎◌, inl, inr, arith, some, List, [], ◌∷◌, ◌++◌,
  length, take, append-nil, drop, take-append-drop, length-take, Option-cases, Bool-cases, ◌==◌,
  leb, leb→le,
}
use graphify_daemon_portfoli.Prelude.Text.{Text, join}
use graphify_daemon_portfoli.Query.Budget.{
  newline, line_break, rfind, count, cut_or, notice, trailer, lone_notice, render, kept_of,
  cut_lines_to_budget, same,
}

-- What stands around a text that is cut: the notice and the trailer, or the notice of a lone line.
abbrev pub IsFrame : ℕ → Text → Text → Text → Type 0
IsFrame token_budget narrow_hint before after =
    ((shown : ℕ) × (total : ℕ) × (cut : Text) × (before
        ≡ notice shown total token_budget narrow_hint)
      × (after ≡ trailer cut token_budget narrow_hint))
    ⊎ ((before ≡ lone_notice token_budget narrow_hint) × (after ≡ []))

pub record IsAnswer (output : Text) (token_budget : ℕ) (narrow_hint answer : Text) : Type 0 where
  pub before : Text
  pub shown : Text
  pub after : Text
  pub rest : Text
  pub is_framed :
      ((before ≡ []) × (after ≡ []) × (rest ≡ [])) ⊎ IsFrame token_budget narrow_hint before after
  pub is_start : output ≡ shown ++ rest
  pub is_bounded : length shown ≤ token_budget * 3
  pub is_answer : answer ≡ before ++ (shown ++ after)

rfind-lt : (c : ℕ) (s : Text) (i : ℕ) → rfind c s ≡ some i → i < length s
unfolding rfind
rfind-lt c [] i h = absurd (cc)
rfind-lt c (d ∷ s) i h = elim (Option-cases (rfind c s)) [
  | inl gone ↦ ground arith
  | inr (j, at) ↦ ground (arith, rfind-lt c s j at)
]

kept-le : (budget : ℕ) (s : Text) → length (kept_of budget s) ≤ budget
unfolding kept_of
kept-le budget s = elim (Option-cases (rfind newline (take budget s))) [
  | inl gone ↦ rw gone (omega (arith, length-take budget s))
  | inr (i, at) ↦
      rw at (
        ground
          (arith, rfind-lt newline (take budget s) i at, length-take budget s, length-take i s))
]

kept-start : (budget : ℕ) (s : Text) → (rest : Text) × (s ≡ kept_of budget s ++ rest)
unfolding kept_of
kept-start budget s =
    let n = cut_or budget (rfind newline (take budget s)) in (drop n s, sym (take-append-drop n s))

render-IsFrame :
    (lines : List Text) (token_budget : ℕ) (narrow_hint kept : Text)
    → (before : Text) × (after : Text) × IsFrame token_budget narrow_hint before after
      × (render lines token_budget narrow_hint kept ≡ before ++ (kept ++ after))
render-IsFrame lines token_budget narrow_hint kept =
    elim (Bool-cases (length lines == (count newline kept + 1))) [
      | inl e ↦
          elim (Bool-cases (same kept (join line_break (take (count newline kept + 1) lines)))) [
            | inl same_text ↦ rw (e, same_text) (_, _, inl (_, _, _, refl, refl), refl)
            | inr other ↦
                rw (e, other)
                  (
                    _,
                    [],
                    inr (refl, refl),
                    ap (λ t. lone_notice token_budget narrow_hint ++ t) (sym (append-nil kept)),
                  )
          ]
      | inr n ↦ rw n (_, _, inl (_, _, _, refl, refl), refl)
    ]

-- Whatever the lines are: an answer is a start of the joined lines, of at most three characters for each token
-- of the budget, alone or between a notice and a trailer, and it stands alone only if it is all of them.
pub cut_lines-IsBounded :
    (lines : List Text) (token_budget : ℕ) (narrow_hint : Text)
    → IsAnswer
        (join line_break lines)
        token_budget
        narrow_hint
        (cut_lines_to_budget lines token_budget narrow_hint)
unfolding cut_lines_to_budget
cut_lines-IsBounded [] token_budget narrow_hint = record {
  before = [];
  shown = [];
  after = [];
  rest = [];
  is_framed = inl (refl, refl, refl);
  is_start = refl;
  is_bounded = omega arith;
  is_answer = refl;
}
cut_lines-IsBounded (x ∷ xs) token_budget narrow_hint =
    let output = join line_break (x ∷ xs) in
    elim (Bool-cases (leb (length output) (token_budget * 3))) [
      | inl fits ↦ rw fits (record {
        before = [];
        shown = output;
        after = [];
        rest = [];
        is_framed = inl (refl, refl, refl);
        is_start = sym (append-nil output);
        is_bounded = leb→le (length output) (token_budget * 3) fits;
        is_answer = sym (append-nil output);
      })
      | inr long ↦
          let (before, after, frame, e) =
            render-IsFrame (x ∷ xs) token_budget narrow_hint (kept_of (token_budget * 3) output) in
          let (rest, start) = kept-start (token_budget * 3) output in
          rw long (record {
            before = before;
            shown = kept_of (token_budget * 3) output;
            after = after;
            rest = rest;
            is_framed = inr frame;
            is_start = start;
            is_bounded = kept-le (token_budget * 3) output;
            is_answer = e;
          })
    ]
