-- ===== src/Query/Budget/Answers.antt =====
-- graph_query_api/tools.py: an answer that does not fit its budget.
use graphify_daemon_portfoli.Prelude.{
  ℕ, zero, suc, ◌+◌, ◌-◌, ◌*◌, ◌≤◌, ◌<◌, ◌≡◌, refl, ap, ◌∙◌, arith, List, [], ◌∷◌, ◌++◌, length,
  take, All, length-append,
}
use graphify_daemon_portfoli.Prelude.Text.{Text, join, show}
use graphify_daemon_portfoli.Query.Budget.{
  newline, line_break, rfind, count, cut_or, notice, trailer, render, kept_of, cut_lines_to_budget,
}
use graphify_daemon_portfoli.Query.Budget.Lines.{
  IsLine, IsLineCut, IsCutAt, rfind-line, count-line, take-IsLine, take-append_short, cut_point,
  join-take, take-length, shown-take,
}

first-le-join : (x : Text) (xs : List Text) → length x ≤ length (join line_break (x ∷ xs))
unfolding join
first-le-join x [] = omega arith
first-le-join x (y ∷ ys) = omega (arith, length-append x (newline ∷ join line_break (y ∷ ys)))

first-le-join-take :
    (x : Text) (xs : List Text) (k : ℕ)
    → 0 < k
    → length x ≤ length (join line_break (take k (x ∷ xs)))
first-le-join-take x xs zero h = absurd (omega arith)
first-le-join-take x xs (suc k) h = first-le-join x (take k xs)

kept_lem :
    (lines : List Text) (budget k : ℕ)
    → 0 < length (join line_break (take k lines))
    → IsLineCut lines budget k
    → IsCutAt lines budget k
    → kept_of budget (join line_break lines) ≡ join line_break (take k lines)
unfolding kept_of
kept_lem lines budget k pos cut at =
    let (rest, e) = join-take k lines cut.some_lines in
    let end : cut_or budget (rfind newline (take budget (join line_break lines)))
        ≡ length (join line_break (take k lines)) =
      ground (arith, at, pos) in
    rw end (
      ap (take (length (join line_break (take k lines)))) e
      ∙ take-length (join line_break (take k lines)) rest)

-- Of a first line that is longer than the budget, its start is kept.
start_lem :
    (x y : Text) (ys : List Text) (budget : ℕ)
    → IsLine x
    → budget ≤ length x
    → kept_of budget (join line_break (x ∷ y ∷ ys)) ≡ take budget x
unfolding kept_of join
start_lem x y ys budget h long =
    let start = take-append_short budget x (newline ∷ join line_break (y ∷ ys)) long in
    let end : cut_or budget (rfind newline (take budget (x ++ newline ∷ join line_break (y ∷ ys))))
        ≡ budget =
      rw start (rw (rfind-line (take budget x) (take-IsLine budget x h)) refl) in
    rw end start

long_lem :
    (x : Text) (xs : List Text) (token_budget : ℕ) (narrow_hint : Text)
    → token_budget * 3 < length (join line_break (x ∷ xs))
    → cut_lines_to_budget (x ∷ xs) token_budget narrow_hint
      ≡ render
          (x ∷ xs)
          token_budget
          narrow_hint
          (kept_of (token_budget * 3) (join line_break (x ∷ xs)))
unfolding cut_lines_to_budget
long_lem x xs token_budget narrow_hint long = ground (arith, long)

render_lem :
    (lines : List Text) (token_budget k : ℕ) (narrow_hint kept : Text)
    → k < length lines
    → count newline kept + 1 ≡ k
    → render lines token_budget narrow_hint kept
      ≡ notice k (length lines) token_budget narrow_hint
        ++ (kept ++ trailer (show (length lines - k)) token_budget narrow_hint)
render_lem lines token_budget k narrow_hint kept h e = ground (arith, h, e)

-- An answer whose lines hold no line break, that does not fit its budget, and whose first line does and is
-- not empty, is cut between two lines: it shows as many whole lines from the start as stay below the
-- budget, with a notice and a count of the others.
pub cut_between_lines :
    (x : Text) (xs : List Text) (token_budget : ℕ) (narrow_hint : Text)
    → All IsLine (x ∷ xs)
    → 0 < length x
    → length x < token_budget * 3
    → token_budget * 3 < length (join line_break (x ∷ xs))
    → let lines = x ∷ xs in
      (k : ℕ) × IsLineCut lines (token_budget * 3) k
      × (cut_lines_to_budget lines token_budget narrow_hint
          ≡ notice k (length lines) token_budget narrow_hint
            ++ (join line_break (take k lines)
                ++ trailer (show (length lines - k)) token_budget narrow_hint))
cut_between_lines x xs token_budget narrow_hint h filled short long =
    let (k, cut, at) = cut_point x xs (token_budget * 3) h short (omega arith) in
    let pos : 0 < length (join line_break (take k (x ∷ xs))) =
      omega (arith, filled, first-le-join-take x xs k cut.some_lines) in
    let kept = kept_lem (x ∷ xs) (token_budget * 3) k pos cut at in
    (
      k,
      cut,
      long_lem x xs token_budget narrow_hint long
          ∙ rw kept (
              render_lem (x ∷ xs) token_budget k narrow_hint (join line_break (take k (x ∷ xs)))
                cut.not_all (shown-take k x xs h cut.some_lines cut.not_all)),
    )

-- If the first of several lines is itself longer than the budget, the answer shows its start only, cut
-- in mid-line; yet its notice says that one of the lines is shown, and does not say that this one is cut.
pub long_first_line :
    (x y : Text) (ys : List Text) (token_budget : ℕ) (narrow_hint : Text)
    → IsLine x
    → token_budget * 3 < length x
    → let lines = x ∷ y ∷ ys in
      cut_lines_to_budget lines token_budget narrow_hint
      ≡ notice 1 (length lines) token_budget narrow_hint
        ++ (take (token_budget * 3) x ++ trailer (show (length lines - 1)) token_budget narrow_hint)
long_first_line x y ys token_budget narrow_hint h long =
    long_lem x (y ∷ ys) token_budget narrow_hint (omega (arith, long, first-le-join x (y ∷ ys)))
    ∙ rw (start) (
        render_lem (x ∷ y ∷ ys) token_budget 1 narrow_hint (take (token_budget * 3) x) (omega arith)
          (omega
            (arith, count-line (take (token_budget * 3) x) (take-IsLine (token_budget * 3) x h))))
  where
    start : kept_of (token_budget * 3) (join line_break (x ∷ y ∷ ys)) ≡ take (token_budget * 3) x
    start = start_lem x y ys (token_budget * 3) h (omega (arith, long))
