-- ===== src/Query/Budget.antt =====
-- graph_query_api/tools.py: the cut of an answer to its token budget. A text is its code points.
pub mod Lines
pub mod Answers
pub mod Bounds
use graphify_daemon_portfoli.Prelude.{
  ℕ, ◌+◌, ◌-◌, ◌*◌, ◌≡◌, Bool, true, false, Option, none, some, List, [], ◌∷◌, ◌++◌, ◌==◌, leb, ltb,
  if◌then◌else◌, length, take, ℕ_discrete, ite,
}
use graphify_daemon_portfoli.Prelude.Text.{Text, codes, show, join}

abbrev pub newline : ℕ
newline = b'\n'

abbrev pub line_break : Text
line_break = newline ∷ []

-- `text.rfind(c)`; `none` is the -1.
unfoldable pub rfind : ℕ → Text → Option ℕ
rfind c [] = none
rfind c (d ∷ s) = elim (rfind c s) [
  | some i ↦ some (i + 1)
  | none ↦ if d == c then some 0 else none
]

-- `text.count(c)`
unfoldable pub count : ℕ → Text → ℕ
count c [] = 0
count c (d ∷ s) = let rest = count c s in if d == c then rest + 1 else rest

-- `cut_at if cut_at > 0 else char_budget`
abbrev pub cut_or : ℕ → Option ℕ → ℕ
cut_or char_budget none = char_budget
cut_or char_budget (some i) = if i == 0 then char_budget else i

-- Two texts are the same.
abbrev pub same : Text → Text → Bool
same [] [] = true
same [] (d ∷ t) = false
same (c ∷ s) [] = false
same (c ∷ s) (d ∷ t) = let rest = same s t in if c == d then rest else false

-- What stands before and after the kept text, where whole lines were cut.
unfoldable pub notice : ℕ → ℕ → ℕ → Text → Text
unfolding show
notice shown total token_budget narrow_hint =
    codes "[!] TRUNCATED: showing "
    ++ (show shown
        ++ (codes " of "
            ++ (show total
                ++ (codes " lines (~"
                    ++ (show token_budget
                        ++ (codes "-token budget). "
                            ++ (narrow_hint ++ (newline ∷ newline ∷ []))))))))

-- `str(a - b)`
abbrev pub show_difference : ℕ → ℕ → Text
show_difference a b = if leb b a then show (a - b) else b'-' ∷ show (b - a)

unfoldable pub trailer : Text → ℕ → Text → Text
unfolding show
trailer cut_count token_budget narrow_hint =
    (newline ∷ codes "... (truncated — ")
    ++ (cut_count
        ++ (codes " more lines cut by ~"
            ++ (show token_budget ++ (codes "-token budget. " ++ (narrow_hint ++ codes ")")))))

-- What stands before the kept text, where the only line was cut.
unfoldable pub lone_notice : ℕ → Text → Text
unfolding show
lone_notice token_budget narrow_hint =
    codes "[!] TRUNCATED: this line exceeds the ~"
    ++ (show token_budget
        ++ (codes "-token budget on its own. " ++ (narrow_hint ++ (newline ∷ newline ∷ []))))

-- The answer with what is kept of it.
abbrev pub render : List Text → ℕ → Text → Text → Text
render lines token_budget narrow_hint kept =
    let shown = count newline kept + 1 in
    if length lines == shown
    then (if same kept (join line_break (take shown lines))
        then notice shown (length lines) token_budget narrow_hint
          ++ (kept ++ trailer (show 0) token_budget narrow_hint)
        else lone_notice token_budget narrow_hint ++ kept)
    else notice shown (length lines) token_budget narrow_hint
      ++ (kept ++ trailer (show_difference (length lines) shown) token_budget narrow_hint)

abbrev pub is_no_lines : List Text → Bool
is_no_lines [] = true
is_no_lines (l ∷ ls) = false

-- The text that is kept of an answer that does not fit.
unfoldable pub kept_of : ℕ → Text → Text
unfolding rfind
kept_of char_budget output =
    take (cut_or char_budget (rfind newline (take char_budget output))) output

-- `_cut_lines_to_budget`
unfoldable pub cut_lines_to_budget : List Text → ℕ → Text → Text
unfolding kept_of count join show notice trailer lone_notice
cut_lines_to_budget lines token_budget narrow_hint =
    let output = join line_break lines in
    let char_budget = token_budget * 3 in
    if is_no_lines lines
    then output
    else if leb (length output) char_budget
    then output
    else render lines token_budget narrow_hint (kept_of char_budget output)
