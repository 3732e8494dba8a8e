-- ===== src/Query/Budget/Lines.antt =====
-- graph_query_api/tools.py: which lines of an answer the budget keeps.
use graphify_daemon_portfoli.Prelude.{
  ℕ, zero, suc, ◌+◌, ◌-◌, ◌≤◌, ◌<◌, ◌≡◌, refl, ap, sym, ◌∙◌, arith, false, none, some, List, [],
  ◌∷◌, ◌++◌, ◌==◌, length, take, All, length-append, length-take, append_assoc, append-nil, dec_lt,
}
use graphify_daemon_portfoli.Prelude.Text.{Text, join}
use graphify_daemon_portfoli.Query.Budget.{newline, line_break, rfind, count}

-- A line holds no line break.
abbrev pub IsLine : Text → Type 0
IsLine s = All (λ c. (c == newline) ≡ false) s

pub rfind-line : (s : Text) → IsLine s → rfind newline s ≡ none
unfolding rfind
rfind-line [] h = refl
rfind-line (c ∷ s) h = ground (arith, h.0, rfind-line s h.1)

rfind-append_found :
    (s t : Text) (i : ℕ) → rfind newline t ≡ some i → rfind newline (s ++ t) ≡ some (length s + i)
unfolding rfind
rfind-append_found [] t i h = h ∙ ap some (omega arith)
rfind-append_found (c ∷ s) t i h = ground (arith, rfind-append_found s t i h)

rfind-found :
    (t : Text) (i : ℕ) → rfind newline t ≡ some i → rfind newline (newline ∷ t) ≡ some (suc i)
unfolding rfind
rfind-found t i h = ground (arith, h)

rfind-append_break :
    (s t : Text) → rfind newline t ≡ none → rfind newline (s ++ newline ∷ t) ≡ some (length s)
unfolding rfind
rfind-append_break [] t h = ground (arith, h)
rfind-append_break (c ∷ s) t h = ground (arith, rfind-append_break s t h)

pub count-line : (s : Text) → IsLine s → count newline s ≡ 0
unfolding count
count-line [] h = refl
count-line (c ∷ s) h = ground (arith, h.0, count-line s h.1)

count_break : (s : Text) → count newline (newline ∷ s) ≡ count newline s + 1
unfolding count
count_break s = ground arith

count-append : (s t : Text) → count newline (s ++ t) ≡ count newline s + count newline t
unfolding count
count-append [] t = omega arith
count-append (c ∷ s) t = ground (arith, count-append s t)

pub take-IsLine : (n : ℕ) (s : Text) → IsLine s → IsLine (take n s)
take-IsLine zero s h = tt
take-IsLine (suc n) [] h = tt
take-IsLine (suc n) (c ∷ s) h = (h.0, take-IsLine n s h.1)

pub take-append_short : (n : ℕ) (s t : Text) → n ≤ length s → take n (s ++ t) ≡ take n s
take-append_short zero s t h = refl
take-append_short (suc n) [] t h = absurd (omega arith)
take-append_short (suc n) (c ∷ s) t h = ap (λ r. c ∷ r) (take-append_short n s t (omega arith))

take-append_long : (n : ℕ) (s t : Text) → take (length s + n) (s ++ t) ≡ s ++ take n t
take-append_long n [] t = ap (λ k. take k t) (omega arith)
take-append_long n (c ∷ s) t =
    let e : suc (length s) + n ≡ suc (length s + n) = omega arith in
    rw e (ap (λ r. c ∷ r) (take-append_long n s t))

-- What is kept when a text is cut between its lines: the first `k` of them, shorter than the budget,
-- which one line more would reach.
pub record IsLineCut (lines : List Text) (budget k : ℕ) : Type 0 where
  pub some_lines : 0 < k
  pub not_all : k < length lines
  pub fits : length (join line_break (take k lines)) < budget
  pub full : budget ≤ length (join line_break (take (suc k) lines))

-- Where the kept text ends.
abbrev pub IsCutAt : List Text → ℕ → ℕ → Type 0
IsCutAt lines budget k =
    rfind newline (take budget (join line_break lines))
    ≡ some (length (join line_break (take k lines)))

take-join :
    (x y : Text) (ys : List Text) (b : ℕ)
    → take (length x + suc b) (join line_break (x ∷ y ∷ ys))
      ≡ x ++ newline ∷ take b (join line_break (y ∷ ys))
unfolding join
take-join x y ys b = take-append_long (suc b) x (newline ∷ join line_break (y ∷ ys))

length-join :
    (x y : Text) (ys : List Text)
    → length (join line_break (x ∷ y ∷ ys)) ≡ length x + suc (length (join line_break (y ∷ ys)))
unfolding join
length-join x y ys = length-append x (newline ∷ join line_break (y ∷ ys))

-- One line more in front.
cut_more :
    (x y : Text) (ys : List Text) (b k : ℕ)
    → IsLineCut (y ∷ ys) b k
    → IsCutAt (y ∷ ys) b k
    → IsLineCut (x ∷ y ∷ ys) (length x + suc b) (suc k)
      × IsCutAt (x ∷ y ∷ ys) (length x + suc b) (suc k)
cut_more x y ys b zero cut at = absurd (omega (arith, cut.some_lines))
cut_more x y ys b (suc k) cut at = (
  record {
    some_lines = omega arith;
    not_all = omega (arith, cut.not_all);
    fits = omega (arith, cut.fits, length-join x y (take k ys));
    full = omega (arith, cut.full, length-join x y (take (suc k) ys));
  },
  rw (take-join x y ys b) (
      rfind-append_found x (newline ∷ take b (join line_break (y ∷ ys)))
        (suc (length (join line_break (take (suc k) (y ∷ ys)))))
        (rfind-found (take b (join line_break (y ∷ ys)))
          (length (join line_break (take (suc k) (y ∷ ys)))) at)
      ∙ ap some (sym (length-join x y (take k ys)))),
)

-- The next line does not fit.
cut_stop :
    (x y : Text) (ys : List Text) (b : ℕ)
    → IsLine y
    → b ≤ length y
    → IsLineCut (x ∷ y ∷ ys) (length x + suc b) 1 × IsCutAt (x ∷ y ∷ ys) (length x + suc b) 1
unfolding join
cut_stop x y ys b h stop = (
  record {
    some_lines = omega arith;
    not_all = omega arith;
    fits = omega arith;
    full = omega (arith, stop, length-append x (newline ∷ join line_break (y ∷ take 0 ys)));
  },
  rw (take-join x y ys b) (rfind-append_break x (take b (join line_break (y ∷ ys))) (no_break ys)),
)
  where
    no_break : (zs : List Text) → rfind newline (take b (join line_break (y ∷ zs))) ≡ none
    no_break [] = rfind-line (take b y) (take-IsLine b y h)
    no_break (z ∷ zs) =
        rw (take-append_short b y (newline ∷ join line_break (z ∷ zs)) stop)
          (rfind-line (take b y) (take-IsLine b y h))

-- The cut point of a text that is longer than the budget, with a first line that is shorter.
pub cut_point :
    (x : Text) (xs : List Text) (budget : ℕ)
    → All IsLine (x ∷ xs)
    → length x < budget
    → budget ≤ length (join line_break (x ∷ xs))
    → (k : ℕ) × IsLineCut (x ∷ xs) budget k × IsCutAt (x ∷ xs) budget k
cut_point x [] budget h short long = absurd (unfold join in omega (arith, short, long))
cut_point x (y ∷ ys) budget h short long =
    from (budget - length x - 1) (omega arith) (λ b p q. cut_point y ys b h.1 p q)
  where
    from :
        (b : ℕ)
        → budget ≡ length x + suc b
        → ((c : ℕ)
            → length y < c
            → c ≤ length (join line_break (y ∷ ys))
            → (k : ℕ) × IsLineCut (y ∷ ys) c k × IsCutAt (y ∷ ys) c k)
        → (k : ℕ) × IsLineCut (x ∷ y ∷ ys) budget k × IsCutAt (x ∷ y ∷ ys) budget k
    from b e rest = elim (dec_lt (length y) b) [
      | yes more ↦
          let (k, cut, at) = rest b more (omega (arith, e, long, length-join x y ys)) in
          let (cut', at') = cut_more x y ys b k cut at in rw e (suc k, cut', at')
      | no stop ↦ let (cut', at') = cut_stop x y ys b h.1.0 (omega arith) in rw e (1, cut', at')
    ]

-- The first `k` lines are the start of the answer.
pub join-take :
    (k : ℕ) (lines : List Text)
    → 0 < k
    → (rest : Text) × (join line_break lines ≡ join line_break (take k lines) ++ rest)
unfolding join
join-take zero lines h = absurd (omega arith)
join-take (suc k) [] h = ([], refl)
join-take (suc zero) (x ∷ []) h = ([], sym (append-nil x))
join-take (suc (suc k)) (x ∷ []) h = ([], sym (append-nil x))
join-take (suc zero) (x ∷ y ∷ ys) h = (newline ∷ join line_break (y ∷ ys), refl)
join-take (suc (suc k)) (x ∷ y ∷ ys) h =
    let (rest, e) = join-take (suc k) (y ∷ ys) (omega arith) in
    (
      rest,
      ap (λ t. x ++ newline ∷ t) e
          ∙ sym (append_assoc x (newline ∷ join line_break (y ∷ take k ys)) rest),
    )

pub take-length : (s t : Text) → take (length s) (s ++ t) ≡ s
take-length [] t = refl
take-length (c ∷ s) t = ap (λ r. c ∷ r) (take-length s t)

count-join :
    (x : Text) (xs : List Text)
    → All IsLine (x ∷ xs)
    → count newline (join line_break (x ∷ xs)) ≡ length xs
unfolding join
count-join x [] h = count-line x h.0
count-join x (y ∷ ys) h = omega (
  arith,
  count-append x (newline ∷ join line_break (y ∷ ys)),
  count-line x h.0,
  count_break (join line_break (y ∷ ys)),
  count-join y ys h.1,
)

All-take : (k : ℕ) (xs : List Text) → All IsLine xs → All IsLine (take k xs)
All-take zero xs h = tt
All-take (suc k) [] h = tt
All-take (suc k) (x ∷ xs) h = (h.0, All-take k xs h.1)

-- How many lines the kept text shows.
pub shown-take :
    (k : ℕ) (x : Text) (xs : List Text)
    → All IsLine (x ∷ xs)
    → 0 < k
    → k < length (x ∷ xs)
    → count newline (join line_break (take k (x ∷ xs))) + 1 ≡ k
shown-take zero x xs h p q = absurd (omega arith)
shown-take (suc k) x xs h p q =
    omega (arith, count-join x (take k xs) (h.0, All-take k xs h.1), length-take k xs)
