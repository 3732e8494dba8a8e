-- ===== src/Query/Tools/Handlers/Conforming.antt =====
-- graph_query_api/tools.py: arguments that conform to a schema, read the way the handlers read them.
use graphify_daemon_portfoli.Prelude.{ℕ, ◌≡◌, refl, Option, none, some, List, String}
use graphify_daemon_portfoli.Prelude.Exec.{ok, key_error, or_raise}
use graphify_daemon_portfoli.Prelude.Fallible.{◌>>=◌, IsOk}
use graphify_daemon_portfoli.Query.Tools.{Json, text_of, texts_of, int_of}
use graphify_daemon_portfoli.Query.Tools.Schema.{
  any_text, one_of, integer_in, text_list, IsPresent, IsThere,
}
use mathlib.Core.Option

-- What the schema says of an argument, read the way the handlers read it.
pub text_there :
    (o : Option Json)
    → IsThere o
    → IsPresent any_text o
    → (s : String) × (or_raise key_error o ≡ ok (Json.text s))
text_there none there h = elim there [ ]
text_there (some Json.null) there h = elim h [ ]
text_there (some (Json.boolean b)) there h = elim h [ ]
text_there (some (Json.integer n)) there h = elim h [ ]
text_there (some (Json.text s)) there h = (s, refl)
text_there (some (Json.texts l)) there h = elim h [ ]
text_there (some (Json.other s)) there h = elim h [ ]

pub text_or :
    (s : String) (o : Option Json)
    → IsPresent any_text o
    → (t : String) × (Option.get_or o (Json.text s) ≡ Json.text t)
text_or s none h = (s, refl)
text_or s (some Json.null) h = elim h [ ]
text_or s (some (Json.boolean b)) h = elim h [ ]
text_or s (some (Json.integer n)) h = elim h [ ]
text_or s (some (Json.text t)) h = (t, refl)
text_or s (some (Json.texts l)) h = elim h [ ]
text_or s (some (Json.other t)) h = elim h [ ]

pub choice_or :
    (l : List String) (s : String) (o : Option Json)
    → IsPresent (one_of l) o
    → IsOk (text_of (Option.get_or o (Json.text s)))
choice_or l s none h = tt
choice_or l s (some Json.null) h = elim h [ ]
choice_or l s (some (Json.boolean b)) h = elim h [ ]
choice_or l s (some (Json.integer n)) h = elim h [ ]
choice_or l s (some (Json.text t)) h = tt
choice_or l s (some (Json.texts k)) h = elim h [ ]
choice_or l s (some (Json.other t)) h = elim h [ ]

pub integer_there :
    (lo : ℕ) (hi : Option ℕ) (o : Option Json)
    → IsThere o
    → IsPresent (integer_in lo hi) o
    → IsOk (or_raise key_error o >>= int_of)
integer_there lo hi none there h = elim there [ ]
integer_there lo hi (some Json.null) there h = elim h [ ]
integer_there lo hi (some (Json.boolean b)) there h = elim h [ ]
integer_there lo hi (some (Json.integer n)) there h = tt
integer_there lo hi (some (Json.text t)) there h = elim h [ ]
integer_there lo hi (some (Json.texts l)) there h = elim h [ ]
integer_there lo hi (some (Json.other t)) there h = elim h [ ]

pub integer_or :
    (lo : ℕ) (hi : Option ℕ) (n : ℕ) (o : Option Json)
    → IsPresent (integer_in lo hi) o
    → IsOk (int_of (Option.get_or o (Json.integer n)))
integer_or lo hi n none h = tt
integer_or lo hi n (some Json.null) h = elim h [ ]
integer_or lo hi n (some (Json.boolean b)) h = elim h [ ]
integer_or lo hi n (some (Json.integer m)) h = tt
integer_or lo hi n (some (Json.text t)) h = elim h [ ]
integer_or lo hi n (some (Json.texts l)) h = elim h [ ]
integer_or lo hi n (some (Json.other t)) h = elim h [ ]

pub texts_or :
    (most : ℕ) (o : Option Json)
    → IsPresent (text_list most) o
    → IsOk (texts_of (Option.get_or o Json.null))
texts_or most none h = tt
texts_or most (some Json.null) h = elim h [ ]
texts_or most (some (Json.boolean b)) h = elim h [ ]
texts_or most (some (Json.integer n)) h = elim h [ ]
texts_or most (some (Json.text t)) h = elim h [ ]
texts_or most (some (Json.texts l)) h = tt
texts_or most (some (Json.other t)) h = elim h [ ]
