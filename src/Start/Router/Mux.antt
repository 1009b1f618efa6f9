-- ===== src/Start/Router/Mux.antt =====
-- The package gorilla/mux, as far as the router uses it: how a path template matches the path of a request.
use Prim.Native.Char.{code}
use thing_directory.Start.Router.{Route, Handler}
use thing_directory.Common.{
  ◌≡◌, Bool, true, false, not, ◌&&◌, String, Option, none, some, List, [], ◌∷◌, ◌==◌, eqb,
  if◌then◌else◌,
}

-- The values of the variables of a template.
abbrev pub Vars : Type 0
Vars = List (String × String)

-- What stands behind a prefix of a text.
unfoldable pub after : String → String → Option String
after String.[] s = some s
after (String.◌∷◌ x t) String.[] = none
after (String.◌∷◌ x t) (String.◌∷◌ y s) =
    let rest = after t s in if eqb (code x) (code y) then rest else none

-- A template without variables.
unfoldable pub is_fixed : String → Bool
is_fixed String.[] = true
is_fixed (String.◌∷◌ x s) = not (eqb (code x) b'{') && is_fixed s

-- A dot of a regular expression stands for each character but the end of a line.
unfoldable pub is_line : String → Bool
is_line String.[] = true
is_line (String.◌∷◌ x s) = not (eqb (code x) 10) && is_line s

-- A text without its last character, which is a slash.
unfoldable pub before_slash : String → Option String
before_slash String.[] = none
before_slash (String.◌∷◌ x String.[]) = if eqb (code x) b'/' then some String.[] else none
before_slash (String.◌∷◌ x (String.◌∷◌ y s)) = elim (before_slash (String.◌∷◌ y s)) [
  | none ↦ none
  | some t ↦ some (String.◌∷◌ x t)
]

unfoldable pub is_segment : String → Bool
is_segment String.[] = true
is_segment (String.◌∷◌ x s) = not (eqb (code x) b'/') && is_segment s

-- The patterns `.+` and `.*`, and the one of a variable without a pattern.
pub data Pattern : Type 0 where
  rest all segment : Pattern

-- A text, and a variable between a text and the end, or a slash at the end.
pub data Template : Type 0 where
  fixed : String → Template
  variable : String → String → Pattern → Bool → Template

abbrev pub at : String → String → String
at String.[] s = s
at (String.◌∷◌ x t) s = String.◌∷◌ x (at t s)

abbrev pub pattern_text : Pattern → Bool → String
pattern_text rest false = ":.+}"
pattern_text rest true = ":.+}/"
pattern_text all false = ":.*}"
pattern_text all true = ":.*}/"
pattern_text segment false = "}"
pattern_text segment true = "}/"

abbrev pub template_text : Template → String
template_text (fixed t) = t
template_text (variable t name p slash) = at t (String.◌∷◌ "{" (at name (pattern_text p slash)))

-- What a pattern matches.
abbrev pub accepts : Pattern → String → Bool
accepts rest String.[] = false
accepts rest (String.◌∷◌ x s) = is_line (String.◌∷◌ x s)
accepts all s = is_line s
accepts segment String.[] = false
accepts segment (String.◌∷◌ x s) = is_segment (String.◌∷◌ x s)

abbrev pub nothing_left : Option String → Option Vars
nothing_left none = none
nothing_left (some String.[]) = some []
nothing_left (some (String.◌∷◌ x s)) = none

abbrev pub named : String → Pattern → Option String → Option Vars
named name p none = none
named name p (some s) = if accepts p s then some ((name, s) ∷ []) else none

abbrev pub ends : Bool → Option String → Option String
ends slash none = none
ends false (some s) = some s
ends true (some s) = before_slash s

-- The variables of a path that the template matches as a whole.
abbrev pub captures : Template → String → Option Vars
captures (fixed t) path = nothing_left (after t path)
captures (variable t name p slash) path = named name p (ends slash (after t path))

-- The end of a variable's name.
unfoldable pub is_name : String → Bool
is_name String.[] = true
is_name (String.◌∷◌ x s) = not (eqb (code x) b':') && (not (eqb (code x) b'}') && is_name s)

abbrev pub is_template : Template → Bool
is_template (fixed t) = is_fixed t
is_template (variable t name p slash) = is_fixed t && is_name name

pub record Match : Type 0 where
  pub handler : Handler
  pub vars : Vars

pub record Mux : Type 0 where
  -- the variables, if the template of a route matches the path of a request
  pub matches : String → String → Option Vars
  -- the route that answers a method and a path, among those registered
  pub find : List Route → String → String → Option Match

abbrev pub or_later : Handler → Option Vars → Option Match → Option Match
or_later handler none later = later
or_later handler (some vars) later = some (record { handler = handler; vars = vars })

-- The first route with the method, of those whose template matches the path.
unfoldable pub first_match :
    (String → String → Option Vars) → List Route → String → String → Option Match
first_match matches [] method path = none
first_match matches (r ∷ rs) method path =
    let later = first_match matches rs method path in
    if r.method == method then or_later r.handler (matches r.path path) later else later

-- Routes are tried in the order in which they were added, and the first one that matches wins.
pub record IsMux (m : Mux) : Type 0 where
  pub reads :
      (t : Template) (path : String)
      → is_template t ≡ true
      → m.matches (template_text t) path ≡ captures t path
  pub first :
      (rs : List Route) (method path : String)
      → m.find rs method path ≡ first_match m.matches rs method path
