-- ===== src/Examples/Routing.antt =====
-- A router that reads the templates of the routes, and the theorems on the server, each on a concrete
-- request.
use Prim.Native.Char.{code}
use thing_directory.Common.{
  ◌≡◌, refl, ap, ◌∙◌, arith, Bool, true, false, String, Option, none, some, ◌==◌, eqb,
  if◌then◌else◌,
}
use thing_directory.Start.Router.Mux.{
  Vars, first_match, Mux, IsMux, Pattern, rest, all, segment, Template, fixed, variable, captures,
  template_text, pattern_text, is_template, is_fixed, is_name, at,
}

-- What stands in front of a variable, and behind its brace.
unfoldable pub cut_variable : String → String × Option String
cut_variable String.[] = ("", none)
cut_variable (String.◌∷◌ x s) =
    let (before, behind) = cut_variable s in
    if eqb (code x) b'{' then ("", some s) else (String.◌∷◌ x before, behind)

cut_name : String → String × String
cut_name String.[] = ("", "")
cut_name (String.◌∷◌ x s) =
    let (name, behind) = cut_name s in
    if eqb (code x) b':'
    then ("", String.◌∷◌ x s)
    else if eqb (code x) b'}'
    then ("", String.◌∷◌ x s)
    else (String.◌∷◌ x name, behind)

with_pattern : String → String → String → String → Option Vars
with_pattern t name p path =
    if p == ":.+}"
    then captures (variable t name rest false) path
    else if p == ":.+}/"
    then captures (variable t name rest true) path
    else if p == ":.*}"
    then captures (variable t name all false) path
    else if p == ":.*}/"
    then captures (variable t name all true) path
    else if p == "}"
    then captures (variable t name segment false) path
    else if p == "}/"
    then captures (variable t name segment true) path
    else none

unfoldable pub reads_template : String × Option String → String → Option Vars
unfolding cut_name with_pattern
reads_template (t, none) path = captures (fixed t) path
reads_template (t, some s) path = with_pattern t (cut_name s).0 (cut_name s).1 path

abbrev pub test_mux : Mux
test_mux = record {
  matches = λ t path. reads_template (cut_variable t) path;
  find = first_match (λ t path. reads_template (cut_variable t) path);
}

cut_variable-fixed : (t : String) → is_fixed t ≡ true → cut_variable t ≡ (t, none)
unfolding cut_variable is_fixed
cut_variable-fixed String.[] h = refl
cut_variable-fixed (String.◌∷◌ x t) h = ground (arith, cut_variable-fixed t)

cut_variable-at :
    (t s : String) → is_fixed t ≡ true → cut_variable (at t (String.◌∷◌ "{" s)) ≡ (t, some s)
unfolding cut_variable is_fixed
cut_variable-at String.[] s h = refl
cut_variable-at (String.◌∷◌ x t) s h = ground (arith, cut_variable-at t s)

cut_name-at :
    (name : String) (p : Pattern) (slash : Bool)
    → is_name name ≡ true
    → cut_name (at name (pattern_text p slash)) ≡ (name, pattern_text p slash)
unfolding cut_name is_name
cut_name-at (String.◌∷◌ x name) p slash h = ground (arith, cut_name-at name p slash)
cut_name-at String.[] rest false h = refl
cut_name-at String.[] rest true h = refl
cut_name-at String.[] all false h = refl
cut_name-at String.[] all true h = refl
cut_name-at String.[] segment false h = refl
cut_name-at String.[] segment true h = refl

with_pattern-captures :
    (t name path : String) (p : Pattern) (slash : Bool)
    → with_pattern t name (pattern_text p slash) path ≡ captures (variable t name p slash) path
unfolding with_pattern
with_pattern-captures t name path rest false = refl
with_pattern-captures t name path rest true = refl
with_pattern-captures t name path all false = refl
with_pattern-captures t name path all true = refl
with_pattern-captures t name path segment false = refl
with_pattern-captures t name path segment true = refl

reads_template-captures :
    (t : Template) (path : String)
    → is_template t ≡ true
    → reads_template (cut_variable (template_text t)) path ≡ captures t path
unfolding reads_template
reads_template-captures (fixed t) path h = ap (λ r. reads_template r path) (cut_variable-fixed t h)
reads_template-captures (variable t name p slash) path h =
    ap (λ r. reads_template r path)
      (cut_variable-at t (at name (pattern_text p slash)) (ground arith))
    ∙ (ap (λ r. with_pattern t r.0 r.1 path) (cut_name-at name p slash (ground arith))
        ∙ with_pattern-captures t name path p slash)

pub test_mux-IsMux : IsMux test_mux
test_mux-IsMux = record { reads = reads_template-captures; first = λ rs method path. refl }
