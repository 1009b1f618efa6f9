-- ===== src/Start/Discovery/Escape.antt =====
-- The escaped name of a DNS-SD instance is one label, and is read back as the name.
use Prim.Native.Char.{code}
use thing_directory.Common.{
  ◌≡◌, refl, ap, inl, inr, Bool, true, false, not, String, if◌then◌else◌, eqb, eqb_iff, Bool-cases,
}
use text.Mathlib.TextEquality.{Char-path}
use thing_directory.Start.Discovery.{escape_dnssd_service_instance}

-- How RFC 6763 reads a name in its presentation form: a backslash stands for the character behind it.
unfoldable pub unescape : Bool → String → String
unescape escaped String.[] = String.[]
unescape true (String.◌∷◌ x s) = String.◌∷◌ x (unescape false s)
unescape false (String.◌∷◌ x s) =
    let behind = unescape true s in
    let rest = unescape false s in if eqb (code x) b'\\' then behind else String.◌∷◌ x rest

-- Each dot is behind a backslash, and each backslash is in front of a character.
unfoldable pub is_label : Bool → String → Bool
is_label escaped String.[] = not escaped
is_label true (String.◌∷◌ x s) = is_label false s
is_label false (String.◌∷◌ x s) =
    let behind = is_label true s in
    let rest = is_label false s in
    if eqb (code x) b'\\' then behind else if eqb (code x) b'.' then false else rest

-- The escaped name of a DNS-SD instance is read back as the name, where a backslash stands for the
-- character behind it, and holds no dot that is not escaped.
pub unescape-escape :
    (s : String)
    → (unescape false (escape_dnssd_service_instance s) ≡ s)
      × (is_label false (escape_dnssd_service_instance s) ≡ true)
unfolding escape_dnssd_service_instance unescape is_label
unescape-escape String.[] = (refl, refl)
unescape-escape (String.◌∷◌ x s) =
    let (reads, label) = unescape-escape s in
    elim (Bool-cases (eqb (code x) b'\\')) [
      | inl slash ↦
          rw (Char-path x "\\" ((eqb_iff (code x) b'\\').0 slash))
            (ap (String.◌∷◌ "\\") reads, label)
      | inr plain ↦ elim (Bool-cases (eqb (code x) b'.')) [
        | inl dot ↦
            rw (Char-path x "." ((eqb_iff (code x) b'.').0 dot)) (ap (String.◌∷◌ ".") reads, label)
        | inr letter ↦ rw (plain, letter, plain, letter) (ap (String.◌∷◌ x) reads, label)
      ]
    ]
