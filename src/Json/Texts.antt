-- ===== src/Json/Texts.antt =====
-- The text of a value, set in front of other tokens, and the texts of a list of values.
use thing_directory.Common.{◌≡◌, refl, sym, ap, ◌∙◌, List, [], ◌∷◌, ◌++◌, String}
use thing_directory.Time.{Rfc3339}
use thing_directory.Json.{
  Value, null, boolean, number, text, array, object, registration, Items, nil, cons, Fields, end,
  field, lbrace, rbrack, lbrack, comma, colon, str, Bytes, of_items,
}
use thing_directory.Json.Print.{
  print, print_more_items, print_more_fields, leaves, more_leaves, members, leaf,
}

module _ (rfc : Rfc3339) where
  more_leaves-append :
      (ms : List (String × Value)) (rest more : Bytes)
      → more_leaves rfc ms (rest ++ more) ≡ more_leaves rfc ms rest ++ more
  more_leaves-append [] rest more = refl
  more_leaves-append ((k, v) ∷ ms) rest more =
      ap (λ (t : Bytes). comma ∷ str k ∷ colon ∷ leaf rfc v ∷ t) (more_leaves-append ms rest more)

  leaves-append :
      (ms : List (String × Value)) (rest more : Bytes)
      → leaves rfc ms (rest ++ more) ≡ leaves rfc ms rest ++ more
  leaves-append [] rest more = refl
  leaves-append ((k, v) ∷ ms) rest more =
      ap (λ (t : Bytes). str k ∷ colon ∷ leaf rfc v ∷ t) (more_leaves-append ms rest more)

  mutual
    unfolding print

    pub print-append :
        (v : Value) (rest more : Bytes) → print rfc v (rest ++ more) ≡ print rfc v rest ++ more
    print-append null rest more = refl
    print-append (boolean b) rest more = refl
    print-append (number x) rest more = refl
    print-append (text s) rest more = refl
    print-append (array nil) rest more = refl
    print-append (array (cons v vs)) rest more =
        ap (λ (t : Bytes). lbrack ∷ t)
          (ap (print rfc v) (print_more_items-append vs rest more)
            ∙ print-append v (print_more_items rfc vs rest) more)
    print-append (object end) rest more = refl
    print-append (object (field k v fs)) rest more =
        ap (λ (t : Bytes). lbrace ∷ str k ∷ colon ∷ t)
          (ap (print rfc v) (print_more_fields-append fs rest more)
            ∙ print-append v (print_more_fields rfc fs rest) more)
    print-append (registration r) rest more =
        ap (λ (t : Bytes). lbrace ∷ t) (leaves-append (members rfc r) rest more)

    print_more_items-append :
        (vs : Items) (rest more : Bytes)
        → print_more_items rfc vs (rest ++ more) ≡ print_more_items rfc vs rest ++ more
    print_more_items-append nil rest more = refl
    print_more_items-append (cons v vs) rest more =
        ap (λ (t : Bytes). comma ∷ t)
          (ap (print rfc v) (print_more_items-append vs rest more)
            ∙ print-append v (print_more_items rfc vs rest) more)

    print_more_fields-append :
        (fs : Fields) (rest more : Bytes)
        → print_more_fields rfc fs (rest ++ more) ≡ print_more_fields rfc fs rest ++ more
    print_more_fields-append end rest more = refl
    print_more_fields-append (field k v fs) rest more =
        ap (λ (t : Bytes). comma ∷ str k ∷ colon ∷ t)
          (ap (print rfc v) (print_more_fields-append fs rest more)
            ∙ print-append v (print_more_fields rfc fs rest) more)

  -- Each entry is the text of its value.
  abbrev pub Texts : List Value → List (String × Bytes) → Type 0
  Texts [] [] = Unit
  Texts [] (e ∷ es) = ⊥
  Texts (v ∷ vs) [] = ⊥
  Texts (v ∷ vs) (e ∷ es) = (e.1 ≡ print rfc v []) × Texts vs es

  -- The texts behind the first one, each behind a comma, and the end of the array.
  abbrev pub more_texts : List (String × Bytes) → Bytes
  more_texts [] = rbrack ∷ []
  more_texts (e ∷ es) = comma ∷ (e.1 ++ more_texts es)

  pub print_more_items-Texts :
      (vs : List Value) (es : List (String × Bytes))
      → Texts vs es
      → print_more_items rfc (of_items vs) [] ≡ more_texts es
  unfolding print
  print_more_items-Texts [] [] h = refl
  print_more_items-Texts [] (e ∷ es) h = absurd h
  print_more_items-Texts (v ∷ vs) [] h = absurd h
  print_more_items-Texts (v ∷ vs) (e ∷ es) (same, h) =
      ap (λ (t : Bytes). comma ∷ t)
        (ap (print rfc v) (print_more_items-Texts vs es h)
          ∙ (print-append v [] (more_texts es) ∙ ap (λ (t : Bytes). t ++ more_texts es) (sym same)))

  abbrev pub array_text : List (String × Bytes) → Bytes
  array_text [] = lbrack ∷ rbrack ∷ []
  array_text (e ∷ es) = lbrack ∷ (e.1 ++ more_texts es)

  pub print-array :
      (vs : List Value) (es : List (String × Bytes))
      → Texts vs es
      → array_text es ≡ print rfc (array (of_items vs)) []
  unfolding print
  print-array [] [] h = refl
  print-array [] (e ∷ es) h = absurd h
  print-array (v ∷ vs) [] h = absurd h
  print-array (v ∷ vs) (e ∷ es) (same, h) =
      ap (λ (t : Bytes). lbrack ∷ t)
        (ap (λ (t : Bytes). t ++ more_texts es) same
          ∙ (sym (print-append v [] (more_texts es))
              ∙ ap (print rfc v) (sym (print_more_items-Texts vs es h))))
