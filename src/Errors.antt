-- ===== src/Errors.antt =====
-- catalog/errors.go: the errors of the catalog, told apart by their Go type; and what a Go function
-- returns, a value or an error, or that it panics.
use thing_directory.Common.{arith, ◌≡◌, ◌≢◌, refl, ◌⊎◌, inl, inr, Bool, true, false, String, List}
use thing_directory.Wot.{ValidationIssue}

pub data Error : Type 0 where
  not_found : String → Error
  conflict : String → Error
  bad_request : String → Error
  validation : List ValidationIssue → Error
  plain : String → Error

-- Error()
abbrev pub error_text : Error → String
error_text (not_found s) = s
error_text (conflict s) = s
error_text (bad_request s) = s
error_text (validation issues) = "validation errors"
error_text (plain s) = s

pub data Result {ℓ} (A : Type ℓ) : Type ℓ where
  ok : A → Result A
  err : Error → Result A
  panicked : String → Result A

-- What a library call returns: a value, or an error of the library's own.
pub data Io {ℓ} (A : Type ℓ) : Type ℓ where
  done : A → Io A
  fault : String → Io A

abbrev pub io {ℓ} : {A : Type ℓ} → Io A → Result A
io (done a) = ok a
io (fault m) = err (plain m)

infixl 10 ◌>>=◌
abbrev pub ◌>>=◌ {ℓ κ} : {A : Type ℓ} {B : Type κ} → Result A → (A → Result B) → Result B
ok a >>= f = f a
err e >>= f = err e
panicked m >>= f = panicked m

infixl 10 ◌>>◌
abbrev pub ◌>>◌ {ℓ} : {B : Type ℓ} → Result (Unit {0}) → Result B → Result B
m >> k = m >>= λ _. k

-- Whether a call has returned.
pub ok-cases : (r : Result (Unit {0})) → (r ≡ ok tt) ⊎ (r ≢ ok tt)
ok-cases (ok tt) = inl refl
ok-cases (err e) = inr (λ h. cc)
ok-cases (panicked m) = inr (λ h. cc)

abbrev pub is_ok {ℓ} : {A : Type ℓ} → Result A → Bool
is_ok (ok a) = true
is_ok (err e) = false
is_ok (panicked m) = false

pub Result-cases {ℓ} : {A : Type ℓ} (r : Result A) → ((a : A) × (r ≡ ok a)) ⊎ (is_ok r ≡ false)
Result-cases (ok a) = inl (a, refl)
Result-cases (err e) = inr refl
Result-cases (panicked m) = inr refl

pub io-done : {A : Type 0} (r : Io A) (a : A) → io r ≡ ok a → r ≡ done a
io-done (done b) a h = ground arith
io-done (fault m) a h = cc

pub not-ok : (r : Result (Unit {0})) → is_ok r ≡ false → r ≢ ok tt
not-ok (ok u) h e = absurd (cc h)
not-ok (err x) h e = absurd (cc e)
not-ok (panicked m) h e = absurd (cc e)
