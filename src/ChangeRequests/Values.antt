-- ===== src/ChangeRequests/Values.antt =====
-- The encoded value of a contact: a kind, a colon and a value.
use Prim.Native.Char.{Char, code}
use Prim.Native.String.{◌++◌ as ◌<>◌}
use text.Mathlib.TextLemmas.{cons-append, nil-append}
use bcars_portal.Base.{
  String, some, Bool, true, false, not, ◌&&◌, ◌≡◌, ◌≢◌, refl, arith, str_eq, eq_iff,
}
use bcars_portal.GoText.Text.{trim_left, trim_right, trim_space, cut_colon}
use bcars_portal.Base.{◌==◌}
use bcars_portal.Outcome.{ok}
use bcars_portal.Idem.{Env}
use bcars_portal.ChangeRequests.Apply.{parse_contact_value, known_kind}

-- the kinds
pub data IsKind : String → Type 0 where
  email : IsKind "email"
  phone : IsKind "phone"
  postal : IsKind "postal"

-- a text that ends in a text without spaces at its end keeps its end
trim_right-cons :
    (c : Char) (s : String)
    → s ≢ ""
    → trim_right s ≡ s
    → trim_right (String.◌∷◌ c s) ≡ String.◌∷◌ c s
unfolding trim_right
trim_right-cons c String.[] h e = absurd (h refl)
trim_right-cons c (String.◌∷◌ d s) h e = rw e refl

cons-nonempty : (c : Char) (k : String) → String.◌∷◌ c k ≢ ""
cons-nonempty c k e = cc e

-- two characters at the front, of which the second is the first of a text that keeps its end
trim_right-append :
    (k v : String) → v ≢ "" → trim_right v ≡ v → (trim_right (k <> v) ≡ k <> v) × (k <> v ≢ "")
trim_right-append String.[] v h e = rw (nil-append v) (e, h)
trim_right-append (String.◌∷◌ c k) v h e =
    let (ends, nonempty) = trim_right-append k v h e in
    rw (cons-append c k v) (trim_right-cons c (k <> v) nonempty ends, cons-nonempty c (k <> v))

no_colon : String → Bool
no_colon String.[] = true
no_colon (String.◌∷◌ c s) = not (code c == 58) && no_colon s

colon-append : (v : String) → cut_colon (":" <> v) ≡ some ("", v)
unfolding cut_colon
colon-append v = rw (cons-append, nil-append) refl

cut_colon-append : (k v : String) → no_colon k ≡ true → cut_colon (k <> ":" <> v) ≡ some (k, v)
unfolding cut_colon no_colon
cut_colon-append String.[] v h = rw (nil-append (":" <> v)) (colon-append v)
cut_colon-append (String.◌∷◌ c k) v h =
    rw (cons-append c k (":" <> v)) (ground (arith, cut_colon-append k v))

kind-no_colon : (kind : String) → IsKind kind → no_colon kind ≡ true
unfolding no_colon
kind-no_colon kind email = refl
kind-no_colon kind phone = refl
kind-no_colon kind postal = refl

-- a kind has no space at its front, nor around it
kind-trim_left : (kind s : String) → IsKind kind → trim_left (kind <> s) ≡ kind <> s
unfolding trim_left
kind-trim_left kind s email = rw (cons-append) refl
kind-trim_left kind s phone = rw (cons-append) refl
kind-trim_left kind s postal = rw (cons-append) refl

kind-trim_space : (kind : String) → IsKind kind → trim_space kind ≡ kind
unfolding trim_space trim_left trim_right
kind-trim_space kind email = refl
kind-trim_space kind phone = refl
kind-trim_space kind postal = refl

kind-known : (kind : String) → IsKind kind → known_kind kind ≡ true
kind-known kind email = refl
kind-known kind phone = refl
kind-known kind postal = refl

trim_space-trimmed : (s : String) → trim_left s ≡ s → trim_right s ≡ s → trim_space s ≡ s
unfolding trim_space
trim_space-trimmed s l r = rw (l, r) refl

-- What is written as a contact is read back: where the value is not empty and has no spaces at
-- either end, and ToLower leaves the kind as it is, the text of an email, phone or postal kind, a
-- colon and the value is parsed into that kind and that value.
pub parse_contact_value-append :
    (env : Env) (kind value : String)
    → IsKind kind
    → env.to_lower kind ≡ kind
    → value ≢ ""
    → trim_left value ≡ value
    → trim_right value ≡ value
    → parse_contact_value env (kind <> ":" <> value) ≡ ok (kind, value)
unfolding parse_contact_value
parse_contact_value-append env kind value k lower h l r =
    let (colon_ends, colon_nonempty) = trim_right-append ":" value h r in
    let (ends, nonempty) = trim_right-append kind (":" <> value) colon_nonempty colon_ends in
    let empty : str_eq value "" ≡ false = ground (arith, eq_iff value "") in
    rw
      (
        trim_space-trimmed (kind <> ":" <> value) (kind-trim_left kind (":" <> value) k) ends,
        cut_colon-append kind value (kind-no_colon kind k),
        kind-trim_space kind k,
        lower,
        trim_space-trimmed value l r,
        kind-known kind k,
        empty,
      )
      refl
