-- ===== src/Client/Retries/Names.antt =====
-- The names of methods that `splitMethod` accepts, and their keys.
use boilerplate_go_grpc_micr.Common.{
  ℕ, ◌≡◌, ◌≢◌, refl, ap, sym, ◌⊎◌, inl, inr, false, ◌==◌, Option, none, some, [], ◌∷◌, ◌++◌, All,
  Bool-cases, arith,
}
use mathlib.Core.List.{tail}
use mathlib.Core.Path.{subst}
use boilerplate_go_grpc_micr.Common.Text.{Text, is_empty}
use boilerplate_go_grpc_micr.Client.Retries.{
  Refusal, cut, trim_slash, method_of, split_method, joined,
}

abbrev pub NoSlash : Text → Type 0
NoSlash = All (λ (c : ℕ). c ≢ b'/')

-- A service that is given and has no slash.
abbrev pub IsName : Text × Text → Type 0
IsName (service, method) = (is_empty service ≡ false) × NoSlash service

cut-NoSlash : (s : Text) → NoSlash (cut s).0
unfolding cut
cut-NoSlash [] = tt
cut-NoSlash (c ∷ s) = elim (Bool-cases (c == b'/')) [
  | inl b ↦ rw b tt
  | inr b ↦ rw b ((λ e. ground (arith, e)), cut-NoSlash s)
]

refused : {e : Refusal} {name : Text × Text} → inl e ≡ inr name → ⊥
refused e = cc

same : {x y : Text × Text} → ◌≡◌ {A = Refusal ⊎ Text × Text} (inr x) (inr y) → x ≡ y
same e = cc

method_of-IsName :
    (service : Text) (rest : Option Text) (name : Text × Text)
    → is_empty service ≡ false
    → NoSlash service
    → method_of service rest ≡ inr name
    → IsName name
unfolding method_of
method_of-IsName service none name g n e = subst IsName (same e) (g, n)
method_of-IsName service (some []) name g n e = absurd (refused e)
method_of-IsName service (some (c ∷ s)) name g n e = subst IsName (same e) (g, n)

pub split_method-IsName :
    (full : Text) (name : Text × Text) → split_method full ≡ inr name → IsName name
unfolding split_method
split_method-IsName full name h = elim (Bool-cases (is_empty (trim_slash full))) [
  | inl t ↦ absurd (refused (rw t at h))
  | inr t ↦ elim (Bool-cases (is_empty (cut (trim_slash full)).0)) [
    | inl u ↦ absurd (refused (rw (t, u) at h))
    | inr u ↦
        method_of-IsName (cut (trim_slash full)).0 (cut (trim_slash full)).1 name u
          (cut-NoSlash (trim_slash full)) (rw (t, u) at h)
  ]
]

-- Two names of one key are one name.
pub joined-injective : (x y : Text × Text) → IsName x → IsName y → joined x ≡ joined y → x ≡ y
joined-injective (s, m) (t, n) (_, h) (_, k) e = let (a, b) = go s t h k e in pair a b
  where
    pair : {a b c d : Text} → a ≡ b → c ≡ d → ◌≡◌ {A = Text × Text} (a, c) (b, d)
    pair p q = rw (p, q) refl

    go :
        (s t : Text) {m n : Text}
        → NoSlash s
        → NoSlash t
        → s ++ b'/' ∷ m ≡ t ++ b'/' ∷ n
        → (s ≡ t) × (m ≡ n)
    go [] [] h k e = (refl, ap tail e)
    go [] (c ∷ t) h k e = absurd (k.0 (sym (cc e)))
    go (c ∷ s) [] h k e = absurd (h.0 (cc e))
    go (c ∷ s) (d ∷ t) h k e = let (a, b) = go s t h.1 k.1 (ap tail e) in (cc, b)
