-- ===== src/Order/Memory/Map.antt =====
-- Laws of the map, and of its keys.
use boilerplate_go_grpc_micr.Common.{
  ℕ, ◌≡◌, ◌≢◌, refl, ap, sym, some, [], ◌∷◌, arith, if◌then◌else◌, All, inl, inr, Bool-cases,
}
use boilerplate_go_grpc_micr.Common.Text.{Text, text_eq, text_eq_iff, text_eq→eq}
use boilerplate_go_grpc_micr.Order.Aggregate.{Order}
use boilerplate_go_grpc_micr.Order.Memory.{Entries, key, lookup, insert}
use mathlib.Core.List.{tail}
use mathlib.Core.Path.{subst}

pub lookup-insert :
    (k j : Text) (o : Order) (d : Entries)
    → lookup j (insert k o d) ≡ (if text_eq k j then some o else lookup j d)
unfolding lookup insert
lookup-insert k j o [] = refl
lookup-insert k j o ((i, p) ∷ d) =
    ground (arith, text_eq_iff k j, text_eq_iff i k, text_eq_iff i j, lookup-insert k j o d)

-- No NUL byte.
abbrev pub NoNul : Text → Type 0
NoNul = All (λ (c : ℕ). c ≢ 0)

-- Two tenants whose names hold no NUL byte never share a key, nor do two ids of one tenant.
pub key-injective :
    (tenant tenant' id id' : Text)
    → NoNul tenant
    → NoNul tenant'
    → key tenant id ≡ key tenant' id'
    → (tenant ≡ tenant') × (id ≡ id')
unfolding key
key-injective [] [] id id' h h' e = (refl, ap tail e)
key-injective [] (c ∷ t) id id' h h' e = absurd (h'.0 (sym (cc e)))
key-injective (c ∷ t) [] id id' h h' e = absurd (h.0 (cc e))
key-injective (c ∷ t) (c' ∷ t') id id' h h' e =
    let (same, same_id) = key-injective t t' id id' h.1 h'.1 (ap tail e) in (cc, same_id)

-- Two ids of one tenant never share a key, whatever the tenant's name.
pub key-injective_id : (tenant id id' : Text) → key tenant id ≡ key tenant id' → id ≡ id'
unfolding key
key-injective_id [] id id' e = ap tail e
key-injective_id (c ∷ t) id id' e = key-injective_id t id id' (ap tail e)

pub All-insert {ℓ} :
    (P : Text × Order → Type ℓ) (k : Text) (o : Order) (d : Entries)
    → P (k, o)
    → All P d
    → All P (insert k o d)
unfolding insert
All-insert P k o [] p h = (p, tt)
All-insert P k o ((j, q) ∷ d) p h = elim (Bool-cases (text_eq j k)) [
  | inl e ↦ rw e (p, h.1)
  | inr e ↦ rw e (h.0, All-insert P k o d p h.1)
]

found : {q o : Order} → some q ≡ some o → q ≡ o
found e = cc

-- What is found in the map satisfies what every entry does.
pub lookup-All {ℓ} :
    (P : Text × Order → Type ℓ) (k : Text) (d : Entries) (o : Order)
    → All P d
    → lookup k d ≡ some o
    → P (k, o)
unfolding lookup
lookup-All P k [] o h e = cc
lookup-All P k ((j, q) ∷ d) o h e = elim (Bool-cases (text_eq j k)) [
  | inl t ↦ subst (λ x. P (x, o)) (text_eq→eq j k t) (subst (λ x. P (j, x)) (found (rw t at e)) h.0)
  | inr t ↦ lookup-All P k d o h.1 (rw t at e)
]
