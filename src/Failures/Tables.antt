-- ===== src/Failures/Tables.antt =====
-- The two tables of codes agree, and so do the two switches over the domain's errors.
use boilerplate_go_grpc_micr.Common.{
  ℕ, ◌≡◌, refl, ap, sym, ◌∙◌, ◌⊎◌, inl, inr, true, false, ◌==◌, none, some, List, [], ◌∷◌, arith,
  if◌then◌else◌, Bool-cases, Option-cases,
}
use boilerplate_go_grpc_micr.Order.Errors.{Err}
use boilerplate_go_grpc_micr.Failures.{
  Kind, kind_info, grpc_code, http_status, http_status_from_code, Info, Reason, reason_for,
  domain_error_kind,
}

-- The status of a code.
status_of_code : ℕ → ℕ
status_of_code c =
    if c == 3
    then 400
    else if c == 9
    then 400
    else if c == 5
    then 404
    else if c == 6
    then 409
    else if c == 7
    then 403
    else if c == 16
    then 401
    else if c == 8
    then 429
    else if c == 14
    then 503
    else if c == 1
    then 499
    else if c == 4
    then 504
    else 500

http_status-code : (k : Kind) → http_status k ≡ status_of_code (grpc_code k)
unfolding http_status grpc_code kind_info status_of_code
http_status-code Kind.unknown = refl
http_status-code Kind.invalid_argument = refl
http_status-code Kind.failed_precondition = refl
http_status-code Kind.not_found = refl
http_status-code Kind.already_exists = refl
http_status-code Kind.permission_denied = refl
http_status-code Kind.unauthenticated = refl
http_status-code Kind.resource_exhausted = refl
http_status-code Kind.unavailable = refl
http_status-code Kind.internal = refl
http_status-code Kind.canceled = refl
http_status-code Kind.deadline_exceeded = refl
http_status-code (Kind.undeclared n) = refl

none-some : {i : Info} → ¬ (none ≡ some i)
none-some e = cc

eq_of : (a b : ℕ) → a == b ≡ true → a ≡ b
eq_of a b h = ground arith

ne_of : (a b : ℕ) → a == b ≡ false → ¬ (a ≡ b)
ne_of a b h e = ground arith

-- A kind of the table.
abbrev pub IsListed : Kind → List Kind → Type 0
IsListed k [] = ⊥
IsListed k (j ∷ js) = (j ≡ k) ⊎ IsListed k js

abbrev pub IsDeclared : Kind → Type 0
IsDeclared k = (i : Info) × (kind_info k ≡ some i)

first_hit :
    (j : Kind) (js : List Kind) (code : ℕ) (i : Info)
    → kind_info j ≡ some i
    → http_status_from_code (j ∷ js) code
      ≡ (if i.code == code then i.status else http_status_from_code js code)
unfolding http_status_from_code
first_hit j js code i h =
    ap
      (λ m. elim m [
        | none ↦ http_status_from_code js code
        | some i ↦ if i.code == code then i.status else http_status_from_code js code
      ])
      h

no_hit :
    (j : Kind) (js : List Kind) (code : ℕ)
    → kind_info j ≡ none
    → http_status_from_code (j ∷ js) code ≡ http_status_from_code js code
unfolding http_status_from_code
no_hit j js code h =
    ap
      (λ m. elim m [
        | none ↦ http_status_from_code js code
        | some i ↦ if i.code == code then i.status else http_status_from_code js code
      ])
      h

info-code :
    (j : Kind) (i : Info)
    → kind_info j ≡ some i
    → (grpc_code j ≡ i.code) × (http_status j ≡ i.status)
unfolding grpc_code http_status
info-code j i h = (
  ap (λ m. elim m [ none ↦ 13 | some i ↦ i.code ]) h,
  ap (λ m. elim m [ none ↦ 500 | some i ↦ i.status ]) h,
)

-- The REST edge answers a failure with its own kind's HTTP status, although it sees the gRPC code
-- alone: whatever the order in which the table is searched, the status found for the code of a
-- declared kind that the search covers is that kind's status.
pub http_status_from_code-kind :
    (ks : List Kind) (k : Kind)
    → IsListed k ks
    → IsDeclared k
    → http_status_from_code ks (grpc_code k) ≡ http_status k
http_status_from_code-kind [] k h d = absurd h
http_status_from_code-kind (j ∷ js) k h (i, d) = elim (Option-cases (kind_info j)) [
  | inl n ↦
      no_hit j js (grpc_code k) n
      ∙ http_status_from_code-kind js k
          (elim h [ inl e ↦ absurd (none-some (sym n ∙ ap kind_info e ∙ d)) | inr t ↦ t ]) (i, d)
  | inr (m, n) ↦
      first_hit j js (grpc_code k) m n
      ∙ (let (c, t) = info-code j m n in
          elim (Bool-cases (m.code == grpc_code k)) [
            | inl hit ↦ rw hit (
                sym t
                ∙ http_status-code j
                ∙ ap status_of_code (c ∙ eq_of m.code (grpc_code k) hit)
                ∙ sym (http_status-code k))
            | inr miss ↦ rw miss (
                http_status_from_code-kind js k
                  (elim h [
                    | inl e ↦ absurd (ne_of m.code (grpc_code k) miss (sym c ∙ ap grpc_code e))
                    | inr t ↦ t
                  ])
                  (i, d))
          ])
]

-- The kind that stands for a reason.
abbrev pub kind_of_reason : Reason → Kind
kind_of_reason Reason.order_not_found = Kind.not_found
kind_of_reason Reason.order_already_exists = Kind.already_exists
kind_of_reason Reason.order_invalid_status_transition = Kind.failed_precondition
kind_of_reason Reason.tenant_missing = Kind.internal
kind_of_reason Reason.internal = Kind.internal
kind_of_reason _ = Kind.invalid_argument

-- The reason that a client reads fixes the kind of the failure, for every error of the domain.
pub reason_for-kind : (e : Err) → kind_of_reason (reason_for e) ≡ domain_error_kind e
unfolding reason_for domain_error_kind
reason_for-kind e = ground arith
