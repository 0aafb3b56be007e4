-- ===== src/Auth/Guards/Allowed.antt =====
-- Which requests the guard of the roles lets through.
use judge_it.Prelude.{
  ◌≡◌, ◌⊎◌, ◌↔◌, inl, inr, refl, ap, ◌∙◌, Bool, true, false, List, [], ◌∷◌, Option, none, some,
  arith, Bool-cases, if◌then◌else◌,
}
use judge_it.Prelude.Bools.{or_right, or-cases}
use judge_it.Prelude.Results.{Result, done}
use judge_it.Prelude.Text.{is_nil}
use judge_it.Auth.Guards.{
  JwtPayload, role_beq, includes_role, has_role, or_no_roles, check_role, roles_can_activate,
}
use judge_it.Users.Types.{Error}
use judge_it.Auth.Roles.{Role, user, admin, moderator}

role_beq_refl : (r : Role) → role_beq r r ≡ true
role_beq_refl user = refl
role_beq_refl admin = refl
role_beq_refl moderator = refl

role_beq_eq : (r q : Role) → role_beq r q ≡ true → r ≡ q
role_beq_eq user user h = refl
role_beq_eq admin admin h = refl
role_beq_eq moderator moderator h = refl
role_beq_eq user admin h = cc
role_beq_eq user moderator h = cc
role_beq_eq admin user h = cc
role_beq_eq admin moderator h = cc
role_beq_eq moderator user h = cc
role_beq_eq moderator admin h = cc

has_role_iff :
    (required roles : List Role)
    → (has_role required roles ≡ true)
      ↔ ((r : Role) × (includes_role required r ≡ true) × (includes_role roles r ≡ true))
has_role_iff [] roles = (λ h. cc, λ found. let none_there = found.1 in cc)
has_role_iff (q ∷ required) roles = (
  λ h. elim (or-cases (includes_role roles q) (has_role required roles) h) [
    | inl e ↦ (q, rw (role_beq_refl q), e)
    | inr e ↦
        (let (r, there, e') = (has_role_iff required roles).0 e in
          (r, or_right (role_beq q r) (includes_role required r) there, e'))
  ],
  λ found. elim (or-cases (role_beq q found.0) (includes_role required found.0) found.1) [
    | inl e ↦ rw (ap (includes_role roles) (role_beq_eq q found.0 e) ∙ found.2)
    | inr e ↦
        or_right (includes_role roles q) (has_role required roles)
          ((has_role_iff required roles).1 (found.0, e, found.2))
  ],
)

abbrev roles_of : Option JwtPayload → List Role
roles_of none = []
roles_of (some v) = or_no_roles v.roles

check_role_iff :
    (required : List Role) (u : Option JwtPayload)
    → (check_role required u ≡ done true) ↔ (
        (v : JwtPayload) × (u ≡ some v)
        × (r : Role) × (includes_role required r ≡ true)
        × (includes_role (or_no_roles v.roles) r ≡ true))
check_role_iff required none = (λ h. cc, λ found. let there = found.1 in cc)
check_role_iff required (some v) = (
  λ h. elim (Bool-cases (has_role required (or_no_roles v.roles))) [
    | inl e ↦
        (let (r, there, theirs) = (has_role_iff required (or_no_roles v.roles)).0 e in
          (v, refl, r, there, theirs))
    | inr e ↦ absurd (ground (arith, h, e))
  ],
  λ found. rw (
      (has_role_iff required (or_no_roles v.roles)).1
        (found.2, found.3, ap (λ o. includes_role (roles_of o) found.2) found.1 ∙ found.4)),
)

through :
    (test : Bool)
    → test ≡ false
    → (r : Result Error Bool) → (if test then done true else r) ≡ done true
    → r ≡ done true
through true e r h = cc
through false e r h = h

-- The guard lets a request through exactly when the route is public, or it requires no role, or the
-- request has a user with one of the roles that it requires.
pub roles_can_activate_iff :
    (is_public : Bool) (required : Option (List Role)) (u : Option JwtPayload)
    → ((roles_can_activate is_public required u ≡ done true) ↔ (
        (is_public ≡ true)
        ⊎ ((is_nil (or_no_roles required) ≡ true)
            ⊎ ((v : JwtPayload) × (u ≡ some v)
                × (r : Role) × (includes_role (or_no_roles required) r ≡ true)
                × (includes_role (or_no_roles v.roles) r ≡ true)))))
unfolding roles_can_activate
roles_can_activate_iff true required u = (λ h. inl refl, λ h. refl)
roles_can_activate_iff false required u = elim (Bool-cases (is_nil (or_no_roles required))) [
  | inl e ↦ (λ h. inr (inl e), λ h. rw e)
  | inr e ↦ (
    λ h. inr (
        inr (
          (check_role_iff (or_no_roles required) u).0
            (through (is_nil (or_no_roles required)) e _ h))),
    λ h. elim h [
      | inl p ↦ absurd (ground (arith, p))
      | inr (inl n) ↦ absurd (ground (arith, n, e))
      | inr (inr found) ↦ rw (e, (check_role_iff (or_no_roles required) u).1 found)
    ],
  )
]
