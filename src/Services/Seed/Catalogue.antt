-- ===== src/Services/Seed/Catalogue.antt =====
-- What the loops of the seeding leave of permissions and roles.
use banking_ai_platform.Prelude.{
  String, ◌is◌, true, not, ◌||◌, List, [], ◌∷◌, ◌++◌, keep, contains, contains-append, append_nil,
  if◌then◌else◌, All, ◌≡◌, refl, ap, ◌∙◌, arith, subst, ◌↔◌, eq_iff, Bool-cases, inl, inr,
}
use mathlib.Core.List.{append_assoc}
use banking_ai_platform.Services.Seed.{RoleRow, seed_permissions, seed_role, seed_roles}

contains-last :
    (rows : List String) (code c : String)
    → contains (rows ++ (code ∷ [])) c ≡ (contains rows c || (code is c))
contains-last rows code c = ground (arith, contains-append rows (code ∷ []) c)

seed_permissions-kept :
    (codes rows : List String) (c : String)
    → contains rows c ≡ true
    → contains (seed_permissions codes rows) c ≡ true
unfolding seed_permissions
seed_permissions-kept [] rows c h = h
seed_permissions-kept (code ∷ codes) rows c h =
    seed_permissions-kept codes (if contains rows code then rows else rows ++ (code ∷ [])) c
      (ground (arith, h, contains-last rows code c))

abbrev pub Covers : List String → List String → Type 0
Covers rows codes = All (λ c. contains rows c ≡ true) codes

pub seed_permissions-Covers :
    (codes rows : List String) → Covers (seed_permissions codes rows) codes
unfolding seed_permissions
seed_permissions-Covers [] rows = tt
seed_permissions-Covers (code ∷ codes) rows = (
  seed_permissions-kept codes (if contains rows code then rows else rows ++ (code ∷ [])) code
      (ground (arith, contains-last rows code code, eq_iff code code)),
  seed_permissions-Covers codes (if contains rows code then rows else rows ++ (code ∷ [])),
)

pub seed_permissions_same :
    (codes rows : List String) → Covers rows codes → seed_permissions codes rows ≡ rows
unfolding seed_permissions
seed_permissions_same [] rows h = refl
seed_permissions_same (code ∷ codes) rows h = rw h.0 (seed_permissions_same codes rows h.1)

-- The codes that are not among the first are none if the first have them all.
nothing_new :
    (codes rows : List String) → Covers rows codes → keep (λ c. not (contains rows c)) codes ≡ []
nothing_new [] rows h = refl
nothing_new (c ∷ codes) rows h = rw h.0 (nothing_new codes rows h.1)

-- The role of a name has all of some codes.
abbrev pub HasRole : List RoleRow → String → List String → Type 0
HasRole [] name codes = ⊥
HasRole (row ∷ rows) name codes =
    if row.name is name then Covers row.permissions codes else HasRole rows name codes

Covers-append : (codes a b : List String) → Covers a codes → Covers (a ++ b) codes
Covers-append [] a b h = tt
Covers-append (c ∷ codes) a b h =
    (ground (arith, h.0, contains-append a b c), Covers-append codes a b h.1)

Covers-top_up :
    (codes rows more : List String)
    → All (λ c. contains more c ≡ true) (keep (λ c. not (contains rows c)) codes)
    → Covers (rows ++ more) codes
Covers-top_up [] rows more h = tt
Covers-top_up (c ∷ codes) rows more h = elim (Bool-cases (contains rows c)) [
  | inl old ↦ (
    ground (arith, old, contains-append rows more c),
    Covers-top_up codes rows more (rw old at h),
  )
  | inr new ↦
      let h' = rw new at h in
      (ground (arith, h'.0, contains-append rows more c), Covers-top_up codes rows more h'.1)
]

Covers-codes : (more codes : List String) → Covers (more ++ codes) codes
Covers-codes more [] = tt
Covers-codes more (c ∷ codes) = (
  ground (arith, contains-append more (c ∷ codes) c, eq_iff c c),
  subst (λ rows. Covers rows codes) (append_assoc more (c ∷ []) codes)
      (Covers-codes (more ++ (c ∷ [])) codes),
)

module _ (name : String) (codes : List String) where
  HasRole-seeded : (rows : List RoleRow) → HasRole (seed_role name codes rows) name codes
  unfolding seed_role
  HasRole-seeded [] = ap_if (eq_iff name name)
    where
      ap_if :
          ((name is name) ≡ true) ↔ (name ≡ name) → if name is name then Covers codes codes else ⊥
      ap_if same = rw (same.1 refl) (Covers-codes [] codes)
  HasRole-seeded (row ∷ rows) = elim (Bool-cases (row.name is name)) [
    | inl e ↦ rw (e, e) (Covers-top_up codes row.permissions _ (Covers-codes [] _))
    | inr e ↦ rw (e, e) (HasRole-seeded rows)
  ]

  seed_role_same :
      (rows : List RoleRow) → HasRole rows name codes → seed_role name codes rows ≡ rows
  unfolding seed_role
  seed_role_same [] h = absurd h
  seed_role_same (row ∷ rows) h = elim (Bool-cases (row.name is name)) [
    | inl e ↦ rw e (
        ap (λ more. record row { permissions = row.permissions ++ more } ∷ rows)
          (nothing_new codes row.permissions (rw e at h))
        ∙ ap (λ (ps : List String). record row { permissions = ps } ∷ rows)
            (append_nil row.permissions))
    | inr e ↦ rw e (ap (λ rest. row ∷ rest) (seed_role_same rows (rw e at h)))
  ]

  HasRole-kept :
      (rows : List RoleRow) (other : String) (others : List String)
      → HasRole rows other others
      → HasRole (seed_role name codes rows) other others
  unfolding seed_role
  HasRole-kept [] other others h = absurd h
  HasRole-kept (row ∷ rows) other others h = elim (Bool-cases (row.name is name)) [
    | inl e ↦ rw e (elim (Bool-cases (row.name is other)) [
      | inl o ↦ rw o (Covers-append others row.permissions _ (rw o at h))
      | inr o ↦ rw o (rw o at h)
    ])
    | inr e ↦ rw e (elim (Bool-cases (row.name is other)) [
      | inl o ↦ rw o (rw o at h)
      | inr o ↦ rw o (HasRole-kept rows other others (rw o at h))
    ])
  ]

-- Every entry has its role.
abbrev pub HasRoles : List RoleRow → List (String × List String) → Type 0
HasRoles rows entries = All (λ e. HasRole rows e.0 e.1) entries

seed_roles-kept :
    (entries : List (String × List String)) (rows : List RoleRow) (name : String)
    (codes : List String)
    → HasRole rows name codes
    → HasRole (seed_roles entries rows) name codes
unfolding seed_roles
seed_roles-kept [] rows name codes h = h
seed_roles-kept ((n, cs) ∷ entries) rows name codes h =
    seed_roles-kept entries (seed_role n cs rows) name codes (HasRole-kept n cs rows name codes h)

pub seed_roles-HasRoles :
    (entries : List (String × List String)) (rows : List RoleRow)
    → HasRoles (seed_roles entries rows) entries
unfolding seed_roles
seed_roles-HasRoles [] rows = tt
seed_roles-HasRoles ((n, cs) ∷ entries) rows = (
  seed_roles-kept entries (seed_role n cs rows) n cs (HasRole-seeded n cs rows),
  seed_roles-HasRoles entries (seed_role n cs rows),
)

pub seed_roles_same :
    (entries : List (String × List String)) (rows : List RoleRow)
    → HasRoles rows entries
    → seed_roles entries rows ≡ rows
unfolding seed_roles
seed_roles_same [] rows h = refl
seed_roles_same ((n, cs) ∷ entries) rows h =
    ap (seed_roles entries) (seed_role_same n cs rows h.0) ∙ seed_roles_same entries rows h.1
