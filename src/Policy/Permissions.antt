-- ===== src/Policy/Permissions.antt =====
-- database_utils/utils/permission_utils.py: `PermissionChecker` on a loaded user.
-- A set of names is the list of them; only membership is asked.
use models_utils.Prelude.{
  ℕ, ◌≡◌, refl, ◌∙◌, ap, Bool, true, false, not, ◌&&◌, ◌||◌, Option, List, [], ◌∷◌, ◌++◌, Text,
  codes, ◌==◌, text_eq, contains, any, is_some, arith, if◌then◌else◌,
}
use models_utils.Expr.Lexer.{split_dots}

pub record Role : Type 0 where
  pub name : Text
  pub company_id : Option ℕ
  pub permissions : List Text

pub record User : Type 0 where
  pub roles : List Role

abbrev pub wildcard : Text
wildcard = codes "*"

-- The built-in role; a tenant's role of that name is not it.
abbrev pub is_global_admin : Role → Bool
is_global_admin r = r.name == codes "ADMIN" && not (is_some r.company_id)

-- The loop over the roles, with what is collected so far.
unfoldable pub collect_permissions : List Role → List Text → List Text
collect_permissions [] permissions = permissions
collect_permissions (r ∷ rs) permissions =
    let rest = collect_permissions rs (permissions ++ r.permissions) in
    if is_global_admin r then wildcard ∷ [] else rest

unfoldable pub get_user_permissions : User → List Text
unfolding collect_permissions
get_user_permissions user = collect_permissions user.roles []

abbrev pub first_part : List Text → Text
first_part [] = []
first_part (p ∷ ps) = p

-- f"{resource}.*"; a name without a dot is its own resource
unfoldable pub resource_wildcard : Text → Text
resource_wildcard name = first_part (split_dots name) ++ codes ".*"

unfoldable pub has_permission : User → Text → Bool
unfolding get_user_permissions
has_permission user name =
    let permissions = get_user_permissions user in
    if contains permissions wildcard
    then true
    else if contains permissions name
    then true
    else contains permissions (resource_wildcard name)

unfoldable pub has_any_permission : User → List Text → Bool
unfolding has_permission
has_any_permission user names = any (has_permission user) names

-- One of the three names that let a permission through.
abbrev pub allows : Text → List Text → Bool
allows name ps = contains ps wildcard || (contains ps name || contains ps (resource_wildcard name))

contains-++ :
    (xs ys : List Text) (w : Text) → contains (xs ++ ys) w ≡ (contains xs w || contains ys w)
contains-++ [] ys w = refl
contains-++ (x ∷ xs) ys w = ground (arith, contains-++ xs ys w)

shuffle :
    (a b c d e f : Bool)
    → ((a || d) || ((b || e) || (c || f))) ≡ ((a || (b || c)) || (d || (e || f)))
shuffle a b c d e f = ground arith

allows-++ :
    (name : Text) (xs ys : List Text) → allows name (xs ++ ys) ≡ (allows name xs || allows name ys)
allows-++ name xs ys =
    rw
      (
        contains-++ xs ys wildcard,
        contains-++ xs ys name,
        contains-++ xs ys (resource_wildcard name),
      )
      (shuffle (contains xs wildcard) (contains xs name) (contains xs (resource_wildcard name))
        (contains ys wildcard) (contains ys name) (contains ys (resource_wildcard name)))

-- A role that gives the permission.
abbrev pub grants : Text → Role → Bool
grants name r = (r.name == codes "ADMIN" && not (is_some r.company_id)) || allows name r.permissions

assoc : (x y z : Bool) → ((x || y) || z) ≡ (x || (y || z))
assoc x y z = ground arith

allows-wildcard :
    (name : Text) (a b c : Bool) → allows name (wildcard ∷ []) ≡ (a || ((true || b) || c))
allows-wildcard name a b c = ground arith

if_admin :
    (name : Text) (b : Bool) (rest : List Text) (a p m : Bool)
    → allows name rest ≡ ((a || p) || m)
    → allows name (if b then wildcard ∷ [] else rest) ≡ (a || ((b || p) || m))
if_admin name true rest a p m h = allows-wildcard name a p m
if_admin name false rest a p m h = h ∙ assoc a p m

allows-collect :
    (name : Text) (rs : List Role) (ps : List Text)
    → allows name (collect_permissions rs ps) ≡ (allows name ps || any (grants name) rs)
unfolding collect_permissions
allows-collect name [] ps = ground arith
allows-collect name (r ∷ rs) ps =
    if_admin name (is_global_admin r) (collect_permissions rs (ps ++ r.permissions))
      (allows name ps) (allows name r.permissions) (any (grants name) rs)
      (allows-collect name rs (ps ++ r.permissions)
        ∙ ap (λ b. b || any (grants name) rs) (allows-++ name ps r.permissions))

as_or : (a b c : Bool) → (if a then true else if b then true else c) ≡ (a || (b || c))
as_or a b c = ground arith

-- A user has a permission exactly when some role gives it: the ADMIN role of no company, or a role
-- that lists "*", the name itself or the wildcard of its resource.
pub has_permission-grants :
    (user : User) (name : Text) → has_permission user name ≡ any (grants name) user.roles
unfolding has_permission get_user_permissions
has_permission-grants user name =
    as_or (contains (get_user_permissions user) wildcard)
      (contains (get_user_permissions user) name)
      (contains (get_user_permissions user) (resource_wildcard name))
    ∙ allows-collect name user.roles []
