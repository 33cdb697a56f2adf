-- ===== src/Core/Security.antt =====
-- core/security.py: principals, roles and entitlements.
use sep.Base.{String, Bool, true, false, not, ◌||◌, List, [], ◌∷◌, any, elem, if◌then◌else◌}
use Prim.Native.String.{◌++◌}
use sep.Core.Errors.{Result, ok, err, permission_denied}

pub data Role : Type 0 where
  viewer investigator approver admin service : Role

abbrev pub same_role : Role → Role → Bool
same_role Role.viewer Role.viewer = true
same_role Role.investigator Role.investigator = true
same_role Role.approver Role.approver = true
same_role Role.admin Role.admin = true
same_role Role.service Role.service = true
same_role _ _ = false

-- `role in roles`
abbrev pub has_role : Role → List Role → Bool
has_role role [] = false
has_role role (r ∷ roles) = same_role role r || has_role role roles

pub record Principal : Type 0 where
  pub user_id : String
  pub roles : List Role
  pub desks : List String
  pub person_data : Bool

abbrev pub all_desks : String
all_desks = "*"

unfoldable pub has : Principal → Role → Bool
has p role = has_role role p.roles || has_role Role.admin p.roles

unfoldable pub sees_desk : Principal → String → Bool
sees_desk p desk = elem all_desks p.desks || elem desk p.desks

unfoldable pub require_role : Principal → List Role → Result (Unit {0})
unfolding has
require_role p roles = if not (any (has p) roles) then err permission_denied else ok tt

unfoldable pub require_desk : Principal → String → Result (Unit {0})
unfolding sees_desk
require_desk p desk = if not (sees_desk p desk) then err permission_denied else ok tt

abbrev pub system : Principal
system = record {
  user_id = "system";
  roles = Role.service ∷ [];
  desks = all_desks ∷ [];
  person_data = false;
}

unfoldable pub agent_principal : String → Principal → Principal
agent_principal agent on_behalf_of = record {
  user_id = "agent:" ++ agent;
  roles = Role.service ∷ [];
  desks = on_behalf_of.desks;
  person_data = on_behalf_of.person_data;
}
