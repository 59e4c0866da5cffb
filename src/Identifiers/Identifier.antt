-- ===== src/Identifiers/Identifier.antt =====
-- `HeatIdentifier`, `ResourceIdentifier` and `EventIdentifier`.
use heat.Prelude.{
  ℕ, ◌+◌, Bool, true, false, ◌&&◌, Option, none, some, List, [], ◌∷◌, ◌++◌, map, Text, codes, ◌==◌,
  list_eq, nat_eq, leb, member, split, join, if◌then◌else◌,
}
use heat.Identifiers.Quoting.{quote, unquote, unquote_from}

pub record Identifier : Type 0 where
  pub tenant : Text
  pub stack_name : Text
  pub stack_id : Text
  pub path : Text

abbrev pub slash : ℕ
slash = 47

-- `path` with a slash in front, unless it is empty
abbrev pub with_slash : Text → Text
with_slash [] = []
with_slash (c ∷ path) = if c == slash then c ∷ path else slash ∷ c ∷ path

-- `HeatIdentifier(tenant, stack_name, stack_id, path)`; `none` is the ValueError.
unfoldable pub new_identifier : Text → Text → Text → Text → Option Identifier
new_identifier tenant stack_name stack_id path =
    if member slash stack_name
    then none
    else some (record {
      tenant = tenant;
      stack_name = stack_name;
      stack_id = stack_id;
      path = with_slash path;
    })

-- `_tenant_path()`
unfoldable pub tenant_path : Identifier → Text
unfolding quote
tenant_path i =
    codes "stacks/"
    ++ (quote [] i.stack_name ++ (slash ∷ (quote [] i.stack_id ++ quote (slash ∷ []) i.path)))

-- `arn()`
unfoldable pub arn : Identifier → Text
unfolding tenant_path quote
arn i = codes "arn:openstack:heat::" ++ (quote [] i.tenant ++ (58 ∷ tenant_path i))

-- `url_path()`
unfoldable pub url_path : Identifier → Text
unfolding tenant_path quote
url_path i = quote [] i.tenant ++ (slash ∷ tenant_path i)

-- `[^/]+`: the characters up to a slash, and the rest
unfoldable pub span_segment : Text → Text × Text
span_segment [] = ([], [])
span_segment (c ∷ s) =
    let more = span_segment s in if c == slash then ([], c ∷ s) else (c ∷ more.0, more.1)

abbrev pub without_slash : Text → Option Text
without_slash [] = none
without_slash (c ∷ s) = if c == slash then some s else none

unfoldable pub without_prefix : Text → Text → Option Text
without_prefix [] s = some s
without_prefix (c ∷ p) [] = none
without_prefix (c ∷ p) (d ∷ s) = if c == d then without_prefix p s else none

-- `.*` ends at a line feed
unfoldable pub line : Text → Text
line [] = []
line (c ∷ s) = if c == 10 then [] else c ∷ line s

abbrev pub is_empty : Text → Bool
is_empty [] = true
is_empty (c ∷ s) = false

-- The second segment and what follows.
unfoldable pub match_tail : Text → Option Text → Option (Text × Text × Text)
unfolding span_segment line
match_tail name none = none
match_tail name (some s) =
    let id = span_segment s in if is_empty id.0 then none else some (name, id.0, line id.1)

unfoldable pub match_segments : Option Text → Option (Text × Text × Text)
unfolding span_segment match_tail
match_segments none = none
match_segments (some s) =
    let name = span_segment s in
    if is_empty name.0 then none else match_tail name.0 (without_slash name.1)

-- `path_re.match(id_fragment)`: the three groups
unfoldable pub match_path : Text → Option (Text × Text × Text)
unfolding match_segments without_prefix
match_path s = match_segments (without_prefix (codes "stacks/") s)

abbrev pub lower : ℕ → ℕ
lower c = if leb 65 c && leb c 90 then c + 32 else c

unfoldable pub from_groups : Text → Option (Text × Text × Text) → Option Identifier
unfolding new_identifier unquote_from
from_groups tenant none = none
from_groups tenant (some (name, id, path)) =
    new_identifier (unquote tenant) (unquote name) (unquote id) (unquote path)

unfoldable pub from_fields : List Text → Option Identifier
unfolding match_path from_groups
from_fields (f0 ∷ f1 ∷ f2 ∷ f3 ∷ f4 ∷ f5 ∷ rest) =
    if (map lower f0 == codes "arn" && f1 == codes "openstack") && f2 == codes "heat"
    then from_groups f4 (match_path (join (codes ":") (f5 ∷ rest)))
    else none
from_fields _ = none

-- `from_arn(arn)`
unfoldable pub from_arn : Text → Option Identifier
unfolding from_fields
from_arn s = from_fields (split (codes ":") s)
