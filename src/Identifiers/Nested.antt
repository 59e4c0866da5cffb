-- ===== src/Identifiers/Nested.antt =====
-- Identifiers of resources and events, whose path is that of what owns them.
use heat.Prelude.{
  ◌&&◌, Option, none, List, [], ◌∷◌, Text, codes, ◌==◌, nat_eq, member, split, split_from, join,
  if◌then◌else◌, String,
}
use heat.Identifiers.Identifier.{Identifier, slash, is_empty, new_identifier}

-- `path.rstrip('/')`
unfoldable pub rstrip : Text → Text
rstrip [] = []
rstrip (c ∷ s) = let rest = rstrip s in if c == slash && is_empty rest then [] else c ∷ rest

-- `path.lstrip('/')`
unfoldable pub lstrip : Text → Text
lstrip [] = []
lstrip (c ∷ s) = if c == slash then lstrip s else c ∷ s

-- `_path_components()`
unfoldable pub path_components : Identifier → List Text
unfolding lstrip split_from
path_components i = split (codes "/") (lstrip i.path)

-- `xs[-1]` and `xs[:-2]`
unfoldable pub last_of : List Text → Text
last_of [] = []
last_of (x ∷ []) = x
last_of (x ∷ y ∷ xs) = last_of (y ∷ xs)

unfoldable pub without_last_two : List Text → List Text
without_last_two [] = []
without_last_two (x ∷ []) = []
without_last_two (x ∷ y ∷ []) = []
without_last_two (x ∷ y ∷ z ∷ xs) = x ∷ without_last_two (y ∷ z ∷ xs)

abbrev pub below : Text → String → Text → Text
below path kind name = join (codes "/") (rstrip path ∷ codes kind ∷ name ∷ [])

-- `ResourceIdentifier(resource_name=name, **i)`
unfoldable pub new_resource : Identifier → Text → Option Identifier
unfolding new_identifier rstrip join
new_resource i name =
    if member slash name
    then none
    else new_identifier i.tenant i.stack_name i.stack_id (below i.path "resources" name)

-- `resource_name`, and `event_id`
unfoldable pub last_component : Identifier → Text
unfolding path_components last_of
last_component i = last_of (path_components i)

-- `stack()`
unfoldable pub stack_of : Identifier → Option Identifier
unfolding new_identifier path_components without_last_two join
stack_of i =
    new_identifier i.tenant i.stack_name i.stack_id
      (join (codes "/") (without_last_two (path_components i)))

-- `EventIdentifier(event_id=event, **i)`
unfoldable pub new_event : Identifier → Text → Option Identifier
unfolding new_identifier rstrip join
new_event i event = new_identifier i.tenant i.stack_name i.stack_id (below i.path "events" event)

-- `resource()`
unfoldable pub resource_of : Identifier → Option Identifier
unfolding new_identifier path_components without_last_two join
resource_of i =
    new_identifier i.tenant i.stack_name i.stack_id
      (join (codes "/") (without_last_two (path_components i)))
