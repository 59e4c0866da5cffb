-- ===== src/Identifiers/Samples.antt =====
-- An identifier, its ARN, and the theorems about identifiers at it.
use heat.Prelude.{◌≡◌, refl, some, [], codes, nat_eq, arith}
use heat.Identifiers.Identifier.{Identifier, arn, from_arn}
use heat.Identifiers.RoundTrip.{IsIdentifier, from_arn-arn}
use heat.Identifiers.Nested.{new_resource, new_event, last_component, resource_of, stack_of}
use heat.Identifiers.Owners.{at_path, resource_path, event_path, new_event-resource_of}

abbrev stack : Identifier
stack = record { tenant = codes "t:1"; stack_name = codes "wp"; stack_id = codes "9"; path = [] }

abbrev server : Identifier
server = at_path stack (resource_path (codes "db"))

arn-server : arn server ≡ codes "arn:openstack:heat::t%3A1:stacks/wp/9/resources/db"
unfolding arn
arn-server = refl

server-IsIdentifier : IsIdentifier server
server-IsIdentifier = ground arith

from_arn-arn_example : from_arn (arn server) ≡ some server
from_arn-arn_example = from_arn-arn server server-IsIdentifier

new_event-resource_of_example :
    (new_resource stack (codes "db") ≡ some server)
    × (new_event server (codes "e1") ≡ some (at_path stack (event_path (codes "db") (codes "e1"))))
    × (last_component (at_path stack (event_path (codes "db") (codes "e1"))) ≡ codes "e1")
    × (resource_of (at_path stack (event_path (codes "db") (codes "e1"))) ≡ some server)
    × (last_component server ≡ codes "db")
    × (stack_of server ≡ some stack)
new_event-resource_of_example =
    new_event-resource_of stack (codes "db") (codes "e1") refl refl (ground arith) refl refl
