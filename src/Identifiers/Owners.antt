-- ===== src/Identifiers/Owners.antt =====
-- A resource's identifier leads back to its stack, and an event's to its resource.
use heat.Prelude.{
  false, ◌≡◌, ◌≢◌, refl, sym, ap, ◌∙◌, some, [], ◌∷◌, ◌++◌, append_assoc, Text, codes, nat_eq,
  member, split_from, join, arith,
}
use heat.Identifiers.Identifier.{Identifier, slash, is_empty, with_slash, new_identifier}
use heat.Identifiers.Lacking.{Lacks, split-Lacks, split-Lacks_end}
use heat.Identifiers.Nested.{
  rstrip, lstrip, path_components, last_of, without_last_two, new_resource, last_component,
  stack_of, new_event, resource_of,
}

abbrev pub at_path : Identifier → Text → Identifier
at_path i path = record i { path = path }

abbrev pub resource_path : Text → Text
resource_path name = codes "/resources/" ++ name

abbrev pub event_path : Text → Text → Text
event_path name event = codes "/resources/" ++ (name ++ (codes "/events/" ++ event))

member-Lacks : (s : Text) → member slash s ≡ false → Lacks slash s
member-Lacks [] h = tt
member-Lacks (c ∷ s) h = (ground arith, member-Lacks s (ground arith))

rstrip-nonempty : (s : Text) → s ≢ [] → Lacks slash s → is_empty (rstrip s) ≡ false
unfolding rstrip
rstrip-nonempty [] n h = absurd (n refl)
rstrip-nonempty (c ∷ s) n h = ground (arith, h.0, nat_eq.beq_iff c slash, nat_eq.beq_iff slash c)

rstrip-Lacks : (s : Text) → Lacks slash s → rstrip s ≡ s
unfolding rstrip
rstrip-Lacks [] h = refl
rstrip-Lacks (c ∷ s) h =
    ground (arith, h.0, rstrip-Lacks s h.1, nat_eq.beq_iff c slash, nat_eq.beq_iff slash c)

components-resource :
    (i : Identifier) (name : Text)
    → Lacks slash name
    → path_components (at_path i (resource_path name)) ≡ codes "resources" ∷ name ∷ []
unfolding path_components lstrip split_from
components-resource i name h = ap (λ r. codes "resources" ∷ r) (split-Lacks_end slash name h)

components-event :
    (i : Identifier) (name event : Text)
    → Lacks slash name
    → Lacks slash event
    → path_components (at_path i (event_path name event))
      ≡ codes "resources" ∷ name ∷ codes "events" ∷ event ∷ []
unfolding path_components lstrip split_from
components-event i name event h k =
    ap (λ r. codes "resources" ∷ r)
      (split-Lacks slash name (codes "events/" ++ event) h
        ∙ ap (λ r. name ∷ codes "events" ∷ r) (split-Lacks_end slash event k))

rstrip-resource :
    (name : Text) → name ≢ [] → Lacks slash name → rstrip (resource_path name) ≡ resource_path name
unfolding rstrip
rstrip-resource name n h = rw (rstrip-nonempty name n h, rstrip-Lacks name h) refl

identified :
    (i : Identifier) (path : Text)
    → member slash i.stack_name ≡ false
    → new_identifier i.tenant i.stack_name i.stack_id path ≡ some (at_path i (with_slash path))
unfolding new_identifier
identified i path plain = rw plain refl

-- From the identifier of a stack the identifiers of a resource and of an event of the resource are
-- made, for names and event ids without a slash that are not empty. The event's identifier gives back
-- the id of the event and the resource's identifier, and that the resource's name and the stack.
pub new_event-resource_of :
    (i : Identifier) (name event : Text)
    → i.path ≡ []
    → member slash i.stack_name ≡ false
    → name ≢ []
    → member slash name ≡ false
    → member slash event ≡ false
    → (new_resource i name ≡ some (at_path i (resource_path name)))
      × (new_event (at_path i (resource_path name)) event
          ≡ some (at_path i (event_path name event)))
      × (last_component (at_path i (event_path name event)) ≡ event)
      × (resource_of (at_path i (event_path name event)) ≡ some (at_path i (resource_path name)))
      × (last_component (at_path i (resource_path name)) ≡ name)
      × (stack_of (at_path i (resource_path name)) ≡ some i)
unfolding new_resource new_event last_component resource_of stack_of new_identifier last_of
    without_last_two join rstrip
new_event-resource_of i name event empty plain n h k = (
  rw (h, plain, empty) refl,
  rw (plain, rstrip-nonempty name n (member-Lacks name h), rstrip-Lacks name (member-Lacks name h))
      (ap (λ p. some (at_path i (codes "/resources/" ++ p)))
        (append_assoc name (codes "/") (codes "events/" ++ event))),
  ap last_of (components-event i name event (member-Lacks name h) (member-Lacks event k)),
  ap
        (λ cs.
          new_identifier i.tenant i.stack_name i.stack_id (join (codes "/") (without_last_two cs)))
        (components-event i name event (member-Lacks name h) (member-Lacks event k))
      ∙ identified i (codes "resources/" ++ name) plain,
  ap last_of (components-resource i name (member-Lacks name h)),
  ap
        (λ cs.
          new_identifier i.tenant i.stack_name i.stack_id (join (codes "/") (without_last_two cs)))
        (components-resource i name (member-Lacks name h))
      ∙ identified i [] plain
      ∙ ap (λ p. some (at_path i p)) (sym empty),
)
