-- ===== src/Identifiers/RoundTrip.antt =====
-- An identifier is read back from its ARN.
use heat.Prelude.{
  ℕ, true, false, ◌≡◌, ◌≢◌, refl, ap, ◌∙◌, some, [], ◌∷◌, ◌++◌, append-nil, Text, codes, ◌==◌,
  nat_eq, member, split, split_from, join, arith,
}
use heat.Identifiers.Quoting.{quote}
use heat.Identifiers.Identifier.{
  Identifier, slash, with_slash, new_identifier, tenant_path, arn, span_segment, without_prefix,
  is_empty, match_tail, match_segments, match_path, from_groups, from_fields, from_arn,
}
use heat.Identifiers.Lacking.{
  Lacks, IsBytes, quote-Lacks, unquote-quote, split-Lacks, split-Lacks_end, Lacks-append,
  span_segment-Lacks, span_segment-Lacks_end, line-Lacks,
}

-- What `HeatIdentifier` takes: a name without a slash, a path that begins with one; and a name and an id
-- that are not empty. All strings are strings of bytes.
abbrev pub IsIdentifier : Identifier → Type 0
IsIdentifier i =
    (IsBytes i.tenant × IsBytes i.stack_name × IsBytes i.stack_id × IsBytes i.path)
    × (member slash i.stack_name ≡ false)
    × (i.stack_name ≢ [])
    × (i.stack_id ≢ [])
    × (with_slash i.path ≡ i.path)

quote-nonempty : (s : Text) → s ≢ [] → is_empty (quote [] s) ≡ false
unfolding quote
quote-nonempty [] h = absurd (h refl)
quote-nonempty (c ∷ s) h = ground arith

tenant_path-Lacks : (i : Identifier) → IsIdentifier i → Lacks 58 (tenant_path i)
unfolding tenant_path
tenant_path-Lacks i h = (
  refl,
  (
    refl,
    (
      refl,
      (
        refl,
        (
          refl,
          (
            refl,
            (
              refl,
              Lacks-append 58 (quote [] i.stack_name) _
                  (quote-Lacks 58 [] i.stack_name refl refl h.0.1)
                  (
                    refl,
                    Lacks-append 58 (quote [] i.stack_id) _
                        (quote-Lacks 58 [] i.stack_id refl refl h.0.2)
                        (quote-Lacks 58 (slash ∷ []) i.path refl refl h.0.3),
                  ),
            ),
          ),
        ),
      ),
    ),
  ),
)

first_slash : (c : ℕ) (path : Text) → with_slash (c ∷ path) ≡ c ∷ path → (c == slash) ≡ true
first_slash c path h = ground (arith, h, nat_eq.beq_iff c slash)

quote-slash :
    (c : ℕ) (path : Text)
    → (c == slash) ≡ true
    → quote (slash ∷ []) (c ∷ path) ≡ slash ∷ quote (slash ∷ []) path
unfolding quote
quote-slash c path h = ground (arith, h, nat_eq.beq_iff c slash)

span_segment-quote :
    (id path : Text)
    → IsBytes id
    → with_slash path ≡ path
    → span_segment (quote [] id ++ quote (slash ∷ []) path) ≡ (quote [] id, quote (slash ∷ []) path)
span_segment-quote id [] hi hs =
    unfold quote in
    ap span_segment (append-nil (quote [] id))
    ∙ span_segment-Lacks_end (quote [] id) (quote-Lacks slash [] id refl refl hi)
span_segment-quote id (c ∷ path) hi hs = rw (quote-slash c path (first_slash c path hs)) (
    span_segment-Lacks (quote [] id) (quote (slash ∷ []) path)
      (quote-Lacks slash [] id refl refl hi))

-- The id and the path, whose quoted form is empty or begins with a slash.
match_tail-quote :
    (name id path : Text)
    → IsBytes id
    → id ≢ []
    → IsBytes path
    → with_slash path ≡ path
    → match_tail name (some (quote [] id ++ quote (slash ∷ []) path))
      ≡ some (name, quote [] id, quote (slash ∷ []) path)
unfolding match_tail
match_tail-quote name id path hi ni hp hs =
    rw
      (
        span_segment-quote id path hi hs,
        quote-nonempty id ni,
        line-Lacks (quote (slash ∷ []) path) (quote-Lacks 10 (slash ∷ []) path refl refl hp),
      )
      refl

match_path-tenant_path :
    (i : Identifier)
    → IsIdentifier i
    → match_path (tenant_path i)
      ≡ some (quote [] i.stack_name, quote [] i.stack_id, quote (slash ∷ []) i.path)
unfolding match_path match_segments without_prefix tenant_path
match_path-tenant_path i h =
    rw
      (
        span_segment-Lacks (quote [] i.stack_name)
            (quote [] i.stack_id ++ quote (slash ∷ []) i.path)
            (quote-Lacks slash [] i.stack_name refl refl h.0.1),
        quote-nonempty i.stack_name h.2,
      )
      (match_tail-quote (quote [] i.stack_name) i.stack_id i.path h.0.2 h.3 h.0.3 h.4)

split-arn :
    (i : Identifier)
    → IsIdentifier i
    → split (codes ":") (arn i)
      ≡ codes "arn" ∷ codes "openstack" ∷ codes "heat" ∷ [] ∷ quote [] i.tenant ∷ tenant_path i ∷ []
unfolding arn split_from
split-arn i h =
    ap (λ r. codes "arn" ∷ codes "openstack" ∷ codes "heat" ∷ [] ∷ r)
      (split-Lacks 58 (quote [] i.tenant) (tenant_path i)
          (quote-Lacks 58 [] i.tenant refl refl h.0.0)
        ∙ ap (λ r. quote [] i.tenant ∷ r)
            (split-Lacks_end 58 (tenant_path i) (tenant_path-Lacks i h)))

pub from_arn-arn : (i : Identifier) → IsIdentifier i → from_arn (arn i) ≡ some i
unfolding from_arn from_fields from_groups new_identifier join
from_arn-arn i h =
    rw
      (
        split-arn i h,
        match_path-tenant_path i h,
        unquote-quote [] i.tenant refl h.0.0,
        unquote-quote [] i.stack_name refl h.0.1,
        unquote-quote [] i.stack_id refl h.0.2,
        unquote-quote (slash ∷ []) i.path refl h.0.3,
        h.1,
        h.4,
      )
      refl
