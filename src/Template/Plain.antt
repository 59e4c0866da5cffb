-- ===== src/Template/Plain.antt =====
-- What has no intrinsic function in it is left alone.
use heat.Prelude.{
  ℕ, suc, Bool, true, false, ◌≡◌, refl, ap, Eq, List, [], ◌∷◌, Text, codes, ◌==◌, list_eq, nat_eq,
  member, All, arith,
}
use heat.Dict.{Dict}
use heat.Template.Json.{
  Json, null, bool, int, float, text, arr, obj, Items, nil, cons, Fields, end, field, Res, returns,
}
use heat.Template.Resolve.{
  Resolver, resolve_in, resolve_items, resolve_fields, resolve, in_turn, transform,
}
use heat.Template.Texts.{
  is_key, handle_reduce_join, handle_split, handle_join, handle_replace, handle_base64,
  reduce_joins, resolve_joins, resolve_split, resolve_replace, resolve_base64,
}
use heat.Template.Select.{handle_select, resolve_select}
use heat.Template.Members.{handle_member_list_to_map, resolve_member_list_to_map}
use heat.Template.References.{
  match_param_ref, handle_param_ref, match_get_az, handle_get_az, handle_resource_facade,
  handle_find_in_map, match_resource_ref, handle_resource_ref, handle_getatt, Params, Resource,
  resolve_param_refs, resolve_availability_zones, resolve_resource_facade, resolve_find_in_map,
  resolve_resource_refs, resolve_attributes,
}
use heat.Template.Runtime.{
  Statics, static_resolvers, resolve_static_data, Library, runtime_resolvers, resolve_runtime_data,
}

abbrev pub intrinsics : List Text
intrinsics =
    codes "Ref"
    ∷ codes "Fn::GetAtt"
    ∷ codes "Fn::FindInMap"
    ∷ codes "Fn::GetAZs"
    ∷ codes "Fn::ResourceFacade"
    ∷ codes "Fn::Join"
    ∷ codes "Fn::Split"
    ∷ codes "Fn::Select"
    ∷ codes "Fn::MemberListToMap"
    ∷ codes "Fn::Replace"
    ∷ codes "Fn::Base64"
    ∷ []

-- No dict with one key has the name of an intrinsic function for its key.
abbrev mutual
  pub IsPlain : Json → Type 0
  IsPlain (obj end) = Unit
  IsPlain (obj (field k v end)) = (member k intrinsics ≡ false) × IsPlain v
  IsPlain (obj (field k v (field j w fs))) = IsPlain v × IsPlain w × ArePlain fs
  IsPlain (arr xs) = AllPlain xs
  IsPlain _ = Unit

  pub AllPlain : Items → Type 0
  AllPlain nil = Unit
  AllPlain (cons x xs) = IsPlain x × AllPlain xs

  pub ArePlain : Fields → Type 0
  ArePlain end = Unit
  ArePlain (field k v fs) = IsPlain v × ArePlain fs

module _ (matches : Text → Json → Res Bool) (handle f : Json → Res Json)
    (misses : (k : Text) (v : Json)
      → member k intrinsics ≡ false
      → matches k v ≡ returns false) where
  mutual
    unfolding resolve_in

    resolve_in-IsPlain : (d : Json) → IsPlain d → resolve_in matches handle f d ≡ returns d
    resolve_in-IsPlain (obj end) h = refl
    resolve_in-IsPlain (obj (field k v end)) h = rw (misses k v h.0, resolve_in-IsPlain v h.1) refl
    resolve_in-IsPlain (obj (field k v (field j w fs))) h =
        rw (resolve_in-IsPlain v h.0, resolve_in-IsPlain w h.1, resolve_fields-ArePlain fs h.2) refl
    resolve_in-IsPlain (arr xs) h = rw (resolve_items-AllPlain xs h) refl
    resolve_in-IsPlain null h = refl
    resolve_in-IsPlain (bool b) h = refl
    resolve_in-IsPlain (int i) h = refl
    resolve_in-IsPlain (float s) h = refl
    resolve_in-IsPlain (text s) h = refl

    resolve_items-AllPlain :
        (xs : Items) → AllPlain xs → resolve_items matches handle f xs ≡ returns xs
    resolve_items-AllPlain nil h = refl
    resolve_items-AllPlain (cons x xs) h =
        rw (resolve_in-IsPlain x h.0, resolve_items-AllPlain xs h.1) refl

    resolve_fields-ArePlain :
        (fs : Fields) → ArePlain fs → resolve_fields matches handle f fs ≡ returns fs
    resolve_fields-ArePlain end h = refl
    resolve_fields-ArePlain (field k v fs) h =
        rw (resolve_in-IsPlain v h.0, resolve_fields-ArePlain fs h.1) refl

-- The resolver leaves plain data alone.
abbrev pub IsQuiet : Resolver → Type 0
IsQuiet t = (f : Json → Res Json) (d : Json) → IsPlain d → t f d ≡ returns d

resolve-IsQuiet :
    (matches : Text → Json → Res Bool) (handle : Json → Res Json)
    → ((k : Text) (v : Json) → member k intrinsics ≡ false → matches k v ≡ returns false)
    → IsQuiet (resolve matches handle)
unfolding resolve
resolve-IsQuiet matches handle misses f d h = resolve_in-IsPlain matches handle f misses d h

in_turn-IsPlain :
    (ts : List Resolver) (f : Json → Res Json) (d : Json)
    → All IsQuiet ts
    → IsPlain d
    → in_turn ts f d ≡ returns d
unfolding in_turn
in_turn-IsPlain [] f d quiet h = refl
in_turn-IsPlain (t ∷ ts) f d quiet h = rw (quiet.0 f d h, in_turn-IsPlain ts f d quiet.1 h) refl

not_member :
    {A : Type 0}
    → ⦃e : Eq A⦄ → (k j : A) (l : List A) → member k l ≡ false
    → member j l ≡ true
    → (k == j) ≡ false
not_member ⦃e⦄ k j l m h = ground (arith, e.beq_iff k j)

is_key-misses :
    (k : Text) (v : Json) (name : Text)
    → member name intrinsics ≡ true
    → member k intrinsics ≡ false
    → is_key name k v ≡ returns false
is_key-misses k v name h m = ap returns (not_member k name intrinsics m h)

match_param_ref-misses :
    (params : Params) (k : Text) (v : Json)
    → member k intrinsics ≡ false
    → match_param_ref params k v ≡ returns false
match_param_ref-misses params k (text s) m = rw (not_member k (codes "Ref") intrinsics m refl) refl
match_param_ref-misses params k _ m = refl

match_get_az-misses :
    (k : Text) (v : Json) → member k intrinsics ≡ false → match_get_az k v ≡ returns false
match_get_az-misses k v m = rw (not_member k (codes "Fn::GetAZs") intrinsics m refl) refl

match_resource_ref-misses :
    (resources : Dict Text Resource) (k : Text) (v : Json)
    → member k intrinsics ≡ false
    → match_resource_ref resources k v ≡ returns false
match_resource_ref-misses resources k v m = rw (not_member k (codes "Ref") intrinsics m refl) refl

static-IsQuiet : (s : Statics) → All IsQuiet (static_resolvers s)
unfolding static_resolvers resolve_param_refs resolve_availability_zones resolve_resource_facade
    resolve_find_in_map reduce_joins
static-IsQuiet s = (
  λ f d h.
      resolve-IsQuiet (match_param_ref s.params) (λ v. handle_param_ref s.params v)
        (λ k v m. match_param_ref-misses s.params k v m) f d h,
  (
    λ f d h.
        resolve-IsQuiet (match_get_az) (λ v. handle_get_az s.zones v)
          (λ k v m. match_get_az-misses k v m) f d h,
    (
      λ f d h.
          resolve-IsQuiet (is_key (codes "Fn::ResourceFacade"))
            (λ v. handle_resource_facade s.parent v)
            (λ k v m. is_key-misses k v (codes "Fn::ResourceFacade") refl m) f d h,
      (
        λ f d h.
            resolve-IsQuiet (is_key (codes "Fn::FindInMap")) (λ v. handle_find_in_map s.maps v)
              (λ k v m. is_key-misses k v (codes "Fn::FindInMap") refl m) f d h,
        (
          λ f d h.
              resolve-IsQuiet (is_key (codes "Fn::Join")) (handle_reduce_join)
                (λ k v m. is_key-misses k v (codes "Fn::Join") refl m) f d h,
          tt,
        ),
      ),
    ),
  ),
)

runtime-IsQuiet :
    (library : Library) (resources : Dict Text Resource)
    → All IsQuiet (runtime_resolvers library resources)
unfolding runtime_resolvers resolve_resource_refs resolve_attributes resolve_split
    resolve_member_list_to_map resolve_select resolve_joins resolve_replace resolve_base64
runtime-IsQuiet library resources = (
  λ f d h.
      resolve-IsQuiet (match_resource_ref resources) (λ v. handle_resource_ref resources v)
        (λ k v m. match_resource_ref-misses resources k v m) f d h,
  (
    λ f d h.
        resolve-IsQuiet (is_key (codes "Fn::GetAtt")) (λ v. handle_getatt resources v)
          (λ k v m. is_key-misses k v (codes "Fn::GetAtt") refl m) f d h,
    (
      λ f d h.
          resolve-IsQuiet (is_key (codes "Fn::Split")) (λ v. handle_split library.whitespace v)
            (λ k v m. is_key-misses k v (codes "Fn::Split") refl m) f d h,
      (
        λ f d h.
            resolve-IsQuiet (is_key (codes "Fn::MemberListToMap")) (handle_member_list_to_map)
              (λ k v m. is_key-misses k v (codes "Fn::MemberListToMap") refl m) f d h,
        (
          λ f d h.
              resolve-IsQuiet (is_key (codes "Fn::Select")) (λ v. handle_select library.loads v)
                (λ k v m. is_key-misses k v (codes "Fn::Select") refl m) f d h,
          (
            λ f d h.
                resolve-IsQuiet (is_key (codes "Fn::Join")) (handle_join)
                  (λ k v m. is_key-misses k v (codes "Fn::Join") refl m) f d h,
            (
              λ f d h.
                  resolve-IsQuiet (is_key (codes "Fn::Replace")) (handle_replace)
                    (λ k v m. is_key-misses k v (codes "Fn::Replace") refl m) f d h,
              (
                λ f d h.
                    resolve-IsQuiet (is_key (codes "Fn::Base64")) (handle_base64)
                      (λ k v m. is_key-misses k v (codes "Fn::Base64") refl m) f d h,
                tt,
              ),
            ),
          ),
        ),
      ),
    ),
  ),
)

-- A snippet without intrinsic functions is the result of its own resolution, static and at run time.
pub resolve_data-IsPlain :
    (depth : ℕ) (s : Statics) (library : Library) (resources : Dict Text Resource) (d : Json)
    → IsPlain d
    → (resolve_static_data (suc depth) s d ≡ returns d)
      × (resolve_runtime_data (suc depth) library resources d ≡ returns d)
unfolding resolve_static_data resolve_runtime_data transform
resolve_data-IsPlain depth s library resources d h = (
  in_turn-IsPlain (static_resolvers s) (transform depth (static_resolvers s)) d (static-IsQuiet s)
      h,
  in_turn-IsPlain (runtime_resolvers library resources)
      (transform depth (runtime_resolvers library resources)) d (runtime-IsQuiet library resources)
      h,
)
