-- ===== src/Template/Samples.antt =====
-- Snippets of templates, and the theorems about their resolution at them.
use heat.Prelude.{
  String, ◌≡◌, refl, List, [], ◌∷◌, none, some, Text, codes, ◌==◌, list_eq, nat_eq, pos, negsuc,
  split_from, join, replace_text, decimal, parse_int, if◌then◌else◌, arith,
}
use heat.Dict.{Dict, lookup, put}
use heat.Resource.Lifecycle.{create_action, complete}
use heat.Template.Json.{
  Json, Fields, fields, null, int, text, arr, obj, end, field, from_items, from_fields, returns,
  raises, key_error, recursion_error, ◌>>=◌,
}
use heat.Template.Resolve.{resolve, in_turn, transform}
use heat.Template.Texts.{
  resolve_split, resolve_replace, resolve_base64, pair, reduce_joins, handle_reduce_join,
  resolve_joins, handle_join, handle_split, handle_replace,
}
use heat.Template.Select.{resolve_select, handle_select}
use heat.Template.Members.{resolve_member_list_to_map, handle_member_list_to_map}
use heat.Template.References.{
  get_item, resolve_param_refs, resolve_availability_zones, resolve_resource_facade,
  resolve_find_in_map, resolve_resource_refs, resolve_attributes, Params, Resource,
}
use heat.Template.Runtime.{Statics, resolve_static_data, Library, resolve_runtime_data}
use heat.Template.Sections.{translate_attrs, hot_to_cfn_resources, hot_section}
use heat.Template.Translated.{translate_attrs_lem}
use heat.Template.Hot.{handle_get_param}
use heat.Template.StrReplace.{handle_str_replace}
use heat.Template.Replaced.{handle_str_replace-handle_replace}
use heat.Template.Plain.{resolve_data-IsPlain}
use heat.Template.Joins.{reduce_joins-resolve_joins}
use heat.Template.Recursion.{own_value, ref_to, resolve_static_data-recursion}
use heat.Template.RoundTrip.{handle_join-split}

program : Unit {0}
unfolding lookup put resolve in_turn transform reduce_joins handle_reduce_join handle_join
    handle_split handle_replace handle_select handle_member_list_to_map resolve_static_data
    resolve_runtime_data resolve_joins replace_text join split_from resolve_param_refs
    resolve_availability_zones resolve_resource_facade resolve_find_in_map resolve_resource_refs
    resolve_attributes resolve_split resolve_member_list_to_map resolve_select resolve_replace
    resolve_base64 get_item
program = tt

abbrev t : String → Json
t s = text (codes s)

abbrev list : List Json → Json
list xs = arr (from_items xs)

abbrev call : String → Json → Json
call name args = obj (field (codes name) args end)

abbrev key_pair : Params
key_pair = record {
  has = λ k. k == codes "Key";
  get = λ k. if k == codes "Key" then returns (t "my_key") else raises key_error;
}

abbrev statics : Statics
statics = record { params = key_pair; zones = none; parent = none; maps = obj end }

abbrev library : Library
library = record { whitespace = λ s. s ∷ []; loads = λ s. none }

abbrev server : Resource
server = record {
  state = (create_action, complete);
  ref_id = returns (t "i-1");
  attribute = λ att. returns (t "10.0.0.1");
}

abbrev resources : Dict Text Resource
resources = (codes "Server", server) ∷ []

-- `{"Fn::Join": ["-", [{"Ref": "Key"}, "a", {"Fn::GetAtt": ["Server", "Ip"]}]]}`
abbrev snippet : Json
snippet = call "Fn::Join" (
    list (
      t "-"
      ∷ list
          (call "Ref" (t "Key") ∷ t "a" ∷ call "Fn::GetAtt" (list (t "Server" ∷ t "Ip" ∷ [])) ∷ [])
      ∷ []))

static-snippet :
    resolve_static_data 3 statics snippet
    ≡ returns (
        call "Fn::Join" (
          list (
            t "-"
            ∷ list (t "my_key-a" ∷ call "Fn::GetAtt" (list (t "Server" ∷ t "Ip" ∷ [])) ∷ [])
            ∷ [])))
unfolding program
static-snippet = refl

both_passes :
    (resolve_static_data 3 statics snippet >>= resolve_runtime_data 3 library resources)
    ≡ returns (t "my_key-a-10.0.0.1")
unfolding program
both_passes = refl

members :
    handle_member_list_to_map (
      list (
        t "Name"
        ∷ t "Value"
        ∷ list (
            t ".member.1.Name=k"
            ∷ t ".member.1.Value=v"
            ∷ t ".member.0.Name=a"
            ∷ t ".member.0.Value=b"
            ∷ [])
        ∷ []))
    ≡ returns (obj (from_fields ((codes "a", t "b") ∷ (codes "k", t "v") ∷ [])))
unfolding program
members = refl

numbers :
    (decimal 120 ≡ codes "120")
    × (parse_int (codes " -12 ") ≡ some (negsuc 11))
    × (parse_int (codes "1x") ≡ none)
unfolding decimal parse_int
numbers = (refl, refl, refl)

replaces : replace_text (codes "ab") (codes "x") (codes "aabbab") ≡ codes "axbx"
unfolding program
replaces = refl

-- A dict with two keys is no call of a function, whatever the keys.
abbrev plain : Json
plain = list (
    t "a"
    ∷ null
    ∷ obj (from_fields ((codes "Ref", t "Key") ∷ (codes "b", int (pos 2)) ∷ []))
    ∷ call "Type" (t "Server")
    ∷ [])

resolve_data-IsPlain_example :
    (resolve_static_data 1 statics plain ≡ returns plain)
    × (resolve_runtime_data 1 library resources plain ≡ returns plain)
resolve_data-IsPlain_example =
    resolve_data-IsPlain 0 statics library resources plain
      (tt, (tt, ((tt, tt, tt), ((refl, tt), tt))))

reduce_joins-resolve_joins_example :
    (handle_reduce_join (list (t "-" ∷ list (t "a" ∷ t "b" ∷ null ∷ t "c" ∷ []) ∷ []))
      >>= resolve_joins (λ v. returns v))
    ≡ handle_join (list (t "-" ∷ list (t "a" ∷ t "b" ∷ null ∷ t "c" ∷ []) ∷ []))
reduce_joins-resolve_joins_example =
    reduce_joins-resolve_joins (list (t "-" ∷ list (t "a" ∷ t "b" ∷ null ∷ t "c" ∷ []) ∷ []))

abbrev endless : Statics
endless = record statics {
  params = record { has = λ k. k == codes "Loop"; get = λ k. returns (own_value (codes "Loop")) };
}

resolve_static_data-recursion_example :
    resolve_static_data 1000 endless (ref_to (codes "Loop")) ≡ raises recursion_error
resolve_static_data-recursion_example =
    resolve_static_data-recursion endless (codes "Loop") refl refl 1000

handle_join-split_example :
    (do
      parts ← handle_split library.whitespace (pair (t ", ") (t "a, b,, c"))
      handle_join (pair (t ", ") parts))
    ≡ returns (t "a, b,, c")
handle_join-split_example =
    handle_join-split library.whitespace (codes ", ") (codes "a, b,, c") (ground arith)

abbrev hot_server : Dict Text Json
hot_server = (codes "type", t "OS::Nova::Server") ∷ (codes "depends_on", t "a") ∷ []

translate_attrs_lem_example :
    lookup (codes "Type") (translate_attrs hot_to_cfn_resources [] hot_server)
    ≡ lookup (codes "type") hot_server
unfolding lookup translate_attrs
translate_attrs_lem_example =
    translate_attrs_lem hot_server (codes "type") (refl, (refl, tt)) (refl, (refl, tt)) refl

hot_resources :
    hot_section
      ((codes "resources", call "server" (obj (from_fields hot_server))) ∷ [])
      (codes "Resources")
    ≡ returns (
        call "server" (
          obj (
            from_fields ((codes "Type", t "OS::Nova::Server") ∷ (codes "depends_on", t "a") ∷ []))))
unfolding lookup put hot_section
hot_resources = refl

-- A number that is zero is lost.
zero-replaced :
    (handle_str_replace (λ v. []) (pair (call "n" (int (pos 0))) (t "n items"))
      ≡ returns (t " items"))
    × (handle_replace (pair (call "n" (int (pos 0))) (t "n items")) ≡ returns (t "0 items"))
unfolding program handle_str_replace
zero-replaced = (refl, refl)

abbrev one_param : Fields
one_param = from_fields ((codes "$x", t "1") ∷ [])

abbrev replace_args : Fields
replace_args = field (codes "template") (t "$x+$x") (field (codes "params") (obj one_param) end)

params_there : lookup (codes "params") (fields replace_args) ≡ some (obj one_param)
unfolding program
params_there = refl

template_there : lookup (codes "template") (fields replace_args) ≡ some (t "$x+$x")
unfolding program
template_there = refl

handle_str_replace-handle_replace_example :
    (handle_str_replace (λ v. []) (pair (obj one_param) (t "$x+$x"))
      ≡ handle_replace (pair (obj one_param) (t "$x+$x")))
    × (handle_str_replace (λ v. []) (obj replace_args)
        ≡ handle_replace (pair (obj one_param) (t "$x+$x")))
handle_str_replace-handle_replace_example =
    handle_str_replace-handle_replace (λ v. []) ((codes "$x", t "1") ∷ []) (codes "$x+$x")
      (refl, tt) replace_args params_there template_there

-- `{"get_param": ["Key", 0]}`
inner-get_param :
    handle_get_param (λ v i. none) key_pair (list (t "Key" ∷ int (pos 0) ∷ [])) ≡ returns (t "m")
unfolding program handle_get_param
inner-get_param = refl
