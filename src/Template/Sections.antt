-- ===== src/Template/Sections.antt =====
-- The sections of a template: `__getitem__` of template.py and of hot.py, and the translation of HOT
-- into the words of CFN.
use heat.Prelude.{
  not, ◌||◌, Option, none, some, List, [], ◌∷◌, Text, codes, ◌==◌, list_eq, nat_eq, member,
  if◌then◌else◌,
}
use heat.Dict.{Dict, lookup, put}
use heat.Template.Json.{
  Json, text, obj, end, fields, from_fields, Res, returns, raises, key_error, attribute_error,
  from_option, ◌>>=◌,
}

abbrev pub or_given {ℓ} : {A : Type ℓ} → A → Option A → A
or_given default none = default
or_given default (some v) = v

abbrev pub cfn_sections : List Text
cfn_sections =
    codes "AWSTemplateFormatVersion"
    ∷ codes "Description"
    ∷ codes "Mappings"
    ∷ codes "Parameters"
    ∷ codes "Resources"
    ∷ codes "Outputs"
    ∷ []

-- `self.t.get(section, default)`
abbrev pub section_or : Json → Text → Dict Text Json → Res Json
unfolding lookup
section_or default section t = returns (or_given default (lookup section t))

abbrev pub no_description : Json
no_description = text (codes "No description")

-- `Template.__getitem__(section)`
unfoldable pub cfn_section : Dict Text Json → Text → Res Json
unfolding lookup
cfn_section t section =
    if not (member section cfn_sections) || section == codes "Parameters"
    then raises key_error
    else (if section == codes "AWSTemplateFormatVersion"
        then from_option key_error (lookup section t)
        else section_or (if section == codes "Description" then no_description else obj end) section
            t)

abbrev pub hot_sections : List Text
hot_sections =
    codes "heat_template_version"
    ∷ codes "description"
    ∷ codes "parameter_groups"
    ∷ codes "parameters"
    ∷ codes "resources"
    ∷ codes "outputs"
    ∷ codes "__undefined__"
    ∷ []

-- `_CFN_TO_HOT_SECTIONS`
abbrev pub cfn_to_hot_sections : Dict Text Text
cfn_to_hot_sections =
    (codes "AWSTemplateFormatVersion", codes "heat_template_version")
    ∷ (codes "Description", codes "description")
    ∷ (codes "Parameters", codes "parameters")
    ∷ (codes "Mappings", codes "__undefined__")
    ∷ (codes "Resources", codes "resources")
    ∷ (codes "Outputs", codes "outputs")
    ∷ []

-- `_translate(value, mapping, default)`
abbrev pub translate : Text → Dict Text Text → Text → Text
unfolding lookup
translate value mapping default = or_given default (lookup value mapping)

-- The inner loop of `_translate_resources` and `_translate_outputs`.
unfoldable pub translate_attrs : Dict Text Text → Dict Text Json → Dict Text Json → Dict Text Json
unfolding put translate
translate_attrs mapping done [] = done
translate_attrs mapping done ((attr, value) ∷ attrs) =
    translate_attrs mapping (put (translate attr mapping attr) value done) attrs

-- The outer loop; what is no dict has no `iteritems`.
unfoldable pub translate_entries :
    Dict Text Text → Dict Text Json → Dict Text Json → Res (Dict Text Json)
unfolding put translate_attrs
translate_entries mapping done [] = returns done
translate_entries mapping done ((name, obj attrs) ∷ entries) =
    translate_entries mapping
      (put name (obj (from_fields (translate_attrs mapping [] (fields attrs)))) done) entries
translate_entries mapping done ((name, _) ∷ entries) = raises attribute_error

abbrev pub translate_section : Dict Text Text → Json → Res Json
unfolding translate_entries
translate_section mapping (obj entries) = do
  translated ← translate_entries mapping [] (fields entries)
  returns (obj (from_fields translated))
translate_section mapping _ = raises attribute_error

abbrev pub hot_to_cfn_resources : Dict Text Text
hot_to_cfn_resources = (codes "type", codes "Type") ∷ (codes "properties", codes "Properties") ∷ []

abbrev pub hot_to_cfn_outputs : Dict Text Text
hot_to_cfn_outputs =
    (codes "description", codes "Description") ∷ (codes "value", codes "Value") ∷ []

unfoldable pub translate_resources : Json → Res Json
unfolding translate_section
translate_resources resources = translate_section hot_to_cfn_resources resources

unfoldable pub translate_outputs : Json → Res Json
unfolding translate_section
translate_outputs outputs = translate_section hot_to_cfn_outputs outputs

-- `HOTemplate.__getitem__` of a section that is translated already
unfoldable pub hot_section_named : Dict Text Json → Text → Res Json
unfolding lookup translate_resources translate_outputs
hot_section_named t section =
    if not (member section hot_sections) || section == codes "parameters"
    then raises key_error
    else (if section == codes "heat_template_version"
        then from_option key_error (lookup section t)
        else (if section == codes "__undefined__"
            then returns (obj end)
            else (section_or (if section == codes "description" then no_description else obj end)
                  section t
                >>= λ the_section.
                    if section == codes "resources"
                    then translate_resources the_section
                    else (if section == codes "outputs"
                        then translate_outputs the_section
                        else returns the_section))))

-- `HOTemplate.__getitem__(section)`
unfoldable pub hot_section : Dict Text Json → Text → Res Json
unfolding hot_section_named translate
hot_section t section = hot_section_named t (translate section cfn_to_hot_sections section)
