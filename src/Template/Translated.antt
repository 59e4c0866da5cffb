-- ===== src/Template/Translated.antt =====
-- A HOT template read in the words of CFN.
use heat.Prelude.{
  Bool, true, false, not, ◌||◌, ◌≡◌, refl, Option, none, some, [], ◌∷◌, Text, codes, Eq, ◌==◌,
  list_eq, nat_eq, beq→eq, beq_refl, if◌then◌else◌, arith, All, ◌∙◌,
}
use heat.Dict.{Dict, lookup, put, IsDict, lookup-put}
use heat.Template.Json.{Json}
use heat.Template.Sections.{or_given, translate, translate_attrs, hot_to_cfn_resources}

-- Two attributes that have the same name in CFN are the same attribute.
abbrev pub Distinct : Dict Text Text → Dict Text Json → Text → Type 0
Distinct mapping [] attr = Unit
Distinct mapping ((other, value) ∷ attrs) attr =
    ((translate other mapping other == translate attr mapping attr) ≡ (other == attr))
    × Distinct mapping attrs attr

abbrev or_else {ℓ} : {A : Type ℓ} → Option A → Option A → Option A
or_else none o = o
or_else (some a) o = some a

lookup_first :
    (other attr : Text) (value : Json) (attrs : Dict Text Json)
    → lookup attr ((other, value) ∷ attrs)
      ≡ (if other == attr then some value else lookup attr attrs)
unfolding lookup
lookup_first other attr value attrs = refl

put_first :
    (mapping : Dict Text Text) (done attrs : Dict Text Json) (attr other : Text) (value : Json)
    → lookup other attrs ≡ none
    → (translate other mapping other == translate attr mapping attr) ≡ (other == attr)
    → or_else
        (lookup attr attrs)
        (lookup (translate attr mapping attr) (put (translate other mapping other) value done))
      ≡ or_else (lookup attr ((other, value) ∷ attrs)) (lookup (translate attr mapping attr) done)
put_first mapping done attrs attr other value h same = ground (
  arith,
  lookup-put (translate other mapping other) (translate attr mapping attr) value done,
  lookup_first other attr value attrs,
  beq→eq other attr,
)

translate_attrs-lookup :
    (mapping : Dict Text Text) (done attrs : Dict Text Json) (attr : Text)
    → IsDict attrs
    → Distinct mapping attrs attr
    → lookup (translate attr mapping attr) (translate_attrs mapping done attrs)
      ≡ or_else (lookup attr attrs) (lookup (translate attr mapping attr) done)
unfolding translate_attrs
translate_attrs-lookup mapping done [] attr h distinct = unfold lookup in refl
translate_attrs-lookup mapping done ((other, value) ∷ attrs) attr h distinct =
    let under = translate other mapping other in
    translate_attrs-lookup mapping (put under value done) attrs attr h.1 distinct.1
    ∙ put_first mapping done attrs attr other value h.0 distinct.0

-- `attr` is a word of HOT, or of both languages.
abbrev pub is_hot : Text → Bool
is_hot attr = not (attr == codes "Type" || attr == codes "Properties")

module _ {A : Type 0} ⦃e : Eq A⦄ (a a' b b' : A) (apart : (a' == b') ≡ false) where
  abbrev renamed : A → A
  renamed x = or_given x (if a == x then some a' else (if b == x then some b' else none))

  renamed-injective :
      (x y : A)
      → (x == a') ≡ false
      → (x == b') ≡ false
      → (y == a') ≡ false
      → (y == b') ≡ false
      → (renamed x == renamed y) ≡ (x == y)
  renamed-injective x y xa xb ya yb = ground (
    arith,
    e.beq_iff x y,
    e.beq_iff a x,
    e.beq_iff a y,
    e.beq_iff b x,
    e.beq_iff b y,
    e.beq_iff a' b',
    e.beq_iff b' a',
    e.beq_iff a' y,
    e.beq_iff x a',
    e.beq_iff b' y,
    e.beq_iff x b',
    e.beq_iff y a',
    e.beq_iff y b',
    beq_refl a',
    beq_refl b',
  )

translate-injective :
    (other attr : Text)
    → is_hot other ≡ true
    → is_hot attr ≡ true
    → (translate other hot_to_cfn_resources other == translate attr hot_to_cfn_resources attr)
      ≡ (other == attr)
unfolding lookup
translate-injective other attr h k =
    renamed-injective (codes "type") (codes "Type") (codes "properties") (codes "Properties") refl
      other attr (ground arith) (ground arith) (ground arith) (ground arith)

hot-Distinct :
    (attrs : Dict Text Json) (attr : Text)
    → All (λ kv. is_hot kv.0 ≡ true) attrs
    → is_hot attr ≡ true
    → Distinct hot_to_cfn_resources attrs attr
hot-Distinct [] attr h k = tt
hot-Distinct ((other, value) ∷ attrs) attr h k =
    (translate-injective other attr h.0 k, hot-Distinct attrs attr h.1 k)

-- Each attribute of a resource of a HOT template, where no attribute is written in the words of CFN,
-- has its value under its CFN name behind the translation, and what is not there is not there.
pub translate_attrs_lem :
    (attrs : Dict Text Json) (attr : Text)
    → IsDict attrs
    → All (λ kv. is_hot kv.0 ≡ true) attrs
    → is_hot attr ≡ true
    → lookup
        (translate attr hot_to_cfn_resources attr)
        (translate_attrs hot_to_cfn_resources [] attrs)
      ≡ lookup attr attrs
translate_attrs_lem attrs attr d h k =
    translate_attrs-lookup hot_to_cfn_resources [] attrs attr d (hot-Distinct attrs attr h k)
    ∙ or_none (lookup attr attrs)
  where
    or_none :
        (o : Option Json) → or_else o (lookup (translate attr hot_to_cfn_resources attr) []) ≡ o
    or_none o = unfold lookup in ground arith
