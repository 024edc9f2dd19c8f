-- ===== src/Forms/Fields.antt =====
-- src/core/form.cpp, `FormData`: the fields in order, and the index of their places by name.
use web_frame.Prelude.{
  ℕ, Bool, true, false, Option, none, some, List, [], ◌∷◌, ◌++◌, map, get_or, length,
}
use web_frame.Prelude.Text.{Text}
use web_frame.Prelude.Dict.{text_eq, find, insert}

pub record FormField : Type 0 where
  pub name : Text
  pub value : Text
  pub filename : Text
  pub content_type : Text
  pub is_file : Bool

abbrev pub field : Text → Text → FormField
field name value = record {
  name = name;
  value = value;
  filename = [];
  content_type = [];
  is_file = false;
}

pub record FormData : Type 0 where
  pub fields : List FormField
  pub index : List (Text × List ℕ)

abbrev pub no_fields : FormData
no_fields = record { fields = []; index = [] }

abbrev pub or_empty : Option (List ℕ) → List ℕ
or_empty none = []
or_empty (some is) = is

-- The places under a name: `operator[]` of a missing name gives none.
unfoldable pub places : FormData → Text → List ℕ
places d name = or_empty (find name d.index)

unfoldable pub add : FormField → FormData → FormData
unfolding places
add f d = record {
  fields = d.fields ++ f ∷ [];
  index = insert f.name (places d f.name ++ length d.fields ∷ []) d.index;
}

-- `fields_[i]`.
abbrev pub field_at : FormData → ℕ → FormField
field_at d i = get_or d.fields i (field [] [])

abbrev pub at_first : {A : Type 0} → (ℕ → A) → List ℕ → Option A
at_first f [] = none
at_first f (i ∷ is) = some (f i)

unfoldable pub get_field : FormData → Text → Option FormField
unfolding places
get_field d name = at_first (field_at d) (places d name)

unfoldable pub get : FormData → Text → Option Text
unfolding places
get d name = at_first (λ i. (field_at d i).value) (places d name)

unfoldable pub get_fields : FormData → Text → List FormField
unfolding places
get_fields d name = map (field_at d) (places d name)

unfoldable pub get_all : FormData → Text → List Text
unfolding places
get_all d name = map (λ i. (field_at d i).value) (places d name)

abbrev is_some : Option (List ℕ) → Bool
is_some none = false
is_some (some is) = true

unfoldable pub has : FormData → Text → Bool
has d name = is_some (find name d.index)
