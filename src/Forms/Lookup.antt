-- ===== src/Forms/Lookup.antt =====
-- The index of a form finds the fields of a name, in order.
use web_frame.Prelude.{
  ℕ, zero, suc, ◌+◌, ◌<◌, ◌≡◌, refl, sym, ap, ◌∙◌, Option, none, some, List, [], ◌∷◌, ◌++◌, map,
  get_or, length, length-append, eq_list, if◌then◌else◌, Bool-cases, inl, inr, All, All-append,
  All-mono, arith,
}
use mathlib.Core.List.{append_assoc, append-nil, map-append}
use web_frame.Prelude.Text.{Text}
use web_frame.Prelude.Dict.{text_eq, eq_list_iff, find, find-insert}
use web_frame.Forms.Fields.{
  FormField, field, FormData, no_fields, or_empty, places, add, at_first, field_at, get_field, get,
  get_all, get_fields,
}

-- The fields of a name, in order.
unfoldable pub named : Text → List FormField → List FormField
named name [] = []
named name (f ∷ fs) = if eq_list f.name name then f ∷ named name fs else named name fs

named-append :
    (name : Text) (fs gs : List FormField) → named name (fs ++ gs) ≡ named name fs ++ named name gs
unfolding named
named-append name [] gs = refl
named-append name (f ∷ fs) gs = ground (arith, named-append name fs gs)

unfoldable pub add_each : List FormField → FormData → FormData
add_each [] d = d
add_each (f ∷ fs) d = add_each fs (add f d)

-- The places of a name are within the fields, and hold the fields of that name.
pub record IsIndexed (d : FormData) : Type 0 where
  pub within : (name : Text) → All (λ i. i < length d.fields) (places d name)
  pub held : (name : Text) → map (field_at d) (places d name) ≡ named name d.fields

no_fields-IsIndexed : IsIndexed no_fields
unfolding places find named
no_fields-IsIndexed = record { within = λ name. tt; held = λ name. refl }

places-add :
    (f : FormField) (d : FormData) (name : Text)
    → places (add f d) name
      ≡ (if eq_list f.name name then places d name ++ length d.fields ∷ [] else places d name)
unfolding places add
places-add f d name = elim (Bool-cases (eq_list f.name name)) [
  | inl same ↦
      let e = (eq_list_iff f.name name).0 same in
      rw
        (
          find-insert f.name name (or_empty (find f.name d.index) ++ length d.fields ∷ []) d.index,
          same,
        )
        (ap (λ n. or_empty (find n d.index) ++ length d.fields ∷ []) e)
  | inr other ↦
      rw
        (
          find-insert f.name name (or_empty (find f.name d.index) ++ length d.fields ∷ []) d.index,
          other,
        )
        refl
]

-- The fields that were there stand where they stood, and the new one behind them.
get_or-append :
    (fs : List FormField) (f g : FormField) (i : ℕ)
    → i < length fs
    → get_or (fs ++ f ∷ []) i g ≡ get_or fs i g
get_or-append [] f g i h = absurd (omega arith)
get_or-append (x ∷ fs) f g zero h = refl
get_or-append (x ∷ fs) f g (suc i) h = get_or-append fs f g i (omega arith)

get_or_last : (fs : List FormField) (f g : FormField) → get_or (fs ++ f ∷ []) (length fs) g ≡ f
get_or_last [] f g = refl
get_or_last (x ∷ fs) f g = get_or_last fs f g

map-field_at :
    (f : FormField) (d : FormData) (is : List ℕ)
    → All (λ i. i < length d.fields) is
    → map (field_at (add f d)) is ≡ map (field_at d) is
unfolding add
map-field_at f d [] h = refl
map-field_at f d (i ∷ is) (p, h) =
    rw (get_or-append d.fields f (field [] []) i p)
      (ap (λ fs. field_at d i ∷ fs) (map-field_at f d is h))

places_within :
    (f : FormField) (d : FormData) (name : Text)
    → IsIndexed d
    → All (λ i. i < length d.fields + 1) (places (add f d) name)
places_within f d name v =
    let wider : All (λ i. i < length d.fields + 1) (places d name) =
      All-mono (λ i (h : i < length d.fields). omega arith) (places d name) (v.within name) in
    let new : length d.fields < length d.fields + 1 = omega arith in
    rw (places-add f d name) (elim (Bool-cases (eq_list f.name name)) [
      | inl same ↦ rw same (
          All-append (λ i. i < length d.fields + 1) (places d name) (length d.fields ∷ []) wider
            (new, tt))
      | inr other ↦ rw other wider
    ])

places_held :
    (f : FormField) (d : FormData) (name : Text)
    → IsIndexed d
    → map (field_at (add f d)) (places (add f d) name) ≡ named name (d.fields ++ f ∷ [])
unfolding named
places_held f d name v =
    rw (places-add f d name, named-append name d.fields (f ∷ []))
      (elim (Bool-cases (eq_list f.name name)) [
        | inl same ↦
            rw
              (
                same,
                map-append (field_at (add f d)) (places d name) (length d.fields ∷ []),
                map-field_at f d (places d name) (v.within name),
                v.held name,
              )
              (ap (λ x. named name d.fields ++ x ∷ [])
                (unfold add in get_or_last d.fields f (field [] [])))
        | inr other ↦
            rw (other, map-field_at f d (places d name) (v.within name), v.held name)
              (sym (append-nil (named name d.fields)))
      ])

add-IsIndexed : (f : FormField) (d : FormData) → IsIndexed d → IsIndexed (add f d)
unfolding add
add-IsIndexed f d v = record {
  within = λ name.
      All-mono (λ i (h : i < length d.fields + 1). omega (arith, length-append d.fields (f ∷ [])))
        (places (add f d) name) (places_within f d name v);
  held = λ name. places_held f d name v;
}

add_each-IsIndexed : (fs : List FormField) (d : FormData) → IsIndexed d → IsIndexed (add_each fs d)
unfolding add_each
add_each-IsIndexed [] d v = v
add_each-IsIndexed (f ∷ fs) d v = add_each-IsIndexed fs (add f d) (add-IsIndexed f d v)

pub fields-add_each : (fs : List FormField) (d : FormData) → (add_each fs d).fields ≡ d.fields ++ fs
unfolding add_each add
fields-add_each [] d = sym (append-nil d.fields)
fields-add_each (f ∷ fs) d = fields-add_each fs (add f d) ∙ append_assoc d.fields (f ∷ []) fs

abbrev head_of : List FormField → Option FormField
head_of [] = none
head_of (f ∷ fs) = some f

at_first-head_of : (f : ℕ → FormField) (is : List ℕ) → at_first f is ≡ head_of (map f is)
at_first-head_of f [] = refl
at_first-head_of f (i ∷ is) = refl

abbrev value_of : Option FormField → Option Text
value_of none = none
value_of (some f) = some f.value

at_first-value_of :
    (f : ℕ → FormField) (is : List ℕ) → at_first (λ i. (f i).value) is ≡ value_of (at_first f is)
at_first-value_of f [] = refl
at_first-value_of f (i ∷ is) = refl

map-value :
    (f : ℕ → FormField) (is : List ℕ)
    → map (λ i. (f i).value) is ≡ map (λ (g : FormField). g.value) (map f is)
map-value f [] = refl
map-value f (i ∷ is) = ap (λ vs. (f i).value ∷ vs) (map-value f is)

-- Of fields that were added one after another, `get_fields` gives those of a name, in order,
-- `get_field` the first of them, if there is one, and `get_all` and `get` their values.
pub get_fields-add_each :
    (fs : List FormField) (name : Text)
    → (get_fields (add_each fs no_fields) name ≡ named name fs)
      × (get_field (add_each fs no_fields) name ≡ head_of (named name fs))
      × (get_all (add_each fs no_fields) name ≡ map (λ f. f.value) (named name fs))
      × (get (add_each fs no_fields) name ≡ value_of (head_of (named name fs)))
unfolding get_fields get_field get_all get
get_fields-add_each fs name =
    let d = add_each fs no_fields in
    let v = add_each-IsIndexed fs no_fields no_fields-IsIndexed in
    let all = v.held name ∙ ap (named name) (fields-add_each fs no_fields) in
    let first = at_first-head_of (field_at d) (places d name) ∙ ap head_of all in
    (
      all,
      first,
      map-value (field_at d) (places d name) ∙ ap (map (λ (f : FormField). f.value)) all,
      at_first-value_of (field_at d) (places d name) ∙ ap value_of first,
    )
