-- ===== src/Http2/Hpack/Responses.antt =====
-- What `validate_response_headers` accepts.
use web_frame.Prelude.{
  ◌≡◌, refl, ◌≢◌, ◌↔◌, ◌⊎◌, inl, inr, Bool, true, false, List, [], ◌∷◌, ◌++◌, ap, arith, eq_list→eq,
  All, Bool-cases,
}
use web_frame.Prelude.Bytes.{codes}
use web_frame.Http2.Hpack.{Header, is_pseudo, validate_response_from, validate_response_headers}
use web_frame.Http2.Hpack.Validation.{IsRegular}

abbrev pub IsStatus : Header → Type 0
IsStatus h = h.name ≡ codes ":status"

-- `:status`, perhaps repeated, and then regular headers with names in lower case.
pub record IsResponseList (hs : List Header) : Type 0 where
  pub pseudo : List Header
  pub regular : List Header
  pub split : hs ≡ pseudo ++ regular
  pub status : pseudo ≢ []
  pub pseudo_ok : All IsStatus pseudo
  pub regular_ok : All IsRegular regular

ended_sound :
    (seen : Bool) (hs : List Header)
    → validate_response_from seen true hs ≡ true
    → (seen ≡ true) × All IsRegular hs
unfolding validate_response_from
ended_sound seen [] h = ground arith
ended_sound seen (x ∷ hs) h = ground (arith, ended_sound seen hs)

ended_complete :
    (hs : List Header) (ended : Bool)
    → All IsRegular hs
    → validate_response_from true ended hs ≡ true
unfolding validate_response_from
ended_complete [] ended h = refl
ended_complete (x ∷ hs) ended (r, h) = ground (arith, ended_complete hs true h)

record Accepted (seen : Bool) (hs : List Header) : Type 0 where
  pseudo : List Header
  regular : List Header
  split : hs ≡ pseudo ++ regular
  status : (seen ≡ true) ⊎ (pseudo ≢ [])
  pseudo_ok : All IsStatus pseudo
  regular_ok : All IsRegular regular

response_sound :
    (seen : Bool) (hs : List Header)
    → validate_response_from seen false hs ≡ true
    → Accepted seen hs
unfolding validate_response_from
response_sound seen [] h = record {
  pseudo = [];
  regular = [];
  split = refl;
  status = inl h;
  pseudo_ok = tt;
  regular_ok = tt;
}
response_sound seen (x ∷ hs) h = elim (Bool-cases (is_pseudo x)) [
  | inl colon ↦
      let named : x.name ≡ codes ":status" = eq_list→eq x.name (codes ":status") (ground arith) in
      let a = response_sound true hs (ground arith) in
      record {
        pseudo = x ∷ a.pseudo;
        regular = a.regular;
        split = ap (◌∷◌ x) a.split;
        status = inr (λ e. cc);
        pseudo_ok = (named, a.pseudo_ok);
        regular_ok = a.regular_ok;
      }
  | inr plain ↦
      let (s, r) = ended_sound seen hs (ground arith) in
      record {
        pseudo = [];
        regular = x ∷ hs;
        split = refl;
        status = inl s;
        pseudo_ok = tt;
        regular_ok = ((plain, ground arith), r);
      }
]

response_complete :
    (seen : Bool) (ps rs : List Header)
    → (seen ≡ true) ⊎ (ps ≢ [])
    → All IsStatus ps
    → All IsRegular rs
    → validate_response_from seen false (ps ++ rs) ≡ true
unfolding validate_response_from
response_complete seen [] rs (inl s) a r = rw s (ended_complete rs false r)
response_complete seen [] rs (inr n) a r = absurd (n refl)
response_complete seen (x ∷ ps) rs s (named, a) r =
    rw named (response_complete true ps rs (inl refl) a r)

-- A header list is a valid response exactly when it is `:status`, at least once, followed by
-- headers whose names have no capital letter and no leading colon.
pub validate_response_headers_iff :
    (hs : List Header) → (validate_response_headers hs ≡ true) ↔ IsResponseList hs
unfolding validate_response_headers
validate_response_headers_iff hs = (to, from)
  where
    drop_left : {P : Type 0} → (◌≡◌ {A = Bool} false true) ⊎ P → P
    drop_left (inl e) = cc
    drop_left (inr p) = p

    to : validate_response_from false false hs ≡ true → IsResponseList hs
    to h =
        let a = response_sound false hs h in
        record {
          pseudo = a.pseudo;
          regular = a.regular;
          split = a.split;
          status = drop_left a.status;
          pseudo_ok = a.pseudo_ok;
          regular_ok = a.regular_ok;
        }

    from : IsResponseList hs → validate_response_from false false hs ≡ true
    from l =
        rw l.split
          (response_complete false l.pseudo l.regular (inr l.status) l.pseudo_ok l.regular_ok)
