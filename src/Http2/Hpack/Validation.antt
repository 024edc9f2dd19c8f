-- ===== src/Http2/Hpack/Validation.antt =====
-- What the validators accept: a block of pseudo-headers and then regular ones in lower case.
use web_frame.Prelude.{
  ◌≡◌, refl, ◌≢◌, ◌↔◌, ◌⊎◌, inl, inr, Bool, true, false, some, List, [], ◌∷◌, ◌++◌, ap, ◌∙◌, arith,
  eq_list→eq, All, Bool-cases, Option-cases,
}
use web_frame.Prelude.Bytes.{codes}
use web_frame.Prelude.Text.{Text}
use web_frame.Http2.Hpack.{
  Header, is_pseudo, any_upper, Seen, nothing_seen, see, validate_from, validate_request_headers,
}

-- A header of that name is in the list.
abbrev pub Has : Text → List Header → Type 0
Has name [] = ⊥
Has name (h ∷ hs) = (h.name ≡ name) ⊎ Has name hs

abbrev pub IsRequestPseudo : Header → Type 0
IsRequestPseudo h = (is_pseudo h ≡ true) × (h.name ≢ codes ":status")

abbrev pub IsRegular : Header → Type 0
IsRegular h = (is_pseudo h ≡ false) × (any_upper h.name ≡ false)

-- Pseudo-headers other than `:status` first, then regular headers with names in lower case.
pub record IsRequestList (hs : List Header) : Type 0 where
  pub pseudo : List Header
  pub regular : List Header
  pub split : hs ≡ pseudo ++ regular
  pub pseudo_ok : All IsRequestPseudo pseudo
  pub regular_ok : All IsRegular regular
  pub method : Has (codes ":method") pseudo
  pub scheme : Has (codes ":scheme") pseudo
  pub path : Has (codes ":path") pseudo

-- The loop once the pseudo-headers have ended.
IsRegular-validate_from :
    (s : Seen) (hs : List Header)
    → s.pseudo_ended ≡ true
    → validate_from s hs ≡ true
    → (s.has_method ≡ true) × (s.has_scheme ≡ true) × (s.has_path ≡ true) × All IsRegular hs
unfolding validate_from
IsRegular-validate_from s [] e h = ground arith
IsRegular-validate_from s (x ∷ hs) e h =
    ground (arith, IsRegular-validate_from (record s { pseudo_ended = true }) hs refl)

regular_complete :
    (s : Seen) (hs : List Header)
    → s.has_method ≡ true
    → s.has_scheme ≡ true
    → s.has_path ≡ true
    → All IsRegular hs
    → validate_from s hs ≡ true
unfolding validate_from
regular_complete s [] a b c h = ground arith
regular_complete s (x ∷ hs) a b c (r, h) =
    ground (arith, regular_complete (record s { pseudo_ended = true }) hs a b c h)

-- What one pseudo-header adds to the flags.
record Sees (name : Text) (s s' : Seen) : Type 0 where
  not_status : name ≢ codes ":status"
  ended : s'.pseudo_ended ≡ s.pseudo_ended
  method : s'.has_method ≡ true → (s.has_method ≡ true) ⊎ (name ≡ codes ":method")
  scheme : s'.has_scheme ≡ true → (s.has_scheme ≡ true) ⊎ (name ≡ codes ":scheme")
  path : s'.has_path ≡ true → (s.has_path ≡ true) ⊎ (name ≡ codes ":path")

see_sound : (name : Text) (s s' : Seen) → see name s ≡ some s' → Sees name s s'
unfolding see
see_sound name s s' e = record {
  not_status = λ p. cc (rw p at e);
  ended = ground arith;
  method = λ p. ground (arith, eq_list→eq name (codes ":method"));
  scheme = λ p. ground (arith, eq_list→eq name (codes ":scheme"));
  path = λ p. ground (arith, eq_list→eq name (codes ":path"));
}

see_complete :
    (name : Text) (s : Seen)
    → name ≢ codes ":status"
    → (s' : Seen) × (see name s ≡ some s')
      × (s'.pseudo_ended ≡ s.pseudo_ended)
      × (s.has_method ≡ true → s'.has_method ≡ true)
      × (s.has_scheme ≡ true → s'.has_scheme ≡ true)
      × (s.has_path ≡ true → s'.has_path ≡ true)
      × (name ≡ codes ":method" → s'.has_method ≡ true)
      × (name ≡ codes ":scheme" → s'.has_scheme ≡ true)
      × (name ≡ codes ":path" → s'.has_path ≡ true)
unfolding see
see_complete name s n = elim (Option-cases (see name s)) [
  | inl missing ↦ absurd (n (eq_list→eq name (codes ":status") (ground arith)))
  | inr (s', found) ↦ (
    s',
    found,
    ground arith,
    λ p. ground arith,
    λ p. ground arith,
    λ p. ground arith,
    λ p. ground (arith, rw p at found),
    λ p. ground (arith, rw p at found),
    λ p. ground (arith, rw p at found),
  )
]

-- What the loop has accepted before the end of the pseudo-headers.
record Accepted (s : Seen) (hs : List Header) : Type 0 where
  pseudo : List Header
  regular : List Header
  split : hs ≡ pseudo ++ regular
  pseudo_ok : All IsRequestPseudo pseudo
  regular_ok : All IsRegular regular
  method : (s.has_method ≡ true) ⊎ Has (codes ":method") pseudo
  scheme : (s.has_scheme ≡ true) ⊎ Has (codes ":scheme") pseudo
  path : (s.has_path ≡ true) ⊎ Has (codes ":path") pseudo

Accepted-cons :
    (s s' : Seen) (x : Header) (hs : List Header)
    → is_pseudo x ≡ true
    → Sees x.name s s'
    → Accepted s' hs
    → Accepted s (x ∷ hs)
Accepted-cons s s' x hs p sees a = record {
  pseudo = x ∷ a.pseudo;
  regular = a.regular;
  split = ap (◌∷◌ x) a.split;
  pseudo_ok = ((p, sees.not_status), a.pseudo_ok);
  regular_ok = a.regular_ok;
  method = carry sees.method a.method;
  scheme = carry sees.scheme a.scheme;
  path = carry sees.path a.path;
}
  where
    carry : {P Q R S : Type 0} → (P → Q ⊎ R) → P ⊎ S → Q ⊎ (R ⊎ S)
    carry f (inl p) = elim (f p) [ inl q ↦ inl q | inr r ↦ inr (inl r) ]
    carry f (inr s) = inr (inr s)

validate_from_sound :
    (s : Seen) (hs : List Header)
    → s.pseudo_ended ≡ false
    → validate_from s hs ≡ true
    → Accepted s hs
unfolding validate_from
validate_from_sound s [] e h = record {
  pseudo = [];
  regular = [];
  split = refl;
  pseudo_ok = tt;
  regular_ok = tt;
  method = ground arith;
  scheme = ground arith;
  path = ground arith;
}
validate_from_sound s (x ∷ hs) e h = elim (Bool-cases (is_pseudo x)) [
  | inl colon ↦ elim (Option-cases (see x.name s)) [
    | inl missing ↦ ground arith
    | inr (s', found) ↦
        let sees = see_sound x.name s s' found in
        Accepted-cons s s' x hs colon sees
          (validate_from_sound s' hs (ground (arith, sees.ended)) (ground arith))
  ]
  | inr plain ↦
      let (a, b, c, r) =
        IsRegular-validate_from (record s { pseudo_ended = true }) hs refl (ground arith) in
      record {
        pseudo = [];
        regular = x ∷ hs;
        split = refl;
        pseudo_ok = tt;
        regular_ok = ((plain, ground arith), r);
        method = inl a;
        scheme = inl b;
        path = inl c;
      }
]

validate_from_complete :
    (s : Seen) (ps rs : List Header)
    → s.pseudo_ended ≡ false
    → All IsRequestPseudo ps
    → All IsRegular rs
    → (s.has_method ≡ true) ⊎ Has (codes ":method") ps
    → (s.has_scheme ≡ true) ⊎ Has (codes ":scheme") ps
    → (s.has_path ≡ true) ⊎ Has (codes ":path") ps
    → validate_from s (ps ++ rs) ≡ true
unfolding validate_from
validate_from_complete s [] rs e a r m c p =
    regular_complete s rs (ground arith) (ground arith) (ground arith) r
validate_from_complete s (x ∷ ps) rs e ((colon, n), a) r m c p =
    let (s', found, ended, m0, c0, p0, m1, c1, p1) = see_complete x.name s n in
    ground (
      arith,
      validate_from_complete s' ps rs (ended ∙ e) a r (ground arith) (ground arith) (ground arith),
    )

-- A header list is a valid request exactly when it is a block of pseudo-headers, none of them
-- `:status` and `:method`, `:scheme` and `:path` among them, followed by headers whose names have
-- no capital letter and no leading colon.
pub validate_request_headers_iff :
    (hs : List Header) → (validate_request_headers hs ≡ true) ↔ IsRequestList hs
unfolding validate_request_headers
validate_request_headers_iff hs = (to, from)
  where
    drop_left : {P : Type 0} → (◌≡◌ {A = Bool} false true) ⊎ P → P
    drop_left (inl e) = cc
    drop_left (inr p) = p

    to : validate_from nothing_seen hs ≡ true → IsRequestList hs
    to h =
        let a = validate_from_sound nothing_seen hs refl h in
        record {
          pseudo = a.pseudo;
          regular = a.regular;
          split = a.split;
          pseudo_ok = a.pseudo_ok;
          regular_ok = a.regular_ok;
          method = drop_left a.method;
          scheme = drop_left a.scheme;
          path = drop_left a.path;
        }

    from : IsRequestList hs → validate_from nothing_seen hs ≡ true
    from l = rw l.split (
        validate_from_complete nothing_seen l.pseudo l.regular refl l.pseudo_ok l.regular_ok
          (inr l.method) (inr l.scheme) (inr l.path))
