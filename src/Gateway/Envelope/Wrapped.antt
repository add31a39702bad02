-- ===== src/Gateway/Envelope/Wrapped.antt =====
-- The envelope is there once, whatever the handler returns.
use mathlib.Core.Bool.{and-eq-true_iff}
use bumpa_achievement_system.Common.{
  ℕ, ◌≡◌, refl, ap, ◌⊎◌, inl, inr, String, true, Option, none, some, ◌==◌, Bool-cases,
}
use bumpa_achievement_system.Json.{
  Json, undefined, null, boolean, number, string, array, object, Items, nil, cons, Fields, end,
  field, get, has_own, or_else,
}
use bumpa_achievement_system.Gateway.Envelope.{
  normalize_undefined, normalize_items, normalize_fields, is_already_wrapped, all_primitive,
  meta_of, extract_envelope, message_field, meta_field, wrap, intercept, is_primitive,
}

abbrev IsNormal : Json → Type 0
IsNormal d = normalize_undefined d ≡ d

mutual
  unfolding normalize_undefined

  normalize_idem : (d : Json) → normalize_undefined (normalize_undefined d) ≡ normalize_undefined d
  normalize_idem undefined = refl
  normalize_idem null = refl
  normalize_idem (boolean b) = refl
  normalize_idem (number n) = refl
  normalize_idem (string s) = refl
  normalize_idem (array l) = ap array (normalize_items_idem l)
  normalize_idem (object fs) = ap object (normalize_fields_idem fs)

  normalize_items_idem : (l : Items) → normalize_items (normalize_items l) ≡ normalize_items l
  normalize_items_idem nil = refl
  normalize_items_idem (cons x l) = cc (normalize_idem x, normalize_items_idem l)

  normalize_fields_idem :
      (fs : Fields) → normalize_fields (normalize_fields fs) ≡ normalize_fields fs
  normalize_fields_idem end = refl
  normalize_fields_idem (field k v fs) = cc (normalize_idem v, normalize_fields_idem fs)

own-IsNormal :
    (k : String) (fs : Fields)
    → normalize_fields fs ≡ fs
    → has_own k fs ≡ true
    → IsNormal (get k fs)
unfolding normalize_undefined get has_own
own-IsNormal k end n h = cc
own-IsNormal k (field j v fs) n h = elim (Bool-cases (j == k)) [
  | inl same ↦ rw same (cc n)
  | inr other ↦ rw other (own-IsNormal k fs (cc n) (simp other at h))
]

or_else-IsNormal : (a d : Json) → IsNormal d → (a ≡ undefined) ⊎ IsNormal a → IsNormal (or_else a d)
unfolding normalize_undefined
or_else-IsNormal undefined d n h = n
or_else-IsNormal null d n h = n
or_else-IsNormal (boolean b) d n h = refl
or_else-IsNormal (number k) d n h = refl
or_else-IsNormal (string s) d n h = refl
or_else-IsNormal (array l) d n (inl e) = cc e
or_else-IsNormal (array l) d n (inr h) = h
or_else-IsNormal (object fs) d n (inl e) = cc e
or_else-IsNormal (object fs) d n (inr h) = h

data_part-IsNormal :
    (d : Json)
    → IsNormal d
    → ((extract_envelope d).data_part ≡ undefined) ⊎ IsNormal (extract_envelope d).data_part
unfolding normalize_undefined extract_envelope
data_part-IsNormal undefined n = inl refl
data_part-IsNormal null n = inl refl
data_part-IsNormal (boolean b) n = inl refl
data_part-IsNormal (number k) n = inl refl
data_part-IsNormal (string s) n = inl refl
data_part-IsNormal (array l) n = inl refl
data_part-IsNormal (object fs) n = elim (Bool-cases (has_own "data" fs)) [
  | inl has_data ↦ inr (rw has_data (own-IsNormal "data" fs (cc n) has_data))
  | inr bare ↦ inr (rw bare n)
]

primitive-IsNormal : (v : Json) → is_primitive v ≡ true → IsNormal v
unfolding normalize_undefined
primitive-IsNormal undefined h = cc
primitive-IsNormal null h = refl
primitive-IsNormal (boolean b) h = refl
primitive-IsNormal (number k) h = refl
primitive-IsNormal (string s) h = refl
primitive-IsNormal (array l) h = cc
primitive-IsNormal (object fs) h = cc

all_primitive-normal : (fs : Fields) → all_primitive fs ≡ true → normalize_fields fs ≡ fs
unfolding all_primitive normalize_undefined
all_primitive-normal end h = refl
all_primitive-normal (field k v fs) h =
    let (first, rest) = (and-eq-true_iff (is_primitive v) (all_primitive fs)).0 h in
    cc (primitive-IsNormal v first, all_primitive-normal fs rest)

meta_field-normal : (v : Json) → normalize_fields (meta_field (meta_of v)) ≡ meta_field (meta_of v)
unfolding normalize_undefined meta_of
meta_field-normal undefined = refl
meta_field-normal null = refl
meta_field-normal (boolean b) = refl
meta_field-normal (number k) = refl
meta_field-normal (string s) = refl
meta_field-normal (array l) = refl
meta_field-normal (object fs) = elim (Bool-cases (all_primitive fs)) [
  | inl flat ↦ rw flat (ap (λ gs. field "meta" (object gs) end) (all_primitive-normal fs flat))
  | inr deep ↦ rw deep
]

message_field-normal :
    (m : Option String) (fs : Fields)
    → normalize_fields fs ≡ fs
    → normalize_fields (message_field m fs) ≡ message_field m fs
unfolding normalize_undefined
message_field-normal none fs n = n
message_field-normal (some m) fs n = elim (Bool-cases (m == "")) [
  | inl blank ↦ rw blank n
  | inr said ↦ rw said (ap (field "message" (string m)) n)
]

meta-normal :
    (d : Json)
    → normalize_fields (meta_field (extract_envelope d).meta) ≡ meta_field (extract_envelope d).meta
unfolding normalize_undefined extract_envelope
meta-normal undefined = refl
meta-normal null = refl
meta-normal (boolean b) = refl
meta-normal (number k) = refl
meta-normal (string s) = refl
meta-normal (array l) = refl
meta-normal (object fs) = meta_field-normal (get "meta" fs)

wrapped-IsNormal :
    (status_code : ℕ) (timestamp : String) (d : Json)
    → IsNormal d
    → IsNormal (wrap status_code timestamp d)
unfolding normalize_undefined wrap
wrapped-IsNormal status_code timestamp d n = cc (
  or_else-IsNormal (extract_envelope d).data_part d n (data_part-IsNormal d n),
  message_field-normal (extract_envelope d).message _ (meta-normal d),
)

wrap-wrapped :
    (status_code : ℕ) (timestamp : String) (d : Json)
    → is_already_wrapped (wrap status_code timestamp d) ≡ true
unfolding is_already_wrapped wrap
wrap-wrapped status_code timestamp d = refl

-- Every answer of the gateway has the envelope, that of the service if it has one, and then a second
-- pass, at another time and with another status, changes nothing; no undefined is left in it.
pub intercept_once :
    (status_code later_status : ℕ) (timestamp later : String) (d : Json)
    → (is_already_wrapped (intercept status_code timestamp d) ≡ true)
      × (intercept later_status later (intercept status_code timestamp d)
          ≡ intercept status_code timestamp d)
      × (normalize_undefined (intercept status_code timestamp d)
          ≡ intercept status_code timestamp d)
unfolding intercept
intercept_once status_code later_status timestamp later d =
    elim (Bool-cases (is_already_wrapped (normalize_undefined d))) [
      | inl has_one ↦ simp has_one (refl, simp (normalize_idem d, has_one), normalize_idem d)
      | inr bare ↦
          let n =
            wrapped-IsNormal status_code timestamp (normalize_undefined d) (normalize_idem d) in
          let w = wrap-wrapped status_code timestamp (normalize_undefined d) in
          simp bare (w, simp n, n)
    ]
