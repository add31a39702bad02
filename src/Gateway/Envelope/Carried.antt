-- ===== src/Gateway/Envelope/Carried.antt =====
-- What the envelope carries, in terms of the handler's result alone.
use bumpa_achievement_system.Common.{
  ℕ, ◌≡◌, ◌≢◌, refl, ap, ◌⊎◌, inl, inr, String, Bool, true, false, Bool-cases, ◌==◌,
}
use bumpa_achievement_system.Json.{
  Json, undefined, null, boolean, number, string, array, object, Items, nil, cons, Fields, end,
  field, get, has_own, or_else, is_true,
}
use bumpa_achievement_system.Gateway.Envelope.{
  normalize_undefined, normalize_items, normalize_fields, is_already_wrapped, extract_envelope,
  wrap, intercept,
}

-- The second value is the first with null in place of each undefined, at any depth.
mutual
  pub data Normalized : Json → Json → Type 0 where
    of_undefined : Normalized undefined null
    of_null : Normalized null null
    of_boolean : {b : Bool} → Normalized (boolean b) (boolean b)
    of_number : {n : ℕ} → Normalized (number n) (number n)
    of_string : {s : String} → Normalized (string s) (string s)
    of_array : {l m : Items} → NormalizedItems l m → Normalized (array l) (array m)
    of_object : {fs gs : Fields} → NormalizedFields fs gs → Normalized (object fs) (object gs)

  pub data NormalizedItems : Items → Items → Type 0 where
    no_items : NormalizedItems nil nil
    next_item :
        {x y : Json} {l m : Items}
        → Normalized x y
        → NormalizedItems l m
        → NormalizedItems (cons x l) (cons y m)

  pub data NormalizedFields : Fields → Fields → Type 0 where
    no_fields : NormalizedFields end end
    next_field :
        {k : String} {x y : Json} {fs gs : Fields}
        → Normalized x y
        → NormalizedFields fs gs
        → NormalizedFields (field k x fs) (field k y gs)

mutual
  unfolding normalize_undefined

  normalize_undefined-Normalized : (d : Json) → Normalized d (normalize_undefined d)
  normalize_undefined-Normalized undefined = of_undefined
  normalize_undefined-Normalized null = of_null
  normalize_undefined-Normalized (boolean b) = of_boolean
  normalize_undefined-Normalized (number n) = of_number
  normalize_undefined-Normalized (string s) = of_string
  normalize_undefined-Normalized (array l) = of_array (normalize_items-NormalizedItems l)
  normalize_undefined-Normalized (object fs) = of_object (normalize_fields-NormalizedFields fs)

  normalize_items-NormalizedItems : (l : Items) → NormalizedItems l (normalize_items l)
  normalize_items-NormalizedItems nil = no_items
  normalize_items-NormalizedItems (cons x l) =
      next_item (normalize_undefined-Normalized x) (normalize_items-NormalizedItems l)

  normalize_fields-NormalizedFields : (fs : Fields) → NormalizedFields fs (normalize_fields fs)
  normalize_fields-NormalizedFields end = no_fields
  normalize_fields-NormalizedFields (field k v fs) =
      next_field (normalize_undefined-Normalized v) (normalize_fields-NormalizedFields fs)

-- The value of a property; a value that is not an object has none.
unfoldable pub property : String → Json → Json
unfolding get
property k (object fs) = get k fs
property k undefined = undefined
property k null = undefined
property k (boolean b) = undefined
property k (number n) = undefined
property k (string s) = undefined
property k (array l) = undefined

-- The data of a value that has no envelope: its own property `data`, or the whole of it.
pub data Carries (n : Json) : Json → Type 0 where
  own_data : {v : Json} → property "data" n ≡ v → v ≢ undefined → v ≢ null → Carries n v
  whole : (property "data" n ≡ undefined) ⊎ (property "data" n ≡ null) → Carries n n

-- The answer for a result: the result itself if it says that it is an envelope, and else an envelope
-- with the status, the time and the data.
pub data Enveloped (status_code : ℕ) (timestamp : String) (d : Json) : Json → Type 0 where
  as_it_is :
      {n : Json}
      → Normalized d n
      → property "success" n ≡ boolean true
      → Enveloped status_code timestamp d n
  in_envelope :
      {n v r : Json}
      → Normalized d n
      → property "success" n ≢ boolean true
      → Carries n v
      → property "success" r ≡ boolean true
      → property "statusCode" r ≡ number status_code
      → property "data" r ≡ v
      → property "timestamp" r ≡ string timestamp
      → Enveloped status_code timestamp d r

own-Carries : (n v : Json) → property "data" n ≡ v → Carries n (or_else v n)
own-Carries n undefined h = whole (inl h)
own-Carries n null h = whole (inr h)
own-Carries n (boolean b) h = own_data h (λ e. cc) (λ e. cc)
own-Carries n (number k) h = own_data h (λ e. cc) (λ e. cc)
own-Carries n (string s) h = own_data h (λ e. cc) (λ e. cc)
own-Carries n (array l) h = own_data h (λ e. cc) (λ e. cc)
own-Carries n (object fs) h = own_data h (λ e. cc) (λ e. cc)

missing-get : (k : String) (fs : Fields) → has_own k fs ≡ false → get k fs ≡ undefined
unfolding get has_own
missing-get k end h = refl
missing-get k (field j v fs) h = elim (Bool-cases (j == k)) [
  | inl same ↦ absurd (cc (simp same at h))
  | inr other ↦ rw other (missing-get k fs (simp other at h))
]

extract_envelope-Carries : (n : Json) → Carries n (or_else (extract_envelope n).data_part n)
unfolding extract_envelope property
extract_envelope-Carries undefined = whole (inl refl)
extract_envelope-Carries null = whole (inl refl)
extract_envelope-Carries (boolean b) = whole (inl refl)
extract_envelope-Carries (number k) = whole (inl refl)
extract_envelope-Carries (string s) = whole (inl refl)
extract_envelope-Carries (array l) = whole (inl refl)
extract_envelope-Carries (object fs) = elim (Bool-cases (has_own "data" fs)) [
  | inl has_data ↦ rw has_data (own-Carries (object fs) (get "data" fs) refl)
  | inr bare ↦ rw bare (whole (inl (missing-get "data" fs bare)))
]

is_true→eq : (v : Json) → is_true v ≡ true → v ≡ boolean true
is_true→eq undefined h = cc
is_true→eq null h = cc
is_true→eq (boolean b) h = ap boolean h
is_true→eq (number n) h = cc
is_true→eq (string s) h = cc
is_true→eq (array l) h = cc
is_true→eq (object fs) h = cc

wrapped-success : (n : Json) → is_already_wrapped n ≡ true → property "success" n ≡ boolean true
unfolding is_already_wrapped property
wrapped-success undefined h = cc
wrapped-success null h = cc
wrapped-success (boolean b) h = cc
wrapped-success (number k) h = cc
wrapped-success (string s) h = cc
wrapped-success (array l) h = cc
wrapped-success (object fs) h = is_true→eq (get "success" fs) h

bare-success : (n : Json) → is_already_wrapped n ≡ false → property "success" n ≢ boolean true
unfolding is_already_wrapped property
bare-success undefined h e = cc
bare-success null h e = cc
bare-success (boolean b) h e = cc
bare-success (number k) h e = cc
bare-success (string s) h e = cc
bare-success (array l) h e = cc
bare-success (object fs) h e = cc

-- The interceptor puts any result into its envelope, or leaves the envelope that it has.
pub intercept-Enveloped :
    (status_code : ℕ) (timestamp : String) (d : Json)
    → Enveloped status_code timestamp d (intercept status_code timestamp d)
unfolding intercept wrap property get
intercept-Enveloped status_code timestamp d =
    let n = normalize_undefined d in
    elim (Bool-cases (is_already_wrapped n)) [
      | inl has_one ↦
          rw has_one (as_it_is (normalize_undefined-Normalized d) (wrapped-success n has_one))
      | inr bare ↦ rw bare (
          in_envelope (normalize_undefined-Normalized d) (bare-success n bare)
            (extract_envelope-Carries n) refl refl refl refl)
    ]
