-- ===== src/Logging/Redacted.antt =====
-- What the log shows of a body does not depend on its secrets.
use bumpa_achievement_system.Common.{◌≡◌, refl, ap, String, concat_text, true, has}
use bumpa_achievement_system.Json.{Json, array, object, Items, nil, cons, Fields, end, field}
use bumpa_achievement_system.Logging.{
  redacted_keys, redact, redact_items, redact_fields, format_body, request_line,
}

-- Two bodies that differ at most in what stands, at any depth, under a redacted key.
mutual
  pub data Agree : Json → Json → Type 0 where
    same : {a : Json} → Agree a a
    arrays : {l m : Items} → AgreeItems l m → Agree (array l) (array m)
    objects : {f g : Fields} → AgreeFields f g → Agree (object f) (object g)

  pub data AgreeItems : Items → Items → Type 0 where
    none_left : AgreeItems nil nil
    item :
        {a b : Json} {l m : Items} → Agree a b → AgreeItems l m → AgreeItems (cons a l) (cons b m)

  pub data AgreeFields : Fields → Fields → Type 0 where
    no_more : AgreeFields end end
    secret :
        {k : String} {v w : Json} {f g : Fields}
        → has redacted_keys k ≡ true
        → AgreeFields f g
        → AgreeFields (field k v f) (field k w g)
    shared :
        {k : String} {v w : Json} {f g : Fields}
        → Agree v w
        → AgreeFields f g
        → AgreeFields (field k v f) (field k w g)

mutual
  unfolding redact redact_items redact_fields

  redact-Agree : {a b : Json} → Agree a b → redact a ≡ redact b
  redact-Agree same = refl
  redact-Agree (arrays h) = ap array (redact_items-AgreeItems h)
  redact-Agree (objects h) = ap object (redact_fields-AgreeFields h)

  redact_items-AgreeItems : {l m : Items} → AgreeItems l m → redact_items l ≡ redact_items m
  redact_items-AgreeItems none_left = refl
  redact_items-AgreeItems (item h hs) = cc (redact-Agree h, redact_items-AgreeItems hs)

  redact_fields-AgreeFields : {f g : Fields} → AgreeFields f g → redact_fields f ≡ redact_fields g
  redact_fields-AgreeFields no_more = refl
  redact_fields-AgreeFields (secret {k} e hs) = simp e (cc (redact_fields-AgreeFields hs))
  redact_fields-AgreeFields (shared h hs) = cc (redact-Agree h, redact_fields-AgreeFields hs)

module _ (stringify : Json → String) where
  format_body-Agree : (a b : Json) → Agree a b → format_body stringify a ≡ format_body stringify b
  unfolding format_body
  format_body-Agree a b same = refl
  format_body-Agree (array l) (array m) (arrays none_left) = refl
  format_body-Agree (array l) (array m) (arrays (item h hs)) =
      ap (λ j. concat_text " " (stringify j)) (redact-Agree (arrays (item h hs)))
  format_body-Agree (object f) (object g) (objects no_more) = refl
  format_body-Agree (object f) (object g) (objects (secret e hs)) =
      ap (λ j. concat_text " " (stringify j)) (redact-Agree (objects (secret e hs)))
  format_body-Agree (object f) (object g) (objects (shared h hs)) =
      ap (λ j. concat_text " " (stringify j)) (redact-Agree (objects (shared h hs)))

  -- The line that is logged for a request is the same for two bodies that differ at most in what
  -- stands, at any depth, under a key that is to be kept out of the logs.
  pub request_line_hides :
      (method original_url : String) (a b : Json)
      → Agree a b
      → request_line stringify method original_url a ≡ request_line stringify method original_url b
  unfolding request_line
  request_line_hides method original_url a b h =
      ap
        (λ s.
          concat_text "--> " (concat_text method (concat_text " " (concat_text original_url s))))
        (format_body-Agree a b h)
