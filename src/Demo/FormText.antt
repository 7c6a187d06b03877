-- ===== src/Demo/FormText.antt =====
-- The identifier in a form is a text.
use stellar_kraal_contract.Common.{
  inl, inr, List, [], ◌∷◌, Bool-cases, ◌≡◌, some, All, Option-cases,
}
use stellar_kraal_contract.Common.Dict.{Dict, insert, lookup}
use stellar_kraal_contract.Common.Text.{Str, codes, str_eq}
use stellar_kraal_contract.Common.Words.{
  strip, lstrip_space, rstrip_space, is_whitespace, kept_after, cut_at,
}
use stellar_kraal_contract.Demo.Honest.{IsText}
use stellar_kraal_contract.Demo.Submit.{fields_of, field_or}

lstrip_space-IsText : (s : Str) → IsText s → IsText (lstrip_space s)
unfolding lstrip_space
lstrip_space-IsText [] h = tt
lstrip_space-IsText (c ∷ s) h = elim (Bool-cases (is_whitespace c)) [
  | inl e ↦ rw e (lstrip_space-IsText s h.1)
  | inr e ↦ rw e h
]

rstrip_space-IsText : (s : Str) → IsText s → IsText (rstrip_space s)
unfolding rstrip_space
rstrip_space-IsText [] h = tt
rstrip_space-IsText (c ∷ s) h = kept_text (rstrip_space s) (rstrip_space-IsText s h.1)
  where
    kept_text : (t : Str) → IsText t → IsText (kept_after c t)
    kept_text [] k = elim (Bool-cases (is_whitespace c)) [
      | inl e ↦ rw e tt
      | inr e ↦ rw e (h.0, tt)
    ]
    kept_text (d ∷ t) k = (h.0, k)

strip-IsText : (s : Str) → IsText s → IsText (strip s)
unfolding strip
strip-IsText s h = rstrip_space-IsText (lstrip_space s) (lstrip_space-IsText s h)

insert-IsText :
    (k v : Str) (fields : Dict Str)
    → IsText v
    → All (λ field. IsText field.1) fields
    → All (λ field. IsText field.1) (insert k v fields)
insert-IsText k v [] h p = (h, tt)
insert-IsText k v ((j, w) ∷ fields) h p = elim (Bool-cases (str_eq j k)) [
  | inl e ↦ rw e (h, p.1)
  | inr e ↦ rw e (p.0, insert-IsText k v fields h p.1)
]

lookup-IsText :
    (k : Str) (fields : Dict Str) {v : Str}
    → All (λ field. IsText field.1) fields
    → lookup k fields ≡ some v
    → IsText v
lookup-IsText k [] p found = absurd (cc found)
lookup-IsText k ((j, w) ∷ fields) {v} p found = elim (Bool-cases (str_eq j k)) [
  | inl e ↦ let same : w ≡ v = cc (rw e at found) in rw (← same) (p.0)
  | inr e ↦ lookup-IsText k fields p.1 (rw e at found)
]

field_or-IsText :
    (k default : Str) (fields : Dict Str)
    → IsText default
    → All (λ field. IsText field.1) fields
    → IsText (field_or k default fields)
unfolding field_or
field_or-IsText k default fields h p = elim (Option-cases (lookup k fields)) [
  | inl e ↦ rw (e, field_or) h
  | inr (v, e) ↦ rw (e, field_or) (lookup-IsText k fields p e)
]

module _ (unquote_plus : Str → Str) (unquoted : (s : Str) → IsText (unquote_plus s)) where
  pub fields_of-IsText :
      (parts : List Str) (fields : Dict Str)
      → All (λ field. IsText field.1) fields
      → All (λ field. IsText field.1) (fields_of unquote_plus parts fields)
  unfolding fields_of
  fields_of-IsText [] fields h = h
  fields_of-IsText (part ∷ parts) fields h = elim (Option-cases (cut_at 61 part)) [
    | inl e ↦ rw (e, fields_of) (fields_of-IsText parts fields h)
    | inr ((k, v), e) ↦
        rw (e, fields_of)
          (fields_of-IsText parts (insert (unquote_plus k) (unquote_plus v) fields)
            (insert-IsText (unquote_plus k) (unquote_plus v) fields (unquoted v) h))
  ]

pub feed_id-IsText :
    (fields : Dict Str)
    → All (λ field. IsText field.1) fields
    → IsText (strip (field_or (codes "feed_id") [] fields))
feed_id-IsText fields h =
    strip-IsText (field_or (codes "feed_id") [] fields)
      (field_or-IsText (codes "feed_id") [] fields tt h)
