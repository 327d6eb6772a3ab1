-- ===== src/Schema/Laws.antt =====
-- What `Validate` of pkg/schema/schema.go accepts, and what `Field` finds in an accepted schema.
use s3search.Base.{
  ◌≡◌, ◌↔◌, refl, sym, ap, ◌∙◌, arith, Bool, true, false, ◌||◌, Bytes, List, [], ◌∷◌, All,
}
use s3search.Base.{bytes_eq, bytes_beq_iff, contains, Option, none, some, ok}
use s3search.Base.{>>=-eq-ok, ◌⊎◌}
use s3search.Schema.{
  Field, Schema, is_known, validate_fields, validate_id, validate, find_field, field,
}

-- No two fields have one name.
abbrev pub HasDistinctNames : List Field → Type 0
HasDistinctNames [] = Unit
HasDistinctNames (f ∷ fs) = (find_field f.name fs ≡ none) × HasDistinctNames fs

-- None of the names seen stands in the fields.
abbrev AreNew : List Bytes → List Field → Type 0
AreNew seen [] = Unit
AreNew seen (f ∷ fs) = (contains f.name seen ≡ false) × AreNew seen fs

abbrev pub IsKnown : Field → Type 0
IsKnown f = is_known f.field_type ≡ true

AreNew-cons :
    (n : Bytes) (seen : List Bytes) (fs : List Field)
    → AreNew (n ∷ seen) fs ↔ (AreNew seen fs × (find_field n fs ≡ none))
unfolding contains find_field
AreNew-cons n seen [] = (λ h. (tt, refl), λ h. tt)
AreNew-cons n seen (f ∷ fs) =
    let (to, from) = AreNew-cons n seen fs in
    ground (arith, to, from, bytes_beq_iff n f.name, bytes_beq_iff f.name n)

seen_after : List Bytes → List Field → List Bytes
seen_after seen [] = seen
seen_after seen (f ∷ fs) = seen_after (f.name ∷ seen) fs

is_some {ℓ} : {A : Type ℓ} → Option A → Bool
is_some none = false
is_some (some a) = true

contains-seen_after :
    (n : Bytes) (seen : List Bytes) (fs : List Field)
    → contains n (seen_after seen fs) ≡ (contains n seen || is_some (find_field n fs))
unfolding contains find_field seen_after is_some
contains-seen_after n seen [] = ground arith
contains-seen_after n seen (f ∷ fs) = ground (arith, contains-seen_after n (f.name ∷ seen) fs)

-- What the loop of `Validate` asks of the fields it has still to see.
IsRest : List Bytes → List Field → Type 0
IsRest seen fs = AreNew seen fs × HasDistinctNames fs × All IsKnown fs

IsRest-cons :
    (seen : List Bytes) (f : Field) (fs : List Field)
    → IsRest seen (f ∷ fs)
      ↔ ((contains f.name seen ≡ false) × IsKnown f × IsRest (f.name ∷ seen) fs)
unfolding IsRest
IsRest-cons seen f fs =
    let (to, from) = AreNew-cons f.name seen fs in
    (
      λ h. (h.0.0, h.2.0, (from (h.0.1, h.1.0), h.1.1, h.2.1)),
      λ h. ((h.0, (to h.2.0).0), ((to h.2.0).1, h.2.1), (h.1, h.2.2)),
    )

validate_fields_lem :
    (seen r : List Bytes) (fs : List Field)
    → (validate_fields seen fs ≡ ok r) ↔ (IsRest seen fs × (r ≡ seen_after seen fs))
unfolding validate_fields seen_after
validate_fields_lem seen r [] = (λ h. (unfold IsRest in (tt, tt, tt), cc), λ h. ap ok (sym h.1))
validate_fields_lem seen r (f ∷ fs) =
    ground (arith, IsRest-cons seen f fs, validate_fields_lem (f.name ∷ seen) r fs)

-- A schema is accepted exactly if its fields have distinct names and known types and its id field, if it
-- names one, is among them.
pub IsValid : Schema → Type 0
IsValid s =
    HasDistinctNames s.fields
    × All IsKnown s.fields
    × ((s.id_field ≡ []) ⊎ (is_some (find_field s.id_field s.fields) ≡ true))

AreNew-none : (fs : List Field) → AreNew [] fs
AreNew-none [] = tt
AreNew-none (f ∷ fs) = (unfold contains in refl, AreNew-none fs)

validate_id_lem :
    (id : Bytes) (seen r : List Bytes)
    → (validate_id id seen ≡ ok r) ↔ (((id ≡ []) ⊎ (contains id seen ≡ true)) × (r ≡ seen))
unfolding validate_id
validate_id_lem [] seen r = ground arith
validate_id_lem (c ∷ id) seen r = ground arith

contains-fields :
    (id : Bytes) (seen : List Bytes) (fs : List Field)
    → seen ≡ seen_after [] fs
    → contains id seen ≡ is_some (find_field id fs)
contains-fields id seen fs e =
    ap (contains id) e ∙ contains-seen_after id [] fs ∙ unfold contains in refl

-- `Validate` accepts exactly the schemas whose fields have distinct names and known types and whose id
-- field, if one is named, is among the fields.
pub validate_lem : (s : Schema) → ((seen : List Bytes) × (validate s ≡ ok seen)) ↔ IsValid s
unfolding validate IsValid IsRest
validate_lem s = (
  λ (r, e).
      let (seen, run, id_run) = >>=-eq-ok (validate_fields [] s.fields) _ e in
      let (rest, same) = (validate_fields_lem [] seen s.fields).0 run in
      (
        rest.1,
        rest.2,
        rw (sym (contains-fields s.id_field seen s.fields same))
            ((validate_id_lem s.id_field seen r).0 id_run).0,
      ),
  λ (names, known, id). (
    seen_after [] s.fields,
    rw
        ((validate_fields_lem [] (seen_after [] s.fields) s.fields).1
          ((AreNew-none s.fields, names, known), refl))
        ((validate_id_lem s.id_field (seen_after [] s.fields) (seen_after [] s.fields)).1
          (rw (contains-fields s.id_field (seen_after [] s.fields) s.fields refl) id, refl)),
  ),
)

-- a field stands among the fields
abbrev Among : Field → List Field → Type 0
Among f [] = ⊥
Among f (g ∷ fs) = (f ≡ g) ⊎ Among f fs

find_field-Among :
    (f : Field) (fs : List Field) → Among f fs → HasDistinctNames fs → find_field f.name fs ≡ some f
unfolding find_field
find_field-Among f [] m h = absurd m
find_field-Among f (g ∷ fs) m h = ground (arith, find_field-Among f fs, bytes_beq_iff g.name f.name)

-- In a schema that `Validate` accepts, `Field` finds every field under its name.
field-Among :
    (s : Schema) (seen : List Bytes) (f : Field)
    → validate s ≡ ok seen
    → Among f s.fields
    → field s f.name ≡ some f
unfolding field IsValid
field-Among s seen f e m = find_field-Among f s.fields m ((validate_lem s).0 (seen, e)).0
