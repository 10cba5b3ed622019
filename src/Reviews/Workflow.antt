-- ===== src/Reviews/Workflow.antt =====
-- What the operations of cryptiq/app/services/reviews.py do to the review items.
use cryptiq.Shared.{
  ℕ, String, Bool, true, false, Option, none, some, ◌==◌, ◌≡◌, inl, inr, refl, sym, subst, ap, ◌∙◌,
  beq_refl, arith, string_eq, if◌then◌else◌, Bool-cases, Option-cases, contains,
}
use cryptiq.Shared.Text.{strip, upper}
use cryptiq.Shared.Dict.{lookup, put, lookup-put}
use cryptiq.Reviews.Current.{IsCurrent, current_or_new-IsCurrent}
use cryptiq.Reviews.{
  ReviewStatus, ReviewStatus-discrete, review_status_eq, Error, Answer, answered, raised,
  ReviewItem, Tables, Field, status_of, unaliased, is_legal, parse_status, check_transition,
  stripped, current_or_new, noted, record_disposition, field_value, changed_status,
  update_review_item,
}

-- A status that may be stored.
abbrev pub is_stored : ReviewStatus → Bool
is_stored ReviewStatus.reviewed = false
is_stored _ = true

unaliased-is_stored : (status : ReviewStatus) → is_stored (unaliased status) ≡ true
unfolding unaliased
unaliased-is_stored ReviewStatus.open_status = refl
unaliased-is_stored ReviewStatus.in_review = refl
unaliased-is_stored ReviewStatus.resolved = refl
unaliased-is_stored ReviewStatus.accepted_risk = refl
unaliased-is_stored ReviewStatus.false_positive = refl
unaliased-is_stored ReviewStatus.reviewed = refl

parse_status-is_stored :
    (raw : String) (target : ReviewStatus)
    → parse_status raw ≡ answered target
    → is_stored target ≡ true
unfolding parse_status
parse_status-is_stored raw target h = elim (Option-cases (status_of (upper (strip raw)))) [
  | inl e ↦ absurd (ground (arith, e, h))
  | inr (status, e) ↦
      let same : target ≡ unaliased status = ground (arith, e, h) in
      subst (λ s. is_stored s ≡ true) (sym same) (unaliased-is_stored status)
]

is_legal-stored :
    (from target : ReviewStatus)
    → is_stored from ≡ true
    → is_stored target ≡ true
    → is_legal from target ≡ true
unfolding is_legal contains ReviewStatus-discrete
is_legal-stored from target h k = ground arith

check_transition-stored :
    (current target : ReviewStatus)
    → is_stored target ≡ true
    → check_transition current target ≡ true
unfolding check_transition
check_transition-stored current target h =
    ground (arith, is_legal-stored (unaliased current) target (unaliased-is_stored current) h)

-- The note that a disposition leaves: the old one where none is sent, else what is left of the text.
abbrev pub note_after : Option String → Option String → Option String
note_after old none = old
note_after old (some text) = if strip text == "" then none else some (strip text)

-- The row with the status and the note, and the table with that row.
abbrev pub disposed :
    String × ReviewItem → Option String → Tables → ReviewStatus → (String × ReviewItem) × Tables
disposed (id, item) note tables target =
    let after : ReviewItem = record {
      finding_id = item.finding_id;
      status = target;
      assigned_to = item.assigned_to;
      note = note_after item.note note;
      created_at = item.created_at;
    } in
    ((id, after), record { findings = tables.findings; items = put id after tables.items })

noted-note_after :
    (note : Option String) (item : ReviewItem)
    → noted note item ≡ record {
      finding_id = item.finding_id;
      status = item.status;
      assigned_to = item.assigned_to;
      note = note_after item.note note;
      created_at = item.created_at;
    }
unfolding noted stripped
noted-note_after none item = refl
noted-note_after (some text) item = refl

disposed-answer :
    (fresh : String) (now : ℕ) (finding raw : String) (note : Option String) (tables : Tables)
    (status : Answer ReviewStatus)
    → parse_status raw ≡ status
    → record_disposition fresh now finding raw note tables ≡ elim status [
      | raised error ↦ raised error
      | answered target ↦
          if contains tables.findings finding
          then answered (disposed (current_or_new fresh now finding tables) note tables target)
          else raised Error.not_found
    ]
unfolding record_disposition
disposed-answer fresh now finding raw remark tables (raised error) e =
    rw (e, record_disposition) refl
disposed-answer fresh now finding raw remark tables (answered target) e =
    let current = current_or_new fresh now finding tables in
    rw (e, record_disposition)
      (rw (check_transition-stored current.1.status target (parse_status-is_stored raw target e))
        (elim (Bool-cases (contains tables.findings finding)) [
          | inl f ↦ rw f (
              ap
                (λ after.
                  answered (
                    (current.0, after),
                    record tables { items = put current.0 after tables.items },
                  ))
                (noted-note_after remark (record current.1 { status = target })))
          | inr f ↦ rw f refl
        ]))

-- A disposition is refused for an unknown status or an unknown finding and for nothing else, since no
-- change between the statuses that can be stored is illegal. Otherwise one review item gets the status,
-- and the note if one is sent: the newest item of the finding, or a new one where the finding has none;
-- its other fields and the other items stay as they are.
pub record_disposition-disposed :
    (fresh : String) (now : ℕ) (finding raw : String) (note : Option String) (tables : Tables)
    → (current : String × ReviewItem) × (IsCurrent fresh now finding tables current
        × (record_disposition fresh now finding raw note tables ≡ elim (parse_status raw) [
          | raised error ↦ raised error
          | answered target ↦
              if contains tables.findings finding
              then answered (disposed current note tables target)
              else raised Error.not_found
        ]))
record_disposition-disposed fresh now finding raw note tables = (
  current_or_new fresh now finding tables,
  (
    current_or_new-IsCurrent fresh now finding tables,
    disposed-answer fresh now finding raw note tables (parse_status raw) refl,
  ),
)

-- The row of the item is the one that is answered, no other row changes, and a status that the update
-- names is stored without its legacy spelling.
unfoldable pub IsUpdated : String → Option String → Tables → ReviewItem → Tables → Type 0
IsUpdated id raw before after tables =
    (lookup id tables.items ≡ some after)
    × (((j : String) → (id == j) ≡ false → lookup j tables.items ≡ lookup j before.items)
        × ((tables.findings ≡ before.findings)
            × ((token : String) → raw ≡ some token → is_stored after.status ≡ true)))

changed_status-is_stored :
    (token : String) (item changed : ReviewItem)
    → changed_status (some token) item ≡ answered changed
    → is_stored changed.status ≡ true
unfolding changed_status
changed_status-is_stored token item changed h = changed-at (parse_status token) refl h
  where
    changed-at :
        (status : Answer ReviewStatus)
        → parse_status token ≡ status
        → (elim status [
          | raised error ↦ raised error
          | answered target ↦
              if check_transition item.status target
              then answered (record item { status = target })
              else raised Error.invalid_transition
        ])
          ≡ answered changed
        → is_stored changed.status ≡ true
    changed-at (raised error) e h = cc
    changed-at (answered target) e h =
        subst (λ s. is_stored s ≡ true)
          (ground (
            arith,
            h,
            check_transition-stored item.status target (parse_status-is_stored token target e),
          ))
          (parse_status-is_stored token target e)

abbrev edited : Field → Field → ReviewItem → ReviewItem
edited assigned_to note item = record item {
  assigned_to = field_value assigned_to item.assigned_to;
  note = field_value note item.note;
}

abbrev saved : String → ReviewItem → Tables → ReviewItem × Tables
saved id after tables = (after, record tables { items = put id after tables.items })

saved-IsUpdated :
    (id : String) (raw : Option String) (tables : Tables) (after : ReviewItem)
    → ((token : String) → raw ≡ some token → is_stored after.status ≡ true)
    → IsUpdated id raw tables after (saved id after tables).1
unfolding IsUpdated
saved-IsUpdated id raw tables after k = (
  lookup-put id id after tables.items ∙ rw (beq_refl {A = String} id) refl,
  ((λ j e. lookup-put id j after tables.items ∙ rw e refl), (refl, k)),
)

answered-injective : {x y : ReviewItem × Tables} → answered x ≡ answered y → x ≡ y
answered-injective {x} e = ap (λ a. elim a [ answered z ↦ z | raised _ ↦ x ]) e

IsUpdated-at :
    (id : String) (raw : Option String) (assigned_to note : Field) (tables after_tables : Tables)
    (item after : ReviewItem) (changed : Answer ReviewItem)
    → changed_status raw item ≡ changed
    → (elim changed [
      | raised error ↦ raised error
      | answered new ↦ answered (saved id (edited assigned_to note new) tables)
    ])
      ≡ answered (after, after_tables)
    → IsUpdated id raw tables after after_tables
IsUpdated-at id raw assigned_to note tables after_tables item after (raised error) e h = cc
IsUpdated-at id raw assigned_to note tables after_tables item after (answered new) e h =
    subst (λ x. IsUpdated id raw tables x.0 x.1) (answered-injective h)
      (saved-IsUpdated id raw tables (edited assigned_to note new) (λ token f.
        changed_status-is_stored token item new
          (subst (λ r. changed_status r item ≡ answered new) f e)))

pub update_review_item-IsUpdated :
    (id : String) (raw : Option String) (assigned_to note : Field) (tables after_tables : Tables)
    (after : ReviewItem)
    → update_review_item id raw assigned_to note tables ≡ answered (after, after_tables)
    → IsUpdated id raw tables after after_tables
unfolding update_review_item
update_review_item-IsUpdated id raw assigned_to note tables after_tables after h =
    elim (Option-cases (lookup id tables.items)) [
      | inl e ↦ absurd (ground (arith, e, h))
      | inr (item, e) ↦
          IsUpdated-at id raw assigned_to note tables after_tables item after
            (changed_status raw item) refl (found-at item e)
    ]
  where
    found-at :
        (item : ReviewItem)
        → lookup id tables.items ≡ some item
        → (elim (changed_status raw item) [
          | raised error ↦ raised error
          | answered new ↦ answered (saved id (edited assigned_to note new) tables)
        ])
          ≡ answered (after, after_tables)
    found-at item e =
        subst
          (λ o.
            (elim o [
              | none ↦ raised Error.not_found
              | some found ↦ elim (changed_status raw found) [
                | raised error ↦ raised error
                | answered new ↦ answered (saved id (edited assigned_to note new) tables)
              ]
            ])
            ≡ answered (after, after_tables))
          e h
