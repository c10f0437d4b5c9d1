-- ===== src/Lambda/Marking.antt =====
-- resolver/resolve.go: what the calls of the resolver make of a row of `event`.
use passwd_pot.Common.{
  ℕ, ◌==◌, pos, Bool, true, false, if◌then◌else◌, [], ◌∷◌, Option, none, some, ◌≡◌, ◌≢◌, refl, ap,
  ◌∙◌, arith,
}
use passwd_pot.Resolver.{History, select_geo, get_location, insert_geo, touch_geo, mark_event}
use passwd_pot.Resolver.Marks.{last_mark}
use passwd_pot.Recorder.Columns
use passwd_pot.Recorder.Columns.{
  Column, Value, number, set_column, position, Tables, insert_columns, insert_args, record_in,
  event_db, mark_in,
}

abbrev pub geo_column : Bool → Column
geo_column true = Column.remote_geo_id
geo_column false = Column.origin_geo_id

-- What some calls of the resolver make of a row of `event`.
unfoldable pub marks : ℕ → History → Columns.Row → Columns.Row
marks id [] row = row
marks id (select_geo a ∷ h) row = marks id h row
marks id (get_location a ∷ h) row = marks id h row
marks id (insert_geo g ∷ h) row = marks id h row
marks id (touch_geo i ∷ h) row = marks id h row
marks id (mark_event remote geo_id i ∷ h) row =
    let before = marks id h row in
    if i == id then set_column (geo_column remote) (number (pos geo_id)) before else before

abbrev marked_value : Option ℕ → Value → Value
marked_value none v = v
marked_value (some r) v = number (pos r)

module _ (id : ℕ) (row : Columns.Row) where
  marks-remote :
      (h : History)
      → marks id h row Column.remote_geo_id
        ≡ marked_value (last_mark true id h) (row Column.remote_geo_id)
  unfolding marks last_mark
  marks-remote [] = refl
  marks-remote (select_geo a ∷ h) = marks-remote h
  marks-remote (get_location a ∷ h) = marks-remote h
  marks-remote (insert_geo g ∷ h) = marks-remote h
  marks-remote (touch_geo i ∷ h) = marks-remote h
  marks-remote (mark_event true g i ∷ h) = ground (arith, marks-remote h)
  marks-remote (mark_event false g i ∷ h) = ground (arith, marks-remote h)

  marks-origin :
      (h : History)
      → marks id h row Column.origin_geo_id
        ≡ marked_value (last_mark false id h) (row Column.origin_geo_id)
  unfolding marks last_mark
  marks-origin [] = refl
  marks-origin (select_geo a ∷ h) = marks-origin h
  marks-origin (get_location a ∷ h) = marks-origin h
  marks-origin (insert_geo g ∷ h) = marks-origin h
  marks-origin (touch_geo i ∷ h) = marks-origin h
  marks-origin (mark_event true g i ∷ h) = ground (arith, marks-origin h)
  marks-origin (mark_event false g i ∷ h) = ground (arith, marks-origin h)

  marks-other :
      (c : Column) (h : History) → position c ≢ 5 → position c ≢ 10 → marks id h row c ≡ row c
  unfolding marks
  marks-other c [] p q = refl
  marks-other c (select_geo a ∷ h) p q = marks-other c h p q
  marks-other c (get_location a ∷ h) p q = marks-other c h p q
  marks-other c (insert_geo g ∷ h) p q = marks-other c h p q
  marks-other c (touch_geo i ∷ h) p q = marks-other c h p q
  marks-other c (mark_event true g i ∷ h) p q = ground (arith, marks-other c h p q)
  marks-other c (mark_event false g i ∷ h) p q = ground (arith, marks-other c h p q)

  module _ (h : History) (r o : ℕ) (hr : last_mark true id h ≡ some r)
      (ho : last_mark false id h ≡ some o) where
    pub marks-column :
        (c : Column)
        → marks id h row c
          ≡ set_column Column.origin_geo_id
              (number (pos o))
              (set_column Column.remote_geo_id (number (pos r)) row)
              c
    marks-column Column.remote_geo_id =
        marks-remote h ∙ ap (λ m. marked_value m (row Column.remote_geo_id)) hr
    marks-column Column.origin_geo_id =
        marks-origin h ∙ ap (λ m. marked_value m (row Column.origin_geo_id)) ho
    marks-column Column.id = marks-other Column.id h (omega arith) (omega arith)
    marks-column Column.dt = marks-other Column.dt h (omega arith) (omega arith)
    marks-column Column.username = marks-other Column.username h (omega arith) (omega arith)
    marks-column Column.passwd = marks-other Column.passwd h (omega arith) (omega arith)
    marks-column Column.remote_addr = marks-other Column.remote_addr h (omega arith) (omega arith)
    marks-column Column.remote_port = marks-other Column.remote_port h (omega arith) (omega arith)
    marks-column Column.remote_name = marks-other Column.remote_name h (omega arith) (omega arith)
    marks-column Column.remote_version =
        marks-other Column.remote_version h (omega arith) (omega arith)
    marks-column Column.origin_addr = marks-other Column.origin_addr h (omega arith) (omega arith)
    marks-column Column.application = marks-other Column.application h (omega arith) (omega arith)
    marks-column Column.protocol = marks-other Column.protocol h (omega arith) (omega arith)
