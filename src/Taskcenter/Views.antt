-- ===== src/Taskcenter/Views.antt =====
-- internal/taskcenter/taskcenter.go: what the center shows of its tasks.
use rocksys.Base.{
  ℤ, ltb_ℤ, ltb, Bool, true, false, ◌&&◌, List, [], ◌∷◌, ◌++◌, map, length, take, Bytes, Option,
  none, some, if◌then◌else◌, pos, pos_part,
}
use rocksys.Base.Dict.{Dict, keys}
use rocksys.Taskcenter.{Progress, Task, Entry, Center}
use rocksys.Taskcenter.Finish.{find_by_id}

-- The order of texts, byte by byte.
unfoldable pub before_text : Bytes → Bytes → Bool
before_text [] [] = false
before_text [] (d ∷ t) = true
before_text (c ∷ s) [] = false
before_text (c ∷ s) (d ∷ t) =
    let rest = before_text s t in if ltb c d then true else if ltb d c then false else rest

-- sort.Strings of texts that differ
unfoldable pub insert_text : Bytes → List Bytes → List Bytes
unfolding before_text
insert_text s [] = s ∷ []
insert_text s (t ∷ ts) =
    let rest = insert_text s ts in if before_text s t then s ∷ t ∷ ts else t ∷ rest

unfoldable pub sort_texts : List Bytes → List Bytes
unfolding insert_text
sort_texts [] = []
sort_texts (s ∷ ts) = insert_text s (sort_texts ts)

module _ {D : Type 0} where
  unfoldable pub allow_creators : Center D → List Bytes
  unfolding sort_texts
  allow_creators c = sort_texts (keys c.allow_creators)

  unfoldable pub mutex_task_field : Center D → Bytes
  mutex_task_field c = c.mutex_task_field

  unfoldable pub mutex_list : Center D → List Bytes
  mutex_list c = c.mutex_list

  unfoldable pub mutex_map : Center D → Dict Bytes (List Bytes)
  mutex_map c = c.mutex_map

  unfoldable pub snapshot : Entry D → Task D
  snapshot e = elim e.progress [ none ↦ e.task | some p ↦ record e.task { progress = some p } ]

  unfoldable pub lighter : Option (Progress D) → Option (Progress D)
  lighter none = none
  lighter (some p) = some (record { text = p.text; detail = none })

  unfoldable pub snapshot_lite : Entry D → Task D
  unfolding snapshot lighter
  snapshot_lite e = let t = snapshot e in record t { progress = lighter t.progress }

  unfoldable pub shown : Option (Entry D) → Option (Task D)
  unfolding snapshot
  shown none = none
  shown (some e) = some (snapshot e)

  unfoldable pub get : Center D → Bytes → Option (Task D)
  unfolding find_by_id shown
  get c id = shown (find_by_id c id)

  -- sort.Slice by the time of creation, the latest first.
  unfoldable pub insert_task : Task D → List (Task D) → List (Task D)
  insert_task t [] = t ∷ []
  insert_task t (u ∷ us) =
      let rest = insert_task t us in
      if ltb_ℤ t.created_at u.created_at then u ∷ rest else t ∷ u ∷ us

  unfoldable pub newest_first : List (Task D) → List (Task D)
  unfolding insert_task
  newest_first [] = []
  newest_first (t ∷ ts) = insert_task t (newest_first ts)

  unfoldable pub snapshots : Bool → List (Entry D) → List (Task D)
  unfolding snapshot snapshot_lite
  snapshots true es = map snapshot es
  snapshots false es = map snapshot_lite es

  -- The finished tasks that are shown, and whether some are left out.
  abbrev pub shown_finished : Bool → ℤ → List (Task D) → List (Task D) × Bool
  shown_finished true limit ts = (ts, false)
  shown_finished false limit ts =
      if ltb_ℤ (pos 0) limit && ltb (pos_part limit) (length ts)
      then (take (pos_part limit) ts, true)
      else (ts, false)

  unfoldable pub list : Center D → Bool → ℤ → List (Task D) × Bool
  unfolding newest_first snapshot snapshots
  list c full limit =
      let shown = shown_finished full limit (newest_first (snapshots full c.finished)) in
      (newest_first (map snapshot c.running ++ shown.0), shown.1)

  unfoldable pub list_all : Center D → List (Task D)
  unfolding list
  list_all c = (list c true (pos 0)).0

  unfoldable pub list_lite : Center D → ℤ → List (Task D) × Bool
  unfolding list
  list_lite c limit = list c false limit
